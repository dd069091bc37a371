-- ===== src/Packets/Conserved.antt =====
-- ihs/src/what.cpp: no buffer is lost or in two places.
use fast_server.Prelude.{
  ℕ, zero, suc, ◌^◌, ◌≤◌, ◌<◌, ◌≡◌, refl, ◌∙◌, arith, List, [], ◌∷◌, ◌==◌, if◌then◌else◌,
}
use fast_server.Packets
use fast_server.Packets.{Program, Step}
use fast_server.Packets.Weights
use fast_server.Packets.Moves.{steps-Kept, start-weight, start-IsValid}

-- How often a buffer stands in the free list, with the receiving loop until it has stored the tail,
-- in the queues until a worker has stored the head, and with a worker.
abbrev pub places_of : ℕ → ℕ → ℕ → Program → ℕ
places_of b queue_size worker_threads s =
    Weights.weight (λ x. if x == b then 1 else 0) queue_size worker_threads s

above-weigh :
    (b n : ℕ) → n ≤ b → Weights.weigh (λ x. if x == b then 1 else 0) (Packets.buffers_below n) ≡ 0
unfolding Packets.buffers_below
above-weigh b zero h = refl
above-weigh b (suc n) h = ground (
  arith,
  above-weigh b n,
  Weights.weigh-append (λ x. if x == b then 1 else 0) (Packets.buffers_below n) (n ∷ []),
)

below-weigh :
    (b n : ℕ) → b < n → Weights.weigh (λ x. if x == b then 1 else 0) (Packets.buffers_below n) ≡ 1
unfolding Packets.buffers_below
below-weigh b zero h = absurd (omega arith)
below-weigh b (suc n) h = ground (
  arith,
  below-weigh b n,
  above-weigh b n,
  Weights.weigh-append (λ x. if x == b then 1 else 0) (Packets.buffers_below n) (n ∷ []),
)

-- In any order of the threads' steps, the accesses of `push` and `pop` to the ring taken one by one, and
-- with any outcomes of `recvfrom`, each of the pool's buffers is in one place: in the free list, with
-- the receiving loop until it has stored the tail, in a queue until a worker has stored the head, or
-- with a worker, and there once. So none is lost and no two threads use one, if each access sees the
-- ones before it. There is a worker and the size of the queues is between 1 and 2 ^ 64 - 1.
pub buffer_conserved :
    (queue_size worker_threads n b : ℕ) (xs : List Step)
    → 0 < queue_size
    → queue_size < 2 ^ 64
    → 0 < worker_threads
    → b < n
    → places_of b queue_size worker_threads
        (Packets.steps queue_size worker_threads xs (Packets.start queue_size worker_threads n))
      ≡ 1
buffer_conserved queue_size worker_threads n b xs h k l m =
    let w = λ (x : ℕ). if x == b then 1 else 0 in
    (steps-Kept w queue_size worker_threads xs (Packets.start queue_size worker_threads n)
      (start-IsValid w queue_size worker_threads n h k l)).1
    ∙ start-weight w queue_size worker_threads n
    ∙ below-weigh b n m
