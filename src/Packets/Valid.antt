-- ===== src/Packets/Valid.antt =====
-- ihs/src/what.cpp: what holds of the program between two steps, and what a step is to keep.

use fast_server.Prelude.{
  ℕ, ◌+◌, ◌<◌, ◌≡◌, refl, sym, subst, arith, List, [], ◌∷◌, ◌==◌, Bool-cases, inl, inr,
}
use fast_server.Queue.Modulo.{Ring}
use fast_server.Queue.Modulo
use fast_server.Producers.{put}
use fast_server.Producers.Slots.{put_self, put_ne}
use fast_server.Packets
use fast_server.Packets.{
  Program, Receiver, polling, receiving, dispatching, filling, publishing, Worker, idle, reading,
  moving, busy, MemoryPool, Step, receives, works, packet, would_block, failed, Received, ring_full,
  ring_empty, put_item, store_tail, front_item, store_head,
}
use fast_server.Packets.Weights
use fast_server.Packets.Accesses.{WorkerOk, ReceiverOk}

-- The rings are well formed, the receiving loop's turn is a worker's, and where the threads stand in
-- `push` and `pop` agrees with the rings.
pub record IsValid (queue_size worker_threads : ℕ) (s : Program) : Type 0 where
  pub rings : (i : ℕ) → Modulo.IsValid 0 queue_size (s.queues i)
  pub turn : s.worker_index < worker_threads
  pub receiving_ok : ReceiverOk queue_size (s.queues s.worker_index) s.receiver
  pub working_ok : (i : ℕ) → WorkerOk queue_size (s.queues i) (s.workers i)

-- A property of every place holds when one place changes.
pub put-all :
    {A : Type 0} (P : ℕ → A → Type 0) (f : ℕ → A) (i : ℕ) (x : A)
    → ((j : ℕ) → P j (f j))
    → P i x
    → (j : ℕ) → P j (put f i x j)
put-all P f i x h p j = elim (Bool-cases (j == i)) [
  | inl same ↦
      subst (P j) (sym (put_self f i j x (ground arith))) (subst (λ k. P k x) (ground arith) p)
  | inr other ↦ subst (P j) (sym (put_ne f i j x (ground arith))) (h j)
]

pub put_here : {A : Type 0} (f : ℕ → A) (i : ℕ) (x : A) → put f i x i ≡ x
put_here f i x = put_self f i i x refl

module _ (w : ℕ → ℕ) (queue_size worker_threads : ℕ) where
  abbrev pub weigh : List ℕ → ℕ
  weigh = Weights.weigh w

  abbrev contents : Ring ℕ → List ℕ
  contents = Modulo.contents 0 queue_size

  -- A step keeps the weight and the invariant.
  abbrev pub Kept : Program → Program → Type 0
  Kept s t =
      IsValid queue_size worker_threads t
      × (Weights.weight w queue_size worker_threads t
          ≡ Weights.weight w queue_size worker_threads s)

  pub release-weigh :
      (b : ℕ) (p : MemoryPool) → weigh (Packets.release b p).free_list ≡ weigh p.free_list + w b
  unfolding Packets.release
  release-weigh b p = omega (arith, Weights.weigh-append w p.free_list (b ∷ []))
