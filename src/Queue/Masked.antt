-- ===== src/Queue/Masked.antt =====
-- ihs/include/lq.hpp: `LockFreeQueue` whose indices are masked by `mask_ = Capacity - 1`, the
-- capacity a power of two.
use fast_server.Prelude.{
  ℕ, zero, suc, ◌*◌, ◌+◌, ◌-◌, ◌%◌, ◌≤◌, ◌<◌, ◌^◌, ◌≡◌, refl, sym, ap, ◌∙◌, List, Bool, true, false,
  [], ◌∷◌, Option, none, some, arith, get_or, set, leb, ◌==◌, if◌then◌else◌, add_size, sub_size,
  length,
}
use Prim.Native.Nat.{bit_and}
use native.Mathlib.Nat.{one-le-pow, add-mul-mod_self_right, mod-eq_of_lt}
use native.Mathlib.Decide.{dec_le}
use fast_server.Prelude.Mask.{bit_and-mask, pow-add}
use fast_server.Queue.Spec.{Op, push, pop, Reply, succeeded}
use fast_server.Queue.Spec
use fast_server.Queue.Modulo.{Ring}
use fast_server.Queue.Modulo
use fast_server.Queue.Items.{length-items}

last_multiple : (p c : ℕ) → 0 < p → p * c ≡ (p - 1) * c + c
last_multiple zero c h = absurd (omega arith)
last_multiple (suc p) c h = grind arith

module _ {A : Type 0} (d : A) (capacity : ℕ) where
  abbrev pub mask : ℕ
  mask = capacity - 1

  unfoldable pub enqueue : A → Ring A → Bool × Ring A
  enqueue element r =
      let next_tail = bit_and (add_size r.tail 1) mask in
      if next_tail == r.head
      then (false, r)
      else (true, record r { buffer = set r.buffer r.tail element; tail = next_tail })

  unfoldable pub dequeue : Ring A → Option A × Ring A
  dequeue r =
      if r.head == r.tail
      then (none, r)
      else (some (get_or r.buffer r.head d), record r { head = bit_and (add_size r.head 1) mask })

  unfoldable pub empty : Ring A → Bool
  empty r = r.head == r.tail

  unfoldable pub full : Ring A → Bool
  full r = bit_and (add_size r.tail 1) mask == r.head

  unfoldable pub size : Ring A → ℕ
  size r = bit_and (sub_size r.tail r.head) mask

  -- A caller's calls in order, with what each returns.
  unfoldable pub run : Ring A → List (Op A) → List (Reply A)
  run r [] = []
  run r (push x ∷ os) = let (ok, r') = enqueue x r in (ok, none) ∷ run r' os
  run r (pop ∷ os) = let (out, r') = dequeue r in (succeeded out, out) ∷ run r' os

  -- With a capacity of `2 ^ k`, the mask takes the remainder.
  pub masked : (k a : ℕ) → capacity ≡ 2 ^ k → bit_and a mask ≡ a % capacity
  masked k a e = ap (λ c. bit_and a (c - 1)) e ∙ bit_and-mask k a ∙ ap (λ c. a % c) (sym e)

  -- With a capacity of `2 ^ k`, `enqueue` and `dequeue` are `push` and `pop` of the queue that
  -- takes remainders.
  pub enqueue_modulo :
      (k : ℕ) (x : A) (r : Ring A) → capacity ≡ 2 ^ k → enqueue x r ≡ Modulo.try_push d capacity x r
  unfolding enqueue Modulo.try_push
  enqueue_modulo k x r e =
      ap
        (λ next.
          if next == r.head
          then (false, r)
          else (true, record r { buffer = set r.buffer r.tail x; tail = next }))
        (masked k (add_size r.tail 1) e)

  pub dequeue_modulo :
      (k : ℕ) (r : Ring A) → capacity ≡ 2 ^ k → dequeue r ≡ Modulo.try_pop d capacity r
  unfolding dequeue Modulo.try_pop
  dequeue_modulo k r e =
      ap
        (λ next.
          if r.head == r.tail
          then (none, r)
          else (some (get_or r.buffer r.head d), record r { head = next }))
        (masked k (add_size r.head 1) e)

  -- The difference of the indices, wrapped at `2 ^ 64` and masked, counts the elements.
  distance :
      (k h t : ℕ)
      → capacity ≡ 2 ^ k
      → k ≤ 64
      → h < capacity
      → t < capacity
      → capacity < 2 ^ 64
      → sub_size t h % capacity ≡ (if leb h t then t - h else capacity - h + t)
  distance k h t e small p q lt = elim (dec_le h t) [
    | yes b ↦ ground (
      arith,
      ap (λ n. n % capacity) {x = sub_size t h} {y = t - h} (omega arith),
      mod-eq_of_lt {n = t - h} {m = capacity} (omega arith),
    )
    | no b ↦ ground (
      arith,
      wraps,
      ap (λ n. n % capacity) {x = sub_size t h}
          {y = capacity - h + t + (2 ^ (64 - k) - 1) * capacity} (omega (arith, wraps)),
      add-mul-mod_self_right (capacity - h + t) (2 ^ (64 - k) - 1) capacity,
      mod-eq_of_lt {n = capacity - h + t} {m = capacity} (omega arith),
    )
  ]
    where
      wraps : 2 ^ 64 ≡ (2 ^ (64 - k) - 1) * capacity + capacity
      wraps = omega (
        arith,
        pow-add (64 - k) k,
        one-le-pow (64 - k) 2,
        ap (λ j. 2 ^ j) {x = 64 - k + k} {y = 64} (omega arith),
        ap (λ c. 2 ^ (64 - k) * c) e,
        last_multiple (2 ^ (64 - k)) capacity (omega (arith, one-le-pow (64 - k) 2)),
      )

  -- With a capacity of `2 ^ k`, `k` at most 64, the masked difference of the indices of a valid
  -- ring is the number of its elements.
  size_modulo :
      (k : ℕ) (r : Ring A)
      → capacity ≡ 2 ^ k
      → k ≤ 64
      → Modulo.IsValid d capacity r
      → size r ≡ length (Modulo.contents d capacity r)
  unfolding size
  size_modulo k r e small v =
      masked k (sub_size r.tail r.head) e
      ∙ distance k r.head r.tail e small v.head_in v.tail_in v.small
      ∙ sym (length-items d r.buffer capacity r.head (Modulo.count d capacity r))

  run_modulo :
      (k : ℕ) (r : Ring A) (os : List (Op A))
      → capacity ≡ 2 ^ k
      → run r os ≡ Modulo.run d capacity r os
  unfolding run Modulo.run
  run_modulo k r [] e = refl
  run_modulo k r (push x ∷ os) e =
      ap (λ p. (p.0, none) ∷ run p.1 os) (enqueue_modulo k x r e)
      ∙ ap (λ rest. ((Modulo.try_push d capacity x r).0, none) ∷ rest)
          (run_modulo k (Modulo.try_push d capacity x r).1 os e)
  run_modulo k r (pop ∷ os) e =
      ap (λ p. (succeeded p.0, p.0) ∷ run p.1 os) (dequeue_modulo k r e)
      ∙ ap
          (λ rest.
            (succeeded (Modulo.try_pop d capacity r).0, (Modulo.try_pop d capacity r).0) ∷ rest)
          (run_modulo k (Modulo.try_pop d capacity r).1 os e)

  -- With a capacity of `2 ^ k` any calls of `enqueue` and `dequeue` on a valid ring return what a
  -- first-in first-out queue of its elements returns that is full at one element less than the
  -- capacity.
  pub masked_refines_queue :
      (k : ℕ) (r : Ring A) (os : List (Op A))
      → capacity ≡ 2 ^ k
      → Modulo.IsValid d capacity r
      → run r os ≡ Spec.run (capacity - 1) (Modulo.contents d capacity r) os
  masked_refines_queue k r os e v =
      run_modulo k r os e ∙ Modulo.modulo_refines_queue d capacity r os v

  -- With a capacity of `2 ^ k`, `empty` of a valid ring tells that it has no element, and `full`
  -- that it has one less than the capacity.
  empty-full :
      (k : ℕ) (r : Ring A)
      → capacity ≡ 2 ^ k
      → Modulo.IsValid d capacity r
      → (empty r ≡ (length (Modulo.contents d capacity r) == 0))
        × (full r ≡ (length (Modulo.contents d capacity r) == capacity - 1))
  unfolding empty full
  empty-full k r e v =
      let fact = Modulo.next_index d capacity r.tail v.tail_in v.small in
      let wrap = masked k (add_size r.tail 1) e in
      let len = length-items d r.buffer capacity r.head (Modulo.count d capacity r) in
      (ground (arith, len), ground (arith, len, wrap, fact))
