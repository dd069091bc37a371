-- ===== src/Queue/Counted.antt =====
-- ihs/include/kk.hpp: the first `MPSCQueue`, whose counts grow with no wrap-around in mind and whose
-- producer keeps a copy of `tail` in `cache_tail`, and the first `SPSCQueue`, which has no copy. Both
-- as one caller uses them; here the producer's count is `head`.
use Prim.Native.Nat.{bit_and}
use fast_server.Prelude.{
  ℕ, suc, ◌+◌, ◌-◌, ◌≤◌, ◌<◌, ◌^◌, ◌≡◌, refl, ap, ap₂, ◌∙◌, Bool, true, false, List, [], ◌∷◌,
  Option, none, some, arith, length, get_or, set, leb, ltb, if◌then◌else◌, add_size, sub_size,
}
use fast_server.Queue.Spec.{Op, push, pop, Reply, succeeded}
use fast_server.Queue.Spec
use fast_server.Queue.Modulo.{Ring}
use fast_server.Queue.Counter.{push_item, pop_item, counter_refines_queue}
use fast_server.Queue.Counter

pub record Counted (A : Type 0) : Type 0 where
  pub buffer : List A
  pub head : ℕ
  pub tail : ℕ
  pub cache_tail : ℕ

module _ {A : Type 0} (d : A) (capacity : ℕ) where
  -- The write to the slot of `head` and its store.
  abbrev pub publish : A → Counted A → Counted A
  publish value c = record c {
    buffer = set c.buffer (bit_and c.head (capacity - 1)) value;
    head = add_size c.head 1;
  }

  -- `MPSCQueue::enqueue`.
  unfoldable pub enqueue : A → Counted A → Bool × Counted A
  enqueue value c =
      let next_head = add_size c.head 1 in
      let c' = record c { cache_tail = c.tail } in
      if ltb capacity (sub_size next_head c.cache_tail)
      then if ltb capacity (sub_size next_head c'.cache_tail)
        then (false, c')
        else (true, publish value c')
      else (true, publish value c)

  -- `SPSCQueue::enqueue`.
  unfoldable pub enqueue_spsc : A → Counted A → Bool × Counted A
  enqueue_spsc value c =
      if ltb capacity (sub_size (add_size c.head 1) c.tail)
      then (false, c)
      else (true, publish value c)

  -- `dequeue` of either.
  unfoldable pub dequeue : Counted A → Option A × Counted A
  dequeue c = if leb c.head c.tail then (none, c) else (
    some (get_or c.buffer (bit_and c.tail (capacity - 1)) d),
    record c { tail = add_size c.tail 1 },
  )

  module _ (enqueue_one : A → Counted A → Bool × Counted A) where
    unfoldable pub run_with : Counted A → List (Op A) → List (Reply A)
    run_with c [] = []
    run_with c (push x ∷ os) = let (ok, c') = enqueue_one x c in (ok, none) ∷ run_with c' os
    run_with c (pop ∷ os) = let (out, c') = dequeue c in (succeeded out, out) ∷ run_with c' os

  -- The ring that the counts stand for.
  abbrev pub as_ring : Counted A → Ring A
  as_ring c = record { buffer = c.buffer; head = c.tail; tail = c.head }

  -- The counts are in order, and `room` calls on they still do not wrap around.
  pub record IsCounted (room : ℕ) (c : Counted A) : Type 0 where
    pub cached : c.cache_tail ≤ c.tail
    pub ordered : c.tail ≤ c.head
    pub small : c.head + room < 2 ^ 64

  enqueue_ring :
      (room : ℕ) (x : A) (c : Counted A)
      → IsCounted (suc room) c
      → IsCounted room (enqueue x c).1
        × (((enqueue x c).0, as_ring (enqueue x c).1) ≡ push_item d capacity x (as_ring c))
  unfolding enqueue push_item
  enqueue_ring room x c v = ground arith

  enqueue_spsc_ring :
      (room : ℕ) (x : A) (c : Counted A)
      → IsCounted (suc room) c
      → IsCounted room (enqueue_spsc x c).1
        × (((enqueue_spsc x c).0, as_ring (enqueue_spsc x c).1)
            ≡ push_item d capacity x (as_ring c))
  unfolding enqueue_spsc push_item
  enqueue_spsc_ring room x c v = ground arith

  dequeue_ring :
      (room : ℕ) (c : Counted A)
      → IsCounted (suc room) c
      → IsCounted room (dequeue c).1
        × (((dequeue c).0, as_ring (dequeue c).1) ≡ pop_item d capacity (as_ring c))
  unfolding dequeue pop_item
  dequeue_ring room c v = ground arith

  counted_run :
      (enqueue_one : A → Counted A → Bool × Counted A)
      → ((room : ℕ) (x : A) (c : Counted A)
          → IsCounted (suc room) c
          → IsCounted room (enqueue_one x c).1
            × (((enqueue_one x c).0, as_ring (enqueue_one x c).1)
                ≡ push_item d capacity x (as_ring c)))
      → (c : Counted A) (os : List (Op A)) → IsCounted (length os) c
      → run_with enqueue_one c os ≡ Counter.run d capacity (as_ring c) os
  unfolding run_with Counter.run
  counted_run enq h c [] v = refl
  counted_run enq h c (push x ∷ os) v =
      let (v', e) = h (length os) x c v in
      ap₂ (λ ok rest. (ok, none) ∷ rest) (ap (λ p. p.0) e)
        (counted_run enq h (enq x c).1 os v' ∙ ap (λ p. Counter.run d capacity p.1 os) e)
  counted_run enq h c (pop ∷ os) v =
      let (v', e) = dequeue_ring (length os) c v in
      ap₂ (λ out rest. (succeeded out, out) ∷ rest) (ap (λ p. p.0) e)
        (counted_run enq h (dequeue c).1 os v' ∙ ap (λ p. Counter.run d capacity p.1 os) e)

  module _ (k : ℕ) (e : capacity ≡ 2 ^ k) (small : k < 64) where
    -- With a capacity of `2 ^ k`, `k` below 64, any calls of `MPSCQueue::enqueue` and `dequeue` by one
    -- caller, on a valid ring whose counts do not reach 2 ^ 64 in these calls, return what a
    -- first-in first-out queue of its elements returns that is full at the capacity: the old copy
    -- of `tail` never makes `enqueue` refuse a value for which there is room.
    counted_refines_queue :
        (c : Counted A) (os : List (Op A))
        → IsCounted (length os) c
        → Counter.IsValid d capacity (as_ring c)
        → run_with enqueue c os ≡ Spec.run capacity (Counter.contents d capacity (as_ring c)) os
    counted_refines_queue c os v w =
        counted_run enqueue enqueue_ring c os v
        ∙ counter_refines_queue d capacity k e small (as_ring c) os w

    -- With a capacity of `2 ^ k`, `k` below 64, any calls of `SPSCQueue::enqueue` and `dequeue` by one
    -- caller, on a valid ring whose counts do not reach 2 ^ 64 in these calls, return what a
    -- first-in first-out queue of its elements returns that is full at the capacity.
    counted_spsc_refines_queue :
        (c : Counted A) (os : List (Op A))
        → IsCounted (length os) c
        → Counter.IsValid d capacity (as_ring c)
        → run_with enqueue_spsc c os
          ≡ Spec.run capacity (Counter.contents d capacity (as_ring c)) os
    counted_spsc_refines_queue c os v w =
        counted_run enqueue_spsc enqueue_spsc_ring c os v
        ∙ counter_refines_queue d capacity k e small (as_ring c) os w
