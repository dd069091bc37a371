-- ===== src/Queue/Counter.antt =====
-- ihs/include/kk.hpp: `SPSCRingBuffer`, whose `head_` and `tail_` count all pops and pushes at 64
-- bits and wrap around, as one caller uses it. Every slot can be filled.
use Prim.Native.Nat.{bit_and}
use native.Mathlib.Nat.{pow-le-pow_right}
use fast_server.Prelude.{
  ℕ, suc, ◌+◌, ◌-◌, ◌%◌, ◌≤◌, ◌<◌, ◌^◌, ◌≡◌, refl, sym, ap, ap₂, ◌∙◌, Bool, true, false, List, [],
  ◌∷◌, ◌++◌, Option, none, some, arith, length, length-set, get_or, set, ltb, ◌==◌, if◌then◌else◌,
  add_size, sub_size,
}
use fast_server.Prelude.Mask.{bit_and-mask, wrapped-mod}
use fast_server.Queue.Spec.{Op, push, pop, Reply, enqueue, dequeue, succeeded}
use fast_server.Queue.Spec
use fast_server.Queue.Modulo.{Ring}
use fast_server.Queue.Items.{items, length-items, items-slot, items_first, items-set}

module _ {A : Type 0} (d : A) (capacity : ℕ) where
  unfoldable pub push_item : A → Ring A → Bool × Ring A
  push_item item r =
      let next_tail = add_size r.tail 1 in
      if ltb capacity (sub_size next_tail r.head) then (false, r) else (
        true,
        record r { buffer = set r.buffer (bit_and r.tail (capacity - 1)) item; tail = next_tail },
      )

  unfoldable pub pop_item : Ring A → Option A × Ring A
  pop_item r = if r.head == r.tail then (none, r) else (
    some (get_or r.buffer (bit_and r.head (capacity - 1)) d),
    record r { head = add_size r.head 1 },
  )

  -- A caller's calls in order, with what each returns.
  unfoldable pub run : Ring A → List (Op A) → List (Reply A)
  run r [] = []
  run r (push x ∷ os) = let (ok, r') = push_item x r in (ok, none) ∷ run r' os
  run r (pop ∷ os) = let (out, r') = pop_item r in (succeeded out, out) ∷ run r' os

  abbrev pub count : Ring A → ℕ
  count r = sub_size r.tail r.head

  pub record IsValid (r : Ring A) : Type 0 where
    pub storage : length r.buffer ≡ capacity
    pub room : count r ≤ capacity
    pub head_in : r.head < 2 ^ 64
    pub tail_in : r.tail < 2 ^ 64

  abbrev pub contents : Ring A → List A
  contents r = items d r.buffer capacity r.head (count r)

  module _ (k : ℕ) (e : capacity ≡ 2 ^ k) (small : k < 64) where
    below : capacity ≤ 2 ^ 63
    below = omega (arith, e, pow-le-pow_right {n = 2} (omega arith) {i = k} {j = 63} (omega arith))

    slot : (a : ℕ) → bit_and a (capacity - 1) ≡ a % capacity
    slot a = ap (λ c. bit_and a (c - 1)) e ∙ bit_and-mask k a ∙ ap (λ c. a % c) (sym e)

    wrapped : (a : ℕ) → a % 2 ^ 64 % capacity ≡ a % capacity
    wrapped a =
        ap (λ c. a % 2 ^ 64 % c) e ∙ wrapped-mod 64 k a (omega arith) ∙ ap (λ c. a % c) (sym e)

    -- The tail stands for the slot behind the last element.
    tail-slot :
        (r : Ring A) → IsValid r → bit_and r.tail (capacity - 1) ≡ (r.head + count r) % capacity
    tail-slot r v =
        slot r.tail
        ∙ ap (λ t. t % capacity) {y = (r.head + count r) % 2 ^ 64}
            (omega (arith, v.head_in, v.tail_in))
        ∙ wrapped (r.head + count r)

    pushed :
        (x : A) (r : Ring A)
        → IsValid r
        → count r < capacity
        → (count (record r { tail = add_size r.tail 1 }) ≡ suc (count r))
          × (contents (record r {
            buffer = set r.buffer (bit_and r.tail (capacity - 1)) x;
            tail = add_size r.tail 1;
          })
              ≡ contents r ++ x ∷ [])
    pushed x r v less = (
      next,
      ap (items d (set r.buffer (bit_and r.tail (capacity - 1)) x) capacity r.head) next
          ∙ items-set d r.buffer capacity (count r) r.head (bit_and r.tail (capacity - 1)) x
              (omega (arith, v.storage)) less (tail-slot r v),
    )
      where
        next : count (record r { tail = add_size r.tail 1 }) ≡ suc (count r)
        next = omega (arith, v.head_in, v.tail_in, below)

    -- `push` does what the bounded queue of `capacity` places does, also where a count wraps
    -- around, and keeps the ring valid.
    pub push_item_refines :
        (x : A) (r : Ring A)
        → IsValid r
        → let (ok, r') = push_item x r in
          IsValid r' × ((ok, contents r') ≡ enqueue capacity x (contents r))
    unfolding push_item enqueue
    push_item_refines x r v = ground (
      arith,
      below,
      length-set r.buffer (bit_and r.tail (capacity - 1)) x,
      length-items d r.buffer capacity r.head (count r),
      pushed x r v,
    )

    popped :
        (r : Ring A)
        → IsValid r
        → 0 < count r
        → (count (record r { head = add_size r.head 1 }) ≡ count r - 1)
          × (contents r
              ≡ get_or r.buffer (bit_and r.head (capacity - 1)) d
                ∷ contents (record r { head = add_size r.head 1 }))
    popped r v pos = (
      next,
      items_first d r.buffer capacity r.head (count r) pos
          ∙ ap₂ (λ i xs. get_or r.buffer i d ∷ xs) (sym (slot r.head))
              (items-slot d r.buffer capacity (count r - 1) (r.head + 1) (add_size r.head 1)
                  (sym (wrapped (r.head + 1)))
                ∙ ap (items d r.buffer capacity (add_size r.head 1)) (sym next)),
    )
      where
        next : count (record r { head = add_size r.head 1 }) ≡ count r - 1
        next = omega (arith, v.head_in, v.tail_in, pos)

    pub pop_item_refines :
        (r : Ring A)
        → IsValid r
        → let (out, r') = pop_item r in IsValid r' × ((out, contents r') ≡ dequeue (contents r))
    unfolding pop_item dequeue
    pop_item_refines r v = ground (arith, popped r v)

    -- With a capacity of `2 ^ k`, `k` below 64, any calls of `push` and `pop` on a valid ring return
    -- what a first-in first-out queue of its elements returns that is full at the capacity, also
    -- where the counts wrap around at 2 ^ 64.
    pub counter_refines_queue :
        (r : Ring A) (os : List (Op A)) → IsValid r → run r os ≡ Spec.run capacity (contents r) os
    unfolding run Spec.run
    counter_refines_queue r [] v = refl
    counter_refines_queue r (push x ∷ os) v =
        let fact = push_item_refines x r v in
        ap₂ (λ ok rest. (ok, none) ∷ rest) (ap (λ p. p.0) fact.1)
          (counter_refines_queue (push_item x r).1 os fact.0
            ∙ ap (λ p. Spec.run capacity p.1 os) fact.1)
    counter_refines_queue r (pop ∷ os) v =
        let fact = pop_item_refines r v in
        ap₂ (λ out rest. (succeeded out, out) ∷ rest) (ap (λ p. p.0) fact.1)
          (counter_refines_queue (pop_item r).1 os fact.0
            ∙ ap (λ p. Spec.run capacity p.1 os) fact.1)
