-- ===== src/Queue/Flagged.antt =====
-- ihs/include/q.hpp: `LockFreeQueue` with masked indices and a ready flag in each slot, as one caller
-- uses it. The flags stand in a list beside the values.
use Prim.Native.Nat.{bit_and}
use native.Mathlib.Nat.{mod-eq_of_lt, mod-mod, mod-add-mod, mod-lt}
use fast_server.Prelude.{
  ℕ, ◌+◌, ◌-◌, ◌%◌, ◌<◌, ◌^◌, ◌≡◌, refl, sym, ap, ap₂, ◌∙◌, Bool, true, false, not, Bool-cases, inl,
  inr, List, [], ◌∷◌, Option, none, some, arith, length, length-set, get_or, set, leb, ◌==◌, All,
  if◌then◌else◌, ltb, All-append, subst, add_size, sub_size, replicate,
}
use fast_server.Queue.Spec.{Op, push, pop, Reply, enqueue, dequeue, succeeded}
use fast_server.Queue.Spec
use fast_server.Queue.Modulo.{Ring, modulo_refines_queue}
use fast_server.Queue.Modulo
use fast_server.Queue.Masked.{enqueue_modulo, dequeue_modulo}
use fast_server.Queue.Masked
use fast_server.Queue.Items.{items, items_first, items-set_outside, items-slot, other_slot}

pub record Slots (A : Type 0) : Type 0 where
  pub ring : Ring A
  pub ready : List Bool

module _ {A : Type 0} (d : A) (capacity : ℕ) where
  unfoldable pub create : Slots A
  create = record {
    ring = record { buffer = replicate capacity d; head = 0; tail = 0 };
    ready = replicate capacity false;
  }

  unfoldable pub try_push : A → Slots A → Bool × Slots A
  try_push value s =
      let r = s.ring in
      let next_tail = bit_and (add_size r.tail 1) (capacity - 1) in
      if next_tail == r.head then (false, s) else (
        true,
        record {
          ring = record r { buffer = set r.buffer r.tail value; tail = next_tail };
          ready = set s.ready r.tail true;
        },
      )

  unfoldable pub try_pop : Slots A → Option A × Slots A
  try_pop s =
      let r = s.ring in
      if r.head == r.tail
      then (none, s)
      else if not (get_or s.ready r.head false)
      then (none, s)
      else (
        some (get_or r.buffer r.head d),
        record {
          ring = record r { head = bit_and (add_size r.head 1) (capacity - 1) };
          ready = set s.ready r.head false;
        },
      )

  unfoldable pub empty : Slots A → Bool
  empty s = s.ring.head == s.ring.tail

  unfoldable pub full : Slots A → Bool
  full s = bit_and (add_size s.ring.tail 1) (capacity - 1) == s.ring.head

  unfoldable pub size : Slots A → ℕ
  size s =
      let r = s.ring in
      if leb r.head r.tail
      then sub_size r.tail r.head
      else add_size (sub_size capacity r.head) r.tail

  unfoldable pub run : Slots A → List (Op A) → List (Reply A)
  run s [] = []
  run s (push x ∷ os) = let (ok, s') = try_push x s in (ok, none) ∷ run s' os
  run s (pop ∷ os) = let (out, s') = try_pop s in (succeeded out, out) ∷ run s' os

  -- The flags as a ring of their own.
  abbrev pub flags : Slots A → Ring Bool
  flags s = record { buffer = s.ready; head = s.ring.head; tail = s.ring.tail }

  -- The ring is valid, and each element's flag is set.
  pub record IsReady (s : Slots A) : Type 0 where
    pub ring : Modulo.IsValid d capacity s.ring
    pub storage : length s.ready ≡ capacity
    pub raised : All (λ b. b ≡ true) (Modulo.contents false capacity (flags s))

  flags-IsValid : (s : Slots A) → IsReady s → Modulo.IsValid false capacity (flags s)
  flags-IsValid s v = record {
    storage = v.storage;
    small = v.ring.small;
    head_in = v.ring.head_in;
    tail_in = v.ring.tail_in;
  }

  next_slot : (h n i : ℕ) → n ≡ (h + 1) % capacity → (h + (i + 1)) % capacity ≡ (n + i) % capacity
  next_slot h n i same =
      ap (λ t. t % capacity) {y = h + 1 + i} (omega arith)
      ∙ sym (mod-add-mod (h + 1) capacity i)
      ∙ ap (λ t. (t + i) % capacity) (sym same)

  module _ (k : ℕ) (e : capacity ≡ 2 ^ k) where
    push_ring :
        (x : A) (s : Slots A)
        → ((try_push x s).0, (try_push x s).1.ring) ≡ Modulo.try_push d capacity x s.ring
    unfolding try_push Masked.enqueue
    push_ring x s = ground (arith, enqueue_modulo d capacity k x s.ring e)

    push_flags :
        (x : A) (s : Slots A)
        → flags (try_push x s).1 ≡ (Modulo.try_push false capacity true (flags s)).1
    unfolding try_push Masked.enqueue
    push_flags x s =
        ground (arith, ap (λ p. p.1) (enqueue_modulo false capacity k true (flags s) e))

    enqueue_raised :
        (limit : ℕ) (q : List Bool)
        → All (λ b. b ≡ true) q
        → All (λ b. b ≡ true) (enqueue limit true q).1
    unfolding enqueue
    enqueue_raised limit q h = elim (Bool-cases (ltb (length q) limit)) [
      | inl c ↦ rw c (All-append (λ b. b ≡ true) q true h refl)
      | inr c ↦ rw c h
    ]

    try_push-IsReady : (x : A) (s : Slots A) → IsReady s → IsReady (try_push x s).1
    try_push-IsReady x s v =
        let (valid, same) = Modulo.try_push_refines d capacity x s.ring v.ring in
        let (valid', same') =
          Modulo.try_push_refines false capacity true (flags s) (flags-IsValid s v) in
        record {
          ring = subst (λ p. Modulo.IsValid d capacity p.1) (sym (push_ring x s)) valid;
          storage = ap (λ r. length r.buffer) (push_flags x s) ∙ valid'.storage;
          raised =
              subst (λ r. All (λ b. b ≡ true) (Modulo.contents false capacity r))
                (sym (push_flags x s))
                (subst (All (λ b. b ≡ true)) (sym (ap (λ p. p.1) same')) (
                  enqueue_raised (capacity - 1) (Modulo.contents false capacity (flags s))
                    v.raised));
        }

    -- The flags of the elements, the first one apart.
    first_and_rest :
        (s : Slots A)
        → IsReady s
        → (s.ring.head == s.ring.tail) ≡ false
        → (get_or s.ready s.ring.head false ≡ true)
          × All
              (λ b. b ≡ true)
              (items false s.ready capacity (s.ring.head + 1) (Modulo.count d capacity s.ring - 1))
    first_and_rest s v h =
        let n = Modulo.count d capacity s.ring in
        let pos : 0 < n = ground (arith, h, v.ring.head_in) in
        let (first, rest) =
          subst (All (λ b. b ≡ true)) (items_first false s.ready capacity s.ring.head n pos)
            v.raised in
        (ap (λ i. get_or s.ready i false) (sym (mod-eq_of_lt v.ring.head_in)) ∙ first, rest)

    -- The flags behind a popped slot, whose own flag is cleared.
    popped_flags :
        (s : Slots A) (n : ℕ)
        → IsReady s
        → (s.ring.head == s.ring.tail) ≡ false
        → n ≡ (s.ring.head + 1) % capacity
        → (Modulo.count d capacity (record s.ring { head = n })
            ≡ Modulo.count d capacity s.ring - 1)
        → All
            (λ b. b ≡ true)
            (Modulo.contents false capacity
              (record { buffer = set s.ready s.ring.head false; head = n; tail = s.ring.tail }))
    popped_flags s n v h same fewer =
        let head = s.ring.head in
        let m = Modulo.count d capacity s.ring - 1 in
        let small : m + 1 < capacity + 1 = ground (arith, v.ring.head_in, v.ring.tail_in) in
        subst (All (λ b. b ≡ true))
          (sym (
            ap (items false (set s.ready head false) capacity n) fewer
            ∙ items-set_outside false s.ready capacity m n head false (λ i less e.
              other_slot capacity head (i + 1) (omega arith)
                (omega (arith, v.ring.head_in, v.ring.tail_in))
                (next_slot head n i same ∙ sym e ∙ sym (mod-eq_of_lt v.ring.head_in)))
            ∙ items-slot false s.ready capacity m n (head + 1)
                (ap (λ t. t % capacity) same ∙ mod-mod (head + 1) capacity)))
          (first_and_rest s v h).1

    pop_ring :
        (s : Slots A)
        → IsReady s
        → ((try_pop s).0, (try_pop s).1.ring) ≡ Modulo.try_pop d capacity s.ring
    unfolding try_pop Masked.dequeue
    pop_ring s v =
        let first : (s.ring.head == s.ring.tail) ≡ false → get_or s.ready s.ring.head false ≡ true =
          λ h. (first_and_rest s v h).0 in
        ground (arith, dequeue_modulo d capacity k s.ring e, first)

    try_pop-IsReady : (s : Slots A) → IsReady s → IsReady (try_pop s).1
    unfolding try_pop
    try_pop-IsReady s v = elim (Bool-cases (s.ring.head == s.ring.tail)) [
      | inl h ↦ rw h v
      | inr h ↦
          let next : bit_and (add_size s.ring.head 1) (capacity - 1)
              ≡ (s.ring.head + 1) % capacity =
            Masked.masked d capacity k (add_size s.ring.head 1) e
            ∙ ap (λ t. t % capacity) (omega (arith, v.ring.head_in, v.ring.small)) in
          let place = Modulo.next_index d capacity s.ring.head v.ring.head_in v.ring.small in
          let n = bit_and (add_size s.ring.head 1) (capacity - 1) in
          let masked = Masked.masked d capacity k (add_size s.ring.head 1) e in
          let fewer : Modulo.count d capacity (record s.ring { head = n })
              ≡ Modulo.count d capacity s.ring - 1 =
            ground (arith, place, masked, h, v.ring.tail_in) in
          rw (h, (first_and_rest s v h).0)
            record {
              ring = record {
                storage = v.ring.storage;
                small = v.ring.small;
                head_in = omega (
                  arith,
                  next,
                  mod-lt (s.ring.head + 1) {m = capacity} (omega (arith, v.ring.head_in)),
                );
                tail_in = v.ring.tail_in;
              };
              storage = length-set s.ready s.ring.head false ∙ v.storage;
              raised = popped_flags s n v h next fewer;
            }
    ]

    flagged_run :
        (s : Slots A) (os : List (Op A)) → IsReady s → run s os ≡ Modulo.run d capacity s.ring os
    unfolding run Modulo.run
    flagged_run s [] v = refl
    flagged_run s (push x ∷ os) v =
        ap₂ (λ ok rest. (ok, none) ∷ rest) (ap (λ p. p.0) (push_ring x s))
          (flagged_run (try_push x s).1 os (try_push-IsReady x s v)
            ∙ ap (λ p. Modulo.run d capacity p.1 os) (push_ring x s))
    flagged_run s (pop ∷ os) v =
        ap₂ (λ out rest. (succeeded out, out) ∷ rest) (ap (λ p. p.0) (pop_ring s v))
          (flagged_run (try_pop s).1 os (try_pop-IsReady s v)
            ∙ ap (λ p. Modulo.run d capacity p.1 os) (pop_ring s v))

    -- With a capacity of `2 ^ k` any calls of `try_push` and `try_pop` on a valid ring whose elements'
    -- flags are set return what a first-in first-out queue of its elements returns that is full at
    -- one element less than the capacity.
    pub flagged_refines_queue :
        (s : Slots A) (os : List (Op A))
        → IsReady s
        → run s os ≡ Spec.run (capacity - 1) (Modulo.contents d capacity s.ring) os
    flagged_refines_queue s os v =
        flagged_run s os v ∙ modulo_refines_queue d capacity s.ring os v.ring
