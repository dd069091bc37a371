-- ===== src/Queue/Modulo.antt =====
-- ihs/include/lock_queue.hpp: `LockFreeQueue` with indices taken `% Capacity`, as one caller uses
-- it. One slot stays free, so that a full ring is told from an empty one.
use native.Mathlib.Nat.{mod-eq_of_lt, mod-mod, mod_self, add-mod_right}
use native.Mathlib.Decide.{dec_lt}
use fast_server.Prelude.{
  ℕ, suc, ◌+◌, ◌-◌, ◌%◌, ◌<◌, ◌^◌, ◌≡◌, ◌⊎◌, refl, sym, ap, ap₂, ◌∙◌, Bool, true, false, List, [],
  ◌∷◌, ◌++◌, Option, none, some, arith, length, length-set, get_or, set, leb, ◌==◌, if◌then◌else◌,
  add_size, sub_size, Bool-cases, inl, inr, replicate, length-replicate,
}
use fast_server.Queue.Spec.{Op, push, pop, Reply, enqueue, dequeue, succeeded}
use fast_server.Queue.Spec
use fast_server.Queue.Items.{items, length-items, items-slot, items_first, items-set}

pub record Ring (A : Type 0) : Type 0 where
  pub buffer : List A
  pub head : ℕ
  pub tail : ℕ

module _ {A : Type 0} (d : A) (capacity : ℕ) where
  unfoldable pub create : Ring A
  create = record { buffer = replicate capacity d; head = 0; tail = 0 }

  unfoldable pub try_push : A → Ring A → Bool × Ring A
  try_push item r =
      let next_tail = add_size r.tail 1 % capacity in
      if next_tail == r.head
      then (false, r)
      else (true, record r { buffer = set r.buffer r.tail item; tail = next_tail })

  unfoldable pub try_pop : Ring A → Option A × Ring A
  try_pop r =
      if r.head == r.tail
      then (none, r)
      else (some (get_or r.buffer r.head d), record r { head = add_size r.head 1 % capacity })

  unfoldable pub size : Ring A → ℕ
  size r =
      if leb r.head r.tail
      then sub_size r.tail r.head
      else add_size (sub_size capacity r.head) r.tail

  -- A caller's calls in order, with what each returns.
  unfoldable pub run : Ring A → List (Op A) → List (Reply A)
  run r [] = []
  run r (push x ∷ os) = let (ok, r') = try_push x r in (ok, none) ∷ run r' os
  run r (pop ∷ os) = let (out, r') = try_pop r in (succeeded out, out) ∷ run r' os

  pub record IsValid (r : Ring A) : Type 0 where
    pub storage : length r.buffer ≡ capacity
    pub small : capacity < 2 ^ 64
    pub head_in : r.head < capacity
    pub tail_in : r.tail < capacity

  -- How many elements the ring holds.
  abbrev pub count : Ring A → ℕ
  count r = if leb r.head r.tail then r.tail - r.head else capacity - r.head + r.tail

  abbrev pub contents : Ring A → List A
  contents r = items d r.buffer capacity r.head (count r)

  pub create-IsValid : 0 < capacity → capacity < 2 ^ 64 → IsValid create
  unfolding create
  create-IsValid h k = record {
    storage = length-replicate capacity d;
    small = k;
    head_in = h;
    tail_in = h;
  }

  -- The next index, without wrap-around at 2 ^ 64.
  pub next_index :
      (i : ℕ)
      → i < capacity
      → capacity < 2 ^ 64
      → ((i + 1 < capacity) × (add_size i 1 % capacity ≡ i + 1))
        ⊎ ((i + 1 ≡ capacity) × (add_size i 1 % capacity ≡ 0))
  next_index i h k = elim (dec_lt (i + 1) capacity) [
    | yes below ↦ inl (below, wrapped ∙ mod-eq_of_lt below)
    | no last ↦ inr (
      omega arith,
      wrapped ∙ ap (λ t. t % capacity) {y = capacity} (omega arith) ∙ mod_self capacity,
    )
  ]
    where
      wrapped : add_size i 1 % capacity ≡ (i + 1) % capacity
      wrapped = ap (λ t. t % capacity) (omega arith)

  -- The tail is the slot behind the last element.
  pub tail-slot : (r : Ring A) → IsValid r → r.tail ≡ (r.head + count r) % capacity
  tail-slot r v = elim (Bool-cases (leb r.head r.tail)) [
    | inl e ↦ sym (ap (λ t. t % capacity) {y = r.tail} (ground arith) ∙ mod-eq_of_lt v.tail_in)
    | inr e ↦ sym (
        ap (λ t. t % capacity) {y = r.tail + capacity} (ground arith)
        ∙ add-mod_right r.tail capacity
        ∙ mod-eq_of_lt v.tail_in)
  ]

  -- `size` of a valid ring is the number of its elements.
  size-contents : (r : Ring A) → IsValid r → size r ≡ length (contents r)
  unfolding size
  size-contents r v = ground (arith, length-items d r.buffer capacity r.head (count r))

  -- What a write to the free slot makes of the elements.
  pushed :
      (x : A) (r : Ring A) (next : ℕ)
      → IsValid r
      → count (record r { tail = next }) ≡ suc (count r)
      → suc (count r) < capacity
      → contents (record r { buffer = set r.buffer r.tail x; tail = next }) ≡ contents r ++ x ∷ []
  pushed x r next v e less =
      ap (items d (set r.buffer r.tail x) capacity r.head) e
      ∙ items-set d r.buffer capacity (count r) r.head r.tail x (omega arith) (omega arith)
          (tail-slot r v)

  -- `push` does what the bounded queue with one place less than the capacity does, and keeps the
  -- ring valid.
  pub try_push_refines :
      (x : A) (r : Ring A)
      → IsValid r
      → let (ok, r') = try_push x r in
        IsValid r' × ((ok, contents r') ≡ enqueue (capacity - 1) x (contents r))
  unfolding try_push enqueue
  try_push_refines x r v =
      let fact = next_index r.tail v.tail_in v.small in
      ground (
        arith,
        fact,
        length-set r.buffer r.tail x,
        length-items d r.buffer capacity r.head (count r),
        pushed x r (add_size r.tail 1 % capacity) v,
      )

  popped :
      (r : Ring A) (next : ℕ)
      → IsValid r
      → 0 < count r
      → next ≡ (r.head + 1) % capacity
      → count (record r { head = next }) ≡ count r - 1
      → contents r ≡ get_or r.buffer r.head d ∷ contents (record r { head = next })
  popped r next v pos e less =
      items_first d r.buffer capacity r.head (count r) pos
      ∙ ap₂ (λ i xs. get_or r.buffer i d ∷ xs) (mod-eq_of_lt v.head_in)
          (items-slot d r.buffer capacity (count r - 1) (r.head + 1) next
              (sym (mod-mod (r.head + 1) capacity) ∙ ap (λ t. t % capacity) (sym e))
            ∙ ap (items d r.buffer capacity next) (sym less))

  pub try_pop_refines :
      (r : Ring A)
      → IsValid r
      → let (out, r') = try_pop r in IsValid r' × ((out, contents r') ≡ dequeue (contents r))
  unfolding try_pop dequeue
  try_pop_refines r v =
      let fact = next_index r.head v.head_in v.small in
      ground (arith, fact, popped r (add_size r.head 1 % capacity) v)

  -- Any calls of `push` and `pop` on a valid ring return what a first-in first-out queue of its
  -- elements returns that is full at one element less than the capacity.
  pub modulo_refines_queue :
      (r : Ring A) (os : List (Op A))
      → IsValid r
      → run r os ≡ Spec.run (capacity - 1) (contents r) os
  unfolding run Spec.run
  modulo_refines_queue r [] v = refl
  modulo_refines_queue r (push x ∷ os) v =
      let fact = try_push_refines x r v in
      ap₂ (λ ok rest. (ok, none) ∷ rest) (ap (λ p. p.0) fact.1)
        (modulo_refines_queue (try_push x r).1 os fact.0
          ∙ ap (λ p. Spec.run (capacity - 1) p.1 os) fact.1)
  modulo_refines_queue r (pop ∷ os) v =
      let fact = try_pop_refines r v in
      ap₂ (λ out rest. (succeeded out, out) ∷ rest) (ap (λ p. p.0) fact.1)
        (modulo_refines_queue (try_pop r).1 os fact.0
          ∙ ap (λ p. Spec.run (capacity - 1) p.1 os) fact.1)
