-- ===== src/Producers/Slots.antt =====
-- ihs/include/kk.hpp, `MPSCRingBuffer`: the slots of the positions, and writes to one slot.
use Prim.Native.Nat.{bit_and}
use native.Mathlib.Nat.{add-mul-mod_self_right}
use fast_server.Prelude.{
  ℕ, zero, suc, ◌+◌, ◌-◌, ◌*◌, ◌%◌, ◌^◌, ◌≤◌, ◌<◌, ◌≡◌, ◌≢◌, refl, sym, ap, ltb, Bool-cases, inl,
  inr, tests, ◌∙◌, arith, List, [], ◌∷◌, ◌++◌, some, length, get_elem?, take,
}
use fast_server.Prelude.Mask.{bit_and-mask}
use fast_server.Queue.Items.{other_slot}
use fast_server.Producers.{put, slot_index}

pub put_self : {A : Type 0} (f : ℕ → A) (i j : ℕ) (x : A) → j ≡ i → put f i x j ≡ x
unfolding put
put_self f i j x e = ground arith

pub put_ne : {A : Type 0} (f : ℕ → A) (i j : ℕ) (x : A) → j ≢ i → put f i x j ≡ f j
unfolding put
put_ne f i j x h = ground arith

module _ (capacity k : ℕ) (e : capacity ≡ 2 ^ k) where
  pub slot_mod : (n : ℕ) → slot_index capacity n ≡ n % capacity
  slot_mod n = ap (λ m. bit_and n (m - 1)) e ∙ bit_and-mask k n ∙ ap (λ m. n % m) (sym e)

  pub slot_ne : (p q : ℕ) → p < q → q < p + capacity → slot_index capacity p ≢ slot_index capacity q
  slot_ne p q h l same = other_slot capacity p (q - p) (omega arith) (omega arith) (
      ap (λ n. n % capacity) {x = p + (q - p)} (omega arith)
      ∙ sym (slot_mod q)
      ∙ sym same
      ∙ slot_mod p)

  pub slot_again : (p : ℕ) → slot_index capacity (p + capacity) ≡ slot_index capacity p
  slot_again p =
      slot_mod (p + capacity)
      ∙ ap (λ n. n % capacity) {x = p + capacity} {y = p + 1 * capacity} (omega arith)
      ∙ add-mul-mod_self_right p 1 capacity
      ∙ sym (slot_mod p)

  -- Positions of one window that share a slot are the same.
  pub slot_injective :
      (c p q : ℕ)
      → c ≤ p
      → p < c + capacity
      → c ≤ q
      → q < c + capacity
      → slot_index capacity p ≡ slot_index capacity q
      → p ≡ q
  slot_injective c p q a b a' b' s = elim (Bool-cases (ltb p q)) [
    | inl h ↦ absurd (slot_ne p q (omega (tests, h)) (omega arith) s)
    | inr h ↦ elim (Bool-cases (ltb q p)) [
      | inl h2 ↦ absurd (slot_ne q p (omega (tests, h2)) (omega arith) (sym s))
      | inr h2 ↦ ground arith
    ]
  ]

pub get_elem?-append_lt :
    {A : Type 0} (xs ys : List A) (i : ℕ) → i < length xs → get_elem? (xs ++ ys) i ≡ get_elem? xs i
get_elem?-append_lt [] ys i h = absurd (omega arith)
get_elem?-append_lt (x ∷ xs) ys zero h = refl
get_elem?-append_lt (x ∷ xs) ys (suc i) h = get_elem?-append_lt xs ys i (omega arith)

pub get_elem?-append_end :
    {A : Type 0} (xs : List A) (x : A) (i : ℕ) → i ≡ length xs → get_elem? (xs ++ x ∷ []) i ≡ some x
get_elem?-append_end [] x zero e = refl
get_elem?-append_end [] x (suc i) e = absurd (omega arith)
get_elem?-append_end (y ∷ xs) x zero e = absurd (omega arith)
get_elem?-append_end (y ∷ xs) x (suc i) e = get_elem?-append_end xs x i (omega arith)

-- One element more of a list.
pub take-suc :
    {A : Type 0} (xs : List A) (x : A) (n : ℕ)
    → get_elem? xs n ≡ some x
    → take (suc n) xs ≡ take n xs ++ x ∷ []
take-suc [] x n e = absurd cc
take-suc (y ∷ xs) x zero e = ground arith
take-suc (y ∷ xs) x (suc n) e = ap (λ t. y ∷ t) (take-suc xs x n e)
