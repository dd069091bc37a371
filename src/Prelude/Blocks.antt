-- ===== src/Prelude/Blocks.antt =====
-- Blocks of bytes copied over a list, as `memcpy` does, and read back as a slice.
use Prim.Native.Nat.{ℕ, zero, suc, ◌+◌, ◌≤◌}
use mathlib.Core.Path.{◌≡◌, refl, ap, sym, ◌∙◌}
use mathlib.Core.List.{List, [], ◌∷◌, ◌++◌}
use native.Mathlib.Omega.{arith}
use mathlib.Core.Option.{some}
use fast_server.Prelude.Lists.{length, take, drop, get_elem?, set, length-set}

module _ {ℓ} {A : Type ℓ} where
  -- `xs` with `ys` copied over it from index `i` on; what would fall behind the end is lost.
  abbrev pub blit : List A → ℕ → List A → List A
  blit [] i ys = []
  blit (x ∷ xs) (suc i) ys = x ∷ blit xs i ys
  blit (x ∷ xs) zero [] = x ∷ xs
  blit (x ∷ xs) zero (y ∷ ys) = y ∷ blit xs zero ys

  -- The `n` elements from index `i` on.
  abbrev pub slice : List A → ℕ → ℕ → List A
  slice xs i n = take n (drop i xs)

  pub length-blit : (xs : List A) (i : ℕ) (ys : List A) → length (blit xs i ys) ≡ length xs
  length-blit [] i ys = refl
  length-blit (x ∷ xs) (suc i) ys = ap suc (length-blit xs i ys)
  length-blit (x ∷ xs) zero [] = refl
  length-blit (x ∷ xs) zero (y ∷ ys) = ap suc (length-blit xs zero ys)

  pub length-slice : (xs : List A) (i n : ℕ) → i + n ≤ length xs → length (slice xs i n) ≡ n
  length-slice xs zero zero h = refl
  length-slice [] zero (suc n) h = absurd (omega arith)
  length-slice (x ∷ xs) zero (suc n) h = ap suc (length-slice xs zero n (omega arith))
  length-slice [] (suc i) n h = absurd (omega arith)
  length-slice (x ∷ xs) (suc i) n h = length-slice xs i n (omega arith)

  take-blit_zero : (xs ys : List A) → length ys ≤ length xs → take (length ys) (blit xs 0 ys) ≡ ys
  take-blit_zero xs [] h = refl
  take-blit_zero [] (y ∷ ys) h = absurd (omega arith)
  take-blit_zero (x ∷ xs) (y ∷ ys) h = ap (◌∷◌ y) (take-blit_zero xs ys (omega arith))

  slice-blit_at :
      (xs ys : List A) (r n j m : ℕ)
      → j ≡ r + n
      → m ≡ n + length ys
      → j + length ys ≤ length xs
      → slice (blit xs j ys) r m ≡ slice xs r n ++ ys
  slice-blit_at xs ys zero zero zero m e f h =
      ap (λ k. take k (blit xs 0 ys)) (omega arith) ∙ take-blit_zero xs ys (omega arith)
  slice-blit_at xs ys zero zero (suc j) m e f h = absurd (omega arith)
  slice-blit_at xs ys zero (suc n) zero m e f h = absurd (omega arith)
  slice-blit_at [] ys zero (suc n) (suc j) m e f h = absurd (omega arith)
  slice-blit_at (x ∷ xs) ys zero (suc n) (suc j) zero e f h = absurd (omega arith)
  slice-blit_at (x ∷ xs) ys zero (suc n) (suc j) (suc m) e f h =
      ap (◌∷◌ x) (slice-blit_at xs ys zero n j m (omega arith) (omega arith) (omega arith))
  slice-blit_at xs ys (suc r) n zero m e f h = absurd (omega arith)
  slice-blit_at [] ys (suc r) n (suc j) m e f h = absurd (omega arith)
  slice-blit_at (x ∷ xs) ys (suc r) n (suc j) m e f h =
      slice-blit_at xs ys r n j m (omega arith) (omega arith) (omega arith)

  -- Reading up to the end of a block that was copied in range: the old part, then the block.
  pub slice-blit :
      (xs ys : List A) (r n : ℕ)
      → r + n + length ys ≤ length xs
      → slice (blit xs (r + n) ys) r (n + length ys) ≡ slice xs r n ++ ys
  slice-blit xs ys r n h = slice-blit_at xs ys r n (r + n) (n + length ys) refl refl h

  -- A block copied to the front in range is read back.
  pub slice-blit_front :
      (xs ys : List A) (n : ℕ) → n ≡ length ys → n ≤ length xs → slice (blit xs 0 ys) 0 n ≡ ys
  slice-blit_front xs ys n e h =
      ap (λ k. take k (blit xs 0 ys)) e ∙ take-blit_zero xs ys (omega arith)

  pub blit_nil : (xs : List A) (i : ℕ) → blit xs i [] ≡ xs
  blit_nil [] i = refl
  blit_nil (x ∷ xs) zero = refl
  blit_nil (x ∷ xs) (suc i) = ap (◌∷◌ x) (blit_nil xs i)

  -- A block copied in two parts, its first element and then the others.
  pub blit-set :
      (xs ys : List A) (i j : ℕ) (y : A)
      → j ≡ suc i
      → j ≤ length xs
      → blit (set xs i y) j ys ≡ blit xs i (y ∷ ys)
  blit-set [] ys i j y e h = absurd (omega arith)
  blit-set (x ∷ xs) ys zero zero y e h = absurd (omega arith)
  blit-set (x ∷ xs) ys zero (suc zero) y e h = refl
  blit-set (x ∷ xs) ys zero (suc (suc j)) y e h = absurd (omega arith)
  blit-set (x ∷ xs) ys (suc i) zero y e h = absurd (omega arith)
  blit-set (x ∷ xs) ys (suc i) (suc j) y e h =
      ap (◌∷◌ x) (blit-set xs ys i j y (omega arith) (omega arith))

  -- Two blocks, one behind the other.
  pub blit-append :
      (xs ys zs : List A) (i j : ℕ)
      → j ≡ i + length ys
      → j ≤ length xs
      → blit (blit xs i ys) j zs ≡ blit xs i (ys ++ zs)
  blit-append xs [] zs i j e h =
      ap (λ t. blit (blit xs i []) t zs) {y = i} (omega arith)
      ∙ ap (λ t. blit t i zs) (blit_nil xs i)
  blit-append xs (y ∷ ys) zs i j e h =
      ap (λ t. blit t j zs) (sym (blit-set xs ys i (suc i) y refl (omega arith)))
      ∙ blit-append (set xs i y) ys zs (suc i) j (omega arith) (omega (arith, length-set xs i y))
      ∙ blit-set xs (ys ++ zs) i (suc i) y refl (omega arith)

  -- A block copied to the front stands before what it does not cover.
  pub blit_front :
      (xs ys : List A) → length ys ≤ length xs → blit xs 0 ys ≡ ys ++ drop (length ys) xs
  blit_front xs [] h = blit_nil xs 0
  blit_front [] (y ∷ ys) h = absurd (omega arith)
  blit_front (x ∷ xs) (y ∷ ys) h = ap (◌∷◌ y) (blit_front xs ys (omega arith))

  -- What stands at an index heads the rest from there.
  pub get_elem?_of_drop :
      (xs ys : List A) (k : ℕ) (y : A) → drop k xs ≡ y ∷ ys → get_elem? xs k ≡ some y
  get_elem?_of_drop [] ys zero y e = cc
  get_elem?_of_drop [] ys (suc k) y e = cc
  get_elem?_of_drop (x ∷ xs) ys zero y e = cc
  get_elem?_of_drop (x ∷ xs) ys (suc k) y e = get_elem?_of_drop xs ys k y e

  pub drop-suc :
      (xs ys : List A) (k j : ℕ) (y : A) → j ≡ suc k → drop k xs ≡ y ∷ ys → drop j xs ≡ ys
  drop-suc xs ys k zero y e f = absurd (omega arith)
  drop-suc [] ys zero (suc j) y e f = cc
  drop-suc [] ys (suc k) (suc j) y e f = cc
  drop-suc (x ∷ xs) ys zero (suc zero) y e f = ground arith
  drop-suc (x ∷ xs) ys zero (suc (suc j)) y e f = absurd (omega arith)
  drop-suc (x ∷ xs) ys (suc k) (suc j) y e f = drop-suc xs ys k j y (omega arith) f
