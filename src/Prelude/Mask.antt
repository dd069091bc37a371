-- ===== src/Prelude/Mask.antt =====
-- Masking by `Capacity - 1` where the capacity is a power of two.
use Prim.Native.Nat.{
  ℕ, zero, suc, ◌+◌, ◌-◌, ◌*◌, ◌/◌, ◌%◌, ◌^◌, ◌≤◌, ◌<◌, min, bit_and, digits, bit_and-bitwise,
}
use mathlib.Core.Path.{◌≡◌, refl, sym, ap, ◌∙◌}
use native.Mathlib.Nat.{
  pow-suc, one-le-pow, add-mul-mod_self_right, mod-eq_of_lt, mod-lt, div-add-mod',
}
use native.Mathlib.Omega.{arith}

-- The recursion on binary digits that `&` stands for, at any fuel.
abbrev and_by : ℕ → ℕ → ℕ → ℕ
and_by fuel a b = digits (λ y. zero) min fuel a b

and_by-fuel : (n m a b : ℕ) → a ≤ n → a ≤ m → and_by n a b ≡ and_by m a b
and_by-fuel zero zero a b p q = refl
and_by-fuel zero (suc m) zero b p q = refl
and_by-fuel zero (suc m) (suc a) b p q = absurd (omega arith)
and_by-fuel (suc n) zero zero b p q = refl
and_by-fuel (suc n) zero (suc a) b p q = absurd (omega arith)
and_by-fuel (suc n) (suc m) zero b p q = refl
and_by-fuel (suc n) (suc m) (suc a) b p q =
    ap (λ t. t * 2 + min (suc a % 2) (b % 2))
      (and_by-fuel n m (suc a / 2) (b / 2) (omega arith) (omega arith))

-- `&` one binary digit at a time.
pub bit_and-halves : (a b : ℕ) → bit_and a b ≡ bit_and (a / 2) (b / 2) * 2 + min (a % 2) (b % 2)
bit_and-halves zero b = omega (arith, bit_and-bitwise 0 b, bit_and-bitwise 0 (b / 2))
bit_and-halves (suc a) b = omega (
  arith,
  bit_and-bitwise (suc a) b,
  bit_and-bitwise (suc a / 2) (b / 2),
  and_by-fuel a (suc a / 2) (suc a / 2) (b / 2) (omega arith) (omega arith),
)

bit_and-zero : (n a : ℕ) → a ≤ n → bit_and a 0 ≡ 0
bit_and-zero n zero h = refl
bit_and-zero zero (suc a) h = absurd (omega arith)
bit_and-zero (suc n) (suc a) h =
    omega (arith, bit_and-halves (suc a) 0, bit_and-zero n (suc a / 2) (omega arith))

-- The remainder by `2 * m`, one binary digit at a time.
mod_two_mul : (m a n : ℕ) → 0 < m → n ≡ 2 * m → a % n ≡ a / 2 % m * 2 + a % 2
mod_two_mul m a n h e =
    ap (λ t. t % n) split
    ∙ add-mul-mod_self_right (a / 2 % m * 2 + a % 2) (a / 2 / m) n
    ∙ mod-eq_of_lt (omega (arith, mod-lt (a / 2) h))
  where
    split : a ≡ a / 2 % m * 2 + a % 2 + a / 2 / m * n
    split = omega (arith, div-add-mod' (a / 2) m, ap (λ t. a / 2 / m * t) e)

-- Masking by `2 ^ k - 1` is the remainder by `2 ^ k`.
pub bit_and-mask : (k a : ℕ) → bit_and a (2 ^ k - 1) ≡ a % 2 ^ k
bit_and-mask zero a = bit_and-zero a a (omega arith) ∙ omega arith
bit_and-mask (suc k) a = omega (
  arith,
  bit_and-halves a (2 ^ suc k - 1),
  ap (λ t. bit_and (a / 2) t) half_mask,
  bit_and-mask k (a / 2),
  pow-suc 2 k,
  one-le-pow k 2,
  mod_two_mul (2 ^ k) a (2 ^ suc k) (omega (arith, one-le-pow k 2)) (omega (arith, pow-suc 2 k)),
)
  where
    half_mask : (2 ^ suc k - 1) / 2 ≡ 2 ^ k - 1
    half_mask = omega (arith, pow-suc 2 k, one-le-pow k 2)

pub pow-add : (j k : ℕ) → 2 ^ (j + k) ≡ 2 ^ j * 2 ^ k
pow-add zero k = omega (arith, ap (λ n. 2 ^ n) {x = 0 + k} {y = k} (omega arith))
pow-add (suc j) k = grind (
  arith,
  ap (λ n. 2 ^ n) {x = suc j + k} {y = suc (j + k)} (omega arith),
  pow-suc 2 (j + k),
  pow-suc 2 j,
  pow-add j k,
)

-- Wrapping at `2 ^ n` first does not change the remainder by a smaller power of two.
pub wrapped-mod : (n k a : ℕ) → k ≤ n → a % 2 ^ n % 2 ^ k ≡ a % 2 ^ k
wrapped-mod n k a h = sym (
    ap (λ t. t % 2 ^ k) split
    ∙ add-mul-mod_self_right (a % 2 ^ n) (a / 2 ^ n * 2 ^ (n - k)) (2 ^ k))
  where
    whole : 2 ^ n ≡ 2 ^ (n - k) * 2 ^ k
    whole = ap (λ j. 2 ^ j) {x = n} {y = n - k + k} (omega arith) ∙ pow-add (n - k) k

    split : a ≡ a % 2 ^ n + a / 2 ^ n * 2 ^ (n - k) * 2 ^ k
    split = grind (arith, div-add-mod' a (2 ^ n), ap (λ t. a / 2 ^ n * t) whole)
