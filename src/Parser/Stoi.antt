-- ===== src/Parser/Stoi.antt =====
-- ihs/src/parser.cpp: the results and errors of its parsers and, written out, the conversion `stoi`
-- of the C++ library to an `int`, which is a `ℤ`. A character is its code.
use fast_server.Prelude.{
  ℕ, zero, suc, ◌+◌, ◌-◌, ◌*◌, ◌^◌, Bool, true, false, ◌&&◌, ◌||◌, List, [], ◌∷◌, ltb, leb, ◌==◌,
  if◌then◌else◌, ◌≡◌, refl, ◌⊎◌, inl, inr, sub_size,
}

pub data ℤ : Type 0 where
  pos : ℕ → ℤ
  negsuc : ℕ → ℤ

-- The texts of the runtime errors.
pub data Reason : Type 0 where
  incomplete_field invalid_field_format missing_required_header_fields : Reason
  body_length_mismatch checksum_mismatch missing_checksum invalid_body_length_format : Reason

pub data Exception : Type 0 where
  runtime_error : Reason → Exception
  invalid_argument out_of_range : Exception

pub data Result {ℓ} (A : Type ℓ) : Type ℓ where
  returns : A → Result A
  throws : Exception → Result A

pub Result-cases {ℓ} :
    {A : Type ℓ} (r : Result A) → ((a : A) × (r ≡ returns a)) ⊎ ((e : Exception) × (r ≡ throws e))
Result-cases (returns a) = inl (a, refl)
Result-cases (throws e) = inr (e, refl)

-- `static_cast<size_t>` of an `int`.
unfoldable pub size_of_int : ℤ → ℕ
size_of_int (pos n) = n
size_of_int (negsuc n) = sub_size 0 (suc n)

unfoldable pub same_int : ℤ → ℤ → Bool
same_int (pos m) (pos n) = m == n
same_int (negsuc m) (negsuc n) = m == n
same_int (pos m) (negsuc n) = false
same_int (negsuc m) (pos n) = false

unfoldable pub is_digit : ℕ → Bool
is_digit c = leb 48 c && leb c 57

unfoldable pub is_space : ℕ → Bool
is_space c = c == 32 || leb 9 c && leb c 13

unfoldable pub skip_spaces : List ℕ → List ℕ
skip_spaces [] = []
skip_spaces (c ∷ text) = let more = skip_spaces text in if is_space c then more else c ∷ text

-- The number that the digits in front of a text print, behind those that `n` stands for.
unfoldable pub read_digits : ℕ → List ℕ → ℕ
read_digits n [] = n
read_digits n (c ∷ text) =
    let more = read_digits (n * 10 + (c - 48)) text in if is_digit c then more else n

-- An `int` has 32 bits.
unfoldable pub stoi_sign : Bool → ℕ → Result ℤ
stoi_sign false n = if ltb n (2 ^ 31) then returns (pos n) else throws out_of_range
stoi_sign true zero = returns (pos 0)
stoi_sign true (suc n) = if ltb n (2 ^ 31) then returns (negsuc n) else throws out_of_range

unfoldable pub stoi_digits : Bool → List ℕ → Result ℤ
stoi_digits negative [] = throws invalid_argument
stoi_digits negative (c ∷ text) =
    if is_digit c then stoi_sign negative (read_digits 0 (c ∷ text)) else throws invalid_argument

-- `stoi`: blanks, a sign, digits; what follows the digits is not read.
unfoldable pub stoi : List ℕ → Result ℤ
stoi text = elim (skip_spaces text) [
  | [] ↦ throws invalid_argument
  | c ∷ rest ↦
      if c == 45
      then stoi_digits true rest
      else if c == 43
      then stoi_digits false rest
      else stoi_digits false (c ∷ rest)
]
