-- ===== src/Parser/Digits.antt =====
-- The decimal digits that the encoder of ihs/src/encoder.cpp prints and `stoi` reads.
use fast_server.Prelude.{
  length, ℕ, zero, suc, ◌+◌, ◌-◌, ◌*◌, ◌/◌, ◌%◌, ◌^◌, ◌≤◌, ◌<◌, ◌≡◌, ◌≢◌, true, List, [], ◌∷◌, refl,
  ◌∙◌, arith, All, ltb, Bool-cases, inl, inr, sym, ap, tests, ◌⊎◌,
}
use fast_server.Fix.{decimal_onto, decimal}
use fast_server.Parser.Stoi

IsDigit : ℕ → Type 0
IsDigit c = (48 ≤ c) × (c ≤ 57)

decimal_onto-IsDigit :
    (fuel n : ℕ) (acc : List ℕ) → All IsDigit acc → All IsDigit (decimal_onto fuel n acc)
unfolding decimal_onto IsDigit
decimal_onto-IsDigit zero n acc h = h
decimal_onto-IsDigit (suc fuel) n acc h =
    let here : IsDigit (48 + n % 10) = (omega arith, omega arith) in
    let more = decimal_onto-IsDigit fuel (n / 10) ((48 + n % 10) ∷ acc) (here, h) in
    elim (Bool-cases (ltb n 10)) [ inl e ↦ rw e (here, h) | inr e ↦ rw e more ]

is_digit-IsDigit : (c : ℕ) → IsDigit c → Stoi.is_digit c ≡ true
unfolding IsDigit Stoi.is_digit
is_digit-IsDigit c h = ground arith

read_digits-cons :
    (m n c : ℕ) (acc : List ℕ)
    → IsDigit c
    → n ≡ m * 10 + (c - 48)
    → Stoi.read_digits m (c ∷ acc) ≡ Stoi.read_digits n acc
unfolding Stoi.read_digits
read_digits-cons m n c acc h e =
    rw (is_digit-IsDigit c h) (ap (λ k. Stoi.read_digits k acc) (sym e))

read_digits-decimal_onto :
    (fuel n : ℕ) (acc : List ℕ)
    → n < 10 ^ fuel
    → Stoi.read_digits 0 (decimal_onto fuel n acc) ≡ Stoi.read_digits n acc
unfolding decimal_onto IsDigit
read_digits-decimal_onto zero n acc h = ap (λ k. Stoi.read_digits k acc) (omega arith)
read_digits-decimal_onto (suc fuel) n acc h =
    let digit : IsDigit (48 + n % 10) = (omega arith, omega arith) in
    elim (Bool-cases (ltb n 10)) [
      | inl e ↦ rw e (read_digits-cons 0 n (48 + n % 10) acc digit (omega (tests, e)))
      | inr e ↦ rw e (
          read_digits-decimal_onto fuel (n / 10) ((48 + n % 10) ∷ acc) (omega arith)
          ∙ read_digits-cons (n / 10) n (48 + n % 10) acc digit (omega arith))
    ]

-- The first character that is printed is a digit.
decimal_onto-head :
    (fuel n : ℕ) (acc : List ℕ)
    → (c : ℕ) × (text : List ℕ) × (decimal_onto (suc fuel) n acc ≡ c ∷ text) × IsDigit c
unfolding decimal_onto IsDigit
decimal_onto-head zero n acc = (
  48 + n % 10,
  acc,
  elim (Bool-cases (ltb n 10)) [ inl e ↦ rw e refl | inr e ↦ rw e refl ],
  (omega arith, omega arith),
)
decimal_onto-head (suc fuel) n acc = elim (Bool-cases (ltb n 10)) [
  | inl e ↦ (48 + n % 10, acc, rw e refl, (omega arith, omega arith))
  | inr e ↦
      let more = decimal_onto-head fuel (n / 10) ((48 + n % 10) ∷ acc) in
      (more.0, more.1, rw e more.2, more.3)
]

read_digits_nil : (n : ℕ) → Stoi.read_digits n [] ≡ n
unfolding Stoi.read_digits
read_digits_nil n = refl

stoi-digit :
    (n c : ℕ) (text : List ℕ)
    → IsDigit c
    → Stoi.read_digits 0 (c ∷ text) ≡ n
    → n < 2 ^ 31
    → Stoi.stoi (c ∷ text) ≡ Stoi.returns (Stoi.pos n)
unfolding Stoi.stoi Stoi.stoi_digits Stoi.stoi_sign Stoi.skip_spaces Stoi.is_space Stoi.is_digit
    IsDigit
stoi-digit n c text h e b = ground arith

-- `stoi` reads the decimal digits of a number that fits an `int`.
pub stoi-decimal : (n : ℕ) → n < 2 ^ 31 → Stoi.stoi (decimal n) ≡ Stoi.returns (Stoi.pos n)
stoi-decimal n h =
    let printed = decimal_onto-head 19 n [] in
    let whole = read_digits-decimal_onto 20 n [] (omega arith) in
    ap Stoi.stoi printed.2
    ∙ stoi-digit n printed.0 printed.1 printed.3
        (ap (Stoi.read_digits 0) (sym printed.2) ∙ whole ∙ read_digits_nil n) h

IsDigit-All_ne : (ch : ℕ) (xs : List ℕ) → ch < 48 ⊎ 57 < ch → All IsDigit xs → All (λ c. c ≢ ch) xs
unfolding IsDigit
IsDigit-All_ne ch [] h a = tt
IsDigit-All_ne ch (x ∷ xs) h ((p, q), a) = (ground arith, IsDigit-All_ne ch xs h a)

-- The digits are no separator and no equals sign.
pub decimal-All_ne : (n ch : ℕ) → ch < 48 ⊎ 57 < ch → All (λ c. c ≢ ch) (decimal n)
decimal-All_ne n ch h = IsDigit-All_ne ch (decimal n) h (decimal_onto-IsDigit 20 n [] tt)

pub length-decimal : (n : ℕ) → 0 < length (decimal n)
length-decimal n = let printed = decimal_onto-head 19 n [] in omega (arith, ap length printed.2)
