-- ===== src/Trader/Pieces.antt =====
-- ihs/src/fix42_a.cpp: `receiveThreadFunc` takes each separator of a field for the end of a message, and
-- `parseFixMessage` asks for two fields.
use fast_server.Prelude.{
  sym, ◌<◌, ◌≤◌, length-drop, ℕ, zero, suc, false, ◌&&◌, List, [], ◌∷◌, ◌≡◌, ◌≢◌, ◌⊎◌, inl, inr,
  refl, ap, ◌∙◌, All, arith, Option, none, some, if◌then◌else◌, length, take, drop,
}
use fast_server.Fix.{soh, equal_sign, index_of}
use fast_server.Parser.{ℤ, pos, negsuc, find, same_int, stoi, Result, Result-cases, returns, throws}
use fast_server.Session.Wire.{put_field, has_tag, value_of, same_text, fix_version}
use fast_server.Trader.Wire.{parse_pairs, parse_fix_message}

-- No separator.
abbrev pub IsPiece : List ℕ → Type 0
IsPiece text = All (λ c. c ≢ soh) text

drop-IsPiece : (n : ℕ) (text : List ℕ) → IsPiece text → IsPiece (drop n text)
drop-IsPiece zero text h = h
drop-IsPiece (suc n) [] h = h
drop-IsPiece (suc n) (c ∷ text) (a, h) = drop-IsPiece n text h

drop-index_of : (text : List ℕ) → IsPiece text → drop (suc (index_of soh text)) text ≡ []
unfolding index_of
drop-index_of [] h = refl
drop-index_of (c ∷ text) (a, h) = ground (arith, a, drop-index_of text h)

parse_pairs-nil :
    (fuel : ℕ) (fields : List (ℤ × List ℕ)) → parse_pairs (suc fuel) [] fields ≡ some fields
unfolding parse_pairs
parse_pairs-nil fuel fields = refl

one_field :
    (tag : ℤ) (value : List ℕ)
    → (has_tag (pos 8) (put_field tag value [])
        && same_text (value_of (pos 8) (put_field tag value [])) fix_version
        && has_tag (pos 35) (put_field tag value []))
      ≡ false
unfolding has_tag value_of put_field find same_int
one_field (pos n) value = ground arith
one_field (negsuc n) value = refl

List-cases : (xs : List ℕ) → (xs ≡ []) ⊎ ((y : ℕ) × (ys : List ℕ) × (xs ≡ y ∷ ys))
List-cases [] = inl refl
List-cases (x ∷ xs) = inr (x, xs, refl)

-- A round of the loop that reads a field.
parse_pairs_step :
    (fuel c d : ℕ) (text ds : List ℕ) (tag : ℤ) (fields : List (ℤ × List ℕ))
    → let rest = drop (suc (index_of equal_sign (c ∷ text))) (c ∷ text) in
      stoi (take (index_of equal_sign (c ∷ text)) (c ∷ text)) ≡ returns tag
      → rest ≡ d ∷ ds
      → parse_pairs (suc fuel) (c ∷ text) fields
        ≡ parse_pairs fuel
            (drop (suc (index_of soh rest)) rest)
            (put_field tag (take (index_of soh rest) rest) fields)
unfolding parse_pairs
parse_pairs_step fuel c d text ds tag fields e z =
    let rest = drop (suc (index_of equal_sign (c ∷ text))) (c ∷ text) in
    let go : ℤ → Option (List (ℤ × List ℕ)) = λ t.
      parse_pairs fuel (drop (suc (index_of soh rest)) rest)
        (put_field t (take (index_of soh rest) rest) fields) in
    ap
      (λ (r : Result ℤ). elim r [
        | throws x ↦ none
        | returns t ↦ elim rest [ [] ↦ none | y ∷ ys ↦ go t ]
      ])
      e
    ∙ ap (λ (ys : List ℕ). elim ys [ [] ↦ none | b ∷ bs ↦ go tag ]) z

-- A text without a separator has no field or one.
parse_pairs-IsPiece :
    (fuel c : ℕ) (text : List ℕ)
    → IsPiece (c ∷ text)
    → (parse_pairs (suc (suc fuel)) (c ∷ text) [] ≡ none)
      ⊎ ((tag : ℤ) × (value : List ℕ) × (parse_pairs (suc (suc fuel)) (c ∷ text) []
            ≡ some (put_field tag value [])))
unfolding parse_pairs
parse_pairs-IsPiece fuel c text h =
    let eq_pos = index_of equal_sign (c ∷ text) in
    let rest = drop (suc eq_pos) (c ∷ text) in
    let ends = drop-index_of rest (drop-IsPiece (suc eq_pos) (c ∷ text) h) in
    let value = take (index_of soh rest) rest in
    elim (Result-cases (stoi (take eq_pos (c ∷ text)))) [
      | inr (x, e) ↦ inl (ground (arith, e))
      | inl (tag, e) ↦ elim (List-cases rest) [
        | inl z ↦ inl (ground (arith, e, z))
        | inr (d, ds, z) ↦ inr (
          tag,
          value,
          parse_pairs_step (suc fuel) c d text ds tag [] e z
              ∙ ap (λ t. parse_pairs (suc fuel) t (put_field tag value [])) ends,
        )
      ]
    ]

pub parse_fix_message-IsPiece : (text : List ℕ) → IsPiece text → parse_fix_message text ≡ none
unfolding parse_fix_message has_tag find
parse_fix_message-IsPiece [] h =
    ap
      (λ o. elim o [
        | none ↦ none
        | some fields ↦
            if has_tag (pos 8) fields
              && same_text (value_of (pos 8) fields) fix_version
              && has_tag (pos 35) fields
            then some fields
            else none
      ])
      (parse_pairs-nil 0 [])
parse_fix_message-IsPiece (c ∷ text) h = elim (parse_pairs-IsPiece (length text) c text h) [
  | inl e ↦ ground (arith, e)
  | inr (tag, value, e) ↦ ground (arith, e, one_field tag value)
]

-- More fuel than the text has characters changes nothing: `parse_fix_message` gives its loop enough.
pub parse_pairs_enough :
    (n m : ℕ) (text : List ℕ) (fields : List (ℤ × List ℕ))
    → length text < n
    → n ≤ m
    → parse_pairs n text fields ≡ parse_pairs m text fields
unfolding parse_pairs
parse_pairs_enough zero m text fields h l = absurd (omega arith)
parse_pairs_enough (suc n) zero text fields h l = absurd (omega arith)
parse_pairs_enough (suc n) (suc m) [] fields h l = refl
parse_pairs_enough (suc n) (suc m) (c ∷ text) fields h l =
    let eq_pos = index_of equal_sign (c ∷ text) in
    let rest = drop (suc eq_pos) (c ∷ text) in
    let left = drop (suc (index_of soh rest)) rest in
    let shorter : length left < n =
      omega
        (arith, length-drop (suc (index_of soh rest)) rest, length-drop (suc eq_pos) (c ∷ text)) in
    elim (Result-cases (stoi (take eq_pos (c ∷ text)))) [
      | inr (x, e) ↦ ground (arith, e)
      | inl (tag, e) ↦
          let more =
            parse_pairs_enough n m left (put_field tag (take (index_of soh rest) rest) fields)
              shorter (omega arith) in
          elim (List-cases rest) [
            | inl z ↦ ground (arith, e, z)
            | inr (d, ds, z) ↦
                parse_pairs_step n c d text ds tag fields e z
                ∙ more
                ∙ sym (parse_pairs_step m c d text ds tag fields e z)
          ]
    ]
