-- ===== src/Session/Fields.antt =====
-- ihs/src/fix42.cpp: the map of a message's fields, and the loop of `deserialize` over printed fields.
use fast_server.Prelude.{
  ℕ, suc, ◌^◌, ◌<◌, Bool, true, false, List, [], ◌∷◌, ◌++◌, ◌≡◌, ◌≢◌, inl, inr, refl, ap, sym, ◌∙◌,
  Bool-cases, All, arith, append_assoc, length, take, drop, none, some, if◌then◌else◌,
  length-append, take-length, drop-length, drop-drop, append-nil, subst,
}
use fast_server.Fix.{soh, equal_sign, index_of, decimal}
use fast_server.Fix.Replace.{index_of_here}
use fast_server.Parser.{ℤ, pos, negsuc, same_int, find, stoi, returns}
use fast_server.Parser.Digits.{stoi-decimal, decimal-All_ne}
use fast_server.Parser.Print.{All-join}
use fast_server.Session.Wire.{
  put_field, store_text, read_fields, print_int, field_onto, is_framing, serialize_body,
}

pub same_int_self : (t : ℤ) → same_int t t ≡ true
unfolding same_int
same_int_self (pos n) = ground arith
same_int_self (negsuc n) = ground arith

pub same_int→eq : (t u : ℤ) → same_int t u ≡ true → t ≡ u
unfolding same_int
same_int→eq (pos m) (pos n) e = ap pos (ground arith)
same_int→eq (negsuc m) (negsuc n) e = ap negsuc (ground arith)
same_int→eq (pos m) (negsuc n) e = absurd cc
same_int→eq (negsuc m) (pos n) e = absurd cc

pub find-put_self :
    (t : ℤ) (v : List ℕ) (fields : List (ℤ × List ℕ)) → find t (put_field t v fields) ≡ some v
unfolding find put_field
find-put_self t v [] = rw (same_int_self t) refl
find-put_self t v ((u, w) ∷ fields) = ground (arith, same_int_self t, find-put_self t v fields)

pub find-put_ne :
    (t u : ℤ) (v : List ℕ) (fields : List (ℤ × List ℕ))
    → same_int u t ≡ false
    → find t (put_field u v fields) ≡ find t fields
unfolding find put_field
find-put_ne t u v [] h = rw h refl
find-put_ne t u v ((w, x) ∷ fields) h = elim (Bool-cases (same_int w u)) [
  | inl e ↦ ground (arith, h, same_int→eq w u e)
  | inr e ↦ ground (arith, h, find-put_ne t u v fields h)
]

-- No tag stands twice, as in every `std::map`.
unfoldable pub IsMap : List (ℤ × List ℕ) → Type 0
IsMap [] = Unit
IsMap ((t, v) ∷ fields) = (find t fields ≡ none) × IsMap fields

-- The tags are not negative and the values hold no separator.
unfoldable pub IsText : List (ℤ × List ℕ) → Type 0
IsText [] = Unit
IsText ((pos n, v) ∷ fields) = (n < 2 ^ 31) × All (λ c. c ≢ soh) v × IsText fields
IsText ((negsuc n, v) ∷ fields) = ⊥

read_fields-piece :
    (text more rest : List ℕ) (fields : List (ℤ × List ℕ))
    → All (λ c. c ≢ soh) more
    → read_fields text (more ++ soh ∷ rest) fields
      ≡ read_fields [] rest (store_text (text ++ more) fields)
unfolding read_fields
read_fields-piece text [] rest fields h =
    ap (λ t. read_fields [] rest (store_text t fields)) (sym (append-nil text))
read_fields-piece text (c ∷ more) rest fields (n, h) =
    let next =
      read_fields-piece (text ++ c ∷ []) more rest fields h
      ∙ ap (λ t. read_fields [] rest (store_text t fields)) (append_assoc text (c ∷ []) more) in
    ground (arith, n, next)

pub field_onto-append :
    (t : ℤ) (value xs ys : List ℕ) → field_onto t value xs ++ ys ≡ field_onto t value (xs ++ ys)
field_onto-append t value xs ys =
    append_assoc (print_int t) (equal_sign ∷ (value ++ soh ∷ xs)) ys
    ∙ ap (λ z. print_int t ++ equal_sign ∷ z) (append_assoc value (soh ∷ xs) ys)

store_text-at :
    (text value : List ℕ) (i : ℕ) (tag : ℤ) (fields : List (ℤ × List ℕ))
    → index_of equal_sign text ≡ i
    → i < length text
    → stoi (take i text) ≡ returns tag
    → drop (suc i) text ≡ value
    → store_text text fields ≡ put_field tag value fields
unfolding store_text
store_text-at text value i tag fields a b c d = ground (arith, a, b, c, d)

store_text-print :
    (n : ℕ) (value : List ℕ) (fields : List (ℤ × List ℕ))
    → n < 2 ^ 31
    → store_text (decimal n ++ equal_sign ∷ value) fields ≡ put_field (pos n) value fields
store_text-print n value fields h =
    let text = decimal n ++ equal_sign ∷ value in
    let k = length (decimal n) in
    store_text-at text value k (pos n) fields
      (index_of_here equal_sign (decimal n) value (decimal-All_ne n equal_sign (inr (omega arith))))
      (omega (arith, length-append (decimal n) (equal_sign ∷ value)))
      (ap stoi (take-length (decimal n) (equal_sign ∷ value)) ∙ stoi-decimal n h)
      (sym (drop-drop 1 k (suc k) text (omega arith))
        ∙ ap (drop 1) (drop-length (decimal n) (equal_sign ∷ value)))

-- A printed field is stored.
pub read_fields-field :
    (n : ℕ) (value rest : List ℕ) (fields : List (ℤ × List ℕ))
    → n < 2 ^ 31
    → All (λ c. c ≢ soh) value
    → read_fields [] (field_onto (pos n) value rest) fields
      ≡ read_fields [] rest (put_field (pos n) value fields)
unfolding print_int
read_fields-field n value rest fields h a =
    ap (λ t. read_fields [] t fields)
      (sym (append_assoc (decimal n) (equal_sign ∷ value) (soh ∷ rest)))
    ∙ read_fields-piece [] (decimal n ++ equal_sign ∷ value) rest fields (
        All-join soh equal_sign (decimal n) value (decimal-All_ne n soh (inl (omega arith)))
          (ground arith) a)
    ∙ ap (read_fields [] rest) (store_text-print n value fields h)

-- The fields that `serialize_body` writes, stored one after the other.
unfoldable pub put_body : List (ℤ × List ℕ) → List (ℤ × List ℕ) → List (ℤ × List ℕ)
put_body [] fields = fields
put_body ((t, v) ∷ body) fields =
    put_body body (if is_framing t then fields else put_field t v fields)

pub read_fields-body :
    (body fields : List (ℤ × List ℕ)) (rest : List ℕ)
    → IsText body
    → read_fields [] (serialize_body body ++ rest) fields
      ≡ read_fields [] rest (put_body body fields)
unfolding IsText serialize_body put_body
read_fields-body [] fields rest h = refl
read_fields-body ((negsuc n, v) ∷ body) fields rest h = absurd h
read_fields-body ((pos n, v) ∷ body) fields rest (h, a, more) =
    elim (Bool-cases (is_framing (pos n))) [
      | inl e ↦ rw e (read_fields-body body fields rest more)
      | inr e ↦ rw e (
          ap (λ t. read_fields [] t fields) (field_onto-append (pos n) v (serialize_body body) rest)
          ∙ read_fields-field n v (serialize_body body ++ rest) fields h a
          ∙ read_fields-body body (put_field (pos n) v fields) rest more)
    ]

-- What is found behind them: a framing tag as before, and another as in the message.
pub find-put_body_framing :
    (t : ℤ) (body fields : List (ℤ × List ℕ))
    → is_framing t ≡ true
    → find t (put_body body fields) ≡ find t fields
unfolding put_body
find-put_body_framing t [] fields h = refl
find-put_body_framing t ((u, v) ∷ body) fields h =
    find-put_body_framing t body (if is_framing u then fields else put_field u v fields) h
    ∙ elim (Bool-cases (is_framing u)) [
      | inl e ↦ rw e refl
      | inr e ↦ elim (Bool-cases (same_int u t)) [
        | inl d ↦ let same = ap (λ w. is_framing w) (same_int→eq u t d) in absurd cc
        | inr d ↦ rw e (find-put_ne t u v fields d)
      ]
    ]

find-put_body_absent :
    (t : ℤ) (body fields : List (ℤ × List ℕ))
    → find t body ≡ none
    → find t (put_body body fields) ≡ find t fields
unfolding put_body find
find-put_body_absent t [] fields h = refl
find-put_body_absent t ((u, v) ∷ body) fields h = elim (Bool-cases (same_int u t)) [
  | inl d ↦ absurd (ground (arith, d, h))
  | inr d ↦
      find-put_body_absent t body (if is_framing u then fields else put_field u v fields)
        (ground (arith, d, h))
      ∙ elim (Bool-cases (is_framing u)) [
        | inl e ↦ rw e refl
        | inr e ↦ rw e (find-put_ne t u v fields d)
      ]
]

pub find-put_body :
    (t : ℤ) (body fields : List (ℤ × List ℕ))
    → is_framing t ≡ false
    → find t fields ≡ none
    → IsMap body
    → find t (put_body body fields) ≡ find t body
unfolding put_body IsMap find
find-put_body t [] fields h n m = n
find-put_body t ((u, v) ∷ body) fields h n (k, m) = elim (Bool-cases (same_int u t)) [
  | inl d ↦
      let same = same_int→eq u t d in
      let put_body_start = λ (b : Bool). if b then fields else put_field u v fields in
      let free : is_framing u ≡ false = ap (λ w. is_framing w) same ∙ h in
      find-put_body_absent t body (if is_framing u then fields else put_field u v fields)
        (subst (λ w. find w body ≡ none) same k)
      ∙ ap (λ b. find t (put_body_start b)) free
      ∙ (ap (λ w. find t (put_field w v fields)) same ∙ find-put_self t v fields)
      ∙ ap (λ b. if b then some v else find t body) (sym d)
  | inr d ↦
      find-put_body t body (if is_framing u then fields else put_field u v fields) h
        (elim (Bool-cases (is_framing u)) [
          | inl e ↦ rw e n
          | inr e ↦ rw e (find-put_ne t u v fields d ∙ n)
        ])
        m
      ∙ ap (λ b. if b then some v else find t body) (sym d)
]
