-- ===== src/Parser/Places.antt =====
-- The places that the `FixParser` of ihs/src/parser.cpp looks for in a buffer.
use fast_server.Prelude.{
  ℕ, zero, suc, ◌+◌, ◌<◌, ◌≡◌, List, [], ◌∷◌, Option, some, ◌⊎◌, inl, inr, Bool-cases, ◌==◌, refl,
  ap, sym, ◌∙◌, length, length-drop, drop, get_elem?, arith,
}
use fast_server.Fix.{index_of, soh, equal_sign}
use fast_server.Parser

get_elem?-drop :
    {A : Type 0} (n : ℕ) (xs : List A) (i : ℕ) → get_elem? (drop n xs) i ≡ get_elem? xs (n + i)
get_elem?-drop zero xs i = ap (get_elem? xs) {x = i} (omega arith)
get_elem?-drop (suc n) [] i = refl
get_elem?-drop (suc n) (x ∷ xs) i =
    get_elem?-drop n xs i ∙ ap (get_elem? (x ∷ xs)) {x = suc (n + i)} (omega arith)

get_elem?-index_of :
    (ch : ℕ) (xs : List ℕ) → index_of ch xs < length xs → get_elem? xs (index_of ch xs) ≡ some ch
unfolding index_of
get_elem?-index_of ch [] h = absurd (omega arith)
get_elem?-index_of ch (x ∷ xs) h = ground (arith, get_elem?-index_of ch xs)

-- The separator behind a field.
pub separator_here :
    (buffer : List ℕ) (at : ℕ) (f : Parser.Field)
    → Parser.read_field buffer at ≡ Parser.returns f
    → get_elem? buffer f.field_end ≡ some soh
unfolding Parser.read_field
separator_here buffer at f e =
    let place : f.field_end ≡ at + index_of soh (drop at buffer) = ground arith in
    let inside : f.field_end < length buffer = ground arith in
    ap (get_elem? buffer) place
    ∙ sym (get_elem?-drop at buffer (index_of soh (drop at buffer)))
    ∙ get_elem?-index_of soh (drop at buffer) (omega (arith, length-drop at buffer))

-- A message begins behind a separator, with `8=`.
pub record IsStart (buffer : List ℕ) (start : ℕ) : Type 0 where
  pub before : ℕ
  pub behind : start ≡ suc before
  pub separated : get_elem? buffer before ≡ some soh
  pub eight : get_elem? buffer start ≡ some 56
  pub equals : get_elem? buffer (start + 1) ≡ some equal_sign

check_start-place :
    (start : ℕ) (more : Option ℕ) (rest : List ℕ) (s : ℕ)
    → Parser.check_start start more rest ≡ some s
    → ((s ≡ start) × (get_elem? rest 0 ≡ some 56) × (get_elem? rest 1 ≡ some equal_sign))
      ⊎ (more ≡ some s)
unfolding Parser.check_start
check_start-place start more [] s e = absurd cc
check_start-place start more (d ∷ []) s e = absurd cc
check_start-place start more (d ∷ x ∷ []) s e = absurd cc
check_start-place start more (d ∷ x ∷ y ∷ rest) s e = ground arith

InRest : ℕ → List ℕ → ℕ → Type 0
InRest at rest s =
    (i : ℕ) × (s ≡ suc (at + i))
    × (get_elem? rest i ≡ some soh)
    × (get_elem? rest (suc i) ≡ some 56)
    × (get_elem? rest (suc (suc i)) ≡ some equal_sign)

InRest-cons : (at c s : ℕ) (rest : List ℕ) → InRest (suc at) rest s → InRest at (c ∷ rest) s
unfolding InRest
InRest-cons at c s rest (i, e, p, q, r) = (suc i, omega arith, p, q, r)

start-InRest :
    (at : ℕ) (rest : List ℕ) (s : ℕ)
    → Parser.find_next_message_start at rest ≡ some s
    → InRest at rest s
unfolding Parser.find_next_message_start InRest
start-InRest at [] s e = absurd cc
start-InRest at (c ∷ rest) s e = elim (Bool-cases (c == soh)) [
  | inl h ↦
      let found : Parser.check_start (suc at) (Parser.find_next_message_start (suc at) rest) rest
          ≡ some s =
        ground arith in
      elim (check_start-place (suc at) (Parser.find_next_message_start (suc at) rest) rest s
        found) [
          | inl (p, q, r) ↦ (0, omega arith, ground arith, q, r)
          | inr p ↦ InRest-cons at c s rest (start-InRest (suc at) rest s p)
        ]
  | inr h ↦ InRest-cons at c s rest (start-InRest (suc at) rest s (ground arith))
]

-- What `findNextMessageStart` finds.
pub find_next_message_start-IsStart :
    (buffer : List ℕ) (at start : ℕ)
    → Parser.find_next_message_start at (drop at buffer) ≡ some start
    → IsStart buffer start
unfolding InRest
find_next_message_start-IsStart buffer at start e =
    let found = start-InRest at (drop at buffer) start e in
    let i = found.0 in
    record {
      before = at + i;
      behind = found.1;
      separated = sym (get_elem?-drop at buffer i) ∙ found.2;
      eight =
          ap (get_elem? buffer) {x = start} (omega (arith, found.1))
          ∙ sym (get_elem?-drop at buffer (suc i))
          ∙ found.3;
      equals =
          ap (get_elem? buffer) {x = start + 1} (omega (arith, found.1))
          ∙ sym (get_elem?-drop at buffer (suc (suc i)))
          ∙ found.4;
    }
