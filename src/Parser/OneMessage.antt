-- ===== src/Parser/OneMessage.antt =====
-- ihs/src/parser.cpp: `FixParser::parse` on a buffer that holds a printed message.
use fast_server.Prelude.{
  ℕ, suc, ◌+◌, ◌-◌, ◌<◌, ◌≡◌, List, [], ◌∷◌, ◌++◌, Option, none, some, refl, ap, ◌∙◌, arith, length,
  drop, ◌==◌, Bool-cases, inl, inr,
}
use fast_server.Fix.{soh, equal_sign, decimal_onto}
use fast_server.Parser
use fast_server.Parser.Turns.{print_onto, store}
use fast_server.Parser.Printed.{Printed, fields_of, IsPrinted}
use fast_server.Parser.RoundTrip.{parse_message-print, drop-print_onto}

check_start-shift :
    (at other : ℕ) (m n : Option ℕ) (rest : List ℕ)
    → (m ≡ none → n ≡ none)
    → Parser.check_start at m rest ≡ none
    → Parser.check_start other n rest ≡ none
unfolding Parser.check_start
check_start-shift at other m n [] h e = refl
check_start-shift at other m n (d ∷ []) h e = refl
check_start-shift at other m n (d ∷ x ∷ []) h e = refl
check_start-shift at other m n (d ∷ x ∷ y ∷ rest) h e = ground arith

-- Whether a message is found does not depend on the position that the search counts from.
find_next_message_start-shift :
    (at other : ℕ) (rest : List ℕ)
    → Parser.find_next_message_start at rest ≡ none
    → Parser.find_next_message_start other rest ≡ none
unfolding Parser.find_next_message_start
find_next_message_start-shift at other [] e = refl
find_next_message_start-shift at other (c ∷ rest) e = elim (Bool-cases (c == soh)) [
  | inl h ↦ ground (
    arith,
    check_start-shift (suc at) (suc other) (Parser.find_next_message_start (suc at) rest)
        (Parser.find_next_message_start (suc other) rest) rest
        (find_next_message_start-shift (suc at) (suc other) rest),
  )
  | inr h ↦ ground (arith, find_next_message_start-shift (suc at) (suc other) rest)
]

check_start-here :
    (start : ℕ) (more : Option ℕ) (value rest : List ℕ)
    → Parser.check_start start more (56 ∷ equal_sign ∷ (value ++ soh ∷ rest)) ≡ some start
unfolding Parser.check_start
check_start-here start more [] rest = refl
check_start-here start more (x ∷ value) rest = refl

-- A message that is printed behind a separator is found.
find-print :
    (m : Printed) (rest : List ℕ)
    → Parser.find_next_message_start 0 (soh ∷ print_onto (fields_of m) rest) ≡ some 1
unfolding Parser.find_next_message_start decimal_onto
find-print m rest = check_start-here 1 _ m.begin_value _

parse_from-reads :
    (fuel : ℕ) (buffer : List ℕ) (at start end : ℕ) (messages : List Parser.FixMessage)
    (msg : Parser.FixMessage)
    → at < length buffer
    → Parser.find_next_message_start at (drop at buffer) ≡ some start
    → Parser.parse_message buffer start ≡ some (Parser.returns (msg, end))
    → Parser.parse_from (suc fuel) buffer at messages
      ≡ Parser.parse_from fuel buffer end (messages ++ msg ∷ [])
unfolding Parser.parse_from
parse_from-reads fuel buffer at start end messages msg i s m = ground arith

parse_from-stops :
    (fuel : ℕ) (buffer : List ℕ) (at : ℕ) (messages : List Parser.FixMessage)
    → Parser.find_next_message_start at (drop at buffer) ≡ none
    → Parser.parse_from (suc fuel) buffer at messages ≡ some (Parser.returns messages)
unfolding Parser.parse_from
parse_from-stops fuel buffer at messages s = ground arith

-- A message is printed behind a separator: no value holds a separator, its other fields have tags of
-- their own below 2 ^ 31, and field 9 is its length as the parser counts it, below 2 ^ 31. When what
-- follows has no `8=` behind a separator of its own, as another message at once has none, `parse`
-- returns that message alone, with the fields that were printed.
pub parse-print :
    (m : Printed) (rest : List ℕ)
    → IsPrinted m
    → Parser.find_next_message_start 0 rest ≡ none
    → Parser.parse (soh ∷ print_onto (fields_of m) rest)
      ≡ some (Parser.returns (store (fields_of m) (record { fields = [] }) ∷ []))
unfolding Parser.parse
parse-print m rest i f =
    let buffer = soh ∷ print_onto (fields_of m) rest in
    let end = 1 + length (print_onto (fields_of m) []) in
    let msg = store (fields_of m) (record { fields = [] }) in
    let behind : drop end buffer ≡ rest = drop-print_onto (fields_of m) buffer rest 1 refl in
    let ended : Parser.find_next_message_start end (drop end buffer) ≡ none =
      ap (Parser.find_next_message_start end) behind ∙ find_next_message_start-shift 0 end rest f in
    let fuel = length buffer - 1 in
    ap (λ n. Parser.parse_from n buffer 0 []) {x = length buffer + 1} {y = suc (suc fuel)}
      (omega arith)
    ∙ parse_from-reads (suc fuel) buffer 0 1 end [] msg (omega arith) (find-print m rest)
        (parse_message-print m buffer rest 1 i refl)
    ∙ parse_from-stops fuel buffer end (msg ∷ []) ended
