-- ===== src/Parser/Total.antt =====
-- The loops of the `FixParser` of ihs/src/parser.cpp make progress.
use fast_server.Prelude.{
  ℕ, zero, suc, ◌+◌, ◌≤◌, ◌<◌, ◌≡◌, ◌≢◌, true, false, List, [], ◌∷◌, ◌++◌, Option, none, some, sym,
  ◌∙◌, ltb, length, drop, length-drop, tests, arith, Bool-cases, Option-cases, inl, inr, ◌⊎◌,
  some-injective,
}
use fast_server.Parser

-- A field that is read ends in the buffer, at its start or behind.
pub read_field-bounds :
    (buffer : List ℕ) (at : ℕ) (f : Parser.Field)
    → Parser.read_field buffer at ≡ Parser.returns f
    → (at ≤ f.field_end) × (f.field_end < length buffer)
unfolding Parser.read_field
read_field-bounds buffer at f e = ground arith

-- A turn of the loop over the fields: it throws, or comes to the checksum, or goes on.
pub data Turn (fuel : ℕ) (buffer : List ℕ) (start at : ℕ) (h : Parser.Header) : Type 0 where
  fails :
      (e : Parser.Exception)
      → Parser.parse_fields (suc fuel) buffer start at h ≡ some (Parser.throws e)
      → Turn fuel buffer start at h
  ends :
      (f : Parser.Field)
      → Parser.read_field buffer at ≡ Parser.returns f
      → Parser.same_int f.tag Parser.check_sum ≡ true
      → Parser.parse_fields (suc fuel) buffer start at h
        ≡ some (Parser.check_message buffer start f (Parser.insert_field f h))
      → Turn fuel buffer start at h
  goes_on :
      (f : Parser.Field) (h2 : Parser.Header)
      → Parser.read_field buffer at ≡ Parser.returns f
      → Parser.same_int f.tag Parser.check_sum ≡ false
      → Parser.note_field f (Parser.insert_field f h) ≡ Parser.returns h2
      → Parser.parse_fields (suc fuel) buffer start at h
        ≡ Parser.parse_fields fuel buffer start (f.field_end + 1) h2
      → Turn fuel buffer start at h

pub turn :
    (fuel : ℕ) (buffer : List ℕ) (start at : ℕ) (h : Parser.Header) → Turn fuel buffer start at h
unfolding Parser.parse_fields
turn fuel buffer start at h = elim (Bool-cases (ltb at (length buffer))) [
  | inr i ↦ fails (Parser.runtime_error Parser.missing_checksum) (ground arith)
  | inl i ↦ elim (Parser.Result-cases (Parser.read_field buffer at)) [
    | inr (e, r) ↦ fails e (ground arith)
    | inl (f, r) ↦ elim (Bool-cases (Parser.same_int f.tag Parser.check_sum)) [
      | inl t ↦ ends f r t (ground arith)
      | inr t ↦ elim (Parser.Result-cases (Parser.note_field f (Parser.insert_field f h))) [
        | inr (e, n) ↦ fails e (ground arith)
        | inl (h2, n) ↦ goes_on f h2 r t n (ground arith)
      ]
    ]
  ]
]

parse_fields-some :
    (fuel : ℕ) (buffer : List ℕ) (start at : ℕ) (h : Parser.Header)
    → at ≤ length buffer
    → length buffer < at + fuel
    → Parser.parse_fields fuel buffer start at h ≢ none
unfolding Parser.parse_fields
parse_fields-some zero buffer start at h i b = absurd (omega arith)
parse_fields-some (suc fuel) buffer start at h i b = elim (turn fuel buffer start at h) [
  | fails e p ↦ cc
  | ends f r t p ↦ cc
  | goes_on f h2 r t n p ↦ λ q.
      parse_fields-some fuel buffer start (f.field_end + 1) h2
        (omega (arith, read_field-bounds buffer at f r))
        (omega (arith, read_field-bounds buffer at f r)) (sym p ∙ q)
]

pub parse_message-some :
    (buffer : List ℕ) (start : ℕ) → start ≤ length buffer → Parser.parse_message buffer start ≢ none
unfolding Parser.parse_message
parse_message-some buffer start h =
    parse_fields-some (length buffer + 1) buffer start start Parser.no_header h (omega arith)

check_start-cases :
    (start : ℕ) (more : Option ℕ) (rest : List ℕ) (s : ℕ)
    → Parser.check_start start more rest ≡ some s
    → ((s ≡ start) × (2 < length rest)) ⊎ (more ≡ some s)
unfolding Parser.check_start
check_start-cases start more [] s e = cc
check_start-cases start more (d ∷ []) s e = cc
check_start-cases start more (d ∷ x ∷ []) s e = cc
check_start-cases start more (d ∷ x ∷ y ∷ rest) s e = ground arith

-- A message lies behind the place from which it is looked for, and ends in the buffer.
pub find_next_message_start-bounds :
    (at : ℕ) (rest : List ℕ) (s : ℕ)
    → Parser.find_next_message_start at rest ≡ some s
    → (at < s) × (s + 2 < at + length rest)
unfolding Parser.find_next_message_start
find_next_message_start-bounds at [] s e = cc
find_next_message_start-bounds at (c ∷ rest) s e = ground (
  arith,
  find_next_message_start-bounds (suc at) rest s,
  check_start-cases (suc at) (Parser.find_next_message_start (suc at) rest) rest s,
)

check_message-end :
    (buffer : List ℕ) (start : ℕ) (f : Parser.Field) (h : Parser.Header) (msg : Parser.FixMessage)
    (end : ℕ)
    → Parser.check_message buffer start f h ≡ Parser.returns (msg, end)
    → end ≡ f.field_end + 1
unfolding Parser.check_message
check_message-end buffer start f h msg end e = ground arith

-- The end of a message lies behind its start.
parse_fields-end :
    (fuel : ℕ) (buffer : List ℕ) (start at : ℕ) (h : Parser.Header) (msg : Parser.FixMessage)
    (end : ℕ)
    → Parser.parse_fields fuel buffer start at h ≡ some (Parser.returns (msg, end))
    → (at < end) × (end ≤ length buffer)
unfolding Parser.parse_fields
parse_fields-end zero buffer start at h msg end e = absurd cc
parse_fields-end (suc fuel) buffer start at h msg end e = elim (turn fuel buffer start at h) [
  | fails x p ↦ absurd cc
  | ends f r t p ↦ ground (
    arith,
    check_message-end buffer start f (Parser.insert_field f h) msg end
        (some-injective _ _ (sym p ∙ e)),
    read_field-bounds buffer at f r,
  )
  | goes_on f h2 r t n p ↦ ground (
    arith,
    parse_fields-end fuel buffer start (f.field_end + 1) h2 msg end (sym p ∙ e),
    read_field-bounds buffer at f r,
  )
]

pub parse_message-end :
    (buffer : List ℕ) (start : ℕ) (msg : Parser.FixMessage) (end : ℕ)
    → Parser.parse_message buffer start ≡ some (Parser.returns (msg, end))
    → (start < end) × (end ≤ length buffer)
unfolding Parser.parse_message
parse_message-end buffer start msg end e =
    parse_fields-end (length buffer + 1) buffer start start Parser.no_header msg end e

-- A turn of the loop over the buffer: it has the result, or a message is read, or one is skipped.
pub data Round (fuel : ℕ) (buffer : List ℕ) (at : ℕ) (messages : List Parser.FixMessage)
    : Type 0 where
  stops :
      Parser.parse_from (suc fuel) buffer at messages ≡ some (Parser.returns messages)
      → Round fuel buffer at messages
  escapes :
      (e : Parser.Exception)
      → Parser.parse_from (suc fuel) buffer at messages ≡ some (Parser.throws e)
      → Round fuel buffer at messages
  reads :
      (start end : ℕ) (msg : Parser.FixMessage)
      → Parser.find_next_message_start at (drop at buffer) ≡ some start
      → Parser.parse_message buffer start ≡ some (Parser.returns (msg, end))
      → Parser.parse_from (suc fuel) buffer at messages
        ≡ Parser.parse_from fuel buffer end (messages ++ msg ∷ [])
      → Round fuel buffer at messages
  skips :
      (start : ℕ)
      → Parser.find_next_message_start at (drop at buffer) ≡ some start
      → Parser.parse_from (suc fuel) buffer at messages
        ≡ Parser.parse_from fuel buffer (start + 1) messages
      → Round fuel buffer at messages

start-bounds :
    (buffer : List ℕ) (at start : ℕ)
    → Parser.find_next_message_start at (drop at buffer) ≡ some start
    → (at < start) × (start + 2 < length buffer)
start-bounds buffer at start e =
    omega (arith, find_next_message_start-bounds at (drop at buffer) start e, length-drop at buffer)

pub round :
    (fuel : ℕ) (buffer : List ℕ) (at : ℕ) (messages : List Parser.FixMessage)
    → Round fuel buffer at messages
unfolding Parser.parse_from
round fuel buffer at messages = elim (Bool-cases (ltb at (length buffer))) [
  | inr i ↦ stops (ground arith)
  | inl i ↦ elim (Option-cases (Parser.find_next_message_start at (drop at buffer))) [
    | inl n ↦ stops (ground arith)
    | inr (start, n) ↦ elim (Option-cases (Parser.parse_message buffer start)) [
      | inl m ↦
          absurd (parse_message-some buffer start (omega (tests, start-bounds buffer at start n)) m)
      | inr (Parser.returns (msg, end), m) ↦ reads start end msg n m (ground arith)
      | inr (Parser.throws (Parser.runtime_error why), m) ↦ skips start n (ground arith)
      | inr (Parser.throws Parser.invalid_argument, m) ↦
          escapes Parser.invalid_argument (ground arith)
      | inr (Parser.throws Parser.out_of_range, m) ↦ escapes Parser.out_of_range (ground arith)
    ]
  ]
]

parse_from-some :
    (fuel : ℕ) (buffer : List ℕ) (at : ℕ) (messages : List Parser.FixMessage)
    → at ≤ length buffer
    → length buffer < at + fuel
    → Parser.parse_from fuel buffer at messages ≢ none
unfolding Parser.parse_from
parse_from-some zero buffer at messages i b = absurd (omega arith)
parse_from-some (suc fuel) buffer at messages i b = elim (round fuel buffer at messages) [
  | stops p ↦ cc
  | escapes e p ↦ cc
  | reads start end msg n m p ↦
      let fact = parse_message-end buffer start msg end m in
      let more = start-bounds buffer at start n in
      λ q.
        parse_from-some fuel buffer end (messages ++ msg ∷ []) (omega arith) (omega arith)
          (sym p ∙ q)
  | skips start n p ↦
      let more = start-bounds buffer at start n in
      λ q. parse_from-some fuel buffer (start + 1) messages (omega arith) (omega arith) (sym p ∙ q)
]

-- On every buffer `parse` comes to its end: it returns messages or throws, and the fuel, one more
-- than the characters of the buffer for each of the two loops, does not run out.
pub parse_total :
    (buffer : List ℕ)
    → (r : Parser.Result (List Parser.FixMessage)) × (Parser.parse buffer ≡ some r)
unfolding Parser.parse
parse_total buffer = elim (Option-cases (Parser.parse_from (length buffer + 1) buffer 0 [])) [
  | inl e ↦ absurd (parse_from-some (length buffer + 1) buffer 0 [] (omega arith) (omega arith) e)
  | inr r ↦ r
]
