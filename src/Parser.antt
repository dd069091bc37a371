-- ===== src/Parser.antt =====
-- ihs/src/parser.cpp, the second `FixParser`, which takes whole buffers. The position that
-- `parse_message` returns beside the message is its argument `endPos`.
mod Stoi
mod Message
mod Tests
pub mod Fields
pub mod Flags
pub mod Places
pub mod Total
pub mod Digits
pub mod Print
pub mod Turns
pub mod Printed
pub mod RoundTrip
pub mod OneMessage
pub mod Stream
pub mod Spin
pub mod Pieces
pub mod Past
pub mod Sound
unfoldable pub use Stoi.*
unfoldable pub use Message.*
use fast_server.Prelude.{
  ℕ, zero, suc, ◌+◌, ◌-◌, Bool, true, false, ◌&&◌, List, [], ◌∷◌, ◌++◌, Option, none, some, ltb,
  leb, ◌==◌, if◌then◌else◌, length, drop, slice, sub_size,
}
use fast_server.Fix.{soh, equal_sign, index_of}

abbrev pub begin_string : ℤ
begin_string = pos 8

abbrev pub body_length : ℤ
body_length = pos 9

abbrev pub message_type : ℤ
message_type = pos 35

abbrev pub check_sum : ℤ
check_sum = pos 10

-- The test of `findNextMessageStart` behind a separator: `start` when `8=` and another character
-- stand there, none when fewer than three characters do, and else `more`.
unfoldable pub check_start : ℕ → Option ℕ → List ℕ → Option ℕ
check_start start more [] = none
check_start start more (d ∷ []) = none
check_start start more (d ∷ e ∷ []) = none
check_start start more (d ∷ e ∷ f ∷ rest) = if d == 56 && e == equal_sign then some start else more

-- `findNextMessageStart`, on the rest of the buffer from `at` on.
unfoldable pub find_next_message_start : ℕ → List ℕ → Option ℕ
find_next_message_start at [] = none
find_next_message_start at (c ∷ rest) =
    let more = find_next_message_start (suc at) rest in
    if c == soh then check_start (suc at) more rest else more

pub record Field : Type 0 where
  pub tag : ℤ
  pub value : List ℕ
  pub field_end : ℕ

-- The part of the loop of `parseMessage` that reads the field at `at`.
unfoldable pub read_field : List ℕ → ℕ → Result Field
read_field buffer at =
    let field_end = at + index_of soh (drop at buffer) in
    let equal_pos = at + index_of equal_sign (slice buffer at (field_end - at)) in
    if leb (length buffer) field_end
    then throws (runtime_error incomplete_field)
    else if leb field_end equal_pos
    then throws (runtime_error invalid_field_format)
    else elim (stoi (slice buffer at (equal_pos - at))) [
      | throws e ↦ throws e
      | returns t ↦ returns (record {
        tag = t;
        value = slice buffer (equal_pos + 1) (field_end - equal_pos - 1);
        field_end = field_end;
      })
    ]

unfoldable pub calculate_body_length : List ℕ → ℕ → ℕ → ℕ
calculate_body_length buffer start_pos checksum_pos =
    sub_size checksum_pos (start_pos + index_of soh (drop start_pos buffer) + 1)

unfoldable pub verify_checksum : List ℕ → ℕ → ℕ → List ℕ → Bool
verify_checksum buffer start_pos checksum_pos checksum_value = true

-- The local variables of `parseMessage`.
pub record Header : Type 0 where
  pub msg : FixMessage
  pub length_value : ℤ
  pub has_begin_string : Bool
  pub has_body_length : Bool
  pub has_msg_type : Bool

abbrev pub no_header : Header
no_header = record {
  msg = record { fields = [] };
  length_value = pos 0;
  has_begin_string = false;
  has_body_length = false;
  has_msg_type = false;
}

-- The checks at the field of the checksum.
unfoldable pub check_message : List ℕ → ℕ → Field → Header → Result (FixMessage × ℕ)
check_message buffer start_pos f h =
    if h.has_begin_string && h.has_body_length && h.has_msg_type
    then if calculate_body_length buffer start_pos f.field_end == size_of_int h.length_value
      then if verify_checksum buffer start_pos f.field_end f.value
        then returns (h.msg, f.field_end + 1)
        else throws (runtime_error checksum_mismatch)
      else throws (runtime_error body_length_mismatch)
    else throws (runtime_error missing_required_header_fields)

-- The variables behind a field that is not the checksum.
unfoldable pub note_field : Field → Header → Result Header
note_field f h =
    if same_int f.tag begin_string
    then returns (record h { has_begin_string = true })
    else if same_int f.tag body_length
    then elim (stoi f.value) [
      | throws e ↦ throws e
      | returns n ↦ returns (record h { has_body_length = true; length_value = n })
    ]
    else if same_int f.tag message_type
    then returns (record h { has_msg_type = true })
    else returns h

unfoldable pub insert_field : Field → Header → Header
insert_field f h = record h { msg = add_field f.tag f.value h.msg }

-- The loop of `parseMessage`; `none` when the fuel runs out.
unfoldable pub parse_fields : ℕ → List ℕ → ℕ → ℕ → Header → Option (Result (FixMessage × ℕ))
parse_fields zero buffer start_pos at h = none
parse_fields (suc fuel) buffer start_pos at h = elim (ltb at (length buffer)) [
  | false ↦ some (throws (runtime_error missing_checksum))
  | true ↦ elim (read_field buffer at) [
    | throws e ↦ some (throws e)
    | returns f ↦ elim (same_int f.tag check_sum) [
      | true ↦ some (check_message buffer start_pos f (insert_field f h))
      | false ↦ elim (note_field f (insert_field f h)) [
        | throws e ↦ some (throws e)
        | returns h2 ↦ parse_fields fuel buffer start_pos (f.field_end + 1) h2
      ]
    ]
  ]
]

unfoldable pub parse_message : List ℕ → ℕ → Option (Result (FixMessage × ℕ))
parse_message buffer start_pos =
    parse_fields (length buffer + 1) buffer start_pos start_pos no_header

-- The loop of `parse`.
unfoldable pub parse_from : ℕ → List ℕ → ℕ → List FixMessage → Option (Result (List FixMessage))
parse_from zero buffer at messages = none
parse_from (suc fuel) buffer at messages = elim (ltb at (length buffer)) [
  | false ↦ some (returns messages)
  | true ↦ elim (find_next_message_start at (drop at buffer)) [
    | none ↦ some (returns messages)
    | some start ↦ elim (parse_message buffer start) [
      | none ↦ none
      | some (returns (msg, end)) ↦ parse_from fuel buffer end (messages ++ msg ∷ [])
      | some (throws (runtime_error why)) ↦ parse_from fuel buffer (start + 1) messages
      | some (throws e) ↦ some (throws e)
    ]
  ]
]

unfoldable pub parse : List ℕ → Option (Result (List FixMessage))
parse buffer = parse_from (length buffer + 1) buffer 0 []
