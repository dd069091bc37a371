-- ===== src/Trader/Wire.antt =====
-- ihs/src/fix42_a.cpp: the texts that `FixSession` sends and reads. An exception is `none`.
use fast_server.Prelude.{
  ℕ, zero, suc, ◌+◌, ◌-◌, ◌&&◌, List, [], ◌∷◌, ◌++◌, Option, none, some, leb, if◌then◌else◌, length,
  take, drop, replicate,
}
use fast_server.Fix.{soh, equal_sign, decimal, three_digits, index_of, sum_bytes}
use fast_server.Parser.{ℤ, pos, stoi, returns, throws}
use fast_server.Parser.Stream.{search}
use fast_server.Session.Wire.{put_field, has_tag, value_of, fix_version, field_onto, same_text}

-- The fields of a message's map, in front of `rest`.
unfoldable pub fields_onto : List (ℤ × List ℕ) → List ℕ → List ℕ
fields_onto [] rest = rest
fields_onto ((tag, value) ∷ fields) rest = field_onto tag value (fields_onto fields rest)

-- What `sendMessage` writes behind the body length.
abbrev pub message_rest : ℕ → List ℕ → List ℕ → List ℕ → List ℕ → List (ℤ × List ℕ) → List ℕ
message_rest seq_num sender target time msg_type fields = field_onto (pos 34) (decimal seq_num) (
    field_onto (pos 49) sender (
      field_onto (pos 56) target
        (field_onto (pos 52) time (field_onto (pos 35) msg_type (fields_onto fields [])))))

-- Six digits, with zeros in front; a longer number makes the string's constructor throw.
unfoldable pub six_digits : ℕ → Option (List ℕ)
six_digits n =
    if leb (length (decimal n)) 6
    then some (replicate (6 - length (decimal n)) 48 ++ decimal n)
    else none

-- `fullMsg.replace`, where the six zeros are found.
unfoldable pub replace_zeros : List ℕ → List ℕ → List ℕ
replace_zeros value text = elim (search (replicate 6 48) text) [
  | none ↦ text
  | some place ↦ take place text ++ (value ++ drop (place + 6) text)
]

-- The text that `sendMessage` sends.
unfoldable pub send_text :
    ℕ → List ℕ → List ℕ → List ℕ → List ℕ → List (ℤ × List ℕ) → Option (List ℕ)
send_text seq_num sender target time msg_type fields =
    let full = field_onto (pos 8) fix_version (
      field_onto (pos 9) (replicate 6 48)
        (message_rest seq_num sender target time msg_type fields)) in
    elim (six_digits (length full - 1 - 3)) [
      | none ↦ none
      | some value ↦
          let msg = replace_zeros value full in
          some (msg ++ field_onto (pos 10) (three_digits (sum_bytes msg)) [])
    ]

-- The loop of `parseFixMessage`, on fuel: a field takes an equals sign at least, so that one round more
-- than the text has characters is enough.
unfoldable pub parse_pairs : ℕ → List ℕ → List (ℤ × List ℕ) → Option (List (ℤ × List ℕ))
parse_pairs zero text fields = none
parse_pairs (suc fuel) [] fields = some fields
parse_pairs (suc fuel) (c ∷ text) fields =
    let eq_pos = index_of equal_sign (c ∷ text) in
    let rest = drop (suc eq_pos) (c ∷ text) in
    let more : ℤ → Option (List (ℤ × List ℕ)) = λ tag.
      parse_pairs fuel (drop (suc (index_of soh rest)) rest)
        (put_field tag (take (index_of soh rest) rest) fields) in
    elim (stoi (take eq_pos (c ∷ text))) [
      | throws e ↦ none
      | returns tag ↦ elim rest [ [] ↦ none | d ∷ ds ↦ more tag ]
    ]

unfoldable pub parse_fix_message : List ℕ → Option (List (ℤ × List ℕ))
parse_fix_message message = elim (parse_pairs (suc (length message)) message []) [
  | none ↦ none
  | some fields ↦
      if has_tag (pos 8) fields
        && same_text (value_of (pos 8) fields) fix_version
        && has_tag (pos 35) fields
      then some fields
      else none
]
