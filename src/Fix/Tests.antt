-- ===== src/Fix/Tests.antt =====
-- Runs of the encoder of ihs/src/encoder.cpp, and the theorem at a message.
use fast_server.Prelude.{
  ℕ, ◌+◌, ◌≤◌, List, ◌++◌, length, ltb, if◌then◌else◌, ◌≡◌, refl, arith, true, false, [], ◌∷◌, some,
  none, replicate,
}
use fast_server.Fix.{
  three_digits, calculate_checksum, FixEncoder, decimal_onto, reset, add_field_internal, add_header,
  index_of, resize_field, replace_field_value, sum_bytes, finalize,
}
use fast_server.Fix.Finalize.{checksum_field, with_length, body_start, body_size, finalize_lem}

abbrev blank : FixEncoder
blank = record {
  buffer = [];
  body_length_pos = 0;
  field_count = 0;
  has_body_length = false;
  has_checksum = false;
}

-- `8=F`, `9=00000` and `35=D`: the body length has two digits.
abbrev short_message : FixEncoder
short_message = add_header (70 ∷ []) (68 ∷ []) blank

-- With a body length of two digits `finalize` throws: it looks for the checksum's field where that
-- field was to begin before the shorter length moved it.
finalize-short_message : finalize short_message ≡ none
unfolding finalize add_header add_field_internal reset decimal_onto index_of resize_field
    replace_field_value sum_bytes
finalize-short_message = refl

-- With three digits it does not throw.
finalize-long_message :
    (elim (finalize (add_field_internal 58 (replicate 100 65) short_message)) [
      | none ↦ false
      | some e ↦ true
    ])
    ≡ true
unfolding finalize add_header add_field_internal reset decimal_onto index_of resize_field
    replace_field_value sum_bytes
finalize-long_message = refl

abbrev filled : FixEncoder
filled = record blank { buffer = 7 ∷ 1 ∷ 57 ∷ 61 ∷ 48 ∷ 48 ∷ 48 ∷ 1 ∷ 51 ∷ 1 ∷ [] }

abbrev long_message : FixEncoder
long_message = add_field_internal 58 (replicate 100 65) short_message

abbrev version_text : List ℕ
version_text = 56 ∷ 61 ∷ 70 ∷ 1 ∷ []

abbrev fields_text : List ℕ
fields_text = 51 ∷ 53 ∷ 61 ∷ 68 ∷ 1 ∷ 53 ∷ 56 ∷ 61 ∷ replicate 100 65 ++ 1 ∷ []

long_message-buffer :
    (long_message.has_body_length ≡ true)
    × (long_message.body_length_pos ≡ 4)
    × (long_message.buffer ≡ with_length version_text (replicate 5 48) fields_text)
    × (length (body_size long_message) ≤ 5)
unfolding add_header add_field_internal reset decimal_onto index_of
long_message-buffer = (refl, refl, refl, omega arith)

finalize_lem_example : finalize long_message ≡ (
    if ltb (length (body_size long_message)) 3
    then none
    else some (record long_message {
      buffer =
          with_length version_text (body_size long_message) fields_text
          ++ checksum_field (
              three_digits (
                calculate_checksum (body_start long_message) (length long_message.buffer) (
                  with_length version_text (body_size long_message) fields_text
                  ++ checksum_field (replicate 3 48))));
      field_count = long_message.field_count + 1;
      has_checksum = true;
    }))
finalize_lem_example =
    let (a, b, c, d) = long_message-buffer in
    finalize_lem version_text fields_text long_message a b c d
