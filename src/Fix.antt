-- ===== src/Fix.antt =====
-- ihs/src/encoder.cpp: `FixEncoder`, a writer of FIX messages. A character is its code; a value of an
-- exception is `none`. The growth of the vector's capacity is left out.
pub mod Replace
pub mod Finalize
mod Tests
use fast_server.Prelude.{
  ℕ, zero, suc, ◌+◌, ◌-◌, ◌/◌, ◌%◌, Bool, true, false, List, [], ◌∷◌, ◌++◌, Option, none, some, ltb,
  leb, ◌==◌, if◌then◌else◌, length, take, drop, replicate, blit, slice, sub_size,
}

pub record FixEncoder : Type 0 where
  pub buffer : List ℕ
  pub body_length_pos : ℕ
  pub field_count : ℕ
  pub has_body_length : Bool
  pub has_checksum : Bool

abbrev pub soh : ℕ
soh = 1

abbrev pub equal_sign : ℕ
equal_sign = 61

-- The decimal digits of a number, as `%d`, `%zu` and `to_string` print them, in front of `acc`.
unfoldable pub decimal_onto : ℕ → ℕ → List ℕ → List ℕ
decimal_onto zero n acc = acc
decimal_onto (suc fuel) n acc =
    let digit = 48 + n % 10 in
    let more = decimal_onto fuel (n / 10) (digit ∷ acc) in if ltb n 10 then digit ∷ acc else more

abbrev pub decimal : ℕ → List ℕ
decimal n = decimal_onto 20 n []

-- `%03d` of a byte.
abbrev pub three_digits : ℕ → List ℕ
three_digits n = (48 + n / 100) ∷ (48 + n / 10 % 10) ∷ (48 + n % 10) ∷ []

unfoldable pub reset : FixEncoder → FixEncoder
reset e = record e { buffer = []; field_count = 0; has_body_length = false; has_checksum = false }

unfoldable pub add_field_internal : ℕ → List ℕ → FixEncoder → FixEncoder
add_field_internal tag value e = record e {
  buffer = e.buffer ++ (decimal tag ++ equal_sign ∷ value ++ soh ∷ []);
  field_count = e.field_count + 1;
}

unfoldable pub add_header : List ℕ → List ℕ → FixEncoder → FixEncoder
add_header begin_string msg_type e =
    let e1 = add_field_internal 8 begin_string (reset e) in
    let e2 = record e1 { body_length_pos = length e1.buffer } in
    let e3 = add_field_internal 9 (replicate 5 48) e2 in
    add_field_internal 35 msg_type (record e3 { has_body_length = true })

-- The loops that look for a character: its place, or the end.
unfoldable pub index_of : ℕ → List ℕ → ℕ
index_of ch [] = 0
index_of ch (x ∷ xs) = let more = index_of ch xs in if x == ch then 0 else suc more

-- The change of the size of a field's value that ends at `field_end`, from `old` to `new` characters.
unfoldable pub resize_field : ℕ → ℕ → ℕ → List ℕ → List ℕ
resize_field field_end old new buf =
    let original_size = length buf in
    if old == new
    then buf
    else if ltb old new
    then blit (buf ++ replicate (new - old) 0) (field_end + (new - old))
        (slice buf field_end (original_size - field_end))
    else take (original_size - (old - new))
        (blit buf (field_end - (old - new)) (slice buf field_end (original_size - field_end)))

unfoldable pub replace_field_value : ℕ → List ℕ → FixEncoder → Option FixEncoder
replace_field_value field_start new_value e =
    let buf = e.buffer in
    let equal_pos = field_start + index_of equal_sign (drop field_start buf) in
    let value_pos = equal_pos + 1 in
    let field_end = value_pos + index_of soh (drop value_pos buf) in
    if leb (length buf) equal_pos
    then none
    else if leb (length buf) field_end
    then none
    else some (record e {
      buffer =
          blit (resize_field field_end (field_end - value_pos) (length new_value) buf) value_pos
            new_value;
    })

-- `calculateChecksum`: the sum of the bytes, modulo 256.
unfoldable pub sum_bytes : List ℕ → ℕ
sum_bytes [] = 0
sum_bytes (x ∷ xs) = (x + sum_bytes xs) % 256

abbrev pub calculate_checksum : ℕ → ℕ → List ℕ → ℕ
calculate_checksum start end buf = sum_bytes (slice buf start (end - start))

unfoldable pub finalize : FixEncoder → Option FixEncoder
finalize e = elim e.has_body_length [
  | false ↦ none
  | true ↦
      let body_start = index_of soh e.buffer + 1 in
      let checksum_pos = length e.buffer in
      let body_length = sub_size checksum_pos body_start in
      (elim (replace_field_value e.body_length_pos (decimal body_length) e) [
        | none ↦ none
        | some e1 ↦
            let e2 = add_field_internal 10 (replicate 3 48) e1 in
            let e3 = record e2 { has_checksum = true } in
            let checksum = calculate_checksum body_start checksum_pos e3.buffer in
            replace_field_value checksum_pos (three_digits checksum) e3
      ])
]
