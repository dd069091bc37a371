-- ===== src/Session/Wire.antt =====
-- ihs/src/fix42.cpp: the messages of `FIX42Protocol` as text. A text is the list of its characters'
-- codes; `std::map` is a list of fields in the order of their tags.
use fast_server.Prelude.{
  Option, ◌-◌, ◌%◌, ◌^◌, ℕ, suc, Bool, true, false, ◌&&◌, ◌||◌, List, [], ◌∷◌, ◌++◌, none, some,
  ltb, ◌==◌, if◌then◌else◌, length, take, drop,
}
use fast_server.Fix.{soh, equal_sign, decimal, three_digits, index_of, sum_bytes}
use fast_server.Parser.{
  is_digit, read_digits, skip_spaces, ℤ, pos, negsuc, same_int, stoi, returns, throws, find,
}
use fast_server.Parser.Stream.{search, checksum_text}

pub record Message : Type 0 where
  pub fields : List (ℤ × List ℕ)
  pub raw_data : List ℕ

unfoldable pub below_tag : ℤ → ℤ → Bool
below_tag (pos m) (pos n) = ltb m n
below_tag (negsuc m) (negsuc n) = ltb n m
below_tag (pos m) (negsuc n) = false
below_tag (negsuc m) (pos n) = true

-- `fields[tag] = value`
unfoldable pub put_field : ℤ → List ℕ → List (ℤ × List ℕ) → List (ℤ × List ℕ)
put_field tag value [] = (tag, value) ∷ []
put_field tag value ((t, v) ∷ fields) =
    let more = put_field tag value fields in
    if same_int t tag
    then (t, value) ∷ fields
    else if below_tag tag t
    then (tag, value) ∷ (t, v) ∷ fields
    else (t, v) ∷ more

unfoldable pub has_tag : ℤ → List (ℤ × List ℕ) → Bool
has_tag tag fields = elim (find tag fields) [ none ↦ false | some value ↦ true ]

-- `fields.at`, which is only called where the field is there.
unfoldable pub value_of : ℤ → List (ℤ × List ℕ) → List ℕ
value_of tag fields = elim (find tag fields) [ none ↦ [] | some value ↦ value ]

-- `to_string` of an `int`.
unfoldable pub print_int : ℤ → List ℕ
print_int (pos n) = decimal n
print_int (negsuc n) = 45 ∷ decimal (suc n)

-- `FIX.4.2`
abbrev pub fix_version : List ℕ
fix_version = 70 ∷ 73 ∷ 88 ∷ 46 ∷ 52 ∷ 46 ∷ 50 ∷ []

abbrev pub field_onto : ℤ → List ℕ → List ℕ → List ℕ
field_onto tag value rest = print_int tag ++ equal_sign ∷ (value ++ soh ∷ rest)

-- The tags that `serialize` writes itself.
abbrev pub is_framing : ℤ → Bool
is_framing tag = same_int tag (pos 8) || same_int tag (pos 9) || same_int tag (pos 10)

unfoldable pub serialize_body : List (ℤ × List ℕ) → List ℕ
serialize_body [] = []
serialize_body ((tag, value) ∷ fields) =
    let more = serialize_body fields in if is_framing tag then more else field_onto tag value more

-- `calculateChecksum`
unfoldable pub session_checksum : List ℕ → List ℕ
session_checksum msg = three_digits (sum_bytes msg)

unfoldable pub serialize_header : List ℕ → List ℕ
serialize_header body =
    field_onto (pos 8) fix_version (field_onto (pos 9) (decimal (length body)) body)

unfoldable pub serialize : Message → List ℕ
serialize msg =
    let header = serialize_header (serialize_body msg.fields) in
    header ++ field_onto (pos 10) (session_checksum header) []

-- A field's text, stored where it has a number for its tag and an equals sign.
unfoldable pub store_text : List ℕ → List (ℤ × List ℕ) → List (ℤ × List ℕ)
store_text text fields =
    let eq_pos = index_of equal_sign text in
    if ltb eq_pos (length text)
    then elim (stoi (take eq_pos text)) [
      | throws e ↦ fields
      | returns tag ↦ put_field tag (drop (suc eq_pos) text) fields
    ]
    else fields

-- The loop of `deserialize`: the characters since the last separator and those to come. A text that
-- no separator ends is left out.
unfoldable pub read_fields : List ℕ → List ℕ → List (ℤ × List ℕ) → List (ℤ × List ℕ)
read_fields text [] fields = fields
read_fields text (c ∷ raw) fields = elim (c == soh) [
  | true ↦ read_fields [] raw (store_text text fields)
  | false ↦ read_fields (text ++ c ∷ []) raw fields
]

unfoldable pub deserialize : List ℕ → Bool × Message
deserialize raw =
    let fields = read_fields [] raw [] in
    (elim fields [ [] ↦ false | f ∷ fs ↦ true ], record { fields = fields; raw_data = raw })

unfoldable pub same_text : List ℕ → List ℕ → Bool
same_text [] [] = true
same_text [] (d ∷ ds) = false
same_text (c ∷ cs) [] = false
same_text (c ∷ cs) (d ∷ ds) = c == d && same_text cs ds

-- The part of a message that its checksum covers: what stands before the first `10=`.
unfoldable pub checked_part : List ℕ → List ℕ
checked_part raw = elim (search checksum_text raw) [ none ↦ raw | some place ↦ take place raw ]

unfoldable pub has_all : List ℤ → List (ℤ × List ℕ) → Bool
has_all [] fields = true
has_all (tag ∷ tags) fields = has_tag tag fields && has_all tags fields

abbrev pub required : List ℤ
required = pos 8 ∷ pos 9 ∷ pos 35 ∷ pos 49 ∷ pos 56 ∷ pos 34 ∷ pos 52 ∷ pos 10 ∷ []

-- `validateMessage`, in a session of these two ids.
unfoldable pub validate_message : List ℕ → List ℕ → Message → Bool
validate_message sender_comp_id target_comp_id msg =
    has_all required msg.fields
    && same_text (value_of (pos 8) msg.fields) fix_version
    && same_text (value_of (pos 49) msg.fields) target_comp_id
    && same_text (value_of (pos 56) msg.fields) sender_comp_id
    && same_text (session_checksum (checked_part msg.raw_data)) (value_of (pos 10) msg.fields)

-- `std::stoul`, where it gives a number: blanks, a sign, digits; a number of 64 bits, negated after a
-- minus sign.
unfoldable pub stoul_digits : Bool → List ℕ → Option ℕ
stoul_digits negative [] = none
stoul_digits negative (c ∷ text) =
    let n = read_digits 0 (c ∷ text) in
    if is_digit c && ltb n (2 ^ 64)
    then some (if negative then (2 ^ 64 - n) % 2 ^ 64 else n)
    else none

unfoldable pub stoul : List ℕ → Option ℕ
stoul text = elim (skip_spaces text) [
  | [] ↦ none
  | c ∷ rest ↦
      if c == 45
      then stoul_digits true rest
      else if c == 43
      then stoul_digits false rest
      else stoul_digits false (c ∷ rest)
]
