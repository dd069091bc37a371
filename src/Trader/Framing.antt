-- ===== src/Trader/Framing.antt =====
-- ihs/src/fix42_a.cpp: the body length of the messages that `sendMessage` makes.
use fast_server.Prelude.{
  ℕ, ◌+◌, ◌-◌, ◌≤◌, ◌≡◌, refl, ap, ◌∙◌, List, [], ◌++◌, arith, Option, none, some, length, take,
  drop, replicate,
}
use fast_server.Fix.{decimal_onto, decimal, three_digits, sum_bytes}
use fast_server.Parser.{ℤ, pos}
use fast_server.Parser.Stream.{search, starts_with}
use fast_server.Session.Wire.{fix_version, print_int, field_onto}
use fast_server.Trader.Wire.{message_rest, six_digits, replace_zeros, send_text}

-- A number with zeros in front.
abbrev pub padded : ℕ → List ℕ
padded n = replicate (6 - length (decimal n)) 48 ++ decimal n

six_digits-padded : (n : ℕ) → length (decimal n) ≤ 6 → six_digits n ≡ some (padded n)
unfolding six_digits
six_digits-padded n h = ground (arith, h)

search_zeros :
    (rest : List ℕ)
    → search
        (replicate 6 48)
        (field_onto (pos 8) fix_version (field_onto (pos 9) (replicate 6 48) rest))
      ≡ some 12
unfolding search starts_with print_int decimal_onto
search_zeros rest = refl

replaced :
    (value rest : List ℕ)
    → replace_zeros value
        (field_onto (pos 8) fix_version (field_onto (pos 9) (replicate 6 48) rest))
      ≡ field_onto (pos 8) fix_version (field_onto (pos 9) value rest)
unfolding replace_zeros print_int decimal_onto
replaced value rest =
    let full = field_onto (pos 8) fix_version (field_onto (pos 9) (replicate 6 48) rest) in
    ap
      (λ (o : Option ℕ). elim o [
        | none ↦ full
        | some place ↦ take place full ++ (value ++ drop (place + 6) full)
      ])
      (search_zeros rest)

length-full :
    (rest : List ℕ)
    → length (field_onto (pos 8) fix_version (field_onto (pos 9) (replicate 6 48) rest))
      ≡ length rest + 19
unfolding print_int decimal_onto
length-full rest = omega arith

-- Where the number has at most six digits, `sendMessage` writes into the field of the body length 15 more
-- than the characters that stand between that field and the checksum's; the text is else the version,
-- the fields that the header and the caller give, and a checksum over all before it.
pub send_text_lem :
    (seq_num : ℕ) (sender target time msg_type : List ℕ) (fields : List (ℤ × List ℕ))
    → length (decimal (length (message_rest seq_num sender target time msg_type fields) + 15)) ≤ 6
    → let rest = message_rest seq_num sender target time msg_type fields in
      let msg =
        field_onto (pos 8) fix_version (field_onto (pos 9) (padded (length rest + 15)) rest) in
      send_text seq_num sender target time msg_type fields
      ≡ some (msg ++ field_onto (pos 10) (three_digits (sum_bytes msg)) [])
unfolding send_text six_digits
send_text_lem seq_num sender target time msg_type fields h =
    let rest = message_rest seq_num sender target time msg_type fields in
    let full = field_onto (pos 8) fix_version (field_onto (pos 9) (replicate 6 48) rest) in
    let counted : length full - 1 - 3 ≡ length rest + 15 = omega (arith, length-full rest) in
    let finish : Option (List ℕ) → Option (List ℕ) = λ o. elim o [
      | none ↦ none
      | some value ↦ some (
          replace_zeros value full
          ++ field_onto (pos 10) (three_digits (sum_bytes (replace_zeros value full))) [])
    ] in
    ap (λ n. finish (six_digits n)) counted
    ∙ ap finish (six_digits-padded (length rest + 15) h)
    ∙ ap (λ m. some (m ++ field_onto (pos 10) (three_digits (sum_bytes m)) []))
        (replaced (padded (length rest + 15)) rest)
