-- ===== src/Parser/Stream.antt =====
-- ihs/src/parser.cpp, the first `FixParser`, which takes a stream of characters. The messages that
-- the callback was given are kept in a list. `stoi` is written out in Parser.Stoi.
use fast_server.Prelude.{
  ℕ, zero, suc, ◌+◌, ◌-◌, ◌*◌, ◌%◌, ◌^◌, Bool, true, false, ◌&&◌, List, [], ◌∷◌, ◌++◌, Option, none,
  some, ltb, leb, ◌==◌, if◌then◌else◌, length, take, drop, slice,
}
use fast_server.Fix.{soh, index_of, sum_bytes}
use fast_server.Parser.Stoi.{
  Result, returns, throws, Exception, runtime_error, invalid_body_length_format, is_digit, stoi,
  size_of_int,
}

pub record StreamParser : Type 0 where
  pub buffer : List ℕ
  pub delivered : List (List ℕ)

-- How `on_data` is left: it waits for more, an exception leaves it, or it reads past the buffer.
pub data Left : Type 0 where
  waits : StreamParser → Left
  raises : Exception → StreamParser → Left
  overruns : StreamParser → Left

unfoldable pub starts_with : List ℕ → List ℕ → Bool
starts_with [] text = true
starts_with (c ∷ pattern) [] = false
starts_with (c ∷ pattern) (d ∷ text) = c == d && starts_with pattern text

-- `std::search` and `find`: the place of a pattern in a text.
unfoldable pub search : List ℕ → List ℕ → Option ℕ
search pattern [] = none
search pattern (c ∷ text) =
    let more : Option ℕ = elim (search pattern text) [ none ↦ none | some i ↦ some (suc i) ] in
    if starts_with pattern (c ∷ text) then some 0 else more

-- `8=FIX`
abbrev pub begin_text : List ℕ
begin_text = 56 ∷ 61 ∷ 70 ∷ 73 ∷ 88 ∷ []

-- `10=`
abbrev pub checksum_text : List ℕ
checksum_text = 49 ∷ 48 ∷ 61 ∷ []

-- `parse_length`: the characters that it passes and the number, a `size_t`.
unfoldable pub parse_length : List ℕ → ℕ → Result (ℕ × ℕ)
parse_length [] n = returns (0, n)
parse_length (c ∷ text) n = elim (c == soh) [
  | true ↦ returns (0, n)
  | false ↦ elim (is_digit c) [
    | false ↦ throws (runtime_error invalid_body_length_format)
    | true ↦ elim (parse_length text ((n * 10 + (c - 48)) % 2 ^ 64)) [
      | throws e ↦ throws e
      | returns (passed, m) ↦ returns (suc passed, m)
    ]
  ]
]

unfoldable pub validate_checksum : List ℕ → Result Bool
validate_checksum msg = elim (search checksum_text msg) [
  | none ↦ returns false
  | some check_sum_pos ↦ elim (stoi (slice msg (check_sum_pos + 3) 3)) [
    | throws e ↦ throws e
    | returns n ↦ returns (sum_bytes (take check_sum_pos msg) == size_of_int n)
  ]
]

-- A message at the front of `rest`, of `total_msg_len` characters.
unfoldable pub take_message : ℕ → List ℕ → StreamParser → Result StreamParser
take_message total_msg_len rest p = elim (validate_checksum (take total_msg_len rest)) [
  | throws e ↦ throws e
  | returns valid ↦ returns (record {
    buffer = drop total_msg_len rest;
    delivered = if valid then p.delivered ++ take total_msg_len rest ∷ [] else p.delivered;
  })
]

-- How a round of the loop goes on.
pub data Next : Type 0 where
  leaves : Left → Next
  repeats : StreamParser → Next

-- The message that begins at the front of `rest`, from the place of its body length on.
unfoldable pub after_length : ℕ → ℕ × ℕ → List ℕ → StreamParser → Next
after_length start (passed, body_length) rest p =
    let num_end = start + passed in
    let total_msg_len = (num_end + body_length + 7) % 2 ^ 64 in
    if leb (length rest) num_end
    then leaves (waits p)
    else if ltb (length rest) total_msg_len
    then leaves (waits p)
    else elim (take_message total_msg_len rest p) [
      | throws e ↦ leaves (raises e p)
      | returns q ↦ repeats q
    ]

-- The message at the front of `rest`.
unfoldable pub at_begin : List ℕ → StreamParser → Next
at_begin rest p =
    let start = index_of 57 rest + 2 in
    if leb (length rest) (index_of 57 rest)
    then leaves (waits p)
    else if ltb (length rest) start
    then leaves (overruns p)
    else elim (parse_length (drop start rest) 0) [
      | throws e ↦ leaves (raises e p)
      | returns r ↦ after_length start r rest p
    ]

unfoldable pub process_round : StreamParser → Next
process_round p = elim (search begin_text p.buffer) [
  | none ↦ leaves (waits p)
  | some place ↦ at_begin (drop place p.buffer) p
]

-- The loop; `none` when the fuel runs out.
unfoldable pub process_buffer : ℕ → StreamParser → Option Left
process_buffer zero p = none
process_buffer (suc fuel) p = elim (process_round p) [
  | leaves left ↦ some left
  | repeats q ↦ process_buffer fuel q
]

unfoldable pub on_data : ℕ → List ℕ → StreamParser → Option Left
on_data fuel bytes p = process_buffer fuel (record p { buffer = p.buffer ++ bytes })
