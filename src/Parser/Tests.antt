-- ===== src/Parser/Tests.antt =====
-- Runs of the parsers of ihs/src/parser.cpp, and the theorems at a message.
use fast_server.Prelude.{
  ℕ, ◌+◌, ◌≡◌, ◌⊎◌, refl, arith, List, [], ◌∷◌, ◌++◌, some, none, length, All,
}
use fast_server.Fix.{soh, decimal_onto, index_of}
use fast_server.Parser
use fast_server.Parser.Stream
use fast_server.Parser.Stream.{StreamParser}
use fast_server.Parser.Spin.{IsWrapping, on_data-ends_or_spins}
use fast_server.Parser.Sound.{IsReceived, parse-IsReceived}
use fast_server.Parser.Total.{parse_total}
use fast_server.Parser.Turns.{print_onto, store}
use fast_server.Parser.Printed.{Printed, fields_of, IsPrinted}
use fast_server.Parser.OneMessage.{parse-print}

-- `8=F`, `9=19`, `35=D`, `49=A` and `10=0`.
abbrev one : Printed
one = record {
  begin_value = 70 ∷ [];
  size = 19;
  type_value = 68 ∷ [];
  others = (49, 65 ∷ []) ∷ [];
  check_value = 48 ∷ [];
}

one-IsPrinted : IsPrinted one
unfolding decimal_onto
one-IsPrinted = record {
  plain_begin = (omega arith, tt);
  plain_type = (omega arith, tt);
  plain_check = (omega arith, tt);
  others_other = (
    record {
      fits = omega arith;
      no_begin = omega arith;
      no_length = omega arith;
      no_type = omega arith;
      no_check = omega arith;
      plain = (omega arith, tt);
    },
    tt,
  );
  small = omega arith;
  sized = refl;
}

abbrev one_read : Parser.FixMessage
one_read = store (fields_of one) (record { fields = [] })

abbrev twice : List ℕ
twice = print_onto (fields_of one) []

-- A second message that follows the first at once is lost.
no_message_in_rest : Parser.find_next_message_start 0 twice ≡ none
unfolding Parser.find_next_message_start Parser.check_start decimal_onto
no_message_in_rest = refl

parse-print_example :
    Parser.parse (soh ∷ print_onto (fields_of one) twice) ≡ some (Parser.returns (one_read ∷ []))
parse-print_example = parse-print one twice one-IsPrinted no_message_in_rest

-- A message at the front of the buffer is not found.
parse-front : Parser.parse twice ≡ some (Parser.returns [])
unfolding Parser.parse Parser.parse_from Parser.find_next_message_start Parser.check_start
    decimal_onto
parse-front = refl

parse_total_example :
    (r : Parser.Result (List Parser.FixMessage)) × (Parser.parse (soh ∷ twice) ≡ some r)
parse_total_example = parse_total (soh ∷ twice)

parse-IsReceived_example : All (IsReceived (soh ∷ print_onto (fields_of one) twice)) (one_read ∷ [])
parse-IsReceived_example =
    parse-IsReceived (soh ∷ print_onto (fields_of one) twice) (one_read ∷ [])
      (parse-print one twice one-IsPrinted no_message_in_rest)

abbrev empty_stream : StreamParser
empty_stream = record { buffer = []; delivered = [] }

-- `8=FIX9=5`, a separator, and the front of a body.
abbrev half : List ℕ
half = 56 ∷ 61 ∷ 70 ∷ 73 ∷ 88 ∷ 57 ∷ 61 ∷ 53 ∷ 1 ∷ 51 ∷ []

on_data-ends_or_spins_example :
    ((left : Stream.Left) × (Stream.on_data
          (length (empty_stream.buffer ++ half) + 1)
          half
          empty_stream
        ≡ some left))
    ⊎ (IsWrapping half × ((n : ℕ) → Stream.on_data n half empty_stream ≡ none))
on_data-ends_or_spins_example = on_data-ends_or_spins half empty_stream

-- `8=FIX9=18446744073709551582` and a separator: the length of the message wraps around to 0.
abbrev endless : StreamParser
endless = record empty_stream {
  buffer =
      56 ∷ 61 ∷ 70 ∷ 73 ∷ 88 ∷ 57 ∷ 61 ∷ 49 ∷ 56 ∷ 52 ∷ 52 ∷ 54 ∷ 55 ∷ 52 ∷ 52 ∷ 48 ∷ 55 ∷ 51 ∷ 55
      ∷ 48 ∷ 57 ∷ 53 ∷ 53 ∷ 49 ∷ 53 ∷ 56 ∷ 50 ∷ 1 ∷ [];
}

process_round-endless : Stream.process_round endless ≡ Stream.repeats endless
unfolding Stream.process_round Stream.search Stream.starts_with Stream.at_begin Stream.parse_length
    Stream.after_length Stream.take_message Stream.validate_checksum Parser.is_digit index_of
process_round-endless = refl
