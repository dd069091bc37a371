-- ===== src/Codec/Tests.antt =====
-- Runs of muduo/protocol.hpp, and the theorems at concrete messages.
use fast_server.Prelude.{
  ℕ, ◌+◌, ◌≡◌, refl, arith, List, [], ◌∷◌, ◌++◌, none, some, true, length, drop, replicate,
}
use fast_server.Codec.{offset, shift}
use fast_server.Codec.Protocol.{Targets, write_body, encoder, decoder}
use fast_server.Codec.RoundTrip.{decoder-encoder}
use fast_server.Codec.Overread.{decoder_overread}

abbrev word : List ℕ
word = 104 ∷ 105 ∷ []

abbrev block : List ℕ
block = replicate 8 0

abbrev sent : List ℕ
sent = 7 ∷ 2 ∷ 0 ∷ 0 ∷ 0 ∷ 178 ∷ 186 ∷ 0 ∷ []

abbrev targets : Targets
targets = record { out_type = 0; out_data = replicate 4 0; out_len = 0 }

encoder-word : encoder 7 word true block 8 ≡ some (7, sent)
unfolding encoder write_body shift offset
encoder-word = refl

decoder-encoder_example :
    (7 ≡ 5 + length word)
    × (decoder sent true targets
        ≡ some (record { out_type = 7; out_data = word ++ drop 2 targets.out_data; out_len = 2 }))
decoder-encoder_example =
    decoder-encoder 7 word block 8 targets (omega arith) (omega arith, (omega arith, tt))
      (omega arith) (omega arith) (omega arith) (omega arith) encoder-word

-- A frame of five bytes whose length field is 2 ^ 32 - 1.
abbrev huge : List ℕ
huge = 1 ∷ 255 ∷ 255 ∷ 255 ∷ 255 ∷ []

decoder_overread_example : decoder huge true targets ≡ none
decoder_overread_example =
    decoder_overread huge targets (omega arith) (omega arith) (omega arith) (omega arith)
