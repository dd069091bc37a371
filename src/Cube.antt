-- ===== src/Cube.antt =====
-- muduo/example/main.cpp: `encoder`, `Coder` and `CubeServer::onMessage`. The clock is an argument;
-- an `int` is its 32-bit pattern. A read outside the buffer's block ends a run as a fault.
pub mod Frames
pub mod Messages
pub mod Short
pub mod Stamp
mod Tests
use fast_server.Prelude.{
  ℕ, zero, suc, ◌+◌, ◌-◌, ◌*◌, ◌/◌, ◌%◌, ◌^◌, Bool, true, false, not, List, [], ◌∷◌, ◌++◌, Option,
  none, some, ltb, leb, ◌==◌, if◌then◌else◌, length, get_or,
}
use fast_server.Buffer.{SimpleBuffer, size, content, data_from, write, advance}
use fast_server.Codec.{shift, unshift, le_bytes, le_value}

abbrev pub header_len : ℕ
header_len = 5

-- `Coder::getMessageTypeLength` on the bytes from `data` on: the type and the `int` length.
abbrev pub get_message_type_length : List ℕ → ℕ × ℕ
get_message_type_length bytes = (get_or bytes 0 0, le_value bytes 1)

abbrev pub is_negative : ℕ → Bool
is_negative n = leb (2 ^ 31) n

-- `messageLen - kHeaderLen`, computed in `size_t` and narrowed to `int`.
abbrev pub body_length : ℕ → ℕ
body_length len = (len + 2 ^ 64 - header_len) % 2 ^ 64 % 2 ^ 32

-- The `int` as the `size_t` that `send` and `advance` take.
abbrev pub to_size : ℕ → ℕ
to_size n = if is_negative n then n + 2 ^ 64 - 2 ^ 32 else n

-- The result of `Coder::decode`, with the buffer as it leaves it.
pub record Decoded : Type 0 where
  pub body_len : ℕ
  pub valid : Bool
  pub buffer : SimpleBuffer

abbrev pub refused : SimpleBuffer → Decoded
refused b = record { body_len = 0; valid = false; buffer = b }

-- `decode`: `none` where the eight bytes of the time stamp lie outside the block.
unfoldable pub decode : SimpleBuffer → Option Decoded
decode b =
    let (type, len) = get_message_type_length (content b) in
    if ltb (size b) header_len
    then some (refused b)
    else if not (type == 2)
    then some (refused b)
    else if is_negative len
    then some (refused b)
    else if leb len (size b)
    then (let b' = advance header_len b in
        if ltb b'.buffer_size (b'.read_pos + 8)
        then none
        else some (record { body_len = body_length len; valid = true; buffer = b' }))
    else some (refused b)

-- The eight shifted bytes of a time from byte `i` on, `n` bytes left.
unfoldable pub stamp_from : ℕ → ℕ → ℕ → List ℕ
stamp_from zero i time = []
stamp_from (suc n) i time = shift i (time / 2 ^ (i * 8) % 256) ∷ stamp_from n (i + 1) time

-- `encodeHeaderWithTimeStamp`: the thirteen bytes of a reply's header.
unfoldable pub header_with_timestamp : ℕ → ℕ → List ℕ
header_with_timestamp total_len time = 3 ∷ le_bytes total_len ++ stamp_from 8 0 time

-- `decodeTimeStamp`: the bytes are disjoint fields of the word, so `|=` adds them.
unfoldable pub stamp_value : ℕ → ℕ → List ℕ → ℕ
stamp_value zero i bytes = 0
stamp_value (suc n) i bytes =
    unshift i (get_or bytes i 0) * 2 ^ (i * 8) + stamp_value n (i + 1) bytes

unfoldable pub decode_time_stamp : List ℕ → ℕ
decode_time_stamp bytes = stamp_value 8 0 bytes

-- How a run of the loop of `onMessage` ends: with the blocks sent and the buffer, with a read
-- outside the block, or without fuel.
pub data Outcome : Type 0 where
  done : List (List ℕ) → SimpleBuffer → Outcome
  fault : Outcome
  out_of_fuel : Outcome

unfoldable pub sent_before : List ℕ → List ℕ → Outcome → Outcome
sent_before header body (done sends b) = done (header ∷ body ∷ sends) b
sent_before header body fault = fault
sent_before header body out_of_fuel = out_of_fuel

module _ (now : ℕ → ℕ) where
  -- The loop of `onMessage`; round `k` reads the clock as `now k`. `send` copies its bytes from
  -- the block, and the fault is a copy that goes past the end of it.
  unfoldable pub serve : ℕ → ℕ → SimpleBuffer → Outcome
  serve zero k b = out_of_fuel
  serve (suc fuel) k b = elim (decode b) [
    | none ↦ fault
    | some d ↦ elim d.valid [
      | false ↦ done [] d.buffer
      | true ↦ elim (leb (d.buffer.read_pos + to_size d.body_len) d.buffer.buffer_size) [
        | false ↦ fault
        | true ↦
            sent_before (header_with_timestamp d.body_len (now k))
              (data_from d.buffer (to_size d.body_len))
              (serve fuel (k + 1) (advance (to_size d.body_len) d.buffer))
      ]
    ]
  ]

  -- `onMessage(conn, data, len)`. Each round of the loop takes a byte at least, so one round more
  -- than there are bytes is enough.
  unfoldable pub on_message : List ℕ → SimpleBuffer → Outcome
  on_message bytes b = let b' = write bytes b in serve (size b' + 1) 0 b'
