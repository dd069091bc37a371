-- ===== src/Cube/Short.antt =====
-- muduo/example/main.cpp: a request whose length field is below the length of the header.
use fast_server.Prelude.{◌+◌, ◌-◌, true, some, ℕ, suc, ◌^◌, ◌≤◌, ◌<◌, ◌≡◌, arith, get_or}
use fast_server.Buffer.{SimpleBuffer, size, content, advance, compact}
use fast_server.Buffer.Content.{IsValid}
use fast_server.Codec.{le_value}
use fast_server.Cube.{Decoded, body_length, to_size, fault, decode, serve}

buffer_size-advance : (n : ℕ) (b : SimpleBuffer) → (advance n b).buffer_size ≡ b.buffer_size
unfolding advance compact
buffer_size-advance n b = ground arith

decode_short :
    (b : SimpleBuffer)
    → 5 ≤ size b
    → get_or (content b) 0 0 ≡ 2
    → le_value (content b) 1 < 5
    → (advance 5 b).read_pos + 8 ≤ (advance 5 b).buffer_size
    → decode b
      ≡ some (record {
        body_len = 2 ^ 32 - (5 - le_value (content b) 1);
        valid = true;
        buffer = advance 5 b;
      })
unfolding decode
decode_short b long type short room =
    let narrowed : body_length (le_value (content b) 1) ≡ 2 ^ 32 - (5 - le_value (content b) 1) =
      omega arith in
    ground (arith, long, type, short, room, narrowed)

-- On a valid buffer of less than 2 ^ 63 bytes that holds five bytes at least, the first of them 2, with a
-- length field below 5, where the eight bytes of the time stamp that `decode` reads behind the header
-- lie in the block: `decode` accepts the header with a body length of `len - 5` as an `int`, its
-- `size_t` is `2 ^ 64 - (5 - len)`, and `onMessage` with any fuel copies past the end of the block.
pub serve-short :
    (now : ℕ → ℕ) (fuel k : ℕ) (b : SimpleBuffer)
    → IsValid b
    → b.buffer_size < 2 ^ 63
    → 5 ≤ size b
    → get_or (content b) 0 0 ≡ 2
    → le_value (content b) 1 < 5
    → (advance 5 b).read_pos + 8 ≤ (advance 5 b).buffer_size
    → let len = le_value (content b) 1 in
      let accepted : Decoded = record {
        body_len = 2 ^ 32 - (5 - len);
        valid = true;
        buffer = advance 5 b;
      } in
      (decode b ≡ some accepted)
      × (to_size accepted.body_len ≡ 2 ^ 64 - (5 - len))
      × (serve now (suc fuel) k b ≡ fault)
unfolding serve decode
serve-short now fuel k b v small long type short room =
    let accepts = decode_short b long type short room in
    let wide : to_size (2 ^ 32 - (5 - le_value (content b) 1))
        ≡ 2 ^ 64 - (5 - le_value (content b) 1) =
      ground (arith, short) in
    (accepts, wide, ground (arith, accepts, wide, buffer_size-advance 5 b))
