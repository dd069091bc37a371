-- ===== src/Cube/Stamp.antt =====
-- muduo/example/main.cpp: the time that `encodeHeaderWithTimeStamp` writes, `decodeTimeStamp` reads.
use fast_server.Prelude.{ℕ, ◌/◌, ◌%◌, ◌^◌, ◌<◌, ◌≡◌, arith, drop}
use fast_server.Codec.Layout.{unshift-shift}
use fast_server.Cube.{header_with_timestamp, stamp_from, stamp_value, decode_time_stamp}

-- The time in a reply's header, behind its first five bytes, reads back, if it fits 64 bits.
decode_time_stamp-header :
    (total_len time : ℕ)
    → time < 2 ^ 64
    → decode_time_stamp (drop 5 (header_with_timestamp total_len time)) ≡ time
unfolding decode_time_stamp stamp_value stamp_from header_with_timestamp
decode_time_stamp-header total_len time h = omega (
  arith,
  unshift-shift 0 (time / 2 ^ 0 % 256) (omega arith),
  unshift-shift 1 (time / 2 ^ 8 % 256) (omega arith),
  unshift-shift 2 (time / 2 ^ 16 % 256) (omega arith),
  unshift-shift 3 (time / 2 ^ 24 % 256) (omega arith),
  unshift-shift 4 (time / 2 ^ 32 % 256) (omega arith),
  unshift-shift 5 (time / 2 ^ 40 % 256) (omega arith),
  unshift-shift 6 (time / 2 ^ 48 % 256) (omega arith),
  unshift-shift 7 (time / 2 ^ 56 % 256) (omega arith),
)
