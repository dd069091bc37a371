-- ===== src/Buffer.antt =====
-- muduo/include/SimpleBuffer.hpp: the byte buffer of a connection, a `new char[]` block with a
-- read and a write position. Positions are `size_t`, so sums and differences wrap at 2 ^ 64.
-- A byte is a number; the bytes that `new` leaves unset are 0 here, and none is ever read as data.
pub mod Content
pub mod Stream
mod Tests
use fast_server.Prelude.{
  ℕ, ◌/◌, max, Bool, List, leb, ltb, ◌==◌, if◌then◌else◌, length, replicate, blit, slice, add_size,
  sub_size, mul_size,
}

pub record SimpleBuffer : Type 0 where
  pub buffer : List ℕ
  pub buffer_size : ℕ
  pub read_pos : ℕ
  pub write_pos : ℕ

-- `SimpleBuffer(size_t initialCapacity = 4096)`
abbrev pub initial_capacity : ℕ
initial_capacity = 4096

unfoldable pub create : ℕ → SimpleBuffer
create capacity = record {
  buffer = replicate capacity 0;
  buffer_size = capacity;
  read_pos = 0;
  write_pos = 0;
}

abbrev pub size : SimpleBuffer → ℕ
size b = sub_size b.write_pos b.read_pos

abbrev pub no_data : SimpleBuffer → Bool
no_data b = b.write_pos == b.read_pos

-- The bytes from `data()` on, `size()` of them.
abbrev pub content : SimpleBuffer → List ℕ
content b = slice b.buffer b.read_pos (size b)

-- The bytes from `data()` to the end of the block, with no regard to `size()`.
abbrev pub data_from : SimpleBuffer → ℕ → List ℕ
data_from b n = slice b.buffer b.read_pos n

-- `memmove` of the data to the front of the block.
unfoldable pub compact : SimpleBuffer → SimpleBuffer
compact b =
    if ltb 0 b.read_pos
    then record b { buffer = blit b.buffer 0 (content b); read_pos = 0; write_pos = size b }
    else b

-- The new block of `ensureCapacity`.
unfoldable pub grow : ℕ → SimpleBuffer → SimpleBuffer
grow len b =
    let new_size = max (mul_size b.buffer_size 2) (add_size b.write_pos len) in
    record {
      buffer = blit (replicate new_size 0) 0 (content b);
      buffer_size = new_size;
      read_pos = 0;
      write_pos = size b;
    }

unfoldable pub ensure_capacity : ℕ → SimpleBuffer → SimpleBuffer
ensure_capacity len b =
    let available = sub_size b.buffer_size b.write_pos in
    if leb len available
    then b
    else if leb len (add_size b.read_pos available)
    then compact b
    else grow len b

-- `write(data, len)` with the `len` bytes as a list.
unfoldable pub write : List ℕ → SimpleBuffer → SimpleBuffer
write bytes b =
    let b' = ensure_capacity (length bytes) b in
    record b' {
      buffer = blit b'.buffer b'.write_pos bytes;
      write_pos = add_size b'.write_pos (length bytes);
    }

unfoldable pub advance : ℕ → SimpleBuffer → SimpleBuffer
advance len b =
    let b' = record b { read_pos = add_size b.read_pos len } in
    if no_data b'
    then record b' { read_pos = 0; write_pos = 0 }
    else if ltb (b'.buffer_size / 2) b'.read_pos
    then compact b'
    else b'
