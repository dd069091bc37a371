-- ===== src/Codec.antt =====
-- The byte layout that muduo/protocol.hpp and muduo/example/main.cpp share: a type byte, a 32-bit
-- length in little-endian order (the `memcpy` of a `uint32_t` on the targets of the build), and a
-- body whose bytes are shifted by 0x4A at even and 0x51 at odd positions.
pub mod Layout
pub mod Protocol
pub mod RoundTrip
pub mod Overread
mod Tests
use fast_server.Prelude.{
  ℕ, ◌+◌, ◌-◌, ◌*◌, ◌/◌, ◌%◌, ◌^◌, List, [], ◌∷◌, ◌==◌, if◌then◌else◌, get_or,
}

-- `uint32_t` addition
abbrev pub add_32 : ℕ → ℕ → ℕ
add_32 a b = (a + b) % 2 ^ 32

-- `i % 2 ? 0x51 : 0x4A`
unfoldable pub offset : ℕ → ℕ
offset i = if i % 2 == 0 then 0x4A else 0x51

-- `data[i] + offset` and `byte - offset`, as bytes.
unfoldable pub shift : ℕ → ℕ → ℕ
shift i d = (d + offset i) % 256

unfoldable pub unshift : ℕ → ℕ → ℕ
unshift i d = (d + 256 - offset i) % 256

-- The four bytes of a `uint32_t`.
abbrev pub le_bytes : ℕ → List ℕ
le_bytes n = n % 256 ∷ n / 256 % 256 ∷ n / 65536 % 256 ∷ n / 16777216 % 256 ∷ []

-- The `uint32_t` at the bytes from index `i` on.
abbrev pub le_value : List ℕ → ℕ → ℕ
le_value xs i =
    get_or xs i 0
    + get_or xs (i + 1) 0 * 256
    + get_or xs (i + 2) 0 * 65536
    + get_or xs (i + 3) 0 * 16777216
