-- ===== src/Prelude/Words.antt =====
-- 64-bit `size_t` arithmetic and bytes, with the wrap-around written out.
use Prim.Native.Nat.{ℕ, ◌+◌, ◌-◌, ◌*◌, ◌/◌, ◌%◌, ◌^◌}
use mathlib.Core.Bool.{Bool}
use fast_server.Prelude.Tests.{ltb, if◌then◌else◌}

abbrev pub size_mod : ℕ
size_mod = 2 ^ 64

abbrev pub add_size : ℕ → ℕ → ℕ
add_size a b = (a + b) % 2 ^ 64

abbrev pub sub_size : ℕ → ℕ → ℕ
sub_size a b = (a + 2 ^ 64 - b) % 2 ^ 64

abbrev pub mul_size : ℕ → ℕ → ℕ
mul_size a b = (a * b) % 2 ^ 64

-- `int64_t` as the 64 bits of its two's complement: comparison, absolute value, and division by a
-- positive number, which rounds towards zero.
abbrev pub signed_key : ℕ → ℕ
signed_key a = add_size a (2 ^ 63)

abbrev pub lt_int : ℕ → ℕ → Bool
lt_int a b = ltb (signed_key a) (signed_key b)

abbrev pub min_int : ℕ → ℕ → ℕ
min_int a b = if lt_int b a then b else a

abbrev pub abs_int : ℕ → ℕ
abs_int a = if ltb a (2 ^ 63) then a else 2 ^ 64 - a

abbrev pub div_int : ℕ → ℕ → ℕ
div_int a n = if ltb a (2 ^ 63) then a / n else sub_size 0 ((2 ^ 64 - a) / n)
