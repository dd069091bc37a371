-- ===== src/Codec/Layout.antt =====
-- Facts on the byte layout of muduo/protocol.hpp: the shift of a body and the length field.
use fast_server.Prelude.{
  ℕ, suc, ◌+◌, ◌^◌, ◌<◌, ◌≡◌, refl, ap, ap₂, List, [], ◌∷◌, arith, length, All,
}
use fast_server.Codec.{offset, shift, unshift, le_bytes, le_value}

abbrev pub IsByte : ℕ → Type 0
IsByte b = b < 256

-- A body shifted from position `i` on, and shifted back.
unfoldable pub shift_from : ℕ → List ℕ → List ℕ
shift_from i [] = []
shift_from i (d ∷ ds) = shift i d ∷ shift_from (i + 1) ds

unfoldable pub unshift_from : ℕ → List ℕ → List ℕ
unshift_from i [] = []
unshift_from i (d ∷ ds) = unshift i d ∷ unshift_from (i + 1) ds

pub offset-lt : (i : ℕ) → offset i < 256
unfolding offset
offset-lt i = ground arith

pub unshift-shift : (i d : ℕ) → d < 256 → unshift i (shift i d) ≡ d
unfolding shift unshift
unshift-shift i d h = omega (arith, offset-lt i)

pub unshift_from-shift_from :
    (i : ℕ) (ds : List ℕ) → All IsByte ds → unshift_from i (shift_from i ds) ≡ ds
unfolding shift_from unshift_from
unshift_from-shift_from i [] h = refl
unshift_from-shift_from i (d ∷ ds) h =
    ap₂ ◌∷◌ (unshift-shift i d h.0) (unshift_from-shift_from (i + 1) ds h.1)

pub length-shift_from : (i : ℕ) (ds : List ℕ) → length (shift_from i ds) ≡ length ds
unfolding shift_from
length-shift_from i [] = refl
length-shift_from i (d ∷ ds) = ap suc (length-shift_from (i + 1) ds)

-- The length field reads back.
pub le_value-le_bytes : (t n : ℕ) → n < 2 ^ 32 → le_value (t ∷ le_bytes n) 1 ≡ n
le_value-le_bytes t n h = omega arith
