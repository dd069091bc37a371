-- ===== src/Codec/RoundTrip.antt =====
-- muduo/protocol.hpp: what `encoder` writes, and that `decoder` reads it back.
use fast_server.Prelude.{
  ℕ, zero, suc, ◌+◌, ◌%◌, ◌^◌, ◌≤◌, ◌<◌, ◌≡◌, refl, sym, ap, ap₂, ◌∙◌, true, false, List, [], ◌∷◌,
  ◌++◌, Option, some, arith, length, drop, All, set, blit, length-set, length-blit, length-append,
  blit-set, blit-append, blit_front, blit_nil, get_elem?_of_drop, drop-suc, get_elem?, get_or, ltb,
}
use fast_server.Codec.{add_32, shift, unshift, le_bytes, le_value}
use fast_server.Codec.Layout.{
  IsByte, shift_from, unshift_from, unshift_from-shift_from, length-shift_from, le_value-le_bytes,
}
use fast_server.Codec.Protocol.{write_body, encoder, Targets, read_body, decoder}

ltb_le : (a b : ℕ) → b ≤ a → ltb a b ≡ false
ltb_le a b h = ground arith

-- The frame of a message: the type, the length of the body, the shifted body.
abbrev pub frame : ℕ → List ℕ → List ℕ
frame type bytes = type ∷ le_bytes (length bytes) ++ shift_from 0 bytes

at_index : (i : ℕ) → 5 + i < 2 ^ 32 → add_32 5 i ≡ 5 + i
at_index i h = omega arith

write_body-cons :
    (i d : ℕ) (ds output : List ℕ)
    → 5 + i < length output
    → 5 + i < 2 ^ 32
    → write_body i (d ∷ ds) output ≡ write_body (i + 1) ds (set output (5 + i) (shift i d))
unfolding write_body
write_body-cons i d ds output h s = ground (arith, at_index i s)

read_body-suc :
    (input out : List ℕ) (i n x : ℕ)
    → get_elem? input (5 + i) ≡ some x
    → i < length out
    → 5 + i < 2 ^ 32
    → read_body input i (suc n) out ≡ read_body input (i + 1) n (set out i (unshift i x))
unfolding read_body
read_body-suc input out i n x e h s = ground (arith, at_index i s)

write_body_lem :
    (i : ℕ) (ds output : List ℕ)
    → 5 + i + length ds ≤ length output
    → 5 + i + length ds < 2 ^ 32
    → write_body i ds output ≡ some (blit output (5 + i) (shift_from i ds))
unfolding write_body shift_from
write_body_lem i [] output h s = ap some (sym (blit_nil output (5 + i)))
write_body_lem i (d ∷ ds) output h s =
    write_body-cons i d ds output (omega arith) (omega arith)
    ∙ write_body_lem (i + 1) ds (set output (5 + i) (shift i d))
        (omega (arith, length-set output (5 + i) (shift i d))) (omega arith)
    ∙ ap some (
        blit-set output (shift_from (i + 1) ds) (5 + i) (5 + (i + 1)) (shift i d) (omega arith)
          (omega arith))

-- `encoder` fills a block that is large enough with the frame of its message, leaves the rest of
-- the block as it was, and returns the length of the frame, where that is below 2 ^ 32.
encoder_lem :
    (type : ℕ) (bytes output : List ℕ) (out_size : ℕ)
    → type < 256
    → out_size ≤ length output
    → 5 + length bytes ≤ out_size
    → 5 + length bytes < 2 ^ 32
    → encoder type bytes true output out_size
      ≡ some (5 + length bytes, frame type bytes ++ drop (5 + length bytes) output)
unfolding encoder
encoder_lem type bytes output out_size t o fits s = ground (
  arith,
  write_body_lem 0 bytes (blit (set output 0 (type % 256)) 1 (le_bytes len)) long (omega arith),
  blocks,
  ap (λ n. frame type bytes ++ drop n output) framed,
)
  where
    len : ℕ
    len = length bytes

    header : blit (set output 0 (type % 256)) 1 (le_bytes len) ≡ blit output 0 (type ∷ le_bytes len)
    header =
        ap (λ t. blit (set output 0 t) 1 (le_bytes len)) (omega arith)
        ∙ blit-set output (le_bytes len) 0 1 type (omega arith) (omega arith)

    long : 5 + 0 + len ≤ length (blit (set output 0 (type % 256)) 1 (le_bytes len))
    long = omega (
      arith,
      length-blit (set output 0 (type % 256)) 1 (le_bytes len),
      length-set output 0 (type % 256),
    )

    framed : length (frame type bytes) ≡ 5 + len
    framed = omega (arith, length-shift_from 0 bytes)

    blocks :
        blit (blit (set output 0 (type % 256)) 1 (le_bytes len)) (5 + 0) (shift_from 0 bytes)
        ≡ frame type bytes ++ drop (length (frame type bytes)) output
    blocks =
        ap (λ xs. blit xs 5 (shift_from 0 bytes)) header
        ∙ blit-append output (type ∷ le_bytes len) (shift_from 0 bytes) 0 5 refl (omega arith)
        ∙ blit_front output (frame type bytes) (omega (arith, framed))

read_body_lem :
    (ss rest input out : List ℕ) (i n : ℕ)
    → n ≡ length ss
    → drop (5 + i) input ≡ ss ++ rest
    → i + n ≤ length out
    → 5 + i + n < 2 ^ 32
    → read_body input i n out ≡ some (blit out i (unshift_from i ss))
unfolding read_body unshift_from
read_body_lem [] rest input out i zero e f h s = ap some (sym (blit_nil out i))
read_body_lem [] rest input out i (suc n) e f h s = absurd (omega arith)
read_body_lem (x ∷ ss) rest input out i zero e f h s = absurd (omega arith)
read_body_lem (x ∷ ss) rest input out i (suc n) e f h s =
    read_body-suc input out i n x (get_elem?_of_drop input (ss ++ rest) (5 + i) x f) (omega arith)
      (omega arith)
    ∙ read_body_lem ss rest input (set out i (unshift i x)) (i + 1) n (omega arith)
        (drop-suc input (ss ++ rest) (5 + i) (5 + (i + 1)) x (omega arith) f)
        (omega (arith, length-set out i (unshift i x))) (omega arith)
    ∙ ap some
        (blit-set out (unshift_from (i + 1) ss) i (i + 1) (unshift i x) (omega arith) (omega arith))

decoder_at :
    (type n : ℕ) (input out : List ℕ) (t : Targets)
    → get_or input 0 0 ≡ type
    → le_value input 1 ≡ n
    → 5 + n ≤ length input
    → 5 + n < 2 ^ 32
    → read_body input 0 n t.out_data ≡ some out
    → decoder input true t ≡ some (record { out_type = type; out_data = out; out_len = n })
unfolding decoder
decoder_at type n input out t ty le h s e =
    rw (ltb_le (length input) 5 (omega arith), le, total, ltb_le (length input) (5 + n) h, e)
      (ap₂ (λ k m. some (record { out_type = k; out_data = out; out_len = m })) ty le)
  where
    total : add_32 5 n ≡ 5 + n
    total = omega arith

-- `decoder` reads a frame back, also where more bytes follow it: the type, the length and, at the
-- front of the data block, the body. The data block must have room for the body.
pub decoder-frame :
    (type : ℕ) (bytes rest : List ℕ) (t : Targets)
    → All IsByte bytes
    → length bytes ≤ length t.out_data
    → 5 + length bytes < 2 ^ 32
    → decoder (frame type bytes ++ rest) true t
      ≡ some (record {
        out_type = type;
        out_data = bytes ++ drop (length bytes) t.out_data;
        out_len = length bytes;
      })
unfolding decoder
decoder-frame type bytes rest t b room s =
    decoder_at type (length bytes) (frame type bytes ++ rest) _ t refl
      (le_value-le_bytes type (length bytes) (omega arith))
      (omega (arith, length-append (shift_from 0 bytes) rest, length-shift_from 0 bytes)) s
      (read_body_lem (shift_from 0 bytes) rest (frame type bytes ++ rest) t.out_data 0
          (length bytes) (sym (length-shift_from 0 bytes)) refl (omega arith) (omega arith)
        ∙ ap (λ xs. some (blit t.out_data 0 xs)) (unshift_from-shift_from 0 bytes b)
        ∙ ap some (blit_front t.out_data bytes room))

some_pair :
    {a c : ℕ} {b d : List ℕ}
    → ◌≡◌ {A = Option (ℕ × List ℕ)} (some (a, b)) (some (c, d))
    → (a ≡ c) × (b ≡ d)
some_pair e = (cc, cc)

-- What `encoder` writes of a type and a body of bytes into a block that is large enough,
-- `decoder` reads back, where the length of the frame is below 2 ^ 32 and the data block has
-- room for the body.
pub decoder-encoder :
    (type : ℕ) (bytes output : List ℕ) (out_size : ℕ) (t : Targets) {len : ℕ} {output' : List ℕ}
    → type < 256
    → All IsByte bytes
    → out_size ≤ length output
    → 5 + length bytes ≤ out_size
    → 5 + length bytes < 2 ^ 32
    → length bytes ≤ length t.out_data
    → encoder type bytes true output out_size ≡ some (len, output')
    → (len ≡ 5 + length bytes)
      × (decoder output' true t
          ≡ some (record {
            out_type = type;
            out_data = bytes ++ drop (length bytes) t.out_data;
            out_len = length bytes;
          }))
decoder-encoder type bytes output out_size t {len} {output'} ty b o fits s room e =
    let (same_len, same_block) =
      some_pair (sym e ∙ encoder_lem type bytes output out_size ty o fits s) in
    (
      same_len,
      ap (λ xs. decoder xs true t) same_block
          ∙ decoder-frame type bytes (drop (5 + length bytes) output) t b room s,
    )
