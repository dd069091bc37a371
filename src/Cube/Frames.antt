-- ===== src/Cube/Frames.antt =====
-- muduo/example/main.cpp: `Coder::decode` on a buffer that starts with a whole frame, and on one
-- that does not.
use fast_server.Prelude.{
  ℕ, ◌+◌, ◌^◌, ◌≤◌, ◌<◌, ◌≡◌, ◌≢◌, ◌⊎◌, ap, ◌∙◌, true, false, List, ◌∷◌, ◌++◌, some, arith, length,
  drop, get_or, length-append,
}
use fast_server.Buffer.{SimpleBuffer, size, content, advance}
use fast_server.Buffer.Content.{IsValid, length-content, advance_lem}
use fast_server.Codec.{le_bytes, le_value}
use fast_server.Codec.Layout.{le_value-le_bytes}
use fast_server.Cube.{header_len, decode}

-- A request: type 2, the length of the whole frame, and the body.
abbrev pub request : List ℕ → List ℕ
request body = 2 ∷ le_bytes (5 + length body) ++ body

-- A body holds a time stamp and keeps the length a positive `int`.
abbrev pub IsBody : List ℕ → Type 0
IsBody body = (8 ≤ length body) × (5 + length body < 2 ^ 31)

-- No whole frame that the decoder accepts stands at the front.
abbrev pub IsIncomplete : List ℕ → Type 0
IsIncomplete xs =
    (length xs < 5) ⊎ (get_or xs 0 0 ≢ 2) ⊎ (2 ^ 31 ≤ le_value xs 1) ⊎ (length xs < le_value xs 1)

pub in_block :
    {b : SimpleBuffer}
    → IsValid b
    → (n : ℕ) → n ≤ length (content b)
    → b.read_pos + n ≤ b.buffer_size
in_block v n h = omega (arith, length-content v)

-- On a valid buffer that starts with a request, whose body has eight bytes at least and whose
-- length is a positive `int`, `decode` accepts it: the length of its body, and the buffer
-- without the header.
pub decode-request :
    (body rest : List ℕ) (b : SimpleBuffer)
    → IsValid b
    → IsBody body
    → content b ≡ request body ++ rest
    → decode b
      ≡ some (record { body_len = length body; valid = true; buffer = advance header_len b })
unfolding decode
decode-request body rest b v (long, short) e = ground (
  arith,
  length-content v,
  ap length e,
  length-append body rest,
  ap (λ xs. get_or xs 0 0) e,
  ap (λ xs. le_value xs 1) e,
  le_value-le_bytes 2 (5 + length body) (omega arith),
  in_block v' 8 (omega (arith, ap length rest_content, length-append body rest)),
)
  where
    fits : 5 ≤ size b
    fits = omega (arith, length-content v, ap length e)

    v' : IsValid (advance 5 b)
    v' = (advance_lem 5 b v fits).0

    rest_content : content (advance 5 b) ≡ body ++ rest
    rest_content = (advance_lem 5 b v fits).1 ∙ ap (drop 5) e

-- On a buffer with no whole request at the front `decode` refuses, and leaves the buffer alone.
pub decode-incomplete :
    (b : SimpleBuffer)
    → IsValid b
    → IsIncomplete (content b)
    → decode b ≡ some (record { body_len = 0; valid = false; buffer = b })
unfolding decode
decode-incomplete b v h = ground (arith, length-content v)
