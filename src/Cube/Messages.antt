-- ===== src/Cube/Messages.antt =====
-- muduo/example/main.cpp: `CubeServer::onMessage` on a stream of requests.
use fast_server.Prelude.{
  ℕ, zero, suc, ◌+◌, ◌^◌, ◌≤◌, ◌<◌, ◌≡◌, sym, subst, ap, ◌∙◌, true, List, [], ◌∷◌, ◌++◌, some,
  append_assoc, arith, length, take, drop, take-take, take-length, drop-length, length-append, All,
  leb,
}
use fast_server.Buffer.{SimpleBuffer, size, content, data_from, write, advance}
use fast_server.Buffer.Content.{IsValid, length-content, write_lem, advance_lem}
use fast_server.Cube.{
  decode, header_with_timestamp, to_size, refused, done, sent_before, serve, on_message,
}
use fast_server.Cube.Frames.{
  request, IsBody, IsIncomplete, in_block, decode-request, decode-incomplete,
}

abbrev pub stream : List (List ℕ) → List ℕ
stream [] = []
stream (m ∷ ms) = request m ++ stream ms

length-stream : (ms : List (List ℕ)) → length ms ≤ length (stream ms)
length-stream [] = omega arith
length-stream (m ∷ ms) = omega (arith, length-stream ms, length-append m (stream ms))

to_size_small : (n : ℕ) → n < 2 ^ 31 → to_size n ≡ n
to_size_small n h = ground arith

le→leb : (a b : ℕ) → a ≤ b → leb a b ≡ true
le→leb a b h = ground arith

-- The first bytes from `data()` are the first bytes of the content.
data_from-content :
    (b : SimpleBuffer) (m rest : List ℕ)
    → IsValid b
    → content b ≡ m ++ rest
    → data_from b (length m) ≡ m
data_from-content b m rest v e =
    sym (take-take (length m) (size b) (drop b.read_pos b.buffer) short)
    ∙ ap (take (length m)) e
    ∙ take-length m rest
  where
    short : length m ≤ size b
    short = omega (arith, length-content v, ap length e, length-append m rest)

module _ (now : ℕ → ℕ) where
  -- The answer to each request: a header with the length of the body and the time, then the body.
  abbrev pub replies : ℕ → List (List ℕ) → List (List ℕ)
  replies k [] = []
  replies k (m ∷ ms) = header_with_timestamp (length m) (now k) ∷ m ∷ replies (k + 1) ms

  serve-accepted :
      (fuel k n : ℕ) (b c : SimpleBuffer)
      → decode b ≡ some (record { body_len = n; valid = true; buffer = c })
      → n < 2 ^ 31
      → c.read_pos + n ≤ c.buffer_size
      → serve now (suc fuel) k b
        ≡ sent_before
            (header_with_timestamp n (now k))
            (data_from c n)
            (serve now fuel (k + 1) (advance n c))
  unfolding serve
  serve-accepted fuel k n b c e small room =
      rw (e, serve, to_size_small n small, le→leb (c.read_pos + n) c.buffer_size room)
        (ap
          (λ t.
            sent_before (header_with_timestamp n (now k)) (data_from c t)
              (serve now fuel (k + 1) (advance t c)))
          (to_size_small n small))

  serve-refused :
      (fuel k : ℕ) (b : SimpleBuffer)
      → decode b ≡ some (refused b)
      → serve now (suc fuel) k b ≡ done [] b
  unfolding serve
  serve-refused fuel k b e = rw (e, serve)

  -- The loop, started with enough fuel on whole requests and a rest that is none, answers each
  -- request in order and leaves the rest in the buffer.
  pub serve-stream :
      (ms : List (List ℕ)) (tail : List ℕ) (fuel k : ℕ) (b : SimpleBuffer)
      → IsValid b
      → All IsBody ms
      → IsIncomplete tail
      → content b ≡ stream ms ++ tail
      → length ms < fuel
      → (b' : SimpleBuffer) × (serve now fuel k b ≡ done (replies k ms) b')
        × IsValid b'
        × (content b' ≡ tail)
  unfolding sent_before
  serve-stream ms tail zero k b v bodies inc e f = absurd (omega arith)
  serve-stream [] tail (suc fuel) k b v bodies inc e f =
      (b, serve-refused fuel k b (decode-incomplete b v (subst IsIncomplete (sym e) inc)), v, e)
  serve-stream (m ∷ ms) tail (suc fuel) k b v (body, bodies) inc e f =
      let (b', ran, v', left) =
        serve-stream ms tail fuel (k + 1) (advance (length m) c) vd bodies inc content_d
          (omega arith) in
      (
        b',
        serve-accepted fuel k (length m) b c (decode-request m rest b v body front) (omega arith)
              (in_block vc (length m) (omega (arith, ap length content_c, length-append m rest)))
            ∙ ap (sent_before _ (data_from c (length m))) ran
            ∙ ap
                (λ xs. done (header_with_timestamp (length m) (now k) ∷ xs ∷ replies (k + 1) ms) b')
                (data_from-content c m rest vc content_c),
        v',
        left,
      )
    where
      rest : List ℕ
      rest = stream ms ++ tail

      front : content b ≡ request m ++ rest
      front = e ∙ append_assoc (request m) (stream ms) tail

      fits : 5 ≤ size b
      fits = omega (arith, length-content v, ap length front)

      c : SimpleBuffer
      c = advance 5 b

      vc : IsValid c
      vc = (advance_lem 5 b v fits).0

      content_c : content c ≡ m ++ rest
      content_c = (advance_lem 5 b v fits).1 ∙ ap (drop 5) front

      covered : length m ≤ size c
      covered = omega (arith, length-content vc, ap length content_c, length-append m rest)

      vd : IsValid (advance (length m) c)
      vd = (advance_lem (length m) c vc covered).0

      content_d : content (advance (length m) c) ≡ rest
      content_d =
          (advance_lem (length m) c vc covered).1
          ∙ ap (drop (length m)) content_c
          ∙ drop-length m rest

  -- On a valid buffer whose write position and the new bytes stay below 2 ^ 64, `onMessage`
  -- answers every request that the bytes complete, once and in order, and keeps the bytes behind
  -- the last of them for the next call: what was in the buffer and the new bytes together are
  -- whole requests, each with a body of eight bytes at least, and a rest that is none.
  pub on_message-stream :
      (ms : List (List ℕ)) (tail bytes : List ℕ) (b : SimpleBuffer)
      → IsValid b
      → b.write_pos + length bytes < 2 ^ 64
      → All IsBody ms
      → IsIncomplete tail
      → content b ++ bytes ≡ stream ms ++ tail
      → (b' : SimpleBuffer) × (on_message now bytes b ≡ done (replies 0 ms) b')
        × IsValid b'
        × (content b' ≡ tail)
  unfolding on_message
  on_message-stream ms tail bytes b v fits bodies inc e =
      serve-stream ms tail (size (write bytes b) + 1) 0 (write bytes b) w bodies inc whole (
        omega (
          arith,
          length-content w,
          ap length whole,
          length-append (stream ms) tail,
          length-stream ms,
        ))
    where
      w : IsValid (write bytes b)
      w = (write_lem bytes b v fits).0

      whole : content (write bytes b) ≡ stream ms ++ tail
      whole = (write_lem bytes b v fits).1 ∙ e
