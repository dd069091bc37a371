-- ===== src/Connection/Stream.antt =====
-- muduo/src/Connection.cpp: what `send` takes reaches the kernel once and in order.
use fast_server.Prelude.{
  ℕ, zero, suc, ◌+◌, ◌-◌, ◌≤◌, ◌<◌, ◌≡◌, refl, sym, ap, ◌∙◌, List, [], ◌++◌, some, arith, length,
  take, drop, min, take-append-drop, append_assoc, inl, inr, Bool-cases, ltb, ◌==◌, ◌⊎◌, take-take,
  ap₂, length-take, length-drop, ltb→lt,
}
use fast_server.Buffer.{SimpleBuffer, size, no_data, content, data_from, advance}
use fast_server.Buffer.Content.{IsValid, advance_lem, length-content}
use fast_server.Connection.{
  WriteResult, wrote, would_block, errored, Connection, chunk_size, write_chunks,
  send_buffered_data,
}

-- The first bytes from `data()` are those of the content.
data_from-take :
    (b : SimpleBuffer) (n m : ℕ) → n ≤ m → m ≤ size b → take n (data_from b m) ≡ take n (content b)
data_from-take b n m h k =
    take-take n m (drop b.read_pos b.buffer) h
    ∙ sym (take-take n (size b) (drop b.read_pos b.buffer) (omega arith))

-- What is left to send after some bytes were taken.
left_after : (b : SimpleBuffer) (n : ℕ) → IsValid b → n ≤ size b → size (advance n b) ≡ size b - n
left_after b n v h =
    let (v', c') = advance_lem n b v h in
    omega (arith, length-content v, length-content v', ap length c', length-drop n (content b))

WriteResult-cases :
    (r : WriteResult) → ((r ≡ would_block) ⊎ (r ≡ errored)) ⊎ ((n : ℕ) × (r ≡ wrote n))
WriteResult-cases (wrote n) = inr (n, refl)
WriteResult-cases would_block = inl (inl refl)
WriteResult-cases errored = inl (inr refl)

module _ (kernel_write : ℕ → List ℕ → WriteResult) where
  -- `write` takes at most the bytes it is given.
  abbrev pub TakesNoMore : Type 0
  TakesNoMore = (k n : ℕ) (bytes : List ℕ) → kernel_write k bytes ≡ wrote n → n ≤ length bytes

  pub write_chunks_lem :
      (fuel k : ℕ) (b : SimpleBuffer)
      → TakesNoMore
      → IsValid b
      → 0 < size b
      → size b ≤ fuel
      → (out : List ℕ) × (b' : SimpleBuffer) × (write_chunks kernel_write fuel k b ≡ some (out, b'))
        × IsValid b'
        × (out ++ content b' ≡ content b)
  unfolding write_chunks
  write_chunks_lem zero k b t v pos h = absurd (omega arith)
  write_chunks_lem (suc fuel) k b t v pos h =
      let m = min (size b) chunk_size in
      let chunk = data_from b m in
      elim (WriteResult-cases (kernel_write k chunk)) [
        | inl stop ↦ (elim stop [
          | inl e ↦ rw (e, write_chunks) ([], b, refl, v, refl)
          | inr e ↦ rw (e, write_chunks) ([], b, refl, v, refl)
        ])
        | inr (n, e) ↦
            let le : n ≤ m =
              omega (arith, t k n chunk e, length-take m (drop b.read_pos b.buffer)) in
            let (v', c') = advance_lem n b v (omega arith) in
            let whole : take n chunk ++ content (advance n b) ≡ content b =
              ap₂ ◌++◌ (data_from-take b n m le (omega arith)) c'
              ∙ take-append-drop n (content b) in
            (elim (Bool-cases (n == 0)) [
              | inl z ↦ rw (e, z, write_chunks) ([], b, refl, v, refl)
              | inr z ↦ (elim (Bool-cases (ltb 0 (size (advance n b)))) [
                | inr f ↦ rw (e, z, f, write_chunks) (take n chunk, advance n b, refl, v', whole)
                | inl f ↦
                    let (out, b', ran, v'', c'') =
                      write_chunks_lem fuel (k + 1) (advance n b) t v' (ltb→lt 0 _ f)
                        (ground (arith, z, left_after b n v (omega arith))) in
                    rw (e, z, f, ran, write_chunks)
                      (
                        take n chunk ++ out,
                        b',
                        refl,
                        v'',
                        append_assoc (take n chunk) out (content b')
                            ∙ ap (λ t. take n chunk ++ t) c''
                            ∙ whole,
                      )
              ])
            ])
      ]

  -- `sendBufferedData` ends, and what it hands to the kernel and what stays in the buffer are
  -- together the bytes that were in the buffer, in order. Where `write` takes no more than it is
  -- given, and whatever it answers otherwise.
  pub send_buffered_data_lem :
      (k : ℕ) (c : Connection)
      → TakesNoMore
      → IsValid c.send_buffer
      → (out : List ℕ) × (c' : Connection) × (send_buffered_data kernel_write k c ≡ some (out, c'))
        × IsValid c'.send_buffer
        × (out ++ content c'.send_buffer ≡ content c.send_buffer)
        × (c'.try_close ≡ c.try_close)
  unfolding send_buffered_data
  send_buffered_data_lem k c t v = elim (Bool-cases (no_data c.send_buffer)) [
    | inl e ↦ rw e ([], c, refl, v, refl, refl)
    | inr e ↦
        let (out, b, ran, v', c') =
          write_chunks_lem (size c.send_buffer) k c.send_buffer t v
            (ground (arith, e, v.ordered, v.inside, v.small)) (omega arith) in
        rw (e, ran) (out, record c { send_buffer = b }, refl, v', c', refl)
  ]
