-- ===== src/Connection/Talk.antt =====
-- muduo/src/Connection.cpp under any sequence of `send` and of the reactor's `sendBufferedData`.
use fast_server.Prelude.{
  ℕ, ◌+◌, ◌^◌, ◌<◌, ◌≡◌, refl, sym, ap, subst, if◌then◌else◌, ◌∙◌, false, List, [], ◌∷◌, ◌++◌,
  Option, none, some, length, append_assoc, append-nil,
}
use fast_server.Buffer.{content, write}
use fast_server.Buffer.Content.{IsValid, write_lem}
use fast_server.Connection.{WriteResult, Connection, send, send_buffered_data}
use fast_server.Connection.Stream.{TakesNoMore, send_buffered_data_lem}

pub data Call : Type 0 where
  say : List ℕ → Call
  flush : Call

abbrev pub said : List Call → List ℕ
said [] = []
said (say bytes ∷ cs) = bytes ++ said cs
said (flush ∷ cs) = said cs

-- `send` on an open connection.
send_open :
    (bytes : List ℕ) (c : Connection)
    → c.try_close ≡ false
    → send bytes c ≡ record c { send_buffer = write bytes c.send_buffer; queued = c.queued + 1 }
unfolding send
send_open bytes c o =
    ap
      (λ t.
        if t
        then c
        else record c { send_buffer = write bytes c.send_buffer; queued = c.queued + 1 })
      o

-- `kernel i` is the kernel in flush `i`.
module _ (kernel : ℕ → ℕ → List ℕ → WriteResult) where
  -- The calls in order: what the kernel took in all, and the connection.
  unfoldable pub run : ℕ → List Call → Connection → Option (List ℕ × Connection)
  run i [] c = some ([], c)
  run i (say bytes ∷ cs) c = run i cs (send bytes c)
  run i (flush ∷ cs) c = elim (send_buffered_data (kernel i) 0 c) [
    | none ↦ none
    | some (out, c') ↦ (elim (run (i + 1) cs c') [
      | none ↦ none
      | some (more, c'') ↦ some (out ++ more, c'')
    ])
  ]

  -- Each `send` keeps the write position and its length below 2 ^ 64.
  unfoldable pub AllFit : ℕ → List Call → Connection → Type 0
  AllFit i [] c = Unit
  AllFit i (say bytes ∷ cs) c =
      (c.send_buffer.write_pos + length bytes < 2 ^ 64) × AllFit i cs (send bytes c)
  AllFit i (flush ∷ cs) c = elim (send_buffered_data (kernel i) 0 c) [
    | none ↦ Unit
    | some (out, c') ↦ AllFit (i + 1) cs c'
  ]

  -- On an open connection with a valid buffer, where `write` takes no more than it is given and
  -- each `send` keeps the write position and its length below 2 ^ 64, any sequence of `send` and
  -- `sendBufferedData` ends, and what the kernel took followed by what is left in the buffer is
  -- what was in the buffer followed by all that was sent: nothing is lost, doubled or reordered,
  -- however little the kernel takes.
  pub run-said :
      (i : ℕ) (cs : List Call) (c : Connection)
      → ((j : ℕ) → TakesNoMore (kernel j))
      → IsValid c.send_buffer
      → c.try_close ≡ false
      → AllFit i cs c
      → (out : List ℕ) × (c' : Connection) × (run i cs c ≡ some (out, c'))
        × (out ++ content c'.send_buffer ≡ content c.send_buffer ++ said cs)
  unfolding run AllFit
  run-said i [] c t v o f = ([], c, refl, sym (append-nil (content c.send_buffer)))
  run-said i (say bytes ∷ cs) c t v o f =
      let e = send_open bytes c o in
      let (valid, joined) = write_lem bytes c.send_buffer v f.0 in
      let (out, c', ran, total) =
        run-said i cs (send bytes c) t (subst (λ x. IsValid x.send_buffer) (sym e) valid)
          (ap (λ x. x.try_close) e ∙ o) f.1 in
      (
        out,
        c',
        ran,
        total
            ∙ ap (λ xs. xs ++ said cs) (ap (λ x. content x.send_buffer) e ∙ joined)
            ∙ append_assoc (content c.send_buffer) bytes (said cs),
      )
  run-said i (flush ∷ cs) c t v o f =
      let (out, c', ran, v', stays, same) = send_buffered_data_lem (kernel i) 0 c (t i) v in
      let f' : AllFit (i + 1) cs c' =
        subst (λ r. elim r [ none ↦ Unit | some p ↦ AllFit (i + 1) cs p.1 ]) ran f in
      let (more, c'', ran', total) = run-said (i + 1) cs c' t v' (same ∙ o) f' in
      rw (run, ran, ran')
        (
          out ++ more,
          c'',
          refl,
          append_assoc out more (content c''.send_buffer)
              ∙ ap (λ xs. out ++ xs) total
              ∙ sym (append_assoc out (content c'.send_buffer) (said cs))
              ∙ ap (λ xs. xs ++ said cs) stays,
        )
