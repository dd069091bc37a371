-- ===== src/Session/Numbers.antt =====
-- ihs/src/fix42.cpp: the numbers of the messages that a session sends.
use fast_server.Prelude.{
  ℕ, suc, ◌+◌, ◌^◌, ◌≤◌, ◌<◌, List, [], ◌∷◌, ◌++◌, ◌≡◌, inl, inr, sym, ◌∙◌, Bool-cases, arith,
  length, if◌then◌else◌, subst,
}
use fast_server.Fix.{decimal}
use fast_server.Parser.{pos}
use fast_server.Session.Wire.{Message, value_of}
use fast_server.Session.{Environment, FixSession, new_session}
use fast_server.Session.Receive.{Event, handle, run_session}
use fast_server.Session.Turns.{Turn, keeps, skips, sends, handle-Turn}

-- Numbers that rise from one message to the next, from `low` on and below `high`.
unfoldable pub IsNumbered : ℕ → ℕ → List (Message × List ℕ) → Type 0
IsNumbered low high [] = low ≤ high
IsNumbered low high (sent ∷ more) =
    (n : ℕ) × (value_of (pos 34) sent.0.fields ≡ decimal n)
    × (low ≤ n)
    × IsNumbered (suc n) high more

IsNumbered-mono :
    (low high top : ℕ) (sent : List (Message × List ℕ))
    → high ≤ top
    → IsNumbered low high sent
    → IsNumbered low top sent
unfolding IsNumbered
IsNumbered-mono low high top [] h k = omega arith
IsNumbered-mono low high top (m ∷ sent) h (n, e, l, k) =
    (n, e, l, IsNumbered-mono (suc n) high top sent h k)

IsNumbered-snoc :
    (low high : ℕ) (sent : List (Message × List ℕ)) (m : Message × List ℕ)
    → IsNumbered low high sent
    → value_of (pos 34) m.0.fields ≡ decimal high
    → IsNumbered low (suc high) (sent ++ m ∷ [])
unfolding IsNumbered
IsNumbered-snoc low high [] m k e = (high, e, k, omega arith)
IsNumbered-snoc low high (x ∷ sent) m (n, d, l, k) e =
    (n, d, l, IsNumbered-snoc (suc n) high sent m k e)

module _ {Price : Type 0} where
  Turn-IsNumbered :
      (s t : FixSession Price)
      → Turn s t
      → s.sender_msg_seq_num + 1 < 2 ^ 32
      → IsNumbered 0 s.sender_msg_seq_num s.sent
      → IsNumbered 0 t.sender_msg_seq_num t.sent × (t.sender_msg_seq_num ≤ s.sender_msg_seq_num + 1)
  Turn-IsNumbered s t (keeps e f) h k = (
    subst (λ n. IsNumbered 0 n t.sent) (sym e)
        (subst (IsNumbered 0 s.sender_msg_seq_num) (sym f) k),
    omega arith,
  )
  Turn-IsNumbered s t (skips e f) h k =
      let next : t.sender_msg_seq_num ≡ suc s.sender_msg_seq_num = e ∙ omega arith in
      (
        subst (λ n. IsNumbered 0 n t.sent) (sym next)
            (subst (IsNumbered 0 (suc s.sender_msg_seq_num)) (sym f) (
              IsNumbered-mono 0 s.sender_msg_seq_num (suc s.sender_msg_seq_num) s.sent (omega arith)
                k)),
        omega arith,
      )
  Turn-IsNumbered s t (sends m g e f) h k =
      let next : t.sender_msg_seq_num ≡ suc s.sender_msg_seq_num = e ∙ omega arith in
      (
        subst (λ n. IsNumbered 0 n t.sent) (sym next)
            (subst (IsNumbered 0 (suc s.sender_msg_seq_num)) (sym f)
              (IsNumbered-snoc 0 s.sender_msg_seq_num s.sent m k g)),
        omega arith,
      )

module _ {Price : Type 0} (env : Environment Price) where
  run_from-IsNumbered :
      (events : List (Event Price)) (s : FixSession Price)
      → s.sender_msg_seq_num + length events < 2 ^ 32
      → IsNumbered 0 s.sender_msg_seq_num s.sent
      → IsNumbered 0 (run_session env events s).sender_msg_seq_num (run_session env events s).sent
  unfolding run_session
  run_from-IsNumbered [] s h k = k
  run_from-IsNumbered (event ∷ events) s h k = elim (Bool-cases s.terminated) [
    | inl e ↦
        subst
          (λ b.
            IsNumbered 0
              (run_session env events (if b then s else handle env event s)).sender_msg_seq_num
              (run_session env events (if b then s else handle env event s)).sent)
          (sym e) (run_from-IsNumbered events s (omega arith) k)
    | inr e ↦
        let step =
          Turn-IsNumbered s (handle env event s) (handle-Turn env event s) (omega arith) k in
        subst
          (λ b.
            IsNumbered 0
              (run_session env events (if b then s else handle env event s)).sender_msg_seq_num
              (run_session env events (if b then s else handle env event s)).sent)
          (sym e) (run_from-IsNumbered events (handle env event s) (omega (arith, step.1)) step.0)
  ]

  -- In any run of a new session, the calls being made by one thread, the messages that it sent have
  -- rising numbers, all below the one that comes next, as long as the calls, received bytes and steps
  -- of the other threads are too few for the numbers to reach 2 ^ 32.
  pub run_session-IsNumbered :
      (events : List (Event Price))
      → length events + 1 < 2 ^ 32
      → IsNumbered 0
          (run_session env events new_session).sender_msg_seq_num
          (run_session env events new_session).sent
  unfolding new_session IsNumbered
  run_session-IsNumbered events h =
      run_from-IsNumbered events new_session (omega (arith, h)) (omega arith)
