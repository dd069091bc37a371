-- ===== src/Session/Logons.antt =====
-- ihs/src/fix42.cpp: what a session sends, and that it never counts as logged on.
use fast_server.Prelude.{
  ℕ, Bool, false, List, [], ◌∷◌, ◌++◌, ◌≡◌, inl, inr, refl, sym, Bool-cases, All, arith,
  if◌then◌else◌, subst,
}
use fast_server.Parser.{ℤ, pos, same_int, find}
use fast_server.Session.Wire.{Message, below_tag, put_field, value_of, print_int, serialize}
use fast_server.Session.Codes
use fast_server.Session.{
  Environment, on_logon, FixSession, new_session, get_next_sender_msg_seq_num, base_fields,
  send_message, send_new, logon, logout, send_limit_order, cancel_order, send_heartbeat,
  set_on_execution_report_handler, set_on_cancel_reject_handler,
}
use fast_server.Session.Receive.{
  connect, stop_heartbeat_timer, lose_connection, disconnect, Event, connects, disconnects, logs_on,
  logs_out, orders, cancels, sets_execution_report_handler, sets_cancel_reject_handler, receives,
  loses, beats, handle, run_session,
}
use fast_server.Session.Silent.{receive_silent}

pub All-snoc {ℓ κ} :
    {A : Type ℓ} (P : A → Type κ) (xs : List A) (x : A) → All P xs → P x → All P (xs ++ x ∷ [])
All-snoc P [] x h p = (p, tt)
All-snoc P (y ∷ xs) x (q, h) p = (q, All-snoc P xs x h p)

abbrev IsLogon : Message × List ℕ → Type 0
IsLogon sent = value_of (pos 35) sent.0.fields ≡ Codes.message_type_to_string Codes.logon

module _ {Price : Type 0} where
  -- Neither logged on nor with a running timer; all that was sent is logons, and all that the
  -- program was told is that a logon failed.
  pub IsSilent : FixSession Price → Type 0
  IsSilent s =
      (s.is_logged_on ≡ false)
      × (s.heartbeat_running ≡ false)
      × All IsLogon s.sent
      × All (λ c. c ≡ on_logon false) s.calls

module _ {Price : Type 0} (env : Environment Price) where
  abbrev logon_message : ℕ → Message
  logon_message number = record {
    fields =
        put_field (pos 141) (89 ∷ [])
          (put_field (pos 108) (print_int env.heartbt_int) (base_fields env number Codes.logon));
    raw_data = [];
  }

  value_of-logon :
      (number : ℕ)
      → value_of (pos 35) (logon_message number).fields ≡ Codes.message_type_to_string Codes.logon
  unfolding value_of put_field base_fields find same_int below_tag Codes.message_type_to_string
  value_of-logon number = refl

  logon-IsSilent : (given : Bool) (s : FixSession Price) → IsSilent s → IsSilent (logon env given s)
  unfolding logon send_new send_message get_next_sender_msg_seq_num IsSilent
  logon-IsSilent given s (a, b, c, d) = elim (Bool-cases s.is_connected) [
    | inr e ↦ rw e (elim (Bool-cases given) [
      | inl g ↦ rw g (a, b, c, All-snoc (λ c. c ≡ on_logon false) s.calls (on_logon false) d refl)
      | inr g ↦ rw g (a, b, c, d)
    ])
    | inl e ↦ elim (Bool-cases (env.answers s.sender_msg_seq_num).sends) [
      | inl g ↦
          rw (e, g)
            (
              a,
              b,
              All-snoc IsLogon s.sent
                  (
                    logon_message s.sender_msg_seq_num,
                    serialize (logon_message s.sender_msg_seq_num),
                  )
                  c (value_of-logon s.sender_msg_seq_num),
              d,
            )
      | inr g ↦ rw (e, g) (a, b, c, d)
    ]
  ]

  handle-IsSilent :
      (event : Event Price) (s : FixSession Price) → IsSilent s → IsSilent (handle env event s)
  unfolding handle connect stop_heartbeat_timer lose_connection disconnect logout send_limit_order
      cancel_order send_heartbeat set_on_execution_report_handler set_on_cancel_reject_handler
      IsSilent
  handle-IsSilent (connects succeeds) s (a, b, c, d) = ground arith
  handle-IsSilent (disconnects recv_fails) s (a, b, c, d) = ground arith
  handle-IsSilent (logs_on given) s h = logon-IsSilent given s h
  handle-IsSilent (logs_out reason) s (a, b, c, d) = ground arith
  handle-IsSilent (orders symbol side price quantity time) s (a, b, c, d) = ground arith
  handle-IsSilent (cancels order_id symbol side price) s (a, b, c, d) = ground arith
  handle-IsSilent (sets_execution_report_handler given) s h = h
  handle-IsSilent (sets_cancel_reject_handler given) s h = h
  handle-IsSilent (receives bytes) s (a, b, c, d) =
      subst IsSilent (sym (receive_silent env bytes s)) (a, b, c, d)
  handle-IsSilent loses s (a, b, c, d) = ground arith
  handle-IsSilent beats s (a, b, c, d) = rw b (a, refl, c, d)

  new_session-IsSilent : IsSilent (new_session {Price = Price})
  unfolding IsSilent new_session
  new_session-IsSilent = (refl, refl, tt, tt)

  keeps_IsSilent :
      (events : List (Event Price)) (s : FixSession Price)
      → IsSilent s
      → IsSilent (run_session env events s)
  unfolding run_session
  keeps_IsSilent [] s h = h
  keeps_IsSilent (event ∷ events) s h =
      keeps_IsSilent events (if s.terminated then s else handle env event s)
        (elim (Bool-cases s.terminated) [
          | inl e ↦ subst (λ b. IsSilent (if b then s else handle env event s)) (sym e) h
          | inr e ↦
              subst (λ b. IsSilent (if b then s else handle env event s)) (sym e)
                (handle-IsSilent event s h)
        ])

  -- After any sequence of calls, received bytes and steps of the threads, a new session is not logged
  -- on and runs no timer; every message that it sent is a logon, no handler was called but for a logon
  -- that failed, and an order that it is given next is not sent and gets the empty id.
  pub run_session-IsSilent :
      (events : List (Event Price)) (symbol : List ℕ) (side : Codes.Side) (price : Price)
      (quantity : ℤ) (time : Codes.TimeInForce)
      → IsSilent (run_session env events new_session)
        × (send_limit_order env symbol side price quantity time (run_session env events new_session)
            ≡ ([], run_session env events new_session))
  unfolding IsSilent send_limit_order
  run_session-IsSilent events symbol side price quantity time =
      let h = keeps_IsSilent events new_session new_session-IsSilent in
      let s = run_session env events new_session in (h, ground (arith, h.0))
