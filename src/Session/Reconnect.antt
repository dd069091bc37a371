-- ===== src/Session/Reconnect.antt =====
-- ihs/src/fix42.cpp: `connect` starts the receiving thread anew, and only `disconnect` joins the one before.
use fast_server.Prelude.{
  false, All, Bool-cases, inl, inr, ◌&&◌, ℕ, true, not, ◌||◌, List, [], ◌∷◌, ◌++◌, ◌≡◌, refl, ap,
  sym, ◌∙◌, arith, if◌then◌else◌, subst,
}
use fast_server.Parser.{ℤ}
use fast_server.Session.Codes
use fast_server.Session.{
  Environment, FixSession, new_session, get_next_sender_msg_seq_num, send_message, send_new, logon,
  logout, send_limit_order, cancel_order, send_heartbeat, set_on_execution_report_handler,
  set_on_cancel_reject_handler,
}
use fast_server.Session.Receive.{
  connect, receive, stop_heartbeat_timer, lose_connection, disconnect, Event, connects, disconnects,
  logs_on, logs_out, orders, cancels, sets_execution_report_handler, sets_cancel_reject_handler,
  receives, loses, beats, handle, run_session,
}
use fast_server.Session.Silent.{receive_silent}

module _ {Price : Type 0} where
  -- A connected session has a receiving thread that was not joined.
  abbrev IsReceiving : FixSession Price → Type 0
  IsReceiving s = (not s.is_connected || s.joinable) ≡ true

  abbrev IsLost : FixSession Price → Type 0
  IsLost s = (not s.is_connected && s.joinable) ≡ true

-- Anything but a `connect` that succeeds.
unfoldable pub IsIdle : {Price : Type 0} → Event Price → Type 0
IsIdle (connects true) = ⊥
IsIdle _ = Unit

module _ {Price : Type 0} (env : Environment Price) where
  send_new-IsReceiving :
      (type : Codes.MessageType) (more : ℕ → List (ℤ × List ℕ) → List (ℤ × List ℕ))
      (s : FixSession Price)
      → IsReceiving s
      → IsReceiving (send_new env type more s).1
  unfolding send_new send_message get_next_sender_msg_seq_num
  send_new-IsReceiving type more s h = ground (arith, h)

  logout-IsReceiving :
      (reason : List ℕ) (s : FixSession Price) → IsReceiving s → IsReceiving (logout env reason s)
  unfolding logout send_new send_message get_next_sender_msg_seq_num
  logout-IsReceiving reason s h = ground (arith, h)

  handle-IsReceiving :
      (event : Event Price) (s : FixSession Price)
      → IsReceiving s
      → IsReceiving (handle env event s)
  unfolding handle connect stop_heartbeat_timer lose_connection disconnect logon send_limit_order
      cancel_order send_new send_message get_next_sender_msg_seq_num send_heartbeat
      set_on_execution_report_handler set_on_cancel_reject_handler
  handle-IsReceiving (connects succeeds) s h = ground (arith, h)
  handle-IsReceiving (disconnects recv_fails) s h = ground (arith, h)
  handle-IsReceiving (logs_on given) s h = ground (arith, h)
  handle-IsReceiving (logs_out reason) s h = logout-IsReceiving reason s h
  handle-IsReceiving (orders symbol side price quantity time) s h = ground (arith, h)
  handle-IsReceiving (cancels order_id symbol side price) s h = ground (arith, h)
  handle-IsReceiving (sets_execution_report_handler given) s h = h
  handle-IsReceiving (sets_cancel_reject_handler given) s h = h
  handle-IsReceiving (receives bytes) s h = subst IsReceiving (sym (receive_silent env bytes s)) h
  handle-IsReceiving loses s h = ground (arith, h)
  handle-IsReceiving beats s h = ground (arith, h)

  new_session-IsReceiving : IsReceiving (new_session {Price = Price})
  unfolding new_session
  new_session-IsReceiving = refl

  run_session-append :
      (events more : List (Event Price)) (s : FixSession Price)
      → run_session env (events ++ more) s ≡ run_session env more (run_session env events s)
  unfolding run_session
  run_session-append [] more s = refl
  run_session-append (event ∷ events) more s =
      run_session-append events more (if s.terminated then s else handle env event s)

  run_session-IsReceiving :
      (events : List (Event Price)) (s : FixSession Price)
      → IsReceiving s
      → IsReceiving (run_session env events s)
  unfolding run_session
  run_session-IsReceiving [] s h = h
  run_session-IsReceiving (event ∷ events) s h =
      run_session-IsReceiving events (if s.terminated then s else handle env event s)
        (ground (arith, h, handle-IsReceiving event s h))

  -- Disconnected, with the receiving thread of the connection before still to be joined.
  handle-IsLost :
      (event : Event Price) (s : FixSession Price)
      → IsIdle event
      → IsLost s
      → IsLost (handle env event s)
  unfolding handle connect lose_connection disconnect logon logout send_limit_order cancel_order
      send_heartbeat set_on_execution_report_handler set_on_cancel_reject_handler receive IsIdle
  handle-IsLost (connects true) s i h = absurd i
  handle-IsLost (connects false) s i h = ground (arith, h)
  handle-IsLost (disconnects recv_fails) s i h = ground (arith, h)
  handle-IsLost (logs_on given) s i h = ground (arith, h)
  handle-IsLost (logs_out reason) s i h = ground (arith, h)
  handle-IsLost (orders symbol side price quantity time) s i h = ground (arith, h)
  handle-IsLost (cancels order_id symbol side price) s i h = ground (arith, h)
  handle-IsLost (sets_execution_report_handler given) s i h = h
  handle-IsLost (sets_cancel_reject_handler given) s i h = h
  handle-IsLost (receives bytes) s i h = ground (arith, h)
  handle-IsLost loses s i h = ground (arith, h)
  handle-IsLost beats s i h = ground (arith, h)

  -- The end of the program stays, and otherwise the lost connection does until the next `connect`.
  run_session-ended :
      (events : List (Event Price)) (s : FixSession Price)
      → s.terminated ≡ true
      → (run_session env events s).terminated ≡ true
  unfolding run_session
  run_session-ended [] s h = h
  run_session-ended (event ∷ events) s h =
      run_session-ended events (if s.terminated then s else handle env event s) (ground (arith, h))

  connect_ends :
      (between : List (Event Price)) (s : FixSession Price)
      → All IsIdle between
      → IsLost s
      → (run_session env (between ++ connects true ∷ []) s).terminated ≡ true
  unfolding run_session handle connect
  connect_ends [] s i h = ground (arith, h)
  connect_ends (event ∷ between) s (i, more) h =
      connect_ends between (if s.terminated then s else handle env event s) more
        (ground (arith, h, handle-IsLost event s i h))

  -- When a connection that `connect` made is lost, the next `connect` that succeeds ends the program,
  -- whatever the session did before and whatever is called in between, `disconnect` included.
  pub reconnect_terminated :
      (events between : List (Event Price))
      → (run_session env events new_session).is_connected ≡ true
      → All IsIdle between
      → (run_session env (events ++ loses ∷ (between ++ connects true ∷ [])) new_session).terminated
        ≡ true
  unfolding run_session handle lose_connection
  reconnect_terminated events between h idle =
      let s = run_session env events new_session in
      let receiving = run_session-IsReceiving events new_session (new_session-IsReceiving) in
      let rest = between ++ connects true ∷ [] in
      let after = if s.terminated then s else if s.is_connected then lose_connection s else s in
      ap (λ t. t.terminated) (run_session-append events (loses ∷ rest) new_session)
      ∙ elim (Bool-cases s.terminated) [
        | inl e ↦ run_session-ended rest after (ground (arith, e))
        | inr e ↦ connect_ends between after idle (ground (arith, e, h, receiving))
      ]
