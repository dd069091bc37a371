-- ===== src/Session/Receive.antt =====
-- ihs/src/fix42.cpp: the end of a session, what it does with a received message, and its receiving thread.
use fast_server.Prelude.{
  ℕ, ◌+◌, ◌%◌, ◌^◌, Bool, true, false, not, ◌&&◌, ◌||◌, List, [], ◌∷◌, ◌++◌, none, some, ltb, ◌==◌,
  if◌then◌else◌,
}
use fast_server.Fix.{soh}
use fast_server.Parser.{ℤ, pos, stoi, returns, throws}
use fast_server.Session.Wire.{
  stoul, Message, put_field, has_tag, value_of, deserialize, validate_message,
}
use fast_server.Session.Codes
use fast_server.Session.{
  Environment, Call, on_logon, on_execution_report, on_cancel_reject, FixSession, call, send_new,
  logon, logout, send_limit_order, cancel_order, send_heartbeat, start_heartbeat_timer,
  set_on_execution_report_handler, set_on_cancel_reject_handler,
}

module _ {Price : Type 0} where
  -- `connect`, where `succeeds` tells what the calls of the socket library answer. A thread that was
  -- not joined may not be assigned to: the program ends there.
  unfoldable pub connect : Bool → FixSession Price → FixSession Price
  connect succeeds s =
      if s.is_connected || not succeeds
      then s
      else if s.joinable
      then record s { is_connected = true; terminated = true }
      else record s { is_connected = true; joinable = true; partial_msg = [] }

  unfoldable pub stop_heartbeat_timer : FixSession Price → FixSession Price
  stop_heartbeat_timer s = record s { heartbeat_running = false }

  -- `recv` tells the receiving thread that the connection is closed or has failed.
  unfoldable pub lose_connection : FixSession Price → FixSession Price
  lose_connection s = record s { is_connected = false; is_logged_on = false }

  -- `getNextTargetMsgSeqNum`, which nothing calls.
  unfoldable pub get_next_target_msg_seq_num : FixSession Price → ℕ × FixSession Price
  get_next_target_msg_seq_num s =
      (s.target_msg_seq_num, record s { target_msg_seq_num = (s.target_msg_seq_num + 1) % 2 ^ 32 })

  -- The number of a received message, where it has one that can be read.
  unfoldable pub update_target_seq_num : Message → FixSession Price → FixSession Price
  update_target_seq_num msg s =
      if has_tag (pos 34) msg.fields
      then elim (stoul (value_of (pos 34) msg.fields)) [
        | none ↦ s
        | some n ↦
            if ltb s.target_msg_seq_num (n % 2 ^ 32)
            then record s { target_msg_seq_num = n % 2 ^ 32 }
            else s
      ]
      else s

-- `"Disconnecting"`
abbrev pub disconnecting : List ℕ
disconnecting = 68 ∷ 105 ∷ 115 ∷ 99 ∷ 111 ∷ 110 ∷ 110 ∷ 101 ∷ 99 ∷ 116 ∷ 105 ∷ 110 ∷ 103 ∷ []

module _ {Price : Type 0} (env : Environment Price) where
  -- `disconnect`. The receiving thread, which it waits for, ends at a failing `recv` or at the test of its loop.
  unfoldable pub disconnect : Bool → FixSession Price → FixSession Price
  disconnect recv_fails s =
      let s2 = stop_heartbeat_timer (if s.is_logged_on then logout env disconnecting s else s) in
      let s3 = if recv_fails then lose_connection s2 else s2 in
      if s.is_connected then record s3 { is_connected = false; joinable = false } else s

  -- The report that `on_execution_report_handler_` gets.
  unfoldable pub execution_report_call : Message → Call Price
  execution_report_call msg =
      let price =
        if has_tag (pos 44) msg.fields
        then elim (env.stod (value_of (pos 44) msg.fields)) [ none ↦ env.zero_price | some x ↦ x ]
        else env.zero_price in
      let quantity =
        if has_tag (pos 14) msg.fields
        then elim (stoi (value_of (pos 14) msg.fields)) [ throws e ↦ pos 0 | returns n ↦ n ]
        else pos 0 in
      on_execution_report (value_of (pos 11) msg.fields)
        (Codes.string_to_exec_type (value_of (pos 150) msg.fields)) (value_of (pos 17) msg.fields)
        price quantity (value_of (pos 58) msg.fields)

  -- The `switch` of `processReceivedMessage`.
  unfoldable pub process_type : Codes.MessageType → Message → FixSession Price → FixSession Price
  process_type Codes.logon msg s =
      let s2 = start_heartbeat_timer env (record s { is_logged_on = true }) in
      if s.has_logon_handler then call (on_logon true) s2 else s2
  process_type Codes.logout msg s = stop_heartbeat_timer (record s { is_logged_on = false })
  process_type Codes.heartbeat msg s = s
  process_type Codes.test_request msg s =
      if has_tag (pos 112) msg.fields
      then (send_new env Codes.heartbeat
          (λ number fields. put_field (pos 112) (value_of (pos 112) msg.fields) fields)
          (record s { last_test_request_id = value_of (pos 112) msg.fields })).1
      else s
  process_type Codes.execution_report msg s =
      if has_tag (pos 11) msg.fields
        && has_tag (pos 150) msg.fields
        && has_tag (pos 17) msg.fields
        && s.has_execution_report_handler
      then call (execution_report_call msg) s
      else s
  process_type Codes.order_cancel_reject msg s =
      if has_tag (pos 41) msg.fields && s.has_cancel_reject_handler
      then call (on_cancel_reject (value_of (pos 41) msg.fields) (value_of (pos 58) msg.fields)) s
      else s
  process_type _ msg s = s

  unfoldable pub process_received_message : Message → FixSession Price → FixSession Price
  process_received_message msg s =
      if has_tag (pos 35) msg.fields
      then process_type (Codes.string_to_message_type (value_of (pos 35) msg.fields)) msg
          (update_target_seq_num msg s)
      else s

  -- One message of the loop of `receiveLoop`.
  unfoldable pub receive_message : List ℕ → FixSession Price → FixSession Price
  receive_message raw s =
      let (ok, msg) = deserialize raw in
      if ok && validate_message env.sender_comp_id env.target_comp_id msg
      then process_received_message msg s
      else s

  -- The loop of `receiveLoop` over the characters it has: those since the last separator and those to
  -- come. What no separator ends is kept.
  unfoldable pub receive_messages : List ℕ → List ℕ → FixSession Price → FixSession Price
  receive_messages text [] s = record s { partial_msg = text }
  receive_messages text (c ∷ bytes) s = elim (c == soh) [
    | true ↦ receive_messages [] bytes (receive_message (text ++ c ∷ []) s)
    | false ↦ receive_messages (text ++ c ∷ []) bytes s
  ]

  -- The bytes of one call of `recv`.
  unfoldable pub receive : List ℕ → FixSession Price → FixSession Price
  receive bytes s = if s.is_connected then receive_messages [] (s.partial_msg ++ bytes) s else s

-- A call of the session, or something that one of its threads does.
pub data Event (Price : Type 0) : Type 0 where
  connects : Bool → Event Price
  disconnects : Bool → Event Price
  logs_on : Bool → Event Price
  logs_out : List ℕ → Event Price
  orders : List ℕ → Codes.Side → Price → ℤ → Codes.TimeInForce → Event Price
  cancels : List ℕ → List ℕ → Codes.Side → Price → Event Price
  sets_execution_report_handler : Bool → Event Price
  sets_cancel_reject_handler : Bool → Event Price
  receives : List ℕ → Event Price
  loses : Event Price
  beats : Event Price

module _ {Price : Type 0} (env : Environment Price) where
  unfoldable pub handle : Event Price → FixSession Price → FixSession Price
  handle (connects succeeds) s = connect succeeds s
  handle (disconnects recv_fails) s = disconnect env recv_fails s
  handle (logs_on given) s = logon env given s
  handle (logs_out reason) s = logout env reason s
  handle (orders symbol side price quantity time) s =
      (send_limit_order env symbol side price quantity time s).1
  handle (cancels order_id symbol side price) s = cancel_order env order_id symbol side price s
  handle (sets_execution_report_handler given) s = set_on_execution_report_handler given s
  handle (sets_cancel_reject_handler given) s = set_on_cancel_reject_handler given s
  handle (receives bytes) s = receive env bytes s
  handle loses s = if s.is_connected then lose_connection s else s
  handle beats s = if s.heartbeat_running then send_heartbeat env s else s

  -- Events, in the order in which they happen. Nothing happens once the program was ended.
  unfoldable pub run_session : List (Event Price) → FixSession Price → FixSession Price
  run_session [] s = s
  run_session (event ∷ events) s = run_session events (if s.terminated then s else handle event s)
