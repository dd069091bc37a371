-- ===== src/Session.antt =====
-- ihs/src/fix42.cpp: a session of `FIX42Protocol`. The calls of the class and what its two threads do
-- are steps on the session's state; the mutex and the time that a thread waits are left out. What
-- the session hands to others is kept: the messages that the socket took and the calls of the
-- program's handlers, which are taken not to call the session themselves.
pub mod Wire
pub mod Codes
pub mod Receive
pub mod Silent
pub mod Logons
pub mod Fields
pub mod Framed
pub mod RoundTrip
pub mod Turns
pub mod Numbers
pub mod Reconnect
mod Tests
use fast_server.Prelude.{
  ℕ, suc, ◌+◌, ◌-◌, ◌%◌, ◌^◌, Bool, true, false, not, ◌&&◌, ◌||◌, List, [], ◌∷◌, ◌++◌, Option, none,
  some, ltb, ◌==◌, if◌then◌else◌,
}
use fast_server.Fix.{soh, decimal}
use fast_server.Parser.{
  ℤ, pos, negsuc, is_digit, read_digits, skip_spaces, stoi, Result, returns, throws,
}
use fast_server.Session.Wire.{
  Message, put_field, has_tag, value_of, print_int, fix_version, serialize, deserialize,
  validate_message,
}
use fast_server.Session.Codes

-- The answers of the clock and of the socket for one message: the time in seconds as a text, its
-- milliseconds, the count of the other clock, and whether `send` took the whole message.
pub record Answer : Type 0 where
  pub time_text : List ℕ
  pub millis : ℕ
  pub ticks : ℕ
  pub sends : Bool

-- The ids and the interval that a session is created with, the answers for the message of each
-- number, and the C++ library's conversions between a `double` and a text.
pub record Environment (Price : Type 0) : Type 0 where
  pub sender_comp_id : List ℕ
  pub target_comp_id : List ℕ
  pub heartbt_int : ℤ
  pub answers : ℕ → Answer
  pub zero_price : Price
  pub stod : List ℕ → Option Price
  pub price_text : Price → List ℕ

-- A call of one of the program's handlers.
pub data Call (Price : Type 0) : Type 0 where
  on_logon : Bool → Call Price
  on_execution_report : List ℕ → Codes.ExecType → List ℕ → Price → ℤ → List ℕ → Call Price
  on_cancel_reject : List ℕ → List ℕ → Call Price

-- `on_logout_handler_` is left out: nothing sets it. `joinable` tells that the receiving thread was
-- started and not joined, `terminated` that the program was ended for it.
pub record FixSession (Price : Type 0) : Type 0 where
  pub is_connected : Bool
  pub is_logged_on : Bool
  pub heartbeat_running : Bool
  pub joinable : Bool
  pub terminated : Bool
  pub sender_msg_seq_num : ℕ
  pub target_msg_seq_num : ℕ
  pub last_test_request_id : List ℕ
  pub partial_msg : List ℕ
  pub has_logon_handler : Bool
  pub has_execution_report_handler : Bool
  pub has_cancel_reject_handler : Bool
  pub sent : List (Message × List ℕ)
  pub calls : List (Call Price)

module _ {Price : Type 0} where
  -- `FIX42Protocol(...)`
  unfoldable pub new_session : FixSession Price
  new_session = record {
    is_connected = false;
    is_logged_on = false;
    heartbeat_running = false;
    joinable = false;
    terminated = false;
    sender_msg_seq_num = 1;
    target_msg_seq_num = 0;
    last_test_request_id = [];
    partial_msg = [];
    has_logon_handler = false;
    has_execution_report_handler = false;
    has_cancel_reject_handler = false;
    sent = [];
    calls = [];
  }

  unfoldable pub set_on_execution_report_handler : Bool → FixSession Price → FixSession Price
  set_on_execution_report_handler given s = record s { has_execution_report_handler = given }

  unfoldable pub set_on_cancel_reject_handler : Bool → FixSession Price → FixSession Price
  set_on_cancel_reject_handler given s = record s { has_cancel_reject_handler = given }

  abbrev pub call : Call Price → FixSession Price → FixSession Price
  call c s = record s { calls = s.calls ++ c ∷ [] }

  -- `getNextSenderMsgSeqNum`: the number, and the session behind the call.
  unfoldable pub get_next_sender_msg_seq_num : FixSession Price → ℕ × FixSession Price
  get_next_sender_msg_seq_num s =
      (s.sender_msg_seq_num, record s { sender_msg_seq_num = (s.sender_msg_seq_num + 1) % 2 ^ 32 })

module _ {Price : Type 0} (env : Environment Price) where
  -- The fields of `createBaseMessage`, in the message of this number.
  unfoldable pub base_fields : ℕ → Codes.MessageType → List (ℤ × List ℕ)
  base_fields number msg_type =
      let answer = env.answers number in
      let sending_time = answer.time_text ++ 46 ∷ decimal answer.millis in
      put_field (pos 35) (Codes.message_type_to_string msg_type) (
        put_field (pos 52) sending_time (
          put_field (pos 34) (decimal number) (
            put_field (pos 56) env.target_comp_id
              (put_field (pos 49) env.sender_comp_id (put_field (pos 8) fix_version [])))))

  -- `sendMessage` of the message of this number.
  unfoldable pub send_message : ℕ → List (ℤ × List ℕ) → FixSession Price → Bool × FixSession Price
  send_message number fields s =
      let msg : Message = record { fields = fields; raw_data = [] } in
      if s.is_connected && (env.answers number).sends
      then (true, record s { sent = s.sent ++ (msg, serialize msg) ∷ [] })
      else (false, s)

  -- `createBaseMessage`, the fields that its caller adds, and `sendMessage`: taking the number and
  -- sending are one step here. The mutex covers the former only, so this is the code as long as one
  -- thread at a time sends.
  unfoldable pub send_new :
      Codes.MessageType
      → (ℕ → List (ℤ × List ℕ) → List (ℤ × List ℕ))
      → FixSession Price
      → Bool × FixSession Price
  send_new msg_type more s =
      let (number, s2) = get_next_sender_msg_seq_num s in
      send_message number (more number (base_fields number msg_type)) s2

  -- `logon`, with a handler or without.
  unfoldable pub logon : Bool → FixSession Price → FixSession Price
  logon given s =
      if s.is_connected
      then (send_new Codes.logon
          (λ number fields.
            put_field (pos 141) (89 ∷ []) (put_field (pos 108) (print_int env.heartbt_int) fields))
          (record s { has_logon_handler = given })).1
      else if given
      then call (on_logon false) s
      else s

  unfoldable pub logout : List ℕ → FixSession Price → FixSession Price
  logout reason s =
      if s.is_connected && s.is_logged_on
      then (send_new Codes.logout
          (λ number fields. elim reason [
            | [] ↦ fields
            | c ∷ cs ↦ put_field (pos 58) (c ∷ cs) fields
          ])
          s).1
      else s

  -- The fields that `sendLimitOrder` adds.
  abbrev pub order_fields :
      List ℕ
      → List ℕ
      → Codes.Side
      → Price
      → ℤ
      → Codes.TimeInForce
      → List (ℤ × List ℕ)
      → List (ℤ × List ℕ)
  order_fields cl_ord_id symbol side price quantity time_in_force fields =
      put_field (pos 59) (Codes.time_in_force_to_string time_in_force) (
        put_field (pos 38) (print_int quantity) (
          put_field (pos 44) (env.price_text price) (
            put_field (pos 40) (Codes.ord_type_to_string Codes.limit) (
              put_field (pos 54) (Codes.side_to_string side)
                (put_field (pos 55) symbol (put_field (pos 11) cl_ord_id fields))))))

  -- `sendLimitOrder`: the order's id, or an empty text.
  unfoldable pub send_limit_order :
      List ℕ
      → Codes.Side
      → Price
      → ℤ
      → Codes.TimeInForce
      → FixSession Price
      → List ℕ × FixSession Price
  send_limit_order symbol side price quantity time_in_force s =
      let cl_ord_id = 79 ∷ 82 ∷ 68 ∷ decimal (env.answers s.sender_msg_seq_num).ticks in
      let (ok, s2) =
        send_new Codes.new_order_single
          (λ number fields. order_fields cl_ord_id symbol side price quantity time_in_force fields)
          s in
      if s.is_connected && s.is_logged_on then (if ok then cl_ord_id else [], s2) else ([], s)

  unfoldable pub cancel_order :
      List ℕ → List ℕ → Codes.Side → Price → FixSession Price → FixSession Price
  cancel_order order_id symbol side price s =
      if s.is_connected && s.is_logged_on
      then (send_new Codes.order_cancel_request
          (λ number fields. put_field (pos 44) (env.price_text price) (
            put_field (pos 54) (Codes.side_to_string side) (
              put_field (pos 55) symbol (
                put_field (pos 11) (67 ∷ 65 ∷ 78 ∷ decimal (env.answers number).ticks)
                  (put_field (pos 41) order_id fields)))))
          s).1
      else s

  unfoldable pub send_heartbeat : FixSession Price → FixSession Price
  send_heartbeat s =
      if s.is_connected && s.is_logged_on
      then elim s.last_test_request_id [
        | [] ↦ (send_new Codes.heartbeat (λ number fields. fields) s).1
        | c ∷ cs ↦
            (send_new Codes.heartbeat (λ number fields. put_field (pos 112) (c ∷ cs) fields)
              (record s { last_test_request_id = [] })).1
      ]
      else s

  -- `heartbt_int_ <= 0` keeps the timer from starting.
  unfoldable pub start_heartbeat_timer : FixSession Price → FixSession Price
  start_heartbeat_timer s = elim env.heartbt_int [
    | negsuc n ↦ s
    | pos n ↦ if s.heartbeat_running || n == 0 then s else record s { heartbeat_running = true }
  ]
