-- ===== src/Trader.antt =====
-- ihs/src/fix42_a.cpp: the session of `FixSession` and `TradingSession`: the calls of the class and what
-- its two threads do. The locks and waiting are left out, and so is printing, which is all that the
-- handlers of `TradingSession` do but for `onLogout`.
pub mod Wire
pub mod Framing
pub mod Pieces
pub mod Unheard
mod Tests
use fast_server.Prelude.{
  ℕ, suc, ◌+◌, Bool, true, false, not, ◌&&◌, ◌||◌, List, [], ◌∷◌, ◌++◌, Option, none, some, ◌==◌,
  if◌then◌else◌,
}
use fast_server.Fix.{soh}
use fast_server.Parser.{ℤ, pos, stoi, Result, returns, throws}
use fast_server.Session.Wire.{put_field, has_tag, value_of, print_int, same_text}
use fast_server.Trader.Wire.{send_text, parse_fix_message}

pub data SessionState : Type 0 where
  disconnected logging_in logged_in logging_out : SessionState

unfoldable pub same_state : SessionState → SessionState → Bool
same_state disconnected disconnected = true
same_state logging_in logging_in = true
same_state logged_in logged_in = true
same_state logging_out logging_out = true
same_state _ _ = false

-- What the session is created with, and the text of a price with four places.
pub record Settings (Price : Type 0) : Type 0 where
  pub sender_comp_id : List ℕ
  pub target_comp_id : List ℕ
  pub password : List ℕ
  pub heartbeat_interval : ℤ
  pub format_price : Price → List ℕ

pub record OrderInfo (Price : Type 0) : Type 0 where
  pub symbol : List ℕ
  pub side : ℕ
  pub quantity : ℤ
  pub price : Price

-- `is_open` tells that there is a socket, `ended` that an exception that nothing catches ended the program.
-- `sent` holds the texts that the socket took whole. The sequence number is an `int`: the model is the code
-- as long as it stays below 2 ^ 31.
pub record TradingSession (Price : Type 0) : Type 0 where
  pub state : SessionState
  pub msg_seq_num : ℕ
  pub is_open : Bool
  pub is_running : Bool
  pub ended : Bool
  pub incomplete_message : List ℕ
  pub message_queue : List (List ℕ)
  pub pending_orders : List (List ℕ × OrderInfo Price)
  pub sent : List (List ℕ)

-- The answers for one message: the time, and whether `send` took the whole message.
pub record Reply : Type 0 where
  pub time : List ℕ
  pub sends : Bool

module _ {Price : Type 0} where
  unfoldable pub new_trading_session : TradingSession Price
  new_trading_session = record {
    state = disconnected;
    msg_seq_num = 1;
    is_open = false;
    is_running = false;
    ended = false;
    incomplete_message = [];
    message_queue = [];
    pending_orders = [];
    sent = [];
  }

  -- `pendingOrders_[clOrdID] = ...`; the order of the map's keys does not matter.
  unfoldable pub put_pending :
      List ℕ → OrderInfo Price → List (List ℕ × OrderInfo Price) → List (List ℕ × OrderInfo Price)
  put_pending id info [] = (id, info) ∷ []
  put_pending id info ((i, o) ∷ orders) =
      let more = put_pending id info orders in
      if same_text i id then (i, info) ∷ orders else (i, o) ∷ more

  -- The loop of `receiveThreadFunc` over its characters: those since the last separator and those to come.
  unfoldable pub split_messages : List ℕ → List ℕ → TradingSession Price → TradingSession Price
  split_messages text [] s = record s { incomplete_message = text }
  split_messages text (c ∷ bytes) s = elim (c == soh) [
    | true ↦ split_messages [] bytes (record s { message_queue = s.message_queue ++ text ∷ [] })
    | false ↦ split_messages (text ++ c ∷ []) bytes s
  ]

-- `"User requested logout"`
abbrev pub logout_text : List ℕ
logout_text =
    85 ∷ 115 ∷ 101 ∷ 114 ∷ 32 ∷ 114 ∷ 101 ∷ 113 ∷ 117 ∷ 101 ∷ 115 ∷ 116 ∷ 101 ∷ 100 ∷ 32 ∷ 108 ∷ 111
    ∷ 103 ∷ 111 ∷ 117 ∷ 116 ∷ []

module _ {Price : Type 0} (settings : Settings Price) where
  unfoldable pub send_fields :
      Reply → List ℕ → List (ℤ × List ℕ) → TradingSession Price → TradingSession Price
  send_fields reply msg_type fields s =
      elim (send_text s.msg_seq_num settings.sender_comp_id settings.target_comp_id reply.time
        msg_type fields) [
          | none ↦ if s.is_open then record s { ended = true } else s
          | some text ↦
              if s.is_open && reply.sends
              then record s { sent = s.sent ++ text ∷ []; msg_seq_num = s.msg_seq_num + 1 }
              else s
        ]

  unfoldable pub send_logon : Reply → TradingSession Price → TradingSession Price
  send_logon reply s =
      send_fields reply (65 ∷ [])
        (put_field (pos 554) settings.password (
          put_field (pos 108) (print_int settings.heartbeat_interval)
            (put_field (pos 98) (48 ∷ []) [])))
        s

  unfoldable pub send_logout : Reply → List ℕ → TradingSession Price → TradingSession Price
  send_logout reply text s =
      send_fields reply (53 ∷ []) (elim text [ [] ↦ [] | c ∷ cs ↦ put_field (pos 58) (c ∷ cs) [] ])
        s

  -- `connect`, where `succeeds` tells what the calls of the socket library answer.
  unfoldable pub connect_trader : Bool → Reply → TradingSession Price → TradingSession Price
  connect_trader succeeds reply s =
      if same_state s.state disconnected && succeeds
      then send_logon reply (record s {
        state = logging_in;
        is_open = true;
        is_running = true;
        incomplete_message = [];
      })
      else s

  -- `disconnect`, by a thread that is not one of the session's.
  unfoldable pub disconnect_trader : Reply → TradingSession Price → TradingSession Price
  disconnect_trader reply s =
      let s2 =
        if s.is_open && same_state s.state logged_in then send_logout reply logout_text s else s in
      record s2 { is_open = false; state = disconnected; is_running = false }

  unfoldable pub send_new_order_single :
      Reply → List ℕ → List ℕ → ℕ → ℤ → Price → ℕ → TradingSession Price → TradingSession Price
  send_new_order_single reply cl_ord_id symbol side quantity price time_in_force s =
      let info : OrderInfo Price = record {
        symbol = symbol;
        side = side;
        quantity = quantity;
        price = price;
      } in
      let fields = put_field (pos 59) (time_in_force ∷ []) (
        put_field (pos 44) (settings.format_price price) (
          put_field (pos 40) (50 ∷ []) (
            put_field (pos 38) (print_int quantity) (
              put_field (pos 54) (side ∷ []) (
                put_field (pos 55) symbol
                  (put_field (pos 21) (49 ∷ []) (put_field (pos 11) cl_ord_id []))))))) in
      if same_state s.state logged_in
      then send_fields reply (68 ∷ []) fields
          (record s { pending_orders = put_pending cl_ord_id info s.pending_orders })
      else s

  unfoldable pub send_order_cancel_request :
      Reply → List ℕ → List ℕ → List ℕ → ℕ → TradingSession Price → TradingSession Price
  send_order_cancel_request reply orig_cl_ord_id cl_ord_id symbol side s =
      if same_state s.state logged_in
      then send_fields reply (70 ∷ [])
          (put_field (pos 54) (side ∷ []) (
            put_field (pos 55) symbol
              (put_field (pos 11) cl_ord_id (put_field (pos 41) orig_cl_ord_id []))))
          s
      else s

  -- `handleLogonResponse`: an interval that is no number is an exception, which `processThreadFunc` catches.
  unfoldable pub handle_logon_response :
      List (ℤ × List ℕ) → TradingSession Price → TradingSession Price
  handle_logon_response fields s =
      let read : Result ℤ =
        if has_tag (pos 108) fields then stoi (value_of (pos 108) fields) else returns (pos 0) in
      if same_state s.state logging_in
      then elim read [ throws e ↦ s | returns n ↦ record s { state = logged_in } ]
      else s

  -- `handleMessage`. `onLogout` disconnects, in the thread that `disconnect` then joins: that join throws,
  -- and the state is not set behind it.
  unfoldable pub handle_message :
      Reply → List (ℤ × List ℕ) → TradingSession Price → TradingSession Price
  handle_message reply fields s =
      let msg_type = value_of (pos 35) fields in
      if same_text msg_type (65 ∷ [])
      then handle_logon_response fields s
      else if same_text msg_type (53 ∷ [])
      then disconnect_trader reply s
      else s

  -- A message of the queue, in `processThreadFunc`.
  unfoldable pub process_message : Reply → List ℕ → TradingSession Price → TradingSession Price
  process_message reply message s = elim (parse_fix_message message) [
    | none ↦ s
    | some fields ↦ handle_message reply fields s
  ]

  -- The first message of the queue, in `processThreadFunc`.
  unfoldable pub process_next : Reply → TradingSession Price → TradingSession Price
  process_next reply s = elim s.message_queue [
    | [] ↦ s
    | message ∷ queue ↦ process_message reply message (record s { message_queue = queue })
  ]

-- A call of the session, or something that one of its threads does.
pub data TradingEvent (Price : Type 0) : Type 0 where
  connects : Bool → Reply → TradingEvent Price
  disconnects : Reply → TradingEvent Price
  orders : Reply → List ℕ → List ℕ → ℕ → ℤ → Price → ℕ → TradingEvent Price
  cancels : Reply → List ℕ → List ℕ → List ℕ → ℕ → TradingEvent Price
  receives : List ℕ → TradingEvent Price
  processes : Reply → TradingEvent Price

module _ {Price : Type 0} (settings : Settings Price) where
  -- The threads' steps stop with the running flag; the source's loop over the queue ends only when the
  -- queue is empty, so it may process what is left of it once the flag is cleared.
  unfoldable pub handle_trading : TradingEvent Price → TradingSession Price → TradingSession Price
  handle_trading (connects succeeds reply) s = connect_trader settings succeeds reply s
  handle_trading (disconnects reply) s = disconnect_trader settings reply s
  handle_trading (orders reply id symbol side quantity price time) s =
      send_new_order_single settings reply id symbol side quantity price time s
  handle_trading (cancels reply orig id symbol side) s =
      send_order_cancel_request settings reply orig id symbol side s
  handle_trading (receives bytes) s =
      if s.is_running then split_messages [] (s.incomplete_message ++ bytes) s else s
  handle_trading (processes reply) s = if s.is_running then process_next settings reply s else s

  unfoldable pub run_trader :
      List (TradingEvent Price) → TradingSession Price → TradingSession Price
  run_trader [] s = s
  run_trader (event ∷ events) s = run_trader events (if s.ended then s else handle_trading event s)
