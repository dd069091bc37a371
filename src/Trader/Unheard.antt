-- ===== src/Trader/Unheard.antt =====
-- ihs/src/fix42_a.cpp: what a session can reach.
use fast_server.Prelude.{
  ℕ, ◌+◌, Bool, true, false, ◌&&◌, List, [], ◌∷◌, ◌++◌, ◌≡◌, ◌≢◌, inl, inr, refl, sym, subst,
  Bool-cases, Option-cases, All, arith, Option, none, some, ◌==◌, if◌then◌else◌,
}
use fast_server.Fix.{soh}
use fast_server.Parser.{ℤ, pos}
use fast_server.Session.Wire.{put_field, print_int}
use fast_server.Session.Logons.{All-snoc}
use fast_server.Trader.Wire.{send_text}
use fast_server.Trader.{
  disconnected, logging_in, logged_in, same_state, Settings, TradingSession, Reply,
  new_trading_session, split_messages, send_fields, send_logon, send_logout, logout_text,
  handle_message, connect_trader, disconnect_trader, send_new_order_single,
  send_order_cancel_request, process_message, process_next, TradingEvent, connects, disconnects,
  orders, cancels, receives, processes, handle_trading, run_trader,
}
use fast_server.Trader.Pieces.{IsPiece, parse_fix_message-IsPiece}

module _ {Price : Type 0} (settings : Settings Price) where
  -- A text that `sendMessage` makes of a logon.
  pub IsLogon : List ℕ → Type 0
  IsLogon text =
      (number : ℕ) × (time : List ℕ) × (fields : List (ℤ × List ℕ)) × (send_text number
          settings.sender_comp_id settings.target_comp_id time (65 ∷ []) fields
        ≡ some text)

  -- Not logged in; no order is pending, all that was sent is logons, and no message of the queue
  -- holds a separator.
  pub IsUnheard : TradingSession Price → Type 0
  IsUnheard s =
      (same_state s.state logged_in ≡ false)
      × (s.pending_orders ≡ [])
      × All IsLogon s.sent
      × All IsPiece s.message_queue

  IsUnheard-if :
      (b : Bool) (x y : TradingSession Price)
      → IsUnheard x
      → IsUnheard y
      → IsUnheard (if b then x else y)
  IsUnheard-if true x y h k = h
  IsUnheard-if false x y h k = k

  -- A call that is kept for a session that is logged in does nothing.
  IsUnheard-guard :
      (b : Bool) (x y : TradingSession Price)
      → b ≡ false
      → IsUnheard y
      → IsUnheard (if b then x else y)
  IsUnheard-guard b x y e h = subst (λ t. IsUnheard (if t then x else y)) (sym e) h

  send_logon-IsUnheard :
      (reply : Reply) (s : TradingSession Price)
      → IsUnheard s
      → IsUnheard (send_logon settings reply s)
  unfolding send_logon send_fields IsUnheard IsLogon
  send_logon-IsUnheard reply s (a, b, c, d) =
      let fields = put_field (pos 554) settings.password (
        put_field (pos 108) (print_int settings.heartbeat_interval)
          (put_field (pos 98) (48 ∷ []) [])) in
      let text =
        send_text s.msg_seq_num settings.sender_comp_id settings.target_comp_id reply.time (65 ∷ [])
          fields in
      let after : Option (List ℕ) → TradingSession Price = λ o. elim o [
        | none ↦ if s.is_open then record s { ended = true } else s
        | some t ↦
            if s.is_open && reply.sends
            then record s { sent = s.sent ++ t ∷ []; msg_seq_num = s.msg_seq_num + 1 }
            else s
      ] in
      elim (Option-cases text) [
        | inl e ↦
            subst (λ o. IsUnheard (after o)) (sym e)
              (IsUnheard-if s.is_open (record s { ended = true }) s (a, b, c, d) (a, b, c, d))
        | inr (t, e) ↦
            subst (λ o. IsUnheard (after o)) (sym e)
              (IsUnheard-if (s.is_open && reply.sends)
                (record s { sent = s.sent ++ t ∷ []; msg_seq_num = s.msg_seq_num + 1 }) s
                (a, b, All-snoc IsLogon s.sent t c (s.msg_seq_num, reply.time, fields, e), d)
                (a, b, c, d))
      ]

  split_messages-IsUnheard :
      (text bytes : List ℕ) (s : TradingSession Price)
      → IsPiece text
      → IsUnheard s
      → IsUnheard (split_messages text bytes s)
  unfolding split_messages IsUnheard
  split_messages-IsUnheard text [] s h k = k
  split_messages-IsUnheard text (x ∷ bytes) s h (a, b, c, d) = elim (Bool-cases (x == soh)) [
    | inl e ↦
        subst
          (λ t. IsUnheard (elim t [
            | true ↦
                split_messages [] bytes (record s { message_queue = s.message_queue ++ text ∷ [] })
            | false ↦ split_messages (text ++ x ∷ []) bytes s
          ]))
          (sym e)
          (split_messages-IsUnheard [] bytes
            (record s { message_queue = s.message_queue ++ text ∷ [] }) tt
            (a, b, c, All-snoc IsPiece s.message_queue text d h))
    | inr e ↦
        subst
          (λ t. IsUnheard (elim t [
            | true ↦
                split_messages [] bytes (record s { message_queue = s.message_queue ++ text ∷ [] })
            | false ↦ split_messages (text ++ x ∷ []) bytes s
          ]))
          (sym e)
          (split_messages-IsUnheard (text ++ x ∷ []) bytes s
            (All-snoc (λ y. y ≢ soh) text x h (ground arith)) (a, b, c, d))
  ]

  process_next-IsUnheard :
      (reply : Reply) (queue : List (List ℕ)) (s : TradingSession Price)
      → s.message_queue ≡ queue
      → IsUnheard s
      → IsUnheard (elim queue [
        | [] ↦ s
        | message ∷ more ↦
            process_message settings reply message (record s { message_queue = more })
      ])
  unfolding process_message IsUnheard
  process_next-IsUnheard reply [] s e h = h
  process_next-IsUnheard reply (message ∷ more) s e (a, b, c, d) =
      let pieces = subst (All IsPiece) e d in
      subst
        (λ o. IsUnheard (elim o [
          | none ↦ record s { message_queue = more }
          | some fields ↦ handle_message settings reply fields (record s { message_queue = more })
        ]))
        (sym (parse_fix_message-IsPiece message pieces.0)) (a, b, c, pieces.1)

  handle_trading-IsUnheard :
      (event : TradingEvent Price) (s : TradingSession Price)
      → IsUnheard s
      → IsUnheard (handle_trading settings event s)
  unfolding handle_trading connect_trader disconnect_trader send_new_order_single
      send_order_cancel_request process_next IsUnheard same_state
  handle_trading-IsUnheard (connects succeeds reply) s (a, b, c, d) =
      IsUnheard-if (same_state s.state disconnected && succeeds) _ s
        (send_logon-IsUnheard reply
          (record s {
            state = logging_in;
            is_open = true;
            is_running = true;
            incomplete_message = [];
          })
          (refl, b, c, d))
        (a, b, c, d)
  handle_trading-IsUnheard (disconnects reply) s (a, b, c, d) =
      let out = s.is_open && same_state s.state logged_in in
      let kept : out ≡ false = ground (arith, a) in
      subst
        (λ t. IsUnheard (record (if t then send_logout settings reply logout_text s else s) {
          is_open = false;
          state = disconnected;
          is_running = false;
        }))
        (sym kept) (refl, b, c, d)
  handle_trading-IsUnheard (orders reply id symbol side quantity price time) s (a, b, c, d) =
      IsUnheard-guard (same_state s.state logged_in) _ s a (a, b, c, d)
  handle_trading-IsUnheard (cancels reply orig id symbol side) s (a, b, c, d) =
      IsUnheard-guard (same_state s.state logged_in) _ s a (a, b, c, d)
  handle_trading-IsUnheard (receives bytes) s (a, b, c, d) =
      IsUnheard-if s.is_running _ s
        (split_messages-IsUnheard [] (s.incomplete_message ++ bytes) s tt (a, b, c, d)) (a, b, c, d)
  handle_trading-IsUnheard (processes reply) s (a, b, c, d) =
      IsUnheard-if s.is_running _ s
        (process_next-IsUnheard reply s.message_queue s refl (a, b, c, d)) (a, b, c, d)

  keeps_IsUnheard :
      (events : List (TradingEvent Price)) (s : TradingSession Price)
      → IsUnheard s
      → IsUnheard (run_trader settings events s)
  unfolding run_trader
  keeps_IsUnheard [] s h = h
  keeps_IsUnheard (event ∷ events) s h =
      keeps_IsUnheard events (if s.ended then s else handle_trading settings event s) (
        IsUnheard-if s.ended s (handle_trading settings event s) h
          (handle_trading-IsUnheard event s h))

  new_trading_session-IsUnheard : IsUnheard (new_trading_session {Price = Price})
  unfolding IsUnheard new_trading_session same_state
  new_trading_session-IsUnheard = (refl, refl, tt, tt)

  -- After any sequence of calls, received bytes and steps of the threads, a new session is not logged in:
  -- no order is pending, every text that it sent is a logon, and the messages that wait to be
  -- processed hold no separator.
  pub run_trader-IsUnheard :
      (events : List (TradingEvent Price))
      → IsUnheard (run_trader settings events new_trading_session)
  run_trader-IsUnheard events =
      keeps_IsUnheard events new_trading_session new_trading_session-IsUnheard
