-- ===== src/Session/Turns.antt =====
-- ihs/src/fix42.cpp: what each call and each step of the threads does to the number that comes next
-- and to what was sent.
use fast_server.Prelude.{
  ℕ, ◌+◌, ◌%◌, ◌^◌, Bool, true, false, ◌&&◌, List, [], ◌∷◌, ◌++◌, ◌≡◌, inl, inr, refl, ap, sym, ◌∙◌,
  Bool-cases, arith, if◌then◌else◌, Option, none, some,
}
use fast_server.Fix.{decimal}
use fast_server.Parser.{ℤ, pos, same_int, find}
use fast_server.Session.Wire.{Message, below_tag, put_field, value_of, print_int, serialize}
use fast_server.Session.Codes
use fast_server.Session.{
  Environment, FixSession, get_next_sender_msg_seq_num, base_fields, send_message, send_new, logon,
  logout, order_fields, send_limit_order, cancel_order, send_heartbeat,
  set_on_execution_report_handler, set_on_cancel_reject_handler,
}
use fast_server.Session.Receive.{
  connect, stop_heartbeat_timer, lose_connection, disconnecting, disconnect, Event, connects,
  disconnects, logs_on, logs_out, orders, cancels, sets_execution_report_handler,
  sets_cancel_reject_handler, receives, loses, beats, handle,
}
use fast_server.Session.Silent.{receive_silent}
use fast_server.Session.Fields.{find-put_ne}

-- What one call does to the number that comes next and to what was sent.
pub data Turn {Price : Type 0} (s t : FixSession Price) : Type 0 where
  keeps : t.sender_msg_seq_num ≡ s.sender_msg_seq_num → t.sent ≡ s.sent → Turn s t
  skips : t.sender_msg_seq_num ≡ (s.sender_msg_seq_num + 1) % 2 ^ 32 → t.sent ≡ s.sent → Turn s t
  sends :
      (m : Message × List ℕ)
      → value_of (pos 34) m.0.fields ≡ decimal s.sender_msg_seq_num
      → t.sender_msg_seq_num ≡ (s.sender_msg_seq_num + 1) % 2 ^ 32
      → t.sent ≡ s.sent ++ m ∷ []
      → Turn s t

module _ {Price : Type 0} where
  Turn-if :
      (b : Bool) (s x y : FixSession Price) → Turn s x → Turn s y → Turn s (if b then x else y)
  Turn-if true s x y h k = h
  Turn-if false s x y h k = k

  -- The other fields do not matter.
  Turn-map :
      (s s2 t t2 : FixSession Price)
      → s2.sender_msg_seq_num ≡ s.sender_msg_seq_num
      → s2.sent ≡ s.sent
      → t2.sender_msg_seq_num ≡ t.sender_msg_seq_num
      → t2.sent ≡ t.sent
      → Turn s2 t2
      → Turn s t
  Turn-map s s2 t t2 a b c d (keeps e f) = keeps (sym c ∙ e ∙ a) (sym d ∙ f ∙ b)
  Turn-map s s2 t t2 a b c d (skips e f) =
      skips (sym c ∙ e ∙ ap (λ n. (n + 1) % 2 ^ 32) a) (sym d ∙ f ∙ b)
  Turn-map s s2 t t2 a b c d (sends m g e f) =
      sends m (g ∙ ap (λ n. decimal n) a) (sym c ∙ e ∙ ap (λ n. (n + 1) % 2 ^ 32) a)
        (sym d ∙ f ∙ ap (λ ms. ms ++ m ∷ []) b)

value_of-put_ne :
    (u : ℤ) (v : List ℕ) (fields : List (ℤ × List ℕ))
    → same_int u (pos 34) ≡ false
    → value_of (pos 34) (put_field u v fields) ≡ value_of (pos 34) fields
unfolding value_of
value_of-put_ne u v fields h =
    let t = pos 34 in
    ap (λ (o : Option (List ℕ)). elim o [ none ↦ [] | some value ↦ value ])
      (find-put_ne t u v fields h)

module _ {Price : Type 0} (env : Environment Price) where
  value_of-base :
      (number : ℕ) (type : Codes.MessageType)
      → value_of (pos 34) (base_fields env number type) ≡ decimal number
  unfolding value_of put_field base_fields find same_int below_tag
  value_of-base number type = refl

  send_new-Turn :
      (type : Codes.MessageType) (more : ℕ → List (ℤ × List ℕ) → List (ℤ × List ℕ))
      (s : FixSession Price)
      → ((n : ℕ) (fields : List (ℤ × List ℕ))
          → value_of (pos 34) (more n fields) ≡ value_of (pos 34) fields)
      → Turn s (send_new env type more s).1
  unfolding send_new send_message get_next_sender_msg_seq_num
  send_new-Turn type more s h =
      let number = s.sender_msg_seq_num in
      let msg : Message = record {
        fields = more number (base_fields env number type);
        raw_data = [];
      } in
      elim (Bool-cases (s.is_connected && (env.answers number).sends)) [
        | inl e ↦
            sends (msg, serialize msg)
              (h number (base_fields env number type) ∙ value_of-base number type)
              (ground (arith, e)) (ground (arith, e))
        | inr e ↦ skips (ground (arith, e)) (ground (arith, e))
      ]

  logout-Turn : (reason : List ℕ) (s : FixSession Price) → Turn s (logout env reason s)
  unfolding logout same_int
  logout-Turn [] s =
      Turn-if (s.is_connected && s.is_logged_on) s _ s
        (send_new-Turn Codes.logout (λ number fields. fields) s (λ n fields. refl))
        (keeps refl refl)
  logout-Turn (c ∷ cs) s =
      Turn-if (s.is_connected && s.is_logged_on) s _ s
        (send_new-Turn Codes.logout (λ number fields. put_field (pos 58) (c ∷ cs) fields) s
          (λ n fields. value_of-put_ne (pos 58) (c ∷ cs) fields refl))
        (keeps refl refl)

  send_heartbeat-Turn :
      (text : List ℕ) (s : FixSession Price)
      → Turn s (elim text [
        | [] ↦ (send_new env Codes.heartbeat (λ number fields. fields) s).1
        | c ∷ cs ↦
            (send_new env Codes.heartbeat
              (λ number fields. put_field (pos 112) (c ∷ cs) fields)
              (record s { last_test_request_id = [] })).1
      ])
  unfolding same_int
  send_heartbeat-Turn [] s =
      send_new-Turn Codes.heartbeat (λ number fields. fields) s (λ n fields. refl)
  send_heartbeat-Turn (c ∷ cs) s =
      Turn-map s (record s { last_test_request_id = [] }) _ _ refl refl refl refl
        (send_new-Turn Codes.heartbeat (λ number fields. put_field (pos 112) (c ∷ cs) fields)
          (record s { last_test_request_id = [] })
          (λ n fields. value_of-put_ne (pos 112) (c ∷ cs) fields refl))

  logon-Turn : (given : Bool) (s : FixSession Price) → Turn s (logon env given s)
  unfolding logon same_int
  logon-Turn given s =
      let s2 = record s { has_logon_handler = given } in
      Turn-if s.is_connected s _ _
        (Turn-map s s2 _ _ refl refl refl refl (
          send_new-Turn Codes.logon
            (λ number fields.
              put_field (pos 141) (89 ∷ [])
                (put_field (pos 108) (print_int env.heartbt_int) fields))
            s2
            (λ n fields. value_of-put_ne (pos 141) _ _ refl ∙ value_of-put_ne (pos 108) _ _ refl)))
        (Turn-if given s _ s (keeps refl refl) (keeps refl refl))

  send_limit_order-Turn :
      (symbol : List ℕ) (side : Codes.Side) (price : Price) (quantity : ℤ)
      (time : Codes.TimeInForce) (s : FixSession Price)
      → Turn s (send_limit_order env symbol side price quantity time s).1
  unfolding send_limit_order same_int
  send_limit_order-Turn symbol side price quantity time s =
      let id = 79 ∷ 82 ∷ 68 ∷ decimal (env.answers s.sender_msg_seq_num).ticks in
      let more = λ (number : ℕ) (fields : List (ℤ × List ℕ)).
        order_fields env id symbol side price quantity time fields in
      let t = (send_new env Codes.new_order_single more s).1 in
      let ready = s.is_connected && s.is_logged_on in
      Turn-map s s (send_limit_order env symbol side price quantity time s).1
        (if ready then t else s) refl refl (ground arith) (ground arith)
        (Turn-if ready s t s
          (send_new-Turn Codes.new_order_single more s (λ n fields.
            value_of-put_ne (pos 59) _ _ refl
            ∙ value_of-put_ne (pos 38) _ _ refl
            ∙ value_of-put_ne (pos 44) _ _ refl
            ∙ value_of-put_ne (pos 40) _ _ refl
            ∙ value_of-put_ne (pos 54) _ _ refl
            ∙ value_of-put_ne (pos 55) _ _ refl
            ∙ value_of-put_ne (pos 11) _ _ refl))
          (keeps refl refl))

  cancel_order-Turn :
      (order_id symbol : List ℕ) (side : Codes.Side) (price : Price) (s : FixSession Price)
      → Turn s (cancel_order env order_id symbol side price s)
  unfolding cancel_order same_int
  cancel_order-Turn order_id symbol side price s =
      Turn-if (s.is_connected && s.is_logged_on) s _ s
        (send_new-Turn Codes.order_cancel_request _ s (λ n fields.
          value_of-put_ne (pos 44) _ _ refl
          ∙ value_of-put_ne (pos 54) _ _ refl
          ∙ value_of-put_ne (pos 55) _ _ refl
          ∙ value_of-put_ne (pos 11) _ _ refl
          ∙ value_of-put_ne (pos 41) _ _ refl))
        (keeps refl refl)

  pub handle-Turn : (event : Event Price) (s : FixSession Price) → Turn s (handle env event s)
  unfolding handle connect stop_heartbeat_timer lose_connection disconnect logon logout
      send_limit_order cancel_order send_heartbeat set_on_execution_report_handler
      set_on_cancel_reject_handler
  handle-Turn (connects succeeds) s = keeps (ground arith) (ground arith)
  handle-Turn (disconnects recv_fails) s =
      let s2 = if s.is_logged_on then logout env disconnecting s else s in
      Turn-map s s (disconnect env recv_fails s) (if s.is_connected then s2 else s) refl refl
        (ground arith) (ground arith)
        (Turn-if s.is_connected s s2 s
          (Turn-if s.is_logged_on s (logout env disconnecting s) s (logout-Turn disconnecting s)
            (keeps refl refl))
          (keeps refl refl))
  handle-Turn (logs_on given) s = logon-Turn given s
  handle-Turn (logs_out reason) s = logout-Turn reason s
  handle-Turn (orders symbol side price quantity time) s =
      send_limit_order-Turn symbol side price quantity time s
  handle-Turn (cancels order_id symbol side price) s =
      cancel_order-Turn order_id symbol side price s
  handle-Turn (sets_execution_report_handler given) s = keeps refl refl
  handle-Turn (sets_cancel_reject_handler given) s = keeps refl refl
  handle-Turn (receives bytes) s =
      keeps (ap (λ t. t.sender_msg_seq_num) (receive_silent env bytes s))
        (ap (λ t. t.sent) (receive_silent env bytes s))
  handle-Turn loses s = keeps (ground arith) (ground arith)
  handle-Turn beats s =
      Turn-if s.heartbeat_running s _ s
        (Turn-if (s.is_connected && s.is_logged_on) s _ s
          (send_heartbeat-Turn s.last_test_request_id s) (keeps refl refl))
        (keeps refl refl)
