-- ===== src/Trader/Tests.antt =====
-- Runs of the session of ihs/src/fix42_a.cpp on small inputs.
use fast_server.Prelude.{ℕ, ◌+◌, ◌≡◌, true, List, [], ◌∷◌, ◌++◌, arith, some, length}
use fast_server.Fix.{decimal_onto, decimal, three_digits, sum_bytes}
use fast_server.Parser.{pos}
use fast_server.Session.Wire.{fix_version, print_int, field_onto}
use fast_server.Trader.Wire.{message_rest, send_text, fields_onto}
use fast_server.Trader.{
  Settings, Reply, new_trading_session, TradingEvent, connects, receives, processes, orders,
  run_trader,
}
use fast_server.Trader.Framing.{padded, send_text_lem}
use fast_server.Trader.Unheard.{IsUnheard, run_trader-IsUnheard}

abbrev settings : Settings ℕ
settings = record {
  sender_comp_id = 65 ∷ [];
  target_comp_id = 66 ∷ [];
  password = 67 ∷ [];
  heartbeat_interval = pos 30;
  format_price = decimal;
}

abbrev reply : Reply
reply = record { time = 49 ∷ []; sends = true }

-- A logon's answer arrives, and is processed field by field.
abbrev happened : List (TradingEvent ℕ)
happened =
    connects true reply
    ∷ receives (field_onto (pos 8) fix_version (field_onto (pos 35) (65 ∷ []) []))
    ∷ processes reply
    ∷ processes reply
    ∷ orders reply (49 ∷ []) (73 ∷ []) 49 (pos 5) 9 49
    ∷ []

send_text_lem_example :
    let rest = message_rest 1 (65 ∷ []) (66 ∷ []) (49 ∷ []) (48 ∷ []) [] in
    let msg =
      field_onto (pos 8) fix_version (field_onto (pos 9) (padded (length rest + 15)) rest) in
    send_text 1 (65 ∷ []) (66 ∷ []) (49 ∷ []) (48 ∷ []) []
    ≡ some (msg ++ field_onto (pos 10) (three_digits (sum_bytes msg)) [])
unfolding print_int decimal_onto fields_onto
send_text_lem_example = send_text_lem 1 (65 ∷ []) (66 ∷ []) (49 ∷ []) (48 ∷ []) [] (omega arith)

run_trader-IsUnheard_example : IsUnheard settings (run_trader settings happened new_trading_session)
run_trader-IsUnheard_example = run_trader-IsUnheard settings happened
