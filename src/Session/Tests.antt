-- ===== src/Session/Tests.antt =====
-- Runs of the sessions of ihs/src/fix42.cpp on small inputs.
use fast_server.Prelude.{
  ℕ, true, false, All, List, [], ◌∷◌, ◌++◌, ◌≡◌, none, some, refl, arith, length,
}
use fast_server.Fix.{decimal_onto, decimal, sum_bytes}
use fast_server.Parser.{pos, find, same_int}
use fast_server.Parser.Stream.{search, starts_with, checksum_text}
use fast_server.Session.Wire.{
  Message, print_int, serialize, serialize_body, serialize_header, session_checksum, deserialize,
  validate_message,
}
use fast_server.Session.Codes
use fast_server.Session.{Environment, FixSession, new_session, send_limit_order}
use fast_server.Session.Receive.{
  disconnects, connect, Event, connects, logs_on, receives, beats, loses, run_session, handle,
}
use fast_server.Session.Logons.{IsSilent, run_session-IsSilent}
use fast_server.Session.Fields.{IsMap, IsText}
use fast_server.Session.Framed.{sent_field}
use fast_server.Session.RoundTrip.{deserialize-serialize, validate_message-serialize}
use fast_server.Session.Numbers.{IsNumbered, run_session-IsNumbered}
use fast_server.Session.Reconnect.{IsIdle, reconnect_terminated}

-- The session `AB` with the session `X`; prices are whole numbers.
abbrev example : Environment ℕ
example = record {
  sender_comp_id = 65 ∷ 66 ∷ [];
  target_comp_id = 88 ∷ [];
  heartbt_int = pos 30;
  answers = λ n. record { time_text = 49 ∷ []; millis = 7; ticks = 5; sends = true };
  zero_price = 0;
  stod = λ text. none;
  price_text = decimal;
}

abbrev connected : FixSession ℕ
connected = record new_session { is_connected = true; joinable = true }

-- The logon of the session at the other end.
abbrev answer : Message
answer = record {
  fields =
      (pos 34, 49 ∷ [])
      ∷ (pos 35, 65 ∷ [])
      ∷ (pos 49, 88 ∷ [])
      ∷ (pos 52, 50 ∷ [])
      ∷ (pos 56, 65 ∷ 66 ∷ [])
      ∷ [];
  raw_data = [];
}

abbrev reached : List (Event ℕ)
reached = connects true ∷ logs_on true ∷ receives (serialize answer) ∷ beats ∷ []

run_session-IsSilent_example :
    IsSilent (run_session example reached new_session)
    × (send_limit_order example
          (65 ∷ [])
          Codes.buy
          9
          (pos 3)
          Codes.day
          (run_session example reached new_session)
        ≡ ([], run_session example reached new_session))
run_session-IsSilent_example =
    run_session-IsSilent example reached (65 ∷ []) Codes.buy 9 (pos 3) Codes.day

answer-IsMap : IsMap answer.fields
unfolding IsMap find same_int
answer-IsMap = (refl, (refl, (refl, (refl, (refl, tt)))))

answer-IsText : IsText answer.fields
unfolding IsText
answer-IsText = (
  omega arith,
  (ground arith, tt),
  (
    omega arith,
    (ground arith, tt),
    (
      omega arith,
      (ground arith, tt),
      (omega arith, (ground arith, tt), (omega arith, (ground arith, (ground arith, tt)), tt)),
    ),
  ),
)

deserialize-serialize_example :
    ((deserialize (serialize answer)).0 ≡ true)
    × (find (pos 56) (deserialize (serialize answer)).1.fields ≡ sent_field answer (pos 56))
deserialize-serialize_example = deserialize-serialize answer (pos 56) answer-IsMap answer-IsText

search-answer :
    search checksum_text (serialize answer)
    ≡ some (length (serialize_header (serialize_body answer.fields)))
unfolding search starts_with serialize serialize_header serialize_body session_checksum print_int
    same_int sum_bytes decimal_onto
search-answer = refl

validate_message-serialize_example :
    validate_message (65 ∷ 66 ∷ []) (88 ∷ []) (deserialize (serialize answer)).1 ≡ true
unfolding find same_int
validate_message-serialize_example =
    validate_message-serialize (65 ∷ 66 ∷ []) (88 ∷ []) (65 ∷ []) (49 ∷ []) (50 ∷ []) answer
      answer-IsMap answer-IsText refl refl refl refl refl search-answer

run_session-IsNumbered_example :
    IsNumbered 0
      (run_session example reached new_session).sender_msg_seq_num
      (run_session example reached new_session).sent
run_session-IsNumbered_example = run_session-IsNumbered example reached (omega arith)

abbrev between : List (Event ℕ)
between = disconnects true ∷ logs_on true ∷ connects false ∷ []

between-IsIdle : All IsIdle between
unfolding IsIdle
between-IsIdle = (tt, (tt, (tt, tt)))

reconnect_terminated_example :
    (run_session example
      ((connects true ∷ []) ++ loses ∷ (between ++ connects true ∷ []))
      new_session).terminated
    ≡ true
unfolding run_session handle connect new_session
reconnect_terminated_example =
    reconnect_terminated example (connects true ∷ []) between refl between-IsIdle
