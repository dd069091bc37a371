-- ===== src/Session/Codes.antt =====
-- ihs/src/fix42.cpp and ihs/include/fix42.hpp: the enumerations of `FIX42Protocol` and their characters.
use fast_server.Prelude.{ℕ, List, [], ◌∷◌, if◌then◌else◌}
use fast_server.Session.Wire.{same_text}

-- `unknown` is the cast of -1.
pub data MessageType : Type 0 where
  logon logout heartbeat test_request resend_request reject sequence_reset : MessageType
  new_order_single order_cancel_request execution_report order_cancel_reject unknown : MessageType

pub data Side : Type 0 where
  buy sell : Side

pub data OrdType : Type 0 where
  market limit : OrdType

pub data TimeInForce : Type 0 where
  day immediate_or_cancel fill_or_kill : TimeInForce

pub data ExecType : Type 0 where
  new_order partial_fill fill cancelled rejected unknown_exec : ExecType

unfoldable pub message_type_to_string : MessageType → List ℕ
message_type_to_string logon = 65 ∷ []
message_type_to_string logout = 53 ∷ []
message_type_to_string heartbeat = 48 ∷ []
message_type_to_string test_request = 49 ∷ []
message_type_to_string resend_request = 50 ∷ []
message_type_to_string reject = 51 ∷ []
message_type_to_string sequence_reset = 52 ∷ []
message_type_to_string new_order_single = 68 ∷ []
message_type_to_string order_cancel_request = 70 ∷ []
message_type_to_string execution_report = 56 ∷ []
message_type_to_string order_cancel_reject = 57 ∷ []
message_type_to_string unknown = []

unfoldable pub side_to_string : Side → List ℕ
side_to_string buy = 49 ∷ []
side_to_string sell = 50 ∷ []

unfoldable pub ord_type_to_string : OrdType → List ℕ
ord_type_to_string market = 49 ∷ []
ord_type_to_string limit = 50 ∷ []

unfoldable pub time_in_force_to_string : TimeInForce → List ℕ
time_in_force_to_string day = 48 ∷ []
time_in_force_to_string immediate_or_cancel = 51 ∷ []
time_in_force_to_string fill_or_kill = 52 ∷ []

unfoldable pub string_to_message_type : List ℕ → MessageType
string_to_message_type str =
    if same_text str (65 ∷ [])
    then logon
    else if same_text str (53 ∷ [])
    then logout
    else if same_text str (48 ∷ [])
    then heartbeat
    else if same_text str (49 ∷ [])
    then test_request
    else if same_text str (50 ∷ [])
    then resend_request
    else if same_text str (51 ∷ [])
    then reject
    else if same_text str (52 ∷ [])
    then sequence_reset
    else if same_text str (68 ∷ [])
    then new_order_single
    else if same_text str (70 ∷ [])
    then order_cancel_request
    else if same_text str (56 ∷ [])
    then execution_report
    else if same_text str (57 ∷ [])
    then order_cancel_reject
    else unknown

unfoldable pub string_to_exec_type : List ℕ → ExecType
string_to_exec_type str =
    if same_text str (48 ∷ [])
    then new_order
    else if same_text str (49 ∷ [])
    then partial_fill
    else if same_text str (50 ∷ [])
    then fill
    else if same_text str (52 ∷ [])
    then cancelled
    else if same_text str (56 ∷ [])
    then rejected
    else unknown_exec
