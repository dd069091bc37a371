-- ===== src/Pipeline.antt =====
-- ihs/src/system.cpp: the first queue of the trading program, between `MarketDataReceiver` and the
-- threads of the parser pool, whose steps are taken in any order. A step makes one access to what the
-- threads share. The memory orders are left out, and so are the flags that stop the threads.
pub mod Window
pub mod Single
pub mod Fifo
pub mod Race
mod Tests
use fast_server.Prelude.{ℕ, suc, ◌+◌, ◌%◌, ◌^◌, Bool, List, [], ◌∷◌, ◌++◌, ◌==◌, if◌then◌else◌}
use fast_server.Fix.{decimal}
use fast_server.Producers.{put}

-- `"|AAPL|150.25|100|150.30|200"`
abbrev pub quote_text : List ℕ
quote_text =
    124 ∷ 65 ∷ 65 ∷ 80 ∷ 76 ∷ 124 ∷ 49 ∷ 53 ∷ 48 ∷ 46 ∷ 50 ∷ 53 ∷ 124 ∷ 49 ∷ 48 ∷ 48 ∷ 124 ∷ 49 ∷ 53
    ∷ 48 ∷ 46 ∷ 51 ∷ 48 ∷ 124 ∷ 50 ∷ 48 ∷ 48 ∷ []

-- The data of a number: `"MD|"`, the number, the quote.
abbrev pub raw_data : ℕ → List ℕ
raw_data seq = 77 ∷ 68 ∷ 124 ∷ decimal seq ++ quote_text

-- Where `MarketDataReceiver::run` stands: before the data is made, at the test of `push`, before the
-- write to the ring, before the write of the tail.
pub data Receiver : Type 0 where
  generating : Receiver
  testing : List ℕ → Receiver
  writing : List ℕ → Receiver
  publishing : Receiver

-- Where a thread of the parser pool stands in `pop`: before it reads the head, before it compares the
-- head that it read with the tail, before it takes the item, before it writes the head.
pub data Popping : Type 0 where
  polling : Popping
  comparing : ℕ → Popping
  reading : ℕ → Popping
  storing : ℕ → List ℕ → Popping

-- `parsed` holds what the threads handed to `parse`, in the order in which they left `pop`.
pub record System : Type 0 where
  pub head : ℕ
  pub tail : ℕ
  pub ring : ℕ → List ℕ
  pub seq : ℕ
  pub receiver : Receiver
  pub parsers : ℕ → Popping
  pub parsed : List (List ℕ)

unfoldable pub new_system : System
new_system = record {
  head = 0;
  tail = 0;
  ring = λ i. [];
  seq = 0;
  receiver = generating;
  parsers = λ i. polling;
  parsed = [];
}

-- A step of a thread of the system: of the receiver, or of a parser.
pub data Action : Type 0 where
  receives : Action
  parses : ℕ → Action

-- `slots` is the template's `Size`; `moved` is what a move leaves in a string.
module _ (slots : ℕ) (moved : List ℕ → List ℕ) where
  unfoldable pub receiver_act : Receiver → System → System
  receiver_act generating s =
      let seq = (s.seq + 1) % 2 ^ 64 in record s { seq = seq; receiver = testing (raw_data seq) }
  receiver_act (testing item) s =
      if (s.tail + 1) % slots == s.head then s else record s { receiver = writing item }
  receiver_act (writing item) s = record s { ring = put s.ring s.tail item; receiver = publishing }
  receiver_act publishing s = record s { tail = (s.tail + 1) % slots; receiver = generating }

  unfoldable pub parser_act : ℕ → Popping → System → System
  parser_act i polling s = record s { parsers = put s.parsers i (comparing s.head) }
  parser_act i (comparing current_head) s = record s {
    parsers = put s.parsers i (if current_head == s.tail then polling else reading current_head);
  }
  parser_act i (reading current_head) s = record s {
    ring = put s.ring current_head (moved (s.ring current_head));
    parsers = put s.parsers i (storing current_head (s.ring current_head));
  }
  parser_act i (storing current_head item) s = record s {
    head = (current_head + 1) % slots;
    parsers = put s.parsers i polling;
    parsed = s.parsed ++ item ∷ [];
  }

  unfoldable pub system_step : Action → System → System
  system_step receives s = receiver_act s.receiver s
  system_step (parses i) s = parser_act i (s.parsers i) s

  unfoldable pub run_system : List Action → System → System
  run_system [] s = s
  run_system (a ∷ schedule) s = run_system schedule (system_step a s)
