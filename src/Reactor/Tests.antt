-- ===== src/Reactor/Tests.antt =====
-- Runs of muduo/src/SubReactor.cpp on one connection, and the theorems there.
use fast_server.Prelude.{
  ℕ, ◌≡◌, refl, sym, ap, ◌∙◌, subst, arith, true, false, List, [], ◌∷◌, ◌++◌, some, none, length,
  ◌==◌, Bool-cases, inl, inr, some-injective, if◌then◌else◌,
}
use fast_server.Buffer.{create, write}
use fast_server.Buffer.Content.{IsValid, create-IsValid, write_lem}
use fast_server.Connection.{WriteResult, wrote, would_block, errored, Connection}
use fast_server.Connection.Stream.{TakesNoMore}
use fast_server.Reactor.{
  SubReactor, Event, disconnected, Written, find, handle_event, process_send_queue,
}
use fast_server.Reactor.Events.{handle_event_null}
use fast_server.Reactor.SendQueue.{IsLive, pending, taken, process_send_queue_lem}

-- A kernel that takes all it is given.
abbrev kernel : ℕ → ℕ → ℕ → List ℕ → WriteResult
kernel i fd k bytes = wrote (length bytes)

abbrev taken_by : WriteResult → ℕ
taken_by (wrote n) = n
taken_by would_block = 0
taken_by errored = 0

kernel_takes : (j fd : ℕ) → TakesNoMore (kernel j fd)
kernel_takes j fd k n bytes e = omega (arith, ap taken_by e)

abbrev connection : Connection
connection = record {
  send_buffer = write (1 ∷ 2 ∷ 3 ∷ []) (create 8);
  try_close = false;
  closed = false;
  reading = true;
  removed = false;
  queued = 2;
}

abbrev reactor : SubReactor
reactor = record {
  connection_map = record { fd = 5; connection = some connection } ∷ [];
  new_connections = [];
  send_queue = 5 ∷ 9 ∷ 5 ∷ [];
}

connection-IsValid : IsValid connection.send_buffer
unfolding create
connection-IsValid =
    (write_lem (1 ∷ 2 ∷ 3 ∷ []) (create 8) (create-IsValid 8 (omega arith)) (omega arith)).0

reactor-IsLive : IsLive reactor
unfolding find
reactor-IsLive = record {
  present = λ fd e. ground (arith, e);
  valid = λ fd c e. elim (Bool-cases (5 == fd)) [
    | inl q ↦
        let same : some (some connection) ≡ some (some c) =
          sym (ap (λ t. if t then some (some connection) else none) q) ∙ e in
        subst (λ x. IsValid x.send_buffer)
          (some-injective connection c (some-injective (some connection) (some c) same))
          connection-IsValid
    | inr q ↦ ground (arith, q, e)
  ];
}

process_send_queue_lem_example :
    (outs : List Written) × (s' : SubReactor) × (process_send_queue kernel reactor
      ≡ some (outs, s'))
    × IsLive s'
    × ((fd : ℕ) → taken fd outs ++ pending fd s' ≡ pending fd reactor)
process_send_queue_lem_example = process_send_queue_lem kernel reactor kernel_takes reactor-IsLive

abbrev idle : Event → SubReactor → SubReactor
idle e s = s

found : find 5 reactor.connection_map ≡ some (some connection)
unfolding find
found = refl

handle_event_null_example :
    (t : SubReactor) × (handle_event kernel idle 5 true false true [] reactor
      ≡ some (disconnected (some connection) 1 ∷ disconnected none 2 ∷ [], t))
handle_event_null_example = handle_event_null kernel idle 5 connection reactor found
