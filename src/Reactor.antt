-- ===== src/Reactor.antt =====
-- muduo/src/SubReactor.cpp: the connections, the send queue and the events of a descriptor. The map of
-- connections is a list of its entries; an entry without a connection is the null pointer that
-- `operator[]` inserts. The program's callbacks are a parameter, `spi`, which may change the state,
-- and so are the kernel's answers to `read` and `write`.
pub mod Events
pub mod SendQueue
mod Tests
use fast_server.Prelude.{
  ℕ, zero, suc, ◌+◌, Bool, true, false, List, [], ◌∷◌, ◌++◌, Option, none, some, ◌==◌,
  if◌then◌else◌, reverse,
}
use fast_server.Buffer.{create, initial_capacity}
use fast_server.Connection.{WriteResult, Connection, send_buffered_data}

pub record Entry : Type 0 where
  pub fd : ℕ
  pub connection : Option Connection

pub record SubReactor : Type 0 where
  pub connection_map : List Entry
  pub new_connections : List ℕ
  pub send_queue : List ℕ

unfoldable pub find : ℕ → List Entry → Option (Option Connection)
find fd [] = none
find fd (e ∷ es) = if e.fd == fd then some e.connection else find fd es

unfoldable pub assign : ℕ → Option Connection → List Entry → List Entry
assign fd c [] = record { fd = fd; connection = c } ∷ []
assign fd c (e ∷ es) = if e.fd == fd then record e { connection = c } ∷ es else e ∷ assign fd c es

unfoldable pub erase : ℕ → List Entry → List Entry
erase fd [] = []
erase fd (e ∷ es) = let more = erase fd es in if e.fd == fd then more else e ∷ more

-- `connectionMap_[fd]` as it is read.
abbrev pub index : ℕ → List Entry → Option Connection × List Entry
index fd es = elim (find fd es) [ none ↦ (none, assign fd none es) | some c ↦ (c, es) ]

unfoldable pub enqueue_new_connection : ℕ → SubReactor → SubReactor
enqueue_new_connection fd s = record s { new_connections = s.new_connections ++ fd ∷ [] }

unfoldable pub enqueue_send : ℕ → SubReactor → SubReactor
enqueue_send fd s = record s { send_queue = s.send_queue ++ fd ∷ [] }

unfoldable pub remove_connection : ℕ → SubReactor → SubReactor
remove_connection fd s = record s { connection_map = erase fd s.connection_map }

-- What the reactor tells the program.
pub data Event : Type 0 where
  accepted : Option Connection → Event
  message : Option Connection → List ℕ → Event
  disconnected : Option Connection → ℕ → Event

-- `Connection(FdWrapper, SubReactor*)`
abbrev pub new_connection : Connection
new_connection = record {
  send_buffer = create initial_capacity;
  try_close = false;
  closed = false;
  reading = true;
  removed = false;
  queued = 0;
}

module _ (spi : Event → SubReactor → SubReactor) where
  -- The loop of `processNewConnections`, over the descriptors from the last one on.
  unfoldable pub accept_all : List ℕ → SubReactor → List Event × SubReactor
  accept_all [] s = ([], s)
  accept_all (fd ∷ fds) s =
      let s' = record s { connection_map = assign fd (some new_connection) s.connection_map } in
      let e = accepted (some new_connection) in
      let (events, s'') = accept_all fds (spi e s') in (e ∷ events, s'')

  unfoldable pub process_new_connections : SubReactor → List Event × SubReactor
  process_new_connections s =
      accept_all (reverse s.new_connections) (record s { new_connections = [] })

  -- The loop of `handleRead` over the chunks that `read` returns before a result that is not positive.
  unfoldable pub read_loop :
      Option Connection → List (List ℕ) → SubReactor → List Event × SubReactor
  read_loop c [] s = ([], s)
  read_loop c (chunk ∷ chunks) s =
      let (events, s') = read_loop c chunks (spi (message c chunk) s) in
      (message c chunk ∷ events, s')

  abbrev pub is_none : List (List ℕ) → Bool
  is_none [] = true
  is_none (x ∷ xs) = false

  unfoldable pub handle_read : ℕ → List (List ℕ) → SubReactor → List Event × SubReactor
  handle_read fd chunks s = elim (find fd s.connection_map) [
    | none ↦ ([], s)
    | some c ↦
        let (events, s') = read_loop c chunks s in
        if is_none chunks
        then (let (c', es) = index fd s'.connection_map in
            let e = disconnected c' 1 in
            (events ++ e ∷ [], remove_connection fd (spi e (record s' { connection_map = es }))))
        else (events, s')
  ]

  unfoldable pub handle_hup : ℕ → SubReactor → List Event × SubReactor
  handle_hup fd s =
      let (c, es) = index fd s.connection_map in
      let e = disconnected c 2 in
      (e ∷ [], remove_connection fd (spi e (record s { connection_map = es })))

-- `handleWrite`: the bytes that the kernel took, and the state; `none` without fuel.
unfoldable pub handle_write :
    (ℕ → List ℕ → WriteResult) → ℕ → SubReactor → Option (List ℕ × SubReactor)
handle_write kernel fd s = elim (find fd s.connection_map) [
  | none ↦ some ([], s)
  | some none ↦ none
  | some (some c) ↦ (elim (send_buffered_data kernel 0 c) [
    | none ↦ none
    | some (out, c') ↦
        some (out, record s { connection_map = assign fd (some c') s.connection_map })
  ])
]

-- A write to the socket of a descriptor.
pub record Written : Type 0 where
  pub fd : ℕ
  pub bytes : List ℕ

module _ (kernel : ℕ → ℕ → ℕ → List ℕ → WriteResult) where
  -- The loop of `processSendQueue`; `kernel i fd` answers in its `i`-th round.
  unfoldable pub write_all : ℕ → List ℕ → SubReactor → Option (List Written × SubReactor)
  write_all i [] s = some ([], s)
  write_all i (fd ∷ fds) s = elim (handle_write (kernel i fd) fd s) [
    | none ↦ none
    | some (out, s') ↦ (elim (write_all (i + 1) fds s') [
      | none ↦ none
      | some (outs, s'') ↦ some (record { fd = fd; bytes = out } ∷ outs, s'')
    ])
  ]

  unfoldable pub process_send_queue : SubReactor → Option (List Written × SubReactor)
  process_send_queue s = write_all 0 (reverse s.send_queue) (record s { send_queue = [] })

  -- `handleEvent` of a connection's descriptor, with the events that are set and what `read` returns.
  unfoldable pub handle_event :
      (Event → SubReactor → SubReactor)
      → ℕ
      → Bool
      → Bool
      → Bool
      → List (List ℕ)
      → SubReactor
      → Option (List Event × SubReactor)
  handle_event spi fd readable writable hung_up chunks s =
      let (events, s') = if readable then handle_read spi fd chunks s else ([], s) in
      elim (if writable then handle_write (kernel 0 fd) fd s' else some ([], s')) [
        | none ↦ none
        | some (out, s'') ↦
            (let (more, t) = if hung_up then handle_hup spi fd s'' else ([], s'') in
              some (events ++ more, t))
      ]
