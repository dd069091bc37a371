-- ===== src/Reactor/Events.antt =====
-- muduo/src/SubReactor.cpp: what `handleEvent` tells the program when a peer has gone.
use fast_server.Prelude.{ℕ, ◌≡◌, refl, ap, ◌∙◌, ◌++◌, true, false, List, [], ◌∷◌, none, some, arith}
use fast_server.Connection.{WriteResult, Connection}
use fast_server.Reactor.{
  Entry, SubReactor, Event, disconnected, find, erase, remove_connection, read_loop, handle_read,
  handle_hup, handle_event,
}

find-erase : (fd : ℕ) (es : List Entry) → find fd (erase fd es) ≡ none
unfolding find erase
find-erase fd [] = refl
find-erase fd (e ∷ es) = ground (arith, find-erase fd es)

-- At the end of the stream `handleRead` tells the program and removes the connection.
handle_read_end :
    (spi : Event → SubReactor → SubReactor) (fd : ℕ) (c : Connection) (s : SubReactor)
    → find fd s.connection_map ≡ some (some c)
    → handle_read spi fd [] s
      ≡ (disconnected (some c) 1 ∷ [], remove_connection fd (spi (disconnected (some c) 1) s))
unfolding handle_read read_loop
handle_read_end spi fd c s found = ground (arith, found)

handle_hup_gone :
    (spi : Event → SubReactor → SubReactor) (fd : ℕ) (s : SubReactor)
    → find fd s.connection_map ≡ none
    → (handle_hup spi fd s).0 ≡ disconnected none 2 ∷ []
unfolding handle_hup
handle_hup_gone spi fd s gone = ground (arith, gone)

-- Where a descriptor has EPOLLIN and EPOLLHUP set and nothing is left to read, `handleEvent` tells
-- the program of the end twice: first with the connection, and then, the connection being removed,
-- with the null pointer that the second look into the map inserts,
-- whatever the program's callback does.
pub handle_event_null :
    (kernel : ℕ → ℕ → ℕ → List ℕ → WriteResult) (spi : Event → SubReactor → SubReactor) (fd : ℕ)
    (c : Connection) (s : SubReactor)
    → find fd s.connection_map ≡ some (some c)
    → (t : SubReactor) × (handle_event kernel spi fd true false true [] s
        ≡ some (disconnected (some c) 1 ∷ disconnected none 2 ∷ [], t))
unfolding handle_event remove_connection
handle_event_null kernel spi fd c s found =
    let s' = remove_connection fd (spi (disconnected (some c) 1) s) in
    let gone = handle_hup_gone spi fd s' (find-erase fd _) in
    let e = handle_read_end spi fd c s found in
    (
      (handle_hup spi fd s').1,
      ap (λ p. some (p.0 ++ (handle_hup spi fd p.1).0, (handle_hup spi fd p.1).1)) e
          ∙ ap (λ xs. some (disconnected (some c) 1 ∷ xs, (handle_hup spi fd s').1)) gone,
    )
