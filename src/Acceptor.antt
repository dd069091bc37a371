-- ===== src/Acceptor.antt =====
-- muduo/src/MainReactor.cpp and the loop of muduo/include/Reactor.hpp: connections are accepted and handed
-- to the sub reactors in turn. A connection is its descriptor. The listening socket is registered
-- edge-triggered: epoll reports it once for all connections that arrived since the last report, and a
-- round of the loop is given by those connections and by what `accept` does.
mod Tests
pub mod Sublists
pub mod Turns
use fast_server.Prelude.{
  ℕ, suc, ◌+◌, ◌-◌, ◌%◌, ◌^◌, List, [], ◌∷◌, ◌++◌, Option, none, some, ltb, ◌==◌, if◌then◌else◌,
}

-- The connections that wait at the listening socket, `next_sub_idx_` as its 32 bits, and the
-- connections handed over, each with the index of its sub reactor.
pub record MainReactor : Type 0 where
  pub waiting : List ℕ
  pub next_sub_idx : ℕ
  pub handed : List (ℕ × ℕ)

-- `next_sub_idx_` as a `size_t`.
unfoldable pub size_of_idx : ℕ → ℕ
size_of_idx i = if ltb i (2 ^ 31) then i else i + (2 ^ 64 - 2 ^ 32)

-- What `accept` does while connections wait: it takes the first one; it fails and leaves it, for want
-- of descriptors say; or it fails and the first one is gone, since it was aborted.
pub data Acceptance : Type 0 where
  accepts refuses aborts : Acceptance

-- `handleAccept`. With nobody waiting `accept` fails. `none` is the remainder by a number of sub
-- reactors that is 0, which is undefined in C++.
unfoldable pub accept_first : ℕ → Acceptance → List ℕ → MainReactor → Option MainReactor
accept_first sub_reactors answer [] r = some r
accept_first sub_reactors refuses (fd ∷ rest) r = some r
accept_first sub_reactors aborts (fd ∷ rest) r = some (record r { waiting = rest })
accept_first sub_reactors accepts (fd ∷ rest) r =
    if sub_reactors == 0
    then none
    else some (record {
      waiting = rest;
      next_sub_idx = (r.next_sub_idx + 1) % 2 ^ 32;
      handed = r.handed ++ (size_of_idx r.next_sub_idx % sub_reactors, fd) ∷ [];
    })

unfoldable pub handle_accept : ℕ → Acceptance → MainReactor → Option MainReactor
handle_accept sub_reactors answer r = accept_first sub_reactors answer r.waiting r

-- A round of `loop` in which connections arrived; without any there is no event.
unfoldable pub loop_round : ℕ → List ℕ × Acceptance → MainReactor → Option MainReactor
loop_round sub_reactors ([], answer) r = some r
loop_round sub_reactors (fd ∷ fds, answer) r =
    handle_accept sub_reactors answer (record r { waiting = r.waiting ++ fd ∷ fds })

unfoldable pub loop : ℕ → List (List ℕ × Acceptance) → MainReactor → Option MainReactor
loop sub_reactors [] r = some r
loop sub_reactors (round ∷ rounds) r = elim (loop_round sub_reactors round r) [
  | none ↦ none
  | some s ↦ loop sub_reactors rounds s
]
