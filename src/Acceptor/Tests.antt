-- ===== src/Acceptor/Tests.antt =====
-- A run of the acceptor of muduo/src/MainReactor.cpp, and the theorem at it.
use fast_server.Prelude.{ℕ, ◌+◌, ◌≡◌, refl, arith, List, [], ◌∷◌, ◌++◌, length, some}
use fast_server.Acceptor
use fast_server.Acceptor.{MainReactor, Acceptance, accepts, refuses, aborts}
use fast_server.Acceptor.Sublists.{IsSublist}
use fast_server.Acceptor.Turns.{descriptors, receivers, concat, loop-turns}

-- Three connections arrive at once, and later one at a time; one is aborted, and one stays.
abbrev rounds : List (List ℕ × Acceptance)
rounds = (5 ∷ 6 ∷ 7 ∷ [], accepts) ∷ (8 ∷ [], aborts) ∷ (9 ∷ [], refuses) ∷ (10 ∷ [], accepts) ∷ []

abbrev idle : MainReactor
idle = record { waiting = []; next_sub_idx = 0; handed = [] }

ran :
    Acceptor.loop 2 rounds idle
    ≡ some (record { waiting = 8 ∷ 9 ∷ 10 ∷ []; next_sub_idx = 2; handed = (0, 5) ∷ (1, 7) ∷ [] })
unfolding Acceptor.loop Acceptor.loop_round Acceptor.handle_accept Acceptor.accept_first
    Acceptor.size_of_idx
ran = refl

loop-turns_example :
    (s : MainReactor) × (Acceptor.loop 2 rounds idle ≡ some s)
    × (receivers s.handed ≡ 0 ∷ 1 ∷ [])
    × IsSublist (descriptors s.handed ++ s.waiting) (concat rounds)
    × (length (descriptors s.handed ++ s.waiting) + 1 ≡ length (concat rounds))
loop-turns_example =
    loop-turns 2 0 rounds (omega arith) ((λ e. cc), ((λ e. cc), ((λ e. cc), ((λ e. cc), tt))))
      (omega arith)
