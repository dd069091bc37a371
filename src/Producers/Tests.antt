-- ===== src/Producers/Tests.antt =====
-- Runs of `MPSCRingBuffer` of ihs/include/kk.hpp with two producers, and the theorem at one of them.

use fast_server.Prelude.{ℕ, ◌+◌, ◌^◌, ◌≤◌, ◌≡◌, refl, arith, List, [], ◌∷◌, length, take}
use fast_server.Producers
use fast_server.Producers.{Action, System, calls_push, pushes, fails_exchange, calls_pop, pops}
use fast_server.Producers.Fifo.{schedule_fifo}

-- Both producers see the same free place; the second one gets it, and the first one the next place,
-- which it fills first. The consumer finds its place empty, and then filled.
abbrev crossing : List (Action ℕ)
crossing =
    calls_push 0 7
    ∷ calls_push 1 8
    ∷ pushes 0
    ∷ pushes 1
    ∷ pushes 0
    ∷ pushes 1
    ∷ fails_exchange 1
    ∷ pushes 1
    ∷ pushes 1
    ∷ pushes 0
    ∷ pushes 0
    ∷ pushes 0
    ∷ pushes 0
    ∷ pushes 0
    ∷ pops
    ∷ pops
    ∷ calls_pop
    ∷ pushes 1
    ∷ pushes 1
    ∷ pops
    ∷ pops
    ∷ pops
    ∷ pops
    ∷ pops
    ∷ []

abbrev crossed : System ℕ
crossed = Producers.schedule 4 crossing (Producers.create 0)

crossed-popped : crossed.popped ≡ 8 ∷ []
unfolding Producers.schedule Producers.act Producers.create Producers.begin_push Producers.begin_pop
    Producers.push_step Producers.pop_step Producers.set_producer Producers.exchange Producers.look
    Producers.fail_exchange Producers.put
crossed-popped = refl

schedule_fifo_example :
    (crossed.popped ≡ take (length crossed.popped) crossed.pushed)
    × (length crossed.popped ≤ length crossed.pushed)
    × (length crossed.pushed ≤ length crossed.popped + 2 ^ 2)
schedule_fifo_example = schedule_fifo 2 0 crossing (omega arith) (omega arith) (omega arith)
