-- ===== src/Queue/Tests.antt =====
-- Runs of the queues of ihs/include, and the theorems at concrete calls.
use fast_server.Prelude.{ℕ, ◌≡◌, refl, arith, true, false, List, [], ◌∷◌, none, some}
use fast_server.Queue.Spec.{Op, push, pop, Reply}
use fast_server.Queue.Spec
use fast_server.Queue.Modulo.{Ring, try_push, try_pop, create, create-IsValid, modulo_refines_queue}
use fast_server.Queue.Modulo
use fast_server.Queue.Masked.{masked_refines_queue}
use fast_server.Queue.Masked
use fast_server.Queue.Counter.{counter_refines_queue, pop_item, push_item}
use fast_server.Queue.Counter
use fast_server.Queue.Flagged.{Slots, IsReady, flagged_refines_queue}
use fast_server.Queue.Flagged

abbrev calls : List (Op ℕ)
calls = push 5 ∷ push 6 ∷ push 7 ∷ push 8 ∷ pop ∷ push 9 ∷ pop ∷ pop ∷ pop ∷ pop ∷ []

abbrev start : Ring ℕ
start = create 0 4

start-IsValid : Modulo.IsValid 0 4 start
start-IsValid = create-IsValid 0 4 (omega arith) (omega arith)

run-calls :
    Modulo.run 0 4 start calls
    ≡ (true, none)
      ∷ (true, none)
      ∷ (true, none)
      ∷ (false, none)
      ∷ (true, some 5)
      ∷ (true, none)
      ∷ (true, some 6)
      ∷ (true, some 7)
      ∷ (true, some 9)
      ∷ (false, none)
      ∷ []
unfolding Modulo.run create try_push try_pop
run-calls = refl

modulo_refines_queue_example :
    Modulo.run 0 4 start calls ≡ Spec.run 3 (Modulo.contents 0 4 start) calls
modulo_refines_queue_example = modulo_refines_queue 0 4 start calls start-IsValid

-- A ring whose elements lie around its end.
abbrev around : Ring ℕ
around = record { buffer = 1 ∷ 2 ∷ 3 ∷ 4 ∷ []; head = 3; tail = 1 }

around-IsValid : Modulo.IsValid 0 4 around
around-IsValid = record {
  storage = refl;
  small = omega arith;
  head_in = omega arith;
  tail_in = omega arith;
}

masked_refines_queue_example :
    Masked.run 0 4 around calls ≡ Spec.run 3 (Modulo.contents 0 4 around) calls
masked_refines_queue_example = masked_refines_queue 0 4 2 around calls (omega arith) around-IsValid

-- A ring whose counts are about to wrap around.
abbrev old : Ring ℕ
old = record {
  buffer = 1 ∷ 2 ∷ 3 ∷ 4 ∷ [];
  head = 18446744073709551614;
  tail = 18446744073709551615;
}

old-IsValid : Counter.IsValid 0 4 old
old-IsValid = record {
  storage = refl;
  room = omega arith;
  head_in = omega arith;
  tail_in = omega arith;
}

counter_refines_queue_example :
    Counter.run 0 4 old calls ≡ Spec.run 4 (Counter.contents 0 4 old) calls
counter_refines_queue_example =
    counter_refines_queue 0 4 2 (omega arith) (omega arith) old calls old-IsValid

-- The ring around its end, with the flags of its two elements.
abbrev flagged : Slots ℕ
flagged = record { ring = around; ready = true ∷ false ∷ false ∷ true ∷ [] }

flagged-IsReady : IsReady 0 4 flagged
flagged-IsReady = record { ring = around-IsValid; storage = refl; raised = (refl, (refl, tt)) }

flagged_refines_queue_example :
    Flagged.run 0 4 flagged calls ≡ Spec.run 3 (Modulo.contents 0 4 around) calls
flagged_refines_queue_example =
    flagged_refines_queue 0 4 2 (omega arith) flagged calls flagged-IsReady
