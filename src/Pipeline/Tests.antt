-- ===== src/Pipeline/Tests.antt =====
-- Runs of the first queue of ihs/src/system.cpp with four slots.
use fast_server.Prelude.{
  ℕ, ◌+◌, ◌*◌, ◌%◌, ◌≤◌, ◌<◌, ◌≡◌, ◌≢◌, refl, List, [], ◌∷◌, ◌++◌, arith, All, replicate,
}
use fast_server.Pipeline.{
  System, new_system, Action, receives, parses, receiver_act, system_step, run_system,
}
use fast_server.Pipeline.Window.{first_items}
use fast_server.Pipeline.Fifo.{IsFirst, run_system_fifo, run_system_drains}
use fast_server.Pipeline.Race.{overtaking, overtaking_lem}

-- A string that was moved from is empty.
abbrev emptied : List ℕ → List ℕ
emptied text = []

-- The receiver pushes one item and a half, the parser pops in between.
abbrev mixed : List Action
mixed =
    receives
    ∷ parses 0
    ∷ receives
    ∷ receives
    ∷ parses 0
    ∷ receives
    ∷ receives
    ∷ parses 0
    ∷ parses 0
    ∷ parses 0
    ∷ parses 0
    ∷ receives
    ∷ []

mixed-IsFirst : All IsFirst mixed
unfolding IsFirst
mixed-IsFirst =
    (tt, (refl, (tt, (tt, (refl, (tt, (tt, (refl, (refl, (refl, (refl, (tt, tt))))))))))))

run_system_fifo_example :
    (p : ℕ) × (q : ℕ) × ((run_system 4 emptied mixed new_system).parsed ≡ first_items q)
    × ((run_system 4 emptied mixed new_system).head ≡ q % 4)
    × ((run_system 4 emptied mixed new_system).tail ≡ p % 4)
    × (q ≤ p)
    × (p < q + 4)
run_system_fifo_example = run_system_fifo 4 emptied mixed (omega arith) mixed-IsFirst

run_system_drains_example :
    (p : ℕ) × ((run_system 4 emptied mixed new_system).tail ≡ p % 4)
    × ((run_system 4 emptied (mixed ++ replicate (4 * 4) (parses 0)) new_system).head ≡ p % 4)
    × ((run_system 4 emptied (mixed ++ replicate (4 * 4) (parses 0)) new_system).tail ≡ p % 4)
    × ((run_system 4 emptied (mixed ++ replicate (4 * 4) (parses 0)) new_system).parsed
        ≡ first_items p)
run_system_drains_example = run_system_drains 4 emptied mixed (omega arith) mixed-IsFirst

-- Four steps of the receiver push the first item.
abbrev pushed : System
pushed = run_system 4 emptied (receives ∷ receives ∷ receives ∷ receives ∷ []) new_system

pushed_apart : pushed.head ≢ pushed.tail
unfolding run_system system_step receiver_act new_system
pushed_apart e = absurd (omega (arith, e))

overtaking_lem_example :
    ((run_system 4 emptied (overtaking 0 1) pushed).parsed
      ≡ pushed.parsed ++ pushed.ring pushed.head ∷ [] ∷ [])
    × ((run_system 4 emptied (overtaking 0 1) pushed).head ≡ (pushed.head + 1) % 4)
unfolding run_system system_step receiver_act new_system
overtaking_lem_example = overtaking_lem 4 emptied 0 1 pushed (omega arith) refl refl pushed_apart
