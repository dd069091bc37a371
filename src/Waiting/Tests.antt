-- ===== src/Waiting/Tests.antt =====
-- Runs of `ConcurrentQueue` of ihs/include/trade.hpp, and the theorem at one of them.
use fast_server.Prelude.{ℕ, ◌≡◌, refl, false, List, [], ◌∷◌, ◌++◌, some, none}
use fast_server.Waiting
use fast_server.Waiting.{
  ConcurrentQueue, Event, pushes, steps_pop, calls_pop, stores, notifies, asleep, unsatisfied,
  returned,
}
use fast_server.Waiting.Asleep.{happens_asleep}

-- A thread that sleeps in `pop` is woken by a `push` and gets the item.
woken :
    (Waiting.happens {A = ℕ}
      (steps_pop ∷ steps_pop ∷ steps_pop ∷ pushes 7 ∷ steps_pop ∷ steps_pop ∷ [])
      Waiting.create).popper
    ≡ returned (some 7)
unfolding Waiting.happens Waiting.happen Waiting.create Waiting.push Waiting.has_lock
    Waiting.pop_next Waiting.notify Waiting.condition Waiting.take_front
woken = refl

-- What was pushed before `stop` is not handed over.
stopped :
    (Waiting.happens {A = ℕ}
      (pushes 7 ∷ stores ∷ notifies ∷ steps_pop ∷ steps_pop ∷ steps_pop ∷ [])
      Waiting.create).popper
    ≡ returned none
unfolding Waiting.happens Waiting.happen Waiting.create Waiting.push Waiting.has_lock
    Waiting.pop_next Waiting.notify Waiting.condition Waiting.take_front Waiting.stop_running
    Waiting.stop_notify
stopped = refl

abbrev quiet : List (Event ℕ)
quiet = pushes 7 ∷ steps_pop ∷ stores ∷ steps_pop ∷ []

-- An item came and went before.
abbrev before : List (Event ℕ)
before = pushes 5 ∷ steps_pop ∷ steps_pop ∷ steps_pop ∷ calls_pop ∷ steps_pop ∷ steps_pop ∷ []

before-unsatisfied : (Waiting.happens before Waiting.create).popper ≡ unsatisfied
unfolding Waiting.happens Waiting.happen Waiting.create Waiting.push Waiting.has_lock
    Waiting.pop_next Waiting.notify Waiting.condition Waiting.take_front Waiting.call_pop
before-unsatisfied = refl

happens_asleep_example :
    Waiting.happens (before ++ stores ∷ notifies ∷ steps_pop ∷ quiet) Waiting.create
    ≡ record { queue = []; running = false; popper = asleep }
happens_asleep_example = happens_asleep before quiet before-unsatisfied (tt, (tt, (tt, (tt, tt))))
