-- ===== src/Timers/Events.antt =====
-- muduo/src/SubReactor.cpp: which callbacks `handleTimerEvents` runs.
use fast_server.Prelude.{ℕ, ◌≤◌, ◌≡◌, refl, true, List, [], ◌∷◌, ◌++◌, map, arith, All}
use fast_server.Timers.{TimerInfo, TimerState, expired, remaining, handle_timer_events}
use fast_server.Timers.Order.{Above, IsValid, remaining-Above}

abbrev pub IsDue : ℕ → TimerInfo → Type 0
IsDue now t = t.expiration ≤ now

expired-IsDue : (now : ℕ) (ts : List TimerInfo) → All (IsDue now) (expired now ts)
unfolding expired
expired-IsDue now [] = tt
expired-IsDue now (t ∷ ts) = ground (arith, expired-IsDue now ts)

expired-append-remaining : (now : ℕ) (ts : List TimerInfo) → expired now ts ++ remaining now ts ≡ ts
unfolding expired remaining
expired-append-remaining now [] = refl
expired-append-remaining now (t ∷ ts) = ground (arith, expired-append-remaining now ts)

-- On a valid set and a timerfd that can be read, `handleTimerEvents` runs the callbacks of a
-- front part of the set, in the order of the set: every timer of that part is due at the reading
-- of the clock, and every timer behind it is due later.
pub handle_timer_events_runs :
    (now now' : ℕ) (s : TimerState)
    → IsValid s
    → (due : List TimerInfo) × (later : List TimerInfo) × (due ++ later ≡ s.timers)
      × All (IsDue now) due
      × Above now later
      × ((handle_timer_events now now' true s).0 ≡ map (λ t. t.callback) due)
unfolding handle_timer_events
handle_timer_events_runs now now' s v = (
  expired now s.timers,
  remaining now s.timers,
  expired-append-remaining now s.timers,
  expired-IsDue now s.timers,
  remaining-Above now s.timers v.ordered,
  refl,
)
