-- ===== src/Timers/Tests.antt =====
-- Runs of the timers of muduo/src/SubReactor.cpp, and the theorems at concrete timers.
use fast_server.Prelude.{◌≡◌, refl, arith, true, false, List, [], ◌∷◌, ◌++◌, some, All, map}
use fast_server.Timers.{
  TimerInfo, TimerState, insert, cancel_timer, update_next_timer, expired, remaining, renewed,
  handle_timer_events, run_timer_events,
}
use fast_server.Timers.Order.{IsValid, Above}
use fast_server.Timers.Bounds.{IsInt64, run_timer_events_future}
use fast_server.Timers.Events.{IsDue, handle_timer_events_runs}
use fast_server.Timers.Lost.{recurring_lost}
use fast_server.Timers.Wakeup.{wake_time, handle_timer_events_armed}

-- Two recurring timers of 5 ms, due at 10 and 20 ns, and one that is due in a second.
abbrev first : TimerInfo
first = record { id = 1; interval_ms = 5; callback = 11; recurring = true; expiration = 10 }

abbrev second : TimerInfo
second = record { id = 2; interval_ms = 5; callback = 22; recurring = true; expiration = 20 }

abbrev third : TimerInfo
third = record {
  id = 3;
  interval_ms = 1000;
  callback = 33;
  recurring = false;
  expiration = 1000000000;
}

abbrev state : TimerState
state = record { timers = first ∷ second ∷ third ∷ []; next_timer_id = 4; armed = some 10 }

state-IsValid : IsValid state
state-IsValid = record {
  ordered = (omega arith, (omega arith, tt));
  positive = (omega arith, (omega arith, (omega arith, tt)));
}

ran : (handle_timer_events 30 40 true state).0 ≡ 11 ∷ 22 ∷ []
unfolding handle_timer_events expired remaining renewed insert update_next_timer
ran = refl

run_timer_events_future_example :
    (run_timer_events 30 40 true state ≡ some (handle_timer_events 30 40 true state))
    × IsValid (handle_timer_events 30 40 true state).1
    × Above 30 (handle_timer_events 30 40 true state).1.timers
    × All IsInt64 (handle_timer_events 30 40 true state).1.timers
run_timer_events_future_example =
    run_timer_events_future 30 40 state state-IsValid
      (omega arith, (omega arith, (omega arith, tt)))
      ((λ e. omega arith), ((λ e. omega arith), ((λ e. omega arith), tt)))

handle_timer_events_runs_example :
    (due : List TimerInfo) × (later : List TimerInfo) × (due ++ later ≡ state.timers)
    × All (IsDue 30) due
    × Above 30 later
    × ((handle_timer_events 30 40 true state).0 ≡ map (λ t. t.callback) due)
handle_timer_events_runs_example = handle_timer_events_runs 30 40 state state-IsValid

recurring_lost_example :
    ((handle_timer_events 30 40 true state).0 ≡ 11 ∷ 22 ∷ [])
    × ((cancel_timer 50 2 (handle_timer_events 30 40 true state).1).0 ≡ false)
recurring_lost_example =
    recurring_lost 30 40 50 first second (third ∷ []) state state-IsValid refl refl refl refl
      (omega arith) (omega arith) (omega arith, tt) (omega arith) refl

handle_timer_events_armed_example :
    (handle_timer_events 30 40 true state).1.armed
    ≡ wake_time 40 (handle_timer_events 30 40 true state).1.timers
handle_timer_events_armed_example = handle_timer_events_armed 30 40 state
