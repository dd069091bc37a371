-- ===== src/Timers/Bounds.antt =====
-- muduo/src/SubReactor.cpp: the timers within the bounds of `int64_t`.
use fast_server.Prelude.{
  ℕ, ◌+◌, ◌*◌, ◌^◌, ◌<◌, ◌≡◌, refl, arith, true, List, [], ◌∷◌, All, some, Bool-cases, inl, inr,
}
use fast_server.Timers.{
  TimerInfo, TimerState, millisecond, insert, insert_all, expired, remaining, renewed, all_fit,
  disable_timer, update_next_timer, handle_timer_events, run_timer_events,
}
use fast_server.Timers.Order.{IsValid, Above, handle_timer_events_future}

-- The timer, when it recurs at `now`, is due again before 2 ^ 63.
abbrev pub Fits : ℕ → TimerInfo → Type 0
Fits now t = t.recurring ≡ true → now + t.interval_ms * millisecond < 2 ^ 63

abbrev pub IsInt64 : TimerInfo → Type 0
IsInt64 t = t.expiration < 2 ^ 63

expired-fit :
    (now : ℕ) (ts : List TimerInfo) → All (Fits now) ts → all_fit now (expired now ts) ≡ true
unfolding expired all_fit
expired-fit now [] f = refl
expired-fit now (t ∷ ts) (h, f) = ground (arith, h, expired-fit now ts f)

expired-Fits : (now : ℕ) (ts : List TimerInfo) → All (Fits now) ts → All (Fits now) (expired now ts)
unfolding expired
expired-Fits now [] f = tt
expired-Fits now (t ∷ ts) (h, f) = ground (arith, h, expired-Fits now ts f)

remaining-IsInt64 :
    (now : ℕ) (ts : List TimerInfo) → All IsInt64 ts → All IsInt64 (remaining now ts)
unfolding remaining
remaining-IsInt64 now [] f = tt
remaining-IsInt64 now (t ∷ ts) (h, f) = ground (arith, h, f, remaining-IsInt64 now ts f)

insert-IsInt64 :
    (t : TimerInfo) (ts : List TimerInfo) → IsInt64 t → All IsInt64 ts → All IsInt64 (insert t ts)
unfolding insert
insert-IsInt64 t [] h f = (h, tt)
insert-IsInt64 t (u ∷ us) h (g, f) = ground (arith, h, g, f, insert-IsInt64 t us h f)

renewed-IsInt64 :
    (now : ℕ) (ts us : List TimerInfo)
    → All (Fits now) ts
    → All IsInt64 us
    → All IsInt64 (insert_all (renewed now ts) us)
unfolding renewed
renewed-IsInt64 now [] us f g = g
renewed-IsInt64 now (t ∷ ts) us (h, f) g = elim (Bool-cases t.recurring) [
  | inr e ↦ ground (arith, e, renewed-IsInt64 now ts us f g)
  | inl e ↦
      ground
        (arith, e, renewed-IsInt64 now ts (insert again us) f (insert-IsInt64 again us (h e) g))
]
  where
    again : TimerInfo
    again = record t { expiration = now + t.interval_ms * millisecond }

handle_timer_events-IsInt64 :
    (now now' : ℕ) (s : TimerState)
    → All (Fits now) s.timers
    → All IsInt64 s.timers
    → All IsInt64 (handle_timer_events now now' true s).1.timers
unfolding handle_timer_events disable_timer update_next_timer
handle_timer_events-IsInt64 now now' s f g =
    let kept =
      renewed-IsInt64 now (expired now s.timers) (remaining now s.timers)
        (expired-Fits now s.timers f) (remaining-IsInt64 now s.timers g) in
    ground (arith, kept)

-- On a valid set whose times are below 2 ^ 63 nanoseconds and whose recurring timers have intervals
-- that end below 2 ^ 63 when they start at this reading of the clock, and a timerfd that can be
-- read: no sum of `handleTimerEvents` overflows, and it leaves a valid set in which every timer is
-- due later than that reading, at a time below 2 ^ 63.
pub run_timer_events_future :
    (now now' : ℕ) (s : TimerState)
    → IsValid s
    → All IsInt64 s.timers
    → All (Fits now) s.timers
    → let out = handle_timer_events now now' true s in
      (run_timer_events now now' true s ≡ some out)
      × IsValid out.1
      × Above now out.1.timers
      × All IsInt64 out.1.timers
unfolding run_timer_events
run_timer_events_future now now' s v g f =
    let future = handle_timer_events_future now now' s v in
    (
      ground (arith, expired-fit now s.timers f),
      future.0,
      future.1,
      handle_timer_events-IsInt64 now now' s f g,
    )
