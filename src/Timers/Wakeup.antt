-- ===== src/Timers/Wakeup.antt =====
-- muduo/src/SubReactor.cpp: for when `handleTimerEvents` arms the timerfd.
use fast_server.Prelude.{
  ℕ, ◌≡◌, refl, sym, ap, ◌∙◌, true, List, [], ◌∷◌, Option, none, some, arith, ltb, if◌then◌else◌,
  Bool-cases, inl, inr,
}
use fast_server.Timers.{
  TimerInfo, TimerState, disable_timer, update_next_timer, is_empty, expired, remaining, renewed,
  insert_all, handle_timer_events,
}
use fast_server.Timers.Order.{timers-update}

-- The time to wake at for a set, where the clock reads `now`: the expiration of its first timer if
-- that is later; none for an empty set, and none for a first timer that is already due, since a
-- time of zero disarms the timerfd.
abbrev pub wake_time : ℕ → List TimerInfo → Option ℕ
wake_time now [] = none
wake_time now (t ∷ ts) = if ltb now t.expiration then some t.expiration else none

armed-update :
    (now : ℕ) (s : TimerState) (ts : List TimerInfo)
    → s.timers ≡ ts
    → (update_next_timer now s).armed ≡ wake_time now ts
unfolding update_next_timer disable_timer
armed-update now s [] e = ground arith
armed-update now s (t ∷ ts) e = ground arith

empty_wake : (now : ℕ) (ts : List TimerInfo) → is_empty ts ≡ true → wake_time now ts ≡ none
empty_wake now [] e = refl
empty_wake now (t ∷ ts) e = cc

-- After `handleTimerEvents` with a timerfd that can be read, the timerfd is armed for the
-- expiration of the first timer of the set if that lies behind the second reading of the clock.
-- It is disarmed if the set is empty, and also if the first timer is due already.
pub handle_timer_events_armed :
    (now now' : ℕ) (s : TimerState)
    → let s' = (handle_timer_events now now' true s).1 in s'.armed ≡ wake_time now' s'.timers
unfolding handle_timer_events disable_timer
handle_timer_events_armed now now' s = elim (Bool-cases (is_empty set)) [
  | inl e ↦ rw e (sym (empty_wake now' set e))
  | inr e ↦ rw e (
      armed-update now' (record s { timers = set }) set refl
      ∙ ap (wake_time now') (sym (timers-update now' (record s { timers = set }))))
]
  where
    set : List TimerInfo
    set = insert_all (renewed now (expired now s.timers)) (remaining now s.timers)
