-- ===== src/Timers.antt =====
-- muduo/src/SubReactor.cpp, the timers: `registerTimer`, `cancelTimer`, `updateNextTimer`,
-- `disableTimer` and `handleTimerEvents`. Times are nanoseconds of the steady clock, each reading
-- an argument. `timers_` is a `std::set` ordered by expiration alone: a list in that order, where an
-- equal expiration is the same element. A callback is named by a number. The sums of a time and an
-- interval are those of `int64_t` as long as they stay below 2 ^ 63; `run_register_timer` and
-- `run_timer_events` tell where they do not, which is undefined in C++.
pub mod Order
pub mod Events
pub mod Lost
pub mod Bounds
pub mod Wakeup
mod Tests
use fast_server.Prelude.{
  ℕ, ◌+◌, ◌-◌, ◌*◌, ◌^◌, Bool, true, false, not, ◌||◌, ◌&&◌, List, [], ◌∷◌, Option, none, some, map,
  leb, ltb, ◌==◌, if◌then◌else◌, add_size,
}

-- `int64_t` as a sign and a size: `negative n` is -(n + 1).
pub data Int64 : Type 0 where
  nonneg negative : ℕ → Int64

pub record TimerInfo : Type 0 where
  pub id : ℕ
  pub interval_ms : ℕ
  pub callback : ℕ
  pub recurring : Bool
  pub expiration : ℕ

-- The timers, the next id, and the time at which the timerfd fires, if it is armed.
pub record TimerState : Type 0 where
  pub timers : List TimerInfo
  pub next_timer_id : ℕ
  pub armed : Option ℕ

abbrev pub millisecond : ℕ
millisecond = 1000000

-- `std::set::insert` under `operator<`: no insertion where an equal element stands.
unfoldable pub insert : TimerInfo → List TimerInfo → List TimerInfo
insert t [] = t ∷ []
insert t (u ∷ us) =
    if ltb t.expiration u.expiration
    then t ∷ u ∷ us
    else if ltb u.expiration t.expiration
    then u ∷ insert t us
    else u ∷ us

abbrev pub insert_all : List TimerInfo → List TimerInfo → List TimerInfo
insert_all [] us = us
insert_all (t ∷ ts) us = insert_all ts (insert t us)

-- `timerfd_settime` with a zero interval: a time of zero disarms the timer, any other arms it.
abbrev pub settime : ℕ → ℕ → TimerState → TimerState
settime now ns s = record s { armed = if ns == 0 then none else some (now + ns) }

unfoldable pub disable_timer : TimerState → TimerState
disable_timer s = settime 0 0 s

-- `updateNextTimer` at the time `now`; `ns < 0` is set to 0.
unfoldable pub update_next_timer : ℕ → TimerState → TimerState
update_next_timer now s = elim s.timers [
  | [] ↦ disable_timer s
  | t ∷ ts ↦ settime now (t.expiration - now) s
]

-- Is the set's first element the one with this expiration (`it == timers_.begin()`)?
abbrev pub is_first : ℕ → List TimerInfo → Bool
is_first e [] = false
is_first e (t ∷ ts) = t.expiration == e

-- `registerTimer` with the clock read at `now` and, in `updateNextTimer`, at `now'`; `valid` for a
-- callback that is not empty. The result is the id, or -1.
unfoldable pub register_timer : ℕ → ℕ → Int64 → ℕ → Bool → Bool → TimerState → Int64 × TimerState
register_timer now now' (negative n) callback valid recurring s = (negative 0, s)
register_timer now now' (nonneg interval) callback valid recurring s =
    if interval == 0 || not valid
    then (negative 0, s)
    else let t : TimerInfo = record {
      id = s.next_timer_id;
      interval_ms = interval;
      callback = callback;
      recurring = recurring;
      expiration = now + interval * millisecond;
    } in
      let s' = record s {
        timers = insert t s.timers;
        next_timer_id = add_size s.next_timer_id 1;
      } in
      (nonneg t.id, if is_first t.expiration s'.timers then update_next_timer now' s' else s')

-- `find_if` by id.
abbrev pub has_id : ℕ → List TimerInfo → Bool
has_id i [] = false
has_id i (t ∷ ts) = t.id == i || has_id i ts

-- The set without the first timer of that id.
unfoldable pub erase_id : ℕ → List TimerInfo → List TimerInfo
erase_id i [] = []
erase_id i (t ∷ ts) = if t.id == i then ts else t ∷ erase_id i ts

abbrev pub first_has_id : ℕ → List TimerInfo → Bool
first_has_id i [] = false
first_has_id i (t ∷ ts) = t.id == i

abbrev pub is_empty : List TimerInfo → Bool
is_empty [] = true
is_empty (t ∷ ts) = false

unfoldable pub cancel_timer : ℕ → ℕ → TimerState → Bool × TimerState
cancel_timer now i s =
    if not (has_id i s.timers)
    then (false, s)
    else let s' = record s { timers = erase_id i s.timers } in
      (
        true,
        if first_has_id i s.timers && not (is_empty s'.timers)
            then update_next_timer now s'
            else if is_empty s'.timers
            then disable_timer s'
            else s',
      )

-- The loop that collects the timers due at `now`, from the front of the set, and what it leaves.
unfoldable pub expired : ℕ → List TimerInfo → List TimerInfo
expired now [] = []
expired now (t ∷ ts) = let more = expired now ts in if leb t.expiration now then t ∷ more else []

unfoldable pub remaining : ℕ → List TimerInfo → List TimerInfo
remaining now [] = []
remaining now (t ∷ ts) =
    let more = remaining now ts in if leb t.expiration now then more else t ∷ ts

-- The recurring timers among those, due again one interval from `now`.
unfoldable pub renewed : ℕ → List TimerInfo → List TimerInfo
renewed now [] = []
renewed now (t ∷ ts) =
    let more = renewed now ts in
    if t.recurring then record t { expiration = now + t.interval_ms * millisecond } ∷ more else more

-- `handleTimerEvents`, where `readable` tells whether the eight bytes of the timerfd were read. The
-- result is the callbacks that run, in order, and the state.
unfoldable pub handle_timer_events : ℕ → ℕ → Bool → TimerState → List ℕ × TimerState
handle_timer_events now now' readable s =
    if not readable
    then ([], s)
    else let due = expired now s.timers in
      let s' = record s { timers = insert_all (renewed now due) (remaining now s.timers) } in
      (
        map (λ t. t.callback) due,
        if is_empty s'.timers then disable_timer s' else update_next_timer now' s',
      )

-- Whether an interval from `now` ends at a time that an `int64_t` of nanoseconds holds.
abbrev pub fits : ℕ → ℕ → Bool
fits now interval = ltb (now + interval * millisecond) (2 ^ 63)

-- `registerTimer`; `none` where the sum overflows.
unfoldable pub run_register_timer :
    ℕ → ℕ → Int64 → ℕ → Bool → Bool → TimerState → Option (Int64 × TimerState)
run_register_timer now now' (negative n) callback valid recurring s =
    some (register_timer now now' (negative n) callback valid recurring s)
run_register_timer now now' (nonneg n) callback valid recurring s =
    if not valid || fits now n
    then some (register_timer now now' (nonneg n) callback valid recurring s)
    else none

-- Whether the sum of each recurring timer fits.
unfoldable pub all_fit : ℕ → List TimerInfo → Bool
all_fit now [] = true
all_fit now (t ∷ ts) =
    let more = all_fit now ts in (not t.recurring || fits now t.interval_ms) && more

-- `handleTimerEvents`; `none` where the sum of a recurring timer that is due overflows.
unfoldable pub run_timer_events : ℕ → ℕ → Bool → TimerState → Option (List ℕ × TimerState)
run_timer_events now now' readable s =
    if not readable || all_fit now (expired now s.timers)
    then some (handle_timer_events now now' readable s)
    else none
