-- ===== src/Timers/Order.antt =====
-- muduo/src/SubReactor.cpp: the order of `timers_`.
use fast_server.Prelude.{
  ℕ, ◌+◌, ◌*◌, ◌≤◌, ◌<◌, ◌≡◌, sym, subst, Bool, true, false, List, [], ◌∷◌, arith, ◌==◌, ◌||◌, not,
  add_size, Bool-cases, inl, inr,
}
use fast_server.Timers.{
  Int64, nonneg, negative, TimerInfo, TimerState, millisecond, insert, insert_all, is_first,
  is_empty, disable_timer, update_next_timer, register_timer, erase_id, cancel_timer, expired,
  remaining, renewed, handle_timer_events,
}

-- Expirations rise strictly along the list, from above `n` on.
abbrev pub Above : ℕ → List TimerInfo → Type 0
Above n [] = Unit {0}
Above n (t ∷ ts) = (n < t.expiration) × Above t.expiration ts

-- The order of the whole set.
abbrev pub IsOrdered : List TimerInfo → Type 0
IsOrdered [] = Unit {0}
IsOrdered (t ∷ ts) = Above t.expiration ts

pub Above-mono : (m n : ℕ) (ts : List TimerInfo) → m ≤ n → Above n ts → Above m ts
Above-mono m n [] h a = tt
Above-mono m n (t ∷ ts) h a = (omega arith, a.1)

pub Above-IsOrdered : (n : ℕ) (ts : List TimerInfo) → Above n ts → IsOrdered ts
Above-IsOrdered n [] a = tt
Above-IsOrdered n (t ∷ ts) a = a.1

pub insert-Above :
    (n : ℕ) (t : TimerInfo) (us : List TimerInfo)
    → n < t.expiration
    → Above n us
    → Above n (insert t us)
unfolding insert
insert-Above n t [] h a = (h, tt)
insert-Above n t (u ∷ us) h a = ground (arith, insert-Above u.expiration t us)

pub insert-IsOrdered :
    (t : TimerInfo) (us : List TimerInfo) → IsOrdered us → IsOrdered (insert t us)
unfolding insert
insert-IsOrdered t [] o = tt
insert-IsOrdered t (u ∷ us) o = ground (arith, insert-Above u.expiration t us)

pub erase_id-Above : (n i : ℕ) (ts : List TimerInfo) → Above n ts → Above n (erase_id i ts)
unfolding erase_id
erase_id-Above n i [] a = tt
erase_id-Above n i (t ∷ ts) a =
    ground (arith, erase_id-Above t.expiration i ts, Above-mono n t.expiration ts)

erase_id-IsOrdered : (i : ℕ) (ts : List TimerInfo) → IsOrdered ts → IsOrdered (erase_id i ts)
unfolding erase_id
erase_id-IsOrdered i [] o = tt
erase_id-IsOrdered i (t ∷ ts) o =
    ground (arith, erase_id-Above t.expiration i ts, Above-IsOrdered t.expiration ts)

-- What the collecting loop leaves is due after `now`.
pub remaining-Above : (now : ℕ) (ts : List TimerInfo) → IsOrdered ts → Above now (remaining now ts)
unfolding remaining
remaining-Above now [] o = tt
remaining-Above now (t ∷ ts) o =
    ground (arith, remaining-Above now ts, Above-IsOrdered t.expiration ts)

-- Every interval in the set is positive, as `registerTimer` demands.
abbrev pub Positive : List TimerInfo → Type 0
Positive [] = Unit {0}
Positive (t ∷ ts) = (0 < t.interval_ms) × Positive ts

pub renewed-Above :
    (now : ℕ) (ts us : List TimerInfo)
    → Positive ts
    → Above now us
    → Above now (insert_all (renewed now ts) us)
unfolding renewed
renewed-Above now [] us p a = a
renewed-Above now (t ∷ ts) us (pos, p) a = ground (
  arith,
  renewed-Above now ts (insert again us) p (insert-Above now again us (omega arith) a),
  renewed-Above now ts us p a,
)
  where
    again : TimerInfo
    again = record t { expiration = now + t.interval_ms * millisecond }

insert-Positive :
    (t : TimerInfo) (us : List TimerInfo) → 0 < t.interval_ms → Positive us → Positive (insert t us)
unfolding insert
insert-Positive t [] h p = (h, tt)
insert-Positive t (u ∷ us) h p = ground (arith, insert-Positive t us)

erase_id-Positive : (i : ℕ) (ts : List TimerInfo) → Positive ts → Positive (erase_id i ts)
unfolding erase_id
erase_id-Positive i [] p = tt
erase_id-Positive i (t ∷ ts) p = ground (arith, erase_id-Positive i ts)

pub expired-Positive : (now : ℕ) (ts : List TimerInfo) → Positive ts → Positive (expired now ts)
unfolding expired
expired-Positive now [] p = tt
expired-Positive now (t ∷ ts) p = ground (arith, expired-Positive now ts)

remaining-Positive : (now : ℕ) (ts : List TimerInfo) → Positive ts → Positive (remaining now ts)
unfolding remaining
remaining-Positive now [] p = tt
remaining-Positive now (t ∷ ts) p = ground (arith, remaining-Positive now ts)

renewed-Positive :
    (now : ℕ) (ts us : List TimerInfo)
    → Positive ts
    → Positive us
    → Positive (insert_all (renewed now ts) us)
unfolding renewed
renewed-Positive now [] us p q = q
renewed-Positive now (t ∷ ts) us (pos, p) q = ground (
  arith,
  renewed-Positive now ts (insert again us) p (insert-Positive again us pos q),
  renewed-Positive now ts us p q,
)
  where
    again : TimerInfo
    again = record t { expiration = now + t.interval_ms * millisecond }

-- The set is in strict order of expiration, and every interval in it is positive.
pub record IsValid (s : TimerState) : Type 0 where
  pub ordered : IsOrdered s.timers
  pub positive : Positive s.timers

pub timers-update : (now : ℕ) (s : TimerState) → (update_next_timer now s).timers ≡ s.timers
unfolding update_next_timer disable_timer
timers-update now s = ground arith

settled : (now : ℕ) (s : TimerState) → IsValid s → IsValid (update_next_timer now s)
settled now s v = record {
  ordered = rw (timers-update now s) v.ordered;
  positive = rw (timers-update now s) v.positive;
}

-- `registerTimer` keeps a valid set valid, whether it refuses the timer, drops or inserts it.
register_timer-IsValid :
    (now now' callback : ℕ) (interval : Int64) (valid recurring : Bool) (s : TimerState)
    → IsValid s
    → IsValid (register_timer now now' interval callback valid recurring s).1
unfolding register_timer
register_timer-IsValid now now' callback (negative n) valid recurring s v = v
register_timer-IsValid now now' callback (nonneg n) valid recurring s v =
    elim (Bool-cases (n == 0 || not valid)) [
      | inl e ↦ rw e v
      | inr e ↦ elim (Bool-cases (is_first t.expiration (insert t s.timers))) [
        | inl f ↦ rw (e, f) (settled now' s' (kept e))
        | inr f ↦ rw (e, f) (kept e)
      ]
    ]
  where
    t : TimerInfo
    t = record {
      id = s.next_timer_id;
      interval_ms = n;
      callback = callback;
      recurring = recurring;
      expiration = now + n * millisecond;
    }

    s' : TimerState
    s' = record s { timers = insert t s.timers; next_timer_id = add_size s.next_timer_id 1 }

    kept : (n == 0 || not valid) ≡ false → IsValid s'
    kept e = record {
      ordered = insert-IsOrdered t s.timers v.ordered;
      positive = insert-Positive t s.timers (ground arith) v.positive;
    }

-- `cancelTimer` keeps a valid set valid.
cancel_timer-IsValid : (now i : ℕ) (s : TimerState) → IsValid s → IsValid (cancel_timer now i s).1
unfolding cancel_timer disable_timer update_next_timer
cancel_timer-IsValid now i s v =
    ground (arith, erase_id-IsOrdered i s.timers v.ordered, erase_id-Positive i s.timers v.positive)

-- On a valid set and a timerfd that can be read, `handleTimerEvents` leaves a valid set in which
-- every timer is due later than its reading of the clock, sums being unbounded.
pub handle_timer_events_future :
    (now now' : ℕ) (s : TimerState)
    → IsValid s
    → let s' = (handle_timer_events now now' true s).1 in IsValid s' × Above now s'.timers
unfolding handle_timer_events disable_timer
handle_timer_events_future now now' s v = elim (Bool-cases (is_empty set)) [
  | inl e ↦ rw e (record { ordered = all.ordered; positive = all.positive }, later)
  | inr e ↦ rw e (settled now' s' all, subst (Above now) (sym (timers-update now' s')) later)
]
  where
    due : List TimerInfo
    due = expired now s.timers

    set : List TimerInfo
    set = insert_all (renewed now due) (remaining now s.timers)

    s' : TimerState
    s' = record s { timers = set }

    later : Above now set
    later =
        renewed-Above now due (remaining now s.timers) (expired-Positive now s.timers v.positive)
          (remaining-Above now s.timers v.ordered)

    all : IsValid s'
    all = record {
      ordered = Above-IsOrdered now set later;
      positive =
          renewed-Positive now due (remaining now s.timers)
            (expired-Positive now s.timers v.positive) (remaining-Positive now s.timers v.positive);
    }
