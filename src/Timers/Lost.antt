-- ===== src/Timers/Lost.antt =====
-- muduo/src/SubReactor.cpp: timers that the set drops, because it compares expirations alone.
use fast_server.Prelude.{
  ℕ, ◌+◌, ◌*◌, ◌≤◌, ◌<◌, ◌≡◌, ◌≢◌, refl, subst, ap, ap₂, map, ◌∙◌, ◌||◌, Bool, true, false, List,
  [], ◌∷◌, arith, ◌==◌, add_size, Bool-cases, inl, inr,
}
use fast_server.Timers.{
  nonneg, TimerInfo, TimerState, millisecond, insert, insert_all, is_first, register_timer, has_id,
  expired, remaining, renewed, handle_timer_events, cancel_timer, disable_timer,
}
use fast_server.Timers.Order.{Above, IsOrdered, IsValid, Positive, insert-Above, timers-update}

abbrev pub has_expiration : ℕ → List TimerInfo → Bool
has_expiration e [] = false
has_expiration e (t ∷ ts) = t.expiration == e || has_expiration e ts

not-Above : (e n : ℕ) (ts : List TimerInfo) → Above n ts → has_expiration e ts ≡ true → n < e
not-Above e n [] a h = cc
not-Above e n (t ∷ ts) a h = ground (arith, not-Above e t.expiration ts)

insert_dropped-Above :
    (t : TimerInfo) (n : ℕ) (us : List TimerInfo)
    → Above n us
    → has_expiration t.expiration us ≡ true
    → insert t us ≡ us
unfolding insert
insert_dropped-Above t n [] a h = cc
insert_dropped-Above t n (u ∷ us) a h =
    ground (arith, insert_dropped-Above t u.expiration us, not-Above t.expiration u.expiration us)

insert_dropped :
    (t : TimerInfo) (us : List TimerInfo)
    → IsOrdered us
    → has_expiration t.expiration us ≡ true
    → insert t us ≡ us
unfolding insert
insert_dropped t [] o h = cc
insert_dropped t (u ∷ us) o h =
    ground (arith, insert_dropped-Above t u.expiration us, not-Above t.expiration u.expiration us)

-- Where a timer with the same expiration is in a valid set, `registerTimer` with a positive
-- interval and a callback returns the next id and inserts nothing: the set is what it was, and
-- the callback is lost.
register_timer_dropped :
    (now now' interval callback : ℕ) (recurring : Bool) (s : TimerState)
    → IsValid s
    → 0 < interval
    → has_expiration (now + interval * millisecond) s.timers ≡ true
    → let (id, s') = register_timer now now' (nonneg interval) callback true recurring s in
      (id ≡ nonneg s.next_timer_id) × (s'.timers ≡ s.timers)
unfolding register_timer
register_timer_dropped now now' interval callback recurring s v pos h =
    elim (Bool-cases (is_first t.expiration (insert t s.timers))) [
      | inl e ↦ ground (arith, insert_dropped t s.timers v.ordered h, timers-update now' s')
      | inr e ↦ ground (arith, insert_dropped t s.timers v.ordered h)
    ]
  where
    t : TimerInfo
    t = record {
      id = s.next_timer_id;
      interval_ms = interval;
      callback = callback;
      recurring = recurring;
      expiration = now + interval * millisecond;
    }

    s' : TimerState
    s' = record s { timers = insert t s.timers; next_timer_id = add_size s.next_timer_id 1 }

expired-nil : (now : ℕ) (ts : List TimerInfo) → Above now ts → expired now ts ≡ []
unfolding expired
expired-nil now [] a = refl
expired-nil now (t ∷ ts) a = ground arith

remaining_self : (now : ℕ) (ts : List TimerInfo) → Above now ts → remaining now ts ≡ ts
unfolding remaining
remaining_self now [] a = refl
remaining_self now (t ∷ ts) a = ground arith

has_expiration-insert :
    (t : TimerInfo) (us : List TimerInfo) → has_expiration t.expiration (insert t us) ≡ true
unfolding insert
has_expiration-insert t [] = ground arith
has_expiration-insert t (u ∷ us) = ground (arith, has_expiration-insert t us)

has_id-insert :
    (i : ℕ) (t : TimerInfo) (us : List TimerInfo)
    → t.id ≢ i
    → has_id i us ≡ false
    → has_id i (insert t us) ≡ false
unfolding insert
has_id-insert i t [] ne h = ground arith
has_id-insert i t (u ∷ us) ne h = ground (arith, has_id-insert i t us)

collected :
    (now : ℕ) (t u : TimerInfo) (rest : List TimerInfo)
    → t.expiration ≤ now
    → u.expiration ≤ now
    → Above now rest
    → (expired now (t ∷ u ∷ rest) ≡ t ∷ u ∷ []) × (remaining now (t ∷ u ∷ rest) ≡ rest)
unfolding expired remaining
collected now t u rest ht hu a = ground (arith, expired-nil now rest a, remaining_self now rest a)

again : ℕ → TimerInfo → TimerInfo
again now t = record t { expiration = now + t.interval_ms * millisecond }

renewed-pair :
    (now : ℕ) (t u : TimerInfo)
    → t.recurring ≡ true
    → u.recurring ≡ true
    → renewed now (t ∷ u ∷ []) ≡ again now t ∷ again now u ∷ []
unfolding renewed again
renewed-pair now t u ht hu = ground arith

insert_second :
    (now : ℕ) (t u : TimerInfo) (rest : List TimerInfo)
    → Above now rest
    → 0 < t.interval_ms
    → t.interval_ms ≡ u.interval_ms
    → insert_all (again now t ∷ again now u ∷ []) rest ≡ insert (again now t) rest
unfolding again
insert_second now t u rest a pos same =
    insert_dropped-Above (again now u) now (insert (again now t) rest)
      (insert-Above now (again now t) rest (omega arith) a)
      (ap (λ e. has_expiration e (insert (again now t) rest))
          (omega (arith, ap (λ n. n * 1000000) same))
        ∙ has_expiration-insert (again now t) rest)

handled_timers :
    (now now' : ℕ) (s : TimerState)
    → (handle_timer_events now now' true s).1.timers
      ≡ insert_all (renewed now (expired now s.timers)) (remaining now s.timers)
unfolding handle_timer_events disable_timer
handled_timers now now' s = ground (
  arith,
  timers-update now' (record s {
    timers = insert_all (renewed now (expired now s.timers)) (remaining now s.timers);
  }),
)

callbacks :
    (now now' : ℕ) (s : TimerState)
    → (handle_timer_events now now' true s).0 ≡ map (λ x. x.callback) (expired now s.timers)
unfolding handle_timer_events
callbacks now now' s = refl

interval_positive :
    (s : TimerState) (t u : TimerInfo) (rest : List TimerInfo)
    → IsValid s
    → s.timers ≡ t ∷ u ∷ rest
    → 0 < t.interval_ms
interval_positive s t u rest v e = (subst Positive e v.positive).0

-- Where the first two timers of a valid set are recurring ones with the same interval and
-- different ids, both are due in one run of `handleTimerEvents`, and the timers behind them are
-- due later and have other ids than the second, both callbacks run, and the second timer is not
-- in the set any more: `cancelTimer` does not find it.
pub recurring_lost :
    (now now' now'' : ℕ) (t u : TimerInfo) (rest : List TimerInfo) (s : TimerState)
    → IsValid s
    → s.timers ≡ t ∷ u ∷ rest
    → t.recurring ≡ true
    → u.recurring ≡ true
    → t.interval_ms ≡ u.interval_ms
    → t.expiration ≤ now
    → u.expiration ≤ now
    → Above now rest
    → t.id ≢ u.id
    → has_id u.id rest ≡ false
    → let (ran, s') = handle_timer_events now now' true s in
      (ran ≡ t.callback ∷ u.callback ∷ []) × ((cancel_timer now'' u.id s').0 ≡ false)
unfolding cancel_timer again
recurring_lost now now' now'' t u rest s v e rt ru same ht hu a ne fresh =
    (ran, ground (arith, absent))
  where
    both : (expired now s.timers ≡ t ∷ u ∷ []) × (remaining now s.timers ≡ rest)
    both = rw e (collected now t u rest ht hu a)

    ran : (handle_timer_events now now' true s).0 ≡ t.callback ∷ u.callback ∷ []
    ran = callbacks now now' s ∙ ap (map (λ x. x.callback)) both.0

    after : (handle_timer_events now now' true s).1.timers ≡ insert (again now t) rest
    after =
        handled_timers now now' s
        ∙ ap₂ (λ xs ys. insert_all (renewed now xs) ys) both.0 both.1
        ∙ ap (λ xs. insert_all xs rest) (renewed-pair now t u rt ru)
        ∙ insert_second now t u rest a (interval_positive s t u rest v e) same

    absent : has_id u.id (handle_timer_events now now' true s).1.timers ≡ false
    absent = ap (has_id u.id) after ∙ has_id-insert u.id (again now t) rest ne fresh
