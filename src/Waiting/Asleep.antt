-- ===== src/Waiting/Asleep.antt =====
-- ihs/include/trade.hpp: `ConcurrentQueue::stop` at the moment before `pop` falls asleep.
use fast_server.Prelude.{◌≡◌, refl, ◌∙◌, ap, arith, false, All, List, [], ◌∷◌, ◌++◌}
use fast_server.Waiting
use fast_server.Waiting.{
  ConcurrentQueue, Popper, Event, pushes, steps_pop, calls_pop, stores, notifies, wakes, asleep,
  outside, testing, unsatisfied, satisfied, returned,
}

-- What may happen later: anything but another notification of `stop` and a spurious wake-up.
abbrev pub IsQuiet : {A : Type 0} → Event A → Type 0
IsQuiet notifies = ⊥
IsQuiet wakes = ⊥
IsQuiet (pushes x) = Unit
IsQuiet steps_pop = Unit
IsQuiet calls_pop = Unit
IsQuiet stores = Unit

abbrev pub AllQuiet : {A : Type 0} → List (Event A) → Type 0
AllQuiet es = All IsQuiet es

-- While the thread has the mutex behind a test that failed, the queue is empty.
IsUnsatisfied : {A : Type 0} → ConcurrentQueue A → Type 0
IsUnsatisfied q = q.popper ≡ unsatisfied → q.queue ≡ []

create-IsUnsatisfied : (A : Type 0) → IsUnsatisfied (Waiting.create {A = A})
unfolding IsUnsatisfied Waiting.create
create-IsUnsatisfied A e = refl

module _ {A : Type 0} where
  notify-unsatisfied : (p : Popper A) → Waiting.notify p ≡ unsatisfied → p ≡ unsatisfied
  unfolding Waiting.notify
  notify-unsatisfied p e = ground (arith, e)

  push-IsUnsatisfied :
      (x : A) (q : ConcurrentQueue A) → IsUnsatisfied q → IsUnsatisfied (Waiting.push x q)
  unfolding IsUnsatisfied Waiting.push Waiting.has_lock Waiting.notify
  push-IsUnsatisfied x q h e = ground (arith, h, e)

  pop_next-IsUnsatisfied :
      (q : ConcurrentQueue A) → IsUnsatisfied q → IsUnsatisfied (Waiting.pop_next q.popper q)
  unfolding IsUnsatisfied Waiting.pop_next Waiting.take_front Waiting.condition
  pop_next-IsUnsatisfied q h e = ground (arith, h, e)

  happen-IsUnsatisfied :
      (e : Event A) (q : ConcurrentQueue A) → IsUnsatisfied q → IsUnsatisfied (Waiting.happen e q)
  unfolding Waiting.happen IsUnsatisfied Waiting.call_pop Waiting.stop_running Waiting.stop_notify
      Waiting.wake
  happen-IsUnsatisfied (pushes x) q h = push-IsUnsatisfied x q h
  happen-IsUnsatisfied steps_pop q h = pop_next-IsUnsatisfied q h
  happen-IsUnsatisfied calls_pop q h = λ e. ground (arith, h, e)
  happen-IsUnsatisfied stores q h = h
  happen-IsUnsatisfied notifies q h = λ e. h (notify-unsatisfied q.popper e)
  happen-IsUnsatisfied wakes q h = λ e. h (notify-unsatisfied q.popper e)

  happens-IsUnsatisfied :
      (es : List (Event A)) (q : ConcurrentQueue A)
      → IsUnsatisfied q
      → IsUnsatisfied (Waiting.happens es q)
  unfolding Waiting.happens
  happens-IsUnsatisfied [] q h = h
  happens-IsUnsatisfied (e ∷ es) q h =
      happens-IsUnsatisfied es (Waiting.happen e q) (happen-IsUnsatisfied e q h)

  happens-append :
      (es more : List (Event A)) (q : ConcurrentQueue A)
      → Waiting.happens (es ++ more) q ≡ Waiting.happens more (Waiting.happens es q)
  unfolding Waiting.happens
  happens-append [] more q = refl
  happens-append (e ∷ es) more q = happens-append es more (Waiting.happen e q)

  abbrev pub lost : ConcurrentQueue A
  lost = record { queue = []; running = false; popper = asleep }

  stays : (e : Event A) → IsQuiet e → Waiting.happen e lost ≡ lost
  unfolding Waiting.happen Waiting.push Waiting.pop_next Waiting.call_pop Waiting.stop_running
      Waiting.has_lock
  stays (pushes x) h = refl
  stays steps_pop h = refl
  stays calls_pop h = refl
  stays stores h = refl
  stays notifies h = absurd h
  stays wakes h = absurd h

  happens-stays : (es : List (Event A)) → AllQuiet es → Waiting.happens es lost ≡ lost
  unfolding Waiting.happens
  happens-stays [] h = refl
  happens-stays (e ∷ es) (q, h) = ap (Waiting.happens es) (stays e q) ∙ happens-stays es h

  falls_asleep :
      (q : ConcurrentQueue A)
      → q.popper ≡ unsatisfied
      → q.queue ≡ []
      → Waiting.happens (stores ∷ notifies ∷ steps_pop ∷ []) q ≡ lost
  unfolding Waiting.happens Waiting.happen Waiting.pop_next Waiting.stop_running Waiting.stop_notify
      Waiting.notify
  falls_asleep q at empty = ground (arith, at, empty)

  -- After any history of a queue that leaves `pop` behind a failed test, still with the mutex: when
  -- `stop` runs as a whole before `pop` goes to sleep, the thread in `pop` is asleep and stays so,
  -- whatever is pushed and whatever steps follow, short of another notification by `stop` and of a
  -- spurious wake-up, and the queue stays empty.
  pub happens_asleep :
      (before es : List (Event A))
      → (Waiting.happens before Waiting.create).popper ≡ unsatisfied
      → AllQuiet es
      → Waiting.happens (before ++ stores ∷ notifies ∷ steps_pop ∷ es) Waiting.create ≡ lost
  unfolding IsUnsatisfied
  happens_asleep before es at quiet =
      let q = Waiting.happens before Waiting.create in
      let empty = happens-IsUnsatisfied before Waiting.create (create-IsUnsatisfied A) at in
      happens-append before (stores ∷ notifies ∷ steps_pop ∷ es) Waiting.create
      ∙ happens-append (stores ∷ notifies ∷ steps_pop ∷ []) es q
      ∙ ap (Waiting.happens es) (falls_asleep q at empty)
      ∙ happens-stays es quiet
