-- ===== src/Waiting.antt =====
-- ihs/include/trade.hpp: `ConcurrentQueue`, with one thread that calls `pop` without a timeout and
-- others that call `push` and `stop`. The mutex and the condition variable are those of the C++
-- library: a wait gives the mutex back and sleeps in one step, a notification wakes a sleeper, and a
-- sleeper may also wake spuriously.
mod Tests
pub mod Asleep
use fast_server.Prelude.{
  ℕ, Bool, true, false, not, ◌||◌, List, [], ◌∷◌, ◌++◌, Option, none, some, if◌then◌else◌,
}

-- Where the thread stands in `pop`: outside, with the mutex before the test, with the mutex behind a
-- test that failed, asleep, or with the mutex behind a test that held; and what `pop` returned.
pub data Popper (A : Type 0) : Type 0 where
  outside testing unsatisfied asleep satisfied : Popper A
  returned : Option A → Popper A

pub record ConcurrentQueue (A : Type 0) : Type 0 where
  pub queue : List A
  pub running : Bool
  pub popper : Popper A

module _ {A : Type 0} where
  unfoldable pub create : ConcurrentQueue A
  create = record { queue = []; running = true; popper = outside }

  -- Whether the thread in `pop` has the mutex.
  unfoldable pub has_lock : Popper A → Bool
  has_lock outside = false
  has_lock testing = true
  has_lock unsatisfied = true
  has_lock asleep = false
  has_lock satisfied = true
  has_lock (returned out) = false

  -- `notify_one` and `notify_all`: the sleeper is to take the mutex again and to test again.
  unfoldable pub notify : Popper A → Popper A
  notify asleep = testing
  notify outside = outside
  notify testing = testing
  notify unsatisfied = unsatisfied
  notify satisfied = satisfied
  notify (returned out) = returned out

  -- `push`; while the mutex is taken nothing happens.
  unfoldable pub push : A → ConcurrentQueue A → ConcurrentQueue A
  push x q =
      if has_lock q.popper
      then q
      else if q.running
      then record q { queue = q.queue ++ x ∷ []; popper = notify q.popper }
      else q

  -- The condition that `pop` waits for.
  unfoldable pub condition : ConcurrentQueue A → Bool
  condition q = elim q.queue [ [] ↦ not q.running | x ∷ xs ↦ true ]

  -- The end of `pop`, with the mutex.
  unfoldable pub take_front : ConcurrentQueue A → ConcurrentQueue A
  take_front q =
      if q.running
      then elim q.queue [
        | [] ↦ record q { popper = returned none }
        | x ∷ xs ↦ record q { queue = xs; popper = returned (some x) }
      ]
      else record q { popper = returned none }

  -- The next step of `pop`, which takes the mutex at first.
  unfoldable pub pop_next : Popper A → ConcurrentQueue A → ConcurrentQueue A
  pop_next outside q = record q { popper = testing }
  pop_next testing q = record q { popper = if condition q then satisfied else unsatisfied }
  pop_next unsatisfied q = record q { popper = asleep }
  pop_next asleep q = q
  pop_next satisfied q = take_front q
  pop_next (returned out) q = q

  -- The two statements of `stop`, which takes no mutex.
  unfoldable pub stop_running : ConcurrentQueue A → ConcurrentQueue A
  stop_running q = record q { running = false }

  unfoldable pub stop_notify : ConcurrentQueue A → ConcurrentQueue A
  stop_notify q = record q { popper = notify q.popper }

  -- A spurious wake-up: as after a notification, but nothing was notified.
  unfoldable pub wake : ConcurrentQueue A → ConcurrentQueue A
  wake q = record q { popper = notify q.popper }

  -- A new call of `pop`.
  unfoldable pub call_pop : Popper A → ConcurrentQueue A → ConcurrentQueue A
  call_pop (returned out) q = record q { popper = outside }
  call_pop outside q = q
  call_pop testing q = q
  call_pop unsatisfied q = q
  call_pop asleep q = q
  call_pop satisfied q = q

pub data Event (A : Type 0) : Type 0 where
  pushes : A → Event A
  steps_pop calls_pop stores notifies wakes : Event A

module _ {A : Type 0} where
  unfoldable pub happen : Event A → ConcurrentQueue A → ConcurrentQueue A
  happen (pushes x) q = push x q
  happen steps_pop q = pop_next q.popper q
  happen calls_pop q = call_pop q.popper q
  happen stores q = stop_running q
  happen notifies q = stop_notify q
  happen wakes q = wake q

  unfoldable pub happens : List (Event A) → ConcurrentQueue A → ConcurrentQueue A
  happens [] q = q
  happens (e ∷ es) q = happens es (happen e q)
