-- ===== src/Linked.antt =====
-- ihs/include/kk.hpp: the second `MPSCQueue`, whose nodes carry the index of the next one. A step of a
-- thread is one access to what the threads share, and the accesses happen in one order, that of the
-- actions of a schedule; the weaker memory orders of the code are left out.
mod Tests
pub mod Lost
use fast_server.Prelude.{
  ℕ, suc, ◌+◌, ◌%◌, Bool, true, false, List, [], ◌∷◌, ◌++◌, Option, none, some, ◌==◌, if◌then◌else◌,
}
use fast_server.Producers.{put}

-- The nodes, each with the next one's index and an item.
pub record MpscQueue (A : Type 0) : Type 0 where
  pub next : ℕ → ℕ
  pub node_data : ℕ → A
  pub head : ℕ
  pub tail : ℕ

-- Where a thread stands in `enqueue`, with its item, its `tail` and its `next`: before it loads the
-- tail, before it loads the next index, before the test for a full queue, before it writes the item,
-- before the exchange, before it loads the next index again, and behind the call.
pub data Enqueuer (A : Type 0) : Type 0 where
  idle : Enqueuer A
  called : A → Enqueuer A
  at_tail again : A → ℕ → Enqueuer A
  at_next with_room written : A → ℕ → ℕ → Enqueuer A
  enqueue_returned : Bool → Enqueuer A

-- Where the consumer stands in `dequeue`, with its `head` and the item it has read.
pub data Dequeuer (A : Type 0) : Type 0 where
  resting : Dequeuer A
  at_head nonempty : ℕ → Dequeuer A
  took : ℕ → A → Dequeuer A
  dequeue_returned : Option A → Dequeuer A

pub record Threads (A : Type 0) : Type 0 where
  pub queue : MpscQueue A
  pub enqueuers : ℕ → Enqueuer A
  pub dequeuer : Dequeuer A

pub data Turn (A : Type 0) : Type 0 where
  calls_enqueue : ℕ → A → Turn A
  enqueues : ℕ → Turn A
  fails : ℕ → Turn A
  calls_dequeue dequeues : Turn A

module _ {A : Type 0} where
  -- `MPSCQueue()`, with all threads outside its calls.
  unfoldable pub create : ℕ → A → Threads A
  create capacity d = record {
    queue = record { next = λ i. (i + 1) % capacity; node_data = λ i. d; head = 0; tail = 0 };
    enqueuers = λ i. idle;
    dequeuer = resting;
  }

  abbrev pub set_enqueuer : ℕ → Enqueuer A → Threads A → Threads A
  set_enqueuer i p s = record s { enqueuers = put s.enqueuers i p }

  -- The next step of `enqueue` in thread `i`.
  unfoldable pub enqueue_step : ℕ → Enqueuer A → Threads A → Threads A
  enqueue_step i idle s = s
  enqueue_step i (called x) s = set_enqueuer i (at_tail x s.queue.tail) s
  enqueue_step i (at_tail x t) s = set_enqueuer i (at_next x t (s.queue.next t)) s
  enqueue_step i (at_next x t n) s =
      set_enqueuer i (if n == s.queue.head then enqueue_returned false else with_room x t n) s
  enqueue_step i (with_room x t n) s = record (set_enqueuer i (written x t n) s) {
    queue = record s.queue { node_data = put s.queue.node_data t x };
  }
  enqueue_step i (written x t n) s =
      if s.queue.tail == t
      then record (set_enqueuer i (enqueue_returned true) s) { queue = record s.queue { tail = n } }
      else set_enqueuer i (again x s.queue.tail) s
  enqueue_step i (again x t) s = set_enqueuer i (written x t (s.queue.next t)) s
  enqueue_step i (enqueue_returned ok) s = s

  -- The next step of `dequeue`.
  unfoldable pub dequeue_step : Dequeuer A → Threads A → Threads A
  dequeue_step resting s = record s { dequeuer = at_head s.queue.head }
  dequeue_step (at_head h) s = record s {
    dequeuer = if h == s.queue.tail then dequeue_returned none else nonempty h;
  }
  dequeue_step (nonempty h) s = record s { dequeuer = took h (s.queue.node_data h) }
  dequeue_step (took h x) s = record s {
    queue = record s.queue { head = s.queue.next h };
    dequeuer = dequeue_returned (some x);
  }
  dequeue_step (dequeue_returned out) s = s

  unfoldable pub begin_enqueue : ℕ → A → Enqueuer A → Threads A → Threads A
  begin_enqueue i x idle s = set_enqueuer i (called x) s
  begin_enqueue i x (enqueue_returned ok) s = set_enqueuer i (called x) s
  begin_enqueue i x p s = s

  unfoldable pub begin_dequeue : Dequeuer A → Threads A → Threads A
  begin_dequeue (dequeue_returned out) s = record s { dequeuer = resting }
  begin_dequeue q s = s

  -- `compare_exchange_weak` may fail though the tail is as expected.
  unfoldable pub fail : ℕ → Enqueuer A → Threads A → Threads A
  fail i (written x t n) s = set_enqueuer i (again x s.queue.tail) s
  fail i p s = s

  unfoldable pub take_turn : Turn A → Threads A → Threads A
  take_turn (calls_enqueue i x) s = begin_enqueue i x (s.enqueuers i) s
  take_turn (enqueues i) s = enqueue_step i (s.enqueuers i) s
  take_turn (fails i) s = fail i (s.enqueuers i) s
  take_turn calls_dequeue s = begin_dequeue s.dequeuer s
  take_turn dequeues s = dequeue_step s.dequeuer s

  unfoldable pub take_turns : List (Turn A) → Threads A → Threads A
  take_turns [] s = s
  take_turns (t ∷ turns) s = take_turns turns (take_turn t s)
