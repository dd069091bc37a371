-- ===== src/Producers.antt =====
-- ihs/include/kk.hpp: `MPSCRingBuffer`, under any interleaving of its producers and its consumer. A
-- step of a thread is one access to what the threads share, and the accesses happen in one order,
-- that of the actions of a schedule; the weaker memory orders of the code are left out.
mod Tests
pub mod Slots
pub mod Ring
pub mod Held
pub mod Threads
pub mod Pushes
pub mod Pops
pub mod Order
pub mod Fifo
use Prim.Native.Nat.{bit_and}
use fast_server.Prelude.{
  ℕ, zero, suc, ◌+◌, ◌-◌, ◌^◌, Bool, true, false, List, [], ◌∷◌, ◌++◌, Option, none, some, leb,
  ◌==◌, if◌then◌else◌, add_size, sub_size,
}

-- The slots, each with a sequence number and an item, and the positions of consumer and producers.
pub record MpscRingBuffer (A : Type 0) : Type 0 where
  pub sequence : ℕ → ℕ
  pub slot_data : ℕ → A
  pub head : ℕ
  pub tail : ℕ

-- Where a thread stands in `push`, with its item and its `current_tail`: before it loads the tail,
-- before it loads the sequence number, before the exchange, before it writes the item, before it
-- writes the sequence number, and behind the call.
pub data Producer (A : Type 0) : Type 0 where
  outside : Producer A
  started : A → Producer A
  loaded compared claimed filled : A → ℕ → Producer A
  push_returned : Bool → Producer A

-- Where the consumer stands in `pop`, with its `current_head` and the item that it has read.
pub data Consumer (A : Type 0) : Type 0 where
  waiting : Consumer A
  located ready : ℕ → Consumer A
  holding released : ℕ → A → Consumer A
  pop_returned : Option A → Consumer A

-- The threads, and two histories: the items in the order of their places, and those popped.
pub record System (A : Type 0) : Type 0 where
  pub ring : MpscRingBuffer A
  pub producers : ℕ → Producer A
  pub consumer : Consumer A
  pub pushed : List A
  pub popped : List A

unfoldable pub put : {A : Type 0} → (ℕ → A) → ℕ → A → ℕ → A
put f i x j = if j == i then x else f j

abbrev pub slot_index : ℕ → ℕ → ℕ
slot_index capacity n = bit_and n (capacity - 1)

module _ {A : Type 0} where
  -- `MPSCRingBuffer()`: no thread is in a call.
  unfoldable pub create : A → System A
  create d = record {
    ring = record { sequence = λ i. i; slot_data = λ i. d; head = 0; tail = 0 };
    producers = λ i. outside;
    consumer = waiting;
    pushed = [];
    popped = [];
  }

  unfoldable pub set_producer : ℕ → Producer A → System A → System A
  set_producer i p s = record s { producers = put s.producers i p }

  -- The comparison of the sequence number with `current_tail`, as a signed difference.
  unfoldable pub look : A → ℕ → ℕ → Producer A
  look x t expected_seq =
      if expected_seq == t
      then compared x t
      else if leb (2 ^ 63) (sub_size expected_seq t)
      then push_returned false
      else started x

  -- The exchange on the tail.
  unfoldable pub exchange : ℕ → A → ℕ → System A → System A
  exchange i x t s =
      if s.ring.tail == t
      then record (set_producer i (claimed x t) s) {
        ring = record s.ring { tail = add_size t 1 };
        pushed = s.pushed ++ x ∷ [];
      }
      else set_producer i (loaded x s.ring.tail) s

  -- A thread calls `push`, when it is in no call.
  unfoldable pub begin_push : ℕ → A → Producer A → System A → System A
  begin_push i x outside s = set_producer i (started x) s
  begin_push i x (push_returned ok) s = set_producer i (started x) s
  begin_push i x p s = s

  unfoldable pub begin_pop : Consumer A → System A → System A
  begin_pop (pop_returned out) s = record s { consumer = waiting }
  begin_pop c s = s

  -- `compare_exchange_weak` may fail though the tail is as expected.
  unfoldable pub fail_exchange : ℕ → Producer A → System A → System A
  fail_exchange i (compared x t) s = set_producer i (loaded x s.ring.tail) s
  fail_exchange i p s = s

module _ {A : Type 0} (capacity : ℕ) where
  -- The next step of `push` in thread `i`.
  unfoldable pub push_step : ℕ → Producer A → System A → System A
  push_step i outside s = s
  push_step i (started x) s = set_producer i (loaded x s.ring.tail) s
  push_step i (loaded x t) s = set_producer i (look x t (s.ring.sequence (slot_index capacity t))) s
  push_step i (compared x t) s = exchange i x t s
  push_step i (claimed x t) s = record (set_producer i (filled x t) s) {
    ring = record s.ring { slot_data = put s.ring.slot_data (slot_index capacity t) x };
  }
  push_step i (filled x t) s = record (set_producer i (push_returned true) s) {
    ring = record s.ring { sequence = put s.ring.sequence (slot_index capacity t) (add_size t 1) };
  }
  push_step i (push_returned ok) s = s

  -- The next step of `pop`.
  unfoldable pub pop_step : Consumer A → System A → System A
  pop_step waiting s = record s { consumer = located s.ring.head }
  pop_step (located h) s = record s {
    consumer =
        if s.ring.sequence (slot_index capacity h) == add_size h 1
        then ready h
        else pop_returned none;
  }
  pop_step (ready h) s = record s {
    consumer = holding h (s.ring.slot_data (slot_index capacity h));
  }
  pop_step (holding h x) s = record s {
    consumer = released h x;
    ring = record s.ring {
      sequence = put s.ring.sequence (slot_index capacity h) (add_size h capacity);
    };
    popped = s.popped ++ x ∷ [];
  }
  pop_step (released h x) s = record s {
    consumer = pop_returned (some x);
    ring = record s.ring { head = add_size h 1 };
  }
  pop_step (pop_returned out) s = s

-- What happens next.
pub data Action (A : Type 0) : Type 0 where
  calls_push : ℕ → A → Action A
  pushes : ℕ → Action A
  fails_exchange : ℕ → Action A
  calls_pop pops : Action A

module _ {A : Type 0} (capacity : ℕ) where
  unfoldable pub act : Action A → System A → System A
  act (calls_push i x) s = begin_push i x (s.producers i) s
  act (pushes i) s = push_step capacity i (s.producers i) s
  act (fails_exchange i) s = fail_exchange i (s.producers i) s
  act calls_pop s = begin_pop s.consumer s
  act pops s = pop_step capacity s.consumer s

  unfoldable pub schedule : List (Action A) → System A → System A
  schedule [] s = s
  schedule (a ∷ actions) s = schedule actions (act a s)
