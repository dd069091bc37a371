-- ===== src/Packets.antt =====
-- ihs/src/what.cpp: the packet buffers between the receiving loop and the worker threads. A buffer is
-- a number. A step is one call of the memory pool, which holds a mutex, or of `recvfrom`, whose outcome
-- is given with the step, or one access of `push` or `pop` to what the threads share: each reads the
-- other side's index, then a slot of the ring is written or read, then its own index is stored. The
-- accesses are taken to happen in one order, though `tail` is not atomic.
mod Tests
pub mod Weights
pub mod Accesses
pub mod Valid
pub mod WorkerMoves
pub mod Moves
pub mod Conserved
use fast_server.Prelude.{
  ℕ, zero, suc, ◌+◌, ◌%◌, Bool, true, false, List, [], ◌∷◌, ◌++◌, Option, none, some, ltb,
  if◌then◌else◌, length, get_or, set, ◌==◌, add_size,
}
use fast_server.Queue.Modulo.{Ring}
use fast_server.Queue.Modulo
use fast_server.Producers.{put}

pub record MemoryPool : Type 0 where
  pub free_list : List ℕ

unfoldable pub buffers_below : ℕ → List ℕ
buffers_below zero = []
buffers_below (suc n) = buffers_below n ++ n ∷ []

-- `MemoryPool(size)`
abbrev pub new_pool : ℕ → MemoryPool
new_pool n = record { free_list = buffers_below n }

unfoldable pub acquire : MemoryPool → Option ℕ × MemoryPool
acquire p = elim p.free_list [ [] ↦ (none, p) | b ∷ rest ↦ (some b, record { free_list = rest }) ]

unfoldable pub release : ℕ → MemoryPool → MemoryPool
release b p = record { free_list = p.free_list ++ b ∷ [] }

unfoldable pub available : MemoryPool → ℕ
available p = length p.free_list

-- Where the receiving loop stands: before it takes a buffer, before `recvfrom`, and in `push` before
-- the test, before the slot is written, and before the tail is stored.
pub data Receiver : Type 0 where
  polling : Receiver
  receiving dispatching filling publishing : ℕ → Receiver

-- Where a worker stands: before the test of `pop`, before it reads the slot, before it stores the
-- head, and with a packet.
pub data Worker : Type 0 where
  idle reading : Worker
  moving busy : ℕ → Worker

-- What `recvfrom` does.
pub data Received : Type 0 where
  packet would_block failed : Received

pub record Program : Type 0 where
  pub pool : MemoryPool
  pub receiver : Receiver
  pub queues : ℕ → Ring ℕ
  pub workers : ℕ → Worker
  pub worker_index : ℕ

-- Without a free buffer the packet is dropped.
unfoldable pub acquired : Option ℕ × MemoryPool → Program → Program
acquired (none, pool) s = s
acquired (some b, pool) s = record s { pool = pool; receiver = receiving b }

-- The accesses of `SPSCQueue::push` and `pop`.
module _ (queue_size : ℕ) where
  abbrev pub ring_full : Ring ℕ → Bool
  ring_full r = add_size r.tail 1 % queue_size == r.head

  unfoldable pub put_item : ℕ → Ring ℕ → Ring ℕ
  put_item b r = record r { buffer = set r.buffer r.tail b }

  unfoldable pub store_tail : Ring ℕ → Ring ℕ
  store_tail r = record r { tail = add_size r.tail 1 % queue_size }

  abbrev pub ring_empty : Ring ℕ → Bool
  ring_empty r = r.head == r.tail

  unfoldable pub front_item : Ring ℕ → ℕ
  front_item r = get_or r.buffer r.head 0

  unfoldable pub store_head : Ring ℕ → Ring ℕ
  store_head r = record r { head = add_size r.head 1 % queue_size }

module _ (queue_size worker_threads : ℕ) where
  unfoldable pub start : ℕ → Program
  start n = record {
    pool = new_pool n;
    receiver = polling;
    queues = λ i. Modulo.create 0 queue_size;
    workers = λ i. idle;
    worker_index = 0;
  }

  abbrev pub next_worker : ℕ → ℕ
  next_worker i = (i + 1) % worker_threads

  -- The next step of the receiving loop. A full queue is passed over for the next worker's.
  unfoldable pub receive_step : Received → Receiver → Program → Program
  receive_step r polling s = acquired (acquire s.pool) s
  receive_step packet (receiving b) s = record s { receiver = dispatching b }
  receive_step would_block (receiving b) s = record s {
    pool = release b s.pool;
    receiver = polling;
  }
  receive_step failed (receiving b) s = record s { pool = release b s.pool; receiver = polling }
  receive_step r (dispatching b) s =
      if ring_full queue_size (s.queues s.worker_index)
      then record s { worker_index = next_worker s.worker_index }
      else record s { receiver = filling b }
  receive_step r (filling b) s = record s {
    receiver = publishing b;
    queues = put s.queues s.worker_index (put_item queue_size b (s.queues s.worker_index));
  }
  receive_step r (publishing b) s = record s {
    receiver = polling;
    queues = put s.queues s.worker_index (store_tail queue_size (s.queues s.worker_index));
    worker_index = next_worker s.worker_index;
  }

  -- The next step of worker `i`.
  unfoldable pub worker_step : ℕ → Worker → Program → Program
  worker_step i idle s =
      if ring_empty queue_size (s.queues i)
      then s
      else record s { workers = put s.workers i reading }
  worker_step i reading s = record s {
    workers = put s.workers i (moving (front_item queue_size (s.queues i)));
  }
  worker_step i (moving b) s = record s {
    queues = put s.queues i (store_head queue_size (s.queues i));
    workers = put s.workers i (busy b);
  }
  worker_step i (busy b) s = record s { pool = release b s.pool; workers = put s.workers i idle }

-- Which thread makes its next step.
pub data Step : Type 0 where
  receives : Received → Step
  works : ℕ → Step

module _ (queue_size worker_threads : ℕ) where
  unfoldable pub step : Step → Program → Program
  step (receives r) s = receive_step queue_size worker_threads r s.receiver s
  step (works i) s =
      if ltb i worker_threads then worker_step queue_size worker_threads i (s.workers i) s else s

  unfoldable pub steps : List Step → Program → Program
  steps [] s = s
  steps (x ∷ xs) s = steps xs (step x s)
