-- ===== src/Linked/Tests.antt =====
-- Runs of the second `MPSCQueue` of ihs/include/kk.hpp, and the theorem at a queue of four nodes.
use fast_server.Prelude.{ℕ, ◌+◌, ◌%◌, ◌≡◌, ◌≢◌, true, [], ◌∷◌, some, refl, arith}
use fast_server.Producers.{put}
use fast_server.Linked
use fast_server.Linked.{
  MpscQueue, Threads, Turn, calls_enqueue, enqueues, calls_dequeue, dequeues, enqueue_returned,
  dequeue_returned,
}
use fast_server.Linked.Lost.{race, enqueue_lost}

-- One producer, and then the consumer.
alone :
    (Linked.take_turns {A = ℕ}
      (calls_enqueue 0 7
        ∷ enqueues 0
        ∷ enqueues 0
        ∷ enqueues 0
        ∷ enqueues 0
        ∷ enqueues 0
        ∷ dequeues
        ∷ dequeues
        ∷ dequeues
        ∷ dequeues
        ∷ [])
      (Linked.create 4 0)).dequeuer
    ≡ dequeue_returned (some 7)
unfolding Linked.take_turns Linked.take_turn Linked.begin_enqueue Linked.enqueue_step
    Linked.dequeue_step Linked.create put
alone = refl

abbrev nodes : MpscQueue ℕ
nodes = record { next = λ i. (i + 1) % 4; node_data = λ i. 0; head = 0; tail = 0 }

abbrev raced : Threads ℕ
raced =
    Linked.take_turns (race 7 8)
      (record { queue = nodes; enqueuers = λ i. Linked.idle; dequeuer = Linked.resting })

enqueue_lost_example :
    (raced.enqueuers 0 ≡ enqueue_returned true)
    × (raced.enqueuers 1 ≡ enqueue_returned true)
    × (raced.queue.tail ≡ 2)
    × (raced.queue.node_data 0 ≡ 8)
    × ((i : ℕ) → i ≢ 0 → raced.queue.node_data i ≡ 0)
enqueue_lost_example = enqueue_lost nodes 7 8 (omega arith) (omega arith)
