-- ===== src/Packets/WorkerMoves.antt =====
-- ihs/src/what.cpp: a worker's step moves buffers from place to place and keeps their weight.

use fast_server.Prelude.{
  ℕ, ◌+◌, ◌<◌, ◌≡◌, ◌≢◌, refl, sym, ap, subst, arith, ◌==◌, Bool-cases, inl, inr,
}
use fast_server.Queue.Modulo.{Ring}
use fast_server.Queue.Modulo
use fast_server.Producers.{put}
use fast_server.Producers.Slots.{put_self, put_ne}
use fast_server.Packets
use fast_server.Packets.{
  Program, Receiver, polling, receiving, dispatching, filling, publishing, Worker, idle, reading,
  moving, busy, MemoryPool, Step, receives, works, packet, would_block, failed, Received, ring_full,
  ring_empty, put_item, store_tail, front_item, store_head,
}
use fast_server.Packets.Weights
use fast_server.Packets.Accesses.{
  WorkerOk, ReceiverOk, store_head-IsValid, store_head-weigh, store_head-ReceiverOk,
}
use fast_server.Packets.Valid.{IsValid, put-all, Kept, release-weigh}

module _ (w : ℕ → ℕ) (queue_size worker_threads : ℕ) where
  -- Steps of a worker that leave the rings alone.
  worker-Kept :
      (s : Program) (i : ℕ) (q : Worker) (pool : MemoryPool)
      → i < worker_threads
      → IsValid queue_size worker_threads s
      → WorkerOk queue_size (s.queues i) q
      → Weights.weigh w pool.free_list + Weights.weigh_worker w q
        ≡ Weights.weigh w s.pool.free_list + Weights.weigh_worker w (s.workers i)
      → Kept w queue_size worker_threads s (record s { workers = put s.workers i q; pool = pool })
  worker-Kept s i q pool l v ok e = (
    record {
      rings = v.rings;
      turn = v.turn;
      receiving_ok = v.receiving_ok;
      working_ok =
          put-all (λ j o. WorkerOk queue_size (s.queues j) o) s.workers i q v.working_ok ok;
    },
    omega (arith, e, Weights.held-put w queue_size worker_threads s.workers i q l),
  )

  pub worker_step-Kept :
      (i : ℕ) (o : Worker) (s : Program)
      → s.workers i ≡ o
      → i < worker_threads
      → IsValid queue_size worker_threads s
      → Kept w queue_size worker_threads s (Packets.worker_step queue_size worker_threads i o s)
  unfolding Packets.worker_step
  worker_step-Kept i idle s e l v = elim (Bool-cases (ring_empty queue_size (s.queues i))) [
    | inl h ↦ rw h (v, refl)
    | inr h ↦
        rw h (worker-Kept s i reading s.pool l v h (omega (arith, ap (Weights.weigh_worker w) e)))
  ]
  worker_step-Kept i reading s e l v =
      worker-Kept s i (moving (front_item queue_size (s.queues i))) s.pool l v
        (subst (WorkerOk queue_size (s.queues i)) e (v.working_ok i), refl)
        (omega (arith, ap (Weights.weigh_worker w) e))
  worker_step-Kept i (moving b) s e l v =
      let ring = s.queues i in
      let taken = subst (WorkerOk queue_size ring) e (v.working_ok i) in
      let ring' = store_head queue_size ring in
      let valid = store_head-IsValid queue_size ring (v.rings i) taken.0 in
      (
        record {
          rings = put-all (λ j. Modulo.IsValid 0 queue_size) s.queues i ring' v.rings valid;
          turn = v.turn;
          receiving_ok = elim (Bool-cases (s.worker_index == i)) [
            | inl same ↦
                let here : s.worker_index ≡ i = ground arith in
                subst (λ t. ReceiverOk queue_size t s.receiver)
                  (sym (put_self s.queues i s.worker_index ring' here))
                  (store_head-ReceiverOk queue_size ring s.receiver (v.rings i) taken.0 (
                    subst (λ j. ReceiverOk queue_size (s.queues j) s.receiver) here v.receiving_ok))
            | inr other ↦
                subst (λ t. ReceiverOk queue_size t s.receiver)
                  (sym (put_ne s.queues i s.worker_index ring' (ground arith))) v.receiving_ok
          ];
          working_ok = λ j. elim (Bool-cases (j == i)) [
            | inl same ↦
                subst (WorkerOk queue_size (put s.queues i ring' j))
                  (sym (put_self s.workers i j (busy b) (ground arith))) tt
            | inr other ↦
                let away : j ≢ i = ground arith in
                subst (WorkerOk queue_size (put s.queues i ring' j))
                  (sym (put_ne s.workers i j (busy b) away))
                  (subst (λ t. WorkerOk queue_size t (s.workers j))
                    (sym (put_ne s.queues i j ring' away)) (v.working_ok j))
          ];
        },
        omega (
          arith,
          ap (Weights.weigh_worker w) e,
          ap w taken.1,
          store_head-weigh w queue_size ring (v.rings i) taken.0,
          Weights.queued-put w queue_size worker_threads s.queues i ring' l,
          Weights.held-put w queue_size worker_threads s.workers i (busy b) l,
        ),
      )
  worker_step-Kept i (busy b) s e l v = worker-Kept s i idle (Packets.release b s.pool) l v tt (
      omega
        (arith, ap (Weights.weigh_worker w) e, release-weigh w queue_size worker_threads b s.pool))
