-- ===== src/Packets/Moves.antt =====
-- ihs/src/what.cpp: a step moves buffers from place to place and keeps their weight.
use native.Mathlib.Nat.{mod-lt}
use fast_server.Prelude.{
  ℕ, zero, suc, ◌+◌, ◌^◌, ◌<◌, ◌≡◌, refl, sym, ap, subst, ◌∙◌, arith, List, [], ◌∷◌, none, some,
  ltb, Bool-cases, inl, inr, tests,
}
use fast_server.Queue.Modulo.{Ring}
use fast_server.Queue.Modulo
use fast_server.Packets
use fast_server.Packets.{
  Program, Receiver, polling, receiving, dispatching, filling, publishing, Worker, idle, reading,
  moving, busy, MemoryPool, Step, receives, works, packet, would_block, failed, Received, ring_full,
  ring_empty, put_item, store_tail, front_item, store_head,
}
use fast_server.Packets.Weights
use fast_server.Packets.Accesses.{
  WorkerOk, ReceiverOk, put_item-IsValid, put_item-weigh, store_tail-IsValid, store_tail-weigh,
  put_item-WorkerOk, store_tail-WorkerOk, put_item-ReceiverOk,
}
use fast_server.Packets.Valid.{IsValid, put-all, put_here, Kept, release-weigh}
use fast_server.Packets.WorkerMoves.{worker_step-Kept}

module _ (w : ℕ → ℕ) (queue_size worker_threads : ℕ) where
  acquired-Kept :
      (s : Program)
      → s.receiver ≡ polling
      → IsValid queue_size worker_threads s
      → Kept w queue_size worker_threads s (Packets.acquired (Packets.acquire s.pool) s)
  unfolding Packets.acquired Packets.acquire
  acquired-Kept s e v = from_list s.pool.free_list refl
    where
      from_list :
          (bs : List ℕ)
          → s.pool.free_list ≡ bs
          → Kept w queue_size worker_threads s (
              Packets.acquired
                (elim bs [ [] ↦ (none, s.pool) | b ∷ rest ↦ (some b, record { free_list = rest }) ])
                s)
      from_list [] h = (v, refl)
      from_list (b ∷ rest) h = (
        record { rings = v.rings; turn = v.turn; receiving_ok = tt; working_ok = v.working_ok },
        omega (arith, ap (Weights.weigh_receiver w) e, ap (Weights.weigh w) h),
      )

  -- Steps of the receiving loop that leave the rings alone.
  receiver-Kept :
      (s : Program) (q : Receiver) (pool : MemoryPool)
      → IsValid queue_size worker_threads s
      → ReceiverOk queue_size (s.queues s.worker_index) q
      → Weights.weigh w pool.free_list + Weights.weigh_receiver w q
        ≡ Weights.weigh w s.pool.free_list + Weights.weigh_receiver w s.receiver
      → Kept w queue_size worker_threads s (record s { receiver = q; pool = pool })
  receiver-Kept s q pool v ok e = (
    record { rings = v.rings; turn = v.turn; receiving_ok = ok; working_ok = v.working_ok },
    omega (arith, e),
  )

  receive_step-Kept :
      (r : Received) (q : Receiver) (s : Program)
      → s.receiver ≡ q
      → IsValid queue_size worker_threads s
      → Kept w queue_size worker_threads s (Packets.receive_step queue_size worker_threads r q s)
  unfolding Packets.receive_step
  receive_step-Kept r polling s e v = acquired-Kept s e v
  receive_step-Kept packet (receiving b) s e v =
      receiver-Kept s (dispatching b) s.pool v tt (omega (arith, ap (Weights.weigh_receiver w) e))
  receive_step-Kept would_block (receiving b) s e v =
      receiver-Kept s polling (Packets.release b s.pool) v tt (
        omega (
          arith,
          ap (Weights.weigh_receiver w) e,
          release-weigh w queue_size worker_threads b s.pool,
        ))
  receive_step-Kept failed (receiving b) s e v =
      receiver-Kept s polling (Packets.release b s.pool) v tt (
        omega (
          arith,
          ap (Weights.weigh_receiver w) e,
          release-weigh w queue_size worker_threads b s.pool,
        ))
  receive_step-Kept r (dispatching b) s e v =
      elim (Bool-cases (ring_full queue_size (s.queues s.worker_index))) [
        | inl h ↦ rw h (
          record {
            rings = v.rings;
            turn = mod-lt (s.worker_index + 1) (omega (arith, v.turn));
            receiving_ok =
                subst
                  (ReceiverOk queue_size
                    (s.queues (Packets.next_worker queue_size worker_threads s.worker_index)))
                  (sym e) tt;
            working_ok = v.working_ok;
          },
          refl,
        )
        | inr h ↦ rw h (
            receiver-Kept s (filling b) s.pool v h (omega (arith, ap (Weights.weigh_receiver w) e)))
      ]
  receive_step-Kept r (filling b) s e v =
      let i = s.worker_index in
      let ring = s.queues i in
      let free = subst (ReceiverOk queue_size ring) e v.receiving_ok in
      let ring' = put_item queue_size b ring in
      (
        record {
          rings =
              put-all (λ j. Modulo.IsValid 0 queue_size) s.queues i ring' v.rings
                (put_item-IsValid queue_size b ring (v.rings i));
          turn = v.turn;
          receiving_ok =
              subst (λ t. ReceiverOk queue_size t (publishing b)) (sym (put_here s.queues i ring'))
                (put_item-ReceiverOk queue_size b ring free);
          working_ok =
              put-all (λ j t. WorkerOk queue_size t (s.workers j)) s.queues i ring' v.working_ok
                (put_item-WorkerOk queue_size b ring (s.workers i) (v.working_ok i));
        },
        omega (
          arith,
          ap (Weights.weigh_receiver w) e,
          put_item-weigh w queue_size b ring (v.rings i) free,
          Weights.queued-put w queue_size worker_threads s.queues i ring' v.turn,
        ),
      )
  receive_step-Kept r (publishing b) s e v =
      let i = s.worker_index in
      let ring = s.queues i in
      let full = subst (ReceiverOk queue_size ring) e v.receiving_ok in
      let ring' = store_tail queue_size ring in
      (
        record {
          rings =
              put-all (λ j. Modulo.IsValid 0 queue_size) s.queues i ring' v.rings
                (store_tail-IsValid queue_size b ring (v.rings i) full);
          turn = mod-lt (s.worker_index + 1) (omega (arith, v.turn));
          receiving_ok = tt;
          working_ok =
              put-all (λ j t. WorkerOk queue_size t (s.workers j)) s.queues i ring' v.working_ok
                (store_tail-WorkerOk queue_size ring (s.workers i) full.0 (v.working_ok i));
        },
        omega (
          arith,
          ap (Weights.weigh_receiver w) e,
          store_tail-weigh w queue_size b ring (v.rings i) full,
          Weights.queued-put w queue_size worker_threads s.queues i ring' v.turn,
        ),
      )

  step-Kept :
      (x : Step) (s : Program)
      → IsValid queue_size worker_threads s
      → Kept w queue_size worker_threads s (Packets.step queue_size worker_threads x s)
  unfolding Packets.step
  step-Kept (receives r) s v = receive_step-Kept r s.receiver s refl v
  step-Kept (works i) s v = elim (Bool-cases (ltb i worker_threads)) [
    | inl h ↦
        rw h
          (worker_step-Kept w queue_size worker_threads i (s.workers i) s refl (omega (tests, h)) v)
    | inr h ↦ rw h (v, refl)
  ]

  pub steps-Kept :
      (xs : List Step) (s : Program)
      → IsValid queue_size worker_threads s
      → Kept w queue_size worker_threads s (Packets.steps queue_size worker_threads xs s)
  unfolding Packets.steps
  steps-Kept [] s v = (v, refl)
  steps-Kept (x ∷ xs) s v =
      let one = step-Kept x s v in
      let more = steps-Kept xs (Packets.step queue_size worker_threads x s) one.0 in
      (more.0, more.1 ∙ one.1)

  sum_to_zero : (n : ℕ) → Weights.sum_to n (λ i. 0) ≡ 0
  sum_to_zero zero = refl
  sum_to_zero (suc n) = omega (arith, sum_to_zero n)

  pub start-weight :
      (n : ℕ)
      → Weights.weight w queue_size worker_threads (Packets.start queue_size worker_threads n)
        ≡ Weights.weigh w (Packets.buffers_below n)
  unfolding Packets.start Modulo.create
  start-weight n = omega (arith, sum_to_zero worker_threads)

  pub start-IsValid :
      (n : ℕ)
      → 0 < queue_size
      → queue_size < 2 ^ 64
      → 0 < worker_threads
      → IsValid queue_size worker_threads (Packets.start queue_size worker_threads n)
  unfolding Packets.start
  start-IsValid n h k l = record {
    rings = λ i. Modulo.create-IsValid 0 queue_size h k;
    turn = l;
    receiving_ok = tt;
    working_ok = λ i. tt;
  }
