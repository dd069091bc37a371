-- ===== src/Packets/Weights.antt =====
-- ihs/src/what.cpp: the weight of the buffers in each place, for a weight of each buffer.
use fast_server.Prelude.{
  ℕ, zero, suc, ◌+◌, ◌<◌, ◌≡◌, ◌≢◌, refl, ap, arith, List, [], ◌∷◌, ◌++◌, Option, none, some, ◌==◌,
  Bool-cases, inl, inr,
}
use fast_server.Queue.Modulo.{Ring}
use fast_server.Queue.Modulo
use fast_server.Producers.{put}
use fast_server.Producers.Slots.{put_self, put_ne}
use fast_server.Packets.{
  Program, Receiver, polling, receiving, dispatching, filling, publishing, Worker, idle, reading,
  moving, busy,
}

module _ (w : ℕ → ℕ) where
  abbrev pub weigh : List ℕ → ℕ
  weigh [] = 0
  weigh (b ∷ bs) = w b + weigh bs

  abbrev pub weigh_option : Option ℕ → ℕ
  weigh_option none = 0
  weigh_option (some b) = w b

  abbrev pub weigh_receiver : Receiver → ℕ
  weigh_receiver polling = 0
  weigh_receiver (receiving b) = w b
  weigh_receiver (dispatching b) = w b
  weigh_receiver (filling b) = w b
  weigh_receiver (publishing b) = w b

  -- A worker has a packet when its place in the queue is given up.
  abbrev pub weigh_worker : Worker → ℕ
  weigh_worker idle = 0
  weigh_worker reading = 0
  weigh_worker (moving b) = 0
  weigh_worker (busy b) = w b

  pub weigh-append : (xs ys : List ℕ) → weigh (xs ++ ys) ≡ weigh xs + weigh ys
  weigh-append [] ys = omega arith
  weigh-append (x ∷ xs) ys = omega (arith, weigh-append xs ys)

-- A sum over the worker threads.
abbrev pub sum_to : ℕ → (ℕ → ℕ) → ℕ
sum_to zero f = 0
sum_to (suc n) f = sum_to n f + f n

pub sum_to-ext : (n : ℕ) (f g : ℕ → ℕ) → ((i : ℕ) → i < n → f i ≡ g i) → sum_to n f ≡ sum_to n g
sum_to-ext zero f g h = refl
sum_to-ext (suc n) f g h =
    omega (arith, h n (omega arith), sum_to-ext n f g (λ i l. h i (omega arith)))

-- One summand changes.
pub sum_to-change :
    (n i : ℕ) (f g : ℕ → ℕ)
    → i < n
    → ((j : ℕ) → j ≢ i → f j ≡ g j)
    → sum_to n f + g i ≡ sum_to n g + f i
sum_to-change zero i f g l h = absurd (omega arith)
sum_to-change (suc n) i f g l h = elim (Bool-cases (n == i)) [
  | inl same ↦
      let here : n ≡ i = ground arith in
      omega (arith, ap f here, ap g here, sum_to-ext n f g (λ j m. h j (omega arith)))
  | inr other ↦
      let away : n ≢ i = ground arith in
      omega (arith, h n away, sum_to-change n i f g (omega (arith, away)) h)
]

module _ (w : ℕ → ℕ) (queue_size worker_threads : ℕ) where
  abbrev pub queued : (ℕ → Ring ℕ) → ℕ
  queued queues = sum_to worker_threads (λ i. weigh w (Modulo.contents 0 queue_size (queues i)))

  abbrev pub held : (ℕ → Worker) → ℕ
  held workers = sum_to worker_threads (λ i. weigh_worker w (workers i))

  -- The weight of all buffers of the program.
  abbrev pub weight : Program → ℕ
  weight s =
      weigh w s.pool.free_list + weigh_receiver w s.receiver + queued s.queues + held s.workers

  pub queued-put :
      (queues : ℕ → Ring ℕ) (i : ℕ) (r : Ring ℕ)
      → i < worker_threads
      → queued (put queues i r) + weigh w (Modulo.contents 0 queue_size (queues i))
        ≡ queued queues + weigh w (Modulo.contents 0 queue_size r)
  queued-put queues i r l =
      let of = λ (q : Ring ℕ). weigh w (Modulo.contents 0 queue_size q) in
      omega (
        arith,
        ap of (put_self queues i i r refl),
        sum_to-change worker_threads i (λ j. of (put queues i r j)) (λ j. of (queues j)) l
            (λ j o. ap of (put_ne queues i j r o)),
      )

  pub held-put :
      (workers : ℕ → Worker) (i : ℕ) (o : Worker)
      → i < worker_threads
      → held (put workers i o) + weigh_worker w (workers i) ≡ held workers + weigh_worker w o
  held-put workers i o l = omega (
    arith,
    ap (weigh_worker w) (put_self workers i i o refl),
    sum_to-change worker_threads i (λ j. weigh_worker w (put workers i o j))
        (λ j. weigh_worker w (workers j)) l (λ j a. ap (weigh_worker w) (put_ne workers i j o a)),
  )
