-- ===== src/Packets/Accesses.antt =====
-- ihs/src/what.cpp: the accesses of `SPSCQueue::push` and `pop` to a ring, and what each needs of the
-- state in which the accesses before it left the ring.
use fast_server.Prelude.{
  ℕ, zero, suc, ◌+◌, ◌-◌, ◌%◌, ◌≡◌, refl, sym, ap, subst, ◌∙◌, arith, true, false, List, [], ◌∷◌,
  ◌++◌, some, length-set, add_size, set, get_or-set_ne,
}
use fast_server.Queue.Modulo.{Ring}
use fast_server.Queue.Modulo
use fast_server.Queue.Spec.{enqueue, dequeue}
use fast_server.Packets.{
  Receiver, polling, receiving, dispatching, filling, publishing, Worker, idle, reading, moving,
  busy, ring_full, ring_empty, put_item, store_tail, front_item, store_head,
}
use fast_server.Packets.Weights

module _ (queue_size : ℕ) where
  -- What a worker knows of its ring.
  abbrev pub WorkerOk : Ring ℕ → Worker → Type 0
  WorkerOk r idle = Unit
  WorkerOk r reading = ring_empty queue_size r ≡ false
  WorkerOk r (moving b) = (ring_empty queue_size r ≡ false) × (front_item queue_size r ≡ b)
  WorkerOk r (busy b) = Unit

  -- What the receiving loop knows of the ring of the worker whose turn it is.
  abbrev pub ReceiverOk : Ring ℕ → Receiver → Type 0
  ReceiverOk r polling = Unit
  ReceiverOk r (receiving b) = Unit
  ReceiverOk r (dispatching b) = Unit
  ReceiverOk r (filling b) = ring_full queue_size r ≡ false
  ReceiverOk r (publishing b) = (ring_full queue_size r ≡ false) × (put_item queue_size b r ≡ r)

  set_twice : (xs : List ℕ) (i v : ℕ) → set (set xs i v) i v ≡ set xs i v
  set_twice [] i v = refl
  set_twice (x ∷ xs) zero v = refl
  set_twice (x ∷ xs) (suc i) v = ap (λ t. x ∷ t) (set_twice xs i v)

  pub put_item-ReceiverOk :
      (b : ℕ) (r : Ring ℕ)
      → ring_full queue_size r ≡ false
      → ReceiverOk (put_item queue_size b r) (publishing b)
  unfolding put_item
  put_item-ReceiverOk b r h = (h, ap (λ xs. record r { buffer = xs }) (set_twice r.buffer r.tail b))

  pub put_item-IsValid :
      (b : ℕ) (r : Ring ℕ)
      → Modulo.IsValid 0 queue_size r
      → Modulo.IsValid 0 queue_size (put_item queue_size b r)
  unfolding put_item
  put_item-IsValid b r v = record {
    storage = length-set r.buffer r.tail b ∙ v.storage;
    small = v.small;
    head_in = v.head_in;
    tail_in = v.tail_in;
  }

  -- The slot behind the last item is not the first item's.
  pub put_item-WorkerOk :
      (b : ℕ) (r : Ring ℕ) (o : Worker) → WorkerOk r o → WorkerOk (put_item queue_size b r) o
  unfolding put_item front_item
  put_item-WorkerOk b r idle h = tt
  put_item-WorkerOk b r reading h = h
  put_item-WorkerOk b r (moving x) (h, e) =
      (h, get_or-set_ne r.buffer r.tail r.head b 0 (ground (arith, h)) ∙ e)
  put_item-WorkerOk b r (busy x) h = tt

  -- A test that failed and the two stores are the whole of `push`.
  push_parts :
      (b : ℕ) (r : Ring ℕ)
      → ring_full queue_size r ≡ false
      → Modulo.try_push 0 queue_size b r ≡ (true, store_tail queue_size (put_item queue_size b r))
  unfolding Modulo.try_push store_tail put_item
  push_parts b r h = ground (arith, h)

  pop_parts :
      (r : Ring ℕ)
      → ring_empty queue_size r ≡ false
      → Modulo.try_pop 0 queue_size r ≡ (some (front_item queue_size r), store_head queue_size r)
  unfolding Modulo.try_pop front_item store_head
  pop_parts r h = ground (arith, h)

  published :
      (b : ℕ) (r : Ring ℕ)
      → ReceiverOk r (publishing b)
      → Modulo.try_push 0 queue_size b r ≡ (true, store_tail queue_size r)
  published b r (h, e) = push_parts b r h ∙ ap (λ t. (true, store_tail queue_size t)) e

  pub store_tail-IsValid :
      (b : ℕ) (r : Ring ℕ)
      → Modulo.IsValid 0 queue_size r
      → ReceiverOk r (publishing b)
      → Modulo.IsValid 0 queue_size (store_tail queue_size r)
  store_tail-IsValid b r v ok =
      subst (λ t. Modulo.IsValid 0 queue_size t.1) (published b r ok)
        ((Modulo.try_push_refines 0 queue_size b r v).0)

  pub store_head-IsValid :
      (r : Ring ℕ)
      → Modulo.IsValid 0 queue_size r
      → ring_empty queue_size r ≡ false
      → Modulo.IsValid 0 queue_size (store_head queue_size r)
  store_head-IsValid r v h =
      subst (λ t. Modulo.IsValid 0 queue_size t.1) (pop_parts r h)
        ((Modulo.try_pop_refines 0 queue_size r v).0)

  pub store_tail-WorkerOk :
      (r : Ring ℕ) (o : Worker)
      → ring_full queue_size r ≡ false
      → WorkerOk r o
      → WorkerOk (store_tail queue_size r) o
  unfolding store_tail front_item
  store_tail-WorkerOk r idle f h = tt
  store_tail-WorkerOk r reading f h = ground (arith, f)
  store_tail-WorkerOk r (moving x) f (h, e) = (ground (arith, f), e)
  store_tail-WorkerOk r (busy x) f h = tt

  -- The ring is not full once the head has moved.
  not_full :
      (r : Ring ℕ)
      → Modulo.IsValid 0 queue_size r
      → ring_empty queue_size r ≡ false
      → ring_full queue_size (store_head queue_size r) ≡ false
  unfolding store_head
  not_full r v h = ground (
    arith,
    h,
    Modulo.next_index {A = ℕ} 0 queue_size r.tail v.tail_in v.small,
    Modulo.next_index {A = ℕ} 0 queue_size r.head v.head_in v.small,
  )

  pub store_head-ReceiverOk :
      (r : Ring ℕ) (q : Receiver)
      → Modulo.IsValid 0 queue_size r
      → ring_empty queue_size r ≡ false
      → ReceiverOk r q
      → ReceiverOk (store_head queue_size r) q
  unfolding store_head put_item
  store_head-ReceiverOk r polling v h ok = tt
  store_head-ReceiverOk r (receiving b) v h ok = tt
  store_head-ReceiverOk r (dispatching b) v h ok = tt
  store_head-ReceiverOk r (filling b) v h ok = not_full r v h
  store_head-ReceiverOk r (publishing b) v h (f, e) =
      (not_full r v h, ap (λ (t : Ring ℕ). record t { head = add_size r.head 1 % queue_size }) e)

module _ (w : ℕ → ℕ) (queue_size : ℕ) where
  abbrev weigh : Ring ℕ → ℕ
  weigh r = Weights.weigh w (Modulo.contents 0 queue_size r)

  enqueued :
      (limit b : ℕ) (q : List ℕ)
      → (enqueue limit b q).0 ≡ true
      → (enqueue limit b q).1 ≡ q ++ b ∷ []
  unfolding enqueue
  enqueued limit b q h = ground (arith, h)

  dequeued :
      (b : ℕ) (q : List ℕ)
      → (dequeue q).0 ≡ some b
      → Weights.weigh w (dequeue q).1 + w b ≡ Weights.weigh w q
  unfolding dequeue
  dequeued b [] h = absurd cc
  dequeued b (x ∷ q) h = ground (arith, h)

  -- The tail takes up what was put behind it.
  pub store_tail-weigh :
      (b : ℕ) (r : Ring ℕ)
      → Modulo.IsValid 0 queue_size r
      → ReceiverOk queue_size r (publishing b)
      → weigh (store_tail queue_size r) ≡ weigh r + w b
  store_tail-weigh b r v ok =
      let same = published queue_size b r ok in
      let fact = (Modulo.try_push_refines 0 queue_size b r v).1 in
      let items = Modulo.contents 0 queue_size r in
      let done : (enqueue (queue_size - 1) b items).0 ≡ true =
        sym (ap (λ t. t.0) fact) ∙ ap (λ t. t.0) same in
      ap (λ t. weigh t.1) (sym same)
      ∙ ap (λ t. Weights.weigh w t.1) fact
      ∙ ap (Weights.weigh w) (enqueued (queue_size - 1) b items done)
      ∙ omega (arith, Weights.weigh-append w items (b ∷ []))

  -- A write behind the last item leaves the items.
  pub put_item-weigh :
      (b : ℕ) (r : Ring ℕ)
      → Modulo.IsValid 0 queue_size r
      → ring_full queue_size r ≡ false
      → weigh (put_item queue_size b r) ≡ weigh r
  put_item-weigh b r v h =
      let same = push_parts queue_size b r h in
      let fact = (Modulo.try_push_refines 0 queue_size b r v).1 in
      let items = Modulo.contents 0 queue_size r in
      let done : (enqueue (queue_size - 1) b items).0 ≡ true =
        sym (ap (λ t. t.0) fact) ∙ ap (λ t. t.0) same in
      let whole : weigh (store_tail queue_size (put_item queue_size b r)) ≡ weigh r + w b =
        ap (λ t. weigh t.1) (sym same)
        ∙ ap (λ t. Weights.weigh w t.1) fact
        ∙ ap (Weights.weigh w) (enqueued (queue_size - 1) b items done)
        ∙ omega (arith, Weights.weigh-append w items (b ∷ [])) in
      let again =
        store_tail-weigh b (put_item queue_size b r) (put_item-IsValid queue_size b r v)
          (put_item-ReceiverOk queue_size b r h) in
      omega (arith, whole, again)

  -- The head gives up the item that it stood at.
  pub store_head-weigh :
      (r : Ring ℕ)
      → Modulo.IsValid 0 queue_size r
      → ring_empty queue_size r ≡ false
      → weigh (store_head queue_size r) + w (front_item queue_size r) ≡ weigh r
  store_head-weigh r v h =
      let same = pop_parts queue_size r h in
      let fact = (Modulo.try_pop_refines 0 queue_size r v).1 in
      let items = Modulo.contents 0 queue_size r in
      let out : (dequeue items).0 ≡ some (front_item queue_size r) =
        sym (ap (λ t. t.0) fact) ∙ ap (λ t. t.0) same in
      let rest : Weights.weigh w (dequeue items).1 ≡ weigh (store_head queue_size r) =
        sym (ap (λ t. Weights.weigh w t.1) fact) ∙ ap (λ t. weigh t.1) same in
      omega (arith, rest, dequeued (front_item queue_size r) items out)
