-- ===== src/Producers/Fifo.antt =====
-- ihs/include/kk.hpp, `MPSCRingBuffer`: the queue over a whole schedule of its threads.
use native.Mathlib.Nat.{pow-le-pow_right, mod-eq_of_lt}
use fast_server.Producers.Slots.{slot_mod}
use fast_server.Prelude.{
  ℕ, ◌+◌, ◌^◌, ◌≤◌, ◌<◌, ◌≡◌, inl, inr, refl, sym, ap, ◌∙◌, arith, List, [], ◌∷◌, ◌==◌, Bool-cases,
  length, length-take, take,
}
use fast_server.Producers
use fast_server.Producers.{
  System, Action, calls_push, pushes, fails_exchange, calls_pop, pops, Producer, outside, started,
  loaded, compared, claimed, filled, push_returned, Consumer, waiting, located, ready, holding,
  released, pop_returned,
}
use fast_server.Producers.Threads.{consumed}
use fast_server.Producers.Order.{IsSound, act-IsSound}

module _ {A : Type 0} (capacity : ℕ) where
  exchange-tail :
      (i : ℕ) (x : A) (t : ℕ) (s : System A)
      → (Producers.exchange i x t s).ring.tail ≤ s.ring.tail + 1
  unfolding Producers.exchange Producers.set_producer
  exchange-tail i x t s = elim (Bool-cases (s.ring.tail == t)) [
    | inl same ↦ rw same (ground arith)
    | inr other ↦ rw other (omega arith)
  ]

  begin_push-tail :
      (i : ℕ) (x : A) (p : Producer A) (s : System A)
      → (Producers.begin_push i x p s).ring.tail ≤ s.ring.tail + 1
  unfolding Producers.begin_push Producers.set_producer
  begin_push-tail i x outside s = omega arith
  begin_push-tail i x (started y) s = omega arith
  begin_push-tail i x (loaded y t) s = omega arith
  begin_push-tail i x (compared y t) s = omega arith
  begin_push-tail i x (claimed y t) s = omega arith
  begin_push-tail i x (filled y t) s = omega arith
  begin_push-tail i x (push_returned ok) s = omega arith

  fail_exchange-tail :
      (i : ℕ) (p : Producer A) (s : System A)
      → (Producers.fail_exchange i p s).ring.tail ≤ s.ring.tail + 1
  unfolding Producers.fail_exchange Producers.set_producer
  fail_exchange-tail i outside s = omega arith
  fail_exchange-tail i (started y) s = omega arith
  fail_exchange-tail i (loaded y t) s = omega arith
  fail_exchange-tail i (compared y t) s = omega arith
  fail_exchange-tail i (claimed y t) s = omega arith
  fail_exchange-tail i (filled y t) s = omega arith
  fail_exchange-tail i (push_returned ok) s = omega arith

  push_step-tail :
      (i : ℕ) (p : Producer A) (s : System A)
      → (Producers.push_step capacity i p s).ring.tail ≤ s.ring.tail + 1
  unfolding Producers.push_step Producers.set_producer
  push_step-tail i outside s = omega arith
  push_step-tail i (started y) s = omega arith
  push_step-tail i (loaded y t) s = omega arith
  push_step-tail i (compared y t) s = exchange-tail i y t s
  push_step-tail i (claimed y t) s = omega arith
  push_step-tail i (filled y t) s = omega arith
  push_step-tail i (push_returned ok) s = omega arith

  begin_pop-tail :
      (q : Consumer A) (s : System A) → (Producers.begin_pop q s).ring.tail ≤ s.ring.tail + 1
  unfolding Producers.begin_pop
  begin_pop-tail waiting s = omega arith
  begin_pop-tail (located h) s = omega arith
  begin_pop-tail (ready h) s = omega arith
  begin_pop-tail (holding h x) s = omega arith
  begin_pop-tail (released h x) s = omega arith
  begin_pop-tail (pop_returned out) s = omega arith

  pop_step-tail :
      (q : Consumer A) (s : System A)
      → (Producers.pop_step capacity q s).ring.tail ≤ s.ring.tail + 1
  unfolding Producers.pop_step
  pop_step-tail waiting s = omega arith
  pop_step-tail (located h) s = omega arith
  pop_step-tail (ready h) s = omega arith
  pop_step-tail (holding h x) s = omega arith
  pop_step-tail (released h x) s = omega arith
  pop_step-tail (pop_returned out) s = omega arith

  -- A step takes at most one position.
  act-tail :
      (a : Action A) (s : System A) → (Producers.act capacity a s).ring.tail ≤ s.ring.tail + 1
  unfolding Producers.act
  act-tail (calls_push i x) s = begin_push-tail i x (s.producers i) s
  act-tail (pushes i) s = push_step-tail i (s.producers i) s
  act-tail (fails_exchange i) s = fail_exchange-tail i (s.producers i) s
  act-tail calls_pop s = begin_pop-tail s.consumer s
  act-tail pops s = pop_step-tail s.consumer s

module _ {A : Type 0} (capacity k : ℕ) (e : capacity ≡ 2 ^ k) (two : 1 < capacity)
    (small : capacity ≤ 2 ^ 62) where
  create-IsSound : (d : A) → IsSound capacity (Producers.create d)
  unfolding Producers.create IsSound
  create-IsSound d = record {
    ring = record {
      counted = refl;
      behind = omega arith;
      room = omega arith;
      free = λ p a b. slot_mod capacity k e p ∙ mod-eq_of_lt (omega arith);
      used = λ p a b. absurd (omega arith);
    };
    held = λ i. tt;
    distinct = λ i j t x y. absurd cc;
    served = tt;
    order = refl;
  }

  schedule-IsSound :
      (actions : List (Action A)) (s : System A)
      → s.ring.tail + length actions < 2 ^ 62
      → IsSound capacity s
      → IsSound capacity (Producers.schedule capacity actions s)
  unfolding Producers.schedule
  schedule-IsSound [] s b v = v
  schedule-IsSound (a ∷ actions) s b v =
      schedule-IsSound actions (Producers.act capacity a s) (omega (arith, act-tail capacity a s))
        (act-IsSound capacity k e two small s v (omega arith) a)

create-tail : {A : Type 0} (d : A) → (Producers.create d).ring.tail ≡ 0
unfolding Producers.create
create-tail d = refl

fifo_of :
    {A : Type 0} (capacity : ℕ) (s : System A)
    → IsSound capacity s
    → (s.popped ≡ take (length s.popped) s.pushed)
      × (length s.popped ≤ length s.pushed)
      × (length s.pushed ≤ length s.popped + capacity)
unfolding IsSound
fifo_of capacity s v =
    let c = consumed s.consumer s.ring.head in
    let size : length s.popped ≡ c =
      ap length v.order ∙ length-take c s.pushed ∙ omega (arith, v.ring.behind, v.ring.counted) in
    (
      v.order ∙ ap (λ n. take n s.pushed) (sym size),
      omega (arith, size, v.ring.behind, v.ring.counted),
      omega (arith, size, v.ring.room, v.ring.counted),
    )

-- With `2 ^ k` slots, `k` from 1 to 62, any number of producers and one consumer, in any order of fewer
-- than 2 ^ 62 steps: what was popped is the front of what was pushed, in the order in which the
-- producers took their places, nothing lost, doubled or changed, and no more items than there are
-- slots are in the queue.
pub schedule_fifo :
    {A : Type 0} (k : ℕ) (d : A) (actions : List (Action A))
    → 1 ≤ k
    → k ≤ 62
    → length actions < 2 ^ 62
    → let s = Producers.schedule (2 ^ k) actions (Producers.create d) in
      (s.popped ≡ take (length s.popped) s.pushed)
      × (length s.popped ≤ length s.pushed)
      × (length s.pushed ≤ length s.popped + 2 ^ k)
schedule_fifo k d actions low high b =
    let two = pow-le-pow_right {n = 2} (omega arith) {i = 1} {j = k} low in
    let wide = pow-le-pow_right {n = 2} (omega arith) {i = k} {j = 62} high in
    let v =
      schedule-IsSound (2 ^ k) k refl (omega (arith, two)) wide actions (Producers.create d)
        (omega (arith, create-tail d))
        (create-IsSound (2 ^ k) k refl (omega (arith, two)) wide d) in
    fifo_of (2 ^ k) (Producers.schedule (2 ^ k) actions (Producers.create d)) v
