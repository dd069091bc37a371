-- ===== src/Producers/Order.antt =====
-- ihs/include/kk.hpp, `MPSCRingBuffer`: every interleaving keeps the order of the items.
use fast_server.Prelude.{
  ℕ, suc, ◌^◌, ◌≤◌, ◌<◌, ◌≡◌, inl, inr, refl, subst, arith, [], ◌∷◌, ◌++◌, none, true, false, leb,
  ◌==◌, Bool-cases, add_size, sub_size,
}
use fast_server.Producers
use fast_server.Producers.{
  System, Action, calls_push, pushes, fails_exchange, calls_pop, pops, MpscRingBuffer, Producer,
  outside, started, loaded, compared, claimed, filled, push_returned, put, slot_index, Consumer,
  waiting, located, ready, holding, released, pop_returned,
}
use fast_server.Producers.Held.{IsHeld, place}
use fast_server.Producers.Threads.{IsValid, consumed}
use fast_server.Producers.Pops
use fast_server.Producers.Pushes

unfoldable pub IsSound : {A : Type 0} → ℕ → System A → Type 0
IsSound capacity s = IsValid capacity s.ring s.producers s.consumer s.pushed s.popped

module _ {A : Type 0} (capacity k : ℕ) (e : capacity ≡ 2 ^ k) (two : 1 < capacity)
    (small : capacity ≤ 2 ^ 62) where
  module _ (s : System A) (v : IsSound capacity s) (bound : s.ring.tail < 2 ^ 62) where
    IsSound-local :
        (i : ℕ) (p : Producer A)
        → IsHeld capacity (consumed s.consumer s.ring.head) s.pushed s.ring p
        → place p ≡ none
        → IsSound capacity (Producers.set_producer i p s)
    unfolding IsSound Producers.set_producer
    IsSound-local i p h n =
        Pushes.IsValid-local capacity k e s.ring s.producers s.consumer s.pushed s.popped v i p h n

    look-IsSound :
        (i : ℕ) (x : A) (t : ℕ)
        → t ≤ s.ring.tail
        → IsSound capacity (
            Producers.set_producer i
              (Producers.look x t (s.ring.sequence (slot_index capacity t)))
              s)
    unfolding Producers.look
    look-IsSound i x t h =
        let n = s.ring.sequence (slot_index capacity t) in
        elim (Bool-cases (n == t)) [
          | inl same ↦ rw same (IsSound-local i (compared x t) (h, ground arith) refl)
          | inr other ↦ elim (Bool-cases (leb (2 ^ 63) (sub_size n t))) [
            | inl less ↦ rw (other, less) (IsSound-local i (push_returned false) tt refl)
            | inr more ↦ rw (other, more) (IsSound-local i (started x) tt refl)
          ]
        ]

    exchange-IsSound :
        (i : ℕ) (x : A) (t : ℕ)
        → s.producers i ≡ compared x t
        → IsSound capacity (Producers.exchange i x t s)
    unfolding Producers.exchange IsSound Producers.set_producer
    exchange-IsSound i x t g = elim (Bool-cases (s.ring.tail == t)) [
      | inl same ↦
          let here : t ≡ s.ring.tail = ground arith in
          let next : suc s.ring.tail ≡ add_size t 1 = omega (arith, here) in
          rw same (
            subst
              (λ n.
                IsValid capacity (record s.ring { tail = n }) (put s.producers i (claimed x t))
                  s.consumer (s.pushed ++ x ∷ []) s.popped)
              next
              (Pushes.IsValid-claim capacity k e s.ring s.producers s.consumer s.pushed s.popped v i
                x t two here g))
      | inr other ↦ rw other (
          Pushes.IsValid-local capacity k e s.ring s.producers s.consumer s.pushed s.popped v i
            (loaded x s.ring.tail) (omega arith) refl)
    ]

    push_step-IsSound :
        (i : ℕ) (p : Producer A)
        → s.producers i ≡ p
        → IsSound capacity (Producers.push_step capacity i p s)
    unfolding Producers.push_step IsSound Producers.set_producer
    push_step-IsSound i outside g = v
    push_step-IsSound i (started x) g = IsSound-local i (loaded x s.ring.tail) (omega arith) refl
    push_step-IsSound i (loaded x t) g =
        look-IsSound i x t
          (subst (IsHeld capacity (consumed s.consumer s.ring.head) s.pushed s.ring) g (v.held i))
    push_step-IsSound i (compared x t) g = exchange-IsSound i x t g
    push_step-IsSound i (claimed x t) g =
        Pushes.IsValid-write capacity k e s.ring s.producers s.consumer s.pushed s.popped v i x t g
    push_step-IsSound i (filled x t) g =
        let mine =
          subst (IsHeld capacity (consumed s.consumer s.ring.head) s.pushed s.ring) g (v.held i) in
        let next : suc t ≡ add_size t 1 = omega (arith, mine.0.below) in
        subst
          (λ n.
            IsValid capacity
              (record s.ring { sequence = put s.ring.sequence (slot_index capacity t) n })
              (put s.producers i (push_returned true)) s.consumer s.pushed s.popped)
          next
          (Pushes.IsValid-publish capacity k e s.ring s.producers s.consumer s.pushed s.popped v i x
            t g)
    push_step-IsSound i (push_returned ok) g = v

    located-IsSound :
        (h : ℕ)
        → s.consumer ≡ located h
        → IsSound capacity (Producers.pop_step capacity (located h) s)
    unfolding Producers.pop_step IsSound
    located-IsSound h g =
        let here = subst (λ q. IsValid capacity s.ring s.producers q s.pushed s.popped) g v in
        elim (Bool-cases (s.ring.sequence (slot_index capacity h) == add_size h 1)) [
          | inl same ↦
              let passed : s.ring.sequence (slot_index capacity h) ≡ suc h =
                ground (arith, here.served, here.ring.behind) in
              rw same (
                Pops.IsValid-ready capacity k e s.ring s.producers s.pushed s.popped h (omega arith)
                  passed here)
          | inr other ↦
              rw other (Pops.IsValid-none capacity k e s.ring s.producers s.pushed s.popped h here)
        ]

    pop_step-IsSound :
        (q : Consumer A) → s.consumer ≡ q → IsSound capacity (Producers.pop_step capacity q s)
    unfolding Producers.pop_step IsSound
    pop_step-IsSound waiting g =
        Pops.IsValid-locate capacity k e s.ring s.producers s.pushed s.popped
          (subst (λ q. IsValid capacity s.ring s.producers q s.pushed s.popped) g v)
    pop_step-IsSound (located h) g = located-IsSound h g
    pop_step-IsSound (ready h) g =
        Pops.IsValid-hold capacity k e s.ring s.producers s.pushed s.popped h
          (subst (λ q. IsValid capacity s.ring s.producers q s.pushed s.popped) g v)
    pop_step-IsSound (holding h x) g =
        let here = subst (λ q. IsValid capacity s.ring s.producers q s.pushed s.popped) g v in
        Pops.IsValid-release capacity k e s.ring s.producers s.pushed s.popped h
          (add_size h capacity) x (omega arith) (omega (arith, here.served.1.taken)) here
    pop_step-IsSound (released h x) g =
        let here = subst (λ q. IsValid capacity s.ring s.producers q s.pushed s.popped) g v in
        Pops.IsValid-advance capacity k e s.ring s.producers s.pushed s.popped h (add_size h 1) x
          (omega (arith, here.served, here.ring.behind)) here
    pop_step-IsSound (pop_returned out) g = v

    begin_push-IsSound :
        (i : ℕ) (x : A) (p : Producer A) → IsSound capacity (Producers.begin_push i x p s)
    unfolding Producers.begin_push
    begin_push-IsSound i x outside = IsSound-local i (started x) tt refl
    begin_push-IsSound i x (started y) = v
    begin_push-IsSound i x (loaded y t) = v
    begin_push-IsSound i x (compared y t) = v
    begin_push-IsSound i x (claimed y t) = v
    begin_push-IsSound i x (filled y t) = v
    begin_push-IsSound i x (push_returned ok) = IsSound-local i (started x) tt refl

    fail_exchange-IsSound :
        (i : ℕ) (p : Producer A) → IsSound capacity (Producers.fail_exchange i p s)
    unfolding Producers.fail_exchange
    fail_exchange-IsSound i outside = v
    fail_exchange-IsSound i (started y) = v
    fail_exchange-IsSound i (loaded y t) = v
    fail_exchange-IsSound i (compared y t) =
        IsSound-local i (loaded y s.ring.tail) (omega arith) refl
    fail_exchange-IsSound i (claimed y t) = v
    fail_exchange-IsSound i (filled y t) = v
    fail_exchange-IsSound i (push_returned ok) = v

    begin_pop-IsSound :
        (q : Consumer A) → s.consumer ≡ q → IsSound capacity (Producers.begin_pop q s)
    unfolding Producers.begin_pop IsSound
    begin_pop-IsSound waiting g = v
    begin_pop-IsSound (located h) g = v
    begin_pop-IsSound (ready h) g = v
    begin_pop-IsSound (holding h x) g = v
    begin_pop-IsSound (released h x) g = v
    begin_pop-IsSound (pop_returned out) g =
        Pops.IsValid-rest capacity k e s.ring s.producers s.pushed s.popped out
          (subst (λ q. IsValid capacity s.ring s.producers q s.pushed s.popped) g v)

    pub act-IsSound : (a : Action A) → IsSound capacity (Producers.act capacity a s)
    unfolding Producers.act
    act-IsSound (calls_push i x) = begin_push-IsSound i x (s.producers i)
    act-IsSound (pushes i) = push_step-IsSound i (s.producers i) refl
    act-IsSound (fails_exchange i) = fail_exchange-IsSound i (s.producers i)
    act-IsSound calls_pop = begin_pop-IsSound s.consumer refl
    act-IsSound pops = pop_step-IsSound s.consumer refl
