-- ===== src/Producers/Held.antt =====
-- ihs/include/kk.hpp, `MPSCRingBuffer`: what a producer in a call knows of the ring, and that the steps
-- of the other threads leave it true.
use fast_server.Prelude.{
  ℕ, suc, ◌^◌, ◌≤◌, ◌<◌, ◌≡◌, ◌≢◌, inl, inr, ap, ◌∙◌, arith, List, [], ◌∷◌, ◌++◌, some, none,
  Option, ◌==◌, Bool-cases,
}
use fast_server.Producers.{
  MpscRingBuffer, Producer, outside, started, loaded, compared, claimed, filled, push_returned, put,
  slot_index,
}
use fast_server.Producers.Slots.{put_self, put_ne, slot_injective, get_elem?-append_lt}
use fast_server.Producers.Ring.{IsRing, InHand, IsReady}

module _ {A : Type 0} where
  -- The position that a producer has taken.
  abbrev pub place : Producer A → Option ℕ
  place outside = none
  place (started x) = none
  place (loaded x t) = none
  place (compared x t) = none
  place (claimed x t) = some t
  place (filled x t) = some t
  place (push_returned ok) = none

  abbrev pub IsHeld : ℕ → ℕ → List A → MpscRingBuffer A → Producer A → Type 0
  IsHeld capacity c pushed r outside = Unit
  IsHeld capacity c pushed r (started x) = Unit
  IsHeld capacity c pushed r (loaded x t) = t ≤ r.tail
  IsHeld capacity c pushed r (compared x t) =
      (t ≤ r.tail) × (t ≤ r.sequence (slot_index capacity t))
  IsHeld capacity c pushed r (claimed x t) = InHand capacity c pushed r x t
  IsHeld capacity c pushed r (filled x t) =
      InHand capacity c pushed r x t × (r.slot_data (slot_index capacity t) ≡ x)
  IsHeld capacity c pushed r (push_returned ok) = Unit

module _ {A : Type 0} (capacity k : ℕ) (e : capacity ≡ 2 ^ k) (c : ℕ) (pushed : List A)
    (r : MpscRingBuffer A) (v : IsRing capacity c pushed r) where
  InHand-claim :
      (x y : A) (t : ℕ)
      → InHand capacity c pushed r y t
      → InHand capacity c (pushed ++ x ∷ []) (record r { tail = suc r.tail }) y t
  InHand-claim x y t i = record {
    above = i.above;
    below = omega (arith, i.below);
    own = i.own;
    logged = get_elem?-append_lt pushed (x ∷ []) t (omega (arith, i.below, v.counted)) ∙ i.logged;
  }

  pub IsHeld-claim :
      (x : A) (p : Producer A)
      → IsHeld capacity c pushed r p
      → IsHeld capacity c (pushed ++ x ∷ []) (record r { tail = suc r.tail }) p
  IsHeld-claim x outside h = tt
  IsHeld-claim x (started y) h = tt
  IsHeld-claim x (loaded y t) h = omega arith
  IsHeld-claim x (compared y t) (h, s) = (omega arith, s)
  IsHeld-claim x (claimed y t) i = InHand-claim x y t i
  IsHeld-claim x (filled y t) (i, w) = (InHand-claim x y t i, w)
  IsHeld-claim x (push_returned ok) h = tt

  apart :
      (x y : A) (t u : ℕ)
      → InHand capacity c pushed r x t
      → InHand capacity c pushed r y u
      → u ≢ t
      → slot_index capacity u ≢ slot_index capacity t
  apart x y t u i j d same = d (
      slot_injective capacity k e c u t j.above (omega (arith, j.below, v.room)) i.above
        (omega (arith, i.below, v.room)) same)

  pub IsHeld-write :
      (x : A) (t : ℕ) (p : Producer A)
      → InHand capacity c pushed r x t
      → place p ≢ some t
      → IsHeld capacity c pushed r p
      → IsHeld capacity c pushed
          (record r { slot_data = put r.slot_data (slot_index capacity t) x })
          p
  IsHeld-write x t outside i d h = tt
  IsHeld-write x t (started y) i d h = tt
  IsHeld-write x t (loaded y u) i d h = h
  IsHeld-write x t (compared y u) i d h = h
  IsHeld-write x t (claimed y u) i d j = record {
    above = j.above;
    below = j.below;
    own = j.own;
    logged = j.logged;
  }
  IsHeld-write x t (filled y u) i d (j, w) = (
    record { above = j.above; below = j.below; own = j.own; logged = j.logged },
    put_ne r.slot_data (slot_index capacity t) (slot_index capacity u) x
          (apart x y t u i j (λ same. d (ap some same)))
        ∙ w,
  )
  IsHeld-write x t (push_returned ok) i d h = tt

  -- A sequence number only grows.
  grows :
      (t u n m : ℕ)
      → r.sequence (slot_index capacity t) ≤ n
      → m ≤ r.sequence (slot_index capacity u)
      → m ≤ put r.sequence (slot_index capacity t) n (slot_index capacity u)
  grows t u n m g h = elim (Bool-cases (slot_index capacity u == slot_index capacity t)) [
    | inl same ↦
        let here : slot_index capacity u ≡ slot_index capacity t = ground arith in
        omega (
          arith,
          put_self r.sequence (slot_index capacity t) (slot_index capacity u) n here,
          ap r.sequence here,
        )
    | inr other ↦
        omega (
          arith,
          put_ne r.sequence (slot_index capacity t) (slot_index capacity u) n (ground arith),
        )
  ]

  InHand-sequence :
      (y : A) (s u n : ℕ)
      → slot_index capacity u ≢ s
      → InHand capacity c pushed r y u
      → InHand capacity c pushed (record r { sequence = put r.sequence s n }) y u
  InHand-sequence y s u n d j = record {
    above = j.above;
    below = j.below;
    own = put_ne r.sequence s (slot_index capacity u) n d ∙ j.own;
    logged = j.logged;
  }

  pub IsHeld-publish :
      (x : A) (t : ℕ) (p : Producer A)
      → InHand capacity c pushed r x t
      → place p ≢ some t
      → IsHeld capacity c pushed r p
      → IsHeld capacity c pushed
          (record r { sequence = put r.sequence (slot_index capacity t) (suc t) })
          p
  IsHeld-publish x t outside i d h = tt
  IsHeld-publish x t (started y) i d h = tt
  IsHeld-publish x t (loaded y u) i d h = h
  IsHeld-publish x t (compared y u) i d (h, s) = (h, grows t u (suc t) u (omega (arith, i.own)) s)
  IsHeld-publish x t (claimed y u) i d j =
      InHand-sequence y (slot_index capacity t) u (suc t)
        (apart x y t u i j (λ same. d (ap some same))) j
  IsHeld-publish x t (filled y u) i d (j, w) = (
    InHand-sequence y (slot_index capacity t) u (suc t)
        (apart x y t u i j (λ same. d (ap some same))) j,
    w,
  )
  IsHeld-publish x t (push_returned ok) i d h = tt

  InHand-release :
      (y : A) (n u : ℕ)
      → IsReady capacity c r
      → InHand capacity c pushed r y u
      → InHand capacity
          (suc c)
          pushed
          (record r { sequence = put r.sequence (slot_index capacity c) n })
          y
          u
  InHand-release y n u q j =
      let away : u ≢ c = λ same.
        absurd
          (omega (arith, q.passed, j.own, ap (λ m. r.sequence (slot_index capacity m)) same)) in
      let other : slot_index capacity u ≢ slot_index capacity c = λ same. away (
        slot_injective capacity k e c u c j.above (omega (arith, j.below, v.room)) (omega arith)
          (omega (arith, q.taken, v.room)) same) in
      record {
        above = omega (arith, j.above);
        below = j.below;
        own = put_ne r.sequence (slot_index capacity c) (slot_index capacity u) n other ∙ j.own;
        logged = j.logged;
      }

  pub IsHeld-release :
      (n : ℕ) (p : Producer A)
      → c < n
      → IsReady capacity c r
      → IsHeld capacity c pushed r p
      → IsHeld capacity
          (suc c)
          pushed
          (record r { sequence = put r.sequence (slot_index capacity c) n })
          p
  IsHeld-release n outside l q h = tt
  IsHeld-release n (started y) l q h = tt
  IsHeld-release n (loaded y u) l q h = h
  IsHeld-release n (compared y u) l q (h, s) = (h, grows c u n u (omega (arith, q.passed)) s)
  IsHeld-release n (claimed y u) l q j = InHand-release y n u q j
  IsHeld-release n (filled y u) l q (j, w) = (InHand-release y n u q j, w)
  IsHeld-release n (push_returned ok) l q h = tt
