-- ===== src/Producers/Pushes.antt =====
-- ihs/include/kk.hpp, `MPSCRingBuffer`: the steps of the producers keep the invariant of all threads.
use fast_server.Prelude.{
  ℕ, suc, ◌+◌, ◌^◌, ◌<◌, ◌≡◌, ◌≢◌, refl, sym, ap, subst, ◌∙◌, arith, List, [], ◌∷◌, ◌++◌, some,
  none, true, some-injective, length, take-append_of_le,
}
use fast_server.Producers.{
  MpscRingBuffer, Producer, outside, started, loaded, compared, claimed, filled, push_returned, put,
  slot_index, Consumer, waiting, located, ready, holding, released, pop_returned,
}
use fast_server.Producers.Slots.{
  put_self, put_ne, slot_injective, get_elem?-append_lt, get_elem?-append_end,
}
use fast_server.Producers.Ring
use fast_server.Producers.Ring.{IsRing, InHand, IsReady}
use fast_server.Producers.Held.{place, IsHeld, IsHeld-claim, IsHeld-write, IsHeld-publish}
use fast_server.Producers.Threads.{consumed, IsServed, IsValid, put-all, put-IsDistinct}

module _ {A : Type 0} (capacity k : ℕ) (e : capacity ≡ 2 ^ k) (r : MpscRingBuffer A)
    (f : ℕ → Producer A) (q : Consumer A) (pushed popped : List A)
    (v : IsValid capacity r f q pushed popped) where
  abbrev done : ℕ
  done = consumed q r.head

  -- A step that takes no position and writes nothing shared.
  pub IsValid-local :
      (i : ℕ) (p : Producer A)
      → IsHeld capacity done pushed r p
      → place p ≡ none
      → IsValid capacity r (put f i p) q pushed popped
  IsValid-local i p h n = record {
    ring = v.ring;
    held = put-all (IsHeld capacity done pushed r) f i p h (λ j o. v.held j);
    distinct = put-IsDistinct f i p v.distinct (λ j t s o. absurd cc);
    served = v.served;
    order = v.order;
  }

  IsServed-claim :
      (x : A) (q : Consumer A)
      → length pushed ≡ r.tail
      → IsServed capacity pushed r q
      → IsServed capacity (pushed ++ x ∷ []) (record r { tail = suc r.tail }) q
  IsServed-claim x waiting l h = tt
  IsServed-claim x (located n) l h = h
  IsServed-claim x (ready n) l (h, g) =
      (h, record { taken = omega (arith, g.taken); passed = g.passed })
  IsServed-claim x (holding n y) l (h, g, w) = (
    h,
    record { taken = omega (arith, g.taken); passed = g.passed },
    get_elem?-append_lt pushed (x ∷ []) n (omega (arith, g.taken)) ∙ w,
  )
  IsServed-claim x (released n y) l h = h
  IsServed-claim x (pop_returned out) l h = tt

  place_below :
      (p : Producer A) (u : ℕ) → IsHeld capacity done pushed r p → place p ≡ some u → u < r.tail
  place_below outside u h w = absurd cc
  place_below (started x) u h w = absurd cc
  place_below (loaded x t) u h w = absurd cc
  place_below (compared x t) u h w = absurd cc
  place_below (claimed x t) u h w = omega (arith, h.below, some-injective t u w)
  place_below (filled x t) u (h, z) w = omega (arith, h.below, some-injective t u w)
  place_below (push_returned ok) u h w = absurd cc

  -- The exchange on the tail succeeds.
  pub IsValid-claim :
      (i : ℕ) (x : A) (t : ℕ)
      → 1 < capacity
      → t ≡ r.tail
      → f i ≡ compared x t
      → IsValid capacity
          (record r { tail = suc r.tail })
          (put f i (claimed x t))
          q
          (pushed ++ x ∷ [])
          popped
  IsValid-claim i x t two m g =
      let mine = subst (IsHeld capacity done pushed r) g (v.held i) in
      let less : r.tail < done + capacity =
        omega (arith, Ring.has_room capacity k e done pushed r v.ring t two m mine.1) in
      let fresh : InHand capacity done (pushed ++ x ∷ []) (record r { tail = suc r.tail }) x t =
        record {
          above = omega (arith, v.ring.behind);
          below = omega arith;
          own = v.ring.free t (omega arith) (omega arith);
          logged = get_elem?-append_end pushed x t (m ∙ v.ring.counted);
        } in
      record {
        ring = Ring.IsRing-claim capacity k e done pushed r v.ring x less;
        held =
            put-all (IsHeld capacity done (pushed ++ x ∷ []) (record r { tail = suc r.tail })) f i
              (claimed x t) fresh
              (λ j o. IsHeld-claim capacity k e done pushed r v.ring x (f j) (v.held j));
        distinct =
            put-IsDistinct f i (claimed x t) v.distinct
              (λ j u s o w. omega (arith, place_below (f j) u (v.held j) w, some-injective t u s));
        served = IsServed-claim x q (sym v.ring.counted) v.served;
        order =
            v.order
            ∙ sym (
                take-append_of_le done pushed (x ∷ [])
                  (omega (arith, v.ring.behind, v.ring.counted)));
      }

  IsServed-write :
      (s : ℕ) (x : A) (q : Consumer A)
      → IsServed capacity pushed r q
      → IsServed capacity pushed (record r { slot_data = put r.slot_data s x }) q
  IsServed-write s x waiting h = tt
  IsServed-write s x (located n) h = h
  IsServed-write s x (ready n) (h, g) = (h, record { taken = g.taken; passed = g.passed })
  IsServed-write s x (holding n y) (h, g, w) = (h, record { taken = g.taken; passed = g.passed }, w)
  IsServed-write s x (released n y) h = h
  IsServed-write s x (pop_returned out) h = tt

  others_apart :
      (i t : ℕ) → place (f i) ≡ some t → (j u : ℕ) → some t ≡ some u → j ≢ i → place (f j) ≢ some u
  others_apart i t g j u s o w = o (v.distinct j i t (w ∙ sym s) g)

  -- A producer writes its item.
  pub IsValid-write :
      (i : ℕ) (x : A) (t : ℕ)
      → f i ≡ claimed x t
      → IsValid capacity
          (record r { slot_data = put r.slot_data (slot_index capacity t) x })
          (put f i (filled x t))
          q
          pushed
          popped
  IsValid-write i x t g =
      let mine = subst (IsHeld capacity done pushed r) g (v.held i) in
      let apart = others_apart i t (ap place g) in
      record {
        ring = Ring.IsRing-write capacity k e done pushed r v.ring x t mine;
        held =
            put-all
              (IsHeld capacity done pushed
                (record r { slot_data = put r.slot_data (slot_index capacity t) x }))
              f i (filled x t)
              (
                record {
                  above = mine.above;
                  below = mine.below;
                  own = mine.own;
                  logged = mine.logged;
                },
                put_self r.slot_data (slot_index capacity t) (slot_index capacity t) x refl,
              )
              (λ j o.
                IsHeld-write capacity k e done pushed r v.ring x t (f j) mine (apart j t refl o)
                  (v.held j));
        distinct = put-IsDistinct f i (filled x t) v.distinct apart;
        served = IsServed-write (slot_index capacity t) x q v.served;
        order = v.order;
      }

  IsReady-publish :
      (x : A) (t n : ℕ)
      → r.head ≡ n
      → IsRing capacity r.head pushed r
      → InHand capacity r.head pushed r x t
      → IsReady capacity n r
      → IsReady capacity n (record r { sequence = put r.sequence (slot_index capacity t) (suc t) })
  IsReady-publish x t n h w i g =
      let other : slot_index capacity n ≢ slot_index capacity t = λ same. absurd (
        omega (
          arith,
          g.passed,
          i.own,
          ap r.sequence same,
          slot_injective capacity k e r.head n t (omega (arith, h)) (omega (arith, g.taken, w.room))
              i.above (omega (arith, i.below, w.room)) same,
        )) in
      record {
        taken = g.taken;
        passed =
            put_ne r.sequence (slot_index capacity t) (slot_index capacity n) (suc t) other
            ∙ g.passed;
      }

  IsServed-publish :
      (x : A) (t : ℕ) (q : Consumer A)
      → IsRing capacity (consumed q r.head) pushed r
      → InHand capacity (consumed q r.head) pushed r x t
      → IsServed capacity pushed r q
      → IsServed capacity pushed
          (record r { sequence = put r.sequence (slot_index capacity t) (suc t) })
          q
  IsServed-publish x t waiting w i h = tt
  IsServed-publish x t (located n) w i h = h
  IsServed-publish x t (ready n) w i (h, g) = (h, IsReady-publish x t n (sym h) w i g)
  IsServed-publish x t (holding n y) w i (h, g, z) = (h, IsReady-publish x t n (sym h) w i g, z)
  IsServed-publish x t (released n y) w i h = h
  IsServed-publish x t (pop_returned out) w i h = tt

  -- A producer passes its position on.
  pub IsValid-publish :
      (i : ℕ) (x : A) (t : ℕ)
      → f i ≡ filled x t
      → IsValid capacity
          (record r { sequence = put r.sequence (slot_index capacity t) (suc t) })
          (put f i (push_returned true))
          q
          pushed
          popped
  IsValid-publish i x t g =
      let mine = subst (IsHeld capacity done pushed r) g (v.held i) in
      let apart = others_apart i t (ap place g) in
      record {
        ring = Ring.IsRing-publish capacity k e done pushed r v.ring x t mine.0 mine.1;
        held =
            put-all
              (IsHeld capacity done pushed
                (record r { sequence = put r.sequence (slot_index capacity t) (suc t) }))
              f i (push_returned true) tt
              (λ j o.
                IsHeld-publish capacity k e done pushed r v.ring x t (f j) mine.0 (apart j t refl o)
                  (v.held j));
        distinct = put-IsDistinct f i (push_returned true) v.distinct (λ j u s o. absurd cc);
        served = IsServed-publish x t q v.ring mine.0 v.served;
        order = v.order;
      }
