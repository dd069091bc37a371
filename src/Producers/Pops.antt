-- ===== src/Producers/Pops.antt =====
-- ihs/include/kk.hpp, `MPSCRingBuffer`: the steps of the consumer keep the invariant of all threads.
use fast_server.Prelude.{
  ℕ, suc, ◌+◌, ◌^◌, ◌<◌, ◌≡◌, inl, inr, refl, sym, ap, subst, ◌∙◌, arith, List, [], ◌∷◌, ◌++◌, some,
  none, Option, ltb, Bool-cases, get_elem?, take, tests,
}
use fast_server.Producers.{
  MpscRingBuffer, Producer, outside, started, loaded, compared, claimed, filled, push_returned, put,
  slot_index, waiting, located, ready, holding, released, pop_returned,
}
use fast_server.Producers.Slots.{take-suc}
use fast_server.Producers.Ring
use fast_server.Producers.Ring.{IsRing, InHand, IsReady}
use fast_server.Producers.Held.{IsHeld, IsHeld-release}
use fast_server.Producers.Threads.{IsValid}

module _ {A : Type 0} (capacity k : ℕ) (e : capacity ≡ 2 ^ k) (r : MpscRingBuffer A)
    (f : ℕ → Producer A) (pushed popped : List A) where
  pub IsValid-locate :
      IsValid capacity r f waiting pushed popped
      → IsValid capacity r f (located r.head) pushed popped
  IsValid-locate v = record {
    ring = v.ring;
    held = v.held;
    distinct = v.distinct;
    served = refl;
    order = v.order;
  }

  pub IsValid-rest :
      (out : Option A)
      → IsValid capacity r f (pop_returned out) pushed popped
      → IsValid capacity r f waiting pushed popped
  IsValid-rest out v = record {
    ring = v.ring;
    held = v.held;
    distinct = v.distinct;
    served = tt;
    order = v.order;
  }

  -- The slot is not filled yet.
  pub IsValid-none :
      (h : ℕ)
      → IsValid capacity r f (located h) pushed popped
      → IsValid capacity r f (pop_returned none) pushed popped
  IsValid-none h v = record {
    ring = v.ring;
    held = v.held;
    distinct = v.distinct;
    served = tt;
    order = v.order;
  }

  -- The slot is filled.
  pub IsValid-ready :
      (h : ℕ)
      → 0 < capacity
      → r.sequence (slot_index capacity h) ≡ suc h
      → IsValid capacity r f (located h) pushed popped
      → IsValid capacity r f (ready h) pushed popped
  IsValid-ready h some_room s v = record {
    ring = v.ring;
    held = v.held;
    distinct = v.distinct;
    served = (
      v.served,
      record {
        taken = elim (Bool-cases (ltb h r.tail)) [
          | inl less ↦ omega (tests, less)
          | inr more ↦
              absurd (omega (arith, s, v.ring.free h (ground arith) (omega (arith, v.served))))
        ];
        passed = s;
      },
    );
    order = v.order;
  }

  pub IsValid-hold :
      (h : ℕ)
      → IsValid capacity r f (ready h) pushed popped
      → IsValid capacity r f (holding h (r.slot_data (slot_index capacity h))) pushed popped
  IsValid-hold h v = record {
    ring = v.ring;
    held = v.held;
    distinct = v.distinct;
    served = (
      v.served.0,
      v.served.1,
      elim (v.ring.used h (omega (arith, v.served.0)) v.served.1.taken) [
        | inl own ↦ absurd (omega (arith, own, v.served.1.passed))
        | inr (passed, item) ↦ item
      ],
    );
    order = v.order;
  }

  -- The slot is given free.
  pub IsValid-release :
      (h n : ℕ) (x : A)
      → 0 < capacity
      → n ≡ h + capacity
      → IsValid capacity r f (holding h x) pushed popped
      → IsValid capacity
          (record r { sequence = put r.sequence (slot_index capacity h) n })
          f
          (released h x)
          pushed
          (popped ++ x ∷ [])
  IsValid-release h n x some_room d v =
      let at = sym v.served.0 in
      let ring = subst (λ c. IsRing capacity c pushed r) at v.ring in
      record {
        ring =
            subst
              (λ c.
                IsRing capacity (suc c) pushed
                  (record r { sequence = put r.sequence (slot_index capacity h) n }))
              v.served.0
              (Ring.IsRing-release capacity k e h pushed r ring n some_room d v.served.1);
        held = λ i.
            subst
              (λ c.
                IsHeld capacity (suc c) pushed
                  (record r { sequence = put r.sequence (slot_index capacity h) n }) (f i))
              v.served.0
              (IsHeld-release capacity k e h pushed r ring n (f i) (omega arith) v.served.1
                (subst (λ c. IsHeld capacity c pushed r (f i)) at (v.held i)));
        distinct = v.distinct;
        served = v.served.0;
        order =
            ap (λ xs. xs ++ x ∷ []) v.order
            ∙ sym (take-suc pushed x r.head (ap (get_elem? pushed) at ∙ v.served.2));
      }

  IsRing-head :
      (c n : ℕ) → IsRing capacity c pushed r → IsRing capacity c pushed (record r { head = n })
  IsRing-head c n v = record {
    counted = v.counted;
    behind = v.behind;
    room = v.room;
    free = v.free;
    used = v.used;
  }

  InHand-head :
      (c n t : ℕ) (x : A)
      → InHand capacity c pushed r x t
      → InHand capacity c pushed (record r { head = n }) x t
  InHand-head c n t x i = record {
    above = i.above;
    below = i.below;
    own = i.own;
    logged = i.logged;
  }

  IsHeld-head :
      (c n : ℕ) (p : Producer A)
      → IsHeld capacity c pushed r p
      → IsHeld capacity c pushed (record r { head = n }) p
  IsHeld-head c n outside h = tt
  IsHeld-head c n (started x) h = tt
  IsHeld-head c n (loaded x t) h = h
  IsHeld-head c n (compared x t) h = h
  IsHeld-head c n (claimed x t) i = InHand-head c n t x i
  IsHeld-head c n (filled x t) (i, w) = (InHand-head c n t x i, w)
  IsHeld-head c n (push_returned ok) h = tt

  -- The consumer goes to its next position.
  pub IsValid-advance :
      (h n : ℕ) (x : A)
      → n ≡ suc h
      → IsValid capacity r f (released h x) pushed popped
      → IsValid capacity (record r { head = n }) f (pop_returned (some x)) pushed popped
  IsValid-advance h n x d v =
      let same : suc r.head ≡ n = omega (arith, v.served) in
      record {
        ring =
            subst (λ c. IsRing capacity c pushed (record r { head = n })) same
              (IsRing-head (suc r.head) n v.ring);
        held = λ i.
            subst (λ c. IsHeld capacity c pushed (record r { head = n }) (f i)) same
              (IsHeld-head (suc r.head) n (f i) (v.held i));
        distinct = v.distinct;
        served = tt;
        order = v.order ∙ ap (λ c. take c pushed) same;
      }
