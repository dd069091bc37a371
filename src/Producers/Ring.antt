-- ===== src/Producers/Ring.antt =====
-- ihs/include/kk.hpp, `MPSCRingBuffer`: what the slots hold, and the writes that threads make to them.
use fast_server.Prelude.{
  ℕ, suc, ◌+◌, ◌^◌, ◌≤◌, ◌<◌, ◌≡◌, ◌≢◌, ◌⊎◌, inl, inr, sym, ap, ◌∙◌, arith, List, [], ◌∷◌, ◌++◌,
  some, ltb, ◌==◌, Bool-cases, length, length-append, get_elem?, tests,
}
use fast_server.Producers.{MpscRingBuffer, put, slot_index}
use fast_server.Producers.Slots.{put_self, put_ne, slot_again, slot_injective, get_elem?-append_lt}

-- From position `c` on, the positions not yet consumed: one that no producer has taken has its own
-- number; a taken one too, or the next number and its item.
pub record IsRing {A : Type 0} (capacity c : ℕ) (pushed : List A) (r : MpscRingBuffer A)
    : Type 0 where
  pub counted : r.tail ≡ length pushed
  pub behind : c ≤ r.tail
  pub room : r.tail ≤ c + capacity
  pub free : (p : ℕ) → r.tail ≤ p → p < c + capacity → r.sequence (slot_index capacity p) ≡ p
  pub used :
      (p : ℕ)
      → c ≤ p
      → p < r.tail
      → (r.sequence (slot_index capacity p) ≡ p)
        ⊎ ((r.sequence (slot_index capacity p) ≡ suc p)
            × (get_elem? pushed p ≡ some (r.slot_data (slot_index capacity p))))

-- A position that a producer has taken and not yet passed on.
pub record InHand {A : Type 0} (capacity c : ℕ) (pushed : List A) (r : MpscRingBuffer A) (x : A)
    (t : ℕ) : Type 0 where
  pub above : c ≤ t
  pub below : t < r.tail
  pub own : r.sequence (slot_index capacity t) ≡ t
  pub logged : get_elem? pushed t ≡ some x

-- A position that the consumer may read.
pub record IsReady {A : Type 0} (capacity c : ℕ) (r : MpscRingBuffer A) : Type 0 where
  pub taken : c < r.tail
  pub passed : r.sequence (slot_index capacity c) ≡ suc c

module _ {A : Type 0} (capacity k : ℕ) (e : capacity ≡ 2 ^ k) (c : ℕ) (pushed : List A)
    (r : MpscRingBuffer A) (v : IsRing capacity c pushed r) where
  -- A producer whose sequence number is still right takes a position with room.
  pub has_room :
      (t : ℕ)
      → 1 < capacity
      → t ≡ r.tail
      → t ≤ r.sequence (slot_index capacity t)
      → t < c + capacity
  has_room t two h s = elim (Bool-cases (ltb t (c + capacity))) [
    | inl less ↦ omega (tests, less)
    | inr more ↦
        let full : t ≡ c + capacity = ground (arith, v.room) in
        let same = ap (r.sequence) (ap (slot_index capacity) full ∙ slot_again capacity k e c) in
        elim (v.used c (omega arith) (omega arith)) [
          | inl own ↦ absurd (omega (arith, same, own))
          | inr (passed, x) ↦ absurd (omega (arith, same, passed))
        ]
  ]

  -- The exchange on the tail.
  pub IsRing-claim :
      (x : A)
      → r.tail < c + capacity
      → IsRing capacity c (pushed ++ x ∷ []) (record r { tail = suc r.tail })
  IsRing-claim x less = record {
    counted = omega (arith, v.counted, length-append pushed (x ∷ []));
    behind = omega (arith, v.behind);
    room = omega arith;
    free = λ p a b. v.free p (omega arith) b;
    used = λ p a b. elim (Bool-cases (ltb p r.tail)) [
      | inl old ↦ elim (v.used p a (omega (tests, old))) [
        | inl own ↦ inl own
        | inr (passed, item) ↦
            inr
              (passed, get_elem?-append_lt pushed (x ∷ []) p (omega (tests, old, v.counted)) ∙ item)
      ]
      | inr new ↦ inl (v.free p (ground arith) (ground arith))
    ];
  }

  -- The write of an item into a position that a producer has.
  pub IsRing-write :
      (x : A) (t : ℕ)
      → InHand capacity c pushed r x t
      → IsRing capacity c pushed
          (record r { slot_data = put r.slot_data (slot_index capacity t) x })
  IsRing-write x t i = record {
    counted = v.counted;
    behind = v.behind;
    room = v.room;
    free = v.free;
    used = λ p a b. elim (v.used p a b) [
      | inl own ↦ inl own
      | inr (passed, item) ↦ inr (
        passed,
        item
            ∙ ap some (
                sym (
                  put_ne r.slot_data (slot_index capacity t) (slot_index capacity p) x (λ same.
                    absurd (
                      omega (
                        arith,
                        i.own,
                        passed,
                        ap r.sequence same,
                        slot_injective capacity k e c p t a (omega (arith, v.room)) i.above
                            (omega (arith, i.below, v.room)) same,
                      ))))),
      )
    ];
  }

  -- The write of the sequence number that passes a position on.
  pub IsRing-publish :
      (x : A) (t : ℕ)
      → InHand capacity c pushed r x t
      → r.slot_data (slot_index capacity t) ≡ x
      → IsRing capacity c pushed
          (record r { sequence = put r.sequence (slot_index capacity t) (suc t) })
  IsRing-publish x t i w = record {
    counted = v.counted;
    behind = v.behind;
    room = v.room;
    free = λ p a b.
        put_ne r.sequence (slot_index capacity t) (slot_index capacity p) (suc t) (λ same. absurd (
          omega (
            arith,
            i.below,
            slot_injective capacity k e c p t (omega (arith, v.behind)) b i.above
                (omega (arith, i.below, v.room)) same,
          )))
        ∙ v.free p a b;
    used = λ p a b. elim (Bool-cases (p == t)) [
      | inl same ↦
          let here : p ≡ t = ground arith in
          inr (
            put_self r.sequence (slot_index capacity t) (slot_index capacity p) (suc t)
                  (ap (slot_index capacity) here)
                ∙ ap suc (sym here),
            ap (get_elem? pushed) here
                ∙ i.logged
                ∙ ap some (sym w ∙ ap (λ n. r.slot_data (slot_index capacity n)) (sym here)),
          )
      | inr other ↦
          let away : p ≢ t = ground arith in
          let old =
            put_ne r.sequence (slot_index capacity t) (slot_index capacity p) (suc t) (λ same.
              away (
                slot_injective capacity k e c p t a (omega (arith, v.room)) i.above
                  (omega (arith, i.below, v.room)) same)) in
          elim (v.used p a b) [
            | inl own ↦ inl (old ∙ own)
            | inr (passed, item) ↦ inr (old ∙ passed, item)
          ]
    ];
  }

  -- The write of the sequence number that gives the consumer's position free, for its next round.
  pub IsRing-release :
      (n : ℕ)
      → 0 < capacity
      → n ≡ c + capacity
      → IsReady capacity c r
      → IsRing capacity
          (suc c)
          pushed
          (record r { sequence = put r.sequence (slot_index capacity c) n })
  IsRing-release n some_room d i = record {
    counted = v.counted;
    behind = i.taken;
    room = omega (arith, v.room);
    free = λ p a b. elim (Bool-cases (p == n)) [
      | inl here ↦
          let same : p ≡ n = ground arith in
          put_self r.sequence (slot_index capacity c) (slot_index capacity p) n
            (ap (slot_index capacity) (same ∙ d) ∙ slot_again capacity k e c)
          ∙ sym same
      | inr there ↦
          let less : p < c + capacity = ground arith in
          put_ne r.sequence (slot_index capacity c) (slot_index capacity p) n (λ same. absurd (
            omega (
              arith,
              i.taken,
              slot_injective capacity k e c p c (omega (arith, i.taken)) less (omega arith)
                  (omega arith) same,
            )))
          ∙ v.free p a less
    ];
    used = λ p a b.
        let old = put_ne r.sequence (slot_index capacity c) (slot_index capacity p) n (λ same.
          absurd (
            omega (
              arith,
              slot_injective capacity k e c p c (omega arith) (omega (arith, v.room)) (omega arith)
                  (omega arith) same,
            ))) in
        elim (v.used p (omega arith) b) [
          | inl own ↦ inl (old ∙ own)
          | inr (passed, item) ↦ inr (old ∙ passed, item)
        ];
  }
