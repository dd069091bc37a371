-- ===== src/Producers/Threads.antt =====
-- ihs/include/kk.hpp, `MPSCRingBuffer`: the invariant of all threads.
use fast_server.Prelude.{
  ℕ, suc, ◌≡◌, ◌≢◌, inl, inr, sym, ap, subst, ◌∙◌, arith, List, some, ◌==◌, Bool-cases, get_elem?,
  take,
}
use fast_server.Producers.{
  MpscRingBuffer, Producer, put, Consumer, waiting, located, ready, holding, released, pop_returned,
}
use fast_server.Producers.Slots.{put_self, put_ne}
use fast_server.Producers.Ring.{IsRing, IsReady}
use fast_server.Producers.Held.{place, IsHeld}

module _ {A : Type 0} where
  -- The number of positions that the consumer is done with.
  abbrev pub consumed : Consumer A → ℕ → ℕ
  consumed waiting head = head
  consumed (located h) head = head
  consumed (ready h) head = head
  consumed (holding h x) head = head
  consumed (released h x) head = suc head
  consumed (pop_returned out) head = head

  abbrev pub IsServed : ℕ → List A → MpscRingBuffer A → Consumer A → Type 0
  IsServed capacity pushed r waiting = Unit
  IsServed capacity pushed r (located h) = h ≡ r.head
  IsServed capacity pushed r (ready h) = (h ≡ r.head) × IsReady capacity h r
  IsServed capacity pushed r (holding h x) =
      (h ≡ r.head) × IsReady capacity h r × (get_elem? pushed h ≡ some x)
  IsServed capacity pushed r (released h x) = h ≡ r.head
  IsServed capacity pushed r (pop_returned out) = Unit

  abbrev pub IsDistinct : (ℕ → Producer A) → Type 0
  IsDistinct f = (i j t : ℕ) → place (f i) ≡ some t → place (f j) ≡ some t → i ≡ j

-- The ring is well formed, no position is taken twice, each thread knows what holds, and the items
-- popped are the first ones pushed.
pub record IsValid {A : Type 0} (capacity : ℕ) (r : MpscRingBuffer A) (f : ℕ → Producer A)
    (q : Consumer A) (pushed popped : List A) : Type 0 where
  pub ring : IsRing capacity (consumed q r.head) pushed r
  pub held : (i : ℕ) → IsHeld capacity (consumed q r.head) pushed r (f i)
  pub distinct : (i j t : ℕ) → place (f i) ≡ some t → place (f j) ≡ some t → i ≡ j
  pub served : IsServed capacity pushed r q
  pub order : popped ≡ take (consumed q r.head) pushed

module _ {A : Type 0} where
  pub put-all :
      (P : Producer A → Type 0) (f : ℕ → Producer A) (i : ℕ) (p : Producer A)
      → P p
      → ((j : ℕ) → j ≢ i → P (f j))
      → (j : ℕ) → P (put f i p j)
  put-all P f i p h rest j = elim (Bool-cases (j == i)) [
    | inl same ↦ subst P (sym (put_self f i j p (ground arith))) h
    | inr other ↦
        let away : j ≢ i = ground arith in subst P (sym (put_ne f i j p away)) (rest j away)
  ]

  pub put-IsDistinct :
      (f : ℕ → Producer A) (i : ℕ) (p : Producer A)
      → IsDistinct f
      → ((j t : ℕ) → place p ≡ some t → j ≢ i → place (f j) ≢ some t)
      → IsDistinct (put f i p)
  put-IsDistinct f i p d new a b t x y = elim (Bool-cases (a == i)) [
    | inl s ↦ elim (Bool-cases (b == i)) [
      | inl s2 ↦ ground arith
      | inr o2 ↦ absurd (
          new b t (ap place (sym (put_self f i a p (ground arith))) ∙ x) (ground arith)
            (ap place (sym (put_ne f i b p (ground arith))) ∙ y))
    ]
    | inr o ↦ elim (Bool-cases (b == i)) [
      | inl s2 ↦ absurd (
          new a t (ap place (sym (put_self f i b p (ground arith))) ∙ y) (ground arith)
            (ap place (sym (put_ne f i a p (ground arith))) ∙ x))
      | inr o2 ↦
          d a b t (ap place (sym (put_ne f i a p (ground arith))) ∙ x)
            (ap place (sym (put_ne f i b p (ground arith))) ∙ y)
    ]
  ]
