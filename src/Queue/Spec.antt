-- ===== src/Queue/Spec.antt =====
-- What the queues of ihs/include promise one caller: a first-in first-out queue of at most `limit`
-- elements, whose calls fail when it is full or empty.
use fast_server.Prelude.{
  ℕ, Bool, true, false, List, [], ◌∷◌, ◌++◌, Option, none, some, ltb, if◌then◌else◌, length,
}

pub data Op (A : Type 0) : Type 0 where
  push : A → Op A
  pop : Op A

-- What a call returns: whether it succeeded, and the element that `pop` hands over.
abbrev pub Reply : Type 0 → Type 0
Reply A = Bool × Option A

module _ {A : Type 0} where
  unfoldable pub enqueue : ℕ → A → List A → Bool × List A
  enqueue limit x q = if ltb (length q) limit then (true, q ++ x ∷ []) else (false, q)

  unfoldable pub dequeue : List A → Option A × List A
  dequeue [] = (none, [])
  dequeue (x ∷ q) = (some x, q)

  abbrev pub succeeded : Option A → Bool
  succeeded none = false
  succeeded (some x) = true

  unfoldable pub run : ℕ → List A → List (Op A) → List (Reply A)
  run limit q [] = []
  run limit q (push x ∷ os) = let (ok, q') = enqueue limit x q in (ok, none) ∷ run limit q' os
  run limit q (pop ∷ os) = let (out, q') = dequeue q in (succeeded out, out) ∷ run limit q' os
