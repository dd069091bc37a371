-- ===== src/Pipeline/Window.antt =====
-- ihs/src/system.cpp: what the ring holds, and what the receiver and one parser know of it.
use native.Mathlib.Nat.{mod-add-mod, add-mul-mod_self_right}
use fast_server.Prelude.{
  ℕ, zero, suc, ◌+◌, ◌-◌, ◌*◌, ◌%◌, ◌^◌, ◌≤◌, ◌<◌, ◌≡◌, ◌≢◌, sym, ap, ◌∙◌, Bool-cases, inl, inr,
  false, List, [], ◌∷◌, ◌++◌, ◌==◌, arith,
}
use fast_server.Queue.Items.{other_slot}
use fast_server.Producers.{put}
use fast_server.Producers.Slots.{put_ne}
use fast_server.Pipeline.{
  raw_data, Receiver, generating, testing, writing, publishing, Popping, polling, comparing,
  reading, storing, System,
}

-- The data that the receiver makes after `k` others.
abbrev pub item : ℕ → List ℕ
item k = raw_data ((k + 1) % 2 ^ 64)

unfoldable pub first_items : ℕ → List (List ℕ)
first_items zero = []
first_items (suc n) = first_items n ++ item n ∷ []

-- The ring holds the items from `from` on that were pushed.
unfoldable pub IsFilled : ℕ → ℕ → ℕ → (ℕ → List ℕ) → Type 0
IsFilled slots from p ring = (k : ℕ) → from ≤ k → k < p → ring (k % slots) ≡ item k

-- What the receiver and the one parser know, `p` items being pushed and `q` popped.
unfoldable pub ReceiverKnows : ℕ → ℕ → ℕ → ℕ → (ℕ → List ℕ) → Receiver → Type 0
ReceiverKnows slots p q seq ring generating = seq ≡ p % 2 ^ 64
ReceiverKnows slots p q seq ring (testing x) = (seq ≡ (p + 1) % 2 ^ 64) × (x ≡ item p)
ReceiverKnows slots p q seq ring (writing x) =
    (seq ≡ (p + 1) % 2 ^ 64) × (x ≡ item p) × (p + 1 < q + slots)
ReceiverKnows slots p q seq ring publishing =
    (seq ≡ (p + 1) % 2 ^ 64) × (ring (p % slots) ≡ item p) × (p + 1 < q + slots)

unfoldable pub ParserKnows : ℕ → ℕ → ℕ → (ℕ → List ℕ) → Popping → Type 0
ParserKnows slots p q ring polling = IsFilled slots q p ring
ParserKnows slots p q ring (comparing h) = (h ≡ q % slots) × IsFilled slots q p ring
ParserKnows slots p q ring (reading h) = (h ≡ q % slots) × (q < p) × IsFilled slots q p ring
ParserKnows slots p q ring (storing h x) =
    (h ≡ q % slots) × (q < p) × (x ≡ item q) × IsFilled slots (suc q) p ring

unfoldable pub Counts : ℕ → ℕ → ℕ → System → Type 0
Counts slots p q s =
    (s.head ≡ q % slots)
    × (s.tail ≡ p % slots)
    × (q ≤ p)
    × (p < q + slots)
    × (s.parsed ≡ first_items q)

-- What holds whenever `p` items are pushed and `q` popped.
unfoldable pub IsSafe : ℕ → ℕ → ℕ → System → Type 0
IsSafe slots p q s =
    Counts slots p q s
    × ReceiverKnows slots p q s.seq s.ring s.receiver
    × ParserKnows slots p q s.ring (s.parsers 0)

pub next_slot : (slots n i : ℕ) → i ≡ n % slots → (i + 1) % slots ≡ (n + 1) % slots
next_slot slots n i e = ap (λ k. (k + 1) % slots) e ∙ mod-add-mod n slots 1

-- A slot that is written lies outside the window of the others.
pub IsFilled-put :
    (slots from p n : ℕ) (x : List ℕ) (ring : ℕ → List ℕ)
    → ((k : ℕ) → from ≤ k → k < p → k % slots ≢ n)
    → IsFilled slots from p ring
    → IsFilled slots from p (put ring n x)
unfolding IsFilled
IsFilled-put slots from p n x ring h f k a b = put_ne ring n (k % slots) x (h k a b) ∙ f k a b

pub far_slot : (slots j k : ℕ) → j < k → k < j + slots → k % slots ≢ j % slots
far_slot slots j k h l e =
    other_slot slots j (k - j) (omega arith) (omega arith)
      (ap (λ n. n % slots) {x = j + (k - j)} (omega arith) ∙ e)

IsFilled-behind :
    (slots q from p : ℕ) (x : List ℕ) (ring : ℕ → List ℕ)
    → q ≤ from
    → p < q + slots
    → IsFilled slots from p ring
    → IsFilled slots from p (put ring (p % slots) x)
IsFilled-behind slots q from p x ring h l f =
    IsFilled-put slots from p (p % slots) x ring
      (λ k a b e. far_slot slots k p b (omega arith) (sym e)) f

pub ParserKnows-put :
    (slots p q : ℕ) (x : List ℕ) (ring : ℕ → List ℕ) (w : Popping)
    → p < q + slots
    → ParserKnows slots p q ring w
    → ParserKnows slots p q (put ring (p % slots) x) w
unfolding ParserKnows
ParserKnows-put slots p q x ring polling l h = IsFilled-behind slots q q p x ring (omega arith) l h
ParserKnows-put slots p q x ring (comparing i) l (a, h) =
    (a, IsFilled-behind slots q q p x ring (omega arith) l h)
ParserKnows-put slots p q x ring (reading i) l (a, b, h) =
    (a, b, IsFilled-behind slots q q p x ring (omega arith) l h)
ParserKnows-put slots p q x ring (storing i y) l (a, b, c, h) =
    (a, b, c, IsFilled-behind slots q (suc q) p x ring (omega arith) l h)

-- One item more is there.
IsFilled-suc :
    (slots from p : ℕ) (ring : ℕ → List ℕ)
    → ring (p % slots) ≡ item p
    → IsFilled slots from p ring
    → IsFilled slots from (p + 1) ring
unfolding IsFilled
IsFilled-suc slots from p ring e f k a b = elim (Bool-cases (k == p)) [
  | inl d ↦
      ap (λ n. ring (n % slots)) {x = k} {y = p} (ground arith)
      ∙ e
      ∙ ap item {x = p} {y = k} (ground arith)
  | inr d ↦ f k a (ground arith)
]

pub ParserKnows-suc :
    (slots p q : ℕ) (ring : ℕ → List ℕ) (w : Popping)
    → ring (p % slots) ≡ item p
    → ParserKnows slots p q ring w
    → ParserKnows slots (p + 1) q ring w
unfolding ParserKnows
ParserKnows-suc slots p q ring polling e h = IsFilled-suc slots q p ring e h
ParserKnows-suc slots p q ring (comparing i) e (a, h) = (a, IsFilled-suc slots q p ring e h)
ParserKnows-suc slots p q ring (reading i) e (a, b, h) =
    (a, omega arith, IsFilled-suc slots q p ring e h)
ParserKnows-suc slots p q ring (storing i x) e (a, b, c, h) =
    (a, omega arith, c, IsFilled-suc slots (suc q) p ring e h)

-- The test of `push` leaves a slot free.
pub room :
    (slots p q : ℕ) (s : System)
    → Counts slots p q s
    → ((s.tail + 1) % slots == s.head) ≡ false
    → p + 1 < q + slots
unfolding Counts
room slots p q s (a, b, c, d, f) h = elim (Bool-cases (p + 1 == q + slots)) [
  | inr e ↦ ground arith
  | inl e ↦
      let wraps =
        next_slot slots p s.tail b
        ∙ ap (λ n. n % slots) {x = p + 1} {y = q + 1 * slots} (ground arith)
        ∙ add-mul-mod_self_right q 1 slots
        ∙ sym a in
      absurd (ground (arith, wraps, h))
]
