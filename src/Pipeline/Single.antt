-- ===== src/Pipeline/Single.antt =====
-- ihs/src/system.cpp: the steps of the receiver and of one parser.

use fast_server.Prelude.{
  ℕ, suc, ◌+◌, ◌-◌, ◌*◌, ◌%◌, ◌^◌, ◌≤◌, ◌<◌, ◌≡◌, sym, ap, ◌∙◌, subst, Bool-cases, inl, inr, true,
  false, List, [], ◌∷◌, ◌++◌, ◌==◌, if◌then◌else◌, arith,
}
use fast_server.Producers.{put}
use fast_server.Producers.Slots.{put_self, put_ne}
use fast_server.Pipeline.{
  raw_data, Receiver, generating, testing, writing, publishing, Popping, polling, comparing,
  reading, storing, System, receiver_act, parser_act,
}
use fast_server.Pipeline.Window.{
  first_items, IsFilled, ReceiverKnows, ParserKnows, Counts, IsSafe, next_slot, IsFilled-put,
  far_slot, ParserKnows-put, ParserKnows-suc, room,
}

pub receiver_act-IsSafe :
    (slots : ℕ) (moved : List ℕ → List ℕ) (p q : ℕ) (r : Receiver) (s : System)
    → s.receiver ≡ r
    → Counts slots p q s
    → ReceiverKnows slots p q s.seq s.ring r
    → ParserKnows slots p q s.ring (s.parsers 0)
    → (n : ℕ) × IsSafe slots n q (receiver_act slots moved r s)
unfolding IsSafe Counts ReceiverKnows receiver_act
receiver_act-IsSafe slots moved p q generating s e c r k =
    let next : (s.seq + 1) % 2 ^ 64 ≡ (p + 1) % 2 ^ 64 = omega arith in
    (p, (c, (next, ap raw_data next), k))
receiver_act-IsSafe slots moved p q (testing x) s e c (r, y) k =
    elim (Bool-cases ((s.tail + 1) % slots == s.head)) [
      | inl d ↦ (
        p,
        subst (λ b. IsSafe slots p q (if b then s else record s { receiver = writing x })) (sym d)
            (c, subst (ReceiverKnows slots p q s.seq s.ring) (sym e) (r, y), k),
      )
      | inr d ↦ (
        p,
        subst (λ b. IsSafe slots p q (if b then s else record s { receiver = writing x })) (sym d)
            (c, (r, y, room slots p q s c d), k),
      )
    ]
receiver_act-IsSafe slots moved p q (writing x) s e (a, b, c, d, f) (r, y, room) k = (
  p,
  (
    (a, b, c, d, f),
    (r, put_self s.ring s.tail (p % slots) x (sym b) ∙ y, room),
    subst (λ n. ParserKnows slots p q (put s.ring n x) (s.parsers 0)) (sym b)
        (ParserKnows-put slots p q x s.ring (s.parsers 0) d k),
  ),
)
receiver_act-IsSafe slots moved p q publishing s e (a, b, c, d, f) (r, y, room) k = (
  p + 1,
  (
    (a, next_slot slots p s.tail b, omega arith, room, f),
    r,
    ParserKnows-suc slots p q s.ring (s.parsers 0) y k,
  ),
)

-- The receiver's knowledge does not hang on the slot of the item that is popped.
ReceiverKnows-put :
    (slots p q : ℕ) (x : List ℕ) (seq : ℕ) (ring : ℕ → List ℕ) (r : Receiver)
    → q < p
    → p < q + slots
    → ReceiverKnows slots p q seq ring r
    → ReceiverKnows slots p q seq (put ring (q % slots) x) r
unfolding ReceiverKnows
ReceiverKnows-put slots p q x seq ring generating h l k = k
ReceiverKnows-put slots p q x seq ring (testing y) h l k = k
ReceiverKnows-put slots p q x seq ring (writing y) h l k = k
ReceiverKnows-put slots p q x seq ring publishing h l (a, b, c) =
    (a, put_ne ring (q % slots) (p % slots) x (far_slot slots q p h l) ∙ b, c)

ReceiverKnows-suc :
    (slots p q seq : ℕ) (ring : ℕ → List ℕ) (r : Receiver)
    → ReceiverKnows slots p q seq ring r
    → ReceiverKnows slots p (q + 1) seq ring r
unfolding ReceiverKnows
ReceiverKnows-suc slots p q seq ring generating k = k
ReceiverKnows-suc slots p q seq ring (testing y) k = k
ReceiverKnows-suc slots p q seq ring (writing y) (a, b, c) = (a, b, omega arith)
ReceiverKnows-suc slots p q seq ring publishing (a, b, c) = (a, b, omega arith)

-- The test of `pop` leaves an item.
filled :
    (slots p q h : ℕ) (s : System)
    → Counts slots p q s
    → h ≡ q % slots
    → (h == s.tail) ≡ false
    → q < p
unfolding Counts
filled slots p q h s (a, b, c, d, f) y g = elim (Bool-cases (q == p)) [
  | inr e ↦ ground arith
  | inl e ↦
      let same = y ∙ ap (λ n. n % slots) {x = q} {y = p} (ground arith) ∙ sym b in
      absurd (ground (arith, same, g))
]

emptied :
    (slots p q h : ℕ) (s : System)
    → Counts slots p q s
    → h ≡ q % slots
    → (h == s.tail) ≡ true
    → q ≡ p
unfolding Counts
emptied slots p q h s (a, b, c, d, f) y g = elim (Bool-cases (q == p)) [
  | inl e ↦ ground arith
  | inr e ↦ absurd (far_slot slots q p (ground arith) (omega arith) (sym b ∙ ground arith ∙ y))
]

-- The steps that a parser has left until it has popped `d` items.
unfoldable pub left : Popping → ℕ → ℕ
left polling d = 4 * d
left (comparing h) d = 4 * d - 1
left (reading h) d = 4 * d - 2
left (storing h x) d = 4 * d - 3

pub parser_act-IsSafe :
    (slots : ℕ) (moved : List ℕ → List ℕ) (p q : ℕ) (w : Popping) (s : System)
    → Counts slots p q s
    → ReceiverKnows slots p q s.seq s.ring s.receiver
    → ParserKnows slots p q s.ring w
    → (n : ℕ) × IsSafe slots p n (parser_act slots moved 0 w s)
      × (left ((parser_act slots moved 0 w s).parsers 0) (p - n) ≤ left w (p - q) - 1)
unfolding IsSafe Counts ParserKnows parser_act put first_items IsFilled left
parser_act-IsSafe slots moved p q polling s (a, b, c, d, f) r k =
    (q, ((a, b, c, d, f), r, (a, k)), omega arith)
parser_act-IsSafe slots moved p q (comparing h) s (a, b, c, d, f) r (y, k) =
    elim (Bool-cases (h == s.tail)) [
      | inl g ↦ (
        q,
        (
          (a, b, c, d, f),
          r,
          subst (λ t. ParserKnows slots p q s.ring (if t then polling else reading h)) (sym g) k,
        ),
        subst (λ t. left (if t then polling else reading h) (p - q) ≤ 4 * (p - q) - 1 - 1) (sym g)
            (omega (arith, emptied slots p q h s (a, b, c, d, f) y g)),
      )
      | inr g ↦
          let less = filled slots p q h s (a, b, c, d, f) y g in
          (
            q,
            (
              (a, b, c, d, f),
              r,
              subst (λ t. ParserKnows slots p q s.ring (if t then polling else reading h)) (sym g)
                  (y, less, k),
            ),
            subst (λ t. left (if t then polling else reading h) (p - q) ≤ 4 * (p - q) - 1 - 1)
                (sym g) (omega arith),
          )
    ]
parser_act-IsSafe slots moved p q (reading h) s (a, b, c, d, f) r (y, l, k) = (
  q,
  (
    (a, b, c, d, f),
    subst (λ n. ReceiverKnows slots p q s.seq (put s.ring n (moved (s.ring h))) s.receiver) (sym y)
        (ReceiverKnows-put slots p q (moved (s.ring h)) s.seq s.ring s.receiver l d r),
    (
      y,
      l,
      ap s.ring y ∙ k q (omega arith) l,
      IsFilled-put slots (suc q) p h (moved (s.ring h)) s.ring
          (λ j u v w. far_slot slots q j u (omega arith) (w ∙ y)) (λ j u v. k j (omega arith) v),
    ),
  ),
  omega arith,
)
parser_act-IsSafe slots moved p q (storing h x) s (a, b, c, d, f) r (y, l, i, k) = (
  q + 1,
  (
    (
      next_slot slots q h y,
      b,
      omega arith,
      omega arith,
      ap (λ xs. xs ++ x ∷ []) f
          ∙ ap (λ z. first_items q ++ z ∷ []) i
          ∙ ap first_items {x = suc q} {y = q + 1} (omega arith),
    ),
    ReceiverKnows-suc slots p q s.seq s.ring s.receiver r,
    subst (λ n. IsFilled slots n p s.ring) {x = suc q} {y = q + 1} (omega arith) k,
  ),
  omega arith,
)
