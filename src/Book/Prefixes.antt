-- ===== src/Book/Prefixes.antt =====
-- The prefix sums of obr/src/full_order.cpp hold the book's prices and the sentinel, and
-- `lower_bound` finds one of them.
use fast_server.Prelude.{
  ℕ, ◌≡◌, ◌⊎◌, refl, inl, inr, ap, ◌∙◌, subst, Bool, true, false, List, [], ◌∷◌, some, arith, All,
  Bool-cases, add_size,
}
use fast_server.Book.{Entry, is_before, update_level}
use fast_server.Book.Levels.{IsMap, AllPrices}
use fast_server.Book.Auction.{Prefix, assign, prefix_sums, lower_bound}

-- The map has an entry at the price.
abbrev pub Has : ℕ → List Entry → Type 0
Has p [] = ⊥
Has p (e ∷ es) = (e.price ≡ p) ⊎ Has p es

abbrev pub HasPrefix : ℕ → List Prefix → Type 0
HasPrefix p [] = ⊥
HasPrefix p (q ∷ qs) = (q.price ≡ p) ⊎ HasPrefix p qs

pub assign-All :
    (P : ℕ → Type 0) (asc : Bool) (p : Prefix) (qs : List Prefix)
    → P p.price
    → All (λ q. P q.price) qs
    → All (λ q. P q.price) (assign asc p qs)
unfolding assign
assign-All P asc p [] h k = (h, tt)
assign-All P asc p (q ∷ qs) h (k, ks) = elim (Bool-cases (is_before asc p.price q.price)) [
  | inl b ↦ rw b (h, (k, ks))
  | inr b ↦ (elim (Bool-cases (is_before asc q.price p.price)) [
    | inl c ↦ rw (b, c) (k, assign-All P asc p qs h ks)
    | inr c ↦ rw (b, c) (h, ks)
  ])
]

assign-HasPrefix :
    (asc : Bool) (p : Prefix) (qs : List Prefix) → HasPrefix p.price (assign asc p qs)
unfolding assign
assign-HasPrefix asc p [] = inl refl
assign-HasPrefix asc p (q ∷ qs) = elim (Bool-cases (is_before asc p.price q.price)) [
  | inl b ↦ rw b (inl refl)
  | inr b ↦ (elim (Bool-cases (is_before asc q.price p.price)) [
    | inl c ↦ rw (b, c) (inr (assign-HasPrefix asc p qs))
    | inr c ↦ rw (b, c) (inl refl)
  ])
]

-- Every price of the sums is the sentinel or a price of the map.
pub prefix_sums-All :
    (P : ℕ → Type 0) (asc : Bool) (s : ℕ) (es : List Entry) (total : ℕ) (qs : List Prefix)
    → P s
    → AllPrices P es
    → All (λ q. P q.price) qs
    → All (λ q. P q.price) (prefix_sums asc s es total qs)
unfolding prefix_sums
prefix_sums-All P asc s [] total qs h tt k =
    assign-All P asc record { price = s; sum = total } qs h k
prefix_sums-All P asc s (e ∷ es) total qs h (p, ps) k =
    prefix_sums-All P asc s es (add_size total e.level.quantity)
      (assign asc record { price = e.price; sum = total } qs) h ps
      (assign-All P asc record { price = e.price; sum = total } qs p k)

pub prefix_sums-HasPrefix :
    (asc : Bool) (s : ℕ) (es : List Entry) (total : ℕ) (qs : List Prefix)
    → HasPrefix s (prefix_sums asc s es total qs)
unfolding prefix_sums
prefix_sums-HasPrefix asc s [] total qs = assign-HasPrefix asc record { price = s; sum = total } qs
prefix_sums-HasPrefix asc s (e ∷ es) total qs =
    prefix_sums-HasPrefix asc s es (add_size total e.level.quantity)
      (assign asc record { price = e.price; sum = total } qs)

-- Where a sentinel is not before the price, the search finds an entry.
pub lower_bound-some :
    (P : ℕ → Type 0) (asc : Bool) (s p : ℕ) (qs : List Prefix)
    → HasPrefix s qs
    → is_before asc s p ≡ false
    → All (λ q. P q.price) qs
    → (q : Prefix) × (lower_bound asc p qs ≡ some q) × P q.price
unfolding lower_bound
lower_bound-some P asc s p [] h b k = absurd h
lower_bound-some P asc s p (q ∷ qs) h b (k, ks) = elim (Bool-cases (is_before asc q.price p)) [
  | inr e ↦ rw e (q, refl, k)
  | inl e ↦ (elim h [
    | inl same ↦ ground (arith, e, same, b)
    | inr more ↦ let (r, found, t) = lower_bound-some P asc s p qs more b ks in rw e (r, found, t)
  ])
]

before_irrefl : (asc : Bool) (p : ℕ) → is_before asc p p ≡ false
before_irrefl true p = ground arith
before_irrefl false p = ground arith

before_asym : (asc : Bool) (a b : ℕ) → is_before asc a b ≡ true → is_before asc b a ≡ false
before_asym true a b h = ground arith
before_asym false a b h = ground arith

at_price : (P : ℕ → Type 0) (p : ℕ) (es : List Entry) → Has p es → AllPrices P es → P p
at_price P p [] h k = absurd h
at_price P p (e ∷ es) (inl same) (k, ks) = subst P same k
at_price P p (e ∷ es) (inr more) (k, ks) = at_price P p es more ks

-- A price of the map needs no insertion.
pub update_level_same :
    (asc : Bool) (p : ℕ) (es : List Entry)
    → IsMap asc es
    → Has p es
    → update_level asc p (λ l. l) es ≡ es
unfolding update_level
update_level_same asc p [] v h = absurd h
update_level_same asc p (e ∷ es) (above, l, v) (inl same) =
    let first : is_before asc p e.price ≡ false = ap (is_before asc p) same ∙ before_irrefl asc p in
    let second : is_before asc e.price p ≡ false =
      ap (λ t. is_before asc t p) same ∙ before_irrefl asc p in
    rw (first, second) refl
update_level_same asc p (e ∷ es) (above, l, v) (inr more) =
    let above_p = at_price (λ t. is_before asc e.price t ≡ true) p es more above in
    rw (before_asym asc e.price p above_p, above_p)
      (ap (λ t. e ∷ t) (update_level_same asc p es v more))
