-- ===== src/Book/Levels.antt =====
-- The maps of obr/src/full_order.cpp stay sorted, and each level's quantity is that of its orders.
use fast_server.Prelude.{
  ℕ, ◌≡◌, refl, sym, ap, ◌∙◌, subst, inl, inr, Bool, true, false, List, [], ◌∷◌, ◌++◌, arith,
  add_size, All, All-append, Bool-cases, ◌==◌,
}
use fast_server.Book.{
  Order, PriceLevel, Entry, OrderBook, is_before, empty_level, update_level, add_to_level,
  add_order,
}

abbrev pub total_quantity : List Order → ℕ
total_quantity [] = 0
total_quantity (o ∷ os) = add_size o.quantity (total_quantity os)

-- The level counts its orders, which have its price.
pub record IsLevel (price : ℕ) (l : PriceLevel) : Type 0 where
  pub counted : l.quantity ≡ total_quantity l.orders
  pub priced : All (λ o. o.price ≡ price) l.orders

-- The prices of the entries, on which a predicate is to hold.
abbrev pub AllPrices : (ℕ → Type 0) → List Entry → Type 0
AllPrices P es = All (λ e. P e.price) es

abbrev pub IsMap : Bool → List Entry → Type 0
IsMap asc [] = Unit
IsMap asc (e ∷ es) =
    AllPrices (λ p. is_before asc e.price p ≡ true) es × IsLevel e.price e.level × IsMap asc es

before_trans :
    (asc : Bool) (a b c : ℕ)
    → is_before asc a b ≡ true
    → is_before asc b c ≡ true
    → is_before asc a c ≡ true
before_trans true a b c h k = ground arith
before_trans false a b c h k = ground arith

before_eq : (asc : Bool) (a b : ℕ) → is_before asc a b ≡ false → is_before asc b a ≡ false → a ≡ b
before_eq true a b h k = ground arith
before_eq false a b h k = ground arith

All-map {ℓ} :
    {A : Type 0} {P Q : A → Type ℓ} (xs : List A) → ((x : A) → P x → Q x) → All P xs → All Q xs
All-map [] f h = tt
All-map (x ∷ xs) f (p, h) = (f x p, All-map xs f h)

-- An update adds no price but its own.
pub update-AllPrices :
    (P : ℕ → Type 0) (asc : Bool) (price : ℕ) (f : PriceLevel → PriceLevel) (es : List Entry)
    → P price
    → AllPrices P es
    → AllPrices P (update_level asc price f es)
unfolding update_level
update-AllPrices P asc price f [] p h = (p, tt)
update-AllPrices P asc price f (e ∷ es) p (q, h) = elim (Bool-cases (is_before asc price e.price)) [
  | inl b ↦ rw b (p, (q, h))
  | inr b ↦ (elim (Bool-cases (is_before asc e.price price)) [
    | inl c ↦ rw (b, c) (q, update-AllPrices P asc price f es p h)
    | inr c ↦ rw (b, c) (q, h)
  ])
]

-- An update that keeps a level's account keeps the map's order and the other levels.
pub update_level-IsMap :
    (asc : Bool) (price : ℕ) (f : PriceLevel → PriceLevel) (es : List Entry)
    → ((l : PriceLevel) → IsLevel price l → IsLevel price (f l))
    → IsMap asc es
    → IsMap asc (update_level asc price f es)
unfolding update_level
update_level-IsMap asc price f [] keep v =
    (tt, keep empty_level record { counted = refl; priced = tt }, tt)
update_level-IsMap asc price f (e ∷ es) keep (above, level, v) =
    elim (Bool-cases (is_before asc price e.price)) [
      | inl b ↦ rw b (
        (b, All-map es (λ x. before_trans asc price e.price x.price b) above),
        keep empty_level record { counted = refl; priced = tt },
        (above, level, v),
      )
      | inr b ↦ (elim (Bool-cases (is_before asc e.price price)) [
        | inl c ↦
            rw (b, c)
              (
                update-AllPrices (λ p. is_before asc e.price p ≡ true) asc price f es c above,
                level,
                update_level-IsMap asc price f es keep v,
              )
        | inr c ↦
            rw (b, c)
              (
                above,
                subst (λ p. IsLevel p e.level → IsLevel p (f e.level))
                    (before_eq asc price e.price b c) (keep e.level) level,
                v,
              )
      ])
    ]

-- Both maps of the book.
pub record IsBook (b : OrderBook) : Type 0 where
  pub asks : IsMap true b.ask_price_maps
  pub bids : IsMap false b.bid_price_maps

total-append :
    (os : List Order) (o : Order)
    → total_quantity (os ++ o ∷ []) ≡ add_size (total_quantity os) o.quantity
total-append [] o = omega arith
total-append (x ∷ os) o = omega (arith, total-append os o)

add_to_level-IsLevel :
    (o : Order) (l : PriceLevel) → IsLevel o.price l → IsLevel o.price (add_to_level o l)
add_to_level-IsLevel o l v = record {
  counted = ap (λ q. add_size q o.quantity) v.counted ∙ sym (total-append l.orders o);
  priced = All-append (λ x. x.price ≡ o.price) l.orders o v.priced refl;
}

-- What holds after either update, and of the book itself, holds of the book with the order.
pub add_order_cases :
    (P : OrderBook → Type 0) (o : Order) (b : OrderBook)
    → P (record b { bid_price_maps = update_level false o.price (add_to_level o) b.bid_price_maps })
    → P (record b { ask_price_maps = update_level true o.price (add_to_level o) b.ask_price_maps })
    → P b
    → P (add_order o b)
unfolding add_order
add_order_cases P o b bid ask other = elim (Bool-cases (o.side == 1)) [
  | inl e ↦ rw e bid
  | inr e ↦ (elim (Bool-cases (o.side == 2)) [ inl c ↦ rw (e, c) ask | inr c ↦ rw (e, c) other ])
]

-- An order joins the level of its price, a new one where there is none: both maps stay sorted by
-- price, and each level has the quantity of its orders, wrapped at 2 ^ 64, all of them at its
-- price.
pub add_order-IsBook : (o : Order) (b : OrderBook) → IsBook b → IsBook (add_order o b)
add_order-IsBook o b v =
    add_order_cases IsBook o b
      record {
        asks = v.asks;
        bids =
            update_level-IsMap false o.price (add_to_level o) b.bid_price_maps
              (add_to_level-IsLevel o) v.bids;
      }
      record {
        asks =
            update_level-IsMap true o.price (add_to_level o) b.ask_price_maps
              (add_to_level-IsLevel o) v.asks;
        bids = v.bids;
      }
      v
