-- ===== src/Book/Uncrossed.antt =====
-- The matching loop of obr/src/full_order.cpp ends, each trade uses up an order, and what is left
-- does not cross.
use native.Mathlib.Decide.{dec_le}
use fast_server.Prelude.{
  ℕ, zero, suc, ◌+◌, ◌≤◌, ◌<◌, ◌≡◌, ◌⊎◌, inl, inr, refl, Bool, true, false, ◌||◌, List, [], ◌∷◌,
  none, some, arith, length, sub_size, min, Bool-cases, ◌==◌,
}
use fast_server.Book.{Order, Entry}
use fast_server.Book.Match.{
  OrderIterator, Matched, next_entry, is_end, deref, advance, refill, match_round, crosses,
  match_orders, count_orders, orders_left,
}

-- The iterator stands at an order.
pub record IsOpen (it : OrderIterator) : Type 0 where
  pub entries : 0 < length it.map_iter
  pub orders : 0 < length it.list_iter

pub left-next_entry : (es : List Entry) → orders_left (next_entry es) ≡ count_orders es
unfolding next_entry
left-next_entry [] = refl
left-next_entry (e ∷ es) = ground (arith, left-next_entry es)

-- `next_entry` is at the end or at an order.
pub next_entry-IsOpen :
    (es : List Entry)
    → IsOpen (next_entry es) ⊎ ((is_end (next_entry es) ≡ true) × (deref (next_entry es) ≡ none))
unfolding next_entry
next_entry-IsOpen [] = inr (refl, refl)
next_entry-IsOpen (e ∷ es) = ground (arith, next_entry-IsOpen es)

-- Whether an iterator is at the end or at an order, `advance` takes one order off.
abbrev Moved : OrderIterator → ℕ → Type 0
Moved it n = (orders_left it + 1 ≡ n) × (IsOpen it ⊎ ((is_end it ≡ true) × (deref it ≡ none)))

advance_at :
    (es : List Entry) (os : List Order)
    → 0 < length es
    → 0 < length os
    → let it : OrderIterator = record { map_iter = es; list_iter = os } in
      Moved (advance it) (orders_left it)
unfolding advance
advance_at [] os h k = absurd (omega arith)
advance_at (e ∷ es) [] h k = absurd (omega arith)
advance_at (e ∷ es) (o ∷ []) h k = (omega (arith, left-next_entry es), next_entry-IsOpen es)
advance_at (e ∷ es) (o ∷ o' ∷ os) h k =
    (omega arith, inl record { entries = omega arith; orders = omega arith })

-- What `refill` makes of one side of a trade.
record Refilled (it : OrderIterator) (o : Order) (end : Bool) (it' : OrderIterator) : Type 0 where
  fewer : orders_left it' ≤ orders_left it
  used : o.quantity ≡ 0 → orders_left it' + 1 ≤ orders_left it
  ended : end ≡ true → is_end it' ≡ true
  going : end ≡ false → IsOpen it'

pub deref_open : (it : OrderIterator) → IsOpen it → (o : Order) × (deref it ≡ some o)
deref_open it v = go it.list_iter v.orders
  where
    go :
        (os : List Order)
        → 0 < length os
        → (o : Order) × ((elim os [ [] ↦ none | o ∷ os ↦ some o ]) ≡ some o)
    go [] h = absurd (omega arith)
    go (o ∷ os) h = (o, refl)

refill_lem :
    (it : OrderIterator) (o : Order)
    → IsOpen it
    → let (end, it', o') = refill it o in Refilled it o end it'
unfolding refill
refill_lem it o v =
    let moved = advance_at it.map_iter it.list_iter v.entries v.orders in
    elim (Bool-cases (o.quantity == 0)) [
      | inl e ↦ (elim moved.1 [
        | inl opened ↦
            let next = deref_open (advance it) opened in
            rw (e, next.1)
              record {
                fewer = omega (arith, moved.0);
                used = λ z. omega (arith, moved.0);
                ended = λ f. ground (arith, f);
                going = λ f. opened;
              }
        | inr done ↦
            rw (e, done.1)
              record {
                fewer = omega (arith, moved.0);
                used = λ z. omega (arith, moved.0);
                ended = λ f. done.0;
                going = λ f. ground (arith, f);
              }
      ])
      | inr e ↦ rw e record {
        fewer = omega arith;
        used = λ z. ground (arith, e);
        ended = λ f. ground (arith, f);
        going = λ f. v;
      }
    ]

-- A trade uses up an order of one side at least.
min-left : (a b : ℕ) → (sub_size a (min a b) ≡ 0) ⊎ (sub_size b (min a b) ≡ 0)
min-left a b = elim (dec_le a b) [ yes h ↦ inl (omega arith) | no h ↦ inr (omega arith) ]

or_true : (a b : Bool) → (a || b) ≡ true → (a ≡ true) ⊎ (b ≡ true)
or_true true b e = inl refl
or_true false b e = inr e

or_false : (a b : Bool) → (a || b) ≡ false → (a ≡ false) × (b ≡ false)
or_false true b e = ground (arith, e)
or_false false b e = (refl, e)

-- The orders before both iterators.
abbrev both_left : Matched → ℕ
both_left m = orders_left m.buy_it + orders_left m.sell_it

record Traded (m : Matched) (finished : Bool) (m' : Matched) : Type 0 where
  fewer : m'.trade_count + both_left m' ≤ m.trade_count + both_left m
  less : both_left m' < both_left m
  ended : finished ≡ true → (is_end m'.buy_it ≡ true) ⊎ (is_end m'.sell_it ≡ true)
  going : finished ≡ false → IsOpen m'.buy_it × IsOpen m'.sell_it

match_round_lem :
    (m : Matched)
    → IsOpen m.buy_it
    → IsOpen m.sell_it
    → let (finished, m') = match_round m in Traded m finished m'
unfolding match_round
match_round_lem m v w =
    let volume = min m.buy_order.quantity m.sell_order.quantity in
    let buy =
      refill_lem m.buy_it (record m.buy_order { quantity = sub_size m.buy_order.quantity volume })
        v in
    let sell =
      refill_lem m.sell_it
        (record m.sell_order { quantity = sub_size m.sell_order.quantity volume }) w in
    let less : both_left (match_round m).1 < both_left m =
      elim (min-left m.buy_order.quantity m.sell_order.quantity) [
        | inl z ↦ omega (arith, buy.used z, sell.fewer)
        | inr z ↦ omega (arith, sell.used z, buy.fewer)
      ] in
    record {
      fewer = omega (arith, less);
      less = less;
      ended = λ e. elim (or_true _ _ e) [ inl b ↦ inl (buy.ended b) | inr s ↦ inr (sell.ended s) ];
      going = λ e. let (b, s) = or_false _ _ e in (buy.going b, sell.going s);
    }

left-open : (it : OrderIterator) → IsOpen it → 0 < orders_left it
left-open it v = go it.map_iter v.entries
  where
    go :
        (es : List Entry)
        → 0 < length es
        → 0 < orders_left (record { map_iter = es; list_iter = it.list_iter })
    go [] h = absurd (omega arith)
    go (e ∷ es) h = omega (arith, v.orders)

-- Where the loop may stop: the orders do not cross, or one side has none left.
abbrev pub IsUncrossed : Matched → Type 0
IsUncrossed m = (crosses m ≡ false) ⊎ ((is_end m.buy_it ≡ true) ⊎ (is_end m.sell_it ≡ true))

-- The matching loop, started at an order of each side with fuel for the orders that both
-- iterators have before them, ends. Where it ends the two orders do not cross or one side has
-- none left, and each trade that it counts used up at least one order.
pub match_orders-IsUncrossed :
    (fuel : ℕ) (m : Matched)
    → IsOpen m.buy_it
    → IsOpen m.sell_it
    → both_left m ≤ fuel
    → (m' : Matched) × (match_orders fuel m ≡ some m')
      × IsUncrossed m'
      × (m'.trade_count + both_left m' ≤ m.trade_count + both_left m)
unfolding match_orders
match_orders-IsUncrossed zero m v w h = absurd (omega (arith, left-open m.buy_it v))
match_orders-IsUncrossed (suc fuel) m v w h = elim (Bool-cases (crosses m)) [
  | inr e ↦ rw e (m, refl, inl e, omega arith)
  | inl e ↦
      let trade = match_round_lem m v w in
      (elim (Bool-cases (match_round m).0) [
        | inl f ↦ rw (e, f) ((match_round m).1, refl, inr (trade.ended f), trade.fewer)
        | inr f ↦
            let (v', w') = trade.going f in
            let (m', same, end, total) =
              match_orders-IsUncrossed fuel (match_round m).1 v' w' (omega (arith, trade.less)) in
            rw (e, f) (m', same, end, omega (arith, total, trade.fewer))
      ])
]
