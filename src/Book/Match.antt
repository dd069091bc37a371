-- ===== src/Book/Match.antt =====
-- obr/src/full_order.cpp: `OrderIterator`, and the matching loop of `flushStatus`. An iterator is
-- what it has before it: the entries from `map_iter` on, and of the first one the orders from
-- `list_iter` on. Orders are copied out of the book, which the loop does not change.
use fast_server.Prelude.{
  ℕ, zero, suc, ◌+◌, Bool, true, false, not, ◌||◌, List, [], ◌∷◌, Option, none, some, ◌==◌,
  if◌then◌else◌, add_size, sub_size, lt_int, min, length,
}
use fast_server.Book.{Order, Entry}

pub record OrderIterator : Type 0 where
  pub map_iter : List Entry
  pub list_iter : List Order

-- `advance_to_valid` behind the end of a list: the next entry that holds an order.
unfoldable pub next_entry : List Entry → OrderIterator
next_entry [] = record { map_iter = []; list_iter = [] }
next_entry (e ∷ es) = elim e.level.orders [
  | [] ↦ next_entry es
  | o ∷ os ↦ record { map_iter = e ∷ es; list_iter = o ∷ os }
]

abbrev pub begin : List Entry → OrderIterator
begin es = next_entry es

abbrev pub is_end : OrderIterator → Bool
is_end it = elim it.map_iter [ [] ↦ true | e ∷ es ↦ false ]

-- `operator*`, where there is an order.
abbrev pub deref : OrderIterator → Option Order
deref it = elim it.list_iter [ [] ↦ none | o ∷ os ↦ some o ]

-- `operator++`.
unfoldable pub advance : OrderIterator → OrderIterator
advance it = elim it.map_iter [
  | [] ↦ it
  | e ∷ es ↦ (elim it.list_iter [
    | [] ↦ next_entry es
    | o ∷ os ↦ (elim os [ [] ↦ next_entry es | o' ∷ os' ↦ record it { list_iter = o' ∷ os' } ])
  ])
]

-- One side of the loop: where its order is used up, the iterator moves on, and the order is the next
-- one if there is one. The answer says whether the end was reached.
unfoldable pub refill : OrderIterator → Order → Bool × OrderIterator × Order
refill it o =
    if o.quantity == 0
    then (let it' = advance it in
        elim (deref it') [ none ↦ (true, it', o) | some o' ↦ (false, it', o') ])
    else (false, it, o)

pub record Matched : Type 0 where
  pub trade_count : ℕ
  pub buy_it : OrderIterator
  pub buy_order : Order
  pub sell_it : OrderIterator
  pub sell_order : Order

-- One round behind the test of the prices; the answer is `finished`.
unfoldable pub match_round : Matched → Bool × Matched
match_round m =
    let volume = min m.buy_order.quantity m.sell_order.quantity in
    let (buy_end, buy_it, buy_order) =
      refill m.buy_it (record m.buy_order { quantity = sub_size m.buy_order.quantity volume }) in
    let (sell_end, sell_it, sell_order) =
      refill m.sell_it (record m.sell_order { quantity = sub_size m.sell_order.quantity volume }) in
    (
      buy_end || sell_end,
      record {
        trade_count = add_size m.trade_count 1;
        buy_it = buy_it;
        buy_order = buy_order;
        sell_it = sell_it;
        sell_order = sell_order;
      },
    )

abbrev pub crosses : Matched → Bool
crosses m = not (lt_int m.buy_order.price m.sell_order.price)

-- The loop, with at most `fuel` tests of the prices; `none` where they do not suffice.
unfoldable pub match_orders : ℕ → Matched → Option Matched
match_orders zero m = none
match_orders (suc fuel) m =
    if crosses m
    then (let (finished, m') = match_round m in if finished then some m' else match_orders fuel m')
    else some m

abbrev pub count_orders : List Entry → ℕ
count_orders [] = 0
count_orders (e ∷ es) = length e.level.orders + count_orders es

-- The orders from an iterator on.
abbrev pub orders_left : OrderIterator → ℕ
orders_left it = elim it.map_iter [ [] ↦ 0 | e ∷ es ↦ length it.list_iter + count_orders es ]
