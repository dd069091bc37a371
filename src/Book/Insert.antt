-- ===== src/Book/Insert.antt =====
-- `insertOrder` of obr/src/full_order.cpp, call after call.
use fast_server.Prelude.{
  ℕ, ◌<◌, ◌≡◌, Bool, true, false, List, [], ◌∷◌, arith, Bool-cases, inl, inr, length, length-append,
}
use fast_server.Book.{
  Order, PriceLevel, Entry, OrderBook, OptimPriceInfo, is_before, update_level, add_to_level,
  add_order,
}
use fast_server.Book.Levels.{IsBook, update-AllPrices, add_order_cases, add_order-IsBook}
use fast_server.Book.Auction.{max_price}
use fast_server.Book.Flush.{OrderBookStatus, flushed, insert_order}
use fast_server.Book.Total.{IsPriced, AllHeld, flush_status_total}

-- The book counts its orders, its prices lie between the sentinels, and its levels hold orders.
pub record IsSound (b : OrderBook) : Type 0 where
  pub book : IsBook b
  pub priced : IsPriced b
  pub bids_held : AllHeld b.bid_price_maps
  pub asks_held : AllHeld b.ask_price_maps

update-AllHeld :
    (asc : Bool) (price : ℕ) (f : PriceLevel → PriceLevel) (es : List Entry)
    → ((l : PriceLevel) → 0 < length (f l).orders)
    → AllHeld es
    → AllHeld (update_level asc price f es)
unfolding update_level
update-AllHeld asc price f [] keep h = (keep _, tt)
update-AllHeld asc price f (e ∷ es) keep (h, hs) = elim (Bool-cases (is_before asc price e.price)) [
  | inl b ↦ rw b (keep _, (h, hs))
  | inr b ↦ (elim (Bool-cases (is_before asc e.price price)) [
    | inl c ↦ rw (b, c) (h, update-AllHeld asc price f es keep hs)
    | inr c ↦ rw (b, c) (keep _, hs)
  ])
]

added_held : (o : Order) (l : PriceLevel) → 0 < length (add_to_level o l).orders
added_held o l = omega (arith, length-append l.orders (o ∷ []))

add_order-IsPriced :
    (o : Order) (b : OrderBook)
    → 0 < o.price
    → o.price < max_price
    → IsPriced b
    → IsPriced (add_order o b)
add_order-IsPriced o b pos less v =
    add_order_cases IsPriced o b
      record {
        asks = v.asks;
        bids =
            update-AllPrices (λ p. p < max_price) false o.price (add_to_level o) b.bid_price_maps
              less v.bids;
      }
      record {
        asks =
            update-AllPrices (λ p. 0 < p) true o.price (add_to_level o) b.ask_price_maps pos v.asks;
        bids = v.bids;
      }
      v

add_order-AllHeld :
    (o : Order) (b : OrderBook)
    → AllHeld b.bid_price_maps × AllHeld b.ask_price_maps
    → AllHeld (add_order o b).bid_price_maps × AllHeld (add_order o b).ask_price_maps
add_order-AllHeld o b (bids, asks) =
    add_order_cases (λ b. AllHeld b.bid_price_maps × AllHeld b.ask_price_maps) o b
      (update-AllHeld false o.price (add_to_level o) b.bid_price_maps (added_held o) bids, asks)
      (bids, update-AllHeld true o.price (add_to_level o) b.ask_price_maps (added_held o) asks)
      (bids, asks)

add_order-IsSound :
    (o : Order) (b : OrderBook)
    → 0 < o.price
    → o.price < max_price
    → IsSound b
    → IsSound (add_order o b)
add_order-IsSound o b pos less v =
    let held = add_order-AllHeld o b (v.bids_held, v.asks_held) in
    record {
      book = add_order-IsBook o b v.book;
      priced = add_order-IsPriced o b pos less v.priced;
      bids_held = held.0;
      asks_held = held.1;
    }

-- An order with a price between the sentinels joins a sound book, which stays sound (sorted
-- levels that hold orders and count them, prices between the sentinels), and the call returns a
-- status.
pub insert_order_total :
    (indeterminate : OptimPriceInfo) (order : Order) (b : OrderBook)
    → 0 < order.price
    → order.price < max_price
    → IsSound b
    → (st : OrderBookStatus) × (insert_order indeterminate order b ≡ flushed st (add_order order b))
      × IsSound (add_order order b)
unfolding insert_order
insert_order_total j o b pos less v =
    let v' = add_order-IsSound o b pos less v in
    let (st, e) =
      flush_status_total j (add_order o b) v'.book v'.priced v'.bids_held v'.asks_held in
    (st, e, v')
