-- ===== src/Book/Auction.antt =====
-- obr/src/full_order.cpp, `flushStatus`: the prefix sums and the two scans for the price of the
-- auction.
use fast_server.Prelude.{
  ℕ, ◌-◌, ◌^◌, Bool, true, false, List, [], ◌∷◌, Option, none, some, ltb, ◌==◌, if◌then◌else◌,
  add_size, sub_size, lt_int, min_int,
}
use fast_server.Book.{
  Entry, OrderBook, OptimPriceInfo, is_before, update_level, quantity_at, is_better,
}

-- An entry of `bidPrefixSum` or `askPrefixSum`: the quantity at the prices before `price`.
pub record Prefix : Type 0 where
  pub price : ℕ
  pub sum : ℕ

unfoldable pub assign : Bool → Prefix → List Prefix → List Prefix
assign asc p [] = p ∷ []
assign asc p (q ∷ qs) =
    if is_before asc p.price q.price
    then p ∷ q ∷ qs
    else if is_before asc q.price p.price
    then q ∷ assign asc p qs
    else p ∷ qs

-- The loop over the levels, then the entry at the sentinel price.
unfoldable pub prefix_sums : Bool → ℕ → List Entry → ℕ → List Prefix → List Prefix
prefix_sums asc sentinel [] total ps = assign asc (record { price = sentinel; sum = total }) ps
prefix_sums asc sentinel (e ∷ es) total ps =
    prefix_sums asc sentinel es (add_size total e.level.quantity)
      (assign asc (record { price = e.price; sum = total }) ps)

abbrev pub max_price : ℕ
max_price = 2 ^ 63 - 1

abbrev pub bid_prefix_sum : OrderBook → List Prefix
bid_prefix_sum b = prefix_sums false 0 b.bid_price_maps 0 []

abbrev pub ask_prefix_sum : OrderBook → List Prefix
ask_prefix_sum b = prefix_sums true max_price b.ask_price_maps 0 []

-- `lower_bound`: the first entry that is not before `price`.
unfoldable pub lower_bound : Bool → ℕ → List Prefix → Option Prefix
lower_bound asc price [] = none
lower_bound asc price (q ∷ qs) =
    if is_before asc q.price price then lower_bound asc price qs else some q

-- The body of either loop behind its four quantities.
unfoldable pub consider : ℕ → ℕ → ℕ → ℕ → ℕ → OptimPriceInfo → OptimPriceInfo
consider cur_price buy_above curr_buy ask_below curr_sell best =
    let buy = add_size buy_above curr_buy in
    let sell = add_size ask_below curr_sell in
    let refused =
      if lt_int sell buy
      then lt_int sell buy_above
      else if lt_int buy sell
      then lt_int buy ask_below
      else false in
    let deal = min_int buy sell in
    let current : OptimPriceInfo = record {
      deal_price = cur_price;
      expected_deal_quantity = deal;
      buy_above_quantity = buy_above;
      ask_below_quantity = ask_below;
      buy_deal_price_left_quantity = sub_size (add_size curr_buy buy_above) deal;
      ask_deal_price_right_quantity = sub_size (add_size curr_sell ask_below) deal;
    } in
    if refused then best else if is_better current best then current else best

-- `bidPriceMaps[price]` and `askPriceMaps[price]` as they are read: a missing entry is inserted.
abbrev pub touch_bid : ℕ → OrderBook → OrderBook
touch_bid price b = record b { bid_price_maps = update_level false price (λ l. l) b.bid_price_maps }

abbrev pub touch_ask : ℕ → OrderBook → OrderBook
touch_ask price b = record b { ask_price_maps = update_level true price (λ l. l) b.ask_price_maps }

-- One round of the loop over the bid prices, with the entry that `lower_bound` found.
unfoldable pub bid_round : Prefix → Prefix → OrderBook × OptimPriceInfo → OrderBook × OptimPriceInfo
bid_round bid ask (b, best) =
    let b' = touch_bid bid.price b in
    let met = ask.price == bid.price in
    (
      (if met then touch_ask bid.price b' else b'),
      consider bid.price bid.sum (quantity_at bid.price b.bid_price_maps) ask.sum
          (if met then quantity_at bid.price b.ask_price_maps else 0) best,
    )

-- `none` is a failed assertion.
unfoldable pub scan_bids :
    ℕ → List Prefix → List Prefix → OrderBook × OptimPriceInfo → Option (OrderBook × OptimPriceInfo)
scan_bids min_bid_price asks [] s = some s
scan_bids min_bid_price asks (bid ∷ bids) s =
    if ltb bid.price min_bid_price then some s else (elim (lower_bound true bid.price asks) [
      | none ↦ none
      | some ask ↦ scan_bids min_bid_price asks bids (bid_round bid ask s)
    ])

unfoldable pub ask_round : Prefix → Prefix → OrderBook × OptimPriceInfo → OrderBook × OptimPriceInfo
ask_round ask bid (b, best) =
    let b' = touch_ask ask.price b in
    let met = bid.price == ask.price in
    (
      (if met then touch_bid ask.price b' else b'),
      consider ask.price bid.sum (if met then quantity_at ask.price b.bid_price_maps else 0) ask.sum
          (quantity_at ask.price b.ask_price_maps) best,
    )

unfoldable pub scan_asks :
    ℕ → List Prefix → List Prefix → OrderBook × OptimPriceInfo → Option (OrderBook × OptimPriceInfo)
scan_asks max_ask_price bids [] s = some s
scan_asks max_ask_price bids (ask ∷ asks) s =
    if ltb max_ask_price ask.price then some s else (elim (lower_bound false ask.price bids) [
      | none ↦ none
      | some bid ↦ scan_asks max_ask_price bids asks (ask_round ask bid s)
    ])
