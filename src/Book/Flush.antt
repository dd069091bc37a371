-- ===== src/Book/Flush.antt =====
-- obr/src/full_order.cpp: `flushStatus` and `insertOrder`.
use fast_server.Prelude.{
  ℕ, zero, suc, ◌+◌, ◌-◌, ◌%◌, ◌^◌, List, [], ◌∷◌, Option, none, some, ltb, ◌==◌, if◌then◌else◌,
  mul_size, div_int, set, replicate,
}
use fast_server.Book.{Order, Entry, OrderBook, OptimPriceInfo, add_order}
use fast_server.Book.Auction.{Prefix, bid_prefix_sum, ask_prefix_sum, scan_bids, scan_asks}
use fast_server.Book.Match.{begin, deref, match_orders, count_orders}

-- The field `ask_sizes` is `as`.
pub record OrderBookStatus : Type 0 where
  pub nts : ℕ
  pub cvl : ℕ
  pub cto : ℕ
  pub lpr : ℕ
  pub bp : List ℕ
  pub ap : List ℕ
  pub bs : List ℕ
  pub ask_sizes : List ℕ

abbrev pub zeros : List ℕ
zeros = replicate 5 0

abbrev pub empty_status : OrderBookStatus
empty_status = record {
  nts = 0;
  cvl = 0;
  cto = 0;
  lpr = 0;
  bp = zeros;
  ap = zeros;
  bs = zeros;
  ask_sizes = zeros;
}

-- A 64-bit number as an `int`.
abbrev pub to_int : ℕ → ℕ
to_int n = n % 2 ^ 32

abbrev pub shown_quantity : ℕ → ℕ → Entry → ℕ
shown_quantity deal_price left e = to_int (if e.price == deal_price then left else e.level.quantity)

-- The loop over the bid levels, with `count + 1` rounds left.
unfoldable pub fill_bids : ℕ → ℕ → ℕ → List Entry → List ℕ × List ℕ → List ℕ × List ℕ
fill_bids zero deal_price left es out = out
fill_bids (suc count) deal_price left [] out = out
fill_bids (suc count) deal_price left (e ∷ es) (prices, sizes) =
    fill_bids count deal_price left es
      (set prices count (to_int e.price), set sizes count (shown_quantity deal_price left e))

-- The loop over the ask levels, with `rounds` of the five left.
unfoldable pub fill_asks : ℕ → ℕ → ℕ → List Entry → List ℕ × List ℕ → List ℕ × List ℕ
fill_asks zero deal_price left es out = out
fill_asks (suc rounds) deal_price left [] out = out
fill_asks (suc rounds) deal_price left (e ∷ es) (prices, sizes) =
    fill_asks rounds deal_price left es (
      set prices (4 - rounds) (to_int e.price),
      set sizes (4 - rounds) (shown_quantity deal_price left e),
    )

abbrev pub first_price : List Prefix → ℕ
first_price [] = 0
first_price (p ∷ ps) = p.price

-- `flushStatus` returns the status, changes the book where a scan inserts a level, or stops at a
-- failed assertion or a read behind the end.
pub data Flushed : Type 0 where
  flushed : OrderBookStatus → OrderBook → Flushed
  failed : Flushed

-- From the choice of the price on.
unfoldable pub report : OrderBook → OptimPriceInfo → Flushed
report b best =
    let buy_it = begin b.bid_price_maps in
    let sell_it = begin b.ask_price_maps in
    elim (deref buy_it) [
      | none ↦ failed
      | some buy_order ↦ (elim (deref sell_it) [
        | none ↦ failed
        | some sell_order ↦
            (elim (match_orders (count_orders b.bid_price_maps + count_orders b.ask_price_maps)
              (record {
                trade_count = 0;
                buy_it = buy_it;
                buy_order = buy_order;
                sell_it = sell_it;
                sell_order = sell_order;
              })) [
                | none ↦ failed
                | some m ↦
                    let bids =
                      fill_bids 5 best.deal_price best.buy_deal_price_left_quantity
                        m.buy_it.map_iter (zeros, zeros) in
                    let asks =
                      fill_asks 5 best.deal_price best.ask_deal_price_right_quantity
                        m.sell_it.map_iter (zeros, zeros) in
                    flushed
                      (record {
                        nts = m.trade_count;
                        cvl = best.expected_deal_quantity;
                        cto = div_int (mul_size best.expected_deal_quantity best.deal_price) 10000;
                        lpr = best.deal_price;
                        bp = bids.0;
                        ap = asks.0;
                        bs = bids.1;
                        ask_sizes = asks.1;
                      })
                      b
              ])
      ])
    ]

-- The price of the auction: `indeterminate` stands for the fields that the code leaves without a
-- value.
unfoldable pub find_price : OptimPriceInfo → OrderBook → Option (OrderBook × OptimPriceInfo)
find_price indeterminate b =
    let bids = bid_prefix_sum b in
    let asks = ask_prefix_sum b in
    let start = record indeterminate { expected_deal_quantity = 2 ^ 64 - 1 } in
    elim (scan_bids (first_price asks) asks bids (b, start)) [
      | none ↦ none
      | some s ↦ scan_asks (first_price bids) bids asks s
    ]

unfoldable pub flush_status : OptimPriceInfo → OrderBook → Flushed
flush_status indeterminate b = elim b.bid_price_maps [
  | [] ↦ flushed empty_status b
  | bid ∷ bids ↦ (elim b.ask_price_maps [
    | [] ↦ flushed empty_status b
    | ask ∷ asks ↦
        if ltb bid.price ask.price
        then flushed empty_status b
        else (elim (find_price indeterminate b) [ none ↦ failed | some s ↦ report s.0 s.1 ])
  ])
]

unfoldable pub insert_order : OptimPriceInfo → Order → OrderBook → Flushed
insert_order indeterminate order b = flush_status indeterminate (add_order order b)
