-- ===== src/Book/Tests.antt =====
-- Runs of the order book of obr/src/full_order.cpp, and the theorems at concrete orders.
use fast_server.Prelude.{◌+◌, ◌-◌, ◌^◌, ◌≤◌, ◌≡◌, refl, arith, [], ◌∷◌, some}
use fast_server.Book.{Order, Entry, OrderBook, OptimPriceInfo, add_order}
use fast_server.Book.Auction.{bid_prefix_sum, ask_prefix_sum}
use fast_server.Book.Levels.{IsBook}
use fast_server.Book.Match.{Matched, match_orders, orders_left}
use fast_server.Book.Uncrossed.{IsUncrossed, match_orders-IsUncrossed}
use fast_server.Book.Flush.{OrderBookStatus, flushed, first_price, find_price, insert_order}
use fast_server.Book.Scans.{SettledBids}
use fast_server.Book.AskScans.{SettledAsks}
use fast_server.Book.Total.{IsChoice, find_price_settled}
use fast_server.Book.Insert.{IsSound, insert_order_total}

abbrev buy : Order
buy = record { id = 1; price = 101; quantity = 20; side = 1 }

abbrev sell : Order
sell = record { id = 2; price = 100; quantity = 30; side = 2 }

abbrev one : Order → Entry
one o = record { price = o.price; level = record { quantity = o.quantity; orders = o ∷ [] } }

abbrev book : OrderBook
book = record { ask_price_maps = one sell ∷ []; bid_price_maps = one buy ∷ [] }

abbrev unset : OptimPriceInfo
unset = record {
  deal_price = 7;
  expected_deal_quantity = 7;
  buy_above_quantity = 7;
  ask_below_quantity = 7;
  buy_deal_price_left_quantity = 7;
  ask_deal_price_right_quantity = 7;
}

book-IsBook : IsBook book
book-IsBook = record {
  asks = (tt, record { counted = omega arith; priced = (refl, tt) }, tt);
  bids = (tt, record { counted = omega arith; priced = (refl, tt) }, tt);
}

book-IsSound : IsSound book
book-IsSound = record {
  book = book-IsBook;
  priced = record { asks = (omega arith, tt); bids = (omega arith, tt) };
  bids_held = (omega arith, tt);
  asks_held = (omega arith, tt);
}

abbrev late : Order
late = record { id = 3; price = 101; quantity = 15; side = 1 }

insert_order_total_example :
    (st : OrderBookStatus) × (insert_order unset late book ≡ flushed st (add_order late book))
    × IsSound (add_order late book)
insert_order_total_example =
    insert_order_total unset late book (omega arith) (omega arith) book-IsSound

find_price_settled_example :
    (best : OptimPriceInfo) × (find_price unset book ≡ some (book, best))
    × SettledBids book book-IsBook
        (first_price (ask_prefix_sum book))
        (ask_prefix_sum book)
        (bid_prefix_sum book)
        best
    × SettledAsks book book-IsBook
        (first_price (bid_prefix_sum book))
        (bid_prefix_sum book)
        (ask_prefix_sum book)
        best
    × IsChoice book book-IsBook book-IsSound.priced
        (record unset { expected_deal_quantity = 2 ^ 64 - 1 })
        best
find_price_settled_example = find_price_settled book book-IsBook book-IsSound.priced unset

abbrev start : Matched
start = record {
  trade_count = 0;
  buy_it = record { map_iter = one buy ∷ []; list_iter = buy ∷ [] };
  buy_order = buy;
  sell_it = record { map_iter = one sell ∷ []; list_iter = sell ∷ [] };
  sell_order = sell;
}

match_orders-IsUncrossed_example :
    (m' : Matched) × (match_orders 2 start ≡ some m')
    × IsUncrossed m'
    × (m'.trade_count + (orders_left m'.buy_it + orders_left m'.sell_it) ≤ 2)
match_orders-IsUncrossed_example =
    match_orders-IsUncrossed 2 start (record { entries = omega arith; orders = omega arith })
      (record { entries = omega arith; orders = omega arith }) (omega arith)
