-- ===== src/Book.antt =====
-- obr/src/full_order.cpp: the order book of an opening auction. Prices and quantities are 64-bit
-- numbers; the fields of type `int64_t` are the bits of their two's complement. A `std::map` is the
-- list of its entries in the order of its comparator.
pub mod Auction
pub mod Match
pub mod Flush
pub mod Levels
pub mod Optimum
pub mod Uncrossed
pub mod Prefixes
pub mod Scans
pub mod AskScans
pub mod Total
pub mod Insert
mod Tests
use fast_server.Prelude.{
  ℕ, ◌-◌, Bool, true, false, not, ◌||◌, ◌&&◌, List, [], ◌∷◌, ◌++◌, Option, none, some, ltb, ◌==◌,
  if◌then◌else◌, add_size, sub_size, lt_int, abs_int,
}

pub record Order : Type 0 where
  pub id : ℕ
  pub price : ℕ
  pub quantity : ℕ
  pub side : ℕ

pub record PriceLevel : Type 0 where
  pub quantity : ℕ
  pub orders : List Order

-- An entry of `OrderBookMap`.
pub record Entry : Type 0 where
  pub price : ℕ
  pub level : PriceLevel

-- `ConfigurableComparator`.
abbrev pub is_before : Bool → ℕ → ℕ → Bool
is_before is_ascending a b = if is_ascending then ltb a b else ltb b a

abbrev pub empty_level : PriceLevel
empty_level = record { quantity = 0; orders = [] }

-- `operator[]`: the map with an entry at `price`, which a missing one joins as an empty level, and
-- that entry changed by `f`.
unfoldable pub update_level : Bool → ℕ → (PriceLevel → PriceLevel) → List Entry → List Entry
update_level asc price f [] = record { price = price; level = f empty_level } ∷ []
update_level asc price f (e ∷ es) =
    if is_before asc price e.price
    then record { price = price; level = f empty_level } ∷ e ∷ es
    else if is_before asc e.price price
    then e ∷ update_level asc price f es
    else record e { level = f e.level } ∷ es

-- What `operator[]` reads at `price`.
unfoldable pub quantity_at : ℕ → List Entry → ℕ
quantity_at price [] = 0
quantity_at price (e ∷ es) = if e.price == price then e.level.quantity else quantity_at price es

pub record OrderBook : Type 0 where
  pub ask_price_maps : List Entry
  pub bid_price_maps : List Entry

abbrev pub add_to_level : Order → PriceLevel → PriceLevel
add_to_level order l = record {
  quantity = add_size l.quantity order.quantity;
  orders = l.orders ++ order ∷ [];
}

-- `insertOrder` up to its call of `flushStatus`.
unfoldable pub add_order : Order → OrderBook → OrderBook
add_order order b =
    if order.side == 1
    then record b {
      bid_price_maps = update_level false order.price (add_to_level order) b.bid_price_maps;
    }
    else if order.side == 2
    then record b {
      ask_price_maps = update_level true order.price (add_to_level order) b.ask_price_maps;
    }
    else b

pub record OptimPriceInfo : Type 0 where
  pub deal_price : ℕ
  pub expected_deal_quantity : ℕ
  pub buy_above_quantity : ℕ
  pub ask_below_quantity : ℕ
  pub buy_deal_price_left_quantity : ℕ
  pub ask_deal_price_right_quantity : ℕ

abbrev pub quantity_diff : OptimPriceInfo → ℕ
quantity_diff i = abs_int (sub_size i.buy_above_quantity i.ask_below_quantity)

-- `operator>`.
unfoldable pub is_better : OptimPriceInfo → OptimPriceInfo → Bool
is_better i other =
    lt_int other.expected_deal_quantity i.expected_deal_quantity
    || (i.expected_deal_quantity == other.expected_deal_quantity)
      && ltb (quantity_diff i) (quantity_diff other)
