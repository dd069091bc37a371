-- ===== src/Book/Optimum.antt =====
-- obr/src/full_order.cpp, `OptimPriceInfo`: the comparison of prices is a strict order, and what
-- considering a price does, in terms of it.
use fast_server.Prelude.{
  ℕ, ◌≡◌, ◌⊎◌, inl, inr, refl, ◌∙◌, Bool, true, false, not, ◌&&◌, arith, if◌then◌else◌, Bool-cases,
  add_size, sub_size, lt_int, min_int,
}
use fast_server.Book.{OptimPriceInfo, is_better}
use fast_server.Book.Auction.{consider}

is_better_irrefl : (i : OptimPriceInfo) → is_better i i ≡ false
unfolding is_better
is_better_irrefl i = ground arith

is_better_trans :
    (i j k : OptimPriceInfo) → is_better i j ≡ true → is_better j k ≡ true → is_better i k ≡ true
unfolding is_better
is_better_trans i j k h g = ground arith

-- A deal at a price: the quantities bid above it and at it, asked below it and at it.
abbrev pub candidate : ℕ → ℕ → ℕ → ℕ → ℕ → OptimPriceInfo
candidate price buy_above curr_buy ask_below curr_sell =
    let buy = add_size buy_above curr_buy in
    let sell = add_size ask_below curr_sell in
    let deal = min_int buy sell in
    record {
      deal_price = price;
      expected_deal_quantity = deal;
      buy_above_quantity = buy_above;
      ask_below_quantity = ask_below;
      buy_deal_price_left_quantity = sub_size buy deal;
      ask_deal_price_right_quantity = sub_size sell deal;
    }

-- The side that wants more can deal all that it wants at better prices.
abbrev pub permitted : ℕ → ℕ → ℕ → ℕ → Bool
permitted buy_above curr_buy ask_below curr_sell =
    let buy = add_size buy_above curr_buy in
    let sell = add_size ask_below curr_sell in
    not (lt_int sell buy && lt_int sell buy_above) && not (lt_int buy sell && lt_int buy ask_below)

-- No deal at that price is permitted and better than `best`.
abbrev pub IsUnbeaten : ℕ → ℕ → ℕ → ℕ → ℕ → OptimPriceInfo → Type 0
IsUnbeaten p ba cb ab cs best =
    permitted ba cb ab cs ≡ true → is_better (candidate p ba cb ab cs) best ≡ false

-- `best` is the deal at that price, which is permitted.
abbrev pub IsDeal : ℕ → ℕ → ℕ → ℕ → ℕ → OptimPriceInfo → Type 0
IsDeal p ba cb ab cs best = (permitted ba cb ab cs ≡ true) × (best ≡ candidate p ba cb ab cs)

lt_int_irrefl : (x : ℕ) → lt_int x x ≡ false
lt_int_irrefl x = ground arith

lt_int_asym : (x y : ℕ) → lt_int x y ≡ true → lt_int y x ≡ false
lt_int_asym x y h = ground (arith, h)

consider_lem :
    (p ba cb ab cs : ℕ) (best : OptimPriceInfo)
    → consider p ba cb ab cs best ≡ (
        if permitted ba cb ab cs && is_better (candidate p ba cb ab cs) best
        then candidate p ba cb ab cs
        else best)
unfolding consider
consider_lem p ba cb ab cs best = ground (arith, lt_int_asym (add_size ba cb) (add_size ab cs))

-- Whether a deal is permitted, and what is kept of two.
unbeaten_by :
    (r : Bool) (i best : OptimPriceInfo)
    → r ≡ true
    → is_better i (if r && is_better i best then i else best) ≡ false
unbeaten_by r i best e = ground (arith, e, is_better_irrefl i)

unbeaten_kept :
    (r : Bool) (i j best : OptimPriceInfo)
    → is_better j best ≡ false
    → is_better j (if r && is_better i best then i else best) ≡ false
unbeaten_kept r i j best h = ground (arith, h, is_better_trans j i best)

-- The choice behind a price is not beaten at it.
pub consider-IsUnbeaten :
    (p ba cb ab cs : ℕ) (best : OptimPriceInfo)
    → IsUnbeaten p ba cb ab cs (consider p ba cb ab cs best)
consider-IsUnbeaten p ba cb ab cs best h =
    rw (consider_lem p ba cb ab cs best)
      (unbeaten_by (permitted ba cb ab cs) (candidate p ba cb ab cs) best h)

-- A price that does not beat the choice does not beat a later one.
pub consider_kept :
    (p ba cb ab cs p' ba' cb' ab' cs' : ℕ) (best : OptimPriceInfo)
    → IsUnbeaten p ba cb ab cs best
    → IsUnbeaten p ba cb ab cs (consider p' ba' cb' ab' cs' best)
consider_kept p ba cb ab cs p' ba' cb' ab' cs' best h a =
    rw (consider_lem p' ba' cb' ab' cs' best) (
      unbeaten_kept (permitted ba' cb' ab' cs') (candidate p' ba' cb' ab' cs')
        (candidate p ba cb ab cs) best (h a))

-- The choice behind a price is the one before or the deal at it.
pub consider_cases :
    (p ba cb ab cs : ℕ) (best : OptimPriceInfo)
    → (consider p ba cb ab cs best ≡ best) ⊎ IsDeal p ba cb ab cs (consider p ba cb ab cs best)
consider_cases p ba cb ab cs best =
    elim (Bool-cases (permitted ba cb ab cs && is_better (candidate p ba cb ab cs) best)) [
      | inr e ↦ inl (consider_lem p ba cb ab cs best ∙ rw e refl)
      | inl e ↦ inr (ground (arith, e), consider_lem p ba cb ab cs best ∙ rw e refl)
    ]
