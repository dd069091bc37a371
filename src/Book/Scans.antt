-- ===== src/Book/Scans.antt =====
-- The two scans of obr/src/full_order.cpp on a book whose prices lie between 0 and the sentinel:
-- they end, leave the book alone, and settle on a price that none of those scanned improves on.
use fast_server.Prelude.{
  ℕ, ◌<◌, ◌≡◌, ◌⊎◌, refl, inl, inr, ap, ◌∙◌, subst, sym, true, false, List, [], ◌∷◌, some, arith,
  All, Bool-cases, some-injective, ltb, ◌==◌, if◌then◌else◌,
}
use fast_server.Book.{OrderBook, OptimPriceInfo, quantity_at}
use fast_server.Book.Levels.{IsBook}
use fast_server.Book.Auction.{
  Prefix, max_price, lower_bound, touch_bid, touch_ask, bid_round, scan_bids,
}
use fast_server.Book.Prefixes.{Has, HasPrefix, lower_bound-some, update_level_same}
use fast_server.Book.Optimum.{
  IsUnbeaten, IsDeal, consider-IsUnbeaten, consider_kept, consider_cases,
}

module _ (b : OrderBook) (v : IsBook b) where
  -- What the prefix sums' prices are.
  abbrev pub BidPrice : ℕ → Type 0
  BidPrice p = (p ≡ 0) ⊎ (Has p b.bid_price_maps × (p < max_price))

  abbrev pub AskPrice : ℕ → Type 0
  AskPrice p = (p ≡ max_price) ⊎ (Has p b.ask_price_maps × (0 < p))

  pub touch_bid_same : (p : ℕ) → Has p b.bid_price_maps → touch_bid p b ≡ b
  touch_bid_same p h =
      ap (λ es. record b { bid_price_maps = es })
        (update_level_same false p b.bid_price_maps v.bids h)

  pub touch_ask_same : (p : ℕ) → Has p b.ask_price_maps → touch_ask p b ≡ b
  touch_ask_same p h =
      ap (λ es. record b { ask_price_maps = es })
        (update_level_same true p b.ask_price_maps v.asks h)

  -- One choice that another does not change.
  abbrev pub Persists : OptimPriceInfo → OptimPriceInfo → Type 0
  Persists best best' =
      (p ba cb ab cs : ℕ) → IsUnbeaten p ba cb ab cs best → IsUnbeaten p ba cb ab cs best'

  bid_round_book :
      (bid ask : Prefix) (best : OptimPriceInfo)
      → Has bid.price b.bid_price_maps
      → bid.price < max_price
      → AskPrice ask.price
      → (bid_round bid ask (b, best)).0 ≡ b
  unfolding bid_round
  bid_round_book bid ask best h less k = elim (Bool-cases (ask.price == bid.price)) [
    | inr e ↦ rw e (touch_bid_same bid.price h)
    | inl e ↦ (elim k [
      | inl top ↦ ground (arith, e, top, less)
      | inr (found, pos) ↦ rw e (
          ap (touch_ask bid.price) (touch_bid_same bid.price h)
          ∙ touch_ask_same bid.price
              (subst (λ p. Has p b.ask_price_maps) (ground (arith, e)) found))
    ])
  ]

  -- At the price of `bid`, where `ask` is the entry of the other side's prefix sums.
  abbrev pub IsBidUnbeaten : Prefix → Prefix → OptimPriceInfo → Type 0
  IsBidUnbeaten bid ask best =
      IsUnbeaten bid.price bid.sum (quantity_at bid.price b.bid_price_maps) ask.sum
        (if ask.price == bid.price then quantity_at bid.price b.ask_price_maps else 0) best

  abbrev pub IsBidDeal : Prefix → Prefix → OptimPriceInfo → Type 0
  IsBidDeal bid ask best =
      IsDeal bid.price bid.sum (quantity_at bid.price b.bid_price_maps) ask.sum
        (if ask.price == bid.price then quantity_at bid.price b.ask_price_maps else 0) best

  bid_round-IsUnbeaten :
      (bid ask : Prefix) (best best' : OptimPriceInfo)
      → Persists (bid_round bid ask (b, best)).1 best'
      → IsBidUnbeaten bid ask best'
  unfolding bid_round
  bid_round-IsUnbeaten bid ask best best' h = h _ _ _ _ _ (consider-IsUnbeaten _ _ _ _ _ best)

  bid_round_cases :
      (bid ask : Prefix) (best : OptimPriceInfo)
      → ((bid_round bid ask (b, best)).1 ≡ best) ⊎ IsBidDeal bid ask (bid_round bid ask (b, best)).1
  unfolding bid_round
  bid_round_cases bid ask best = consider_cases _ _ _ _ _ best

  bid_round-Persists :
      (bid ask : Prefix) (best : OptimPriceInfo) → Persists best (bid_round bid ask (b, best)).1
  unfolding bid_round
  bid_round-Persists bid ask best p ba cb ab cs h = consider_kept p ba cb ab cs _ _ _ _ _ best h

  -- No bid price of the scan improves on the choice.
  abbrev pub SettledBids : ℕ → List Prefix → List Prefix → OptimPriceInfo → Type 0
  SettledBids min_bid_price asks [] best = Unit
  SettledBids min_bid_price asks (bid ∷ bids) best =
      if ltb bid.price min_bid_price
      then Unit
      else ((ask : Prefix)
          → lower_bound true bid.price asks ≡ some ask
          → IsBidUnbeaten bid ask best)
        × SettledBids min_bid_price asks bids best

  -- The choice is the deal at one of the prices that the scan visits.
  unfoldable pub ChosenBid : ℕ → List Prefix → List Prefix → OptimPriceInfo → Type 0
  ChosenBid min_bid_price asks [] best = ⊥
  ChosenBid min_bid_price asks (bid ∷ bids) best =
      ((ltb bid.price min_bid_price ≡ false)
        × (ask : Prefix) × (lower_bound true bid.price asks ≡ some ask)
        × IsBidDeal bid ask best)
      ⊎ ChosenBid min_bid_price asks bids best

  bid_round_choice :
      (m : ℕ) (asks bids : List Prefix) (bid ask : Prefix) (best best' : OptimPriceInfo)
      → ltb bid.price m ≡ false
      → lower_bound true bid.price asks ≡ some ask
      → (best' ≡ (bid_round bid ask (b, best)).1) ⊎ ChosenBid m asks bids best'
      → (best' ≡ best) ⊎ ChosenBid m asks (bid ∷ bids) best'
  unfolding ChosenBid
  bid_round_choice m asks bids bid ask best best' e f (inr c) = inr (inr c)
  bid_round_choice m asks bids bid ask best best' e f (inl same) =
      elim (bid_round_cases bid ask best) [
        | inl kept ↦ inl (same ∙ kept)
        | inr deal ↦ inr (inl (e, ask, f, subst (IsBidDeal bid ask) (sym same) deal))
      ]

  pub scan_bids_settled :
      (min_bid_price : ℕ) (asks bids : List Prefix) (best : OptimPriceInfo)
      → 0 < min_bid_price
      → HasPrefix max_price asks
      → All (λ q. AskPrice q.price) asks
      → All (λ q. BidPrice q.price) bids
      → (best' : OptimPriceInfo) × (scan_bids min_bid_price asks bids (b, best) ≡ some (b, best'))
        × SettledBids min_bid_price asks bids best'
        × Persists best best'
        × ((best' ≡ best) ⊎ ChosenBid min_bid_price asks bids best')
  unfolding scan_bids
  scan_bids_settled m asks [] best pos top known bids =
      (best, refl, tt, (λ p ba cb ab cs h. h), inl refl)
  scan_bids_settled m asks (bid ∷ bids) best pos top known (is_bid, are_bids) =
      elim (Bool-cases (ltb bid.price m)) [
        | inl e ↦ rw e (best, refl, tt, (λ p ba cb ab cs h. h), inl refl)
        | inr e ↦ (elim is_bid [
          | inl zero_price ↦ ground (arith, e, zero_price, pos)
          | inr (h, less) ↦
              let (ask, found, k) =
                lower_bound-some AskPrice true max_price bid.price asks top (ground (arith, less))
                  known in
              let next = (bid_round bid ask (b, best)).1 in
              let (best', ran, settled, persists, choice) =
                scan_bids_settled m asks bids next pos top known are_bids in
              rw (e, found)
                (
                  best',
                  ap (λ t. scan_bids m asks bids (t, next)) (bid_round_book bid ask best h less k)
                      ∙ ran,
                  (
                    λ ask' f.
                        subst (λ t. IsBidUnbeaten bid t best') (some-injective ask ask' f)
                          (bid_round-IsUnbeaten bid ask best best' persists),
                    settled,
                  ),
                  λ p ba cb ab cs g.
                      persists p ba cb ab cs (bid_round-Persists bid ask best p ba cb ab cs g),
                  bid_round_choice m asks bids bid ask best best' e found choice,
                )
        ])
      ]
