-- ===== src/Book/AskScans.antt =====
-- The scan of the asks in obr/src/full_order.cpp on a book whose prices lie between 0 and the sentinel:
-- they end, leave the book alone, and settle on a price that none of those scanned improves on.
use fast_server.Prelude.{
  ℕ, ◌<◌, ◌≡◌, ◌⊎◌, refl, inl, inr, ap, ◌∙◌, subst, sym, false, List, [], ◌∷◌, some, arith, All,
  Bool-cases, some-injective, ltb, ◌==◌, if◌then◌else◌,
}
use fast_server.Book.{OrderBook, OptimPriceInfo, quantity_at}
use fast_server.Book.Levels.{IsBook}
use fast_server.Book.Auction.{Prefix, max_price, lower_bound, touch_bid, ask_round, scan_asks}
use fast_server.Book.Prefixes.{Has, HasPrefix, lower_bound-some}
use fast_server.Book.Scans.{BidPrice, AskPrice, Persists, touch_bid_same, touch_ask_same}
use fast_server.Book.Optimum.{
  IsUnbeaten, IsDeal, consider-IsUnbeaten, consider_kept, consider_cases,
}

module _ (b : OrderBook) (v : IsBook b) where
  ask_round_book :
      (ask bid : Prefix) (best : OptimPriceInfo)
      → Has ask.price b.ask_price_maps
      → 0 < ask.price
      → BidPrice b v bid.price
      → (ask_round ask bid (b, best)).0 ≡ b
  unfolding ask_round
  ask_round_book ask bid best h pos k = elim (Bool-cases (bid.price == ask.price)) [
    | inr e ↦ rw e (touch_ask_same b v ask.price h)
    | inl e ↦ (elim k [
      | inl low ↦ ground (arith, e, low, pos)
      | inr (found, less) ↦ rw e (
          ap (touch_bid ask.price) (touch_ask_same b v ask.price h)
          ∙ touch_bid_same b v ask.price
              (subst (λ p. Has p b.bid_price_maps) (ground (arith, e)) found))
    ])
  ]

  -- At the price of `ask`, where `bid` is the entry of the other side's prefix sums.
  abbrev pub IsAskUnbeaten : Prefix → Prefix → OptimPriceInfo → Type 0
  IsAskUnbeaten ask bid best =
      IsUnbeaten ask.price bid.sum
        (if bid.price == ask.price then quantity_at ask.price b.bid_price_maps else 0) ask.sum
        (quantity_at ask.price b.ask_price_maps) best

  abbrev pub IsAskDeal : Prefix → Prefix → OptimPriceInfo → Type 0
  IsAskDeal ask bid best =
      IsDeal ask.price bid.sum
        (if bid.price == ask.price then quantity_at ask.price b.bid_price_maps else 0) ask.sum
        (quantity_at ask.price b.ask_price_maps) best

  ask_round-IsUnbeaten :
      (ask bid : Prefix) (best best' : OptimPriceInfo)
      → Persists b v (ask_round ask bid (b, best)).1 best'
      → IsAskUnbeaten ask bid best'
  unfolding ask_round
  ask_round-IsUnbeaten ask bid best best' h = h _ _ _ _ _ (consider-IsUnbeaten _ _ _ _ _ best)

  ask_round_cases :
      (ask bid : Prefix) (best : OptimPriceInfo)
      → ((ask_round ask bid (b, best)).1 ≡ best) ⊎ IsAskDeal ask bid (ask_round ask bid (b, best)).1
  unfolding ask_round
  ask_round_cases ask bid best = consider_cases _ _ _ _ _ best

  ask_round-Persists :
      (ask bid : Prefix) (best : OptimPriceInfo) → Persists b v best (ask_round ask bid (b, best)).1
  unfolding ask_round
  ask_round-Persists ask bid best p ba cb ab cs h = consider_kept p ba cb ab cs _ _ _ _ _ best h

  -- No ask price of the scan improves on the choice.
  abbrev pub SettledAsks : ℕ → List Prefix → List Prefix → OptimPriceInfo → Type 0
  SettledAsks max_ask_price bids [] best = Unit
  SettledAsks max_ask_price bids (ask ∷ asks) best =
      if ltb max_ask_price ask.price
      then Unit
      else ((bid : Prefix)
          → lower_bound false ask.price bids ≡ some bid
          → IsAskUnbeaten ask bid best)
        × SettledAsks max_ask_price bids asks best

  -- The choice is the deal at one of the prices that the scan visits.
  unfoldable pub ChosenAsk : ℕ → List Prefix → List Prefix → OptimPriceInfo → Type 0
  ChosenAsk max_ask_price bids [] best = ⊥
  ChosenAsk max_ask_price bids (ask ∷ asks) best =
      ((ltb max_ask_price ask.price ≡ false)
        × (bid : Prefix) × (lower_bound false ask.price bids ≡ some bid)
        × IsAskDeal ask bid best)
      ⊎ ChosenAsk max_ask_price bids asks best

  ask_round_choice :
      (m : ℕ) (bids asks : List Prefix) (ask bid : Prefix) (best best' : OptimPriceInfo)
      → ltb m ask.price ≡ false
      → lower_bound false ask.price bids ≡ some bid
      → (best' ≡ (ask_round ask bid (b, best)).1) ⊎ ChosenAsk m bids asks best'
      → (best' ≡ best) ⊎ ChosenAsk m bids (ask ∷ asks) best'
  unfolding ChosenAsk
  ask_round_choice m bids asks ask bid best best' e f (inr c) = inr (inr c)
  ask_round_choice m bids asks ask bid best best' e f (inl same) =
      elim (ask_round_cases ask bid best) [
        | inl kept ↦ inl (same ∙ kept)
        | inr deal ↦ inr (inl (e, bid, f, subst (IsAskDeal ask bid) (sym same) deal))
      ]

  pub scan_asks_settled :
      (max_ask_price : ℕ) (bids asks : List Prefix) (best : OptimPriceInfo)
      → max_ask_price < max_price
      → HasPrefix 0 bids
      → All (λ q. BidPrice b v q.price) bids
      → All (λ q. AskPrice b v q.price) asks
      → (best' : OptimPriceInfo) × (scan_asks max_ask_price bids asks (b, best) ≡ some (b, best'))
        × SettledAsks max_ask_price bids asks best'
        × Persists b v best best'
        × ((best' ≡ best) ⊎ ChosenAsk max_ask_price bids asks best')
  unfolding scan_asks
  scan_asks_settled m bids [] best less low known asks =
      (best, refl, tt, (λ p ba cb ab cs h. h), inl refl)
  scan_asks_settled m bids (ask ∷ asks) best less low known (is_ask, are_asks) =
      elim (Bool-cases (ltb m ask.price)) [
        | inl e ↦ rw e (best, refl, tt, (λ p ba cb ab cs h. h), inl refl)
        | inr e ↦ (elim is_ask [
          | inl top_price ↦ ground (arith, e, top_price, less)
          | inr (h, pos) ↦
              let (bid, found, k) =
                lower_bound-some (BidPrice b v) false 0 ask.price bids low (ground arith) known in
              let next = (ask_round ask bid (b, best)).1 in
              let (best', ran, settled, persists, choice) =
                scan_asks_settled m bids asks next less low known are_asks in
              rw (e, found)
                (
                  best',
                  ap (λ t. scan_asks m bids asks (t, next)) (ask_round_book ask bid best h pos k)
                      ∙ ran,
                  (
                    λ bid' f.
                        subst (λ t. IsAskUnbeaten ask t best') (some-injective bid bid' f)
                          (ask_round-IsUnbeaten ask bid best best' persists),
                    settled,
                  ),
                  λ p ba cb ab cs g.
                      persists p ba cb ab cs (ask_round-Persists ask bid best p ba cb ab cs g),
                  ask_round_choice m bids asks ask bid best best' e found choice,
                )
        ])
      ]
