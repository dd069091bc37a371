-- ===== src/Book/Total.antt =====
-- `flushStatus` of obr/src/full_order.cpp on a book whose prices lie between 0 and the sentinel and
-- whose levels hold orders.
use fast_server.Prelude.{
  ℕ, ◌+◌, ◌<◌, ◌-◌, ◌^◌, ◌≡◌, ◌⊎◌, refl, inl, inr, ◌∙◌, sym, subst, true, false, List, [], ◌∷◌,
  some, arith, All, Bool-cases, ltb, if◌then◌else◌, length,
}
use fast_server.Book.{Entry, OrderBook, OptimPriceInfo}
use fast_server.Book.Levels.{IsBook, AllPrices}
use fast_server.Book.Auction.{Prefix, max_price, lower_bound, bid_prefix_sum, ask_prefix_sum}
use fast_server.Book.Match.{Matched, begin, next_entry, count_orders}
use fast_server.Book.Uncrossed.{IsOpen, match_orders-IsUncrossed, deref_open, left-next_entry}
use fast_server.Book.Flush.{
  OrderBookStatus, flushed, empty_status, first_price, find_price, report, flush_status,
}
use fast_server.Book.Prefixes.{Has, HasPrefix, prefix_sums-All, prefix_sums-HasPrefix}
use fast_server.Book.AskScans.{ChosenAsk, SettledAsks, scan_asks_settled}
use fast_server.Book.Scans.{
  BidPrice, AskPrice, IsBidUnbeaten, ChosenBid, SettledBids, Persists, scan_bids_settled,
}

-- The prices are between the two sentinels.
pub record IsPriced (b : OrderBook) : Type 0 where
  pub asks : AllPrices (λ p. 0 < p) b.ask_price_maps
  pub bids : AllPrices (λ p. p < max_price) b.bid_price_maps

-- The entries of a part of a map are in the map.
Has-all :
    (P : ℕ → Type 0) (es fs : List Entry)
    → ((p : ℕ) → Has p fs → Has p es)
    → AllPrices P fs
    → AllPrices (λ p. Has p es × P p) fs
Has-all P es [] f h = tt
Has-all P es (e ∷ fs) f (h, hs) =
    ((f e.price (inl refl), h), Has-all P es fs (λ p k. f p (inr k)) hs)

All-inr : (P Q : ℕ → Type 0) (fs : List Entry) → AllPrices Q fs → AllPrices (λ p. P p ⊎ Q p) fs
All-inr P Q [] h = tt
All-inr P Q (e ∷ fs) (h, hs) = (inr h, All-inr P Q fs hs)

first_price_in :
    (P : ℕ → Type 0) (s : ℕ) (qs : List Prefix)
    → HasPrefix s qs
    → All (λ q. P q.price) qs
    → P (first_price qs)
first_price_in P s [] h k = absurd h
first_price_in P s (q ∷ qs) h (k, ks) = k

module _ (b : OrderBook) (v : IsBook b) (w : IsPriced b) where
  bids_known : All (λ q. BidPrice b v q.price) (bid_prefix_sum b)
  bids_known =
      prefix_sums-All (BidPrice b v) false 0 b.bid_price_maps 0 [] (inl refl)
        (All-inr (λ p. p ≡ 0) (λ p. Has p b.bid_price_maps × (p < max_price)) b.bid_price_maps
          (Has-all (λ p. p < max_price) b.bid_price_maps b.bid_price_maps (λ p h. h) w.bids))
        tt

  asks_known : All (λ q. AskPrice b v q.price) (ask_prefix_sum b)
  asks_known =
      prefix_sums-All (AskPrice b v) true max_price b.ask_price_maps 0 [] (inl refl)
        (All-inr (λ p. p ≡ max_price) (λ p. Has p b.ask_price_maps × (0 < p)) b.ask_price_maps
          (Has-all (λ p. 0 < p) b.ask_price_maps b.ask_price_maps (λ p h. h) w.asks))
        tt

  settled-Persists :
      (m : ℕ) (asks bids : List Prefix) (best best' : OptimPriceInfo)
      → Persists b v best best'
      → SettledBids b v m asks bids best
      → SettledBids b v m asks bids best'
  settled-Persists m asks [] best best' k h = tt
  settled-Persists m asks (bid ∷ bids) best best' k h = elim (Bool-cases (ltb bid.price m)) [
    | inl e ↦ rw e tt
    | inr e ↦
        let h' : ((ask : Prefix)
              → lower_bound true bid.price asks ≡ some ask
              → IsBidUnbeaten b v bid ask best)
            × SettledBids b v m asks bids best =
          subst
            (λ t.
              if t
              then Unit
              else ((ask : Prefix)
                  → lower_bound true bid.price asks ≡ some ask
                  → IsBidUnbeaten b v bid ask best)
                × SettledBids b v m asks bids best)
            e h in
        rw e ((λ ask f. k _ _ _ _ _ (h'.0 ask f)), settled-Persists m asks bids best best' k h'.1)
  ]

  -- The choice is the one before both scans, or the deal at a price that one of them visits.
  abbrev pub IsChoice : OptimPriceInfo → OptimPriceInfo → Type 0
  IsChoice start best =
      let bids = bid_prefix_sum b in
      let asks = ask_prefix_sum b in
      (best ≡ start)
      ⊎ ChosenBid b v (first_price asks) asks bids best
      ⊎ ChosenAsk b v (first_price bids) bids asks best

  both_choices :
      (start best best' : OptimPriceInfo)
      → (best ≡ start)
        ⊎ ChosenBid b v (first_price (ask_prefix_sum b)) (ask_prefix_sum b) (bid_prefix_sum b) best
      → (best' ≡ best)
        ⊎ ChosenAsk b v (first_price (bid_prefix_sum b)) (bid_prefix_sum b) (ask_prefix_sum b) best'
      → IsChoice start best'
  both_choices start best best' c (inr d) = inr (inr d)
  both_choices start best best' (inl c) (inl d) = inl (d ∙ c)
  both_choices start best best' (inr c) (inl d) = inr (
      inl (
        subst (ChosenBid b v (first_price (ask_prefix_sum b)) (ask_prefix_sum b) (bid_prefix_sum b))
          (sym d) c))

  -- On a book that keeps its account and whose prices lie between the sentinels the price is
  -- found and the book stays as it is. At no price that either scan visits is the deal, given by
  -- the quantities of the book and of the prefix sums, both permitted and better than the choice.
  -- The choice is the start, whose deal quantity is -1, or the permitted deal at a visited price.
  pub find_price_settled :
      (indeterminate : OptimPriceInfo)
      → let bids = bid_prefix_sum b in
        let asks = ask_prefix_sum b in
        (best : OptimPriceInfo) × (find_price indeterminate b ≡ some (b, best))
        × SettledBids b v (first_price asks) asks bids best
        × SettledAsks b v (first_price bids) bids asks best
        × IsChoice (record indeterminate { expected_deal_quantity = 2 ^ 64 - 1 }) best
  unfolding find_price
  find_price_settled j =
      let bids = bid_prefix_sum b in
      let asks = ask_prefix_sum b in
      let top = prefix_sums-HasPrefix true max_price b.ask_price_maps 0 [] in
      let low = prefix_sums-HasPrefix false 0 b.bid_price_maps 0 [] in
      let pos : 0 < first_price asks =
        elim (first_price_in (AskPrice b v) max_price asks top asks_known) [
          | inl e ↦ omega (arith, e)
          | inr (h, k) ↦ k
        ] in
      let less : first_price bids < max_price =
        elim (first_price_in (BidPrice b v) 0 bids low bids_known) [
          | inl e ↦ omega (arith, e)
          | inr (h, k) ↦ k
        ] in
      let (best, ran, settled, persists, choice) =
        scan_bids_settled b v (first_price asks) asks bids
          (record j { expected_deal_quantity = 2 ^ 64 - 1 }) pos top asks_known bids_known in
      let (best', ran', settled', persists', choice') =
        scan_asks_settled b v (first_price bids) bids asks best less low bids_known asks_known in
      rw (ran, find_price)
        (
          best',
          ran',
          settled-Persists (first_price asks) asks bids best best' persists' settled,
          settled',
          both_choices (record j { expected_deal_quantity = 2 ^ 64 - 1 }) best best' choice choice',
        )

-- The first order of a map whose levels hold orders.
abbrev pub AllHeld : List Entry → Type 0
AllHeld es = All (λ e. 0 < length e.level.orders) es

begin-IsOpen : (es : List Entry) → 0 < length es → AllHeld es → IsOpen (begin es)
unfolding next_entry
begin-IsOpen [] h k = absurd (omega arith)
begin-IsOpen (e ∷ es) h (k, ks) = ground (arith, k)

report_total :
    (b : OrderBook) (best : OptimPriceInfo)
    → IsOpen (begin b.bid_price_maps)
    → IsOpen (begin b.ask_price_maps)
    → (st : OrderBookStatus) × (report b best ≡ flushed st b)
unfolding report
report_total b best v w =
    let (buy, first) = deref_open (begin b.bid_price_maps) v in
    let (sell, second) = deref_open (begin b.ask_price_maps) w in
    let start : Matched = record {
      trade_count = 0;
      buy_it = begin b.bid_price_maps;
      buy_order = buy;
      sell_it = begin b.ask_price_maps;
      sell_order = sell;
    } in
    let (m, ran, done, total) =
      match_orders-IsUncrossed (count_orders b.bid_price_maps + count_orders b.ask_price_maps) start
        v w (omega (arith, left-next_entry b.bid_price_maps, left-next_entry b.ask_price_maps)) in
    rw (report, first, second, ran) (_, refl)

flush_cases :
    (j : OptimPriceInfo) (b : OrderBook) (best : OptimPriceInfo)
    → find_price j b ≡ some (b, best)
    → (flush_status j b ≡ flushed empty_status b)
      ⊎ ((0 < length b.bid_price_maps)
          × (0 < length b.ask_price_maps)
          × (flush_status j b ≡ report b best))
unfolding flush_status
flush_cases j b best found = ground (arith, found)

-- `flushStatus` returns a status and leaves the book as it is.
pub flush_status_total :
    (indeterminate : OptimPriceInfo) (b : OrderBook)
    → IsBook b
    → IsPriced b
    → AllHeld b.bid_price_maps
    → AllHeld b.ask_price_maps
    → (st : OrderBookStatus) × (flush_status indeterminate b ≡ flushed st b)
flush_status_total j b v w bids asks =
    let (best, found, settled, settled_asks, choice) = find_price_settled b v w j in
    let reported : 0 < length b.bid_price_maps
        → 0 < length b.ask_price_maps
        → (st : OrderBookStatus) × (report b best ≡ flushed st b) =
      λ h k.
        report_total b best (begin-IsOpen b.bid_price_maps h bids)
          (begin-IsOpen b.ask_price_maps k asks) in
    elim (flush_cases j b best found) [
      | inl e ↦ (empty_status, e)
      | inr (h, k, e) ↦ let (st, r) = reported h k in (st, e ∙ r)
    ]
