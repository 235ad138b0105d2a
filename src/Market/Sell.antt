-- ===== src/Market/Sell.antt =====
-- The loop of a market order to sell (`execute_market_ask_order` of matchengine/me_market.c) and the
-- book that it leaves.
use viabtc_server_mac.Prelude.{
  ℕ, ◌≡◌, refl, Bool, false, List, [], ◌∷◌, arith, ◌⊎◌, inl, inr, ◌<◌, All, All-map,
}
use viabtc_server_mac.Platform.{Mpd, Laws}
use viabtc_server_mac.Market.Order.{Order, Market, Engine}
use viabtc_server_mac.Market.Trade.{market_ask_quote, trade_ask, stop, deal, common_amount}
use viabtc_server_mac.Market.Match.{execute, execute_market_ask_order}
use viabtc_server_mac.Market.Facts.{trade_ask_facts}
use viabtc_server_mac.Market.Loop.{execute-LoopFacts, IsLive}
use viabtc_server_mac.Market.Sides.{execute-All, execute-Sorted}
use viabtc_server_mac.Market.Invariant.{BidBefore, IsOf, IsBook}
use viabtc_server_mac.Market.Beside.{IsOf-same, BidBefore-same}

module _ (M : Mpd) (L : Laws M) where
  market_quoted :
      (taker maker : Order M)
      → L.IsAmount taker.left
      → L.IsAmount taker.price
      → IsLive M L maker
      → ((market_ask_quote M taker maker ≡ stop) × ((L.units taker.left ≡ 0) ⊎ ⊥))
        ⊎ (market_ask_quote M taker maker ≡ deal (common_amount M taker maker))
  unfolding market_ask_quote
  market_quoted taker maker h p l =
      ground (arith, L.cmp_units taker.left M.mpd_zero h L.zero_amount, L.units-zero)

  market_stops :
      (taker maker : Order M)
      → L.units taker.left ≡ 0
      → L.IsAmount taker.left
      → market_ask_quote M taker maker ≡ stop
  unfolding market_ask_quote
  market_stops taker maker z h =
      ground (arith, L.cmp_units taker.left M.mpd_zero h L.zero_amount, L.units-zero)

  none_left : (xs : List (Order M)) → All (λ o. ⊥) xs → xs ≡ []
  none_left [] h = refl
  none_left (x ∷ xs) h = absurd h.0

  -- A market order to sell sells all that it has left, or it leaves no bid in the book. The order
  -- book keeps its invariant: both sides stay sorted by price and then by id, every order in the book
  -- is live, and the highest bid stays below the lowest ask. Conditions: the invariant before, and
  -- what the order has left and its price (zero, in a new market order) are finite and not negative.
  pub market_ask_sells :
      (real : Bool) (top : ℕ) (e : Engine M) (m : Market M) (taker : Order M)
      → IsBook M L top m
      → L.IsAmount taker.left
      → L.IsAmount taker.price
      → let r = execute_market_ask_order M real e m taker in
        IsBook M L top r.market × ((L.units r.taker.left ≡ 0) ⊎ (r.market.bids ≡ []))
  unfolding execute_market_ask_order
  market_ask_sells real top e m taker b h p =
      let after = λ (e : Engine M) (m : Market M) (taker maker : Order M) (a : M.Decimal).
        (trade_ask_facts M real e m taker maker a).maker_after in
      let q = market_ask_quote M in
      let t = trade_ask M real in
      let r = execute M q t e m taker m.bids in
      let l =
        execute-LoopFacts M L q t (λ s o. ⊥) (BidBefore M L) market_stops market_quoted
          (trade_ask_facts M real) (λ s u o k g. g) (λ u x y k g. g) e m taker m.bids h p
          b.bids_live b.bids_sorted in
      (
        record {
          asks_live = rw l.asks_same b.asks_live;
          bids_live = l.live;
          asks_of = rw l.asks_same b.asks_of;
          bids_of =
              execute-All M q t after (IsOf M L false top) (IsOf-same M L false top) e m taker
                m.bids b.bids_of;
          asks_sorted = rw l.asks_same b.asks_sorted;
          bids_sorted =
              execute-Sorted M q t after (BidBefore M L) (BidBefore-same M L) e m taker m.bids
                b.bids_sorted;
          uncrossed = rw l.asks_same (
              All-map (λ a. All (λ b. L.units b.price < L.units a.price) m.bids)
                (λ a. All (λ b. L.units b.price < L.units a.price) r.makers)
                (λ a k.
                  execute-All M q t after (λ b. L.units b.price < L.units a.price)
                    (λ x y s g. rw s.same_price g) e m taker m.bids k)
                m.asks b.uncrossed);
        },
        elim l.exhausted [ inl z ↦ inl z | inr k ↦ inr (none_left r.makers k) ],
      )
