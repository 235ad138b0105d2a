-- ===== src/Market/Match.antt =====
-- The matching loops of matchengine/me_market.c. The loop walks the other side's list with an
-- iterator; a maker that is finished is deleted from the list where it stands, and one that is not
-- is changed in place. So the loop returns the list that is left.
use viabtc_server_mac.Prelude.{ℕ, Bool, true, false, Option, none, some, List, [], ◌∷◌}
use viabtc_server_mac.Platform.{Mpd}
use viabtc_server_mac.Market.Order.{Order, Market, Engine}
use viabtc_server_mac.Market.Trade.{
  Quote, stop, deal, hang, Traded, limit_ask_quote, limit_bid_quote, market_ask_quote,
  market_bid_quote, trade_ask, trade_bid,
}

-- The maker of an iteration, if it is still in the list.
abbrev pub keep : {A : Type 0} → Option A → List A → List A
keep none xs = xs
keep (some x) xs = x ∷ xs

module _ (M : Mpd) where
  -- The state after a loop: the makers are the list that is left; `hung` is set where the inner loop
  -- of a market order has used up its fuel.
  pub record Run : Type 0 where
    pub engine : Engine M
    pub market : Market M
    pub taker : Order M
    pub makers : List (Order M)
    pub hung : Bool

  unfoldable pub execute :
      (Order M → Order M → Quote M)
      → (Engine M → Market M → Order M → Order M → M.Decimal → Traded M)
      → Engine M
      → Market M
      → Order M
      → List (Order M)
      → Run
  execute quote trade e m taker [] = record {
    engine = e;
    market = m;
    taker = taker;
    makers = [];
    hung = false;
  }
  execute quote trade e m taker (x ∷ xs) = elim (quote taker x) [
    | stop ↦ record { engine = e; market = m; taker = taker; makers = x ∷ xs; hung = false }
    | hang ↦ record { engine = e; market = m; taker = taker; makers = x ∷ xs; hung = true }
    | deal amount ↦
        let t = trade e m taker x amount in
        let r = execute quote trade t.engine t.market t.taker xs in
        record r { makers = keep t.maker r.makers }
  ]

  unfoldable pub execute_limit_ask_order : Bool → Engine M → Market M → Order M → Run
  unfolding execute
  execute_limit_ask_order real e m taker =
      let r = execute (limit_ask_quote M) (trade_ask M real) e m taker m.bids in
      record r { market = record (r.market) { bids = r.makers } }

  unfoldable pub execute_limit_bid_order : Bool → Engine M → Market M → Order M → Run
  unfolding execute
  execute_limit_bid_order real e m taker =
      let r = execute (limit_bid_quote M) (trade_bid M false real) e m taker m.asks in
      record r { market = record (r.market) { asks = r.makers } }

  unfoldable pub execute_market_ask_order : Bool → Engine M → Market M → Order M → Run
  unfolding execute
  execute_market_ask_order real e m taker =
      let r = execute (market_ask_quote M) (trade_ask M real) e m taker m.bids in
      record r { market = record (r.market) { bids = r.makers } }

  unfoldable pub execute_market_bid_order : ℕ → Bool → Engine M → Market M → Order M → Run
  unfolding execute
  execute_market_bid_order fuel real e m taker =
      let r =
        execute (market_bid_quote M fuel m.stock_prec) (trade_bid M true real) e m taker m.asks in
      record r { market = record (r.market) { asks = r.makers } }
