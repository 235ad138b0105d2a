-- ===== src/Market/Replay/Loops.antt =====
-- The matching loops in a replay and for real (matchengine/me_market.c).
use viabtc_server_mac.Prelude.{
  ℕ, ◌≡◌, refl, sym, subst, Bool, true, false, Option, none, some, List, [], ◌∷◌, arith, nat_eq,
}
use viabtc_server_mac.Platform.{Mpd}
use viabtc_server_mac.Market.Order.{Order, Market, Engine}
use viabtc_server_mac.Market.Trade.{
  Traded, Quote, trade_ask, trade_bid, limit_ask_quote, limit_bid_quote, market_ask_quote,
  market_bid_quote,
}
use viabtc_server_mac.Market.Match.{
  Run, execute, keep, execute_limit_ask_order, execute_limit_bid_order, execute_market_ask_order,
  execute_market_bid_order,
}
use viabtc_server_mac.Market.Sides.{Quote-cases, stops, hangs, deals}
use viabtc_server_mac.Market.Replay.Times.{Alike, AllAlike, FoundAlike, SameMarket, retimed}
use viabtc_server_mac.Market.Replay.Deals.{
  SameEngine, Repeats, at_times, trade_ask-Repeats, trade_bid-Repeats,
}

module _ (M : Mpd) where
  -- The outcomes of two loops that agree but for the log and the times.
  pub record SameRun (s t : Run M) : Type 0 where
    pub engines : SameEngine M s.engine t.engine
    pub markets : SameMarket M s.market t.market
    pub takers : Alike M s.taker t.taker
    pub makers_same : AllAlike M s.makers t.makers
    pub hungs : s.hung ≡ t.hung

  keep-AllAlike :
      (o p : Option (Order M)) (xs ys : List (Order M))
      → FoundAlike M o p
      → AllAlike M xs ys
      → AllAlike M (keep o xs) (keep p ys)
  keep-AllAlike none none xs ys h k = k
  keep-AllAlike (some a) (some b) xs ys h k = cc (h, k)
  keep-AllAlike none (some b) xs ys h k = absurd h
  keep-AllAlike (some a) none xs ys h k = absurd h

  -- A quote that does not look at the times.
  abbrev pub IsTimeless : (Order M → Order M → Quote M) → Type 0
  IsTimeless quote =
      (taker maker : Order M) (t u v w : M.Time)
      → quote (at_times M taker t u) (at_times M maker v w) ≡ quote taker maker

  module _ (quote : Order M → Order M → Quote M) (timeless : IsTimeless quote)
      (trade : Bool → Engine M → Market M → Order M → Order M → M.Decimal → Traded M)
      (repeats : Repeats M trade) where
    quote-Alike :
        (taker taker' maker maker' : Order M)
        → Alike M taker taker'
        → Alike M maker maker'
        → quote taker' maker' ≡ quote taker maker
    quote-Alike taker taker' maker maker' i j =
        subst (λ o. quote o maker' ≡ quote taker maker) (sym (retimed M taker taker' i))
          (subst
            (λ o.
              quote (at_times M taker taker'.create_time taker'.update_time) o ≡ quote taker maker)
            (sym (retimed M maker maker' j))
            (timeless taker maker taker'.create_time taker'.update_time maker'.create_time
              maker'.update_time))

    execute-SameRun :
        (r q : Bool) (a b : Engine M) (m n : Market M) (taker taker' : Order M)
        (xs ys : List (Order M))
        → SameEngine M a b
        → SameMarket M m n
        → Alike M taker taker'
        → AllAlike M xs ys
        → SameRun (execute M quote (trade r) a m taker xs) (execute M quote (trade q) b n taker' ys)
    unfolding execute
    execute-SameRun r q a b m n taker taker' [] [] h k i l = record {
      engines = h;
      markets = k;
      takers = i;
      makers_same = refl;
      hungs = refl;
    }
    execute-SameRun r q a b m n taker taker' [] (y ∷ ys) h k i l = absurd (cc l)
    execute-SameRun r q a b m n taker taker' (x ∷ xs) [] h k i l = absurd (cc l)
    execute-SameRun r q a b m n taker taker' (x ∷ xs) (y ∷ ys) h k i l =
        let j : Alike M x y = cc l in
        let c = quote-Alike taker taker' x y i j in
        elim (Quote-cases M (quote taker x)) [
          | stops e ↦
              rw (c, e, execute)
                (record { engines = h; markets = k; takers = i; makers_same = l; hungs = refl })
          | hangs e ↦
              rw (c, e, execute)
                (record { engines = h; markets = k; takers = i; makers_same = l; hungs = refl })
          | deals z e ↦
              let t = trade r a m taker x z in
              let u = trade q b n taker' y z in
              let s = repeats r q a b m n taker taker' x y z h k i j in
              let f =
                execute-SameRun r q t.engine u.engine t.market u.market t.taker u.taker xs ys
                  s.engines s.markets s.takers (cc l) in
              rw (c, e, execute)
                (record {
                  engines = f.engines;
                  markets = f.markets;
                  takers = f.takers;
                  makers_same = keep-AllAlike t.maker u.maker _ _ s.makers f.makers_same;
                  hungs = f.hungs;
                })
        ]

  limit_ask_quote-IsTimeless : IsTimeless (limit_ask_quote M)
  unfolding limit_ask_quote viabtc_server_mac.Market.Trade.common_amount
  limit_ask_quote-IsTimeless taker maker t u v w = refl

  limit_bid_quote-IsTimeless : IsTimeless (limit_bid_quote M)
  unfolding limit_bid_quote viabtc_server_mac.Market.Trade.common_amount
  limit_bid_quote-IsTimeless taker maker t u v w = refl

  market_ask_quote-IsTimeless : IsTimeless (market_ask_quote M)
  unfolding market_ask_quote viabtc_server_mac.Market.Trade.common_amount
  market_ask_quote-IsTimeless taker maker t u v w = refl

  market_bid_quote-IsTimeless : (fuel prec : ℕ) → IsTimeless (market_bid_quote M fuel prec)
  unfolding market_bid_quote
  market_bid_quote-IsTimeless fuel prec taker maker t u v w = refl

  pub execute_limit_ask-SameRun :
      (r q : Bool) (a b : Engine M) (m n : Market M) (o p : Order M)
      → SameEngine M a b
      → SameMarket M m n
      → Alike M o p
      → SameRun (execute_limit_ask_order M r a m o) (execute_limit_ask_order M q b n p)
  unfolding execute_limit_ask_order
  execute_limit_ask-SameRun r q a b m n o p h k i =
      let s =
        execute-SameRun (limit_ask_quote M) limit_ask_quote-IsTimeless (trade_ask M)
          (trade_ask-Repeats M) r q a b m n o p m.bids n.bids h k i k.bids_alike in
      ground arith

  pub execute_limit_bid-SameRun :
      (r q : Bool) (a b : Engine M) (m n : Market M) (o p : Order M)
      → SameEngine M a b
      → SameMarket M m n
      → Alike M o p
      → SameRun (execute_limit_bid_order M r a m o) (execute_limit_bid_order M q b n p)
  unfolding execute_limit_bid_order
  execute_limit_bid-SameRun r q a b m n o p h k i =
      let s =
        execute-SameRun (limit_bid_quote M) limit_bid_quote-IsTimeless (trade_bid M false)
          (trade_bid-Repeats M false) r q a b m n o p m.asks n.asks h k i k.asks_alike in
      ground arith

  pub execute_market_ask-SameRun :
      (r q : Bool) (a b : Engine M) (m n : Market M) (o p : Order M)
      → SameEngine M a b
      → SameMarket M m n
      → Alike M o p
      → SameRun (execute_market_ask_order M r a m o) (execute_market_ask_order M q b n p)
  unfolding execute_market_ask_order
  execute_market_ask-SameRun r q a b m n o p h k i =
      let s =
        execute-SameRun (market_ask_quote M) market_ask_quote-IsTimeless (trade_ask M)
          (trade_ask-Repeats M) r q a b m n o p m.bids n.bids h k i k.bids_alike in
      ground arith

  pub execute_market_bid-SameRun :
      (fuel : ℕ) (r q : Bool) (a b : Engine M) (m n : Market M) (o p : Order M)
      → SameEngine M a b
      → SameMarket M m n
      → Alike M o p
      → SameRun (execute_market_bid_order M fuel r a m o) (execute_market_bid_order M fuel q b n p)
  unfolding execute_market_bid_order
  execute_market_bid-SameRun fuel r q a b m n o p h k i =
      let s =
        execute-SameRun (market_bid_quote M fuel m.stock_prec)
          (market_bid_quote-IsTimeless fuel m.stock_prec) (trade_bid M true)
          (trade_bid-Repeats M true) r q a b m n o p m.asks n.asks h k i k.asks_alike in
      rw (← k.stock_precs) (ground arith)
