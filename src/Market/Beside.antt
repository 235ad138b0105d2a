-- ===== src/Market/Beside.antt =====
-- What the limit loops of matchengine/me_market.c leave of a taker and of the side that it meets.
use viabtc_server_mac.Prelude.{
  ℕ, ◌≡◌, Bool, true, false, List, [], ◌∷◌, arith, ◌⊎◌, ◌<◌, ◌≤◌, All, All-map, nat_eq,
}
use viabtc_server_mac.Platform.{Mpd, Laws}
use viabtc_server_mac.Market.Order.{Order, Market, Engine}
use viabtc_server_mac.Market.Trade.{limit_ask_quote, limit_bid_quote, trade_ask, trade_bid}
use viabtc_server_mac.Market.Match.{Run, execute, execute_limit_ask_order, execute_limit_bid_order}
use viabtc_server_mac.Market.Facts.{SameOrder, trade_ask_facts, trade_bid_facts}
use viabtc_server_mac.Market.Loop.{execute-LoopFacts}
use viabtc_server_mac.Market.Sides.{execute-All, execute-Sorted}
use viabtc_server_mac.Market.Invariant.{
  AskBefore, BidBefore, IsOf, IsBook, ask_quoted, bid_quoted, ask_stops, bid_stops,
}

module _ (M : Mpd) (L : Laws M) where
  -- After a loop: the invariant, and the taker has nothing left or meets no maker at its price.
  pub record AskRun (top : ℕ) (taker : Order M) (r : Run M) : Type 0 where
    pub book : IsBook M L top r.market
    pub same : SameOrder M r.taker taker
    pub left_amount : L.IsAmount r.taker.left
    pub exhausted :
        (L.units r.taker.left ≡ 0) ⊎ All (λ b. L.units b.price < L.units taker.price) r.market.bids

  pub record BidRun (top : ℕ) (taker : Order M) (r : Run M) : Type 0 where
    pub book : IsBook M L top r.market
    pub same : SameOrder M r.taker taker
    pub left_amount : L.IsAmount r.taker.left
    pub exhausted :
        (L.units r.taker.left ≡ 0) ⊎ All (λ a. L.units taker.price < L.units a.price) r.market.asks

  pub BidBefore-same :
      (a b c d : Order M)
      → SameOrder M a b
      → SameOrder M c d
      → BidBefore M L b d
      → BidBefore M L a c
  BidBefore-same a b c d s t h = rw (s.same_price, t.same_price, s.same_id, t.same_id) h

  pub AskBefore-same :
      (a b c d : Order M)
      → SameOrder M a b
      → SameOrder M c d
      → AskBefore M L b d
      → AskBefore M L a c
  AskBefore-same a b c d s t h = rw (s.same_price, t.same_price, s.same_id, t.same_id) h

  pub IsOf-same :
      (k : Bool) (top : ℕ) (a b : Order M) → SameOrder M a b → IsOf M L k top b → IsOf M L k top a
  IsOf-same k top a b s h = ground arith

  pub execute_limit_ask-AskRun :
      (real : Bool) (e : Engine M) (m : Market M) (top : ℕ) (taker : Order M)
      → IsBook M L top m
      → L.IsAmount taker.left
      → L.IsAmount taker.price
      → AskRun top taker (execute_limit_ask_order M real e m taker)
  unfolding execute_limit_ask_order
  execute_limit_ask-AskRun real e m top taker b h p =
      let after = λ (e : Engine M) (m : Market M) (taker maker : Order M) (a : M.Decimal).
        (trade_ask_facts M real e m taker maker a).maker_after in
      let q = limit_ask_quote M in
      let t = trade_ask M real in
      let r = execute M q t e m taker m.bids in
      let l =
        execute-LoopFacts M L q t (λ s o. L.units o.price < L.units s.price) (BidBefore M L)
          (ask_stops M L) (ask_quoted M L) (trade_ask_facts M real)
          (λ s u o k g. rw (← k.same_price) g) (λ u x y k g. omega arith) e m taker m.bids h p
          b.bids_live b.bids_sorted in
      record {
        book = record {
          asks_live = rw l.asks_same b.asks_live;
          bids_live = l.live;
          asks_of = rw l.asks_same b.asks_of;
          bids_of =
              execute-All M q t after (IsOf M L false top) (IsOf-same false top) e m taker m.bids
                b.bids_of;
          asks_sorted = rw l.asks_same b.asks_sorted;
          bids_sorted =
              execute-Sorted M q t after (BidBefore M L) BidBefore-same e m taker m.bids
                b.bids_sorted;
          uncrossed = rw l.asks_same (
              All-map (λ a. All (λ b. L.units b.price < L.units a.price) m.bids)
                (λ a. All (λ b. L.units b.price < L.units a.price) r.makers)
                (λ a k.
                  execute-All M q t after (λ b. L.units b.price < L.units a.price)
                    (λ x y s g. rw s.same_price g) e m taker m.bids k)
                m.asks b.uncrossed);
        };
        same = l.taker_same;
        left_amount = l.left_amount;
        exhausted = l.exhausted;
      }

  pub execute_limit_bid-BidRun :
      (real : Bool) (e : Engine M) (m : Market M) (top : ℕ) (taker : Order M)
      → IsBook M L top m
      → L.IsAmount taker.left
      → L.IsAmount taker.price
      → BidRun top taker (execute_limit_bid_order M real e m taker)
  unfolding execute_limit_bid_order
  execute_limit_bid-BidRun real e m top taker b h p =
      let after = λ (e : Engine M) (m : Market M) (taker maker : Order M) (a : M.Decimal).
        (trade_bid_facts M real e m taker maker a).maker_after in
      let q = limit_bid_quote M in
      let t = trade_bid M false real in
      let r = execute M q t e m taker m.asks in
      let l =
        execute-LoopFacts M L q t (λ s o. L.units s.price < L.units o.price) (AskBefore M L)
          (bid_stops M L) (bid_quoted M L) (trade_bid_facts M real)
          (λ s u o k g. rw (← k.same_price) g) (λ u x y k g. omega arith) e m taker m.asks h p
          b.asks_live b.asks_sorted in
      record {
        book = record {
          asks_live = l.live;
          bids_live = rw l.bids_same b.bids_live;
          asks_of =
              execute-All M q t after (IsOf M L true top) (IsOf-same true top) e m taker m.asks
                b.asks_of;
          bids_of = rw l.bids_same b.bids_of;
          asks_sorted =
              execute-Sorted M q t after (AskBefore M L) AskBefore-same e m taker m.asks
                b.asks_sorted;
          bids_sorted = rw l.bids_same b.bids_sorted;
          uncrossed = rw l.bids_same (
              execute-All M q t after (λ a. All (λ b. L.units b.price < L.units a.price) m.bids)
                (λ x y s g. rw s.same_price g) e m taker m.asks b.uncrossed);
        };
        same = l.taker_same;
        left_amount = l.left_amount;
        exhausted = l.exhausted;
      }

  pub IsOf-mono :
      (k : Bool) (top top' : ℕ) → top ≤ top' → (o : Order M) → IsOf M L k top o → IsOf M L k top' o
  IsOf-mono k top top' h o i = ground arith

  pub IsBook-mono :
      (top top' : ℕ) (m : Market M) → top ≤ top' → IsBook M L top m → IsBook M L top' m
  IsBook-mono top top' m h b = record {
    asks_live = b.asks_live;
    bids_live = b.bids_live;
    asks_of =
        All-map (IsOf M L true top) (IsOf M L true top') (IsOf-mono true top top' h) m.asks
          b.asks_of;
    bids_of =
        All-map (IsOf M L false top) (IsOf M L false top') (IsOf-mono false top top' h) m.bids
          b.bids_of;
    asks_sorted = b.asks_sorted;
    bids_sorted = b.bids_sorted;
    uncrossed = b.uncrossed;
  }

  -- Two lists of predicates, member by member.
  pub All-zip :
      {A : Type 0} (P Q R : A → Type 0)
      → ((a : A) → P a → Q a → R a)
      → (xs : List A) → All P xs
      → All Q xs
      → All R xs
  All-zip P Q R f [] h k = tt
  All-zip P Q R f (x ∷ xs) h k = (f x h.0 k.0, All-zip P Q R f xs h.1 k.1)

  pub AskBefore-trans :
      (a b c : Order M) → AskBefore M L a b → AskBefore M L b c → AskBefore M L a c
  AskBefore-trans a b c h k = omega arith

  pub BidBefore-trans :
      (a b c : Order M) → BidBefore M L a b → BidBefore M L b c → BidBefore M L a c
  BidBefore-trans a b c h k = omega arith
