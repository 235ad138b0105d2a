-- ===== src/Market/Uncrossed.antt =====
-- Limit orders keep the order book's invariant (matchengine/me_market.c): the loops, `order_put`
-- and `market_put_limit_order`.
use viabtc_server_mac.Prelude.{
  subst, none, some, ℕ, ◌≡◌, true, false, Option, List, arith, ◌<◌, All, nat_eq,
}
use viabtc_server_mac.Platform.{Mpd, Laws}
use viabtc_server_mac.SkipList.{skiplist_insert}
use viabtc_server_mac.Market.Order.{Order, Market, order_match_compare}
use viabtc_server_mac.Market.Loop.{Sorted, IsLive}
use viabtc_server_mac.Market.Sides.{IsPlaced, Inserted, insert-All, insert-Sorted}
use viabtc_server_mac.Market.Invariant.{
  AskBefore, BidBefore, IsOf, IsBook, ask-IsPlaced, bid-IsPlaced,
}
use viabtc_server_mac.Market.Beside.{IsBook-mono, All-zip, AskBefore-trans, BidBefore-trans}

module _ (M : Mpd) (L : Laws M) where
  -- The book with a new ask in it.
  pub put_asks :
      (top : ℕ) (m : Market M) (o : Order M) (asks : Option (List (Order M)))
      → IsBook M L top m
      → IsOf M L true o.id o
      → IsLive M L o
      → top < o.id
      → All (λ b. L.units b.price < L.units o.price) m.bids
      → skiplist_insert (order_match_compare M) o m.asks ≡ asks
      → Inserted (λ ys. IsBook M L o.id (record m { asks = ys })) asks
  unfolding skiplist_insert
  put_asks top m o none b i l h g e = tt
  put_asks top m o (some ys) b i l h g e =
      let b' = IsBook-mono M L top o.id m (omega arith) b in
      let c = order_match_compare M in
      let placed =
        All-zip M L (IsOf M L true top) (IsLive M L) (IsPlaced c (AskBefore M L) o)
          (λ x j k. ask-IsPlaced M L top o x i.is_limit l.price_amount h j k) m.asks b.asks_of
          b.asks_live in
      let fits : (P : Order M → Type 0) → P o → All P m.asks → All P ys =
        λ P p all. subst (Inserted (All P)) e (insert-All c P false o m.asks p all) in
      record {
        asks_live = fits (IsLive M L) l b.asks_live;
        bids_live = b.bids_live;
        asks_of = fits (IsOf M L true o.id) i b'.asks_of;
        bids_of = b'.bids_of;
        asks_sorted = subst (Inserted (Sorted (AskBefore M L))) e (
            insert-Sorted c (AskBefore M L) (AskBefore-trans M L) false o m.asks placed
              b.asks_sorted);
        bids_sorted = b.bids_sorted;
        uncrossed = fits (λ a. All (λ b. L.units b.price < L.units a.price) m.bids) g b.uncrossed;
      }

  pub put_bids :
      (top : ℕ) (m : Market M) (o : Order M) (bids : Option (List (Order M)))
      → IsBook M L top m
      → IsOf M L false o.id o
      → IsLive M L o
      → top < o.id
      → All (λ a. L.units o.price < L.units a.price) m.asks
      → skiplist_insert (order_match_compare M) o m.bids ≡ bids
      → Inserted (λ ys. IsBook M L o.id (record m { bids = ys })) bids
  unfolding skiplist_insert
  put_bids top m o none b i l h g e = tt
  put_bids top m o (some ys) b i l h g e =
      let b' = IsBook-mono M L top o.id m (omega arith) b in
      let c = order_match_compare M in
      let placed =
        All-zip M L (IsOf M L false top) (IsLive M L) (IsPlaced c (BidBefore M L) o)
          (λ x j k. bid-IsPlaced M L top o x i.is_limit l.price_amount h j k) m.bids b.bids_of
          b.bids_live in
      let fits : (P : Order M → Type 0) → P o → All P m.bids → All P ys =
        λ P p all. subst (Inserted (All P)) e (insert-All c P false o m.bids p all) in
      record {
        asks_live = b.asks_live;
        bids_live = fits (IsLive M L) l b.bids_live;
        asks_of = b'.asks_of;
        bids_of = fits (IsOf M L false o.id) i b'.bids_of;
        asks_sorted = b.asks_sorted;
        bids_sorted = subst (Inserted (Sorted (BidBefore M L))) e (
            insert-Sorted c (BidBefore M L) (BidBefore-trans M L) false o m.bids placed
              b.bids_sorted);
        uncrossed =
            All-zip M L (λ a. L.units o.price < L.units a.price)
              (λ a. All (λ b. L.units b.price < L.units a.price) m.bids)
              (λ a. All (λ b. L.units b.price < L.units a.price) ys)
              (λ a p q. fits (λ b. L.units b.price < L.units a.price) p q) m.asks g b.uncrossed;
      }
