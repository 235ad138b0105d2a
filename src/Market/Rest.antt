-- ===== src/Market/Rest.antt =====
-- An order that rests in the book (`order_put` of matchengine/me_market.c) and the invariant.
use viabtc_server_mac.Prelude.{
  some, ℕ, ◌≡◌, refl, Bool, true, false, arith, inl, inr, ◌⊎◌, ◌<◌, All, Option-cases, nat_eq, ◌==◌,
  subst,
}
use viabtc_server_mac.Platform.{Mpd, Laws}
use viabtc_server_mac.SkipList.{skiplist_insert}
use viabtc_server_mac.Market.Order.{
  Order, Market, Engine, order_match_compare, order_id_compare, side_ask, type_limit,
}
use viabtc_server_mac.Market.Book.{put_side, order_put, with_freeze, user_list}
use viabtc_server_mac.Market.Facts.{SameOrder}
use viabtc_server_mac.Market.Loop.{IsLive}
use viabtc_server_mac.Market.Invariant.{IsOf, IsBook}
use viabtc_server_mac.Market.Beside.{IsBook-mono}
use viabtc_server_mac.Market.Uncrossed.{put_asks, put_bids}

module _ (M : Mpd) where
  -- What `order_put` does to the sides: the order is inserted on its side, or nothing changes.
  pub order_put_asks :
      (e : Engine M) (m : Market M) (o : Order M)
      → (o.side == side_ask) ≡ true
      → let m' = (order_put M e m o).market in
        (m'.bids ≡ m.bids)
        × ((m'.asks ≡ m.asks)
            ⊎ (skiplist_insert (order_match_compare M) (with_freeze M o) m.asks ≡ some (m'.asks)))
  unfolding order_put put_side
  order_put_asks e m o h =
      elim (Option-cases (skiplist_insert order_id_compare o.id (user_list M m o.user_id))) [
        | inl q ↦ ground arith
        | inr (l, q) ↦
            elim (Option-cases (skiplist_insert (order_match_compare M) (with_freeze M o) m.asks)) [
              | inl r ↦ ground arith
              | inr (ys, r) ↦ ground arith
            ]
      ]

  pub order_put_bids :
      (e : Engine M) (m : Market M) (o : Order M)
      → (o.side == side_ask) ≡ false
      → let m' = (order_put M e m o).market in
        (m'.asks ≡ m.asks)
        × ((m'.bids ≡ m.bids)
            ⊎ (skiplist_insert (order_match_compare M) (with_freeze M o) m.bids ≡ some (m'.bids)))
  unfolding order_put put_side
  order_put_bids e m o h =
      elim (Option-cases (skiplist_insert order_id_compare o.id (user_list M m o.user_id))) [
        | inl q ↦ ground arith
        | inr (l, q) ↦
            elim (Option-cases (skiplist_insert (order_match_compare M) (with_freeze M o) m.bids)) [
              | inl r ↦ ground arith
              | inr (ys, r) ↦ ground arith
            ]
      ]

  -- `order_put` sets `freeze` and nothing else of the order.
  pub with_freeze_same :
      (o : Order M) → SameOrder M (with_freeze M o) o × ((with_freeze M o).left ≡ o.left)
  unfolding with_freeze
  with_freeze_same o = ground arith

module _ (M : Mpd) (L : Laws M) where
  pub IsBook-of :
      (top : ℕ) (m m' : Market M)
      → m'.asks ≡ m.asks
      → m'.bids ≡ m.bids
      → IsBook M L top m
      → IsBook M L top m'
  IsBook-of top m m' p q b = record {
    asks_live = rw p b.asks_live;
    bids_live = rw q b.bids_live;
    asks_of = rw p b.asks_of;
    bids_of = rw q b.bids_of;
    asks_sorted = rw p b.asks_sorted;
    bids_sorted = rw q b.bids_sorted;
    uncrossed = rw (p, q) b.uncrossed;
  }

  pub frozen-IsLive : (o : Order M) → IsLive M L o → IsLive M L (with_freeze M o)
  frozen-IsLive o l =
      let (s, e) = with_freeze_same M o in
      record {
        price_amount = rw s.same_price l.price_amount;
        left_amount = rw e l.left_amount;
        left_pos = rw e l.left_pos;
      }

  pub frozen-IsOf :
      (k : Bool) (o : Order M)
      → o.type ≡ type_limit
      → (o.side == side_ask) ≡ k
      → IsOf M L k (with_freeze M o).id (with_freeze M o)
  frozen-IsOf k o t s = let (f, _) = with_freeze_same M o in ground arith

  -- A resting ask that no bid reaches.
  pub order_put_ask-IsBook :
      (e : Engine M) (m : Market M) (top : ℕ) (o : Order M)
      → IsBook M L top m
      → o.type ≡ type_limit
      → (o.side == side_ask) ≡ true
      → top < o.id
      → IsLive M L o
      → All (λ b. L.units b.price < L.units o.price) m.bids
      → IsBook M L o.id (order_put M e m o).market
  order_put_ask-IsBook e m top o b t s h l g =
      let f = with_freeze M o in
      let (same, _) = with_freeze_same M o in
      let (bids, asks) = order_put_asks M e m o s in
      let m' = (order_put M e m o).market in
      elim asks [
        | inl q ↦ IsBook-of o.id m m' q bids (IsBook-mono M L top o.id m (omega arith) b)
        | inr q ↦
            let r =
              put_asks M L top m f (some (m'.asks)) b (frozen-IsOf true o t s) (frozen-IsLive o l)
                (rw same.same_id h) (rw same.same_price g) q in
            subst (λ i. IsBook M L i m') same.same_id
              (IsBook-of f.id (record m { asks = m'.asks }) m' refl bids r)
      ]

  -- A resting bid that no ask reaches.
  pub order_put_bid-IsBook :
      (e : Engine M) (m : Market M) (top : ℕ) (o : Order M)
      → IsBook M L top m
      → o.type ≡ type_limit
      → (o.side == side_ask) ≡ false
      → top < o.id
      → IsLive M L o
      → All (λ a. L.units o.price < L.units a.price) m.asks
      → IsBook M L o.id (order_put M e m o).market
  order_put_bid-IsBook e m top o b t s h l g =
      let f = with_freeze M o in
      let (same, _) = with_freeze_same M o in
      let (asks, bids) = order_put_bids M e m o s in
      let m' = (order_put M e m o).market in
      elim bids [
        | inl q ↦ IsBook-of o.id m m' asks q (IsBook-mono M L top o.id m (omega arith) b)
        | inr q ↦
            let r =
              put_bids M L top m f (some (m'.bids)) b (frozen-IsOf false o t s) (frozen-IsLive o l)
                (rw same.same_id h) (rw same.same_price g) q in
            subst (λ i. IsBook M L i m') same.same_id
              (IsBook-of f.id (record m { bids = m'.bids }) m' asks refl r)
      ]
