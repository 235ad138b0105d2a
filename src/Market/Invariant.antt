-- ===== src/Market/Invariant.antt =====
-- The invariant of the order book (matchengine/me_market.c): both sides are sorted by price and then
-- by id, every order in them is live, and the book is not crossed.
use viabtc_server_mac.Prelude.{ℕ, ◌≡◌, Bool, true, false, arith, ◌⊎◌, ◌<◌, ◌≤◌, All, nat_eq, ◌==◌}
use viabtc_server_mac.Platform.{Mpd, Laws}
use viabtc_server_mac.Market.Order.{Order, Market, order_match_compare, side_ask, type_limit}
use viabtc_server_mac.Market.Trade.{limit_ask_quote, limit_bid_quote, stop, deal, common_amount}
use viabtc_server_mac.Market.Loop.{Sorted, IsLive}
use viabtc_server_mac.Market.Sides.{IsPlaced}

module _ (M : Mpd) (L : Laws M) where
  -- Price-time priority: an ask stands before another at a higher price, or at the same price with a
  -- larger id; a bid before another at a lower price, or at the same price with a larger id.
  abbrev pub AskBefore : Order M → Order M → Type 0
  AskBefore a b =
      (L.units a.price < L.units b.price) ⊎ ((L.units a.price ≡ L.units b.price) × (a.id < b.id))

  abbrev pub BidBefore : Order M → Order M → Type 0
  BidBefore a b =
      (L.units b.price < L.units a.price) ⊎ ((L.units a.price ≡ L.units b.price) × (a.id < b.id))

  -- A limit order of one side, with an id that has been given out.
  pub record IsOf (ask : Bool) (top : ℕ) (o : Order M) : Type 0 where
    pub is_limit : o.type ≡ type_limit
    pub on_side : (o.side == side_ask) ≡ ask
    pub id_le : o.id ≤ top

  pub record IsBook (top : ℕ) (m : Market M) : Type 0 where
    pub asks_live : All (IsLive M L) m.asks
    pub bids_live : All (IsLive M L) m.bids
    pub asks_of : All (IsOf true top) m.asks
    pub bids_of : All (IsOf false top) m.bids
    pub asks_sorted : Sorted AskBefore m.asks
    pub bids_sorted : Sorted BidBefore m.bids
    pub uncrossed : All (λ a. All (λ b. L.units b.price < L.units a.price) m.bids) m.asks

  pub ask-IsPlaced :
      (top : ℕ) (v x : Order M)
      → v.type ≡ type_limit
      → L.IsAmount v.price
      → top < v.id
      → IsOf true top x
      → IsLive M L x
      → IsPlaced (order_match_compare M) AskBefore v x
  unfolding order_match_compare
  ask-IsPlaced top v x t h i o l = ground (arith, L.cmp_units x.price v.price l.price_amount h)

  pub bid-IsPlaced :
      (top : ℕ) (v x : Order M)
      → v.type ≡ type_limit
      → L.IsAmount v.price
      → top < v.id
      → IsOf false top x
      → IsLive M L x
      → IsPlaced (order_match_compare M) BidBefore v x
  unfolding order_match_compare
  bid-IsPlaced top v x t h i o l = ground (arith, L.cmp_units v.price x.price h l.price_amount)

  -- What a limit loop asks of its quotes.
  pub ask_quoted :
      (taker maker : Order M)
      → L.IsAmount taker.left
      → L.IsAmount taker.price
      → IsLive M L maker
      → ((limit_ask_quote M taker maker ≡ stop)
          × ((L.units taker.left ≡ 0) ⊎ (L.units maker.price < L.units taker.price)))
        ⊎ (limit_ask_quote M taker maker ≡ deal (common_amount M taker maker))
  unfolding limit_ask_quote
  ask_quoted taker maker h p l = ground (
    arith,
    L.cmp_units taker.left M.mpd_zero h L.zero_amount,
    L.units-zero,
    L.cmp_units taker.price maker.price p l.price_amount,
  )

  pub bid_quoted :
      (taker maker : Order M)
      → L.IsAmount taker.left
      → L.IsAmount taker.price
      → IsLive M L maker
      → ((limit_bid_quote M taker maker ≡ stop)
          × ((L.units taker.left ≡ 0) ⊎ (L.units taker.price < L.units maker.price)))
        ⊎ (limit_bid_quote M taker maker ≡ deal (common_amount M taker maker))
  unfolding limit_bid_quote
  bid_quoted taker maker h p l = ground (
    arith,
    L.cmp_units taker.left M.mpd_zero h L.zero_amount,
    L.units-zero,
    L.cmp_units taker.price maker.price p l.price_amount,
  )

  pub ask_stops :
      (taker maker : Order M)
      → L.units taker.left ≡ 0
      → L.IsAmount taker.left
      → limit_ask_quote M taker maker ≡ stop
  unfolding limit_ask_quote
  ask_stops taker maker z h =
      ground (arith, L.cmp_units taker.left M.mpd_zero h L.zero_amount, L.units-zero)

  pub bid_stops :
      (taker maker : Order M)
      → L.units taker.left ≡ 0
      → L.IsAmount taker.left
      → limit_bid_quote M taker maker ≡ stop
  unfolding limit_bid_quote
  bid_stops taker maker z h =
      ground (arith, L.cmp_units taker.left M.mpd_zero h L.zero_amount, L.units-zero)
