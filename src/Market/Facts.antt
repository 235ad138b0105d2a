-- ===== src/Market/Facts.antt =====
-- What one deal of matchengine/me_market.c does to the two orders and to the sides of the book.
use viabtc_server_mac.Prelude.{◌≡◌, Bool, true, false, Option, none, some, arith, is_eq}
use viabtc_server_mac.Platform.{Mpd}
use viabtc_server_mac.Market.Order.{Order, Market, Engine}
use viabtc_server_mac.Market.Book.{release}
use viabtc_server_mac.Market.Trade.{trade_bid, Traded, close, trade_ask}

module _ (M : Mpd) where
  -- The fields of an order that no deal changes.
  pub record SameOrder (a b : Order M) : Type 0 where
    pub same_id : a.id ≡ b.id
    pub same_type : a.type ≡ b.type
    pub same_side : a.side ≡ b.side
    pub same_user : a.user_id ≡ b.user_id
    pub same_price : a.price ≡ b.price

  pub SameOrder-refl : (a : Order M) → SameOrder a a
  SameOrder-refl a = ground arith

  pub SameOrder-trans : (a b c : Order M) → SameOrder a b → SameOrder b c → SameOrder a c
  SameOrder-trans a b c h k = ground arith

  -- The maker after a deal of `amount`: finished exactly if nothing is left.
  abbrev pub MakerAfter : Order M → M.Decimal → Option (Order M) → Type 0
  MakerAfter maker amount none = is_eq (M.cmp (M.sub maker.left amount) M.mpd_zero) ≡ true
  MakerAfter maker amount (some o) =
      (is_eq (M.cmp (M.sub maker.left amount) M.mpd_zero) ≡ false)
      × (o.left ≡ M.sub maker.left amount)
      × SameOrder o maker

  -- A deal of `amount` that takes `used` from what is left of the taker.
  pub record TradeFacts (m : Market M) (taker maker : Order M) (used amount : M.Decimal)
      (t : Traded M) : Type 0 where
    pub taker_left : t.taker.left ≡ M.sub taker.left used
    pub taker_same : SameOrder t.taker taker
    pub asks_same : t.market.asks ≡ m.asks
    pub bids_same : t.market.bids ≡ m.bids
    pub maker_after : MakerAfter maker amount t.maker

  -- The sides of the book are not what `release` changes.
  pub release_sides :
      (real : Bool) (e : Engine M) (m : Market M) (o : Order M)
      → ((release M real e m o).market.asks ≡ m.asks)
        × ((release M real e m o).market.bids ≡ m.bids)
  unfolding release
  release_sides real e m o = ground arith

  pub trade_ask_facts :
      (real : Bool) (e : Engine M) (m : Market M) (taker maker : Order M) (amount : M.Decimal)
      → TradeFacts m taker maker amount amount (trade_ask M real e m taker maker amount)
  unfolding trade_ask close
  trade_ask_facts real e m taker maker amount = grind (arith, release_sides)

  pub trade_bid_facts :
      (real : Bool) (e : Engine M) (m : Market M) (taker maker : Order M) (amount : M.Decimal)
      → TradeFacts m taker maker amount amount (trade_bid M false real e m taker maker amount)
  unfolding trade_bid close
  trade_bid_facts real e m taker maker amount = grind (arith, release_sides)

  pub trade_bid_money_facts :
      (real : Bool) (e : Engine M) (m : Market M) (taker maker : Order M) (amount : M.Decimal)
      → TradeFacts m taker maker
          (M.mul maker.price amount)
          amount
          (trade_bid M true real e m taker maker amount)
  unfolding trade_bid close
  trade_bid_money_facts real e m taker maker amount = grind (arith, release_sides)
