-- ===== src/Market/Refuse.antt =====
-- What the entry points of matchengine/me_market.c refuse, and with which code.
use viabtc_server_mac.Prelude.{
  ℕ, ◌≡◌, Bool, true, false, String, nat_eq, is_lt, arith, ◌⊎◌, Option, none, some, ◌==◌,
  if◌then◌else◌,
}
use viabtc_server_mac.Platform.{Mpd}
use viabtc_server_mac.Balance.Defs.{balance_get, available_type}
use viabtc_server_mac.Market.Order.{Market, Engine, ok, err, side_ask}
use viabtc_server_mac.Market.Entry.{
  market_put_limit_order, market_put_market_order, finish_limit, finish_market, lacks_funds,
}

module _ (M : Mpd) where
  pub limit_refused :
      (real : Bool) (e : Engine M) (m : Market M) (u side : ℕ) (amount price tf mf : M.Decimal)
      (src : String) (n : ℕ)
      → (market_put_limit_order M real e m u side amount price tf mf src).ret ≡ err n
      → ((market_put_limit_order M real e m u side amount price tf mf src).engine ≡ e)
        × ((market_put_limit_order M real e m u side amount price tf mf src).market ≡ m)
  unfolding market_put_limit_order finish_limit
  limit_refused real e m u side amount price tf mf src n h = ground arith

  pub market_refused :
      (fuel : ℕ) (real : Bool) (e : Engine M) (m : Market M) (u side : ℕ) (amount tf : M.Decimal)
      (src : String) (n : ℕ)
      → (market_put_market_order M fuel real e m u side amount tf src).ret ≡ err n
      → ((market_put_market_order M fuel real e m u side amount tf src).engine ≡ e)
        × ((market_put_market_order M fuel real e m u side amount tf src).market ≡ m)
  unfolding market_put_market_order finish_market
  market_refused fuel real e m u side amount tf src n h = ground arith

  -- The asset that a limit order gives, how much of it the order needs, and whether the user's
  -- available balance is missing or below that.
  abbrev pub limit_asset : Market M → ℕ → String
  limit_asset m side = if side == side_ask then m.stock else m.money

  abbrev pub limit_cost : ℕ → M.Decimal → M.Decimal → M.Decimal
  limit_cost side amount price = if side == side_ask then amount else M.mul amount price

  abbrev pub is_below : M.Decimal → Option M.Decimal → Bool
  is_below cost none = true
  is_below cost (some balance) = is_lt (M.cmp balance cost)

  abbrev pub limit_short : Engine M → Market M → ℕ → ℕ → M.Decimal → M.Decimal → Bool
  limit_short e m u side amount price =
      is_below (limit_cost side amount price)
        (balance_get M e.ledger u available_type (limit_asset m side))

  limit_short_lem :
      (e : Engine M) (m : Market M) (u side : ℕ) (amount price : M.Decimal)
      → lacks_funds M e m u side amount price ≡ limit_short e m u side amount price
  unfolding lacks_funds
  limit_short_lem e m u side amount price = ground arith

  -- The result code of a limit order, on every branch: -1 exactly if the user's available balance, of
  -- the stock for an ask and of the money for any other side, is missing or below the amount (of an
  -- ask) or the amount times the price (of any other); else -2 exactly if the amount is below the
  -- market's minimum; else 0. A refused order changes nothing: no id is used, and the balances and the
  -- book stay.
  pub market_put_limit_order_codes :
      (real : Bool) (e : Engine M) (m : Market M) (u side : ℕ) (amount price tf mf : M.Decimal)
      (src : String)
      → let r = market_put_limit_order M real e m u side amount price tf mf src in
        ((limit_short e m u side amount price ≡ true)
          × (r.ret ≡ err 1)
          × (r.engine ≡ e)
          × (r.market ≡ m))
        ⊎ ((limit_short e m u side amount price ≡ false)
            × (is_lt (M.cmp amount m.min_amount) ≡ true)
            × (r.ret ≡ err 2)
            × (r.engine ≡ e)
            × (r.market ≡ m))
        ⊎ ((limit_short e m u side amount price ≡ false)
            × (is_lt (M.cmp amount m.min_amount) ≡ false)
            × (r.ret ≡ ok))
  unfolding market_put_limit_order finish_limit
  market_put_limit_order_codes real e m u side amount price tf mf src =
      rw (← limit_short_lem e m u side amount price) (ground arith)
