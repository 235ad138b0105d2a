-- ===== src/Market/Codes.antt =====
-- The result codes of a market order (`market_put_market_order` of matchengine/me_market.c).
use viabtc_server_mac.Prelude.{
  ℕ, ◌≡◌, Bool, true, false, String, List, [], ◌∷◌, ◌⊎◌, inl, inr, arith, is_lt, ◌==◌, nat_eq,
  if◌then◌else◌, Bool-cases, List-cases,
}
use viabtc_server_mac.Platform.{Mpd}
use viabtc_server_mac.Balance.Defs.{balance_get, available_type}
use viabtc_server_mac.Market.Order.{Engine, Market, Order, ok, err, side_ask}
use viabtc_server_mac.Market.Entry.{
  finish_market, market_put_market_order, market_refusal, is_short, Reply,
}

module _ (M : Mpd) where
  -- The asset that a market order gives, the side of the book that it meets, and its minimum.
  abbrev pub given_asset : Market M → ℕ → String
  given_asset m side = if side == side_ask then m.stock else m.money

  abbrev pub facing : Market M → ℕ → List (Order M)
  facing m side = if side == side_ask then m.bids else m.asks

  abbrev pub least : Market M → ℕ → Order M → M.Decimal
  least m side best = if side == side_ask then m.min_amount else M.mul best.price m.min_amount

  -- What a refusal leaves.
  abbrev pub IsRefusal : ℕ → Engine M → Market M → Reply M → Type 0
  IsRefusal n e m r = (r.ret ≡ err n) × (r.engine ≡ e) × (r.market ≡ m)

  abbrev pub short_of : Engine M → Market M → ℕ → ℕ → M.Decimal → Bool
  short_of e m u side amount =
      is_short M (balance_get M e.ledger u available_type (given_asset m side)) amount

  -- The result code of a market order, on every branch: -1 exactly if the available balance of the
  -- asset that it gives is missing or below the amount; else -3 exactly if the side of the book that
  -- it meets is empty; else -2 exactly if the amount is below the minimum, which for an order that
  -- is no ask is the minimum amount times the best price; else 0. A refused order changes nothing:
  -- no id is used, and the balances and the book stay.
  pub market_put_market_order_codes :
      (fuel : ℕ) (real : Bool) (e : Engine M) (m : Market M) (u side : ℕ) (amount tf : M.Decimal)
      (src : String)
      → let r = market_put_market_order M fuel real e m u side amount tf src in
        ((short_of e m u side amount ≡ true) × IsRefusal 1 e m r)
        ⊎ ((short_of e m u side amount ≡ false) × (facing m side ≡ []) × IsRefusal 3 e m r)
        ⊎ ((best : Order M) × (rest : List (Order M)) × (short_of e m u side amount ≡ false)
            × (facing m side ≡ best ∷ rest)
            × (is_lt (M.cmp amount (least m side best)) ≡ true)
            × IsRefusal 2 e m r)
        ⊎ ((best : Order M) × (rest : List (Order M)) × (short_of e m u side amount ≡ false)
            × (facing m side ≡ best ∷ rest)
            × (is_lt (M.cmp amount (least m side best)) ≡ false)
            × (r.ret ≡ ok))
  unfolding market_put_market_order market_refusal finish_market
  market_put_market_order_codes fuel real e m u side amount tf src =
      elim (Bool-cases (short_of e m u side amount)) [
        | inl s ↦ inl (ground arith)
        | inr s ↦ elim (List-cases (facing m side)) [
          | inl n ↦ inr (inl (ground arith))
          | inr (best, rest, f) ↦ elim (Bool-cases (is_lt (M.cmp amount (least m side best)))) [
            | inl l ↦ inr (inr (inl (best, rest, s, f, l, ground arith)))
            | inr l ↦ inr (inr (inr (best, rest, s, f, l, ground arith)))
          ]
        ]
      ]
