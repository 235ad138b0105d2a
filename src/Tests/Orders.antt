-- ===== src/Tests/Orders.antt =====
-- Market orders and cancelled orders at concrete inputs.
use viabtc_server_mac.Prelude.{
  ℕ, ◌≡◌, refl, true, false, none, List, [], ◌∷◌, arith, ◌⊎◌, inr, is_lt, is_gt,
}
use viabtc_server_mac.Tests.Platforms.{whole, whole_laws}
use viabtc_server_mac.Tests.Markets.{coin, engine, market, resting, market-IsBook}
use viabtc_server_mac.Market.Order.{Order, ok}
use viabtc_server_mac.Market.Trade.{market_bid_quote, stop, deal}
use viabtc_server_mac.Market.Book.{market_get_order}
use viabtc_server_mac.Market.Entry.{market_put_market_order, market_cancel_order}
use viabtc_server_mac.Market.Invariant.{IsBook}
use viabtc_server_mac.Market.Codes.{
  market_put_market_order_codes, short_of, facing, least, IsRefusal,
}
use viabtc_server_mac.Market.Affordable.{market_bid_quote_covered}
use viabtc_server_mac.Market.Match.{execute_market_ask_order}
use viabtc_server_mac.Market.Sell.{market_ask_sells}
use viabtc_server_mac.Market.Cancel.{cancelled_gone}
use viabtc_server_mac.Market.Withdrawn.{IsWithdrawn, AreReturned, market_cancel_order-IsWithdrawn}
use viabtc_server_mac.Balance.Defs.{get_asset_type, balance_get}

-- 100 of money buys from a maker with 3 left at 20.
abbrev buyer : Order whole
buyer = record resting { id = 8; type = 2; left = 100 }

market_bid_quote_covered_example :
    (market_bid_quote whole 10 0 buyer resting ≡ stop)
    ⊎ ((a : ℕ) × (market_bid_quote whole 10 0 buyer resting ≡ deal a)
        × (is_gt (whole.cmp a 3) ≡ false)
        × (is_gt (whole.cmp (whole.mul a 20) 100) ≡ false))
market_bid_quote_covered_example =
    market_bid_quote_covered whole whole_laws 10 0 5 buyer resting tt tt tt (tt, refl) (omega arith)
      (omega arith)

market_bid_run : market_bid_quote whole 10 0 buyer resting ≡ deal 3
unfolding market_bid_quote viabtc_server_mac.Market.Trade.affordable
market_bid_run = refl

market_put_market_order_codes_example :
    let r = market_put_market_order whole 9 true engine market 1 1 10 0 "web" in
    ((short_of whole engine market 1 1 10 ≡ true) × IsRefusal whole 1 engine market r)
    ⊎ ((short_of whole engine market 1 1 10 ≡ false)
        × (facing whole market 1 ≡ [])
        × IsRefusal whole 3 engine market r)
    ⊎ ((best : Order whole) × (rest : List (Order whole)) × (short_of whole engine market 1 1 10
          ≡ false)
        × (facing whole market 1 ≡ best ∷ rest)
        × (is_lt (whole.cmp 10 (least whole market 1 best)) ≡ true)
        × IsRefusal whole 2 engine market r)
    ⊎ ((best : Order whole) × (rest : List (Order whole)) × (short_of whole engine market 1 1 10
          ≡ false)
        × (facing whole market 1 ≡ best ∷ rest)
        × (is_lt (whole.cmp 10 (least whole market 1 best)) ≡ false)
        × (r.ret ≡ ok))
market_put_market_order_codes_example =
    market_put_market_order_codes whole 9 true engine market 1 1 10 0 "web"

market_cancel_order-IsWithdrawn_example :
    let r = market_cancel_order whole true engine market resting in
    IsWithdrawn whole whole_laws 7 resting [] [] market r.market
    × AreReturned whole whole_laws r.engine.ledger "CNY" resting coin 60 60 900
unfolding get_asset_type balance_get viabtc_server_mac.Dict.find
market_cancel_order-IsWithdrawn_example =
    market_cancel_order-IsWithdrawn whole whole_laws true 7 engine market resting [] [] coin 60 60
      900 market-IsBook refl tt
      (record {
        frozen = 60;
        known = refl;
        entry = refl;
        frozen_all = (tt, refl);
        available = (tt, refl);
        amount = tt;
        exact = refl;
        covered = omega arith;
        fits = omega arith;
      })

cancelled_gone_example :
    market_get_order whole (market_cancel_order whole true engine market resting).market 6 ≡ none
unfolding viabtc_server_mac.Balance.Defs.balance_unfreeze viabtc_server_mac.Balance.Defs.move
    viabtc_server_mac.Balance.Defs.get_asset_type viabtc_server_mac.Balance.Defs.balance_get
    viabtc_server_mac.Balance.Defs.balance_add viabtc_server_mac.Balance.Defs.lower
    viabtc_server_mac.Dict.find viabtc_server_mac.Balance.Defs.store viabtc_server_mac.Dict.put
cancelled_gone_example = cancelled_gone whole true engine market resting (inr (0, refl))

cancel_run : (market_cancel_order whole true engine market resting).market.bids ≡ []
unfolding market_cancel_order viabtc_server_mac.Market.Book.order_finish
    viabtc_server_mac.Market.Book.release viabtc_server_mac.Market.Book.unlink
    viabtc_server_mac.SkipList.skiplist_remove viabtc_server_mac.Market.Order.order_match_compare
    viabtc_server_mac.Balance.Defs.balance_unfreeze viabtc_server_mac.Balance.Defs.move
    viabtc_server_mac.Balance.Defs.get_asset_type viabtc_server_mac.Balance.Defs.balance_get
    viabtc_server_mac.Balance.Defs.balance_add viabtc_server_mac.Balance.Defs.lower
    viabtc_server_mac.Dict.find viabtc_server_mac.Balance.Defs.store viabtc_server_mac.Dict.put
cancel_run = refl

-- A market order to sell 10 meets the one bid, of 3.
abbrev seller : Order whole
seller = record resting { id = 8; type = 2; side = 1; user_id = 1; price = 0; left = 10 }

market_ask_sells_example :
    let r = execute_market_ask_order whole true engine market seller in
    IsBook whole whole_laws 7 r.market
    × ((whole_laws.units r.taker.left ≡ 0) ⊎ (r.market.bids ≡ []))
market_ask_sells_example =
    market_ask_sells whole whole_laws true 7 engine market seller market-IsBook tt tt
