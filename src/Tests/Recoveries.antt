-- ===== src/Tests/Recoveries.antt =====
-- Serving and recovery at concrete inputs.
use viabtc_server_mac.Prelude.{◌≡◌, refl, Bool, true, false, none, some, List, [], ◌∷◌}
use viabtc_server_mac.Tests.Platforms.{whole}
use viabtc_server_mac.Tests.Markets.{market, updates, coin}
use viabtc_server_mac.Balance.Defs.{get_asset_type}
use viabtc_server_mac.Market.Order.{ok}
use viabtc_server_mac.Server.Requests.{
  Exchange, Oper, limit_order, market_order, cancel_order, serve_all, on_cmd_balance_update,
}
use viabtc_server_mac.Load.Rows.{load_update_balance}
use viabtc_server_mac.Load.Recovery.{Recovers, serve_all-Recovers}
use viabtc_server_mac.Market.Replay.Times.{SameMarket}
use viabtc_server_mac.Load.Updates.{load_update_balance_replays}

abbrev exchange : Exchange whole
exchange = record {
  updates = updates;
  markets = ("BTCCNY", market) ∷ [];
  operlog_id_start = 0;
  operlog = [];
}

abbrev requests : List (Bool × Oper whole)
requests =
    (false, limit_order 1 "BTCCNY" 1 10 15 0 0 "web")
    ∷ (false, limit_order 1 "BTCCNY" 1 90 15 0 0 "web")
    ∷ (true, limit_order 1 "BTCCNY" 1 1 15 0 0 "web")
    ∷ (false, cancel_order 1 "BTCCNY" 8)
    ∷ []

market_same : SameMarket whole market market
market_same = record {
  names = refl;
  stocks = refl;
  moneys = refl;
  stock_precs = refl;
  money_precs = refl;
  fee_precs = refl;
  min_amounts = refl;
  ids = refl;
  lists = refl;
  asks_alike = refl;
  bids_alike = refl;
  loose_alike = refl;
}

serve_all-Recovers_example :
    Recovers whole 1 exchange (serve_all whole 1 exchange requests) exchange
serve_all-Recovers_example =
    serve_all-Recovers whole 1 exchange exchange requests (tt, (tt, (tt, (tt, tt))))
      (record {
        engines = record { order_ids = refl; deal_ids = refl; same_ledger = refl };
        seen = refl;
        markets_same = (refl, market_same, tt);
      })

load_update_balance_replays_example :
    let x' = (on_cmd_balance_update whole exchange 1 "BTC" "deposit" 5 30 "{}").1 in
    (y' : Exchange whole) × (load_update_balance whole exchange 1 "BTC" "deposit" 5 30 "{}"
      ≡ some (ok, y'))
    × (x'.updates.engine.ledger ≡ y'.updates.engine.ledger)
    × (x'.updates.updates ≡ y'.updates.updates)
    × (x'.markets ≡ y'.markets)
unfolding get_asset_type on_cmd_balance_update viabtc_server_mac.Dict.find
    viabtc_server_mac.Balance.Defs.asset_prec_show viabtc_server_mac.Update.update_user_balance
    viabtc_server_mac.Server.Requests.decimal viabtc_server_mac.Balance.Defs.balance_add
    viabtc_server_mac.Balance.Defs.balance_get
load_update_balance_replays_example =
    load_update_balance_replays whole exchange exchange 1 "BTC" "deposit" 5 30 "{}" {at = coin}
      {o = none} refl refl refl refl refl refl refl refl
