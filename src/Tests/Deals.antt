-- ===== src/Tests/Deals.antt =====
-- Deals of me_market.c between two users, at concrete inputs.
use viabtc_server_mac.Prelude.{refl, true, [], ◌∷◌, arith}
use viabtc_server_mac.Tests.Platforms.{whole, whole_laws}
use viabtc_server_mac.Tests.Markets.{engine, market, resting}
use viabtc_server_mac.Balance.Defs.{
  Ledger, AssetType, balance_key, balance_get, available_type, freeze_type, get_asset_type,
}
use viabtc_server_mac.Balance.Moves.{Holds}
use viabtc_server_mac.Market.Order.{Order, Engine}
use viabtc_server_mac.Market.Trade.{trade_ask, trade_bid}
use viabtc_server_mac.Market.Exchanged.{trade_ask_moves, trade_bid_moves}

abbrev pub coin : AssetType
coin = record { prec_save = 8; prec_show = 4 }

-- User 1 has 10 BTC; user 2 has 3 BTC and 500 CNY, of which 100 are frozen for a bid of 5 at 20.
abbrev pub accounts : Ledger whole
accounts = record {
  assets = ("BTC", coin) ∷ ("CNY", coin) ∷ [];
  balances =
      (balance_key 1 1 "BTC", 10)
      ∷ (balance_key 2 1 "BTC", 3)
      ∷ (balance_key 2 2 "CNY", 100)
      ∷ (balance_key 1 2 "BTC", 5)
      ∷ (balance_key 2 1 "CNY", 400)
      ∷ [];
}

abbrev deal_engine : Engine whole
deal_engine = record engine { ledger = accounts }

abbrev seller : Order whole
seller = record resting {
  id = 9;
  side = 1;
  user_id = 1;
  price = 20;
  left = 4;
  taker_fee = 0;
  maker_fee = 0;
  freeze = 5;
}

abbrev buyer : Order whole
buyer = record resting {
  id = 8;
  side = 2;
  user_id = 2;
  price = 20;
  left = 5;
  taker_fee = 0;
  maker_fee = 0;
  freeze = 100;
}

trade_ask_moves_example :
    let s = (trade_ask whole true deal_engine market seller buyer 4).engine.ledger in
    Holds whole whole_laws s 1 available_type "BTC" 8 6
    × Holds whole whole_laws s 1 available_type "CNY" 8 80
    × Holds whole whole_laws s 2 freeze_type "CNY" 8 20
    × Holds whole whole_laws s 2 available_type "BTC" 8 7
unfolding get_asset_type balance_get viabtc_server_mac.Dict.find
trade_ask_moves_example =
    trade_ask_moves whole whole_laws true deal_engine market seller buyer 4 coin coin 10 0 3 100 4
      80 0 0 refl refl refl refl refl refl (tt, refl) refl (tt, refl) (tt, refl) (tt, refl)
      (tt, refl) (tt, refl) (tt, refl) (omega arith) (omega arith) (λ finished. cc)

trade_bid_moves_example :
    let s = (trade_bid whole true true deal_engine market buyer seller 5).engine.ledger in
    Holds whole whole_laws s 2 available_type "CNY" 8 300
    × Holds whole whole_laws s 2 available_type "BTC" 8 8
    × Holds whole whole_laws s 1 freeze_type "BTC" 8 0
    × Holds whole whole_laws s 1 available_type "CNY" 8 100
unfolding get_asset_type balance_get viabtc_server_mac.Dict.find
trade_bid_moves_example =
    trade_bid_moves whole whole_laws true deal_engine market buyer seller 5 coin coin true 3 400 5 0
      5 100 0 0 refl refl refl refl refl refl (tt, refl) (tt, refl) (tt, refl) refl (tt, refl)
      (tt, refl) (tt, refl) (tt, refl) (omega arith) (omega arith) (λ finished. refl)
