-- ===== src/Tests/Balances.antt =====
-- Balances at concrete inputs.
use viabtc_server_mac.Prelude.{◌≡◌, refl, some, [], ◌∷◌, arith}
use viabtc_server_mac.Tests.Platforms.{whole, whole_laws}
use viabtc_server_mac.Balance.Defs.{
  Ledger, AssetType, balance_key, balance_get, balance_add, balance_sub, balance_freeze,
  balance_unfreeze, available_type, freeze_type, get_asset_type, balance_status, balance_total,
  balance_set,
}
use viabtc_server_mac.Balance.Moves.{balance_freeze_moves, balance_unfreeze_moves, Holds}
use viabtc_server_mac.Balance.RoundTrip.{unfreeze-freeze}
use viabtc_server_mac.Balance.Errors.{failed_unchanged, IsAtomic}

abbrev coin : AssetType
coin = record { prec_save = 8; prec_show = 4 }

abbrev ledger : Ledger whole
ledger = record {
  assets = ("BTC", coin) ∷ ("CNY", coin) ∷ [];
  balances =
      (balance_key 1 1 "BTC", 50) ∷ (balance_key 1 2 "BTC", 5) ∷ (balance_key 2 1 "CNY", 900) ∷ [];
}

freeze_run :
    balance_get whole (balance_freeze whole ledger 1 "BTC" 20).1 1 freeze_type "BTC" ≡ some 25
unfolding balance_get balance_freeze viabtc_server_mac.Dict.find viabtc_server_mac.Balance.Defs.move
    get_asset_type balance_add viabtc_server_mac.Balance.Defs.lower
    viabtc_server_mac.Balance.Defs.store viabtc_server_mac.Dict.put
freeze_run = refl

balance_freeze_moves_example :
    Holds whole whole_laws (balance_freeze whole ledger 1 "BTC" 20).1 1 available_type "BTC" 8 30
    × Holds whole whole_laws (balance_freeze whole ledger 1 "BTC" 20).1 1 freeze_type "BTC" 8 25
unfolding get_asset_type balance_get viabtc_server_mac.Dict.find
balance_freeze_moves_example =
    balance_freeze_moves whole whole_laws ledger 1 "BTC" 50 5 20 20 50 {at = coin} refl refl
      (tt, refl) (tt, refl) tt refl (omega arith) (omega arith)

balance_unfreeze_moves_example :
    Holds whole whole_laws (balance_unfreeze whole ledger 1 "BTC" 3).1 1 freeze_type "BTC" 8 2
    × Holds whole whole_laws (balance_unfreeze whole ledger 1 "BTC" 3).1 1 available_type "BTC" 8 53
unfolding get_asset_type balance_get viabtc_server_mac.Dict.find
balance_unfreeze_moves_example =
    balance_unfreeze_moves whole whole_laws ledger 1 "BTC" 50 5 3 3 5 {at = coin} refl refl
      (tt, refl) (tt, refl) tt refl (omega arith) (omega arith)

failed_unchanged_example :
    IsAtomic whole ledger (balance_set whole ledger 1 1 "ETH" 70)
    × IsAtomic whole ledger (balance_add whole ledger 1 1 "ETH" 70)
    × IsAtomic whole ledger (balance_sub whole ledger 1 1 "ETH" 70)
    × IsAtomic whole ledger (balance_freeze whole ledger 1 "ETH" 70)
    × IsAtomic whole ledger (balance_unfreeze whole ledger 1 "ETH" 70)
failed_unchanged_example = failed_unchanged whole ledger 1 1 "ETH" 70

unfreeze-freeze_example :
    let s' = (balance_unfreeze whole (balance_freeze whole ledger 1 "BTC" 20).1 1 "BTC" 20).1 in
    Holds whole whole_laws s' 1 available_type "BTC" 8 50
    × Holds whole whole_laws s' 1 freeze_type "BTC" 8 5
unfolding get_asset_type balance_get viabtc_server_mac.Dict.find
unfreeze-freeze_example =
    unfreeze-freeze whole whole_laws ledger 1 "BTC" 50 5 20 20 50 {at = coin} refl refl (tt, refl)
      (tt, refl) tt refl (omega arith) (omega arith) (omega arith)
