-- ===== src/Load/Updates.antt =====
-- Replaying a balance update (matchengine/me_server.c, `on_cmd_balance_update`; me_load.c,
-- `load_update_balance`). The one reads the change with the asset's `prec_show`, the other with its
-- `prec_save`.
use viabtc_server_mac.Prelude.{ℕ, ◌≡◌, false, Option, some, String, arith}
use viabtc_server_mac.Platform.{Mpd}
use viabtc_server_mac.Balance.Defs.{AssetType, get_asset_type, asset_prec, asset_prec_show}
use viabtc_server_mac.Market.Order.{Order, ok}
use viabtc_server_mac.Update.{update_user_balance}
use viabtc_server_mac.Server.Requests.{
  Exchange, decimal, on_cmd_balance_update, append_operlog, result,
}
use viabtc_server_mac.Load.Rows.{load_update_balance}

module _ (M : Mpd) where
  -- A change that both precisions read alike is replayed to the same balances: where a request to
  -- update a balance gave a result, its row is accepted, and the balances, the markets and the
  -- remembered updates are those that the request left. Conditions: the replay starts with the same
  -- ledger, markets, updates, padding of the key and clock, the asset is known, and `prec_show` and `prec_save` digits of
  -- the change are the same number.
  pub load_update_balance_replays :
      (x y : Exchange M) (u : ℕ) (a b : String) (i : ℕ) (c : M.Decimal) (d : String)
      {at : AssetType} {o : Option (Order M)}
      → x.updates.engine.ledger ≡ y.updates.engine.ledger
      → x.updates.engine.ticks ≡ y.updates.engine.ticks
      → x.updates.updates ≡ y.updates.updates
      → x.updates.padding ≡ y.updates.padding
      → x.markets ≡ y.markets
      → get_asset_type M x.updates.engine.ledger a ≡ some at
      → decimal M c at.prec_show ≡ decimal M c at.prec_save
      → (on_cmd_balance_update M x u a b i c d).0 ≡ result o
      → let x' = (on_cmd_balance_update M x u a b i c d).1 in
        (y' : Exchange M) × (load_update_balance M y u a b i c d ≡ some (ok, y'))
        × (x'.updates.engine.ledger ≡ y'.updates.engine.ledger)
        × (x'.updates.updates ≡ y'.updates.updates)
        × (x'.markets ≡ y'.markets)
  unfolding on_cmd_balance_update load_update_balance update_user_balance asset_prec asset_prec_show
      append_operlog
  load_update_balance_replays x y u a b i c d {at} {o} l t s p m g e h =
      let z = update_user_balance M false y.updates u a b i (decimal M c at.prec_save) d in
      (record y { updates = z.1 }, ground arith, ground arith, ground arith, ground arith)
