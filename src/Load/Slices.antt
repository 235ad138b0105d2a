-- ===== src/Load/Slices.antt =====
-- The slices of the engine's state in a database: `dump_orders_list` and `dump_balance_dict`
-- (matchengine/me_dump.c), `load_orders` and `load_balance` (matchengine/me_load.c).
-- A row holds the numbers that its texts stand for. `exec rows db` is the query that inserts rows, with
-- whether its result is not negative; a table keeps its rows in order.
use viabtc_server_mac.Prelude.{
  ℕ, Bool, Option, none, some, List, [], ◌∷◌, ◌++◌, String, map, nat_eq, string_eq, if◌then◌else◌,
  length, nat_beq,
}
use viabtc_server_mac.Platform.{Mpd}
use viabtc_server_mac.Dict.{put}
use viabtc_server_mac.Balance.Defs.{Ledger, BalanceKey, asset_prec, balance_set}
use viabtc_server_mac.Market.Order.{Ret, ok, err, Order, Market}
use viabtc_server_mac.Market.Book.{order_put}
use viabtc_server_mac.Server.Requests.{Exchange, decimal, get_market}
use viabtc_server_mac.Load.Pages.{load_pages}

module _ {Row Db : Type 0} (exec : List Row → Db → Bool × Db) where
  -- A statement that inserts the rows that were collected; `line` is that of the return if it fails.
  unfoldable pub insert_batch : ℕ → List Row → Db → Ret × Db
  insert_batch line batch db =
      let (done, db') = exec batch db in if done then (ok, db') else (err line, db')

  -- The loop of `dump_orders_list` and `dump_balance_dict`: the rows are inserted in statements of
  -- `insert_limit` rows, the last of which may be shorter. `batch` are the `index` rows collected.
  unfoldable pub dump_rows : ℕ → ℕ → ℕ → List Row → List Row → Db → Ret × Db
  dump_rows insert_limit line last_line batch [] db =
      if nat_beq (length batch) 0 then (ok, db) else insert_batch last_line batch db
  dump_rows insert_limit line last_line batch (r ∷ rows) db =
      let full = batch ++ r ∷ [] in
      let (ret, db') = insert_batch line full db in
      let fresh = dump_rows insert_limit line last_line [] rows db' in
      let more = dump_rows insert_limit line last_line full rows db in
      if nat_beq (length full) insert_limit
      then (elim ret [ ok ↦ fresh | err n ↦ (err n, db') ])
      else more

module _ (M : Mpd) where
  open M use {Decimal}

  -- The columns `user_id`, `asset`, `t` and `balance`; the id is the database's.
  pub record BalanceRow : Type 0 where
    pub user_id : ℕ
    pub asset : String
    pub kind : ℕ
    pub balance : Decimal

  unfoldable pub balance_row : BalanceKey × Decimal → BalanceRow
  balance_row (key, v) = record {
    user_id = key.user_id;
    asset = key.asset;
    kind = key.kind;
    balance = v;
  }

  unfoldable pub dump_balance_dict :
      {Db : Type 0} → (List BalanceRow → Db → Bool × Db) → Ledger M → Db → Ret × Db
  dump_balance_dict exec s db = dump_rows exec 1000 184 200 [] (map balance_row s.balances) db

  -- The rows of a side, the best order first.
  unfoldable pub dump_orders_list :
      {Db : Type 0} → (List (Order M) → Db → Bool × Db) → List (Order M) → Db → Ret × Db
  dump_orders_list exec side db = dump_rows exec 1000 74 90 [] side db

  -- The body of the loop of `load_balance`; a balance of an unknown asset is left out.
  unfoldable pub load_balance_row : Ledger M → ℕ × BalanceRow → Ret × Ledger M
  load_balance_row s (id, r) = elim (asset_prec M s r.asset) [
    | none ↦ (ok, s)
    | some prec ↦ (ok, (balance_set M s r.user_id r.kind r.asset (decimal M r.balance prec)).1)
  ]

  unfoldable pub load_balance :
      ℕ → (ℕ → ℕ → Option (List (ℕ × BalanceRow))) → Ledger M → Option (Ret × Ledger M)
  load_balance fuel select s = load_pages (λ r. r.0) load_balance_row fuel 1000 select 103 0 s

  -- The order of a row, whose `source` no slice holds. The columns of a row are those of an order.
  unfoldable pub read_order : Market M → Order M → Order M
  read_order m o = record o {
    source = "";
    price = decimal M o.price m.money_prec;
    amount = decimal M o.amount m.stock_prec;
    taker_fee = decimal M o.taker_fee m.fee_prec;
    maker_fee = decimal M o.maker_fee m.fee_prec;
    left = decimal M o.left m.stock_prec;
    freeze = decimal M o.freeze 0;
    deal_stock = decimal M o.deal_stock 0;
    deal_money = decimal M o.deal_money 0;
    deal_fee = decimal M o.deal_fee 0;
  }

  -- The body of the loop of `load_orders`; the result of `market_put_order` is not looked at.
  unfoldable pub load_order_row : Exchange M → Order M → Ret × Exchange M
  load_order_row x o = elim (get_market M x o.market) [
    | none ↦ (ok, x)
    | some m ↦
        let p = order_put M x.updates.engine m (read_order m o) in
        (
          ok,
          record x {
            updates = record (x.updates) { engine = p.engine };
            markets = put o.market p.market x.markets;
          },
        )
  ]

  unfoldable pub load_orders :
      ℕ → (ℕ → ℕ → Option (List (Order M))) → Exchange M → Option (Ret × Exchange M)
  load_orders fuel select x = load_pages (λ o. o.id) load_order_row fuel 1000 select 34 0 x
