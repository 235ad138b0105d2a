-- ===== src/Load/Rows.antt =====
-- The replay of operation-log rows (matchengine/me_load.c).
use viabtc_server_mac.Prelude.{
  ℕ, false, Option, none, some, List, [], ◌∷◌, String, nat_eq, ◌==◌, is_gt, ltb, not, ◌||◌,
  if◌then◌else◌,
}
use Prim.Native.String.{len}
use viabtc_server_mac.Platform.{Mpd}
use viabtc_server_mac.Balance.Defs.{asset_prec}
use viabtc_server_mac.Market.Order.{Ret, ok, err, next_id}
use viabtc_server_mac.Market.Book.{market_get_order}
use viabtc_server_mac.Market.Entry.{
  Reply, market_put_limit_order, market_put_market_order, market_cancel_order,
}
use viabtc_server_mac.Update.{update_user_balance}
use viabtc_server_mac.Server.Requests.{
  Exchange, Oper, update_balance, limit_order, market_order, cancel_order, decimal, bad_fee,
  bad_side, get_market, with_reply,
}

module _ (M : Mpd) where
  open M use {Decimal, mpd_zero, cmp}

  -- The result code and the state; `none` where a call does not return.
  abbrev pub Loaded : Type 0
  Loaded = Option (Ret × Exchange M)

  unfoldable pub load_update_balance :
      Exchange M → ℕ → String → String → ℕ → Decimal → String → Loaded
  load_update_balance x user_id asset business business_id change detail =
      elim (asset_prec M x.updates.engine.ledger asset) [
        | none ↦ some (ok, x)
        | some prec ↦
            let (ret, updates) =
              update_user_balance M false x.updates user_id asset business business_id
                (decimal M change prec) detail in
            some (elim ret [ ok ↦ ok | err _ ↦ err 181 ], record x { updates = updates })
      ]

  -- The state after a call on a market.
  abbrev pub loaded : Exchange M → String → Reply M → Loaded
  loaded x name r = if r.hung then none else some (r.ret, with_reply M x name r)

  unfoldable pub load_limit_order :
      Exchange M → ℕ → String → ℕ → Decimal → Decimal → Decimal → Decimal → String → Loaded
  load_limit_order x user_id name side a p tf mf source = elim (get_market M x name) [
    | none ↦ some (ok, x)
    | some m ↦
        let amount = decimal M a m.stock_prec in
        let price = decimal M p m.money_prec in
        let taker_fee = decimal M tf m.fee_prec in
        let maker_fee = decimal M mf m.fee_prec in
        if bad_side M side
        then some (err 211, x)
        else if not (is_gt (cmp amount mpd_zero))
            || not (is_gt (cmp price mpd_zero))
            || bad_fee M taker_fee
            || bad_fee M maker_fee
            || ltb 31 (len source)
        then some (err 280, x)
        else loaded x name (
            market_put_limit_order M false x.updates.engine m user_id side amount price taker_fee
              maker_fee source)
  ]

  unfoldable pub load_market_order :
      ℕ → Exchange M → ℕ → String → ℕ → Decimal → Decimal → String → Loaded
  load_market_order fuel x user_id name side a tf source = elim (get_market M x name) [
    | none ↦ some (ok, x)
    | some m ↦
        let amount = decimal M a m.stock_prec in
        let taker_fee = decimal M tf m.fee_prec in
        if bad_side M side
        then some (err 307, x)
        else if not (is_gt (cmp amount mpd_zero)) || bad_fee M taker_fee || ltb 31 (len source)
        then some (err 350, x)
        else loaded x name (
            market_put_market_order M fuel false x.updates.engine m user_id side amount taker_fee
              source)
  ]

  unfoldable pub load_cancel_order : Exchange M → ℕ → String → ℕ → Loaded
  load_cancel_order x user_id name order_id = elim (get_market M x name) [
    | none ↦ some (ok, x)
    | some m ↦ elim (market_get_order M m order_id) [
      | none ↦ some (err 380, x)
      | some o ↦ loaded x name (market_cancel_order M false x.updates.engine m o)
    ]
  ]

  unfoldable pub load_oper : ℕ → Exchange M → Oper M → Loaded
  unfolding load_update_balance load_limit_order load_market_order load_cancel_order
  load_oper fuel x (update_balance u a b i c d) = load_update_balance x u a b i c d
  load_oper fuel x (limit_order u n s a p tf mf src) = load_limit_order x u n s a p tf mf src
  load_oper fuel x (market_order u n s a tf src) = load_market_order fuel x u n s a tf src
  load_oper fuel x (cancel_order u n i) = load_cancel_order x u n i

  -- The rows by rising id: each id must follow the one before. With the id that was reached.
  unfoldable pub load_operlog :
      ℕ → Exchange M → ℕ → List (ℕ × Oper M) → Option (Ret × ℕ × Exchange M)
  load_operlog fuel x last [] = some (ok, last, x)
  load_operlog fuel x last ((i, op) ∷ rows) =
      if not (i == next_id last) then some (err 456, last, x) else elim (load_oper fuel x op) [
        | none ↦ none
        | some (ret, x') ↦
            let rest = load_operlog fuel x' i rows in
            elim ret [ ok ↦ rest | err _ ↦ some (err 472, i, x') ]
      ]
