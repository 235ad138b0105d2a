-- ===== src/Server/Requests.antt =====
-- The requests of matchengine/me_server.c that change the state, with their checks and replies.
use viabtc_server_mac.Prelude.{
  ℕ, suc, ◌+◌, Bool, true, Option, none, some, List, [], ◌∷◌, String, nat_eq, string_eq, ◌==◌,
  is_lt, is_gt, ltb, not, ◌||◌, ◌&&◌, if◌then◌else◌,
}
use Prim.Native.String.{len}
use viabtc_server_mac.Platform.{Mpd}
use viabtc_server_mac.Dict.{Dict, find, put}
use viabtc_server_mac.Balance.Defs.{asset_prec_show}
use viabtc_server_mac.Market.Order.{Order, Market, ok, err, side_ask, side_bid, next_id}
use viabtc_server_mac.Market.Book.{market_get_order}
use viabtc_server_mac.Market.Entry.{
  Reply, market_put_limit_order, market_put_market_order, market_cancel_order,
}
use viabtc_server_mac.Update.{Updates, update_user_balance}

module _ (M : Mpd) where
  open M use {Decimal, Time, mpd_zero, mpd_one, cmp, rescale}

  -- `decimal(str, prec)` of utils/ut_decimal.c, from the number that the text stands for.
  unfoldable pub decimal : Decimal → ℕ → Decimal
  decimal x prec = if prec == 0 then x else rescale x prec

  -- The methods of the operation log, with their parameters.
  pub data Oper : Type 0 where
    update_balance : ℕ → String → String → ℕ → Decimal → String → Oper
    limit_order : ℕ → String → ℕ → Decimal → Decimal → Decimal → Decimal → String → Oper
    market_order : ℕ → String → ℕ → Decimal → Decimal → String → Oper
    cancel_order : ℕ → String → ℕ → Oper

  -- The globals of the process: `dict_market`, `dict_update`, the engine, and the operation log (ids,
  -- times, operations), the newest entry first.
  pub record Exchange : Type 0 where
    pub updates : Updates M
    pub markets : Dict String (Market M)
    pub operlog_id_start : ℕ
    pub operlog : List (ℕ × Time × Oper)

  -- What is sent back: a result, an error with its code, or nothing, where a call does not return.
  pub data Response : Type 0 where
    result : Option (Order M) → Response
    error : ℕ → Response
    silence : Response

  abbrev pub invalid_argument : Exchange → Response × Exchange
  invalid_argument x = (error 1, x)

  unfoldable pub get_market : Exchange → String → Option (Market M)
  get_market x name = find name x.markets

  unfoldable pub append_operlog : Oper → Exchange → Exchange
  append_operlog op x =
      let e = x.updates.engine in
      record x {
        updates = record (x.updates) { engine = record e { ticks = suc e.ticks } };
        operlog_id_start = next_id x.operlog_id_start;
        operlog = (next_id x.operlog_id_start, M.current_timestamp e.ticks, op) ∷ x.operlog;
      }

  -- The engine and the market that a call on a market leaves behind.
  unfoldable pub with_reply : Exchange → String → Reply M → Exchange
  with_reply x name r = record x {
    updates = record (x.updates) { engine = r.engine };
    markets = put name r.market x.markets;
  }

  -- The reply of a call on a market; an operation that succeeded is logged. The codes are 10 for -1,
  -- 11 for -2 and 12 for -3, and 2 (an internal error) for any other.
  unfoldable pub answer : Exchange → String → Oper → Reply M → Response × Exchange
  answer x name op r = if r.hung then (silence, x) else elim r.ret [
    | ok ↦ (result r.result, append_operlog op (with_reply x name r))
    | err n ↦ (error (if ltb 0 n && ltb n 4 then n + 9 else 2), with_reply x name r)
  ]

  -- A fee rate lies from 0 up to, and not including, 1.
  unfoldable pub bad_fee : Decimal → Bool
  bad_fee fee = is_lt (cmp fee mpd_zero) || not (is_lt (cmp fee mpd_one))

  unfoldable pub bad_side : ℕ → Bool
  bad_side side = not (side == side_ask) && not (side == side_bid)

  unfoldable pub on_cmd_balance_update :
      Exchange → ℕ → String → String → ℕ → Decimal → String → Response × Exchange
  on_cmd_balance_update x user_id asset business business_id change detail =
      elim (asset_prec_show M x.updates.engine.ledger asset) [
        | none ↦ invalid_argument x
        | some prec ↦
            let (ret, updates) =
              update_user_balance M true x.updates user_id asset business business_id
                (decimal change prec) detail in
            elim ret [
              | ok ↦ (
                result none,
                append_operlog (update_balance user_id asset business business_id change detail)
                    (record x { updates = updates }),
              )
              | err n ↦ (
                error (if n == 1 then 10 else if n == 2 then 11 else 2),
                record x { updates = updates },
              )
            ]
      ]

  unfoldable pub on_cmd_order_put_limit :
      Exchange
      → ℕ
      → String
      → ℕ
      → Decimal
      → Decimal
      → Decimal
      → Decimal
      → String
      → Response × Exchange
  on_cmd_order_put_limit x user_id name side a p tf mf source = elim (get_market x name) [
    | none ↦ invalid_argument x
    | some m ↦
        let amount = decimal a m.stock_prec in
        let price = decimal p m.money_prec in
        let taker_fee = decimal tf m.fee_prec in
        let maker_fee = decimal mf m.fee_prec in
        if bad_side side
          || not (is_gt (cmp amount mpd_zero))
          || not (is_gt (cmp price mpd_zero))
          || bad_fee taker_fee
          || bad_fee maker_fee
          || not (ltb (len source) 31)
        then invalid_argument x
        else answer x name (limit_order user_id name side a p tf mf source) (
            market_put_limit_order M true x.updates.engine m user_id side amount price taker_fee
              maker_fee source)
  ]

  unfoldable pub on_cmd_order_put_market :
      ℕ → Exchange → ℕ → String → ℕ → Decimal → Decimal → String → Response × Exchange
  on_cmd_order_put_market fuel x user_id name side a tf source = elim (get_market x name) [
    | none ↦ invalid_argument x
    | some m ↦
        let amount = decimal a m.stock_prec in
        let taker_fee = decimal tf m.fee_prec in
        if bad_side side
          || not (is_gt (cmp amount mpd_zero))
          || bad_fee taker_fee
          || not (ltb (len source) 31)
        then invalid_argument x
        else answer x name (market_order user_id name side a tf source) (
            market_put_market_order M fuel true x.updates.engine m user_id side amount taker_fee
              source)
  ]

  unfoldable pub on_cmd_order_cancel : Exchange → ℕ → String → ℕ → Response × Exchange
  on_cmd_order_cancel x user_id name order_id = elim (get_market x name) [
    | none ↦ invalid_argument x
    | some m ↦ elim (market_get_order M m order_id) [
      | none ↦ (error 10, x)
      | some o ↦
          if not (o.user_id == user_id)
          then (error 11, x)
          else answer x name (cancel_order user_id name order_id)
              (market_cancel_order M true x.updates.engine m o)
    ]
  ]

  -- The command of a request, past the check for a blocked log.
  unfoldable pub on_cmd : ℕ → Exchange → Oper → Response × Exchange
  unfolding on_cmd_balance_update on_cmd_order_put_limit on_cmd_order_put_market on_cmd_order_cancel
  on_cmd fuel x (update_balance u a b i c d) = on_cmd_balance_update x u a b i c d
  on_cmd fuel x (limit_order u n s a p tf mf src) = on_cmd_order_put_limit x u n s a p tf mf src
  on_cmd fuel x (market_order u n s a tf src) = on_cmd_order_put_market fuel x u n s a tf src
  on_cmd fuel x (cancel_order u n i) = on_cmd_order_cancel x u n i

  -- `svr_on_recv_pkg`, for the requests that change the state. `blocked` says whether too many
  -- operations, history rows or messages are pending; then the service is unavailable.
  unfoldable pub serve : ℕ → Exchange → Bool × Oper → Response × Exchange
  unfolding on_cmd
  serve fuel x (blocked, op) = if blocked then (error 3, x) else on_cmd fuel x op

  -- Requests one after another; nothing comes after a call that does not return.
  unfoldable pub serve_all : ℕ → Exchange → List (Bool × Oper) → Exchange
  unfolding serve
  serve_all fuel x [] = x
  serve_all fuel x (request ∷ requests) =
      let (response, x') = serve fuel x request in
      let rest = serve_all fuel x' requests in elim response [ silence ↦ x' | _ ↦ rest ]
