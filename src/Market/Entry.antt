-- ===== src/Market/Entry.antt =====
-- The entry points of matchengine/me_market.c: a limit order, a market order, a cancelled order, and
-- an order that is loaded; `market_create`.
use viabtc_server_mac.Prelude.{
  ℕ, ◌+◌, suc, Bool, true, false, Option, none, some, [], ◌∷◌, ◌++◌, String, nat_eq, ◌==◌,
  if◌then◌else◌, is_lt, is_eq, ltb, not, ◌||◌,
}
use viabtc_server_mac.Platform.{Mpd}
use viabtc_server_mac.Balance.Defs.{Ledger, balance_get, asset_exist, asset_prec, available_type}
use viabtc_server_mac.Market.Order.{
  Order, Market, Engine, Ret, ok, err, type_limit, type_market, side_ask, event_put, event_finish,
  note, next_id, append_order_history, push_order_message,
}
use viabtc_server_mac.Market.Book.{Put, order_put, order_finish}
use viabtc_server_mac.Market.Match.{
  Run, execute_limit_ask_order, execute_limit_bid_order, execute_market_ask_order,
  execute_market_bid_order,
}

module _ (M : Mpd) where
  open M use {Decimal, mpd_zero, cmp, mul}

  -- What a request returns: `result` is the order that `get_order_info` prints, `hung` as in `Run`.
  pub record Reply : Type 0 where
    pub ret : Ret
    pub result : Option (Order M)
    pub engine : Engine M
    pub market : Market M
    pub hung : Bool

  abbrev pub refuse : ℕ → Engine M → Market M → Reply
  refuse n e m = record { ret = err n; result = none; engine = e; market = m; hung = false }

  -- `!balance || mpd_cmp(balance, require) < 0`
  abbrev pub is_short : Option Decimal → Decimal → Bool
  is_short none require = true
  is_short (some balance) require = is_lt (cmp balance require)

  -- The new order, with the fields that both kinds of order set.
  unfoldable pub new_order :
      ℕ → Engine M → Market M → ℕ → ℕ → Decimal → Decimal → Decimal → Decimal → String → Order M
  new_order type e m user_id side amount price taker_fee maker_fee source = record {
    id = next_id e.order_id_start;
    type = type;
    side = side;
    create_time = M.current_timestamp e.ticks;
    update_time = M.current_timestamp e.ticks;
    user_id = user_id;
    market = m.name;
    source = source;
    price = price;
    amount = amount;
    taker_fee = taker_fee;
    maker_fee = maker_fee;
    left = amount;
    freeze = mpd_zero;
    deal_stock = mpd_zero;
    deal_money = mpd_zero;
    deal_fee = mpd_zero;
  }

  -- The globals after the order has taken its id and its time.
  unfoldable pub numbered : Engine M → Engine M
  numbered e = record e { order_id_start = next_id e.order_id_start; ticks = suc e.ticks }

  -- After the loop: an order with nothing left is reported, another is put into the book. A failure
  -- of `order_put` is only logged.
  unfoldable pub finish_limit : Bool → Run M → Reply
  finish_limit real r =
      if is_eq (cmp r.taker.left mpd_zero)
      then record {
        ret = ok;
        result = if real then some r.taker else none;
        engine =
            note M real
              (push_order_message M event_finish r.taker r.market ++ append_order_history M r.taker)
              r.engine;
        market = r.market;
        hung = r.hung;
      }
      else (let p =
            order_put M (note M real (push_order_message M event_put r.taker r.market) r.engine)
              r.market r.taker in
          record {
            ret = ok;
            result = if real then some r.taker else none;
            engine = p.engine;
            market = p.market;
            hung = r.hung;
          })

  -- The balance that a limit order needs.
  unfoldable pub lacks_funds : Engine M → Market M → ℕ → ℕ → Decimal → Decimal → Bool
  lacks_funds e m user_id side amount price =
      if side == side_ask
      then is_short (balance_get M e.ledger user_id available_type m.stock) amount
      else is_short (balance_get M e.ledger user_id available_type m.money) (mul amount price)

  unfoldable pub market_put_limit_order :
      Bool → Engine M → Market M → ℕ → ℕ → Decimal → Decimal → Decimal → Decimal → String → Reply
  unfolding finish_limit new_order numbered
  market_put_limit_order real e m user_id side amount price taker_fee maker_fee source =
      if lacks_funds e m user_id side amount price
      then refuse 1 e m
      else if is_lt (cmp amount m.min_amount)
      then refuse 2 e m
      else let taker =
          new_order type_limit e m user_id side amount price taker_fee maker_fee source in
        if side == side_ask
        then finish_limit real (execute_limit_ask_order M real (numbered e) m taker)
        else finish_limit real (execute_limit_bid_order M real (numbered e) m taker)

  -- A market order is reported and freed, whatever is left of it.
  unfoldable pub finish_market : Bool → Run M → Reply
  finish_market real r = record {
    ret = ok;
    result = if real then some r.taker else none;
    engine =
        note M real
          (push_order_message M event_finish r.taker r.market ++ append_order_history M r.taker)
          r.engine;
    market = r.market;
    hung = r.hung;
  }

  -- The checks of a market order: the result code of a refusal.
  unfoldable pub market_refusal : Engine M → Market M → ℕ → ℕ → Decimal → Option ℕ
  market_refusal e m user_id side amount =
      if side == side_ask
      then (if is_short (balance_get M e.ledger user_id available_type m.stock) amount
          then some 1
          else elim m.bids [
            | [] ↦ some 3
            | _ ∷ _ ↦ if is_lt (cmp amount m.min_amount) then some 2 else none
          ])
      else (if is_short (balance_get M e.ledger user_id available_type m.money) amount
          then some 1
          else elim m.asks [
            | [] ↦ some 3
            | o ∷ _ ↦ if is_lt (cmp amount (mul o.price m.min_amount)) then some 2 else none
          ])

  unfoldable pub market_put_market_order :
      ℕ → Bool → Engine M → Market M → ℕ → ℕ → Decimal → Decimal → String → Reply
  unfolding finish_market new_order numbered
  market_put_market_order fuel real e m user_id side amount taker_fee source =
      elim (market_refusal e m user_id side amount) [
        | some n ↦ refuse n e m
        | none ↦
            let taker =
              new_order type_market e m user_id side amount mpd_zero taker_fee mpd_zero source in
            if side == side_ask
            then finish_market real (execute_market_ask_order M real (numbered e) m taker)
            else finish_market real (execute_market_bid_order M fuel real (numbered e) m taker)
      ]

  unfoldable pub market_cancel_order : Bool → Engine M → Market M → Order M → Reply
  market_cancel_order real e m o =
      let p = order_finish M real (note M real (push_order_message M event_finish o m) e) m o in
      record {
        ret = ok;
        result = if real then some o else none;
        engine = p.engine;
        market = p.market;
        hung = false;
      }

  unfoldable pub market_put_order : Engine M → Market M → Order M → Put M
  market_put_order e m o = order_put M e m o

  -- `struct market` of me_config.h.
  pub record MarketConf : Type 0 where
    pub name : String
    pub stock : String
    pub money : String
    pub stock_prec : ℕ
    pub money_prec : ℕ
    pub fee_prec : ℕ
    pub min_amount : Decimal

  -- `a > asset_prec(asset)`, where an unknown asset has precision -1.
  abbrev pub exceeds : ℕ → Option ℕ → Bool
  exceeds a none = true
  exceeds a (some p) = ltb p a

  unfoldable pub market_create : Ledger M → MarketConf → Option (Market M)
  market_create s conf =
      if not (asset_exist M s conf.stock) || not (asset_exist M s conf.money)
      then none
      else if exceeds (conf.stock_prec + conf.money_prec) (asset_prec M s conf.money)
      then none
      else if exceeds (conf.stock_prec + conf.fee_prec) (asset_prec M s conf.stock)
      then none
      else if exceeds (conf.money_prec + conf.fee_prec) (asset_prec M s conf.money)
      then none
      else some (record {
        name = conf.name;
        stock = conf.stock;
        money = conf.money;
        stock_prec = conf.stock_prec;
        money_prec = conf.money_prec;
        fee_prec = conf.fee_prec;
        min_amount = conf.min_amount;
        orders = [];
        users = [];
        asks = [];
        bids = [];
        loose = [];
      })
