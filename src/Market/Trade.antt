-- ===== src/Market/Trade.antt =====
-- One deal of a taker with a maker: the amount that the four `execute_*_order` functions of
-- matchengine/me_market.c choose, and the body of their loops.
use viabtc_server_mac.Prelude.{
  List, ℕ, zero, suc, Bool, Option, none, some, ◌++◌, String, nat_eq, if◌then◌else◌, is_gt, is_lt,
  is_eq,
}
use viabtc_server_mac.Platform.{Mpd}
use viabtc_server_mac.Balance.Defs.{balance_sub, balance_add, available_type, freeze_type}
use viabtc_server_mac.Market.Order.{
  Event, Order, Market, Engine, side_ask, side_bid, role_maker, role_taker, event_update,
  event_finish, note, next_id, append_order_deal_history, push_deal_message, push_order_message,
  append_balance_trade_add, append_balance_trade_sub, append_balance_trade_fee,
}
use viabtc_server_mac.Market.Book.{release}

module _ (M : Mpd) where
  open M use {Decimal, Time, mpd_zero, mpd_ten, cmp, add, sub, mul, div, pow, rescale, set_minus}

  -- How a loop goes on at a maker: it stops, deals an amount, or does not come back.
  pub data Quote : Type 0 where
    stop : Quote
    deal : Decimal → Quote
    hang : Quote

  -- The smaller of the two amounts that are left.
  unfoldable pub common_amount : Order M → Order M → Decimal
  common_amount taker maker = if is_lt (cmp taker.left maker.left) then taker.left else maker.left

  unfoldable pub limit_ask_quote : Order M → Order M → Quote
  limit_ask_quote taker maker =
      if is_eq (cmp taker.left mpd_zero)
      then stop
      else if is_gt (cmp taker.price maker.price)
      then stop
      else deal (common_amount taker maker)

  unfoldable pub limit_bid_quote : Order M → Order M → Quote
  limit_bid_quote taker maker =
      if is_eq (cmp taker.left mpd_zero)
      then stop
      else if is_lt (cmp taker.price maker.price)
      then stop
      else deal (common_amount taker maker)

  unfoldable pub market_ask_quote : Order M → Order M → Quote
  market_ask_quote taker maker =
      if is_eq (cmp taker.left mpd_zero) then stop else deal (common_amount taker maker)

  -- `while (true)`: a step of the stock's precision less as long as the amount costs too much.
  unfoldable pub affordable : ℕ → ℕ → Decimal → Decimal → Decimal → Option Decimal
  affordable zero prec funds price amount = none
  affordable (suc fuel) prec funds price amount =
      let less = affordable fuel prec funds price (sub amount (pow mpd_ten (set_minus prec))) in
      if is_gt (cmp (mul amount price) funds) then less else some amount

  unfoldable pub market_bid_quote : ℕ → ℕ → Order M → Order M → Quote
  market_bid_quote fuel prec taker maker =
      if is_eq (cmp taker.left mpd_zero)
      then stop
      else elim (affordable fuel prec taker.left maker.price
          (rescale (div taker.left maker.price) prec)) [
            | none ↦ hang
            | some bought ↦
                let amount = (if is_gt (cmp bought maker.left) then maker.left else bought) in
                if is_eq (cmp amount mpd_zero) then stop else deal amount
          ]

  -- The funds of one party: `given` leaves the balance `kind` of one asset, `got` is added to the
  -- available balance of another, and a fee above zero is taken from that. The results of the
  -- balance functions are not looked at.
  unfoldable pub settle :
      Bool
      → Order M
      → ℕ
      → String
      → Decimal
      → String
      → Decimal
      → Decimal
      → Decimal
      → Decimal
      → Decimal
      → Engine M
      → Engine M
  settle real o kind give given get got fee rate price amount e =
      let s = (balance_sub M e.ledger o.user_id kind give given).1 in
      let e =
        note M real (append_balance_trade_sub M s o give given price amount)
          (record e { ledger = s }) in
      let s = (balance_add M s o.user_id available_type get got).1 in
      let e =
        note M real (append_balance_trade_add M s o get got price amount)
          (record e { ledger = s }) in
      if is_gt (cmp fee mpd_zero)
      then (let s = (balance_sub M s o.user_id available_type get fee).1 in
          note M real (append_balance_trade_fee M s o get fee price amount rate)
            (record e { ledger = s }))
      else e

  -- The fields of an order that a deal changes: `used` is taken from `left`, `thawed` from `freeze`.
  unfoldable pub fill : Order M → Decimal → Decimal → Decimal → Decimal → Order M
  fill o used amount money fee = record o {
    left = sub o.left used;
    deal_stock = add o.deal_stock amount;
    deal_money = add o.deal_money money;
    deal_fee = add o.deal_fee fee;
  }

  -- The time and the id of a deal are taken, and the deal is reported.
  unfoldable pub begin_deal : Bool → List (Event M) → Engine M → Engine M
  begin_deal real events e =
      note M real events
        (record e { ticks = suc e.ticks; deals_id_start = next_id e.deals_id_start })

  -- The state after a maker: its order, unless it is finished.
  pub record Traded : Type 0 where
    pub engine : Engine M
    pub market : Market M
    pub taker : Order M
    pub maker : Option (Order M)

  -- The end of the loop's body: a maker with nothing left is finished.
  unfoldable pub close : Bool → Engine M → Market M → Order M → Order M → Traded
  close real e m taker maker =
      if is_eq (cmp maker.left mpd_zero)
      then (let p =
            release M real (note M real (push_order_message M event_finish maker m) e) m maker in
          record { engine = p.engine; market = p.market; taker = taker; maker = none })
      else record {
        engine = note M real (push_order_message M event_update maker m) e;
        market = m;
        taker = taker;
        maker = some maker;
      }

  -- The taker sells: the body of `execute_limit_ask_order` and `execute_market_ask_order`.
  unfoldable pub trade_ask : Bool → Engine M → Market M → Order M → Order M → Decimal → Traded
  unfolding fill
  trade_ask real e m taker maker amount =
      let price = maker.price in
      let money = mul price amount in
      let ask_fee = mul money taker.taker_fee in
      let bid_fee = mul amount maker.maker_fee in
      let now = M.current_timestamp e.ticks in
      let taker = record taker { update_time = now } in
      let maker = record maker { update_time = now } in
      let deal_id = next_id e.deals_id_start in
      let e =
        begin_deal real
          (push_deal_message M now m taker maker price amount ask_fee bid_fee side_ask deal_id
            ++ append_order_deal_history M now deal_id taker role_taker maker role_maker price
                amount money ask_fee bid_fee)
          e in
      let taker = fill taker amount amount money ask_fee in
      let e =
        settle real taker available_type m.stock amount m.money money ask_fee taker.taker_fee price
          amount e in
      let maker =
        fill (record maker { freeze = sub maker.freeze money }) amount amount money bid_fee in
      let e =
        settle real maker freeze_type m.money money m.stock amount bid_fee maker.maker_fee price
          amount e in
      close real e m taker maker

  -- The taker buys: the body of `execute_limit_bid_order` and `execute_market_bid_order`, which take
  -- the stock (`used` is the amount) and the money (`by_money`) from the taker's `left`.
  unfoldable pub trade_bid :
      Bool → Bool → Engine M → Market M → Order M → Order M → Decimal → Traded
  unfolding fill
  trade_bid by_money real e m taker maker amount =
      let price = maker.price in
      let money = mul price amount in
      let ask_fee = mul money maker.maker_fee in
      let bid_fee = mul amount taker.taker_fee in
      let now = M.current_timestamp e.ticks in
      let taker = record taker { update_time = now } in
      let maker = record maker { update_time = now } in
      let deal_id = next_id e.deals_id_start in
      let e =
        begin_deal real
          (push_deal_message M now m maker taker price amount ask_fee bid_fee side_bid deal_id
            ++ append_order_deal_history M now deal_id maker role_maker taker role_taker price
                amount money ask_fee bid_fee)
          e in
      let taker = fill taker (if by_money then money else amount) amount money bid_fee in
      let e =
        settle real taker available_type m.money money m.stock amount bid_fee taker.taker_fee price
          amount e in
      let maker =
        fill (record maker { freeze = sub maker.freeze amount }) amount amount money ask_fee in
      let e =
        settle real maker freeze_type m.stock amount m.money money ask_fee maker.maker_fee price
          amount e in
      close real e m taker maker
