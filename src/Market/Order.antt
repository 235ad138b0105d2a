-- ===== src/Market/Order.antt =====
-- The data of matchengine/me_market.h and me_market.c: orders, markets and the engine's globals, the
-- comparison functions, and the history rows and messages as a log.
use viabtc_server_mac.Prelude.{
  ℕ, ◌+◌, ◌%◌, ◌^◌, Bool, Option, none, some, List, [], ◌∷◌, String, Ordering, compare, nat_eq,
  ◌==◌, if◌then◌else◌, not, is_gt, ◌++◌,
}
use viabtc_server_mac.Platform.{Mpd}
use viabtc_server_mac.Dict.{Dict}
use viabtc_server_mac.Balance.Defs.{Ledger, balance_total}

-- MARKET_ORDER_TYPE_*, MARKET_ORDER_SIDE_*, MARKET_ROLE_* (utils/ut_define.h) and ORDER_EVENT_*.
abbrev pub type_limit : ℕ
type_limit = 1

abbrev pub type_market : ℕ
type_market = 2

abbrev pub side_ask : ℕ
side_ask = 1

abbrev pub side_bid : ℕ
side_bid = 2

abbrev pub role_maker : ℕ
role_maker = 1

abbrev pub role_taker : ℕ
role_taker = 2

abbrev pub event_put : ℕ
event_put = 1

abbrev pub event_update : ℕ
event_update = 2

abbrev pub event_finish : ℕ
event_finish = 3

-- A C result code: 0, or `err n` for -n (for `-__LINE__` the line).
pub data Ret : Type 0 where
  ok : Ret
  err : ℕ → Ret

-- A user's orders, the newest first. The list holds ids: the order stands in its side's list.
unfoldable pub order_id_compare : ℕ → ℕ → Ordering
order_id_compare a b =
    if a == b then Ordering.eq else if is_gt (compare a b) then Ordering.lt else Ordering.gt

module _ (M : Mpd) where
  open M use {Decimal, Time, cmp, copy_negate}

  pub record Order : Type 0 where
    pub id : ℕ
    pub type : ℕ
    pub side : ℕ
    pub create_time : Time
    pub update_time : Time
    pub user_id : ℕ
    pub market : String
    pub source : String
    pub price : Decimal
    pub amount : Decimal
    pub taker_fee : Decimal
    pub maker_fee : Decimal
    pub left : Decimal
    pub freeze : Decimal
    pub deal_stock : Decimal
    pub deal_money : Decimal
    pub deal_fee : Decimal

  -- A price level's order: asks by rising price, bids by falling price, then by id.
  unfoldable pub order_match_compare : Order → Order → Ordering
  order_match_compare a b =
      if a.id == b.id
      then Ordering.eq
      else if not (a.type == b.type)
      then Ordering.gt
      else let by_id = (if is_gt (compare a.id b.id) then Ordering.gt else Ordering.lt) in
        elim (if a.side == side_ask then cmp a.price b.price else cmp b.price a.price) [
          | Ordering.lt ↦ Ordering.lt
          | Ordering.gt ↦ Ordering.gt
          | Ordering.eq ↦ by_id
        ]

  -- `orders` holds the keys of the order dictionary; the object of a key is the order with that id
  -- in `asks` or `bids`, so that a change of an order is seen by every holder of its pointer. `loose` has
  -- the objects of the dictionary that a failed call has left on no side.
  pub record Market : Type 0 where
    pub name : String
    pub stock : String
    pub money : String
    pub stock_prec : ℕ
    pub money_prec : ℕ
    pub fee_prec : ℕ
    pub min_amount : Decimal
    pub orders : List ℕ
    pub users : Dict ℕ (List ℕ)
    pub asks : List Order
    pub bids : List Order
    pub loose : List Order

  -- The JSON detail of a balance change: the market, the order, the price, the amount and the rate of
  -- a fee, or what a request gave with its `id` set.
  pub data Detail : Type 0 where
    trade : String → ℕ → Decimal → Decimal → Option Decimal → Detail
    request : String → ℕ → Detail

  -- The rows of me_history.c, in the order of its columns, and the messages of me_message.c.
  pub data Event : Type 0 where
    user_order order_detail : Order → Event
    order_deal : Time → ℕ → ℕ → ℕ → ℕ → ℕ → List Decimal → Event
    user_deal : Time → ℕ → String → ℕ → ℕ → ℕ → ℕ → ℕ → List Decimal → Event
    user_balance : Time → ℕ → String → String → Decimal → Decimal → Detail → Event
    order_message : ℕ → Order → String → String → Event
    deal_message : Time → String → ℕ → ℕ → ℕ → ℕ → List Decimal → ℕ → ℕ → String → String → Event
    balance_message : Time → ℕ → String → String → Decimal → Event

  -- The engine's globals; `ticks` counts the readings of the clock.
  pub record Engine : Type 0 where
    pub order_id_start : ℕ
    pub deals_id_start : ℕ
    pub ticks : ℕ
    pub ledger : Ledger M
    pub log : List Event

  -- `if (real) { ... }`: the newest event stands first.
  abbrev pub note : Bool → List Event → Engine → Engine
  note real events e = if real then record e { log = events ++ e.log } else e

  unfoldable pub append_order_history : Order → List Event
  append_order_history o = order_detail o ∷ user_order o ∷ []

  unfoldable pub append_order_deal_history :
      Time
      → ℕ
      → Order
      → ℕ
      → Order
      → ℕ
      → Decimal
      → Decimal
      → Decimal
      → Decimal
      → Decimal
      → List Event
  append_order_deal_history t deal_id ask ask_role bid bid_role price amount deal ask_fee bid_fee =
      let ask_side = price ∷ amount ∷ deal ∷ ask_fee ∷ bid_fee ∷ [] in
      let bid_side = price ∷ amount ∷ deal ∷ bid_fee ∷ ask_fee ∷ [] in
      user_deal t bid.user_id ask.market deal_id bid.id ask.id bid.side bid_role bid_side
      ∷ user_deal t ask.user_id ask.market deal_id ask.id bid.id ask.side ask_role ask_side
      ∷ order_deal t bid.user_id deal_id bid.id ask.id bid_role bid_side
      ∷ order_deal t ask.user_id deal_id ask.id bid.id ask_role ask_side
      ∷ []

  unfoldable pub append_user_balance_history :
      Ledger M → Time → ℕ → String → String → Decimal → Detail → List Event
  append_user_balance_history s t user_id asset business change detail =
      user_balance t user_id asset business change (balance_total M s user_id asset) detail ∷ []

  unfoldable pub push_order_message : ℕ → Order → Market → List Event
  push_order_message event o m = order_message event o m.stock m.money ∷ []

  unfoldable pub push_deal_message :
      Time → Market → Order → Order → Decimal → Decimal → Decimal → Decimal → ℕ → ℕ → List Event
  push_deal_message t m ask bid price amount ask_fee bid_fee side deal_id =
      deal_message t m.name ask.id bid.id ask.user_id bid.user_id
        (price ∷ amount ∷ ask_fee ∷ bid_fee ∷ []) side deal_id m.stock m.money
      ∷ []

  -- The detail of `append_balance_trade_add`, `_sub` and `_fee`.
  abbrev pub trade_detail : Order → Decimal → Decimal → Option Decimal → Detail
  trade_detail o price amount rate = trade o.market o.id price amount rate

  unfoldable pub append_balance_trade_add :
      Ledger M → Order → String → Decimal → Decimal → Decimal → List Event
  append_balance_trade_add s o asset change price amount =
      append_user_balance_history s o.update_time o.user_id asset "trade" change
        (trade_detail o price amount none)

  unfoldable pub append_balance_trade_sub :
      Ledger M → Order → String → Decimal → Decimal → Decimal → List Event
  append_balance_trade_sub s o asset change price amount =
      append_user_balance_history s o.update_time o.user_id asset "trade" (copy_negate change)
        (trade_detail o price amount none)

  unfoldable pub append_balance_trade_fee :
      Ledger M → Order → String → Decimal → Decimal → Decimal → Decimal → List Event
  append_balance_trade_fee s o asset change price amount rate =
      append_user_balance_history s o.update_time o.user_id asset "trade" (copy_negate change)
        (trade_detail o price amount (some rate))

-- `++n` on a `uint64_t`.
abbrev pub next_id : ℕ → ℕ
next_id n = (n + 1) % 2 ^ 64
