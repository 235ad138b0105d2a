-- ===== src/Market/Book.antt =====
-- The order book of matchengine/me_market.c: `order_put`, `order_finish`, and the queries.
-- `malloc` is taken to succeed, so the `-__LINE__` of a failed allocation is left out.
use viabtc_server_mac.Prelude.{
  ℕ, Bool, true, false, Option, none, some, List, [], ◌∷◌, ◌++◌, nat_eq, ◌==◌, if◌then◌else◌, is_gt,
  length, not, ◌&&◌,
}
use viabtc_server_mac.Platform.{Mpd}
use viabtc_server_mac.Dict.{find, put}
use viabtc_server_mac.SkipList.{skiplist_insert, skiplist_remove}
use viabtc_server_mac.Balance.Defs.{balance_freeze, balance_unfreeze}
use viabtc_server_mac.Market.Order.{
  Order, Market, Engine, Ret, ok, err, type_limit, side_ask, order_match_compare, order_id_compare,
  note, append_order_history,
}

-- The keys of the order dictionary.
unfoldable pub contains : ℕ → List ℕ → Bool
contains k [] = false
contains k (j ∷ js) = if k == j then true else contains k js

unfoldable pub dict_delete : ℕ → List ℕ → List ℕ
dict_delete k [] = []
dict_delete k (j ∷ js) = if k == j then dict_delete k js else j ∷ dict_delete k js

module _ (M : Mpd) where
  open M use {Decimal, mpd_zero, cmp, mul}

  -- What a call that changes the book returns and leaves behind.
  pub record Put : Type 0 where
    pub ret : Ret
    pub engine : Engine M
    pub market : Market M

  -- The user's list with the order in it, which is made where there is none.
  abbrev pub user_list : Market M → ℕ → List ℕ
  user_list m user_id = elim (find user_id m.users) [ none ↦ [] | some l ↦ l ]

  -- The side's list, and the funds of the order frozen. `plain` is the order before its `freeze` is set,
  -- which is all that the dictionary has where the list refuses it.
  unfoldable pub put_side : Engine M → Market M → Order M → Order M → Put
  put_side e m plain o =
      if o.side == side_ask
      then (elim (skiplist_insert (order_match_compare M) o m.asks) [
        | none ↦ record { ret = err 190; engine = e; market = record m { loose = plain ∷ m.loose } }
        | some asks ↦
            let (frozen, ledger) = balance_freeze M e.ledger o.user_id m.stock o.left in
            record {
              ret = elim frozen [ none ↦ err 193 | some _ ↦ ok ];
              engine = record e { ledger = ledger };
              market = record m { asks = asks };
            }
      ])
      else (elim (skiplist_insert (order_match_compare M) o m.bids) [
        | none ↦ record { ret = err 197; engine = e; market = record m { loose = plain ∷ m.loose } }
        | some bids ↦
            let (frozen, ledger) =
              balance_freeze M e.ledger o.user_id m.money (mul o.price o.left) in
            record {
              ret = elim frozen [ none ↦ err 203 | some _ ↦ ok ];
              engine = record e { ledger = ledger };
              market = record m { bids = bids };
            }
      ])

  -- `order->freeze` as `order_put` sets it.
  unfoldable pub with_freeze : Order M → Order M
  with_freeze o =
      if o.side == side_ask
      then record o { freeze = o.left }
      else record o { freeze = mul o.price o.left }

  unfoldable pub order_put : Engine M → Market M → Order M → Put
  unfolding with_freeze
  order_put e m o =
      if not (o.type == type_limit)
      then record { ret = err 157; engine = e; market = m }
      else if contains o.id m.orders
      then record { ret = err 162; engine = e; market = m }
      else elim (skiplist_insert order_id_compare o.id (user_list m o.user_id)) [
        | none ↦ record {
          ret = err 172;
          engine = e;
          market = record m { orders = o.id ∷ m.orders; loose = o ∷ m.loose };
        }
        | some l ↦
            put_side e (record m { orders = o.id ∷ m.orders; users = put o.user_id l m.users }) o
              (with_freeze o)
      ]

  -- `order_finish` without the side's list: the frozen rest is given back (a failure returns here, and
  -- the order stays in the dictionary),
  -- the two dictionaries forget the order, and an order that has dealt is written to the history.
  unfoldable pub release : Bool → Engine M → Market M → Order M → Put
  release real e m o =
      let (unfrozen, ledger) =
        (if is_gt (cmp o.freeze mpd_zero)
          then balance_unfreeze M e.ledger o.user_id
              (if o.side == side_ask then m.stock else m.money) o.freeze
          else (some mpd_zero, e.ledger)) in
      elim unfrozen [
        | none ↦ record {
          ret = if o.side == side_ask then err 220 else err 230;
          engine = record e { ledger = ledger };
          market = record m { loose = o ∷ m.loose };
        }
        | some _ ↦ record {
          ret = ok;
          engine =
              note M (real && is_gt (cmp o.deal_stock mpd_zero)) (append_order_history M o)
                (record e { ledger = ledger });
          market = record m {
            orders = dict_delete o.id m.orders;
            users = elim (find o.user_id m.users) [
              | none ↦ m.users
              | some l ↦ put o.user_id (skiplist_remove order_id_compare o.id l) m.users
            ];
          };
        }
      ]

  -- The order taken off its side's list.
  unfoldable pub unlink : Market M → Order M → Market M
  unlink m o =
      if o.side == side_ask
      then record m { asks = skiplist_remove (order_match_compare M) o m.asks }
      else record m { bids = skiplist_remove (order_match_compare M) o m.bids }

  unfoldable pub order_finish : Bool → Engine M → Market M → Order M → Put
  unfolding release unlink
  order_finish real e m o = release real e (unlink m o) o

  -- The object of a key of the order dictionary.
  unfoldable pub find_order : ℕ → List (Order M) → Option (Order M)
  find_order i [] = none
  find_order i (o ∷ os) = if i == o.id then some o else find_order i os

  unfoldable pub market_get_order : Market M → ℕ → Option (Order M)
  unfolding find_order
  market_get_order m i =
      if contains i m.orders then find_order i (m.asks ++ m.bids ++ m.loose) else none

  unfoldable pub market_get_order_list : Market M → ℕ → Option (List ℕ)
  market_get_order_list m user_id = find user_id m.users

  unfoldable pub sum_left : Decimal → List (Order M) → Decimal
  sum_left acc [] = acc
  sum_left acc (o ∷ os) = sum_left (M.add acc o.left) os

  -- The counts and the sums of the two sides.
  unfoldable pub market_get_status : Market M → ℕ × Decimal × ℕ × Decimal
  unfolding sum_left
  market_get_status m =
      (length m.asks, sum_left mpd_zero m.asks, length m.bids, sum_left mpd_zero m.bids)
