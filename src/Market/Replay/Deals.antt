-- ===== src/Market/Replay/Deals.antt =====
-- One deal in a replay and for real (matchengine/me_market.c): the same but for the times.
use viabtc_server_mac.Prelude.{ℕ, ◌≡◌, refl, sym, subst, Bool, List, arith, nat_eq, String}
use viabtc_server_mac.Platform.{Mpd}
use viabtc_server_mac.Market.Order.{
  push_order_message, event_finish, Order, Market, Engine, note, Event,
}
use viabtc_server_mac.Market.Book.{Put, release}
use viabtc_server_mac.Market.Trade.{begin_deal, Traded, trade_ask, trade_bid, settle, close}
use viabtc_server_mac.Market.Replay.Times.{Alike, retimed, SameMarket, FoundAlike}

module _ (M : Mpd) where
  -- The same engine but for the log and the clock.
  pub record SameEngine (a b : Engine M) : Type 0 where
    pub order_ids : a.order_id_start ≡ b.order_id_start
    pub deal_ids : a.deals_id_start ≡ b.deals_id_start
    pub same_ledger : a.ledger ≡ b.ledger

  pub record SameTraded (s t : Traded M) : Type 0 where
    pub engines : SameEngine s.engine t.engine
    pub markets : SameMarket M s.market t.market
    pub takers : Alike M s.taker t.taker
    pub makers : FoundAlike M s.maker t.maker

  pub record SamePut (s t : Put M) : Type 0 where
    pub engines : SameEngine s.engine t.engine
    pub markets : SameMarket M s.market t.market
    pub rets : s.ret ≡ t.ret

  pub settle-SameEngine :
      (r q : Bool) (o p : Order M) (kind : ℕ) (given given' : String) (x : M.Decimal)
      (got got' : String) (y fee rate price amount : M.Decimal) (a b : Engine M)
      → o.user_id ≡ p.user_id
      → given ≡ given'
      → got ≡ got'
      → SameEngine a b
      → SameEngine
          (settle M r o kind given x got y fee rate price amount a)
          (settle M q p kind given' x got' y fee rate price amount b)
  unfolding settle
  settle-SameEngine r q o p kind given given' x got got' y fee rate price amount a b u i j h =
      ground arith

  pub release-SamePut :
      (r q : Bool) (a b : Engine M) (m n : Market M) (o p : Order M)
      → SameEngine a b
      → SameMarket M m n
      → Alike M o p
      → SamePut (release M r a m o) (release M q b n p)
  unfolding release
  release-SamePut r q a b m n o p h k l = ground arith

  pub close-SameTraded :
      (r q : Bool) (a b : Engine M) (m n : Market M) (taker taker' maker maker' : Order M)
      → SameEngine a b
      → SameMarket M m n
      → Alike M taker taker'
      → Alike M maker maker'
      → SameTraded (close M r a m taker maker) (close M q b n taker' maker')
  unfolding close
  close-SameTraded r q a b m n taker taker' maker maker' h k l j = ground (
    arith,
    release-SamePut r q (note M r (push_order_message M event_finish maker m) a)
        (note M q (push_order_message M event_finish maker' n) b) m n maker maker',
  )

  pub begin_deal-SameEngine :
      (r q : Bool) (events others : List (Event M)) (a b : Engine M)
      → SameEngine a b
      → SameEngine (begin_deal M r events a) (begin_deal M q others b)
  unfolding begin_deal
  begin_deal-SameEngine r q events others a b h = ground arith

  -- An order with other times.
  abbrev pub at_times : Order M → M.Time → M.Time → Order M
  at_times o t u = record o { create_time = t; update_time = u }

  trade_ask_retimed :
      (r q : Bool) (a b : Engine M) (m n : Market M) (taker maker : Order M) (t u v w : M.Time)
      (x : M.Decimal)
      → SameEngine a b
      → SameMarket M m n
      → SameTraded
          (trade_ask M r a m taker maker x)
          (trade_ask M q b n (at_times taker t u) (at_times maker v w) x)
  unfolding trade_ask
  trade_ask_retimed r q a b m n taker maker t u v w x h k =
      close-SameTraded r q _ _ m n _ _ _ _
        (settle-SameEngine r q _ _ _ _ _ _ _ _ _ _ _ _ _ _ _ refl k.moneys k.stocks (
          settle-SameEngine r q _ _ _ _ _ _ _ _ _ _ _ _ _ _ _ refl k.stocks k.moneys
            (begin_deal-SameEngine r q _ _ a b h)))
        k refl refl

  trade_bid_retimed :
      (by_money r q : Bool) (a b : Engine M) (m n : Market M) (taker maker : Order M)
      (t u v w : M.Time) (x : M.Decimal)
      → SameEngine a b
      → SameMarket M m n
      → SameTraded
          (trade_bid M by_money r a m taker maker x)
          (trade_bid M by_money q b n (at_times taker t u) (at_times maker v w) x)
  unfolding trade_bid
  trade_bid_retimed by_money r q a b m n taker maker t u v w x h k =
      close-SameTraded r q _ _ m n _ _ _ _
        (settle-SameEngine r q _ _ _ _ _ _ _ _ _ _ _ _ _ _ _ refl k.stocks k.moneys (
          settle-SameEngine r q _ _ _ _ _ _ _ _ _ _ _ _ _ _ _ refl k.moneys k.stocks
            (begin_deal-SameEngine r q _ _ a b h)))
        k refl refl

  -- The body of a loop does the same for a real call and a replay.
  abbrev pub Repeats :
      (Bool → Engine M → Market M → Order M → Order M → M.Decimal → Traded M) → Type 0
  Repeats trade =
      (r q : Bool) (a b : Engine M) (m n : Market M) (taker taker' maker maker' : Order M)
      (x : M.Decimal)
      → SameEngine a b
      → SameMarket M m n
      → Alike M taker taker'
      → Alike M maker maker'
      → SameTraded (trade r a m taker maker x) (trade q b n taker' maker' x)

  pub trade_ask-Repeats : Repeats (trade_ask M)
  trade_ask-Repeats r q a b m n taker taker' maker maker' x h k i j =
      subst (λ o. SameTraded (trade_ask M r a m taker maker x) (trade_ask M q b n o maker' x))
        (sym (retimed M taker taker' i))
        (subst
          (λ o.
            SameTraded (trade_ask M r a m taker maker x)
              (trade_ask M q b n (at_times taker taker'.create_time taker'.update_time) o x))
          (sym (retimed M maker maker' j))
          (trade_ask_retimed r q a b m n taker maker taker'.create_time taker'.update_time
            maker'.create_time maker'.update_time x h k))

  pub trade_bid-Repeats : (by_money : Bool) → Repeats (trade_bid M by_money)
  trade_bid-Repeats by_money r q a b m n taker taker' maker maker' x h k i j =
      subst
        (λ o.
          SameTraded (trade_bid M by_money r a m taker maker x)
            (trade_bid M by_money q b n o maker' x))
        (sym (retimed M taker taker' i))
        (subst
          (λ o.
            SameTraded (trade_bid M by_money r a m taker maker x) (
              trade_bid M by_money q b n (at_times taker taker'.create_time taker'.update_time) o
                x))
          (sym (retimed M maker maker' j))
          (trade_bid_retimed by_money r q a b m n taker maker taker'.create_time taker'.update_time
            maker'.create_time maker'.update_time x h k))
