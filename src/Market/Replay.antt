-- ===== src/Market/Replay.antt =====
-- Replaying (`real` is false, as me_load.c does with the operation log) and running for real: they
-- differ in the history, the messages and the times alone (matchengine/me_market.c).
pub mod Times
pub mod Deals
pub mod Loops
use viabtc_server_mac.Prelude.{
  ℕ, ◌≡◌, refl, Bool, true, false, List, [], ◌∷◌, arith, is_lt, Bool-cases, inl, inr, ◌⊎◌, nat_eq,
  ◌==◌, ◌++◌, Option, none, some, String, Option-cases, ap,
}
use viabtc_server_mac.Platform.{Mpd}
use viabtc_server_mac.Dict.{put}
use viabtc_server_mac.SkipList.{skiplist_insert}
use viabtc_server_mac.Market.Order.{
  push_order_message, event_finish, event_put, Order, Market, Engine, note, Event, type_limit,
  type_market, side_ask, order_id_compare,
}
use viabtc_server_mac.Market.Book.{
  Put, release, put_side, with_freeze, find_order, contains, market_get_order, user_list, order_put,
  order_finish, unlink,
}
use viabtc_server_mac.Market.Trade.{
  begin_deal, Traded, Quote, trade_ask, trade_bid, settle, close, limit_ask_quote, limit_bid_quote,
  market_ask_quote, market_bid_quote,
}
use viabtc_server_mac.Market.Match.{
  Run, execute, keep, execute_limit_ask_order, execute_limit_bid_order, execute_market_ask_order,
  execute_market_bid_order,
}
use viabtc_server_mac.Market.Sides.{Quote-cases, stops, hangs, deals}
use viabtc_server_mac.Market.Entry.{
  refuse, Reply, market_put_limit_order, market_put_market_order, market_cancel_order, finish_limit,
  finish_market, new_order, numbered, lacks_funds, market_refusal,
}
use viabtc_server_mac.Market.Replay.Times.{
  Alike, AllAlike, BothAlike, FoundAlike, SameMarket, retimed, insert-BothAlike, remove-AllAlike,
  find_order-FoundAlike, append-AllAlike,
}
use viabtc_server_mac.Market.Replay.Deals.{SameEngine, SamePut, release-SamePut, at_times}
use viabtc_server_mac.Market.Replay.Loops.{
  SameRun, execute_limit_ask-SameRun, execute_limit_bid-SameRun, execute_market_ask-SameRun,
  execute_market_bid-SameRun,
}

module _ (M : Mpd) where
  -- Two replies that agree but for the log, the times and the order that is reported.
  pub record SameReply (s t : Reply M) : Type 0 where
    pub engines : SameEngine M s.engine t.engine
    pub markets : SameMarket M s.market t.market
    pub rets : s.ret ≡ t.ret
    pub hungs : s.hung ≡ t.hung

  -- What two insertions into alike lists have returned.
  both_cases :
      (s t : Option (List (Order M)))
      → BothAlike M s t
      → ((s ≡ none) × (t ≡ none))
        ⊎ ((xs : List (Order M)) × (ys : List (Order M)) × (s ≡ some xs)
            × (t ≡ some ys)
            × AllAlike M xs ys)
  both_cases none none h = inl (refl, refl)
  both_cases (some xs) (some ys) h = inr (xs, ys, refl, refl, h)
  both_cases none (some ys) h = absurd h
  both_cases (some xs) none h = absurd h

  put_side-SamePut :
      (a b : Engine M) (m n : Market M) (o p f g : Order M)
      → SameEngine M a b
      → SameMarket M m n
      → Alike M o p
      → Alike M f g
      → SamePut M (put_side M a m o f) (put_side M b n p g)
  unfolding put_side
  put_side-SamePut a b m n o p f g h k i j =
      let side : f.side ≡ g.side = ap (λ o. o.side) j in
      let user : f.user_id ≡ g.user_id = ap (λ o. o.user_id) j in
      let left : f.left ≡ g.left = ap (λ o. o.left) j in
      let price : f.price ≡ g.price = ap (λ o. o.price) j in
      elim (Bool-cases (f.side == side_ask)) [
        | inl s ↦ elim (both_cases _ _ (insert-BothAlike M f g m.asks n.asks j k.asks_alike)) [
          | inl (d, e) ↦ ground arith
          | inr (xs, ys, d, e, l) ↦ ground arith
        ]
        | inr s ↦ elim (both_cases _ _ (insert-BothAlike M f g m.bids n.bids j k.bids_alike)) [
          | inl (d, e) ↦ ground arith
          | inr (xs, ys, d, e, l) ↦ ground arith
        ]
      ]

  with_freeze-Alike : (o p : Order M) → Alike M o p → Alike M (with_freeze M o) (with_freeze M p)
  unfolding with_freeze
  with_freeze-Alike o p i = rw (retimed M o p i) (ground arith)

  order_put-SamePut :
      (a b : Engine M) (m n : Market M) (o p : Order M)
      → SameEngine M a b
      → SameMarket M m n
      → Alike M o p
      → SamePut M (order_put M a m o) (order_put M b n p)
  unfolding order_put
  order_put-SamePut a b m n o p h k i =
      let kind : o.type ≡ p.type = ap (λ o. o.type) i in
      let id : o.id ≡ p.id = ap (λ o. o.id) i in
      let user : o.user_id ≡ p.user_id = ap (λ o. o.user_id) i in
      elim (Bool-cases (o.type == type_limit)) [
        | inr t ↦ ground arith
        | inl t ↦ elim (Bool-cases (contains o.id m.orders)) [
          | inl c ↦ ground arith
          | inr c ↦
              elim (Option-cases
                (skiplist_insert order_id_compare o.id (user_list M m o.user_id))) [
                  | inl e ↦ ground arith
                  | inr (l, e) ↦ ground (
                    arith,
                    put_side-SamePut a b
                        (record m { orders = o.id ∷ m.orders; users = put o.user_id l m.users })
                        (record n { orders = p.id ∷ n.orders; users = put p.user_id l n.users }) o p
                        (with_freeze M o) (with_freeze M p),
                    with_freeze-Alike o p i,
                  )
                ]
        ]
      ]

  finish_limit-SameReply :
      (r q : Bool) (s t : Run M)
      → SameRun M s t
      → SameReply (finish_limit M r s) (finish_limit M q t)
  unfolding finish_limit
  finish_limit-SameReply r q s t h =
      let left : s.taker.left ≡ t.taker.left = ap (λ o. o.left) h.takers in
      (ground (
        arith,
        h.engines,
        order_put-SamePut (note M r (push_order_message M event_put s.taker s.market) s.engine)
            (note M q (push_order_message M event_put t.taker t.market) t.engine) s.market t.market
            s.taker t.taker,
      ))

  finish_market-SameReply :
      (r q : Bool) (s t : Run M)
      → SameRun M s t
      → SameReply (finish_market M r s) (finish_market M q t)
  unfolding finish_market
  finish_market-SameReply r q s t h = ground arith

  numbered-SameEngine :
      (a b : Engine M) → SameEngine M a b → SameEngine M (numbered M a) (numbered M b)
  unfolding numbered
  numbered-SameEngine a b h = ground arith

  refuse-SameReply :
      (n : ℕ) (a b : Engine M) (m m' : Market M)
      → SameEngine M a b
      → SameMarket M m m'
      → SameReply (refuse M n a m) (refuse M n b m')
  refuse-SameReply n a b m m' h k = ground arith

  lacks_funds_same :
      (a b : Engine M) (m n : Market M) (u side : ℕ) (x y : M.Decimal)
      → SameEngine M a b
      → SameMarket M m n
      → lacks_funds M b n u side x y ≡ lacks_funds M a m u side x y
  unfolding lacks_funds
  lacks_funds_same a b m n u side x y h k = rw (h.same_ledger, k.stocks, k.moneys) refl

  new_order-Alike :
      (a b : Engine M) (m n : Market M) (type u side : ℕ) (amount price tf mf : M.Decimal)
      (src : String)
      → SameEngine M a b
      → SameMarket M m n
      → Alike M
          (new_order M type a m u side amount price tf mf src)
          (new_order M type b n u side amount price tf mf src)
  unfolding new_order
  new_order-Alike a b m n type u side amount price tf mf src h k = ground arith

  -- Alike lists are both empty, or their first orders have the same price.
  heads_alike :
      (xs ys : List (Order M))
      → AllAlike M xs ys
      → ((xs ≡ []) × (ys ≡ []))
        ⊎ ((x : Order M) × (os : List (Order M)) × (y : Order M) × (ps : List (Order M)) × (xs
              ≡ x ∷ os)
            × (ys ≡ y ∷ ps)
            × (x.price ≡ y.price))
  heads_alike [] [] h = inl (refl, refl)
  heads_alike [] (y ∷ ps) h = absurd (cc h)
  heads_alike (x ∷ os) [] h = absurd (cc h)
  heads_alike (x ∷ os) (y ∷ ps) h =
      let a : Alike M x y = cc h in inr (x, os, y, ps, refl, refl, ap (λ o. o.price) a)

  market_refusal_same :
      (a b : Engine M) (m n : Market M) (u side : ℕ) (x : M.Decimal)
      → SameEngine M a b
      → SameMarket M m n
      → market_refusal M b n u side x ≡ market_refusal M a m u side x
  unfolding market_refusal
  market_refusal_same a b m n u side x h k = elim (Bool-cases (side == side_ask)) [
    | inl s ↦ elim (heads_alike m.bids n.bids k.bids_alike) [
      | inl (d, e) ↦ ground arith
      | inr (o, os, p, ps, d, e, q) ↦ ground arith
    ]
    | inr s ↦ elim (heads_alike m.asks n.asks k.asks_alike) [
      | inl (d, e) ↦ ground arith
      | inr (o, os, p, ps, d, e, q) ↦ ground arith
    ]
  ]

  -- A limit order has the same effect when it is replayed.
  pub market_put_limit_order-SameReply :
      (r q : Bool) (a b : Engine M) (m n : Market M) (u side : ℕ) (amount price tf mf : M.Decimal)
      (src : String)
      → SameEngine M a b
      → SameMarket M m n
      → SameReply
          (market_put_limit_order M r a m u side amount price tf mf src)
          (market_put_limit_order M q b n u side amount price tf mf src)
  unfolding market_put_limit_order
  market_put_limit_order-SameReply r q a b m n u side amount price tf mf src h k =
      let o = new_order M type_limit a m u side amount price tf mf src in
      let p = new_order M type_limit b n u side amount price tf mf src in
      let i = new_order-Alike a b m n type_limit u side amount price tf mf src h k in
      let g = numbered-SameEngine a b h in
      let c = lacks_funds_same a b m n u side amount price h k in
      let d : is_lt (M.cmp amount n.min_amount) ≡ is_lt (M.cmp amount m.min_amount) =
        rw k.min_amounts refl in
      elim (Bool-cases (lacks_funds M a m u side amount price)) [
        | inl short ↦ rw (c, short) (refuse-SameReply 1 a b m n h k)
        | inr enough ↦ elim (Bool-cases (is_lt (M.cmp amount m.min_amount))) [
          | inl small ↦ rw (c, enough, d, small) (refuse-SameReply 2 a b m n h k)
          | inr fits ↦ elim (Bool-cases (side == side_ask)) [
            | inl s ↦
                rw (c, enough, d, fits, s)
                  (finish_limit-SameReply r q _ _
                    (execute_limit_ask-SameRun M r q (numbered M a) (numbered M b) m n o p g k i))
            | inr s ↦
                rw (c, enough, d, fits, s)
                  (finish_limit-SameReply r q _ _
                    (execute_limit_bid-SameRun M r q (numbered M a) (numbered M b) m n o p g k i))
          ]
        ]
      ]

  -- So has a market order.
  pub market_put_market_order-SameReply :
      (fuel : ℕ) (r q : Bool) (a b : Engine M) (m n : Market M) (u side : ℕ) (amount tf : M.Decimal)
      (src : String)
      → SameEngine M a b
      → SameMarket M m n
      → SameReply
          (market_put_market_order M fuel r a m u side amount tf src)
          (market_put_market_order M fuel q b n u side amount tf src)
  unfolding market_put_market_order
  market_put_market_order-SameReply fuel r q a b m n u side amount tf src h k =
      let o = new_order M type_market a m u side amount M.mpd_zero tf M.mpd_zero src in
      let p = new_order M type_market b n u side amount M.mpd_zero tf M.mpd_zero src in
      let i = new_order-Alike a b m n type_market u side amount M.mpd_zero tf M.mpd_zero src h k in
      let g = numbered-SameEngine a b h in
      let c = market_refusal_same a b m n u side amount h k in
      elim (Option-cases (market_refusal M a m u side amount)) [
        | inr (j, e) ↦ rw (c, e, market_put_market_order) (refuse-SameReply j a b m n h k)
        | inl e ↦ elim (Bool-cases (side == side_ask)) [
          | inl s ↦
              rw (c, e, market_put_market_order, s)
                (finish_market-SameReply r q _ _
                  (execute_market_ask-SameRun M r q (numbered M a) (numbered M b) m n o p g k i))
          | inr s ↦
              rw (c, e, market_put_market_order, s)
                (finish_market-SameReply r q _ _ (
                  execute_market_bid-SameRun M fuel r q (numbered M a) (numbered M b) m n o p g k
                    i))
        ]
      ]

  unlink-SameMarket :
      (m n : Market M) (o p : Order M)
      → SameMarket M m n
      → Alike M o p
      → SameMarket M (unlink M m o) (unlink M n p)
  unfolding unlink
  unlink-SameMarket m n o p k i =
      let side : o.side ≡ p.side = ap (λ o. o.side) i in
      ground (
        arith,
        remove-AllAlike M o p m.asks n.asks i k.asks_alike,
        remove-AllAlike M o p m.bids n.bids i k.bids_alike,
      )

  -- So has a cancelled order.
  pub market_cancel_order-SameReply :
      (r q : Bool) (a b : Engine M) (m n : Market M) (o p : Order M)
      → SameEngine M a b
      → SameMarket M m n
      → Alike M o p
      → SameReply (market_cancel_order M r a m o) (market_cancel_order M q b n p)
  unfolding market_cancel_order order_finish
  market_cancel_order-SameReply r q a b m n o p h k i =
      let s =
        release-SamePut M r q (note M r (push_order_message M event_finish o m) a)
          (note M q (push_order_message M event_finish p n) b) (unlink M m o) (unlink M n p) o p
          (ground arith) (unlink-SameMarket m n o p k i) i in
      record { engines = s.engines; markets = s.markets; rets = refl; hungs = refl }

  -- The order of an id.
  pub market_get_order-FoundAlike :
      (m n : Market M) (i : ℕ)
      → SameMarket M m n
      → FoundAlike M (market_get_order M m i) (market_get_order M n i)
  unfolding market_get_order
  market_get_order-FoundAlike m n i k =
      let f =
        find_order-FoundAlike M i (m.asks ++ m.bids ++ m.loose) (n.asks ++ n.bids ++ n.loose) (
          append-AllAlike M _ _ _ _
            (append-AllAlike M m.asks n.asks m.bids n.bids k.asks_alike k.bids_alike)
            k.loose_alike) in
      elim (Bool-cases (contains i m.orders)) [
        | inl e ↦ let e' : contains i n.orders ≡ true = rw (← k.ids) e in rw (e, e') f
        | inr e ↦ let e' : contains i n.orders ≡ false = rw (← k.ids) e in rw (e, e') tt
      ]
