-- ===== src/Load/Follows.antt =====
-- One request on an order and the replay of its row (matchengine/me_server.c and me_load.c).
use viabtc_server_mac.Prelude.{
  ◌+◌, ◌&&◌, ℕ, ◌≡◌, refl, Bool, true, false, some, ◌∷◌, String, nat_eq, string_eq, ◌==◌, [],
  Option, none, is_gt, ltb, not, arith, Option-cases, Bool-cases, inl, inr, ◌||◌, if◌then◌else◌,
}
use Prim.Native.String.{len}
use viabtc_server_mac.Platform.{Mpd}
use viabtc_server_mac.Dict.{Dict, find, put, put-find_self}
use viabtc_server_mac.Market.Order.{Order, Market, Engine, Ret, ok, err, next_id}
use viabtc_server_mac.Market.Book.{market_get_order}
use viabtc_server_mac.Market.Entry.{
  Reply, market_put_limit_order, market_put_market_order, market_cancel_order,
}
use viabtc_server_mac.Market.Replay.Deals.{SameEngine}
use viabtc_server_mac.Market.Replay.{
  SameReply, market_put_limit_order-SameReply, market_put_market_order-SameReply,
  market_cancel_order-SameReply, market_get_order-FoundAlike,
}
use viabtc_server_mac.Market.Replay.Times.{Alike, FoundAlike, SameMarket}
use viabtc_server_mac.Market.Refuse.{limit_refused, market_refused}
use viabtc_server_mac.Server.Requests.{
  on_cmd, Exchange, Oper, update_balance, limit_order, market_order, cancel_order, decimal, bad_fee,
  bad_side, get_market, with_reply, serve, answer, append_operlog, Response, result, error, silence,
  on_cmd_order_put_limit, on_cmd_order_put_market, on_cmd_order_cancel,
}
use viabtc_server_mac.Load.Rows.{
  loaded, load_oper, load_limit_order, load_market_order, load_cancel_order,
}

module _ (M : Mpd) where
  -- The same markets by name, but for the times of the orders.
  abbrev pub SameMarkets : Dict String (Market M) → Dict String (Market M) → Type 0
  SameMarkets [] [] = Unit {0}
  SameMarkets ((a, m) ∷ ms) ((b, n) ∷ ns) = (a ≡ b) × SameMarket M m n × SameMarkets ms ns
  SameMarkets [] (n ∷ ns) = ⊥
  SameMarkets (m ∷ ms) [] = ⊥

  -- What two tables have under a name.
  abbrev pub Found : Option (Market M) → Option (Market M) → Type 0
  Found none none = Unit {0}
  Found (some m) (some n) = SameMarket M m n
  Found none (some n) = ⊥
  Found (some m) none = ⊥

  some_market :
      (m : Market M) (s t : Option (Market M))
      → s ≡ some m
      → Found s t
      → (n : Market M) × (t ≡ some n) × SameMarket M m n
  some_market m none none g h = absurd (cc g)
  some_market m none (some n) g h = absurd h
  some_market m (some k) none g h = absurd h
  some_market m (some k) (some n) g h = (n, refl, (let e : k ≡ m = cc g in rw e at h))

  find-Found :
      (name : String) (ms ns : Dict String (Market M))
      → SameMarkets ms ns
      → Found (find name ms) (find name ns)
  unfolding find
  find-Found name [] [] h = tt
  find-Found name [] (n ∷ ns) h = absurd h
  find-Found name (m ∷ ms) [] h = absurd h
  find-Found name ((a, m) ∷ ms) ((b, n) ∷ ns) (e, h, k) = elim (Bool-cases (name == a)) [
    | inl c ↦ let d : (name == b) ≡ true = rw (← e) c in rw (c, d) h
    | inr c ↦ let d : (name == b) ≡ false = rw (← e) c in rw (c, d) (find-Found name ms ns k)
  ]

  put-SameMarkets :
      (name : String) (m n : Market M) (ms ns : Dict String (Market M))
      → SameMarket M m n
      → SameMarkets ms ns
      → SameMarkets (put name m ms) (put name n ns)
  unfolding put
  put-SameMarkets name m n [] [] h k = (refl, h, tt)
  put-SameMarkets name m n [] (y ∷ ns) h k = absurd k
  put-SameMarkets name m n (x ∷ ms) [] h k = absurd k
  put-SameMarkets name m n ((a, x) ∷ ms) ((b, y) ∷ ns) h (e, i, k) = elim (Bool-cases (name == a)) [
    | inl c ↦ let d : (name == b) ≡ true = rw (← e) c in rw (c, d) (e, h, k)
    | inr c ↦
        let d : (name == b) ≡ false = rw (← e) c in
        rw (c, d) (e, i, put-SameMarkets name m n ms ns h k)
  ]

  -- The same exchange but for the history, the messages, the operation log, the clock, and the times
  -- of the orders.
  pub record SameExchange (x y : Exchange M) : Type 0 where
    pub engines : SameEngine M x.updates.engine y.updates.engine
    pub seen : x.updates.updates ≡ y.updates.updates
    pub markets_same : SameMarkets x.markets y.markets

  -- What the replay of a request on `y` has to do with serving it on `x`: a request with a result is
  -- logged and its replay succeeds in the same state; any other leaves the state and the log alone.
  abbrev pub Follows : ℕ → Exchange M → Exchange M → Oper M → Response M × Exchange M → Type 0
  Follows fuel x y op (result o, x') =
      (y' : Exchange M) × (load_oper M fuel y op ≡ some (ok, y'))
      × SameExchange x' y'
      × ((t : M.Time) × (x'.operlog ≡ (next_id x.operlog_id_start, t, op) ∷ x.operlog))
      × (x'.operlog_id_start ≡ next_id x.operlog_id_start)
  Follows fuel x y op (error n, x') =
      SameExchange x' y × (x'.operlog ≡ x.operlog) × (x'.operlog_id_start ≡ x.operlog_id_start)
  Follows fuel x y op (silence, x') =
      SameExchange x' y × (x'.operlog ≡ x.operlog) × (x'.operlog_id_start ≡ x.operlog_id_start)

  pub with_reply-SameExchange :
      (x y : Exchange M) (name : String) (r s : Reply M)
      → SameExchange x y
      → SameReply M r s
      → SameExchange (with_reply M x name r) (with_reply M y name s)
  unfolding with_reply
  with_reply-SameExchange x y name r s h k = record {
    engines = k.engines;
    seen = h.seen;
    markets_same =
        put-SameMarkets name r.market s.market x.markets y.markets k.markets h.markets_same;
  }

  pub refused-SameExchange :
      (x y : Exchange M) (name : String) (r : Reply M) (m : Market M)
      → SameExchange x y
      → get_market M x name ≡ some m
      → r.engine ≡ x.updates.engine
      → r.market ≡ m
      → SameExchange (with_reply M x name r) y
  unfolding with_reply get_market
  refused-SameExchange x y name r m h g p q =
      let same : put name r.market x.markets ≡ x.markets =
        rw q (put-find_self name m x.markets g) in
      record { engines = rw p h.engines; seen = h.seen; markets_same = rw same h.markets_same }

  pub logged-SameExchange :
      (x y : Exchange M) (op : Oper M) → SameExchange x y → SameExchange (append_operlog M op x) y
  unfolding append_operlog
  logged-SameExchange x y op h = record {
    engines = record {
      order_ids = h.engines.order_ids;
      deal_ids = h.engines.deal_ids;
      same_ledger = h.engines.same_ledger;
    };
    seen = h.seen;
    markets_same = h.markets_same;
  }

  pub answer-Follows :
      (fuel : ℕ) (x y : Exchange M) (name : String) (op : Oper M) (r s : Reply M) (m : Market M)
      → SameExchange x y
      → get_market M x name ≡ some m
      → SameReply M r s
      → ((n : ℕ) → r.ret ≡ err n → (r.engine ≡ x.updates.engine) × (r.market ≡ m))
      → load_oper M fuel y op ≡ loaded M y name s
      → Follows fuel x y op (answer M x name op r)
  unfolding answer append_operlog with_reply
  answer-Follows fuel x y name op r s m h g same refused l = elim (Bool-cases r.hung) [
    | inl hangs ↦ rw hangs (h, refl, refl)
    | inr back ↦ rw back (go back r.ret refl)
  ]
    where
      replayed :
          r.hung ≡ false → r.ret ≡ ok → load_oper M fuel y op ≡ some (ok, with_reply M y name s)
      replayed b e = rw (l, ← same.hungs, ← same.rets, b, e) refl

      go :
          r.hung ≡ false
          → (c : Ret) → r.ret ≡ c
          → Follows fuel x y op (elim c as (λ _. Response M × Exchange M) [
            | ok ↦ (result r.result, append_operlog M op (with_reply M x name r))
            | err n ↦ (error (if ltb 0 n && ltb n 4 then n + 9 else 2), with_reply M x name r)
          ])
      go b ok e = (
        with_reply M y name s,
        replayed b e,
        logged-SameExchange (with_reply M x name r) (with_reply M y name s) op
            (with_reply-SameExchange x y name r s h same),
        (M.current_timestamp r.engine.ticks, refl),
        refl,
      )
      go b (err n) e =
          (refused-SameExchange x y name r m h g (refused n e).0 (refused n e).1, refl, refl)

  -- The operations on orders.
  abbrev pub IsOrderOper : Oper M → Type 0
  IsOrderOper (update_balance _ _ _ _ _ _) = ⊥
  IsOrderOper (limit_order _ _ _ _ _ _ _ _) = Unit
  IsOrderOper (market_order _ _ _ _ _ _) = Unit
  IsOrderOper (cancel_order _ _ _) = Unit

  -- The market of a name in both exchanges.
  found_market :
      (x y : Exchange M) (name : String) (m : Market M)
      → SameExchange x y
      → get_market M x name ≡ some m
      → (n : Market M) × (get_market M y name ≡ some n) × SameMarket M m n
  unfolding get_market
  found_market x y name m h g =
      some_market m (find name x.markets) (find name y.markets) g
        (find-Found name x.markets y.markets h.markets_same)

  pub limit-Follows :
      (fuel : ℕ) (x y : Exchange M) (u : ℕ) (name : String) (side : ℕ) (a p tf mf : M.Decimal)
      (src : String)
      → SameExchange x y
      → Follows fuel x y
          (limit_order u name side a p tf mf src)
          (on_cmd_order_put_limit M x u name side a p tf mf src)
  unfolding on_cmd_order_put_limit load_oper load_limit_order
  limit-Follows fuel x y u name side a p tf mf src h = elim (Option-cases (get_market M x name)) [
    | inl g ↦ rw (g, on_cmd_order_put_limit) (h, refl, refl)
    | inr (m, g) ↦
        let amount = decimal M a m.stock_prec in
        let price = decimal M p m.money_prec in
        let taker_fee = decimal M tf m.fee_prec in
        let maker_fee = decimal M mf m.fee_prec in
        let (n, k, w) = found_market x y name m h g in
        let r =
          market_put_limit_order M true x.updates.engine m u side amount price taker_fee maker_fee
            src in
        let s =
          market_put_limit_order M false y.updates.engine n u side amount price taker_fee maker_fee
            src in
        let same =
          market_put_limit_order-SameReply M true false x.updates.engine y.updates.engine m n u side
            amount price taker_fee maker_fee src h.engines w in
        let bad =
          bad_side M side
          || not (is_gt (M.cmp amount M.mpd_zero))
          || not (is_gt (M.cmp price M.mpd_zero))
          || bad_fee M taker_fee
          || bad_fee M maker_fee
          || not (ltb (len src) 31) in
        elim (Bool-cases bad) [
          | inl b ↦ rw (g, on_cmd_order_put_limit, b) (h, refl, refl)
          | inr b ↦
              rw (g, on_cmd_order_put_limit, b)
                (answer-Follows fuel x y name (limit_order u name side a p tf mf src) r s m h g same
                  (limit_refused M true x.updates.engine m u side amount price taker_fee maker_fee
                    src)
                  (ground (arith, w)))
        ]
  ]

  pub market-Follows :
      (fuel : ℕ) (x y : Exchange M) (u : ℕ) (name : String) (side : ℕ) (a tf : M.Decimal)
      (src : String)
      → SameExchange x y
      → Follows fuel x y
          (market_order u name side a tf src)
          (on_cmd_order_put_market M fuel x u name side a tf src)
  unfolding on_cmd_order_put_market load_oper load_market_order
  market-Follows fuel x y u name side a tf src h = elim (Option-cases (get_market M x name)) [
    | inl g ↦ rw (g, on_cmd_order_put_market) (h, refl, refl)
    | inr (m, g) ↦
        let amount = decimal M a m.stock_prec in
        let taker_fee = decimal M tf m.fee_prec in
        let (n, k, w) = found_market x y name m h g in
        let r =
          market_put_market_order M fuel true x.updates.engine m u side amount taker_fee src in
        let s =
          market_put_market_order M fuel false y.updates.engine n u side amount taker_fee src in
        let same =
          market_put_market_order-SameReply M fuel true false x.updates.engine y.updates.engine m n
            u side amount taker_fee src h.engines w in
        let bad =
          bad_side M side
          || not (is_gt (M.cmp amount M.mpd_zero))
          || bad_fee M taker_fee
          || not (ltb (len src) 31) in
        elim (Bool-cases bad) [
          | inl b ↦ rw (g, on_cmd_order_put_market, b) (h, refl, refl)
          | inr b ↦
              rw (g, on_cmd_order_put_market, b)
                (answer-Follows fuel x y name (market_order u name side a tf src) r s m h g same
                  (market_refused M fuel true x.updates.engine m u side amount taker_fee src)
                  (ground (arith, w)))
        ]
  ]

  found_order :
      (s t : Option (Order M)) (o : Order M)
      → s ≡ some o
      → FoundAlike M s t
      → (p : Order M) × (t ≡ some p) × Alike M o p
  found_order none none o g h = absurd (cc g)
  found_order none (some p) o g h = absurd h
  found_order (some q) none o g h = absurd h
  found_order (some q) (some p) o g h = (p, refl, let e : q ≡ o = cc g in rw e at h)

  -- A cancellation always succeeds.
  pub cancelled :
      (real : Bool) (e : Engine M) (m : Market M) (o : Order M) (n : ℕ)
      → (market_cancel_order M real e m o).ret ≡ err n
      → ⊥
  unfolding market_cancel_order
  cancelled real e m o n h = cc

  pub cancel-Follows :
      (fuel : ℕ) (x y : Exchange M) (u : ℕ) (name : String) (i : ℕ)
      → SameExchange x y
      → Follows fuel x y (cancel_order u name i) (on_cmd_order_cancel M x u name i)
  unfolding on_cmd_order_cancel load_oper load_cancel_order
  cancel-Follows fuel x y u name i h = elim (Option-cases (get_market M x name)) [
    | inl g ↦ rw (g, on_cmd_order_cancel) (h, refl, refl)
    | inr (m, g) ↦ elim (Option-cases (market_get_order M m i)) [
      | inl f ↦ rw (g, on_cmd_order_cancel, f) (h, refl, refl)
      | inr (o, f) ↦
          let (n, k, w) = found_market x y name m h g in
          let (p, l, v) =
            found_order (market_get_order M m i) (market_get_order M n i) o f
              (market_get_order-FoundAlike M m n i w) in
          let r = market_cancel_order M true x.updates.engine m o in
          let s = market_cancel_order M false y.updates.engine n p in
          elim (Bool-cases (o.user_id == u)) [
            | inl b ↦
                rw (g, on_cmd_order_cancel, f, b)
                  (answer-Follows fuel x y name (cancel_order u name i) r s m h g
                    (market_cancel_order-SameReply M true false x.updates.engine y.updates.engine m
                      n o p h.engines w v)
                    (λ c e. absurd (cancelled true x.updates.engine m o c e)) (ground arith))
            | inr b ↦ rw (g, on_cmd_order_cancel, f, b) (h, refl, refl)
          ]
    ]
  ]

  pub on_cmd-Follows :
      (fuel : ℕ) (x y : Exchange M) (op : Oper M)
      → IsOrderOper op
      → SameExchange x y
      → Follows fuel x y op (on_cmd M fuel x op)
  unfolding on_cmd
  on_cmd-Follows fuel x y (update_balance u a b i c d) o h = absurd o
  on_cmd-Follows fuel x y (limit_order u n s a p tf mf src) o h =
      limit-Follows fuel x y u n s a p tf mf src h
  on_cmd-Follows fuel x y (market_order u n s a tf src) o h =
      market-Follows fuel x y u n s a tf src h
  on_cmd-Follows fuel x y (cancel_order u n i) o h = cancel-Follows fuel x y u n i h

  pub serve-Follows :
      (fuel : ℕ) (x y : Exchange M) (blocked : Bool) (op : Oper M)
      → IsOrderOper op
      → SameExchange x y
      → Follows fuel x y op (serve M fuel x (blocked, op))
  unfolding serve
  serve-Follows fuel x y true op o h = (h, refl, refl)
  serve-Follows fuel x y false op o h = on_cmd-Follows fuel x y op o h
