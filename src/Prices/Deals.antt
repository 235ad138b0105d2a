-- ===== src/Prices/Deals.antt =====
-- The candles of a market of marketprice/mp_message.c are those of the deals that it was told.
use viabtc_server_mac.Prelude.{
  Option-cases, ℕ, ◌*◌, ◌/◌, ◌≡◌, refl, sym, subst, Bool-cases, false, Option, none, some, List, [],
  ◌∷◌, ◌++◌, String, inl, inr, nat_eq, string_eq, ◌==◌, if◌then◌else◌, arith,
}
use mathlib.Core.List.{append-nil}
use text.Mathlib.TextEquality.{eq_iff}
use viabtc_server_mac.Platform.{Mpd, Laws}
use viabtc_server_mac.Dict.{Dict, find, put, find-put_self, find-put_ne}
use viabtc_server_mac.Prices.Kline.{Kline, kline_info_new, kline_info_update}
use viabtc_server_mac.Prices.Feed.{
  Calendar, Deal, MarketInfo, Markets, create_market, bump, get_day_start, add_to_market,
  market_update, market_query, market_or_new,
}
use viabtc_server_mac.Prices.Candle.{IsCandle}
use viabtc_server_mac.Prices.Bounds.{kline_info_update-IsCandle, first_update-IsCandle}
use viabtc_server_mac.Market.Order.{side_ask}

module _ (M : Mpd) where
  -- The deals whose slot is `t`.
  abbrev pub at_slot : (Deal M → ℕ) → ℕ → List (Deal M) → List (Deal M)
  at_slot slot t [] = []
  at_slot slot t (d ∷ ds) = if slot d == t then d ∷ at_slot slot t ds else at_slot slot t ds

  pub at_slot-append :
      (slot : Deal M → ℕ) (t : ℕ) (ds es : List (Deal M))
      → at_slot slot t (ds ++ es) ≡ at_slot slot t ds ++ at_slot slot t es
  at_slot-append slot t [] es = refl
  at_slot-append slot t (d ∷ ds) es = elim (Bool-cases (slot d == t)) [
    | inl e ↦ rw (e, at_slot-append slot t ds es) refl
    | inr e ↦ rw (e, at_slot-append slot t ds es) refl
  ]

module _ (M : Mpd) (L : Laws M) where
  -- There is a candle exactly where there are deals, and it is theirs.
  abbrev pub Shows : List (Deal M) → Option (Kline M) → Type 0
  Shows ds none = ds ≡ []
  Shows ds (some k) = IsCandle M L ds k

  abbrev pub Told : (Deal M → ℕ) → List (Deal M) → Dict ℕ (Kline M) → Type 0
  Told slot ds d = (t : ℕ) → Shows (at_slot M slot t ds) (find t d)

  Shows-nil : (ds : List (Deal M)) (o : Option (Kline M)) → Shows ds o → Shows (ds ++ []) o
  Shows-nil ds o h = subst (λ xs. Shows xs o) (sym (append-nil ds)) h

  touched : Deal M → Option (Kline M) → Kline M
  touched d none = kline_info_update M (kline_info_new M d.price) d.price d.amount
  touched d (some k) = kline_info_update M k d.price d.amount

  touched-IsCandle :
      (ds : List (Deal M)) (d : Deal M) (o : Option (Kline M))
      → L.IsAmount d.price
      → Shows ds o
      → IsCandle M L (ds ++ d ∷ []) (touched d o)
  unfolding touched
  touched-IsCandle ds d none h e = rw e (first_update-IsCandle M L d h)
  touched-IsCandle ds d (some k) h c = kline_info_update-IsCandle M L ds k d c h

  bump-touched :
      (t : ℕ) (d : Deal M) (dict : Dict ℕ (Kline M))
      → bump M t d.price d.amount dict ≡ put t (touched d (find t dict)) dict
  unfolding bump touched
  bump-touched t d dict = elim (Option-cases (find t dict)) [
    | inl e ↦ rw (e, bump) refl
    | inr (k, e) ↦ rw (e, bump) refl
  ]

  bump-Told :
      (slot : Deal M → ℕ) (ds : List (Deal M)) (d : Deal M) (t : ℕ) (dict : Dict ℕ (Kline M))
      → slot d ≡ t
      → L.IsAmount d.price
      → Told slot ds dict
      → Told slot (ds ++ d ∷ []) (bump M t d.price d.amount dict)
  bump-Told slot ds d t dict e h told s = elim (Bool-cases (slot d == s)) [
    | inl q ↦
        let same : t ≡ s = ground arith in
        subst
          (λ v. Shows (at_slot M slot s (ds ++ d ∷ [])) (find s (bump M v d.price d.amount dict)))
          (sym same)
          (rw
            (
              at_slot-append M slot s ds (d ∷ []),
              q,
              bump-touched s d dict,
              find-put_self s (touched d (find s dict)) dict,
            )
            (touched-IsCandle (at_slot M slot s ds) d (find s dict) h (told s)))
    | inr q ↦
        let apart : (s == t) ≡ false = ground arith in
        rw
          (
            at_slot-append M slot s ds (d ∷ []),
            q,
            bump-touched t d dict,
            find-put_ne s t (touched d (find t dict)) dict apart,
          )
          (Shows-nil (at_slot M slot s ds) (find s dict) (told s))
  ]

  -- The slots of a deal.
  abbrev pub slot_sec : Calendar M → Deal M → ℕ
  slot_sec c d = c.seconds d.time

  abbrev pub slot_min : Calendar M → Deal M → ℕ
  slot_min c d = c.seconds d.time / 60 * 60

  abbrev pub slot_hour : Calendar M → Deal M → ℕ
  slot_hour c d = c.seconds d.time / 3600 * 3600

  abbrev pub slot_day : Calendar M → Deal M → ℕ
  slot_day c d = get_day_start M c (c.seconds d.time)

  -- A market has the candles of the deals `ds` and of no others.
  pub record IsTold (c : Calendar M) (ds : List (Deal M)) (info : MarketInfo M) : Type 0 where
    pub secs : Told (slot_sec c) ds info.sec
    pub mins : Told (slot_min c) ds info.min
    pub hours : Told (slot_hour c) ds info.hour
    pub days : Told (slot_day c) ds info.day

  create_market-IsTold :
      (c : Calendar M) (start : M.Time) (name : String) → IsTold c [] (create_market M start name)
  unfolding create_market find
  create_market-IsTold c start name = record {
    secs = λ t. refl;
    mins = λ t. refl;
    hours = λ t. refl;
    days = λ t. refl;
  }

  add_to_market-IsTold :
      (c : Calendar M) (ds : List (Deal M)) (d : Deal M) (now : M.Time) (info : MarketInfo M)
      → L.IsAmount d.price
      → IsTold c ds info
      → IsTold c (ds ++ d ∷ []) (add_to_market M c d now info)
  unfolding add_to_market
  add_to_market-IsTold c ds d now info h told = record {
    secs = bump-Told (slot_sec c) ds d (slot_sec c d) info.sec refl h told.secs;
    mins = bump-Told (slot_min c) ds d (slot_min c d) info.min refl h told.mins;
    hours = bump-Told (slot_hour c) ds d (slot_hour c d) info.hour refl h told.hours;
    days = bump-Told (slot_day c) ds d (slot_day c d) info.day refl h told.days;
  }

  abbrev pub Stands : Calendar M → List (Deal M) → Option (MarketInfo M) → Type 0
  Stands c ds none = ds ≡ []
  Stands c ds (some info) = IsTold c ds info

  -- `history` names the deals of each market, the oldest first.
  abbrev pub InStep : Calendar M → (String → List (Deal M)) → Markets M → Type 0
  InStep c history ms = (name : String) → Stands c (history name) (find name ms)

  market_or_new-IsTold :
      (c : Calendar M) (ds : List (Deal M)) (start : M.Time) (market : String)
      (o : Option (MarketInfo M))
      → Stands c ds o
      → IsTold c ds (market_or_new M start market o)
  market_or_new-IsTold c ds start market none e = rw e (create_market-IsTold c start market)
  market_or_new-IsTold c ds start market (some info) h = h

  abbrev pub told_history : String → Deal M → (String → List (Deal M)) → String → List (Deal M)
  told_history market d history name =
      if name == market then history name ++ d ∷ [] else history name

  put-InStep :
      (c : Calendar M) (market : String) (d : Deal M) (info : MarketInfo M)
      (history : String → List (Deal M)) (ms : Markets M)
      → InStep c history ms
      → IsTold c (history market ++ d ∷ []) info
      → InStep c (told_history market d history) (put market info ms)
  put-InStep c market d info history ms told new name = elim (Bool-cases (name == market)) [
    | inl q ↦ rw (q, (eq_iff name market).0 q, find-put_self market info ms) new
    | inr q ↦ rw (q, find-put_ne name market info ms q) (told name)
  ]

  -- A deal with an amount for a price that `market_update` is told, on any market and known or not,
  -- keeps the markets in step with the history that has the deal behind those of its market: every
  -- candle per second, minute, hour and day is the candle of exactly the deals of its span.
  pub market_update-InStep :
      (c : Calendar M) (start : M.Time) (market : String) (timestamp : M.Time)
      (price amount : M.Decimal) (side id : ℕ) (now : M.Time) (history : String → List (Deal M))
      (ms : Markets M)
      → L.IsAmount price
      → InStep c history ms
      → InStep c
          (told_history market
            (record {
              id = id;
              time = timestamp;
              price = price;
              amount = amount;
              sell = side == side_ask;
            })
            history)
          (market_update M c start market timestamp price amount side id now ms)
  unfolding market_update market_query
  market_update-InStep c start market timestamp price amount side id now history ms h told =
      let d : Deal M = record {
        id = id;
        time = timestamp;
        price = price;
        amount = amount;
        sell = side == side_ask;
      } in
      let info = market_or_new M start market (find market ms) in
      put-InStep c market d (add_to_market M c d now info) history ms told (
        add_to_market-IsTold c (history market) d now info h
          (market_or_new-IsTold c (history market) start market (find market ms) (told market)))
