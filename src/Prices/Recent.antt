-- ===== src/Prices/Recent.antt =====
-- The list of a market's newest deals in marketprice/mp_message.c, the query on it, and the timer that
-- clears old candles.
use viabtc_server_mac.Prelude.{
  ℕ, zero, suc, ◌+◌, ◌-◌, ◌*◌, ◌/◌, ◌≤◌, ◌<◌, ◌≡◌, refl, sym, ap, Bool-cases, true, false, none,
  some, List, [], ◌∷◌, All, String, ◌∙◌, inl, inr, ltb, leb, nat_eq, string_eq, ◌==◌, if◌then◌else◌,
  length, take, arith,
}
use viabtc_server_mac.Platform.{Mpd}
use viabtc_server_mac.Dict.{Dict, find}
use viabtc_server_mac.Market.Loop.{Sorted}
use viabtc_server_mac.Prices.Kline.{Kline}
use viabtc_server_mac.Prices.Feed.{
  Calendar, Deal, MarketInfo, Markets, market_query, drop_tail, add_deal, add_to_market,
  market_deals_max,
}
use viabtc_server_mac.Prices.Query.{Settings}
use viabtc_server_mac.Prices.Status.{
  clear_market, clear_kline, newer_deals, get_market_deals, clear_dict,
}

drop_tail-take : {A : Type 0} (n : ℕ) (xs : List A) → length xs ≡ n + 1 → drop_tail xs ≡ take n xs
unfolding drop_tail
drop_tail-take n [] h = absurd (omega arith)
drop_tail-take zero (x ∷ []) h = refl
drop_tail-take (suc n) (x ∷ []) h = absurd (omega arith)
drop_tail-take zero (x ∷ y ∷ ys) h = absurd (omega arith)
drop_tail-take (suc n) (x ∷ y ∷ ys) h = ap (λ xs. x ∷ xs) (drop_tail-take n (y ∷ ys) (omega arith))

length-take : {A : Type 0} (n : ℕ) (xs : List A) → length (take n xs) ≤ n
length-take zero xs = omega arith
length-take (suc n) [] = omega arith
length-take (suc n) (x ∷ xs) = omega (arith, length-take n xs)

take_all : {A : Type 0} (n : ℕ) (xs : List A) → length xs ≤ n → take n xs ≡ xs
take_all zero [] h = refl
take_all zero (x ∷ xs) h = absurd (omega arith)
take_all (suc n) [] h = refl
take_all (suc n) (x ∷ xs) h = ap (λ ys. x ∷ ys) (take_all n xs (omega arith))

-- What was cut off the end is not missed.
take_less : {A : Type 0} (n k : ℕ) (xs : List A) → n ≤ k → take n (take k xs) ≡ take n xs
take_less zero k xs h = refl
take_less (suc n) zero xs h = absurd (omega arith)
take_less (suc n) (suc k) [] h = refl
take_less (suc n) (suc k) (x ∷ xs) h = ap (λ ys. x ∷ ys) (take_less n k xs (omega arith))

module _ (M : Mpd) where
  take_deal :
      (n : ℕ) (d : Deal M) (ds : List (Deal M))
      → length ds ≤ n
      → (if ltb n (length (d ∷ ds)) then drop_tail (d ∷ ds) else d ∷ ds) ≡ take n (d ∷ ds)
  take_deal n d ds h = elim (Bool-cases (ltb n (length (d ∷ ds)))) [
    | inl e ↦ rw e (drop_tail-take n (d ∷ ds) (ground arith))
    | inr e ↦ rw e (sym (take_all n (d ∷ ds) (ground arith)))
  ]

  add_deal-kept :
      (n : ℕ) (d : Deal M) (ds : List (Deal M))
      → (if ltb (suc n) (length (d ∷ take (suc n) ds))
          then drop_tail (d ∷ take (suc n) ds)
          else d ∷ take (suc n) ds)
        ≡ take (suc n) (d ∷ ds)
  add_deal-kept n d ds =
      take_deal (suc n) d (take (suc n) ds) (length-take (suc n) ds)
      ∙ ap (λ xs. d ∷ xs) (take_less n (suc n) ds (omega arith))

  -- A market that keeps the newest MARKET_DEALS_MAX of its deals, the newest in front, keeps them and no
  -- more when a deal comes.
  pub add_to_market-newest :
      (c : Calendar M) (d : Deal M) (now : M.Time) (info : MarketInfo M) (ds : List (Deal M))
      → info.deals_json ≡ take market_deals_max ds
      → ((add_to_market M c d now info).deals_json ≡ take market_deals_max (d ∷ ds))
        × (length (add_to_market M c d now info).deals_json ≤ market_deals_max)
  unfolding add_to_market add_deal
  add_to_market-newest c d now info ds h =
      let kept : add_deal M d info.deals_json ≡ take market_deals_max (d ∷ ds) =
        rw (h, add_deal) (add_deal-kept 9999 d ds) in
      (kept, rw kept (length-take market_deals_max (d ∷ ds)))

  -- The deals that are newer than `last_id`.
  abbrev pub newer : ℕ → List (Deal M) → List (Deal M)
  newer last_id [] = []
  newer last_id (d ∷ ds) = if ltb last_id d.id then d ∷ newer last_id ds else newer last_id ds

  newer_none :
      (last_id id : ℕ) (ds : List (Deal M))
      → id ≤ last_id
      → All (λ e. e.id < id) ds
      → newer last_id ds ≡ []
  newer_none last_id id [] h a = refl
  newer_none last_id id (d ∷ ds) h a = ground (arith, newer_none last_id id ds h a.1, a.0)

  newer_deals-more :
      (m limit count last_id : ℕ) (d : Deal M) (ds : List (Deal M))
      → count + suc m ≡ limit
      → ((k : ℕ)
          → m ≡ suc k
          → newer_deals M limit (count + 1) last_id ds ≡ take (suc k) (newer last_id ds))
      → (if count + 1 == limit then d ∷ [] else d ∷ newer_deals M limit (count + 1) last_id ds)
        ≡ d ∷ take m (newer last_id ds)
  newer_deals-more zero limit count last_id d ds h rest =
      let e : (count + 1 == limit) ≡ true = ground arith in rw e refl
  newer_deals-more (suc k) limit count last_id d ds h rest =
      let e : (count + 1 == limit) ≡ false = ground arith in rw e (ap (λ xs. d ∷ xs) (rest k refl))

  newer_deals-take :
      (m limit count last_id : ℕ) (ds : List (Deal M))
      → count + suc m ≡ limit
      → Sorted (λ a b. b.id < a.id) ds
      → newer_deals M limit count last_id ds ≡ take (suc m) (newer last_id ds)
  unfolding newer_deals
  newer_deals-take m limit count last_id [] h s = refl
  newer_deals-take m limit count last_id (d ∷ ds) h s = elim (Bool-cases (leb d.id last_id)) [
    | inl e ↦
        let old : ltb last_id d.id ≡ false = ground arith in
        rw (e, old, newer_none last_id d.id ds (ground arith) s.0) refl
    | inr e ↦
        let new : ltb last_id d.id ≡ true = ground arith in
        rw (e, new)
          (newer_deals-more m limit count last_id d ds h
            (λ k q. newer_deals-take k limit (count + 1) last_id ds (omega arith) s.1))
  ]

  pub find-clear_dict :
      (start t : ℕ) (d : Dict ℕ (Kline M))
      → find t (clear_dict start d) ≡ (if ltb t start then none else find t d)
  unfolding find clear_dict
  find-clear_dict start t [] = ground arith
  find-clear_dict start t ((s, k) ∷ d) = ground (arith, find-clear_dict start t d)

  -- For a known market whose deals have falling ids from the newest on, `get_market_deals` with a positive
  -- limit answers with the newest `limit` of the deals whose id is above `last_id`.
  pub get_market_deals-newer :
      (ms : Markets M) (market : String) (limit last_id : ℕ) (info : MarketInfo M)
      → find market ms ≡ some info
      → 0 < limit
      → Sorted (λ a b. b.id < a.id) info.deals_json
      → get_market_deals M ms market limit last_id
        ≡ some (take limit (newer last_id info.deals_json))
  unfolding get_market_deals market_query
  get_market_deals-newer ms market zero last_id info known p s = absurd (omega arith)
  get_market_deals-newer ms market (suc m) last_id info known p s =
      rw (known, newer_deals-take m (suc m) 0 last_id info.deals_json (omega arith) s) refl

  find-clear_kline :
      (c : Settings) (now : ℕ) (ms : Markets M) (market : String) (info : MarketInfo M)
      → find market ms ≡ some info
      → find market (clear_kline M c now ms) ≡ some (clear_market M c now info)
  unfolding find clear_kline
  find-clear_kline c now [] market info h = absurd (cc h)
  find-clear_kline c now ((name, i) ∷ ms) market info h = elim (Bool-cases (market == name)) [
    | inl e ↦ let same : i ≡ info = ground (arith, h) in rw (e, same) refl
    | inr e ↦
        let later : find market ms ≡ some info = ground (arith, h) in
        rw e (find-clear_kline c now ms market info later)
  ]

  -- What is left of the candles of a dictionary: those from `start` on.
  abbrev pub IsCleared : ℕ → Dict ℕ (Kline M) → Dict ℕ (Kline M) → Type 0
  IsCleared start d d' = (t : ℕ) → find t d' ≡ (if ltb t start then none else find t d)

  -- After `clear_kline`, a known market has the candles of its seconds, minutes and hours that are not
  -- older than the settings say and no others; its days, its last price, its name, its newest deals,
  -- the marks of what has to be stored, the deals that wait for it, and its time of update stay.
  pub clear_kline-IsCleared :
      (c : Settings) (now : ℕ) (ms : Markets M) (market : String) (info : MarketInfo M)
      → find market ms ≡ some info
      → (info' : MarketInfo M) × (find market (clear_kline M c now ms) ≡ some info')
        × IsCleared (now - c.sec_max) info.sec info'.sec
        × IsCleared (now / 60 * 60 - c.min_max * 60) info.min info'.min
        × IsCleared (now / 3600 * 3600 - c.hour_max * 3600) info.hour info'.hour
        × (info'.day ≡ info.day)
        × (info'.last ≡ info.last)
        × (info'.deals_json ≡ info.deals_json)
        × (info'.name ≡ info.name)
        × (info'.update ≡ info.update)
        × (info'.deals ≡ info.deals)
        × (info'.update_time ≡ info.update_time)
  unfolding clear_market
  clear_kline-IsCleared c now ms market info h = (
    clear_market M c now info,
    find-clear_kline c now ms market info h,
    λ t. find-clear_dict (now - c.sec_max) t info.sec,
    λ t. find-clear_dict (now / 60 * 60 - c.min_max * 60) t info.min,
    λ t. find-clear_dict (now / 3600 * 3600 - c.hour_max * 3600) t info.hour,
    refl,
    refl,
    refl,
    refl,
    refl,
    refl,
    refl,
  )
