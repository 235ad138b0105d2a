-- ===== src/Prices/Endless.antt =====
-- When `get_market_kline_month` of marketprice/mp_message.c ends.
use viabtc_server_mac.Prelude.{
  ℕ, zero, suc, ◌+◌, ◌-◌, ◌*◌, ◌/◌, ◌≤◌, ◌<◌, ◌≡◌, min, refl, Bool-cases, false, Option, none, some,
  List, [], ◌∷◌, String, inl, inr, ltb, nat_eq, string_eq, arith,
}
use viabtc_server_mac.Platform.{Mpd}
use viabtc_server_mac.Dict.{Dict, find}
use viabtc_server_mac.Prices.Kline.{Kline, kline_info_new}
use viabtc_server_mac.Prices.Feed.{Calendar, MarketInfo, Markets, market_query}
use viabtc_server_mac.Prices.Query.{Row, bucket, join, carry_close, get_last_kline}
use viabtc_server_mac.Prices.Month.{after_month, get_month_start, months, get_market_kline_month}

module _ (M : Mpd) where
  -- No candle up to a time.
  abbrev pub NoCandle : ℕ → Dict ℕ (Kline M) → Type 0
  NoCandle end d = (t : ℕ) → t ≤ end → find t d ≡ none

  bucket-none :
      (n t end : ℕ) (d : Dict ℕ (Kline M))
      → (0 < n → t + 86400 * n ≤ end + 86400)
      → NoCandle end d
      → bucket M n t 86400 d none ≡ none
  unfolding bucket join
  bucket-none zero t end d h bare = refl
  bucket-none (suc n) t end d h bare =
      rw (bare t (omega arith), bucket-none n (t + 86400) end d (λ p. omega arith) bare) refl

  get_last_kline-none :
      (fuel start stop interval end : ℕ) (d : Dict ℕ (Kline M))
      → start ≤ end
      → NoCandle end d
      → get_last_kline M fuel d start stop interval ≡ none
  unfolding get_last_kline
  get_last_kline-none zero start stop interval end d h bare = refl
  get_last_kline-none (suc fuel) start stop interval end d h bare = ground (
    arith,
    bare start h,
    get_last_kline-none fuel (start - interval) stop interval end d (omega arith) bare,
  )

  -- A month without a candle is taken again and again.
  months_endless :
      (fuel : ℕ) (cal : Calendar M) (market : String) (d : Dict ℕ (Kline M))
      (mon_start year mon end : ℕ)
      → mon_start ≤ end
      → NoCandle end d
      → months M fuel cal market d mon_start year mon end none ≡ none
  unfolding months
  months_endless zero cal market d mon_start year mon end h bare = refl
  months_endless (suc fuel) cal market d mon_start year mon end h bare =
      let (year', mon') = after_month year mon in
      let mon_next = get_month_start M cal year' mon' in
      let days = (min mon_next (end + 1) - mon_start + 86399) / 86400 in
      let e : ltb end mon_start ≡ false = ground arith in
      let b = bucket-none days mon_start end d (λ p. omega arith) bare in
      rw (e, months)
        (rw (b, carry_close) (months_endless fuel cal market d mon_start year' mon' end h bare))

  -- Where a market has no daily candle up to `end`, and the month of `start` has begun by `end`, the loop
  -- of `get_market_kline_month` does not end: no number of rounds is enough.
  pub get_market_kline_month-endless :
      (fuel : ℕ) (cal : Calendar M) (ms : Markets M) (market : String) (start end : ℕ)
      (info : MarketInfo M)
      → find market ms ≡ some info
      → get_month_start M cal (cal.localtime start).tm_year (cal.localtime start).tm_mon ≤ end
      → NoCandle end info.day
      → get_market_kline_month M fuel cal ms market start end ≡ some none
  unfolding get_market_kline_month market_query
  get_market_kline_month-endless fuel cal ms market start end info known h bare =
      let date = cal.localtime start in
      let mon_start = get_month_start M cal date.tm_year date.tm_mon in
      let before =
        get_last_kline-none (mon_start + 1) (mon_start - 86400) (start - 86400 * 30) 86400 end
          info.day (omega arith) bare in
      rw
        (
          known,
          before,
          months_endless fuel cal market info.day mon_start date.tm_year date.tm_mon end h bare,
        )
        refl

  -- Each month of the calendar begins after the one before it.
  abbrev pub Advances : Calendar M → Type 0
  Advances cal =
      (year mon : ℕ)
      → get_month_start M cal year mon
        < get_month_start M cal (after_month year mon).0 (after_month year mon).1

  carry_close-some :
      (o : Option (Kline M)) (l : Kline M) → (k : Kline M) × (carry_close M o (some l) ≡ some k)
  unfolding carry_close
  carry_close-some none l = (kline_info_new M l.close, refl)
  carry_close-some (some k) l = (k, refl)

  -- With a candle before it and a calendar whose months advance, the loop of `get_market_kline_month`
  -- ends, within as many rounds as there are seconds to `end` and two more, and answers with rows.
  pub months-ends :
      (fuel : ℕ) (cal : Calendar M) (market : String) (d : Dict ℕ (Kline M)) (year mon end : ℕ)
      (l : Kline M)
      → Advances cal
      → end + 1 < fuel + get_month_start M cal year mon
      → 0 < fuel
      → (rs : List (Row M)) × (months M fuel cal market d
            (get_month_start M cal year mon)
            year
            mon
            end
            (some l)
          ≡ some rs)
  unfolding months
  months-ends zero cal market d year mon end l adv f p = absurd (omega arith)
  months-ends (suc fuel) cal market d year mon end l adv f p =
      let mon_start = get_month_start M cal year mon in
      elim (Bool-cases (ltb end mon_start)) [
        | inl e ↦ ([], rw (e, months) refl)
        | inr e ↦
            let (year', mon') = after_month year mon in
            let mon_next = get_month_start M cal year' mon' in
            let days = (min mon_next (end + 1) - mon_start + 86399) / 86400 in
            let (k, q) = carry_close-some (bucket M days mon_start 86400 d none) l in
            let (rs, r) =
              months-ends fuel cal market d year' mon' end k adv (omega (arith, adv year mon))
                (ground arith) in
            (
              record { timestamp = mon_start; kinfo = k; market = market } ∷ rs,
              rw (e, months) (rw (q, r) refl),
            )
      ]
