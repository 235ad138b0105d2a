-- ===== src/Prices/Month.antt =====
-- `get_market_kline_month` of marketprice/mp_message.c.
use viabtc_server_mac.Prelude.{
  String, ℕ, zero, suc, ◌+◌, ◌-◌, ◌*◌, ◌/◌, min, true, false, Option, none, some, List, [], ◌∷◌,
  ltb, nat_eq, string_eq, ◌==◌, ◌>>=◌, if◌then◌else◌,
}
use viabtc_server_mac.Platform.{Mpd}
use viabtc_server_mac.Dict.{Dict}
use viabtc_server_mac.Prices.Kline.{Kline}
use viabtc_server_mac.Prices.Feed.{Calendar, Markets, market_query}
use viabtc_server_mac.Prices.Query.{Row, bucket, carry_close, get_last_kline}

-- The year and the month after these; months count from 0.
unfoldable pub after_month : ℕ → ℕ → ℕ × ℕ
after_month year mon = if mon == 11 then (year + 1, 0) else (year, mon + 1)

module _ (M : Mpd) where
  unfoldable pub get_month_start : Calendar M → ℕ → ℕ → ℕ
  get_month_start cal year mon = cal.mktime (record { tm_year = year; tm_mon = mon; tm_mday = 1 })

  -- `for (; mon_start <= end;)` of `fuel` rounds at most; `none` where they are not enough.
  unfoldable pub months :
      ℕ
      → Calendar M
      → String
      → Dict ℕ (Kline M)
      → ℕ
      → ℕ
      → ℕ
      → ℕ
      → Option (Kline M)
      → Option (List (Row M))
  unfolding after_month get_month_start bucket carry_close
  months zero cal market d mon_start year mon end klast = none
  months (suc fuel) cal market d mon_start year mon end klast = elim (ltb end mon_start) [
    | true ↦ some []
    | false ↦
        let (year', mon') = after_month year mon in
        let mon_next = get_month_start cal year' mon' in
        let days = (min mon_next (end + 1) - mon_start + 86399) / 86400 in
        elim (carry_close M (bucket M days mon_start 86400 d none) klast) [
          | none ↦ months fuel cal market d mon_start year' mon' end none
          | some k ↦ do
            rest ← months fuel cal market d mon_next year' mon' end (some k)
            some (record { timestamp = mon_start; kinfo = k; market = market } ∷ rest)
        ]
  ]

  unfoldable pub get_market_kline_month :
      ℕ → Calendar M → Markets M → String → ℕ → ℕ → Option (Option (List (Row M)))
  unfolding market_query get_month_start get_last_kline months
  get_market_kline_month fuel cal ms market start end = do
    info ← market_query M ms market
    let date = cal.localtime start
    let mon_start = get_month_start cal date.tm_year date.tm_mon
    let kbefor =
        get_last_kline M (mon_start + 1) info.day (mon_start - 86400) (start - 86400 * 30) 86400
    some (months fuel cal market info.day mon_start date.tm_year date.tm_mon end kbefor)
