-- ===== src/Prices/Query.antt =====
-- The queries of marketprice/mp_message.c on the candles, as the rows of their answers. `now` is what
-- `time` returns. A loop that adds a positive step to a time makes as many rounds as the span has.
use viabtc_server_mac.Prelude.{
  String, ℕ, zero, suc, ◌+◌, ◌-◌, ◌*◌, ◌/◌, ℤ, pos, negsuc, true, false, Option, none, some, List,
  [], ◌∷◌, ltb, leb, nat_eq, string_eq, ◌>>=◌, if◌then◌else◌,
}
use viabtc_server_mac.Platform.{Mpd}
use viabtc_server_mac.Dict.{Dict, find}
use viabtc_server_mac.Prices.Kline.{Kline, kline_info_new, kline_info_merge}
use viabtc_server_mac.Prices.Feed.{Calendar, Markets, market_query, get_day_start}

-- `settings`, as far as the queries read it. `timezone` is in seconds.
pub record Settings : Type 0 where
  pub sec_max : ℕ
  pub min_max : ℕ
  pub hour_max : ℕ
  pub timezone : ℤ

unfoldable pub minus_zone : ℕ → ℤ → ℕ
minus_zone t (pos n) = t - n
minus_zone t (negsuc n) = t + n + 1

unfoldable pub plus_zone : ℕ → ℤ → ℕ
plus_zone t (pos n) = t + n
plus_zone t (negsuc n) = t - (n + 1)

-- `while (base + interval <= start) base += interval`
unfoldable pub align : ℕ → ℕ → ℕ → ℕ → ℕ
align zero base interval start = base
align (suc fuel) base interval start = elim (leb (base + interval) start) [
  | true ↦ align fuel (base + interval) interval start
  | false ↦ base
]

module _ (M : Mpd) where
  open M use {Decimal, mpd_zero, add}

  -- `append_kinfo`
  pub record Row : Type 0 where
    pub timestamp : ℕ
    pub kinfo : Kline M
    pub market : String

  -- Seen from `start` back to `stop`; a step below 0 is below `stop`.
  unfoldable pub get_last_kline : ℕ → Dict ℕ (Kline M) → ℕ → ℕ → ℕ → Option (Kline M)
  get_last_kline zero d start stop interval = none
  get_last_kline (suc fuel) d start stop interval = elim (ltb start stop) [
    | true ↦ none
    | false ↦ elim (find start d) [
      | some k ↦ some k
      | none ↦ elim (ltb start interval) [
        | true ↦ none
        | false ↦ get_last_kline fuel d (start - interval) stop interval
      ]
    ]
  ]

  -- A candle joins those before it.
  unfoldable pub join : Option (Kline M) → Option (Kline M) → Option (Kline M)
  unfolding kline_info_new kline_info_merge
  join acc none = acc
  join none (some item) = some (kline_info_merge M (kline_info_new M item.«open») item)
  join (some k) (some item) = some (kline_info_merge M k item)

  -- The candles at `n` times, `stride` apart, as one.
  unfoldable pub bucket : ℕ → ℕ → ℕ → Dict ℕ (Kline M) → Option (Kline M) → Option (Kline M)
  unfolding join
  bucket zero t stride d acc = acc
  bucket (suc n) t stride d acc = bucket n (t + stride) stride d (join acc (find t d))

  -- What a span without a candle shows: the last close, if there is one.
  unfoldable pub carry_close : Option (Kline M) → Option (Kline M) → Option (Kline M)
  unfolding kline_info_new
  carry_close (some k) klast = some k
  carry_close none none = none
  carry_close none (some l) = some (kline_info_new M l.close)

  -- `for (; start <= end; start += interval)`, with `step` candles a row.
  unfoldable pub rows :
      ℕ → String → Dict ℕ (Kline M) → ℕ → ℕ → ℕ → ℕ → ℕ → Option (Kline M) → List Row
  unfolding bucket carry_close
  rows zero market d stride step start end interval klast = []
  rows (suc fuel) market d stride step start end interval klast = elim (ltb end start) [
    | true ↦ []
    | false ↦ elim (carry_close (bucket step start stride d none) klast) [
      | none ↦ rows fuel market d stride step (start + interval) end interval none
      | some k ↦
          record { timestamp = start; kinfo = k; market = market }
          ∷ rows fuel market d stride step (start + interval) end interval (some k)
    ]
  ]

  -- The rows from a start that is aligned, with what was last before it.
  unfoldable pub rows_from : String → Dict ℕ (Kline M) → ℕ → ℕ → ℕ → ℕ → Option (Kline M) → List Row
  unfolding rows
  rows_from market d stride start end interval kbefor =
      rows (end + 1 - start) market d stride (interval / stride) start end interval kbefor

  unfoldable pub get_market_kline_sec :
      Settings → Markets M → ℕ → String → ℕ → ℕ → ℕ → Option (List Row)
  unfolding market_query get_last_kline rows_from
  get_market_kline_sec c ms now market start end interval = do
    info ← market_query M ms market
    let start_sec = now - c.sec_max
    let first = (if ltb start start_sec then start_sec else start) / interval * interval
    let kbefor = get_last_kline (first + 1) info.sec (first - 1) start_sec 1
    some (rows_from market info.sec 1 first end interval kbefor)

  unfoldable pub get_market_kline_min :
      Settings → Markets M → ℕ → String → ℕ → ℕ → ℕ → Option (List Row)
  unfolding market_query get_last_kline rows_from
  get_market_kline_min c ms now market start end interval = do
    info ← market_query M ms market
    let start_min = now / 60 * 60 - c.min_max * 60
    let first = (if ltb start start_min then start_min else start) / interval * interval
    let kbefor = get_last_kline (first + 1) info.min (first - 60) start_min 60
    some (rows_from market info.min 60 first end interval kbefor)

  unfoldable pub get_market_kline_hour :
      Calendar M → Settings → Markets M → ℕ → String → ℕ → ℕ → ℕ → Option (List Row)
  unfolding market_query get_day_start align get_last_kline rows_from
  get_market_kline_hour cal c ms now market start end interval = do
    info ← market_query M ms market
    let start_min = now / 3600 * 3600 - c.hour_max * 3600
    let from = if ltb start start_min then start_min else start
    let first = align (from + 1) (get_day_start M cal from) interval from
    let kbefor = get_last_kline (first + 1) info.hour (first - 3600) start_min 3600
    some (rows_from market info.hour 3600 first end interval kbefor)

  unfoldable pub get_market_kline_day :
      Settings → Markets M → String → ℕ → ℕ → ℕ → Option (List Row)
  unfolding market_query minus_zone plus_zone get_last_kline rows_from
  get_market_kline_day c ms market start end interval = do
    info ← market_query M ms market
    let first = plus_zone (minus_zone start c.timezone / interval * interval) c.timezone
    let kbefor = get_last_kline (first + 1) info.day (first - 86400) (first - 86400 * 30) 86400
    some (rows_from market info.day 86400 first end interval kbefor)

  unfoldable pub get_market_kline_week :
      Settings → Markets M → String → ℕ → ℕ → ℕ → Option (List Row)
  unfolding market_query minus_zone plus_zone align get_last_kline rows_from
  get_market_kline_week c ms market start end interval = do
    info ← market_query M ms market
    let whole = minus_zone start c.timezone / interval * interval
    let first = align (start + 1) (plus_zone (whole - 3 * 86400) c.timezone) interval start
    let kbefor = get_last_kline (first + 1) info.day (first - 86400) (first - 86400 * 30) 86400
    some (rows_from market info.day 86400 first end interval kbefor)
