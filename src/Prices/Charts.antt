-- ===== src/Prices/Charts.antt =====
-- What `get_market_kline_sec` and `get_market_kline_min` of marketprice/mp_message.c answer.
use viabtc_server_mac.Prelude.{
  ℕ, zero, suc, ◌+◌, ◌-◌, ◌*◌, ◌/◌, ◌%◌, ◌≤◌, ◌<◌, ◌≡◌, refl, sym, subst, Bool-cases, some, List,
  [], ◌∷◌, All-map, String, ◌⊎◌, inl, inr, ltb, leb, nat_eq, string_eq, if◌then◌else◌, arith,
}
use native.Mathlib.Nat.{mul_assoc}
use viabtc_server_mac.Platform.{Mpd, Laws}
use viabtc_server_mac.Dict.{find}
use viabtc_server_mac.Prices.Feed.{Calendar, Deal, MarketInfo, Markets, market_query}
use viabtc_server_mac.Prices.Query.{
  Settings, Row, rows_from, get_last_kline, get_market_kline_sec, get_market_kline_min,
}
use viabtc_server_mac.Prices.Deals.{InStep, slot_sec, slot_min, Stands}
use viabtc_server_mac.Prices.Windows.{InTime, reach}
use viabtc_server_mac.Prices.Rows.{Answers, rows-Answers}

pub reach_strides : (t stride n : ℕ) → reach t stride n ≡ t + stride * n
reach_strides t stride zero = omega arith
reach_strides t stride (suc n) = grind (arith, reach_strides (t + stride) stride n)

-- A multiple of an interval of whole minutes is a full minute.
whole_minutes : (q interval : ℕ) → interval % 60 ≡ 0 → (q * interval) % 60 ≡ 0
whole_minutes q interval h =
    let n = interval / 60 in
    let e : interval ≡ n * 60 = omega arith in
    let f : q * (n * 60) ≡ q * n * 60 = sym (mul_assoc q n 60) in rw (e, f) (omega arith)

pub later : (s t : ℕ) → (s ≤ t) ⊎ (t + 1 ≤ s)
later s t = elim (Bool-cases (leb s t)) [ inl e ↦ inl (ground arith) | inr e ↦ inr (ground arith) ]

-- A full minute is not within another.
pub later_minute : (s t : ℕ) → t % 60 ≡ 0 → (s / 60 * 60 ≤ t) ⊎ (t + 60 ≤ s / 60 * 60)
later_minute s t h = elim (Bool-cases (leb (s / 60 * 60) t)) [
  | inl e ↦ inl (ground arith)
  | inr e ↦ inr (ground arith)
]

-- The first row's time.
abbrev pub first_row : ℕ → ℕ → ℕ → ℕ
first_row oldest start interval = (if ltb start oldest then oldest else start) / interval * interval

module _ (M : Mpd) (L : Laws M) where
  pub slot_min-InTime :
      (cal : Calendar M) (ds : List (Deal M))
      → InTime M (slot_sec M L cal) ds
      → InTime M (slot_min M L cal) ds
  slot_min-InTime cal [] s = tt
  slot_min-InTime cal (d ∷ ds) s = (
    All-map (λ b. cal.seconds d.time ≤ cal.seconds b.time)
        (λ b. slot_min M L cal d ≤ slot_min M L cal b) (λ b h. omega arith) ds s.0,
    slot_min-InTime cal ds s.1,
  )

  module _ (cal : Calendar M) (c : Settings) (ms : Markets M) (now : ℕ) (market : String)
      (start end interval : ℕ) (history : String → List (Deal M)) (info : MarketInfo M)
      (known : find market ms ≡ some info) (told : InStep M L cal history ms)
      (in_time : InTime M (slot_sec M L cal) (history market)) (positive : 0 < interval) where
    info_told : Stands M L cal (history market) (some info)
    info_told = subst (Stands M L cal (history market)) known (told market)

    -- For a known market, `get_market_kline_sec` answers: from the first row's time on, each row has the
    -- candle of the deals in its `interval` seconds, or the last close where there are none, and only
    -- spans before any candle have no row. Conditions: the market's deals came in the order of their
    -- seconds, `interval` is not zero, and the markets are in step with the history: every candle per
    -- second, minute, hour and day of every market is there and is that of all the deals of its span, as
    -- before the first candle that `clear_kline` drops.
    pub get_market_kline_sec-Answers :
        (rs : List (Row M)) × (get_market_kline_sec M c ms now market start end interval ≡ some rs)
        × Answers M L
            (slot_sec M L cal)
            (history market)
            market
            interval
            end
            (first_row (now - c.sec_max) start interval)
            (get_last_kline M
              (first_row (now - c.sec_max) start interval + 1)
              info.sec
              (first_row (now - c.sec_max) start interval - 1)
              (now - c.sec_max)
              1)
            rs
    unfolding get_market_kline_sec market_query rows_from
    get_market_kline_sec-Answers =
        let first = first_row (now - c.sec_max) start interval in
        let kbefor = get_last_kline M (first + 1) info.sec (first - 1) (now - c.sec_max) 1 in
        (
          rows_from M market info.sec 1 first end interval kbefor,
          rw known refl,
          rows-Answers M L (slot_sec M L cal) (history market) market interval end (λ t. Unit {0}) 1
              (interval / 1) (λ t d g. later (cal.seconds d.time) t) (λ t g. tt) (λ t g. tt)
              (λ t. omega (arith, reach_strides t 1 (interval / 1))) info.sec info_told.secs in_time
              (end + 1 - first) first kbefor (omega arith) (omega arith) positive tt,
        )

    abbrev oldest_min : ℕ
    oldest_min = now / 60 * 60 - c.min_max * 60

    -- The same for `get_market_kline_min`, where the interval is of whole minutes.
    pub get_market_kline_min-Answers :
        interval % 60 ≡ 0
        → (rs : List (Row M)) × (get_market_kline_min M c ms now market start end interval
            ≡ some rs)
          × Answers M L
              (slot_min M L cal)
              (history market)
              market
              interval
              end
              (first_row oldest_min start interval)
              (get_last_kline M
                (first_row oldest_min start interval + 1)
                info.min
                (first_row oldest_min start interval - 60)
                oldest_min
                60)
              rs
    unfolding get_market_kline_min market_query rows_from
    get_market_kline_min-Answers minutes =
        let first = first_row oldest_min start interval in
        let kbefor = get_last_kline M (first + 1) info.min (first - 60) oldest_min 60 in
        let quot = (if ltb start oldest_min then oldest_min else start) / interval in
        (
          rows_from M market info.min 60 first end interval kbefor,
          rw known refl,
          rows-Answers M L (slot_min M L cal) (history market) market interval end (λ t. t % 60 ≡ 0)
              60 (interval / 60) (λ t d g. later_minute (cal.seconds d.time) t g)
              (λ t g. omega arith) (λ t g. omega arith)
              (λ t. omega (arith, reach_strides t 60 (interval / 60))) info.min info_told.mins
              (slot_min-InTime cal (history market) in_time) (end + 1 - first) first kbefor
              (omega arith) (omega arith) positive (whole_minutes quot interval minutes),
        )
