-- ===== src/Prices/Served.antt =====
-- What a client of marketprice/mp_server.c is served.
use viabtc_server_mac.Prelude.{
  ◌^◌, ℕ, ◌+◌, ◌-◌, ◌*◌, ◌/◌, ◌%◌, ◌≤◌, ◌<◌, ◌≡◌, refl, Bool, true, false, Option, none, some, List,
  [], ◌∷◌, String, ◌∙◌, ltb, nat_eq, string_eq, ◌==◌, arith,
}
use viabtc_server_mac.Platform.{Mpd, Laws}
use viabtc_server_mac.Dict.{find}
use viabtc_server_mac.Prices.Kline.{Kline}
use viabtc_server_mac.Prices.Feed.{
  Calendar, Deal, MarketInfo, Markets, Field, text, integer, to_int,
}
use viabtc_server_mac.Prices.Query.{Settings, Row, get_last_kline, get_market_kline_min}
use viabtc_server_mac.Prices.Month.{get_month_start}
use viabtc_server_mac.Prices.Requests.{
  CacheKey, cache_key_eq, PriceReply, kline, silence, Cache, process_cache, with_cache, kline_reply,
  kline_args, market_arg, on_cmd_market_kline,
}
use viabtc_server_mac.Prices.Deals.{InStep, slot_sec, slot_min}
use viabtc_server_mac.Prices.Windows.{InTime}
use viabtc_server_mac.Prices.Rows.{Answers}
use viabtc_server_mac.Prices.Charts.{first_row, get_market_kline_min-Answers}
use viabtc_server_mac.Prices.Endless.{NoCandle, get_market_kline_month-endless}

module _ (M : Mpd) where
  -- The parameters of a request for candles.
  abbrev pub request : String → ℕ → ℕ → ℕ → List (Field M)
  request market start end interval =
      text market ∷ integer start ∷ integer end ∷ integer interval ∷ []

  to_int_lem : (n : ℕ) → n < 2 ^ 31 → to_int n ≡ n
  unfolding to_int
  to_int_lem n h = ground arith

  kline_args-request :
      (ms : Markets M) (now : ℕ) (market : String) (start end interval : ℕ) (info : MarketInfo M)
      → find market ms ≡ some info
      → 0 < start
      → start ≤ end
      → end ≤ now
      → 0 < interval
      → interval < 2 ^ 31
      → kline_args M ms now (request market start end interval)
        ≡ some (market, start, end, interval)
  unfolding kline_args market_arg
  kline_args-request ms now market start end interval info known p q r s t =
      let a : ltb now end ≡ false = ground arith in
      let b : (start == 0) ≡ false = ground arith in
      let c : (end == 0) ≡ false = ground arith in
      let d : ltb end start ≡ false = ground arith in
      let e : (interval == 0) ≡ false = ground arith in
      rw (known, a, b, c, d, to_int_lem interval t, e) refl

  -- Where nothing is cached under a key, the reply is a new one.
  uncached :
      (expired : M.Time → M.Time → Bool) (stamp : M.Time) (key : CacheKey) (new : PriceReply M)
      (cache : Cache M)
      → find key cache ≡ none
      → (with_cache M expired stamp key new cache).0 ≡ new
  unfolding with_cache process_cache
  uncached expired stamp key new cache e = rw (e, with_cache) refl

  month_silent :
      (fuel : ℕ) (cal : Calendar M) (c : Settings) (ms : Markets M) (now : ℕ) (market : String)
      (start end : ℕ) (info : MarketInfo M)
      → find market ms ≡ some info
      → get_month_start M cal (cal.localtime start).tm_year (cal.localtime start).tm_mon ≤ end
      → NoCandle M end info.day
      → kline_reply M fuel cal c ms now market start end (86400 * 30) ≡ silence
  unfolding kline_reply
  month_silent fuel cal c ms now market start end info known h bare =
      rw (get_market_kline_month-endless M fuel cal ms market start end info known h bare) refl

  -- A request for monthly candles of a market that has no daily candle up to the requested end, with no
  -- reply in the cache, is never replied to: the process is caught in the loop, whatever the rounds.
  pub on_cmd_market_kline-silence :
      (fuel : ℕ) (cal : Calendar M) (c : Settings) (expired : M.Time → M.Time → Bool) (now : ℕ)
      (stamp : M.Time) (ms : Markets M) (key : CacheKey) (cache : Cache M) (market : String)
      (start end : ℕ) (info : MarketInfo M)
      → find market ms ≡ some info
      → 0 < start
      → start ≤ end
      → end ≤ now
      → find key cache ≡ none
      → get_month_start M cal (cal.localtime start).tm_year (cal.localtime start).tm_mon ≤ end
      → NoCandle M end info.day
      → (on_cmd_market_kline M fuel cal c expired now stamp ms key
          (request market start end (86400 * 30))
          cache).0
        ≡ silence
  unfolding on_cmd_market_kline
  on_cmd_market_kline-silence fuel cal c expired now stamp ms key cache market start end info known
        p q r e h bare =
      rw
        (
          kline_args-request ms now market start end (86400 * 30) info known p q r (omega arith)
              (omega arith),
          on_cmd_market_kline,
        )
        (uncached expired stamp key (kline_reply M fuel cal c ms now market start end (86400 * 30))
            cache e
          ∙ month_silent fuel cal c ms now market start end info known h bare)

module _ (M : Mpd) (L : Laws M) where
  -- The first row's time, and the candle that was last before it.
  abbrev pub first_minute : Settings → ℕ → ℕ → ℕ → ℕ
  first_minute c now start interval = first_row (now / 60 * 60 - c.min_max * 60) start interval

  abbrev pub minute_before : Settings → ℕ → ℕ → ℕ → MarketInfo M → Option (Kline M)
  minute_before c now start interval info =
      let first = first_minute c now start interval in
      get_last_kline M (first + 1) info.min (first - 60) (now / 60 * 60 - c.min_max * 60) 60

  minutes_reply :
      (fuel : ℕ) (cal : Calendar M) (c : Settings) (ms : Markets M) (now : ℕ) (market : String)
      (start end interval : ℕ) (rs : List (Row M))
      → 60 ≤ interval
      → interval < 3600
      → interval % 60 ≡ 0
      → 3600 % interval ≡ 0
      → get_market_kline_min M c ms now market start end interval ≡ some rs
      → kline_reply M fuel cal c ms now market start end interval ≡ kline rs
  unfolding kline_reply
  minutes_reply fuel cal c ms now market start end interval rs a b m d e =
      let f : ltb interval 60 ≡ false = ground arith in
      let g : ltb interval 3600 ≡ true = ground arith in rw (f, g, m, d, e) refl

  -- A request for candles of whole minutes that divide the hour, for a known market, with no reply in
  -- the cache, is replied to with rows: each has the candle of the deals of its span, or the last close,
  -- and only spans before any candle have no row. Conditions: the start is not zero, not behind the end,
  -- and the end not behind now; the market's deals came in the order of their seconds; and the markets
  -- are in step with the history: every candle per second, minute, hour and day of every market is there
  -- and is that of all the deals of its span, as before the first candle that `clear_kline` drops.
  pub on_cmd_market_kline-minutes :
      (fuel : ℕ) (cal : Calendar M) (c : Settings) (expired : M.Time → M.Time → Bool) (now : ℕ)
      (stamp : M.Time) (ms : Markets M) (key : CacheKey) (cache : Cache M) (market : String)
      (start end interval : ℕ) (history : String → List (Deal M)) (info : MarketInfo M)
      → find market ms ≡ some info
      → InStep M L cal history ms
      → InTime M (slot_sec M L cal) (history market)
      → 0 < start
      → start ≤ end
      → end ≤ now
      → find key cache ≡ none
      → 60 ≤ interval
      → interval < 3600
      → interval % 60 ≡ 0
      → 3600 % interval ≡ 0
      → (rs : List (Row M)) × ((on_cmd_market_kline M fuel cal c expired now stamp ms key
            (request M market start end interval)
            cache).0
          ≡ kline rs)
        × Answers M L
            (slot_min M L cal)
            (history market)
            market
            interval
            end
            (first_minute c now start interval)
            (minute_before c now start interval info)
            rs
  unfolding on_cmd_market_kline
  on_cmd_market_kline-minutes fuel cal c expired now stamp ms key cache market start end interval
        history info known told in_time p q r e a b m d =
      let (rs, f, answers) =
        get_market_kline_min-Answers M L cal c ms now market start end interval history info known
          told in_time (omega arith) m in
      (
        rs,
        rw
            (
              kline_args-request M ms now market start end interval info known p q r (omega arith)
                  (omega arith),
              on_cmd_market_kline,
            )
            (uncached M expired stamp key
                (kline_reply M fuel cal c ms now market start end interval) cache e
              ∙ minutes_reply fuel cal c ms now market start end interval rs a b m d f),
        answers,
      )
