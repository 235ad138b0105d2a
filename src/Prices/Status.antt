-- ===== src/Prices/Status.antt =====
-- The queries of marketprice/mp_message.c on a market's last day and last deals, and the timer that
-- clears old candles.
use viabtc_server_mac.Prelude.{
  String, ℕ, zero, suc, ◌+◌, ◌-◌, ◌*◌, ◌/◌, Option, none, some, List, [], ◌∷◌, ltb, leb, nat_eq,
  string_eq, ◌==◌, ◌>>=◌, if◌then◌else◌,
}
use viabtc_server_mac.Platform.{Mpd}
use viabtc_server_mac.Dict.{Dict, find}
use viabtc_server_mac.Prices.Kline.{Kline, kline_info_new}
use viabtc_server_mac.Prices.Feed.{Calendar, Deal, MarketInfo, Markets, market_query, get_day_start}
use viabtc_server_mac.Prices.Query.{Settings, bucket, get_last_kline}

-- `clear_dict` drops the entries before `start`.
unfoldable pub clear_dict : {A : Type 0} → ℕ → Dict ℕ A → Dict ℕ A
clear_dict start [] = []
clear_dict start ((t, k) ∷ d) =
    let rest = clear_dict start d in if ltb t start then rest else (t, k) ∷ rest

module _ (M : Mpd) where
  open M use {Decimal, mpd_zero, add}

  -- The object that `get_market_status` answers with.
  pub record MarketStatus : Type 0 where
    pub period : ℕ
    pub last : Decimal
    pub kinfo : Kline M

  abbrev pub kline_or_zero : Option (Kline M) → Kline M
  kline_or_zero none = kline_info_new M mpd_zero
  kline_or_zero (some k) = k

  -- The seconds up to the next full minute, and the minutes from there.
  unfoldable pub get_market_status : Markets M → ℕ → String → ℕ → Option MarketStatus
  unfolding market_query bucket
  get_market_status ms now market period = do
    info ← market_query M ms market
    let start = now - period
    let start_min = start / 60 * 60 + 60
    let seconds = bucket M (start_min - start) start 1 info.sec none
    let kinfo = bucket M ((now - start_min + 59) / 60) start_min 60 info.min seconds
    some (record { period = period; last = info.last; kinfo = kline_or_zero kinfo })

  -- The object that `get_market_status_today` answers with.
  pub record Today : Type 0 where
    pub «open» : Decimal
    pub last : Decimal
    pub high : Decimal
    pub low : Decimal
    pub volume : Decimal
    pub deal : Decimal

  -- What was traded at `n` times, `stride` apart, is added.
  unfoldable pub traded : ℕ → ℕ → ℕ → Dict ℕ (Kline M) → Decimal × Decimal → Decimal × Decimal
  traded zero t stride d (volume, deal) = (volume, deal)
  traded (suc n) t stride d (volume, deal) = elim (find t d) [
    | none ↦ traded n (t + stride) stride d (volume, deal)
    | some k ↦ traded n (t + stride) stride d (add volume k.volume, add deal k.deal)
  ]

  -- Today's candle, or the last close, or nothing.
  unfoldable pub day_prices : Option (Kline M) → Option (Kline M) → Kline M
  day_prices (some today) klast = today
  day_prices none (some l) = kline_info_new M l.close
  day_prices none none = kline_info_new M mpd_zero

  unfoldable pub get_market_status_today : Calendar M → Markets M → ℕ → String → Option Today
  unfolding market_query get_day_start get_last_kline day_prices traded
  get_market_status_today cal ms now market = do
    info ← market_query M ms market
    let start = get_day_start M cal now
    let klast = get_last_kline M (start + 1) info.day (start - 86400) (start - 86400 * 30) 86400
    let k = day_prices (find start info.day) klast
    let start_24h = now - 86400
    let start_min = start_24h / 60 * 60 + 60
    let seconds = traded (start_min - start_24h) start_24h 1 info.sec (mpd_zero, mpd_zero)
    let (volume, deal) = traded ((now - start_min + 59) / 60) start_min 60 info.min seconds
    some (record {
      «open» = k.«open»;
      last = k.close;
      high = k.high;
      low = k.low;
      volume = volume;
      deal = deal;
    })

  -- From the newest deal: to one with an id that is not new, or until `limit` are there.
  unfoldable pub newer_deals : ℕ → ℕ → ℕ → List (Deal M) → List (Deal M)
  newer_deals limit count last_id [] = []
  newer_deals limit count last_id (d ∷ ds) =
      let rest = newer_deals limit (count + 1) last_id ds in
      if leb d.id last_id then [] else if count + 1 == limit then d ∷ [] else d ∷ rest

  unfoldable pub get_market_deals : Markets M → String → ℕ → ℕ → Option (List (Deal M))
  unfolding market_query newer_deals
  get_market_deals ms market limit last_id = do
    info ← market_query M ms market
    some (newer_deals limit 0 last_id info.deals_json)

  unfoldable pub get_market_last_price : Markets M → String → Option Decimal
  unfolding market_query
  get_market_last_price ms market = do info ← market_query M ms market; some info.last

  -- One market's part of `clear_kline`.
  unfoldable pub clear_market : Settings → ℕ → MarketInfo M → MarketInfo M
  unfolding clear_dict
  clear_market c now info = record info {
    sec = clear_dict (now - c.sec_max) info.sec;
    min = clear_dict (now / 60 * 60 - c.min_max * 60) info.min;
    hour = clear_dict (now / 3600 * 3600 - c.hour_max * 3600) info.hour;
  }

  unfoldable pub clear_kline : Settings → ℕ → Markets M → Markets M
  unfolding clear_market
  clear_kline c now [] = []
  clear_kline c now ((name, info) ∷ ms) = (name, clear_market c now info) ∷ clear_kline c now ms
