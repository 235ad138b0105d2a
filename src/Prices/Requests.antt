-- ===== src/Prices/Requests.antt =====
-- The requests of marketprice/mp_server.c, after their parameters were found to be a JSON array. The
-- replies' JSON is not modelled.
use viabtc_server_mac.Prelude.{
  ℕ, ◌*◌, ◌%◌, ◌≡◌, ◌↔◌, KeyType, Bool, true, not, ◌&&◌, ◌||◌, Option, none, some, List, [], ◌∷◌,
  String, ltb, nat_eq, string_eq, ◌==◌, ◌>>=◌, if◌then◌else◌, arith,
}
use package.text.Mathlib.TextEquality.{eq_iff}
use viabtc_server_mac.Platform.{Mpd}
use viabtc_server_mac.Dict.{Dict, find, put, delete}
use viabtc_server_mac.Prices.Feed.{
  Calendar, Deal, Markets, Field, integer, string_value, integer_value, to_int, market_query,
  market_deals_max,
}
use viabtc_server_mac.Prices.Query.{
  Settings, Row, get_market_kline_sec, get_market_kline_min, get_market_kline_hour,
  get_market_kline_day, get_market_kline_week,
}
use viabtc_server_mac.Prices.Month.{get_market_kline_month}
use viabtc_server_mac.Prices.Status.{
  MarketStatus, Today, get_market_status, get_market_status_today, get_market_deals,
  get_market_last_price,
}

-- The command and the text of the parameters, which begins with a bracket.
pub record CacheKey : Type 0 where
  pub command : ℕ
  pub body : String

unfoldable pub cache_beq : CacheKey → CacheKey → Bool
cache_beq a b = (a.command == b.command) && (a.body == b.body)

pub cache_beq_iff : (a b : CacheKey) → (cache_beq a b ≡ true) ↔ (a ≡ b)
unfolding cache_beq
cache_beq_iff a b = ground (arith, eq_iff a.body b.body)

instance abbrev pub cache_key_eq : KeyType CacheKey
cache_key_eq = record { same = cache_beq; same_iff = cache_beq_iff }

module _ (M : Mpd) where
  open M use {Decimal, Time}

  -- What is replied: a result, an error with its code, or nothing, where a loop does not end.
  pub data PriceReply : Type 0 where
    kline : List (Row M) → PriceReply
    status : MarketStatus M → PriceReply
    today : Today M → PriceReply
    deals : List (Deal M) → PriceReply
    last : Decimal → PriceReply
    refused : ℕ → PriceReply
    silence : PriceReply

  -- `dict_cache`
  abbrev pub Cache : Type 0
  Cache = Dict CacheKey (Time × PriceReply)

  -- An old reply, unless it has expired.
  unfoldable pub process_cache :
      (Time → Time → Bool) → Time → CacheKey → Cache → Option PriceReply × Cache
  process_cache expired now key cache = elim (find key cache) [
    | none ↦ (none, cache)
    | some (t, r) ↦ if expired t now then (none, delete key cache) else (some r, cache)
  ]

  unfoldable pub add_cache : Time → CacheKey → PriceReply → Cache → Cache
  add_cache now key (refused n) cache = cache
  add_cache now key silence cache = cache
  add_cache now key r cache = put key (now, r) cache

  -- The reply from the cache, or a new one, which goes there if it is a result.
  unfoldable pub with_cache :
      (Time → Time → Bool) → Time → CacheKey → PriceReply → Cache → PriceReply × Cache
  unfolding process_cache add_cache
  with_cache expired now key new cache =
      let (old, cache') = process_cache expired now key cache in
      elim old [ some r ↦ (r, cache') | none ↦ (new, add_cache now key new cache') ]

  abbrev rows_reply : Option (List (Row M)) → PriceReply
  rows_reply none = refused 2
  rows_reply (some rs) = kline rs

  abbrev month_reply : Option (Option (List (Row M))) → PriceReply
  month_reply none = refused 2
  month_reply (some none) = silence
  month_reply (some (some rs)) = kline rs

  -- The candles by the length of the interval, in seconds.
  unfoldable pub kline_reply :
      ℕ → Calendar M → Settings → Markets M → ℕ → String → ℕ → ℕ → ℕ → PriceReply
  unfolding get_market_kline_sec get_market_kline_min get_market_kline_hour get_market_kline_day
      get_market_kline_week get_market_kline_month
  kline_reply fuel cal c ms now market start end interval =
      if ltb interval 60
      then (if not (60 % interval == 0)
          then refused 1
          else rows_reply (get_market_kline_sec M c ms now market start end interval))
      else if ltb interval 3600
      then (if not (interval % 60 == 0) || not (3600 % interval == 0)
          then refused 1
          else rows_reply (get_market_kline_min M c ms now market start end interval))
      else if ltb interval 86400
      then (if not (interval % 3600 == 0) || not (86400 % interval == 0)
          then refused 1
          else rows_reply (get_market_kline_hour M cal c ms now market start end interval))
      else if ltb interval (86400 * 7)
      then (if not (interval % 86400 == 0)
          then refused 1
          else rows_reply (get_market_kline_day M c ms market start end interval))
      else if interval == 86400 * 7
      then rows_reply (get_market_kline_week M c ms market start end interval)
      else if interval == 86400 * 30
      then month_reply (get_market_kline_month M fuel cal ms market start end)
      else refused 1

  -- A market that is known.
  unfoldable pub market_arg : Markets M → Field M → Option String
  unfolding market_query string_value
  market_arg ms f = do market ← string_value M f; info ← market_query M ms market; some market

  -- The market, the start, the end and the interval of a request; the interval is kept in an `int`.
  unfoldable pub kline_args : Markets M → ℕ → List (Field M) → Option (String × ℕ × ℕ × ℕ)
  unfolding market_arg integer_value to_int
  kline_args ms now (f ∷ g ∷ h ∷ j ∷ []) = do
    market ← market_arg ms f
    let start = integer_value M g
    let end = (if ltb now (integer_value M h) then now else integer_value M h)
    let interval = to_int (integer_value M j)
    if (start == 0) || (end == 0) || ltb end start || (interval == 0)
        then none
        else some (market, start, end, interval)
  kline_args ms now fs = none

  -- `now` is what `time` returns, `stamp` what `current_timestamp` returns.
  unfoldable pub on_cmd_market_kline :
      ℕ
      → Calendar M
      → Settings
      → (Time → Time → Bool)
      → ℕ
      → Time
      → Markets M
      → CacheKey
      → List (Field M)
      → Cache
      → PriceReply × Cache
  unfolding kline_args with_cache kline_reply
  on_cmd_market_kline fuel cal c expired now stamp ms key params cache =
      elim (kline_args ms now params) [
        | none ↦ (refused 1, cache)
        | some (market, start, end, interval) ↦
            with_cache expired stamp key (kline_reply fuel cal c ms now market start end interval)
              cache
      ]

  abbrev status_result : Option (MarketStatus M) → PriceReply
  status_result none = refused 2
  status_result (some s) = status s

  unfoldable pub on_cmd_market_status :
      Settings
      → (Time → Time → Bool)
      → ℕ
      → Time
      → Markets M
      → CacheKey
      → List (Field M)
      → Cache
      → PriceReply × Cache
  unfolding market_arg integer_value to_int with_cache get_market_status
  on_cmd_market_status c expired now stamp ms key (f ∷ g ∷ []) cache = elim (market_arg ms f) [
    | none ↦ (refused 1, cache)
    | some market ↦
        let period = to_int (integer_value M g) in
        if (period == 0) || ltb c.sec_max period
        then (refused 1, cache)
        else with_cache expired stamp key (status_result (get_market_status M ms now market period))
            cache
  ]
  on_cmd_market_status c expired now stamp ms key fs cache = (refused 1, cache)

  abbrev deals_result : Option (List (Deal M)) → PriceReply
  deals_result none = refused 2
  deals_result (some ds) = deals ds

  unfoldable pub on_cmd_market_deals : Markets M → List (Field M) → PriceReply
  unfolding market_arg integer_value to_int get_market_deals
  on_cmd_market_deals ms (f ∷ g ∷ integer last_id ∷ []) = elim (market_arg ms f) [
    | none ↦ refused 1
    | some market ↦
        let limit = to_int (integer_value M g) in
        if (limit == 0) || ltb market_deals_max limit
        then refused 1
        else deals_result (get_market_deals M ms market limit last_id)
  ]
  on_cmd_market_deals ms fs = refused 1

  abbrev last_result : Option Decimal → PriceReply
  last_result none = refused 2
  last_result (some p) = last p

  unfoldable pub on_cmd_market_last : Markets M → List (Field M) → PriceReply
  unfolding market_arg get_market_last_price
  on_cmd_market_last ms (f ∷ []) = elim (market_arg ms f) [
    | none ↦ refused 1
    | some market ↦ last_result (get_market_last_price M ms market)
  ]
  on_cmd_market_last ms fs = refused 1

  abbrev today_result : Option (Today M) → PriceReply
  today_result none = refused 2
  today_result (some t) = today t

  unfoldable pub on_cmd_market_status_today :
      Calendar M
      → (Time → Time → Bool)
      → ℕ
      → Time
      → Markets M
      → CacheKey
      → List (Field M)
      → Cache
      → PriceReply × Cache
  unfolding market_arg with_cache get_market_status_today
  on_cmd_market_status_today cal expired now stamp ms key (f ∷ []) cache = elim (market_arg ms f) [
    | none ↦ (refused 1, cache)
    | some market ↦
        with_cache expired stamp key (today_result (get_market_status_today M cal ms now market))
          cache
  ]
  on_cmd_market_status_today cal expired now stamp ms key fs cache = (refused 1, cache)
