-- ===== src/Tests/Candles.antt =====
-- The market prices of marketprice/ on two deals.
use viabtc_server_mac.Prelude.{
  ℕ, ◌+◌, ◌-◌, ◌*◌, ◌/◌, ◌%◌, ◌≤◌, ◌<◌, ◌≡◌, negsuc, refl, true, false, none, some, List, [], ◌∷◌,
  String, nat_eq, string_eq, length, take, arith,
}
use viabtc_server_mac.Tests.Platforms.{whole, whole_laws}
use viabtc_server_mac.Dict.{find}
use viabtc_server_mac.Prices.Feed.{
  Calendar, Deal, MarketInfo, Markets, create_market, add_to_market, market_update,
  market_deals_max,
}
use viabtc_server_mac.Prices.Query.{
  Settings, Row, get_last_kline, get_market_kline_sec, get_market_kline_min,
}
use viabtc_server_mac.Prices.Status.{MarketStatus, get_market_status, get_market_deals}
use viabtc_server_mac.Prices.Month.{after_month, get_month_start, months}
use viabtc_server_mac.Prices.Deals.{InStep, told_history, slot_sec, slot_min, market_update-InStep}
use viabtc_server_mac.Prices.Windows.{InTime, within}
use viabtc_server_mac.Prices.Rows.{Answers}
use viabtc_server_mac.Prices.Charts.{first_row, get_market_kline_sec-Answers}
use viabtc_server_mac.Prices.Today.{IsStatus, get_market_status-IsStatus}
use viabtc_server_mac.Prices.Recent.{newer, add_to_market-newest, get_market_deals-newer}
use viabtc_server_mac.Prices.Endless.{Advances, months-ends}
use viabtc_server_mac.Prices.Requests.{
  CacheKey, cache_key_eq, PriceReply, kline, silence, on_cmd_market_kline,
}
use viabtc_server_mac.Prices.Served.{
  request, first_minute, minute_before, on_cmd_market_kline-silence, on_cmd_market_kline-minutes,
}
use viabtc_server_mac.Prices.Status.{clear_kline}
use viabtc_server_mac.Prices.Recent.{IsCleared, clear_kline-IsCleared}

-- Months of thirty days.
abbrev calendar : Calendar whole
calendar = record {
  seconds = λ t. t;
  localtime = λ t. record {
    tm_year = t / 31104000;
    tm_mon = t / 2592000 % 12;
    tm_mday = t % 2592000 / 86400 + 1;
  };
  mktime = λ d. ((d.tm_year * 12 + d.tm_mon) * 30 + d.tm_mday - 1) * 86400;
}

abbrev settings : Settings
settings = record { sec_max = 604800; min_max = 86400; hour_max = 4320; timezone = negsuc 28799 }

abbrev first_deal : Deal whole
first_deal = record { id = 1; time = 125; price = 10; amount = 3; sell = true }

abbrev second_deal : Deal whole
second_deal = record { id = 2; time = 126; price = 12; amount = 2; sell = false }

abbrev quiet : MarketInfo whole
quiet = create_market whole 0 "BTCCNY"

abbrev one_told : Markets whole
one_told = market_update whole calendar 0 "BTCCNY" 125 10 3 1 1 125 []

abbrev both_told : Markets whole
both_told = market_update whole calendar 0 "BTCCNY" 126 12 2 2 2 126 one_told

abbrev busy : MarketInfo whole
busy =
    add_to_market whole calendar second_deal 126 (add_to_market whole calendar first_deal 125 quiet)

abbrev first_history : String → List (Deal whole)
first_history = told_history whole whole_laws "BTCCNY" first_deal (λ name. [])

abbrev both_history : String → List (Deal whole)
both_history = told_history whole whole_laws "BTCCNY" second_deal first_history

one_told-InStep : InStep whole whole_laws calendar first_history one_told
unfolding find
one_told-InStep =
    market_update-InStep whole whole_laws calendar 0 "BTCCNY" 125 10 3 1 1 125 (λ name. []) [] tt
      (λ name. refl)

market_update-InStep_example : InStep whole whole_laws calendar both_history both_told
market_update-InStep_example =
    market_update-InStep whole whole_laws calendar 0 "BTCCNY" 126 12 2 2 2 126 first_history
      one_told tt one_told-InStep

busy_known : find "BTCCNY" both_told ≡ some busy
unfolding find market_update add_to_market viabtc_server_mac.Dict.put
busy_known = refl

in_seconds : InTime whole (slot_sec whole whole_laws calendar) (both_history "BTCCNY")
in_seconds = ((omega arith, tt), (tt, tt))

minute_rows :
    get_market_kline_min whole settings both_told 130 "BTCCNY" 60 240 60
    ≡ some (
        record {
          timestamp = 120;
          kinfo = record { «open» = 10; close = 12; high = 12; low = 10; volume = 5; deal = 54 };
          market = "BTCCNY";
        }
        ∷ record {
          timestamp = 180;
          kinfo = record { «open» = 12; close = 12; high = 12; low = 12; volume = 0; deal = 0 };
          market = "BTCCNY";
        }
        ∷ record {
          timestamp = 240;
          kinfo = record { «open» = 12; close = 12; high = 12; low = 12; volume = 0; deal = 0 };
          market = "BTCCNY";
        }
        ∷ [])
unfolding get_market_kline_min market_update find viabtc_server_mac.Dict.put
minute_rows = refl

get_market_kline_sec-Answers_example :
    (rs : List (Row whole)) × (get_market_kline_sec whole settings both_told 130 "BTCCNY" 120 130 5
      ≡ some rs)
    × Answers whole whole_laws
        (slot_sec whole whole_laws calendar)
        (both_history "BTCCNY")
        "BTCCNY"
        5
        130
        (first_row (130 - settings.sec_max) 120 5)
        (get_last_kline whole
          (first_row (130 - settings.sec_max) 120 5 + 1)
          busy.sec
          (first_row (130 - settings.sec_max) 120 5 - 1)
          (130 - settings.sec_max)
          1)
        rs
get_market_kline_sec-Answers_example =
    get_market_kline_sec-Answers whole whole_laws calendar settings both_told 130 "BTCCNY" 120 130 5
      both_history busy busy_known market_update-InStep_example in_seconds (omega arith)

get_market_status-IsStatus_example :
    (answer : MarketStatus whole) × (stop : ℕ) × (get_market_status whole both_told 130 "BTCCNY" 20
      ≡ some answer)
    × (130 ≤ stop)
    × (stop < 130 + 60)
    × (stop % 60 ≡ 0)
    × IsStatus whole whole_laws
        (within whole (slot_sec whole whole_laws calendar) (130 - 20) stop (both_history "BTCCNY"))
        answer.kinfo
get_market_status-IsStatus_example =
    get_market_status-IsStatus whole whole_laws calendar both_told 130 "BTCCNY" 20 both_history busy
      busy_known market_update-InStep_example in_seconds (omega arith) (omega arith)

one_newest : (add_to_market whole calendar first_deal 125 quiet).deals_json ≡ first_deal ∷ []
unfolding add_to_market create_market
one_newest = refl

add_to_market-newest_example :
    (busy.deals_json ≡ take market_deals_max (second_deal ∷ first_deal ∷ []))
    × (length busy.deals_json ≤ market_deals_max)
add_to_market-newest_example =
    add_to_market-newest whole calendar second_deal 126
      (add_to_market whole calendar first_deal 125 quiet) (first_deal ∷ []) one_newest

busy_falls : busy.deals_json ≡ second_deal ∷ first_deal ∷ []
unfolding add_to_market create_market
busy_falls = refl

get_market_deals-newer_example :
    get_market_deals whole
      (("BTCCNY", record quiet { deals_json = second_deal ∷ first_deal ∷ [] }) ∷ [])
      "BTCCNY"
      5
      1
    ≡ some (take 5 (newer whole 1 (second_deal ∷ first_deal ∷ [])))
unfolding find
get_market_deals-newer_example =
    get_market_deals-newer whole
      (("BTCCNY", record quiet { deals_json = second_deal ∷ first_deal ∷ [] }) ∷ []) "BTCCNY" 5 1
      (record quiet { deals_json = second_deal ∷ first_deal ∷ [] }) refl (omega arith)
      ((omega arith, tt), (tt, tt))

calendar-Advances : Advances whole calendar
unfolding after_month get_month_start
calendar-Advances year mon = ground arith

months-ends_example :
    (rs : List (Row whole)) × (months whole 6000000 calendar "BTCCNY" busy.day
        (get_month_start whole calendar 0 1)
        0
        1
        2600000
        (some (record { «open» = 1; close = 1; high = 1; low = 1; volume = 0; deal = 0 }))
      ≡ some rs)
unfolding get_month_start
months-ends_example =
    months-ends whole 6000000 calendar "BTCCNY" busy.day 0 1 2600000
      (record { «open» = 1; close = 1; high = 1; low = 1; volume = 0; deal = 0 }) calendar-Advances
      (omega arith) (omega arith)

abbrev cache_key : CacheKey
cache_key = record { command = 203; body = "[]" }

-- A request for the months of a market that nothing was dealt on.
on_cmd_market_kline-silence_example :
    (on_cmd_market_kline whole 1000 calendar settings
      (λ t now. false)
      300
      0
      (("BTCCNY", quiet) ∷ [])
      cache_key
      (request whole "BTCCNY" 100 200 (86400 * 30))
      []).0
    ≡ silence
unfolding find create_market get_month_start
on_cmd_market_kline-silence_example =
    on_cmd_market_kline-silence whole 1000 calendar settings (λ t now. false) 300 0
      (("BTCCNY", quiet) ∷ []) cache_key [] "BTCCNY" 100 200 quiet refl (omega arith) (omega arith)
      (omega arith) refl (omega arith) (λ t h. refl)

nothing_cached : find {V = ℕ × PriceReply whole} cache_key [] ≡ none
unfolding find
nothing_cached = refl

on_cmd_market_kline-minutes_example :
    (rs : List (Row whole)) × ((on_cmd_market_kline whole 0 calendar settings
        (λ t now. false)
        300
        0
        both_told
        cache_key
        (request whole "BTCCNY" 60 240 60)
        []).0
      ≡ kline rs)
    × Answers whole whole_laws
        (slot_min whole whole_laws calendar)
        (both_history "BTCCNY")
        "BTCCNY"
        60
        240
        (first_minute whole whole_laws settings 300 60 60)
        (minute_before whole whole_laws settings 300 60 60 busy)
        rs
on_cmd_market_kline-minutes_example =
    on_cmd_market_kline-minutes whole whole_laws 0 calendar settings (λ t now. false) 300 0
      both_told cache_key [] "BTCCNY" 60 240 60 both_history busy busy_known
      market_update-InStep_example in_seconds (omega arith) (omega arith) (omega arith)
      nothing_cached (omega arith) (omega arith) refl refl

clear_kline-IsCleared_example :
    (info : MarketInfo whole) × (find "BTCCNY" (clear_kline whole settings 604926 both_told)
      ≡ some info)
    × IsCleared whole (604926 - settings.sec_max) busy.sec info.sec
    × IsCleared whole (604926 / 60 * 60 - settings.min_max * 60) busy.min info.min
    × IsCleared whole (604926 / 3600 * 3600 - settings.hour_max * 3600) busy.hour info.hour
    × (info.day ≡ busy.day)
    × (info.last ≡ 12)
    × (info.deals_json ≡ busy.deals_json)
    × (info.name ≡ busy.name)
    × (info.update ≡ busy.update)
    × (info.deals ≡ busy.deals)
    × (info.update_time ≡ busy.update_time)
unfolding add_to_market
clear_kline-IsCleared_example =
    clear_kline-IsCleared whole settings 604926 both_told "BTCCNY" busy busy_known
