-- ===== src/Prices/Feed.antt =====
-- marketprice/mp_message.c: what a deal of the matching engine changes. Times are seconds since 1970
-- as natural numbers; `malloc` does not fail. A deal's JSON text is the record of its fields.
use viabtc_server_mac.Prelude.{
  ◌%◌, ◌^◌, String, ℕ, zero, suc, ◌*◌, ◌/◌, Bool, false, not, ◌&&◌, ◌||◌, Option, none, some, List,
  [], ◌∷◌, ◌++◌, ltb, nat_eq, string_eq, ◌==◌, ◌>>=◌, if◌then◌else◌, length,
}
use viabtc_server_mac.Platform.{Mpd}
use viabtc_server_mac.Dict.{Dict, find, put}
use viabtc_server_mac.Market.Order.{side_ask, side_bid}
use viabtc_server_mac.Prices.Kline.{Kline, kline_info_new, kline_info_update}

-- `struct tm`, as far as it is used.
pub record Date : Type 0 where
  pub tm_year : ℕ
  pub tm_mon : ℕ
  pub tm_mday : ℕ

-- The C library's calendar, in the time zone of the machine, and the cast of a double to `time_t`.
pub record Calendar (M : Mpd) : Type 1 where
  pub seconds : M.Time → ℕ
  pub localtime : ℕ → Date
  pub mktime : Date → ℕ

-- KLINE_SEC, KLINE_MIN, KLINE_HOUR, KLINE_DAY
abbrev pub kline_sec : ℕ
kline_sec = 0

abbrev pub kline_min : ℕ
kline_min = 1

abbrev pub kline_hour : ℕ
kline_hour = 2

abbrev pub kline_day : ℕ
kline_day = 3

-- A candle to flush.
pub record KlineKey : Type 0 where
  pub kline_type : ℕ
  pub timestamp : ℕ

-- `memcmp` of two keys whose padding agrees.
unfoldable pub named : ℕ → ℕ → List KlineKey → Bool
named type t [] = false
named type t (u ∷ us) = ((u.kline_type == type) && (u.timestamp == t)) || named type t us

-- MARKET_DEALS_MAX
abbrev pub market_deals_max : ℕ
market_deals_max = 10000

-- The last node of a list goes.
unfoldable pub drop_tail : {A : Type 0} → List A → List A
drop_tail [] = []
drop_tail (x ∷ []) = []
drop_tail (x ∷ y ∷ ys) = x ∷ drop_tail (y ∷ ys)

-- An `int` that is set from a count: the low 32 bits. Whatever reads one refuses a negative
-- number as it does 0, and 0 stands for it.
unfoldable pub to_int : ℕ → ℕ
to_int n = if ltb (n % 2 ^ 32) (2 ^ 31) then n % 2 ^ 32 else 0

module _ (M : Mpd) where
  open M use {Decimal, Time, mpd_zero}

  pub record Deal : Type 0 where
    pub id : ℕ
    pub time : Time
    pub price : Decimal
    pub amount : Decimal
    pub sell : Bool

  -- `struct market_info`. The candles to flush are named by their type and time; `deals_json` has the
  -- newest deal in front, `deals` behind.
  pub record MarketInfo : Type 0 where
    pub name : String
    pub last : Decimal
    pub sec : Dict ℕ (Kline M)
    pub min : Dict ℕ (Kline M)
    pub hour : Dict ℕ (Kline M)
    pub day : Dict ℕ (Kline M)
    pub update : List KlineKey
    pub deals : List Deal
    pub deals_json : List Deal
    pub update_time : Time

  -- `dict_market`
  abbrev pub Markets : Type 0
  Markets = Dict String MarketInfo

  -- `memset` leaves the time 0, which `start` is.
  unfoldable pub create_market : Time → String → MarketInfo
  create_market start name = record {
    name = name;
    last = mpd_zero;
    sec = [];
    min = [];
    hour = [];
    day = [];
    update = [];
    deals = [];
    deals_json = [];
    update_time = start;
  }

  unfoldable pub market_query : Markets → String → Option MarketInfo
  market_query ms name = find name ms

  -- The candle of a time, a new one if there is none, with the deal in it.
  unfoldable pub bump : ℕ → Decimal → Decimal → Dict ℕ (Kline M) → Dict ℕ (Kline M)
  unfolding kline_info_new kline_info_update
  bump t price amount d = elim (find t d) [
    | some k ↦ put t (kline_info_update M k price amount) d
    | none ↦ put t (kline_info_update M (kline_info_new M price) price amount) d
  ]

  unfoldable pub add_update : ℕ → ℕ → List KlineKey → List KlineKey
  add_update type t us =
      if named type t us then us else record { kline_type = type; timestamp = t } ∷ us

  unfoldable pub get_day_start : Calendar M → ℕ → ℕ
  get_day_start c t =
      let date = c.localtime t in
      c.mktime (record { tm_year = date.tm_year; tm_mon = date.tm_mon; tm_mday = date.tm_mday })

  -- The newest deal in front, and the oldest one away if there are too many.
  unfoldable pub add_deal : Deal → List Deal → List Deal
  unfolding drop_tail
  add_deal d ds = if ltb market_deals_max (length (d ∷ ds)) then drop_tail (d ∷ ds) else d ∷ ds

  -- The market's part of `market_update`.
  unfoldable pub add_to_market : Calendar M → Deal → Time → MarketInfo → MarketInfo
  unfolding bump add_update get_day_start add_deal
  add_to_market c d now info =
      let time_sec = c.seconds d.time in
      let time_min = time_sec / 60 * 60 in
      let time_hour = time_sec / 3600 * 3600 in
      let time_day = get_day_start c time_sec in
      record info {
        last = d.price;
        sec = bump time_sec d.price d.amount info.sec;
        min = bump time_min d.price d.amount info.min;
        hour = bump time_hour d.price d.amount info.hour;
        day = bump time_day d.price d.amount info.day;
        update = add_update kline_day time_day (
            add_update kline_hour time_hour
              (add_update kline_min time_min (add_update kline_sec time_sec info.update)));
        deals = info.deals ++ d ∷ [];
        deals_json = add_deal d info.deals_json;
        update_time = now;
      }

  abbrev pub market_or_new : Time → String → Option MarketInfo → MarketInfo
  market_or_new start market (some info) = info
  market_or_new start market none = create_market start market

  -- `start` is the time 0 of a new market, `now` what `current_timestamp` returns.
  unfoldable pub market_update :
      Calendar M → Time → String → Time → Decimal → Decimal → ℕ → ℕ → Time → Markets → Markets
  unfolding market_query create_market add_to_market
  market_update c start market timestamp price amount side id now ms =
      let info = market_or_new start market (market_query ms market) in
      let d : Deal = record {
        id = id;
        time = timestamp;
        price = price;
        amount = amount;
        sell = side == side_ask;
      } in
      put market (add_to_market c d now info) ms

  -- An element of the message's JSON array: a real number, a text, a number, or something else.
  pub data Field : Type 0 where
    real : Time → Field
    text : String → Field
    integer : ℕ → Field
    other : Field

  -- The programs' data: `dict_market` and `last_offset`.
  pub record Feed : Type 0 where
    pub markets : Markets
    pub last_offset : ℕ

  unfoldable pub field_at : ℕ → List Field → Field
  field_at n [] = other
  field_at zero (f ∷ fs) = f
  field_at (suc n) (f ∷ fs) = field_at n fs

  -- `json_real_value`, where 0 is no time, `json_string_value`, and `decimal` on it.
  unfoldable pub real_value : (Time → Bool) → Field → Option Time
  real_value is_zero (real t) = if is_zero t then none else some t
  real_value is_zero f = none

  unfoldable pub string_value : Field → Option String
  string_value (text s) = some s
  string_value f = none

  unfoldable pub decimal_value : (String → ℕ → Option Decimal) → Field → Option Decimal
  decimal_value decimal (text s) = decimal s 0
  decimal_value decimal f = none

  unfoldable pub integer_value : Field → ℕ
  integer_value (integer n) = n
  integer_value f = 0

  -- The deal that a message tells, with its market; `none` is an invalid message.
  unfoldable pub read_deal :
      (Time → Bool)
      → (String → ℕ → Option Decimal)
      → List Field
      → Option (Time × String × Decimal × Decimal × ℕ × ℕ)
  unfolding field_at real_value string_value decimal_value integer_value to_int
  read_deal is_zero decimal fs = do
    timestamp ← if ltb (length fs) 12 then none else real_value is_zero (field_at 0 fs)
    market ← string_value (field_at 1 fs)
    price ← decimal_value decimal (field_at 6 fs)
    amount ← decimal_value decimal (field_at 7 fs)
    let side = to_int (integer_value (field_at 10 fs))
    let id = integer_value (field_at 11 fs)
    if (not (side == side_ask) && not (side == side_bid)) || (id == 0)
        then none
        else some (timestamp, market, price, amount, side, id)

  -- `none` is text that is no JSON; a JSON value that is no array is an array without elements.
  unfoldable pub on_deals_message :
      Calendar M
      → Time
      → (Time → Bool)
      → (String → ℕ → Option Decimal)
      → Option (List Field)
      → ℕ
      → Time
      → Feed
      → Feed
  unfolding read_deal market_update
  on_deals_message c start is_zero decimal none offset now s = s
  on_deals_message c start is_zero decimal (some fs) offset now s =
      elim (read_deal is_zero decimal fs) [
        | none ↦ s
        | some (timestamp, market, price, amount, side, id) ↦ record s {
          markets = market_update c start market timestamp price amount side id now s.markets;
          last_offset = offset;
        }
      ]
