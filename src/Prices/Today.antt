-- ===== src/Prices/Today.antt =====
-- What `get_market_status` and `get_market_deals` of marketprice/mp_message.c answer, and what
-- `clear_kline` leaves.
use viabtc_server_mac.Prelude.{
  ℕ, ◌+◌, ◌-◌, ◌*◌, ◌/◌, ◌%◌, ◌≤◌, ◌<◌, ◌≡◌, refl, sym, ap, subst, Option, none, some, List, [],
  ◌∷◌, ◌++◌, String, ◌⊎◌, ◌∙◌, inl, inr, ltb, leb, nat_eq, string_eq, arith,
}
use viabtc_server_mac.Platform.{Mpd, Laws}
use viabtc_server_mac.Dict.{find}
use viabtc_server_mac.Prices.Kline.{Kline, kline_info_new}
use viabtc_server_mac.Prices.Feed.{Calendar, Deal, MarketInfo, Markets, market_query}
use viabtc_server_mac.Prices.Query.{bucket}
use viabtc_server_mac.Prices.Status.{MarketStatus, get_market_status, kline_or_zero}
use viabtc_server_mac.Prices.Candle.{IsCandle}
use viabtc_server_mac.Prices.Deals.{Shows, InStep, slot_sec, slot_min, Stands}
use viabtc_server_mac.Prices.Windows.{InTime, reach, reach_ge, within, within_split, bucket-Shows}
use viabtc_server_mac.Prices.Charts.{later, later_minute, slot_min-InTime, reach_strides}

module _ (M : Mpd) (L : Laws M) where
  -- Between full minutes, the minutes of the deals tell as much as their seconds.
  within_minutes :
      (cal : Calendar M) (a b : ℕ) (ds : List (Deal M))
      → a % 60 ≡ 0
      → b % 60 ≡ 0
      → within M (slot_min M L cal) a b ds ≡ within M (slot_sec M L cal) a b ds
  within_minutes cal a b [] h k = refl
  within_minutes cal a b (d ∷ ds) h k =
      let s = cal.seconds d.time in
      let e : leb a (s / 60 * 60) ≡ leb a s = ground arith in
      let f : ltb (s / 60 * 60) b ≡ ltb s b = ground arith in
      rw (e, f, within_minutes cal a b ds h k) refl

  abbrev next_minute : ℕ → ℕ
  next_minute t = t / 60 * 60 + 60

  abbrev minutes_to : ℕ → ℕ → ℕ
  minutes_to t now = (now - t + 59) / 60

  -- The candle that the answer is made of, or the zero candle where nothing was dealt.
  abbrev pub IsStatus : List (Deal M) → Kline M → Type 0
  IsStatus ds k = IsCandle M L ds k ⊎ ((ds ≡ []) × (k ≡ kline_info_new M M.mpd_zero))

  kline_or_zero-IsStatus :
      (ds : List (Deal M)) (o : Option (Kline M)) → Shows M L ds o → IsStatus ds (kline_or_zero M o)
  kline_or_zero-IsStatus ds none e = inr (e, refl)
  kline_or_zero-IsStatus ds (some k) h = inl h

  -- For a known market, `get_market_status` answers with the candle of the deals of the last `period`
  -- seconds, up to the full minute at or after now, or with zeros where there was no deal. Conditions:
  -- the period is not zero and reaches back to 1970 at most; the market's deals came in the order of
  -- their seconds; and the markets are in step with the history: every candle per second, minute, hour
  -- and day of every market is there and is that of all the deals of its span, as before the first
  -- candle that `clear_kline` drops.
  pub get_market_status-IsStatus :
      (cal : Calendar M) (ms : Markets M) (now : ℕ) (market : String) (period : ℕ)
      (history : String → List (Deal M)) (info : MarketInfo M)
      → find market ms ≡ some info
      → InStep M L cal history ms
      → InTime M (slot_sec M L cal) (history market)
      → 0 < period
      → period ≤ now
      → (answer : MarketStatus M) × (stop : ℕ) × (get_market_status M ms now market period
          ≡ some answer)
        × (now ≤ stop)
        × (stop < now + 60)
        × (stop % 60 ≡ 0)
        × IsStatus (within M (slot_sec M L cal) (now - period) stop (history market)) answer.kinfo
  unfolding get_market_status market_query
  get_market_status-IsStatus cal ms now market period history info known told in_time p q =
      let start = now - period in
      let start_min = next_minute start in
      let n = minutes_to start_min now in
      let stop = reach start_min 60 n in
      let info_told : Stands M L cal (history market) (some info) =
        subst (Stands M L cal (history market)) known (told market) in
      let ds = history market in
      let seconds = bucket M (start_min - start) start 1 info.sec none in
      let kinfo = bucket M n start_min 60 info.min seconds in
      let m = reach_strides start_min 60 n in
      let first : Shows M L (within M (slot_sec M L cal) start start_min ds) seconds =
        subst (λ e. Shows M L (within M (slot_sec M L cal) start e ds) seconds)
          (reach_strides start 1 (start_min - start) ∙ omega arith)
          (bucket-Shows M L (slot_sec M L cal) (λ t. Unit {0}) 1
            (λ t d g. later (cal.seconds d.time) t) (λ t g. tt) (start_min - start) start ds []
            info.sec none (omega arith) tt in_time info_told.secs refl) in
      let both =
        bucket-Shows M L (slot_min M L cal) (λ t. t % 60 ≡ 0) 60
          (λ t d g. later_minute (cal.seconds d.time) t g) (λ t g. omega arith) n start_min ds
          (within M (slot_sec M L cal) start start_min ds) info.min seconds (omega arith)
          (omega arith) (slot_min-InTime M L cal ds in_time) info_told.mins first in
      let spans : within M (slot_sec M L cal) start start_min ds
            ++ within M (slot_min M L cal) start_min stop ds
          ≡ within M (slot_sec M L cal) start stop ds =
        ap (λ xs. within M (slot_sec M L cal) start start_min ds ++ xs)
          (within_minutes cal start_min stop ds (omega arith) (omega (arith, m)))
        ∙ sym (
            within_split M (slot_sec M L cal) start start_min stop ds (omega arith)
              (reach_ge start_min 60 n) in_time) in
      (
        record { period = period; last = info.last; kinfo = kline_or_zero M kinfo },
        stop,
        rw known refl,
        omega (arith, m),
        omega (arith, m),
        omega (arith, m),
        subst (λ xs. IsStatus xs (kline_or_zero M kinfo)) spans
            (kline_or_zero-IsStatus
              (within M (slot_sec M L cal) start start_min ds
                ++ within M (slot_min M L cal) start_min stop ds)
              kinfo both),
      )
