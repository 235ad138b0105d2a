-- ===== src/Prices/Rows.antt =====
-- The rows of the candle queries of marketprice/mp_message.c: which spans they show, and from what.
use viabtc_server_mac.Prelude.{
  ℕ, zero, suc, ◌+◌, ◌≤◌, ◌<◌, ◌≡◌, refl, subst, Bool-cases, Option, none, some, List, [], ◌∷◌,
  String, ◌⊎◌, inl, inr, ltb, nat_eq, string_eq, arith,
}
use viabtc_server_mac.Platform.{Mpd, Laws}
use viabtc_server_mac.Dict.{Dict}
use viabtc_server_mac.Prices.Kline.{Kline, kline_info_new}
use viabtc_server_mac.Prices.Feed.{Deal}
use viabtc_server_mac.Prices.Query.{Row, bucket, carry_close, rows}
use viabtc_server_mac.Prices.Candle.{IsCandle}
use viabtc_server_mac.Prices.Deals.{Shows, Told}
use viabtc_server_mac.Prices.Windows.{within, InTime, reach, bucket-Shows}

module _ (M : Mpd) (L : Laws M) (slot : Deal M → ℕ) (ds : List (Deal M)) (market : String)
    (interval stop : ℕ) where
  abbrev window : ℕ → List (Deal M)
  window t = within M slot t (t + interval) ds

  -- The rows from a time on, where `klast` stands before them: each has the candle of its span's deals
  -- or, where there are none, the last close; only spans before the first candle have no row; the
  -- spans follow one another up to the last that starts by `stop`.
  pub data Answers : ℕ → Option (Kline M) → List (Row M) → Type 0 where
    done : {t : ℕ} {klast : Option (Kline M)} → stop < t → Answers t klast []
    skipped :
        {t : ℕ} {rs : List (Row M)}
        → t ≤ stop
        → window t ≡ []
        → Answers (t + interval) none rs
        → Answers t none rs
    shown :
        {t : ℕ} {klast : Option (Kline M)} {rs : List (Row M)} (k : Kline M)
        → t ≤ stop
        → IsCandle M L (window t) k
        → Answers (t + interval) (some k) rs
        → Answers t klast (record { timestamp = t; kinfo = k; market = market } ∷ rs)
    flat :
        {t : ℕ} {rs : List (Row M)} (l : Kline M)
        → t ≤ stop
        → window t ≡ []
        → Answers (t + interval) (some (kline_info_new M l.close)) rs
        → Answers t
            (some l)
            (record { timestamp = t; kinfo = kline_info_new M l.close; market = market } ∷ rs)

  -- One round.
  answer :
      (t : ℕ) (klast b : Option (Kline M)) (rest : Option (Kline M) → List (Row M))
      → t ≤ stop
      → Shows M L (window t) b
      → ((o : Option (Kline M)) → Answers (t + interval) o (rest o))
      → Answers t klast (elim (carry_close M b klast) [
        | none ↦ rest none
        | some k ↦ record { timestamp = t; kinfo = k; market = market } ∷ rest (some k)
      ])
  unfolding carry_close
  answer t klast (some k) rest h w next = shown k h w (next (some k))
  answer t none none rest h w next = skipped h w (next none)
  answer t (some l) none rest h w next = flat l h w (next (some (kline_info_new M l.close)))

  -- Times at which the slots of the deals can lie, and rows of whole strides.
  module _ (OnGrid : ℕ → Type 0) (stride step : ℕ)
      (gap : (t : ℕ) (d : Deal M) → OnGrid t → (slot d ≤ t) ⊎ (t + stride ≤ slot d))
      (grid_stride : (t : ℕ) → OnGrid t → OnGrid (t + stride))
      (grid_interval : (t : ℕ) → OnGrid t → OnGrid (t + interval))
      (whole : (t : ℕ) → reach t stride step ≡ t + interval) (dict : Dict ℕ (Kline M))
      (told : Told M L slot ds dict) (in_time : InTime M slot ds) where
    bucket-window :
        (t : ℕ) → 0 < stride → OnGrid t → Shows M L (window t) (bucket M step t stride dict none)
    bucket-window t p g =
        subst (λ e. Shows M L (within M slot t e ds) (bucket M step t stride dict none)) (whole t)
          (bucket-Shows M L slot OnGrid stride gap grid_stride step t ds [] dict none p g in_time
            told refl)

    pub rows-Answers :
        (fuel t : ℕ) (klast : Option (Kline M))
        → stop < fuel + t
        → 0 < stride
        → 0 < interval
        → OnGrid t
        → Answers t klast (rows M fuel market dict stride step t stop interval klast)
    unfolding rows
    rows-Answers zero t klast f p q g = done (omega arith)
    rows-Answers (suc fuel) t klast f p q g = elim (Bool-cases (ltb stop t)) [
      | inl e ↦ rw (e, rows) (done (ground arith))
      | inr e ↦
          rw (e, rows)
            (answer t klast (bucket M step t stride dict none)
              (λ o. rows M fuel market dict stride step (t + interval) stop interval o)
              (ground arith) (bucket-window t p g)
              (λ o. rows-Answers fuel (t + interval) o (omega arith) p q (grid_interval t g)))
    ]
