-- ===== src/Prices/Windows.antt =====
-- The deals of a span of time, in the order of time.
use viabtc_server_mac.Prelude.{
  ℕ, zero, suc, ◌+◌, ◌≤◌, ◌<◌, ◌≡◌, refl, ap, Bool, Bool-cases, false, ◌&&◌, Option, none, some,
  List, [], ◌∷◌, ◌++◌, All, All-map, ◌⊎◌, ◌∙◌, inl, inr, ltb, leb, nat_eq, string_eq, if◌then◌else◌,
  arith,
}
use mathlib.Core.List.{append_assoc, append-nil}
use viabtc_server_mac.Platform.{Mpd, Laws}
use viabtc_server_mac.Dict.{Dict, find}
use viabtc_server_mac.Market.Loop.{Sorted}
use viabtc_server_mac.Prices.Kline.{Kline}
use viabtc_server_mac.Prices.Feed.{Deal}
use viabtc_server_mac.Prices.Query.{bucket, join}
use viabtc_server_mac.Prices.Bounds.{kline_info_merge-IsCandle, first_merge-IsCandle}
use viabtc_server_mac.Prices.Deals.{at_slot, Shows, Told}

-- The time that `n` strides lead to.
abbrev pub reach : ℕ → ℕ → ℕ → ℕ
reach t stride zero = t
reach t stride (suc n) = reach (t + stride) stride n

pub reach_ge : (t stride n : ℕ) → t ≤ reach t stride n
reach_ge t stride zero = omega arith
reach_ge t stride (suc n) = omega (arith, reach_ge (t + stride) stride n)

module _ (M : Mpd) (slot : Deal M → ℕ) where
  abbrev in_span : ℕ → ℕ → Deal M → Bool
  in_span a b d = leb a (slot d) && ltb (slot d) b

  -- The deals from `a` up to `b`.
  abbrev pub within : ℕ → ℕ → List (Deal M) → List (Deal M)
  within a b [] = []
  within a b (d ∷ ds) = if in_span a b d then d ∷ within a b ds else within a b ds

  abbrev pub InTime : List (Deal M) → Type 0
  InTime = Sorted (λ a b. slot a ≤ slot b)

  within_none : (a b : ℕ) (ds : List (Deal M)) → All (λ d. b ≤ slot d) ds → within a b ds ≡ []
  within_none a b [] h = refl
  within_none a b (d ∷ ds) h =
      let e : in_span a b d ≡ false = ground (arith, h.0) in rw (e, within_none a b ds h.1) refl

  within_empty : (a : ℕ) (ds : List (Deal M)) → within a a ds ≡ []
  within_empty a [] = refl
  within_empty a (d ∷ ds) =
      let e : in_span a a d ≡ false = ground arith in rw (e, within_empty a ds) refl

  pub within_split :
      (a b c : ℕ) (ds : List (Deal M))
      → a ≤ b
      → b ≤ c
      → InTime ds
      → within a c ds ≡ within a b ds ++ within b c ds
  within_split a b c [] h k s = refl
  within_split a b c (d ∷ ds) h k s = elim (Bool-cases (ltb (slot d) b)) [
    | inl e ↦ ground (arith, within_split a b c ds h k s.1)
    | inr e ↦
        let later = All-map (λ x. slot d ≤ slot x) (λ x. b ≤ slot x) (λ x r. ground arith) ds s.0 in
        let nothing = within_none a b ds later in
        let rest : within a c ds ≡ within b c ds =
          within_split a b c ds h k s.1 ∙ ap (λ xs. xs ++ within b c ds) nothing in
        ground (arith, nothing, rest)
  ]

  at_slot-within :
      (t stride : ℕ) (ds : List (Deal M))
      → 0 < stride
      → All (λ d. (slot d ≤ t) ⊎ (t + stride ≤ slot d)) ds
      → at_slot M slot t ds ≡ within t (t + stride) ds
  at_slot-within t stride [] p h = refl
  at_slot-within t stride (d ∷ ds) p h = ground (arith, at_slot-within t stride ds p h.1)

module _ (M : Mpd) (L : Laws M) (slot : Deal M → ℕ) where
  join-Shows :
      (ds es : List (Deal M)) (acc o : Option (Kline M))
      → Shows M L ds acc
      → Shows M L es o
      → Shows M L (ds ++ es) (join M acc o)
  unfolding join
  join-Shows ds es acc none h e = rw (e, append-nil ds) h
  join-Shows ds es none (some u) h e = rw h (first_merge-IsCandle M L es u e)
  join-Shows ds es (some k) (some u) h e = kline_info_merge-IsCandle M L ds es k u h e

  -- Times at which the slots of the deals can lie.
  module _ (OnGrid : ℕ → Type 0) (stride : ℕ)
      (gap : (t : ℕ) (d : Deal M) → OnGrid t → (slot d ≤ t) ⊎ (t + stride ≤ slot d))
      (step : (t : ℕ) → OnGrid t → OnGrid (t + stride)) where
    gap-All :
        (t : ℕ) (ds : List (Deal M)) → OnGrid t → All (λ d. (slot d ≤ t) ⊎ (t + stride ≤ slot d)) ds
    gap-All t [] g = tt
    gap-All t (d ∷ ds) g = (gap t d g, gap-All t ds g)

    pub bucket-Shows :
        (n t : ℕ) (ds es : List (Deal M)) (dict : Dict ℕ (Kline M)) (acc : Option (Kline M))
        → 0 < stride
        → OnGrid t
        → InTime M slot ds
        → Told M L slot ds dict
        → Shows M L es acc
        → Shows M L (es ++ within M slot t (reach t stride n) ds) (bucket M n t stride dict acc)
    unfolding bucket
    bucket-Shows zero t ds es dict acc p g s told h = rw (within_empty M slot t ds, append-nil es) h
    bucket-Shows (suc n) t ds es dict acc p g s told h =
        let end = reach (t + stride) stride n in
        let split =
          within_split M slot t (t + stride) end ds (omega arith) (reach_ge (t + stride) stride n)
            s in
        let here = at_slot-within M slot t stride ds p (gap-All t ds g) in
        rw
          (
            split,
            ← here,
            ← append_assoc es (at_slot M slot t ds) (within M slot (t + stride) end ds),
          )
          (bucket-Shows n (t + stride) ds (es ++ at_slot M slot t ds) dict
            (join M acc (find t dict)) p (step t g) s told
            (join-Shows es (at_slot M slot t ds) acc (find t dict) h (told t)))
