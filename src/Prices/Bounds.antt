-- ===== src/Prices/Bounds.antt =====
-- The functions of marketprice/mp_kline.c make the candles of the deals that they are told.
use viabtc_server_mac.Prelude.{
  ◌≤◌, ◌≡◌, refl, sym, ap, subst, Bool-cases, List, [], ◌∷◌, ◌++◌, All, All-append, All-map, is_lt,
  is_gt, ◌⊎◌, ◌∙◌, inl, inr, nat_eq, string_eq, arith,
}
use mathlib.Core.List.{append_assoc}
use viabtc_server_mac.Platform.{Mpd, Laws}
use viabtc_server_mac.Prices.Kline.{
  Kline, kline_info_new, kline_info_update, kline_info_merge, raise, sink,
}
use viabtc_server_mac.Prices.Feed.{Deal}
use viabtc_server_mac.Prices.Candle.{IsSeen, nothing, one, both, money, IsCandle}

module _ (M : Mpd) where
  IsSeen-left : (p : M.Decimal) (ds es : List (Deal M)) → IsSeen M p ds → IsSeen M p (ds ++ es)
  IsSeen-left p ds es (front, d, back, e, q) =
      (front, d, back ++ es, rw e (append_assoc front (d ∷ back) es), q)

  IsSeen-right : (p : M.Decimal) (ds es : List (Deal M)) → IsSeen M p es → IsSeen M p (ds ++ es)
  IsSeen-right p ds es (front, d, back, e, q) =
      (ds ++ front, d, back, rw e (sym (append_assoc ds front (d ∷ back))), q)

module _ (M : Mpd) (L : Laws M) where
  raise_lem :
      (a b : M.Decimal)
      → L.IsAmount a
      → L.IsAmount b
      → (L.units a ≤ L.units (raise M a b))
        × (L.units b ≤ L.units (raise M a b))
        × ((raise M a b ≡ a) ⊎ (raise M a b ≡ b))
  unfolding raise
  raise_lem a b ha hb = elim (Bool-cases (is_gt (M.cmp b a))) [
    | inl e ↦ rw e (ground (arith, L.cmp_units b a hb ha), omega arith, inr refl)
    | inr e ↦ rw e (omega arith, ground (arith, L.cmp_units b a hb ha), inl refl)
  ]

  sink_lem :
      (a b : M.Decimal)
      → L.IsAmount a
      → L.IsAmount b
      → (L.units (sink M a b) ≤ L.units a)
        × (L.units (sink M a b) ≤ L.units b)
        × ((sink M a b ≡ a) ⊎ (sink M a b ≡ b))
  unfolding sink
  sink_lem a b ha hb = elim (Bool-cases (is_lt (M.cmp b a))) [
    | inl e ↦ rw e (ground (arith, L.cmp_units b a hb ha), omega arith, inr refl)
    | inr e ↦ rw e (omega arith, ground (arith, L.cmp_units b a hb ha), inl refl)
  ]

  picked : (P : M.Decimal → Type 0) (r a b : M.Decimal) → (r ≡ a) ⊎ (r ≡ b) → P a → P b → P r
  picked P r a b (inl e) ha hb = subst P (sym e) ha
  picked P r a b (inr e) ha hb = subst P (sym e) hb

  abbrev Within : M.Decimal → M.Decimal → Deal M → Type 0
  Within low high d = (L.units low ≤ L.units d.price) × (L.units d.price ≤ L.units high)

  Within-mono :
      (a b c e : M.Decimal) (ds : List (Deal M))
      → L.units c ≤ L.units a
      → L.units b ≤ L.units e
      → All (Within a b) ds
      → All (Within c e) ds
  Within-mono a b c e ds h k w =
      All-map (Within a b) (Within c e) (λ d x. (omega (arith, x.0), omega (arith, x.1))) ds w

  -- A candle that takes its ends and extremes from two candles in turn.
  joined :
      (ds es : List (Deal M)) (k u j : Kline M)
      → IsCandle M L ds k
      → IsCandle M L es u
      → j.«open» ≡ k.«open»
      → j.close ≡ u.close
      → j.high ≡ raise M k.high u.high
      → j.low ≡ sink M k.low u.low
      → j.volume ≡ M.add k.volume u.volume
      → j.deal ≡ M.add k.deal u.deal
      → IsCandle M L (ds ++ es) j
  joined ds es k u j c e o cl h l v m =
      let (hk, hu, hs) = raise_lem k.high u.high c.high_amount e.high_amount in
      let (lk, lu, ls) = sink_lem k.low u.low c.low_amount e.low_amount in
      record {
        first = c.first;
        rest = c.rest ++ es;
        starts = rw c.starts refl;
        first_amount = c.first_amount;
        opened = o ∙ c.opened;
        front = ds ++ e.front;
        final = e.final;
        ends = ap (λ xs. ds ++ xs) e.ends ∙ sym (append_assoc ds e.front (e.final ∷ []));
        closed = cl ∙ e.closed;
        volume = rw v (both c.volume e.volume);
        deal = rw m (both c.deal e.deal);
        high_seen = rw h (
            picked (λ p. IsSeen M p (ds ++ es)) (raise M k.high u.high) k.high u.high hs
              (IsSeen-left M k.high ds es c.high_seen) (IsSeen-right M u.high ds es e.high_seen));
        low_seen = rw l (
            picked (λ p. IsSeen M p (ds ++ es)) (sink M k.low u.low) k.low u.low ls
              (IsSeen-left M k.low ds es c.low_seen) (IsSeen-right M u.low ds es e.low_seen));
        bounds =
            rw (h, l)
              (All-append (Within (sink M k.low u.low) (raise M k.high u.high)) ds es
                (Within-mono k.low k.high (sink M k.low u.low) (raise M k.high u.high) ds lk hk
                  c.bounds)
                (Within-mono u.low u.high (sink M k.low u.low) (raise M k.high u.high) es lu hu
                  e.bounds));
        high_amount = rw h (
            picked L.IsAmount (raise M k.high u.high) k.high u.high hs c.high_amount e.high_amount);
        low_amount =
            rw l (picked L.IsAmount (sink M k.low u.low) k.low u.low ls c.low_amount e.low_amount);
      }

  -- A candle that was started again from its opening price.
  reopened :
      (es : List (Deal M)) (u j : Kline M)
      → IsCandle M L es u
      → j.«open» ≡ u.«open»
      → j.close ≡ u.close
      → j.high ≡ raise M u.«open» u.high
      → j.low ≡ sink M u.«open» u.low
      → j.volume ≡ M.add M.mpd_zero u.volume
      → j.deal ≡ M.add M.mpd_zero u.deal
      → IsCandle M L es j
  reopened es u j e o cl h l v m =
      let amount : L.IsAmount u.«open» = subst L.IsAmount (sym e.opened) e.first_amount in
      let seen : IsSeen M u.«open» es = ([], e.first, e.rest, e.starts, sym e.opened) in
      let (hk, hu, hs) = raise_lem u.«open» u.high amount e.high_amount in
      let (lk, lu, ls) = sink_lem u.«open» u.low amount e.low_amount in
      record {
        first = e.first;
        rest = e.rest;
        starts = e.starts;
        first_amount = e.first_amount;
        front = e.front;
        final = e.final;
        ends = e.ends;
        opened = o ∙ e.opened;
        closed = cl ∙ e.closed;
        volume = rw v (both nothing e.volume);
        deal = rw m (both nothing e.deal);
        high_seen = rw h (
            picked (λ p. IsSeen M p es) (raise M u.«open» u.high) u.«open» u.high hs seen
              e.high_seen);
        low_seen =
            rw l (
              picked (λ p. IsSeen M p es) (sink M u.«open» u.low) u.«open» u.low ls seen
                e.low_seen);
        bounds =
            rw (h, l)
              (Within-mono u.low u.high (sink M u.«open» u.low) (raise M u.«open» u.high) es lu hu
                e.bounds);
        high_amount =
            rw h
              (picked L.IsAmount (raise M u.«open» u.high) u.«open» u.high hs amount e.high_amount);
        low_amount =
            rw l (picked L.IsAmount (sink M u.«open» u.low) u.«open» u.low ls amount e.low_amount);
      }

  -- The candle of one deal.
  abbrev single : Deal M → Kline M
  single d = record {
    «open» = d.price;
    close = d.price;
    high = d.price;
    low = d.price;
    volume = d.amount;
    deal = money M d;
  }

  single-IsCandle : (d : Deal M) → L.IsAmount d.price → IsCandle M L (d ∷ []) (single d)
  single-IsCandle d h = record {
    first = d;
    rest = [];
    starts = refl;
    first_amount = h;
    opened = refl;
    front = [];
    final = d;
    ends = refl;
    closed = refl;
    high_seen = ([], d, [], refl, refl);
    low_seen = ([], d, [], refl, refl);
    bounds = ((omega arith, omega arith), tt);
    volume = one d;
    deal = one d;
    high_amount = h;
    low_amount = h;
  }

  -- The four ways in which the code makes a candle.
  pub kline_info_update-IsCandle :
      (ds : List (Deal M)) (k : Kline M) (d : Deal M)
      → IsCandle M L ds k
      → L.IsAmount d.price
      → IsCandle M L (ds ++ d ∷ []) (kline_info_update M k d.price d.amount)
  unfolding kline_info_update
  kline_info_update-IsCandle ds k d c h =
      joined ds (d ∷ []) k (single d) (kline_info_update M k d.price d.amount) c
        (single-IsCandle d h) refl refl refl refl refl refl

  pub first_update-IsCandle :
      (d : Deal M)
      → L.IsAmount d.price
      → IsCandle M L (d ∷ []) (kline_info_update M (kline_info_new M d.price) d.price d.amount)
  unfolding kline_info_update kline_info_new
  first_update-IsCandle d h =
      reopened (d ∷ []) (single d) (kline_info_update M (kline_info_new M d.price) d.price d.amount)
        (single-IsCandle d h) refl refl refl refl refl refl

  pub kline_info_merge-IsCandle :
      (ds es : List (Deal M)) (k u : Kline M)
      → IsCandle M L ds k
      → IsCandle M L es u
      → IsCandle M L (ds ++ es) (kline_info_merge M k u)
  unfolding kline_info_merge
  kline_info_merge-IsCandle ds es k u c e =
      joined ds es k u (kline_info_merge M k u) c e refl refl refl refl refl refl

  pub first_merge-IsCandle :
      (es : List (Deal M)) (u : Kline M)
      → IsCandle M L es u
      → IsCandle M L es (kline_info_merge M (kline_info_new M u.«open») u)
  unfolding kline_info_merge kline_info_new
  first_merge-IsCandle es u e =
      reopened es u (kline_info_merge M (kline_info_new M u.«open») u) e refl refl refl refl refl
        refl
