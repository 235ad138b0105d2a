-- ===== src/Server/Levels.antt =====
-- The prices of the depth that matchengine/me_server.c answers with.
use viabtc_server_mac.Prelude.{
  subst, ℕ, zero, suc, ◌≡◌, refl, ◌<◌, ◌≤◌, false, List, [], ◌∷◌, is_eq, arith, ◌⊎◌, inl, inr, All,
  All-map, length, Bool-cases,
}
use viabtc_server_mac.Platform.{Mpd, Laws}
use viabtc_server_mac.Market.Order.{Order, Market}
use viabtc_server_mac.Market.Loop.{Sorted, IsLive}
use viabtc_server_mac.Market.Invariant.{IsBook, AskBefore, BidBefore}
use viabtc_server_mac.Server.Depth.{depth_from, depth_side, get_depth}

module _ (M : Mpd) (L : Laws M) (Lt : ℕ → ℕ → Type 0)
    (trans : (a b c : ℕ) → Lt a b → Lt b c → Lt a c) where
  abbrev Beyond : M.Decimal → M.Decimal → Type 0
  Beyond p q = Lt (L.units p) (L.units q)

  abbrev AtLeast : M.Decimal → M.Decimal → Type 0
  AtLeast p q = (L.units p ≡ L.units q) ⊎ Beyond p q

  abbrev Rising : List (M.Decimal × M.Decimal) → Type 0
  Rising = Sorted (λ a b. Beyond a.0 b.0)

  Beyond-trans : (p q r : M.Decimal) → Beyond p q → AtLeast q r → Beyond p r
  Beyond-trans p q r h (inl e) = subst (λ n. Lt (L.units p) n) e h
  Beyond-trans p q r h (inr k) = trans (L.units p) (L.units q) (L.units r) h k

  apart :
      (p q : M.Decimal)
      → L.IsAmount p
      → L.IsAmount q
      → AtLeast p q
      → is_eq (M.cmp p q) ≡ false
      → Beyond p q
  apart p q hp hq (inl e) n = absurd (ground (arith, L.cmp_units p q hp hq))
  apart p q hp hq (inr k) n = k

  -- The orders of a side in the order of their prices.
  abbrev Graded : List (Order M) → Type 0
  Graded = Sorted (λ a b. AtLeast a.price b.price)

  depth_from-AtLeast :
      (room : ℕ) (p a : M.Decimal) (os : List (Order M))
      → L.IsAmount p
      → All (IsLive M L) os
      → All (λ o. AtLeast p o.price) os
      → Graded os
      → All (λ e. AtLeast p e.0) (depth_from M room p a os)
  unfolding depth_from
  depth_from-AtLeast room p a [] hp l h g = (inl refl, tt)
  depth_from-AtLeast zero p a (o ∷ os) hp l h g = elim (Bool-cases (is_eq (M.cmp p o.price))) [
    | inl e ↦ rw (e, depth_from) (depth_from-AtLeast zero p (M.add a o.left) os hp l.1 h.1 g.1)
    | inr e ↦ rw (e, depth_from) (inl refl, tt)
  ]
  depth_from-AtLeast (suc room) p a (o ∷ os) hp l h g =
      elim (Bool-cases (is_eq (M.cmp p o.price))) [
        | inl e ↦
            rw (e, depth_from) (depth_from-AtLeast (suc room) p (M.add a o.left) os hp l.1 h.1 g.1)
        | inr e ↦
            let b = apart p o.price hp l.0.price_amount h.0 e in
            rw (e, depth_from)
              (
                inl refl,
                All-map (λ x. AtLeast o.price x.0) (λ x. AtLeast p x.0)
                    (λ x k. inr (Beyond-trans p o.price x.0 b k))
                    (depth_from M room o.price o.left os)
                    (depth_from-AtLeast room o.price o.left os l.0.price_amount l.1 g.0 g.1),
              )
      ]

  depth_from-Rising :
      (room : ℕ) (p a : M.Decimal) (os : List (Order M))
      → L.IsAmount p
      → All (IsLive M L) os
      → All (λ o. AtLeast p o.price) os
      → Graded os
      → Rising (depth_from M room p a os)
  unfolding depth_from
  depth_from-Rising room p a [] hp l h g = (tt, tt)
  depth_from-Rising zero p a (o ∷ os) hp l h g = elim (Bool-cases (is_eq (M.cmp p o.price))) [
    | inl e ↦ rw (e, depth_from) (depth_from-Rising zero p (M.add a o.left) os hp l.1 h.1 g.1)
    | inr e ↦ rw (e, depth_from) (tt, tt)
  ]
  depth_from-Rising (suc room) p a (o ∷ os) hp l h g = elim (Bool-cases (is_eq (M.cmp p o.price))) [
    | inl e ↦ rw (e, depth_from) (depth_from-Rising (suc room) p (M.add a o.left) os hp l.1 h.1 g.1)
    | inr e ↦
        let b = apart p o.price hp l.0.price_amount h.0 e in
        rw (e, depth_from)
          (
            All-map (λ x. AtLeast o.price x.0) (λ x. Beyond p x.0)
                (λ x k. Beyond-trans p o.price x.0 b k) (depth_from M room o.price o.left os)
                (depth_from-AtLeast room o.price o.left os l.0.price_amount l.1 g.0 g.1),
            depth_from-Rising room o.price o.left os l.0.price_amount l.1 g.0 g.1,
          )
  ]

  pub depth_side-Rising :
      (room : ℕ) (os : List (Order M))
      → All (IsLive M L) os
      → Graded os
      → Rising (depth_side M room os)
  unfolding depth_side
  depth_side-Rising zero os l g = tt
  depth_side-Rising (suc room) [] l g = tt
  depth_side-Rising (suc room) (o ∷ os) l g =
      depth_from-Rising room o.price o.left os l.0.price_amount l.1 g.0 g.1

length-depth_from :
    (M : Mpd) (room : ℕ) (p a : M.Decimal) (os : List (Order M))
    → length (depth_from M room p a os) ≤ suc room
unfolding depth_from
length-depth_from M room p a [] = omega arith
length-depth_from M zero p a (o ∷ os) =
    ground (arith, length-depth_from M zero p (M.add a o.left) os)
length-depth_from M (suc room) p a (o ∷ os) = ground (
  arith,
  length-depth_from M (suc room) p (M.add a o.left) os,
  length-depth_from M room o.price o.left os,
)

length-depth_side :
    (M : Mpd) (room : ℕ) (os : List (Order M)) → length (depth_side M room os) ≤ room
unfolding depth_side
length-depth_side M zero os = omega arith
length-depth_side M (suc room) [] = omega arith
length-depth_side M (suc room) (o ∷ os) = length-depth_from M room o.price o.left os

Sorted-map :
    {A : Type 0} (R S : A → A → Type 0) (f : (a b : A) → R a b → S a b) (xs : List A)
    → Sorted R xs
    → Sorted S xs
Sorted-map R S f [] h = tt
Sorted-map R S f (x ∷ xs) h = (All-map (R x) (S x) (f x) xs h.0, Sorted-map R S f xs h.1)

module _ (M : Mpd) (L : Laws M) where
  ask_grade :
      (a b : Order M)
      → AskBefore M L a b
      → (L.units a.price ≡ L.units b.price) ⊎ (L.units a.price < L.units b.price)
  ask_grade a b (inl h) = inr h
  ask_grade a b (inr h) = inl h.0

  bid_grade :
      (a b : Order M)
      → BidBefore M L a b
      → (L.units a.price ≡ L.units b.price) ⊎ (L.units b.price < L.units a.price)
  bid_grade a b (inl h) = inr h
  bid_grade a b (inr h) = inl h.0

  -- The depth of a market has at most `limit` entries on each side; no price stands there twice: the
  -- prices of the asks rise strictly, and those of the bids fall strictly. Condition: the order book
  -- keeps its invariant.
  pub get_depth_levels :
      (top limit : ℕ) (m : Market M)
      → IsBook M L top m
      → Sorted (λ a b. L.units a.0 < L.units b.0) (get_depth M m limit).0
        × Sorted (λ a b. L.units b.0 < L.units a.0) (get_depth M m limit).1
        × (length (get_depth M m limit).0 ≤ limit)
        × (length (get_depth M m limit).1 ≤ limit)
  unfolding get_depth
  get_depth_levels top limit m b = (
    depth_side-Rising M L (λ i j. i < j) (λ i j k h l. omega arith) limit m.asks b.asks_live
        (Sorted-map _ _ ask_grade m.asks b.asks_sorted),
    depth_side-Rising M L (λ i j. j < i) (λ i j k h l. omega arith) limit m.bids b.bids_live
        (Sorted-map _ _ bid_grade m.bids b.bids_sorted),
    length-depth_side M limit m.asks,
    length-depth_side M limit m.bids,
  )
