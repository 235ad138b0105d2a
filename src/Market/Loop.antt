-- ===== src/Market/Loop.antt =====
-- The matching loop over a book side that is sorted by a priority: what it leaves of the side. Both
-- limit loops are instances.
use viabtc_server_mac.Prelude.{
  none, All-map, ◌∙◌, some, Option, ◌⊎◌, ◌≡◌, refl, false, List, [], ◌∷◌, arith, is_eq, is_lt,
  Bool-cases, inl, inr, ◌<◌, All,
}
use viabtc_server_mac.Platform.{Mpd, Laws}
use viabtc_server_mac.Market.Order.{Engine, Market, Order}
use viabtc_server_mac.Market.Match.{Run, execute, keep}
use viabtc_server_mac.Market.Facts.{
  SameOrder-refl, SameOrder-trans, SameOrder, TradeFacts, MakerAfter,
}
use viabtc_server_mac.Market.Trade.{deal, Traded, stop, Quote, common_amount}

-- A list in which every member stands before all the later ones.
abbrev pub Sorted {ℓ κ} : {A : Type ℓ} → (A → A → Type κ) → List A → Type κ
Sorted R [] = Unit
Sorted R (x ∷ xs) = All (R x) xs × Sorted R xs

module _ (M : Mpd) (L : Laws M) where
  -- An order in the book: its price and what is left of it are amounts, and something is left.
  pub record IsLive (o : Order M) : Type 0 where
    pub price_amount : L.IsAmount o.price
    pub left_amount : L.IsAmount o.left
    pub left_pos : 0 < L.units o.left

  -- What two amounts leave of each other, when the smaller is taken from both.
  pub common_left :
      (taker maker : Order M)
      → L.IsAmount taker.left
      → IsLive maker
      → let a = common_amount M taker maker in
        L.IsAmount (M.sub taker.left a)
        × L.IsAmount (M.sub maker.left a)
        × (is_eq (M.cmp (M.sub maker.left a) M.mpd_zero) ≡ false
            → (0 < L.units (M.sub maker.left a)) × (L.units (M.sub taker.left a) ≡ 0))
  unfolding common_amount
  common_left taker maker h live =
      let c = L.cmp_units taker.left maker.left h live.left_amount in
      elim (Bool-cases (is_lt (M.cmp taker.left maker.left))) [
        | inl p ↦
            let s = L.sub_amount maker.left taker.left live.left_amount h (ground arith) in
            let t = L.sub_amount taker.left taker.left h h (omega arith) in
            let z = L.cmp_units (M.sub maker.left taker.left) M.mpd_zero s.0 L.zero_amount in
            rw p (t.0, s.0, λ k. (ground (arith, s.2, s.3, L.units-zero), t.3 refl))
        | inr p ↦
            let s = L.sub_amount taker.left maker.left h live.left_amount (ground arith) in
            let t =
              L.sub_amount maker.left maker.left live.left_amount live.left_amount (omega arith) in
            let z = L.cmp_units (M.sub maker.left maker.left) M.mpd_zero t.0 L.zero_amount in
            rw p (s.0, t.0, λ k. absurd (ground (arith, t.3, L.units-zero)))
      ]

  -- A property of an order that only looks at what no deal changes.
  abbrev pub IsStable : (Order M → Type 0) → Type 0
  IsStable P = (a b : Order M) → SameOrder M a b → P b → P a

  -- A loop with nothing to deal leaves the side and the taker as they are.
  abbrev pub Stops : (Order M → Order M → Quote M) → Type 0
  Stops quote =
      (taker maker : Order M)
      → L.units taker.left ≡ 0
      → L.IsAmount taker.left
      → quote taker maker ≡ stop

  -- What a loop leaves: the taker with an amount left, live makers in their order, and every maker
  -- beyond the taker's price unless nothing is left of the taker.
  pub record LoopFacts (Beyond : Order M → Type 0) (m : Market M) (taker : Order M) (r : Run M)
      : Type 0 where
    pub taker_same : SameOrder M r.taker taker
    pub left_amount : L.IsAmount r.taker.left
    pub asks_same : r.market.asks ≡ m.asks
    pub bids_same : r.market.bids ≡ m.bids
    pub live : All IsLive r.makers
    pub exhausted : (L.units r.taker.left ≡ 0) ⊎ All Beyond r.makers

  execute_done :
      (quote : Order M → Order M → Quote M)
      (trade : Engine M → Market M → Order M → Order M → M.Decimal → Traded M)
      → Stops quote
      → (e : Engine M) (m : Market M) (taker : Order M) (xs : List (Order M))
      → L.units taker.left ≡ 0
      → L.IsAmount taker.left
      → ((execute M quote trade e m taker xs).taker ≡ taker)
        × ((execute M quote trade e m taker xs).makers ≡ xs)
  unfolding execute
  execute_done quote trade stops e m taker [] z h = (refl, refl)
  execute_done quote trade stops e m taker (x ∷ xs) z h =
      rw (stops taker x z h, execute) (refl, refl)

  module _ (quote : Order M → Order M → Quote M)
      (trade : Engine M → Market M → Order M → Order M → M.Decimal → Traded M)
      (Beyond : Order M → Order M → Type 0) (Before : Order M → Order M → Type 0)
      (stops : Stops quote)
      (quoted : (taker maker : Order M)
        → L.IsAmount taker.left
        → L.IsAmount taker.price
        → IsLive maker
        → ((quote taker maker ≡ stop) × ((L.units taker.left ≡ 0) ⊎ Beyond taker maker))
          ⊎ (quote taker maker ≡ deal (common_amount M taker maker)))
      (facts : (e : Engine M) (m : Market M) (taker maker : Order M) (a : M.Decimal)
        → TradeFacts M m taker maker a a (trade e m taker maker a))
      (beyond_same : (s t o : Order M) → SameOrder M s t → Beyond s o → Beyond t o)
      (beyond_later : (t a b : Order M) → Before a b → Beyond t a → Beyond t b) where
    All-Beyond :
        (t a : Order M) (xs : List (Order M)) → Beyond t a → All (Before a) xs → All (Beyond t) xs
    All-Beyond t a [] h k = tt
    All-Beyond t a (x ∷ xs) h k = (beyond_later t a x k.0 h, All-Beyond t a xs h k.1)

    -- A maker that is finished leaves the list.
    dropped-LoopFacts :
        (m : Market M) (taker x : Order M) (a : M.Decimal) (t : Traded M) (rest : Run M)
        → TradeFacts M m taker x a a t
        → LoopFacts (Beyond t.taker) t.market t.taker rest
        → LoopFacts (Beyond taker) m taker rest
    dropped-LoopFacts m taker x a t rest f l = record {
      taker_same = SameOrder-trans M rest.taker t.taker taker l.taker_same f.taker_same;
      left_amount = l.left_amount;
      asks_same = l.asks_same ∙ f.asks_same;
      bids_same = l.bids_same ∙ f.bids_same;
      live = l.live;
      exhausted = elim l.exhausted [
        | inl z ↦ inl z
        | inr b ↦ inr (
            All-map (Beyond t.taker) (Beyond taker) (λ o. beyond_same t.taker taker o f.taker_same)
              rest.makers b)
      ];
    }

    -- A maker that is not finished stays, and nothing is left of the taker.
    kept-LoopFacts :
        (m : Market M) (taker x o : Order M) (a : M.Decimal) (t : Traded M) (rest : Run M)
        → TradeFacts M m taker x a a t
        → LoopFacts (Beyond t.taker) t.market t.taker rest
        → IsLive o
        → rest.taker ≡ t.taker
        → L.units t.taker.left ≡ 0
        → LoopFacts (Beyond taker) m taker (record rest { makers = o ∷ rest.makers })
    kept-LoopFacts m taker x o a t rest f l live same z = record {
      taker_same = SameOrder-trans M rest.taker t.taker taker l.taker_same f.taker_same;
      left_amount = l.left_amount;
      asks_same = l.asks_same ∙ f.asks_same;
      bids_same = l.bids_same ∙ f.bids_same;
      live = (live, l.live);
      exhausted = inl (rw same z);
    }

    after-LoopFacts :
        (m : Market M) (taker x : Order M) (a : M.Decimal) (t : Traded M) (rest : Run M)
        (o : Option (Order M))
        → TradeFacts M m taker x a a t
        → LoopFacts (Beyond t.taker) t.market t.taker rest
        → MakerAfter M x a o
        → IsLive x
        → L.IsAmount (M.sub x.left a)
        → (is_eq (M.cmp (M.sub x.left a) M.mpd_zero) ≡ false
            → (0 < L.units (M.sub x.left a)) × (L.units (M.sub taker.left a) ≡ 0))
        → (L.units t.taker.left ≡ 0 → rest.taker ≡ t.taker)
        → LoopFacts (Beyond taker) m taker (record rest { makers = keep o rest.makers })
    after-LoopFacts m taker x a t rest none f l after live am left done =
        dropped-LoopFacts m taker x a t rest f l
    after-LoopFacts m taker x a t rest (some o) f l (open_, oleft, same) live am left done =
        let z : L.units t.taker.left ≡ 0 = rw f.taker_left (left open_).1 in
        kept-LoopFacts m taker x o a t rest f l
          (record {
            price_amount = rw same.same_price live.price_amount;
            left_amount = rw oleft am;
            left_pos = rw oleft (left open_).0;
          })
          (done z) z

    pub execute-LoopFacts :
        (e : Engine M) (m : Market M) (taker : Order M) (xs : List (Order M))
        → L.IsAmount taker.left
        → L.IsAmount taker.price
        → All IsLive xs
        → Sorted Before xs
        → LoopFacts (Beyond taker) m taker (execute M quote trade e m taker xs)
    unfolding execute
    execute-LoopFacts e m taker [] h p live s = record {
      taker_same = SameOrder-refl M taker;
      left_amount = h;
      asks_same = refl;
      bids_same = refl;
      live = tt;
      exhausted = inr tt;
    }
    execute-LoopFacts e m taker (x ∷ xs) h p live s = elim (quoted taker x h p live.0) [
      | inl (q, why) ↦
          rw (q, execute)
            (record {
              taker_same = SameOrder-refl M taker;
              left_amount = h;
              asks_same = refl;
              bids_same = refl;
              live = live;
              exhausted = elim why [ inl z ↦ inl z | inr b ↦ inr (b, All-Beyond taker x xs b s.0) ];
            })
      | inr q ↦
          let a = common_amount M taker x in
          let t = trade e m taker x a in
          let f = facts e m taker x a in
          let c = common_left taker x h live.0 in
          let h' : L.IsAmount t.taker.left = rw f.taker_left c.0 in
          let p' : L.IsAmount t.taker.price = rw f.taker_same.same_price p in
          let rest = execute M quote trade t.engine t.market t.taker xs in
          let l = execute-LoopFacts t.engine t.market t.taker xs h' p' live.1 s.1 in
          rw (q, execute)
            (after-LoopFacts m taker x a t rest t.maker f l f.maker_after live.0 c.1 c.2
              (λ z. (execute_done quote trade stops t.engine t.market t.taker xs z h').0))
    ]
