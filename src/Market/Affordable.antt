-- ===== src/Market/Affordable.antt =====
-- The amount that a market order may buy (the inner loop of `execute_market_bid_order` in
-- matchengine/me_market.c).
use viabtc_server_mac.Prelude.{
  subst, Nat-cases, ℕ, zero, suc, ◌*◌, ◌≤◌, ◌<◌, ◌≡◌, refl, sym, ◌∙◌, true, false, some, arith,
  is_gt, is_eq, ◌||◌, Bool-cases, ◌⊎◌, inl, inr,
}
use viabtc_server_mac.Platform.{Mpd, Laws}
use viabtc_server_mac.Market.Order.{Order}
use viabtc_server_mac.Market.Trade.{stop, deal, affordable, market_bid_quote}

module _ (M : Mpd) (L : Laws M) where
  abbrev pub IsDear : M.Decimal → M.Decimal → M.Decimal → Type 0
  IsDear x price funds = is_gt (M.cmp (M.mul x price) funds) ≡ true

  -- `x` is `k` steps of the precision `p`.
  abbrev pub IsSteps : ℕ → ℕ → M.Decimal → Type 0
  IsSteps p k x = L.IsAmount x × (L.units x ≡ k * L.quantum p)

  -- What costs more than the funds is more than nothing.
  dear-zero :
      (x price funds : M.Decimal)
      → L.IsAmount x
      → L.IsAmount price
      → L.IsAmount funds
      → is_gt (M.cmp (M.mul x price) funds) ≡ true
      → L.units x ≡ 0
      → ⊥
  dear-zero x price funds hx hp hf d z = ground (
    arith,
    L.cmp_units (M.mul x price) funds (L.mul_amount x price hx hp) hf,
    L.mul_zero x price hx hp z,
  )

  -- One step less.
  lower_step :
      (p k : ℕ) (x : M.Decimal)
      → IsSteps p (suc k) x
      → suc k < L.capacity
      → IsSteps p k (M.sub x (M.pow M.mpd_ten (M.set_minus p)))
  lower_step p k x (hx, ex) c =
      let one = L.step_exact p in
      let step = M.pow M.mpd_ten (M.set_minus p) in
      (
        (L.sub_amount x step hx one.0 (ground (arith, one.1, ex))).0,
        L.sub_exact x step p k hx one.0 (ground (arith, one.1, ex)) (omega arith),
      )

  -- What the loop returns for `k` steps: as many steps as it takes until the price is covered.
  pub record Bought (p k : ℕ) (price funds : M.Decimal) (y : M.Decimal) : Type 0 where
    pub steps : ℕ
    pub is_steps : IsSteps p steps y
    pub steps_le : steps ≤ k
    pub covered : is_gt (M.cmp (M.mul y price) funds) ≡ false
    -- One step more is dear, unless the loop has taken none.
    pub most : (steps ≡ k) ⊎ ((z : M.Decimal) × IsSteps p (suc steps) z × IsDear z price funds)

  one_more :
      (p k : ℕ) (x price funds y : M.Decimal)
      → IsSteps p (suc k) x
      → IsDear x price funds
      → Bought p k price funds y
      → Bought p (suc k) price funds y
  one_more p k x price funds y hx d b = record {
    steps = b.steps;
    is_steps = b.is_steps;
    steps_le = (let h = b.steps_le in omega arith);
    covered = b.covered;
    most = elim b.most [
      | inl e ↦ inr (x, subst (λ n. IsSteps p (suc n) x) (sym e) hx, d)
      | inr z ↦ inr z
    ];
  }

  pub affordable_returns :
      (fuel p k : ℕ) (funds price x : M.Decimal)
      → L.IsAmount funds
      → L.IsAmount price
      → IsSteps p k x
      → k < L.capacity
      → k < fuel
      → (y : M.Decimal) × (affordable M fuel p funds price x ≡ some y) × Bought p k price funds y
  unfolding affordable
  affordable_returns zero p k funds price x hf hp hx c l = absurd (omega arith)
  affordable_returns (suc fuel) p k funds price x hf hp hx c l =
      elim (Bool-cases (is_gt (M.cmp (M.mul x price) funds))) [
        | inr e ↦ (
          x,
          rw e refl,
          record { steps = k; is_steps = hx; steps_le = omega arith; covered = e; most = inl refl },
        )
        | inl e ↦ elim (Nat-cases k) [
          | inl z ↦ absurd (dear-zero x price funds hx.0 hp hf e (hx.1 ∙ rw z (omega arith)))
          | inr (j, s) ↦
              let hx' = subst (λ n. IsSteps p n x) s hx in
              let (y, f, b) =
                affordable_returns fuel p j funds price (M.sub x (M.pow M.mpd_ten (M.set_minus p)))
                  hf hp (lower_step p j x hx' (omega arith)) (omega arith) (omega arith) in
              (
                y,
                rw e f,
                subst (λ n. Bought p n price funds y) (sym s)
                    (one_more p j x price funds y hx' e b),
              )
        ]
      ]

  -- What is not more than a covered amount is covered.
  covered_less :
      (a y price funds : M.Decimal)
      → L.IsAmount a
      → L.IsAmount y
      → L.IsAmount price
      → L.IsAmount funds
      → L.units a ≤ L.units y
      → is_gt (M.cmp (M.mul y price) funds) ≡ false
      → is_gt (M.cmp (M.mul a price) funds) ≡ false
  covered_less a y price funds ha hy hp hf l c = ground (
    arith,
    L.cmp_units (M.mul a price) funds (L.mul_amount a price ha hp) hf,
    L.cmp_units (M.mul y price) funds (L.mul_amount y price hy hp) hf,
    L.mul_mono a y price ha hy hp l,
  )

  -- What a market order to buy does about a maker: it stops, or it deals in an amount that the
  -- maker has left and whose price its own money covers. It never hangs. Conditions: the amounts are
  -- finite and not negative, the quotient of money and price, once rounded, is `k` steps of the
  -- stock's precision with `k` below the decimals' capacity, and the fuel is more than `k`.
  pub market_bid_quote_covered :
      (fuel p k : ℕ) (taker maker : Order M)
      → L.IsAmount taker.left
      → L.IsAmount maker.price
      → L.IsAmount maker.left
      → IsSteps p k (M.rescale (M.div taker.left maker.price) p)
      → k < L.capacity
      → k < fuel
      → (market_bid_quote M fuel p taker maker ≡ stop)
        ⊎ ((a : M.Decimal) × (market_bid_quote M fuel p taker maker ≡ deal a)
            × (is_gt (M.cmp a maker.left) ≡ false)
            × (is_gt (M.cmp (M.mul a maker.price) taker.left) ≡ false))
  unfolding market_bid_quote
  market_bid_quote_covered fuel p k taker maker ht hp hm hx c l =
      let (y, f, b) =
        affordable_returns fuel p k taker.left maker.price
          (M.rescale (M.div taker.left maker.price) p) ht hp hx c l in
      let hy = b.is_steps.0 in
      let by_maker = covered_less maker.left y maker.price taker.left hm hy hp ht in
      let kept = b.covered in
      elim (Bool-cases (is_gt (M.cmp y maker.left))) [
        | inl g ↦
            elim (Bool-cases
              (is_eq (M.cmp taker.left M.mpd_zero) || is_eq (M.cmp maker.left M.mpd_zero))) [
                | inl s ↦ inl (ground arith)
                | inr s ↦ inr (
                  maker.left,
                  ground arith,
                  ground (arith, L.cmp_units maker.left maker.left hm hm),
                  by_maker (ground (arith, L.cmp_units y maker.left hy hm)) kept,
                )
              ]
        | inr g ↦
            elim (Bool-cases (is_eq (M.cmp taker.left M.mpd_zero) || is_eq (M.cmp y M.mpd_zero))) [
              | inl s ↦ inl (ground arith)
              | inr s ↦ inr (y, ground arith, g, kept)
            ]
      ]
