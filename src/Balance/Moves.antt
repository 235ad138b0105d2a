-- ===== src/Balance/Moves.antt =====
-- Freezing and unfreezing (me_balance.c): exactly when they succeed, and the balances after.
use viabtc_server_mac.Prelude.{
  ℕ, ◌≡◌, refl, ap, zero, suc, Ordering, Option, none, some, String, arith, Option-cases, is_lt,
  is_eq, false, Bool-cases, inl, inr, ◌==◌, nat_eq, ◌+◌, ◌-◌, ◌*◌, ◌≤◌, ◌<◌,
}
use viabtc_server_mac.Platform.{Mpd, Laws}
use viabtc_server_mac.Balance.Defs.{
  Ledger, AssetType, balance_key, key_eq, get_asset_type, balance_get, balance_set, balance_add,
  lower, move, balance_freeze, balance_unfreeze, available_type, freeze_type,
}
use viabtc_server_mac.Balance.Funds.{get-store_self, get-del_self, lower_frame}
use viabtc_server_mac.Balance.Errors.{lower-ne-none}

module _ (M : Mpd) where
  -- An addition of an amount that is not negative to a known asset succeeds.
  pub add-ne-none :
      (s : Ledger M) (u k : ℕ) (a : String) (x : M.Decimal) {at : AssetType}
      → get_asset_type M s a ≡ some at
      → is_lt (M.cmp x M.mpd_zero) ≡ false
      → (balance_add M s u k a x).0 ≡ none
      → ⊥
  unfolding balance_add balance_set
  add-ne-none s u k a x e p = ground arith

  pub move-ne-none :
      (s : Ledger M) (u from to : ℕ) (a : String) (x v : M.Decimal) {at : AssetType}
      → get_asset_type M s a ≡ some at
      → is_lt (M.cmp x M.mpd_zero) ≡ false
      → balance_get M s u from a ≡ some v
      → is_lt (M.cmp v x) ≡ false
      → (move M s u from to a x).0 ≡ none
      → ⊥
  unfolding move
  move-ne-none s u from to a x v {at} e p g q = grind (arith, add-ne-none s u to a x, lower-ne-none)

  -- The call that succeeds: an addition, then the balance that was read before, lowered.
  pub move_lem :
      (s : Ledger M) (u from to : ℕ) (a : String) (x v : M.Decimal) {at : AssetType}
      → get_asset_type M s a ≡ some at
      → is_lt (M.cmp x M.mpd_zero) ≡ false
      → balance_get M s u from a ≡ some v
      → is_lt (M.cmp v x) ≡ false
      → move M s u from to a x
        ≡ lower M (balance_add M s u to a x).1 u from a at.prec_save (M.sub v x)
  unfolding move
  move_lem s u from to a x v {at} e p g q = ground (arith, add-ne-none s u to a x e p)

-- To split on a comparison and keep the equation.
pub data Sign (o : Ordering) : Type 0 where
  less : o ≡ Ordering.lt → Sign o
  same : o ≡ Ordering.eq → Sign o
  more : o ≡ Ordering.gt → Sign o

pub Ordering-cases : (o : Ordering) → Sign o
Ordering-cases Ordering.lt = less refl
Ordering-cases Ordering.eq = same refl
Ordering-cases Ordering.gt = more refl

-- `c` quanta off `a` of them.
pub mul_split : (a c q : ℕ) → c ≤ a → a * q ≡ c * q + (a - c) * q
mul_split a c q h = let e : a ≡ c + (a - c) = omega arith in omega (arith, ap (λ (t : ℕ). t * q) e)

pub mul_zero : (n q : ℕ) → 0 < q → n * q ≡ 0 → n ≡ 0
mul_zero zero q h e = refl
mul_zero (suc n) q h e = omega arith

-- The two balances of a user have different keys.
pub other_key :
    (u from to : ℕ) (a : String)
    → (from == to) ≡ false
    → (balance_key u to a == balance_key u from a) ≡ false
other_key u from to a h = ground arith

pub mul_le : (a b q : ℕ) → a ≤ b → a * q ≤ b * q
mul_le a b q h = grind arith

module _ (M : Mpd) (L : Laws M) where
  -- A balance of `n` quanta of precision `p`: a missing entry is a balance of none.
  abbrev pub IsHeld : ℕ → Option M.Decimal → ℕ → Type 0
  IsHeld p none n = n ≡ 0
  IsHeld p (some v) n = L.IsAmount v × (L.units v ≡ n * L.quantum p)

  abbrev pub Holds : Ledger M → ℕ → ℕ → String → ℕ → ℕ → Type 0
  Holds s u k a p n = IsHeld p (balance_get M s u k a) n

  pub lower-Holds :
      (s : Ledger M) (u k : ℕ) (a : String) (p n : ℕ) (x : M.Decimal)
      → L.IsAmount x
      → L.units x ≡ n * L.quantum p
      → n < L.capacity
      → Holds (lower M s u k a p x).1 u k a p n
  unfolding lower
  lower-Holds s u k a p n x h e c =
      let z = L.cmp_units x M.mpd_zero h L.zero_amount in
      elim (Bool-cases (is_eq (M.cmp x M.mpd_zero))) [
        | inl q ↦
            rw (q, get-del_self M s u k a)
              (mul_zero n (L.quantum p) (L.quantum_pos p) (ground (arith, z, L.units-zero)))
        | inr q ↦ rw (q, get-store_self M s u k a (M.rescale x p)) (L.rescale_exact x p n h e c)
      ]

  -- An amount is not below zero.
  pub cmp_zero : (x : M.Decimal) → L.IsAmount x → is_lt (M.cmp x M.mpd_zero) ≡ false
  cmp_zero x h = ground (arith, L.cmp_units x M.mpd_zero h L.zero_amount, L.units-zero)

  pub set-Holds :
      (s : Ledger M) (u k : ℕ) (a : String) (p n : ℕ) (x : M.Decimal) {at : AssetType}
      → get_asset_type M s a ≡ some at
      → at.prec_save ≡ p
      → L.IsAmount x
      → L.units x ≡ n * L.quantum p
      → n < L.capacity
      → Holds (balance_set M s u k a x).1 u k a p n
  unfolding balance_set
  set-Holds s u k a p n x {at} e ep h ex c =
      let z = L.cmp_units x M.mpd_zero h L.zero_amount in
      let r = L.rescale_exact x p n h ex c in
      elim (Ordering-cases (M.cmp x M.mpd_zero)) [
        | less q ↦ absurd (ground (arith, z, L.units-zero))
        | same q ↦
            rw (e, q, balance_set, get-del_self M s u k a)
              (mul_zero n (L.quantum p) (L.quantum_pos p) (ground (arith, z, L.units-zero)))
        | more q ↦
            rw (e, q, balance_set, get-store_self M s u k a (M.rescale x at.prec_save)) (rw ep r)
      ]

  pub add-Holds :
      (s : Ledger M) (u k : ℕ) (a : String) (p f n : ℕ) (x : M.Decimal) {at : AssetType}
      → get_asset_type M s a ≡ some at
      → at.prec_save ≡ p
      → Holds s u k a p f
      → L.IsAmount x
      → L.units x ≡ n * L.quantum p
      → f + n < L.capacity
      → Holds (balance_add M s u k a x).1 u k a p (f + n)
  unfolding balance_add
  add-Holds s u k a p f n x {at} e ep hf h ex c = elim (Option-cases (balance_get M s u k a)) [
    | inl q ↦
        let f0 : f ≡ 0 = rw q at hf in
        rw (e, balance_add, cmp_zero x h, q, f0)
          (set-Holds s u k a p (0 + n) x e ep h (omega (arith, ex)) (omega arith))
    | inr (v, q) ↦
        let hv : IsHeld p (some v) f = rw q at hf in
        let sum = L.add_exact v x p (f + n) hv.0 h (omega (arith, hv.1)) c in
        rw
          (
            e,
            balance_add,
            cmp_zero x h,
            q,
            get-store_self M s u k a (M.rescale (M.add v x) at.prec_save),
          )
          (rw ep (
            L.rescale_exact (M.add v x) p (f + n) (L.add_amount v x hv.0 h)
              (omega (arith, sum, hv.1)) c))
  ]

  -- The other balance does not see a movement's second half.
  pub move-Holds :
      (s : Ledger M) (u from to : ℕ) (a : String) (p b f n : ℕ) (x v : M.Decimal) {at : AssetType}
      → (from == to) ≡ false
      → get_asset_type M s a ≡ some at
      → at.prec_save ≡ p
      → balance_get M s u from a ≡ some v
      → Holds s u from a p b
      → Holds s u to a p f
      → L.IsAmount x
      → L.units x ≡ n * L.quantum p
      → n ≤ b
      → b + f < L.capacity
      → Holds (move M s u from to a x).1 u from a p (b - n)
        × Holds (move M s u from to a x).1 u to a p (f + n)
  unfolding move
  move-Holds s u from to a p b f n x v {at} d e ep g hb hf h ex le c =
      let hv : IsHeld p (some v) b = rw g at hb in
      let covered : L.units x ≤ L.units v = rw (ex, hv.1) (mul_le n b (L.quantum p) le) in
      let rest : L.units (M.sub v x) ≡ (b - n) * L.quantum p =
        L.sub_exact v x p (b - n) hv.0 h (omega (arith, hv.1, mul_split b n (L.quantum p) le))
          (omega arith) in
      let o = L.cmp_units v x hv.0 h in
      let enough : is_lt (M.cmp v x) ≡ false = ground arith in
      let s' = (balance_add M s u to a x).1 in
      rw (move_lem M s u from to a x v e (cmp_zero x h) g enough, ep)
        (
          lower-Holds s' u from a p (b - n) (M.sub v x) (L.sub_amount v x hv.0 h covered).0 rest
              (omega arith),
          rw (lower_frame M s' u from a p (M.sub v x) u to a (other_key u from to a d))
              (add-Holds s u to a p f n x e ep hf h ex (omega arith)),
        )

  -- Freezing `n` quanta of an available balance of `b`: the available balance falls by
  -- `n` and the frozen one grows by `n`. Conditions: the asset is known with precision `p`, the
  -- balances `b` and `f` and the amount are whole numbers of quanta, the amount is covered, and the
  -- sum of the balances fits the decimals' precision.
  pub balance_freeze_moves :
      (s : Ledger M) (u : ℕ) (a : String) (b f n : ℕ) (x v : M.Decimal) {at : AssetType}
      → get_asset_type M s a ≡ some at
      → balance_get M s u available_type a ≡ some v
      → Holds s u available_type a at.prec_save b
      → Holds s u freeze_type a at.prec_save f
      → L.IsAmount x
      → L.units x ≡ n * L.quantum at.prec_save
      → n ≤ b
      → b + f < L.capacity
      → Holds (balance_freeze M s u a x).1 u available_type a at.prec_save (b - n)
        × Holds (balance_freeze M s u a x).1 u freeze_type a at.prec_save (f + n)
  unfolding balance_freeze
  balance_freeze_moves s u a b f n x v {at} e g hb hf h ex le c =
      move-Holds s u available_type freeze_type a at.prec_save b f n x v refl e refl g hb hf h ex le
        c

  -- Unfreezing `n` quanta of a frozen balance of `f`: the frozen balance falls by `n` and the
  -- available one grows by `n`. Conditions: the asset is known with precision `p`, the balances `b`
  -- and `f` and the amount are whole numbers of quanta, the amount is covered, and the sum of the
  -- balances fits the decimals' precision.
  pub balance_unfreeze_moves :
      (s : Ledger M) (u : ℕ) (a : String) (b f n : ℕ) (x v : M.Decimal) {at : AssetType}
      → get_asset_type M s a ≡ some at
      → balance_get M s u freeze_type a ≡ some v
      → Holds s u freeze_type a at.prec_save f
      → Holds s u available_type a at.prec_save b
      → L.IsAmount x
      → L.units x ≡ n * L.quantum at.prec_save
      → n ≤ f
      → f + b < L.capacity
      → Holds (balance_unfreeze M s u a x).1 u freeze_type a at.prec_save (f - n)
        × Holds (balance_unfreeze M s u a x).1 u available_type a at.prec_save (b + n)
  unfolding balance_unfreeze
  balance_unfreeze_moves s u a b f n x v {at} e g hf hb h ex le c =
      move-Holds s u freeze_type available_type a at.prec_save f b n x v refl e refl g hf hb h ex le
        c
