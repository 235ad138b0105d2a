-- ===== src/Balance/Debit.antt =====
-- `balance_sub` and `balance_add` (me_balance.c) one after the other: the balances after, in whole
-- quanta, and what stays as it was.
use viabtc_server_mac.Prelude.{
  ℕ, ◌≡◌, some, String, arith, Option-cases, is_lt, false, inl, inr, nat_eq, string_eq, ◌-◌, ◌*◌,
  ◌≤◌, ◌<◌,
}
use viabtc_server_mac.Platform.{Mpd, Laws}
use viabtc_server_mac.Balance.Defs.{
  Ledger, AssetType, key_eq, get_asset_type, balance_get, balance_set, balance_add, balance_sub,
  store, balance_del, lower,
}
use viabtc_server_mac.Balance.Moves.{IsHeld, Holds, lower-Holds, cmp_zero, mul_split, mul_le}

module _ (M : Mpd) where
  -- The assets are never written.
  set-assets :
      (s : Ledger M) (u k : ℕ) (a : String) (x : M.Decimal)
      → (balance_set M s u k a x).1.assets ≡ s.assets
  unfolding balance_set store balance_del
  set-assets s u k a x = ground arith

  pub add-assets :
      (s : Ledger M) (u k : ℕ) (a : String) (x : M.Decimal)
      → (balance_add M s u k a x).1.assets ≡ s.assets
  unfolding balance_add store
  add-assets s u k a x = ground (arith, set-assets s u k a x)

  pub sub-assets :
      (s : Ledger M) (u k : ℕ) (a : String) (x : M.Decimal)
      → (balance_sub M s u k a x).1.assets ≡ s.assets
  unfolding balance_sub lower store balance_del
  sub-assets s u k a x = ground arith

module _ (M : Mpd) (L : Laws M) where
  -- An amount of `n` quanta of precision `p`.
  abbrev pub IsQuanta : ℕ → ℕ → M.Decimal → Type 0
  IsQuanta p n x = L.IsAmount x × (L.units x ≡ n * L.quantum p)

  pub sub-Holds :
      (s : Ledger M) (u k : ℕ) (a : String) (p b n : ℕ) (x : M.Decimal) {at : AssetType}
      → get_asset_type M s a ≡ some at
      → at.prec_save ≡ p
      → Holds M L s u k a p b
      → IsQuanta p n x
      → n ≤ b
      → b < L.capacity
      → Holds M L (balance_sub M s u k a x).1 u k a p (b - n)
  unfolding balance_sub
  sub-Holds s u k a p b n x {at} e ep hb (h, ex) le c =
      elim (Option-cases (balance_get M s u k a)) [
        | inl q ↦
            let b0 : b ≡ 0 = rw q at hb in
            rw (e, balance_sub, cmp_zero M L x h, q) (rw q (omega arith))
        | inr (v, q) ↦
            let hv : IsHeld M L p (some v) b = rw q at hb in
            let covered : L.units x ≤ L.units v = rw (ex, hv.1) (mul_le n b (L.quantum p) le) in
            let rest : L.units (M.sub v x) ≡ (b - n) * L.quantum p =
              L.sub_exact v x p (b - n) hv.0 h (omega (arith, hv.1, mul_split b n (L.quantum p) le))
                (omega arith) in
            let o = L.cmp_units v x hv.0 h in
            let enough : is_lt (M.cmp v x) ≡ false = ground arith in
            rw (e, balance_sub, cmp_zero M L x h, q, enough, ep)
              (lower-Holds M L s u k a p (b - n) (M.sub v x) (L.sub_amount v x hv.0 h covered).0
                rest (omega arith))
      ]
