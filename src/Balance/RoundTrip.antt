-- ===== src/Balance/RoundTrip.antt =====
-- Freezing and then unfreezing (matchengine/me_balance.c).
use viabtc_server_mac.Prelude.{
  ℕ, ◌≡◌, refl, Option, none, some, String, arith, ◌+◌, ◌-◌, ◌*◌, ◌≤◌, ◌<◌, ◌∙◌, subst,
}
use viabtc_server_mac.Platform.{Mpd, Laws}
use viabtc_server_mac.Balance.Defs.{
  Ledger, AssetType, get_asset_type, balance_get, balance_set, balance_add, balance_del, store,
  lower, move, balance_freeze, balance_unfreeze, available_type, freeze_type,
}
use viabtc_server_mac.Balance.Moves.{Holds, IsHeld, balance_freeze_moves, balance_unfreeze_moves}

module _ (M : Mpd) where
  -- The assets are the same after a move.
  set_asset_type :
      (s : Ledger M) (u k : ℕ) (a b : String) (x : M.Decimal)
      → get_asset_type M (balance_set M s u k a x).1 b ≡ get_asset_type M s b
  unfolding balance_set get_asset_type store balance_del
  set_asset_type s u k a b x = ground arith

  add_asset_type :
      (s : Ledger M) (u k : ℕ) (a b : String) (x : M.Decimal)
      → get_asset_type M (balance_add M s u k a x).1 b ≡ get_asset_type M s b
  unfolding balance_add store get_asset_type
  add_asset_type s u k a b x = ground (arith, set_asset_type s u k a b x)

  lower_asset_type :
      (s : Ledger M) (u k : ℕ) (a b : String) (p : ℕ) (x : M.Decimal)
      → get_asset_type M (lower M s u k a p x).1 b ≡ get_asset_type M s b
  unfolding lower store balance_del get_asset_type
  lower_asset_type s u k a b p x = ground arith

  move_asset_type :
      (s : Ledger M) (u from to : ℕ) (a b : String) (x : M.Decimal)
      → get_asset_type M (move M s u from to a x).1 b ≡ get_asset_type M s b
  unfolding move
  move_asset_type s u from to a b x = grind (arith, add_asset_type s u to a b x, lower_asset_type)

module _ (M : Mpd) (L : Laws M) where
  -- A balance that is more than nothing is there.
  held_some :
      (p n : ℕ) (o : Option M.Decimal) → IsHeld M L p o n → 0 < n → (v : M.Decimal) × (o ≡ some v)
  held_some p n none h l = absurd (omega (arith, h))
  held_some p n (some v) h l = (v, refl)

  -- Freezing `n` quanta and unfreezing them again gives back both balances. Conditions: `n` is not
  -- zero, the asset is known with precision `p`, the available balance `b`, the frozen balance `f`
  -- and the amount are whole numbers of quanta, the amount is covered, and the sum of the balances
  -- fits the decimals' precision.
  pub unfreeze-freeze :
      (s : Ledger M) (u : ℕ) (a : String) (b f n : ℕ) (x v : M.Decimal) {at : AssetType}
      → get_asset_type M s a ≡ some at
      → balance_get M s u available_type a ≡ some v
      → Holds M L s u available_type a at.prec_save b
      → Holds M L s u freeze_type a at.prec_save f
      → L.IsAmount x
      → L.units x ≡ n * L.quantum at.prec_save
      → 0 < n
      → n ≤ b
      → b + f < L.capacity
      → let s' = (balance_unfreeze M (balance_freeze M s u a x).1 u a x).1 in
        Holds M L s' u available_type a at.prec_save b × Holds M L s' u freeze_type a at.prec_save f
  unfolding balance_freeze
  unfreeze-freeze s u a b f n x v {at} e g hb hf h ex z le c =
      let s' = (balance_freeze M s u a x).1 in
      let (b', f') = balance_freeze_moves M L s u a b f n x v {at = at} e g hb hf h ex le c in
      let (w, q) =
        held_some at.prec_save (f + n) (balance_get M s' u freeze_type a) f' (omega arith) in
      let e' = move_asset_type M s u available_type freeze_type a a x ∙ e in
      let (f'', b'') =
        balance_unfreeze_moves M L s' u a (b - n) (f + n) n x w {at = at} e' q f' b' h ex
          (omega arith) (omega arith) in
      let s'' = (balance_unfreeze M s' u a x).1 in
      let eb : b - n + n ≡ b = omega arith in
      let ef : f + n - n ≡ f = omega arith in
      (
        subst (λ k. Holds M L s'' u available_type a at.prec_save k) eb b'',
        subst (λ k. Holds M L s'' u freeze_type a at.prec_save k) ef f'',
      )
