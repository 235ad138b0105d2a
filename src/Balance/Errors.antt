-- ===== src/Balance/Errors.antt =====
-- How the operations of me_balance.c fail: they return `NULL` and have changed nothing.
use viabtc_server_mac.Prelude.{refl, inr, inl, some, Option, ◌⊎◌, ℕ, ◌≡◌, none, String, arith}
use viabtc_server_mac.Platform.{Mpd}
use viabtc_server_mac.Balance.Defs.{
  balance_freeze, balance_unfreeze, available_type, freeze_type, Ledger, Outcome, key_eq,
  balance_set, balance_add, balance_sub, lower, move,
}

module _ (M : Mpd) where
  -- A call either returns `NULL` and leaves the state as it was, or returns a balance.
  abbrev pub IsAtomic : Ledger M → Outcome M → Type 0
  IsAtomic s r = ((r.0 ≡ none) × (r.1 ≡ s)) ⊎ ((v : M.Decimal) × (r.0 ≡ some v))

  abbrev pub KeepsOnNull : Ledger M → Outcome M → Type 0
  KeepsOnNull s r = r.0 ≡ none → r.1 ≡ s

  by_value : (s s' : Ledger M) (o : Option M.Decimal) → KeepsOnNull s (o, s') → IsAtomic s (o, s')
  by_value s s' none h = inl (refl, h refl)
  by_value s s' (some v) h = inr (v, refl)

  pub set-KeepsOnNull :
      (s : Ledger M) (u k : ℕ) (a : String) (x : M.Decimal)
      → KeepsOnNull s (balance_set M s u k a x)
  unfolding balance_set
  set-KeepsOnNull s u k a x = ground arith

  pub add-KeepsOnNull :
      (s : Ledger M) (u k : ℕ) (a : String) (x : M.Decimal)
      → KeepsOnNull s (balance_add M s u k a x)
  unfolding balance_add
  add-KeepsOnNull s u k a x = ground (arith, set-KeepsOnNull s u k a x)

  pub lower-ne-none :
      (s : Ledger M) (u k : ℕ) (a : String) (p : ℕ) (x : M.Decimal)
      → (lower M s u k a p x).0 ≡ none
      → ⊥
  unfolding lower
  lower-ne-none s u k a p x = ground arith

  pub sub-KeepsOnNull :
      (s : Ledger M) (u k : ℕ) (a : String) (x : M.Decimal)
      → KeepsOnNull s (balance_sub M s u k a x)
  unfolding balance_sub
  sub-KeepsOnNull s u k a x = grind (arith, lower-ne-none)

  pub move-KeepsOnNull :
      (s : Ledger M) (u from to : ℕ) (a : String) (x : M.Decimal)
      → KeepsOnNull s (move M s u from to a x)
  unfolding move
  move-KeepsOnNull s u from to a x = grind (arith, add-KeepsOnNull s u to a x, lower-ne-none)

  call-IsAtomic : (s : Ledger M) (r : Outcome M) → KeepsOnNull s r → IsAtomic s r
  call-IsAtomic s (o, s') h = by_value s s' o h

  -- A call to set, add to or subtract from a balance, to freeze or to unfreeze either returns a
  -- balance, or it returns `NULL` and has changed nothing.
  pub failed_unchanged :
      (s : Ledger M) (u k : ℕ) (a : String) (x : M.Decimal)
      → IsAtomic s (balance_set M s u k a x)
        × IsAtomic s (balance_add M s u k a x)
        × IsAtomic s (balance_sub M s u k a x)
        × IsAtomic s (balance_freeze M s u a x)
        × IsAtomic s (balance_unfreeze M s u a x)
  unfolding balance_freeze balance_unfreeze
  failed_unchanged s u k a x = (
    call-IsAtomic s (balance_set M s u k a x) (set-KeepsOnNull s u k a x),
    call-IsAtomic s (balance_add M s u k a x) (add-KeepsOnNull s u k a x),
    call-IsAtomic s (balance_sub M s u k a x) (sub-KeepsOnNull s u k a x),
    call-IsAtomic s (move M s u available_type freeze_type a x)
        (move-KeepsOnNull s u available_type freeze_type a x),
    call-IsAtomic s (move M s u freeze_type available_type a x)
        (move-KeepsOnNull s u freeze_type available_type a x),
  )
