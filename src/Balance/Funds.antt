-- ===== src/Balance/Funds.antt =====
-- What me_balance.c does to the funds of a user: freezing and unfreezing move an amount between the
-- two balances of a user, exactly where no decimal has to be rounded.
use viabtc_server_mac.Prelude.{ℕ, ◌≡◌, none, some, String, arith, false, ◌==◌}
use viabtc_server_mac.Platform.{Mpd}
use viabtc_server_mac.Dict.{find-put_ne, find-delete_ne, find-put_self, find-delete_self}
use viabtc_server_mac.Balance.Defs.{
  balance_freeze, balance_unfreeze, balance_sub, available_type, freeze_type, Ledger, balance_key,
  key_eq, balance_get, store, balance_del, balance_set, balance_add, lower, move,
}

module _ (M : Mpd) where
  pub get-store_self :
      (s : Ledger M) (u k : ℕ) (a : String) (x : M.Decimal)
      → balance_get M (store M s u k a x) u k a ≡ some x
  unfolding balance_get store
  get-store_self s u k a x = find-put_self (balance_key u k a) x s.balances

  pub get-store_ne :
      (s : Ledger M) (u k : ℕ) (a : String) (x : M.Decimal) (v l : ℕ) (b : String)
      → (balance_key v l b == balance_key u k a) ≡ false
      → balance_get M (store M s u k a x) v l b ≡ balance_get M s v l b
  unfolding balance_get store
  get-store_ne s u k a x v l b h =
      find-put_ne (balance_key v l b) (balance_key u k a) x s.balances h

  pub get-del_self :
      (s : Ledger M) (u k : ℕ) (a : String) → balance_get M (balance_del M s u k a) u k a ≡ none
  unfolding balance_get balance_del
  get-del_self s u k a = find-delete_self (balance_key u k a) s.balances

  pub get-del_ne :
      (s : Ledger M) (u k : ℕ) (a : String) (v l : ℕ) (b : String)
      → (balance_key v l b == balance_key u k a) ≡ false
      → balance_get M (balance_del M s u k a) v l b ≡ balance_get M s v l b
  unfolding balance_get balance_del
  get-del_ne s u k a v l b h = find-delete_ne (balance_key v l b) (balance_key u k a) s.balances h

  pub set_frame :
      (s : Ledger M) (u k : ℕ) (a : String) (x : M.Decimal) (v l : ℕ) (b : String)
      → (balance_key v l b == balance_key u k a) ≡ false
      → balance_get M (balance_set M s u k a x).1 v l b ≡ balance_get M s v l b
  unfolding balance_set
  set_frame s u k a x v l b h = grind (arith, get-store_ne, get-del_ne)

  -- A key that no operation names keeps its balance.
  pub add_frame :
      (s : Ledger M) (u k : ℕ) (a : String) (x : M.Decimal) (v l : ℕ) (b : String)
      → (balance_key v l b == balance_key u k a) ≡ false
      → balance_get M (balance_add M s u k a x).1 v l b ≡ balance_get M s v l b
  unfolding balance_add
  add_frame s u k a x v l b h = grind (arith, get-store_ne, set_frame)

  pub lower_frame :
      (s : Ledger M) (u k : ℕ) (a : String) (p : ℕ) (x : M.Decimal) (v l : ℕ) (b : String)
      → (balance_key v l b == balance_key u k a) ≡ false
      → balance_get M (lower M s u k a p x).1 v l b ≡ balance_get M s v l b
  unfolding lower
  lower_frame s u k a p x v l b h = grind (arith, get-store_ne, get-del_ne)

  pub move_frame :
      (s : Ledger M) (u from to : ℕ) (a : String) (x : M.Decimal) (v l : ℕ) (b : String)
      → (balance_key v l b == balance_key u from a) ≡ false
      → (balance_key v l b == balance_key u to a) ≡ false
      → balance_get M (move M s u from to a x).1 v l b ≡ balance_get M s v l b
  unfolding move
  move_frame s u from to a x v l b h k = grind (arith, lower_frame, add_frame)

  -- Freezing and unfreezing leave every balance but the available and the frozen one of the user in
  -- the asset as it was.
  pub freeze_frame :
      (s : Ledger M) (u : ℕ) (a : String) (x : M.Decimal) (v l : ℕ) (b : String)
      → (balance_key v l b == balance_key u available_type a) ≡ false
      → (balance_key v l b == balance_key u freeze_type a) ≡ false
      → (balance_get M (balance_freeze M s u a x).1 v l b ≡ balance_get M s v l b)
        × (balance_get M (balance_unfreeze M s u a x).1 v l b ≡ balance_get M s v l b)
  unfolding balance_freeze balance_unfreeze
  freeze_frame s u a x v l b h k = (
    move_frame s u available_type freeze_type a x v l b h k,
    move_frame s u freeze_type available_type a x v l b k h,
  )

  -- Adding to and subtracting from a balance leave the balance of every other key as it was.
  pub change_frame :
      (s : Ledger M) (u k : ℕ) (a : String) (x : M.Decimal) (v l : ℕ) (b : String)
      → (balance_key v l b == balance_key u k a) ≡ false
      → (balance_get M (balance_add M s u k a x).1 v l b ≡ balance_get M s v l b)
        × (balance_get M (balance_sub M s u k a x).1 v l b ≡ balance_get M s v l b)
  unfolding balance_sub
  change_frame s u k a x v l b h = (add_frame s u k a x v l b h, grind (arith, lower_frame))
