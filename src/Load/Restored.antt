-- ===== src/Load/Restored.antt =====
-- A slice of the balances, dumped by me_dump.c and loaded by me_load.c.
use viabtc_server_mac.Prelude.{
  ℕ, suc, ◌≡◌, Option, none, some, List, [], ◌∷◌, nat_eq, string_eq, Ordering, KeyType,
}
use viabtc_server_mac.Platform.{Mpd}
use viabtc_server_mac.Dict.{Dict, find, put}
use viabtc_server_mac.Balance.Defs.{Ledger, AssetType, BalanceKey, key_eq, get_asset_type}

-- The ids that the database gives to the rows of a new table.
unfoldable pub numbered : {Row : Type 0} → ℕ → List Row → List (ℕ × Row)
numbered n [] = []
numbered n (r ∷ rows) = (suc n, r) ∷ numbered (suc n) rows

abbrev or_found : {V : Type 0} → Option V → Option V → Option V
or_found none o = o
or_found (some v) o = some v

module _ {K V : Type 0} ⦃e : KeyType K⦄ where
  -- The entries put into a dictionary, one after the other.
  puts : Dict K V → Dict K V → Dict K V
  puts [] d = d
  puts ((k, v) ∷ es) d = puts es (put k v d)

  -- No key has two entries.
  abbrev pub IsMap : Dict K V → Type 0
  IsMap [] = Unit
  IsMap ((k, v) ∷ es) = (find k es ≡ none) × IsMap es

module _ (M : Mpd) where
  -- A balance as the engine keeps it: of a known asset, above zero, at the asset's precision.
  abbrev pub IsSaved : Ledger M → BalanceKey × M.Decimal → Type 0
  IsSaved s (key, v) =
      (at : AssetType) × (get_asset_type M s key.asset ≡ some at)
      × (M.cmp v M.mpd_zero ≡ Ordering.gt)
      × (M.rescale v at.prec_save ≡ v)
