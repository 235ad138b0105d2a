-- ===== src/HashTable/Iterate.antt =====
-- The iterator of utils/ut_dict.c, and `dict_clear`, which deletes every entry that it returns.
use viabtc_server_mac.Prelude.{
  ℕ, zero, suc, ◌+◌, Option, none, some, List, [], ◌∷◌, KeyType, if◌then◌else◌, leb, ◌>>=◌,
}
use viabtc_server_mac.HashTable.Arrays.{chain_at}
use viabtc_server_mac.HashTable.Chain.{Entry}
use viabtc_server_mac.HashTable.{Table, dict_delete}

-- `index` is that of the code and one more. `current` is `none` where `entry` is `NULL`, and otherwise
-- the chain from `next_entry` on.
pub record Iterator (K V : Type 0) : Type 0 where
  pub index : ℕ
  pub current : Option (List (Entry K V))

module _ {K V : Type 0} where
  unfoldable pub dict_get_iterator : Iterator K V
  dict_get_iterator = record { index = 0; current = none }

  -- The loop of `dict_next`, by what the iterator stands at: `none` when the fuel runs out.
  unfoldable pub next_from :
      ℕ → Table K V → ℕ → Option (List (Entry K V)) → Option (Option (Entry K V) × Iterator K V)
  next_from fuel t index (some (x ∷ rest)) =
      some (some x, record { index = index; current = some rest })
  next_from zero t index current = none
  next_from (suc fuel) t index (some []) = next_from fuel t index none
  next_from (suc fuel) t index none =
      let chain = next_from fuel t (suc index) (some (chain_at t.table index)) in
      if leb t.size index then some (none, record { index = suc index; current = none }) else chain

  unfoldable pub dict_next :
      ℕ → Table K V → Iterator K V → Option (Option (Entry K V) × Iterator K V)
  unfolding next_from
  dict_next fuel t it = next_from fuel t it.index it.current

module _ {K V : Type 0} ⦃e : KeyType K⦄ (hash : K → ℕ) where
  -- The loop of `dict_clear`, at most `rounds` times; the first number is the fuel of `dict_next`.
  unfoldable pub clear_from : ℕ → ℕ → Table K V → Iterator K V → Option (Table K V)
  clear_from fuel zero t it = none
  clear_from fuel (suc rounds) t it = do
    (entry, later) ← dict_next fuel t it
    elim entry [
      | none ↦ some t
      | some x ↦ clear_from fuel rounds (dict_delete hash t x.key).1 later
    ]

  unfoldable pub dict_clear : Table K V → Option (Table K V)
  unfolding clear_from
  dict_clear t = clear_from (t.size + t.size + 2) (suc t.used) t dict_get_iterator
