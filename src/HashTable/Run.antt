-- ===== src/HashTable/Run.antt =====
-- Any sequence of operations on a table of utils/ut_dict.c, and the same on an association list.
use viabtc_server_mac.Prelude.{
  ℕ, ◌≡◌, Bool, true, false, Option, none, some, List, [], ◌∷◌, KeyType, ◌>>=◌, ℤ, pos,
}
use viabtc_server_mac.Dict
use viabtc_server_mac.Dict.{Dict}
use viabtc_server_mac.HashTable.Chain.{value}
use viabtc_server_mac.HashTable.Invariant.{IsTable, view}
use viabtc_server_mac.HashTable.{
  Table, dict_find, dict_add, dict_replace, dict_delete, dict_mark_clear,
}

-- A call of a client.
pub data Command (K V : Type 0) : Type 0 where
  lookup : K → Command K V
  insert : K → V → Command K V
  write : K → V → Command K V
  remove : K → Command K V
  clear : Command K V

-- What it learns: the value that was found, whether the key was added, or what `dict_replace` returned.
pub data Answer (V : Type 0) : Type 0 where
  found : Option V → Answer V
  added : Bool → Answer V
  written : ℤ → Answer V
  done : Answer V

abbrev pub is_some : {A : Type 0} → Option A → Bool
is_some none = false
is_some (some a) = true

module _ {K V : Type 0} ⦃e : KeyType K⦄ where
  -- The call on the table, where memory can be had.
  unfoldable pub table_step : (K → ℕ) → Table K V → Command K V → Option (Answer V × Table K V)
  table_step hash t (lookup k) =
      let (entry, s) = dict_find hash t k in some (found (value entry), s)
  table_step hash t (insert k v) = do
    (entry, s) ← dict_add hash true true t k v
    some (added (is_some entry), s)
  table_step hash t (write k v) = do
    (code, s) ← dict_replace hash true true t k v
    some (written code, s)
  table_step hash t (remove k) = some (done, (dict_delete hash t k).1)
  table_step hash t clear = some (done, dict_mark_clear t)

  unfoldable pub table_run :
      (K → ℕ) → Table K V → List (Command K V) → Option (List (Answer V) × Table K V)
  table_run hash t [] = some ([], t)
  table_run hash t (c ∷ cs) = do
    (answer, s) ← table_step hash t c
    (answers, r) ← table_run hash s cs
    some (answer ∷ answers, r)

  -- The same call on the association list.
  unfoldable pub dict_step : Dict K V → Command K V → Answer V × Dict K V
  dict_step d (lookup k) = (found (Dict.find k d), d)
  dict_step d (insert k v) = elim (Dict.find k d) [
    | none ↦ (added true, Dict.put k v d)
    | some w ↦ (added false, d)
  ]
  dict_step d (write k v) =
      (elim (Dict.find k d) [ none ↦ written (pos 1) | some w ↦ written (pos 0) ], Dict.put k v d)
  dict_step d (remove k) = (done, Dict.delete k d)
  dict_step d clear = (done, [])

  unfoldable pub dict_run : Dict K V → List (Command K V) → List (Answer V) × Dict K V
  dict_run d [] = ([], d)
  dict_run d (c ∷ cs) =
      let (answer, d') = dict_step d c in
      let (answers, d'') = dict_run d' cs in (answer ∷ answers, d'')

  -- The table stands for the association list.
  unfoldable pub Stands : (K → ℕ) → Table K V → Dict K V → Type 0
  Stands hash t d = IsTable hash t × ((k : K) → view hash t k ≡ Dict.find k d)
