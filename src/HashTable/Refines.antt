-- ===== src/HashTable/Refines.antt =====
-- A table of utils/ut_dict.c, from `dict_create` on, answers any sequence of calls as an association
-- list does.
use viabtc_server_mac.Prelude.{
  ℕ, ◌+◌, ◌-◌, ◌^◌, ◌≤◌, ◌<◌, ◌≡◌, refl, true, none, some, List, [], ◌∷◌, arith, KeyType, length,
  sym, ◌∙◌, subst,
}
use viabtc_server_mac.Dict
use viabtc_server_mac.Dict.{Dict}
use viabtc_server_mac.HashTable.Arrays.{
  empty_chains, length-empty_chains, total-empty_chains, chain_at-empty_chains,
}
use viabtc_server_mac.HashTable.Chain.{Entry, count, seen, Given, value}
use viabtc_server_mac.HashTable.Power.{IsTableSize, IsTableSize-bounds, dict_next_power-ends}
use viabtc_server_mac.HashTable.Invariant.{IsTable, view}
use viabtc_server_mac.HashTable.Sweep.{value-dict_find}
use viabtc_server_mac.HashTable.Run.{Command, table_run, dict_step, dict_run, Stands}
use viabtc_server_mac.HashTable.Steps.{Follows, Command-Follows}
use viabtc_server_mac.HashTable.{Table, index_of, dict_create, dict_find}

module _ {K V : Type 0} ⦃e : KeyType K⦄ (hash : K → ℕ) where
  run_lem :
      (t : Table K V) (d : Dict K V) (cs : List (Command K V))
      → Stands hash t d
      → t.used + length cs < 2 ^ 32
      → t.id_start + length cs < 2 ^ 64
      → (s : Table K V) × (table_run hash t cs ≡ some ((dict_run d cs).0, s))
        × Stands hash s (dict_run d cs).1
  unfolding table_run dict_run Follows
  run_lem t d [] st u i = (t, refl, st)
  run_lem t d (c ∷ cs) st u i =
      let (s, g, st', (used_le, id_le)) =
        Command-Follows hash t d st (omega arith, omega arith) c in
      let (r, g', st'') = run_lem s (dict_step d c).1 cs st' (omega arith) (omega arith) in
      (r, rw (g, g') refl, st'')

  -- What `dict_create` makes.
  abbrev pub created : ℕ → Table K V
  created size = record {
    table = empty_chains size;
    size = size;
    mask = size - 1;
    used = 0;
    id_start = 0;
    id_clear = 0;
  }

  pub created-IsTable : (size : ℕ) → IsTableSize size → IsTable hash (created size)
  unfolding count
  created-IsTable size allowed = record {
    sized = length-empty_chains (Entry K V) size;
    power = allowed;
    masked = omega (arith, (IsTableSize-bounds size allowed).1);
    placed = λ k i. rw (chain_at-empty_chains {A = Entry K V} size i) (omega arith);
    given = λ i. subst (Given 0) (sym (chain_at-empty_chains size i)) tt;
    counted = total-empty_chains (Entry K V) size;
    few = omega arith;
    cleared = omega arith;
  }

  view-created : (size : ℕ) (k : K) → view hash (created size) k ≡ none
  unfolding view seen
  view-created size k =
      rw (chain_at-empty_chains {A = Entry K V} size (index_of hash (size - 1) k)) refl

  -- A new table is empty.
  dict_create-Stands :
      (init_size : ℕ)
      → init_size ≤ 2 ^ 31
      → (t : Table K V) × (dict_create true init_size ≡ some (some t))
        × Stands hash t []
        × (t.used ≡ 0)
        × (t.id_start ≡ 0)
  unfolding dict_create Stands Dict.find
  dict_create-Stands init_size h =
      let (size, g, (allowed, enough, least)) = dict_next_power-ends init_size h in
      (created size, rw g refl, (created-IsTable size allowed, view-created size), refl, refl)

  -- Where memory can be had, a new table with a wanted size of at most 2 ^ 31 ends any sequence of
  -- fewer than 2 ^ 32 calls of `dict_find`, `dict_add`, `dict_replace`, `dict_delete` and
  -- `dict_mark_clear`; each answers as on an association list (the answer of `dict_delete` is left
  -- out), and `dict_find` finds of each key afterwards what the list finds.
  pub table_run-dict_run :
      (init_size : ℕ) (cs : List (Command K V))
      → init_size ≤ 2 ^ 31
      → length cs < 2 ^ 32
      → (t : Table K V) × (s : Table K V) × (dict_create true init_size ≡ some (some t))
        × (table_run hash t cs ≡ some ((dict_run [] cs).0, s))
        × ((k : K) → value (dict_find hash s k).0 ≡ Dict.find k (dict_run [] cs).1)
  unfolding Stands
  table_run-dict_run init_size cs h few =
      let (t, made, st, used_is, id_is) = dict_create-Stands init_size h in
      let (s, ran, (good, sees)) = run_lem t [] cs st (omega arith) (omega arith) in
      (t, s, made, ran, λ k. value-dict_find hash s good k ∙ sees k)
