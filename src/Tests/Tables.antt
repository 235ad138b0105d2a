-- ===== src/Tests/Tables.antt =====
-- The hash table of utils/ut_dict.c on a few keys.
use viabtc_server_mac.Prelude.{
  ℕ, ◌≡◌, ◌≢◌, refl, true, false, Option, none, some, ◌>>=◌, List, [], ◌∷◌, nat_eq, arith, pos,
}
use viabtc_server_mac.Dict
use viabtc_server_mac.HashTable.Chain.{Entry, value}
use viabtc_server_mac.HashTable.Invariant.{IsTable, view}
use viabtc_server_mac.HashTable.Add.{Added, Near, dict_add_lem}
use viabtc_server_mac.HashTable.Run.{
  Command, lookup, insert, write, remove, clear, found, added, written, done, table_run, dict_run,
  dict_step,
}
use viabtc_server_mac.HashTable.Refines.{created, created-IsTable, table_run-dict_run}
use viabtc_server_mac.HashTable.Grow.{held}
use viabtc_server_mac.HashTable.Methods.{link-Updates}
use viabtc_server_mac.HashTable.Clear.{dict_clear_lem}
use viabtc_server_mac.HashTable.Iterate.{dict_clear}
use viabtc_server_mac.HashTable.Hash.{
  dict_generic_hash_function, fnv_1a_from, dict_generic_hash_function-fnv_1a,
}
use viabtc_server_mac.HashTable.{Table, link, dict_create, dict_add, dict_find}

-- A hash by which the keys 1 and 5 share a chain of a table of size 4.
abbrev same_number : ℕ → ℕ
same_number k = k

abbrev calls : List (Command ℕ ℕ)
calls =
    insert 1 10
    ∷ insert 5 50
    ∷ insert 1 11
    ∷ write 5 51
    ∷ lookup 5
    ∷ remove 1
    ∷ lookup 1
    ∷ clear
    ∷ lookup 5
    ∷ insert 5 52
    ∷ lookup 5
    ∷ []

-- What the calls answer.
calls_answers :
    (dict_run [] calls).0
    ≡ added true
      ∷ added true
      ∷ added false
      ∷ written (pos 0)
      ∷ found (some 51)
      ∷ done
      ∷ found none
      ∷ done
      ∷ found none
      ∷ added true
      ∷ found (some 52)
      ∷ []
unfolding dict_run dict_step Dict.find Dict.put Dict.delete
calls_answers = refl

table_run-dict_run_example :
    (t : Table ℕ ℕ) × (s : Table ℕ ℕ) × (dict_create true 3 ≡ some (some t))
    × (table_run same_number t calls ≡ some ((dict_run [] calls).0, s))
    × ((k : ℕ) → value (dict_find same_number s k).0 ≡ Dict.find k (dict_run [] calls).1)
table_run-dict_run_example = table_run-dict_run same_number 3 calls (omega arith) (omega arith)

abbrev four : Table ℕ ℕ
four = created same_number 4

dict_add_lem_example :
    (r : Option (Entry ℕ ℕ)) × (s : Table ℕ ℕ) × (dict_add same_number true true four 7 70
      ≡ some (r, s))
    × Added same_number four 7 70 (r, s)
    × Near four s
    × (view same_number four 7 ≢ none → r ≡ none)
    × (view same_number four 7 ≡ none → true ≡ true → true ≡ true → r ≢ none)
dict_add_lem_example =
    dict_add_lem same_number four (created-IsTable same_number 4 (0, omega arith, refl)) 7 70 true
      true (omega arith, omega arith)

dict_generic_hash_function-fnv_1a_example :
    dict_generic_hash_function (98 ∷ 116 ∷ 99 ∷ []) ≡ fnv_1a_from 2166136261 (98 ∷ 116 ∷ 99 ∷ [])
dict_generic_hash_function-fnv_1a_example = dict_generic_hash_function-fnv_1a (98 ∷ 116 ∷ 99 ∷ [])

-- The table with one key.
abbrev five_only : Table ℕ ℕ
five_only = link same_number four 5 50

five_only-IsTable : IsTable same_number five_only
unfolding held viabtc_server_mac.HashTable.Arrays.chain_at
    viabtc_server_mac.HashTable.Arrays.empty_chains viabtc_server_mac.HashTable.Chain.count
    viabtc_server_mac.HashTable.index_of
five_only-IsTable =
    (link-Updates same_number four (created-IsTable same_number 4 (0, omega arith, refl)) 5 50
      (omega arith) (omega arith) refl).0

dict_clear_lem_example :
    (s : Table ℕ ℕ) × (dict_clear same_number five_only ≡ some s)
    × IsTable same_number s
    × (s.used ≡ 0)
    × ((k : ℕ) → view same_number s k ≡ none)
dict_clear_lem_example = dict_clear_lem same_number five_only five_only-IsTable

-- Two keys of one chain and one of another, all deleted through the iterator.
abbrev three_keys : Option (Table ℕ ℕ)
three_keys = do
  a ← dict_add same_number true true four 1 10
  b ← dict_add same_number true true a.1 5 50
  c ← dict_add same_number true true b.1 2 20
  some c.1

clear_run :
    (three_keys >>= λ t. dict_clear same_number t >>= λ s. some s.table)
    ≡ some ([] ∷ [] ∷ [] ∷ [] ∷ [])
unfolding dict_add dict_clear dict_find viabtc_server_mac.HashTable.Chain.find_entry
    viabtc_server_mac.HashTable.Arrays.chain_at viabtc_server_mac.HashTable.clear_if_marked
    viabtc_server_mac.HashTable.Arrays.empty_chains viabtc_server_mac.HashTable.index_of
    viabtc_server_mac.HashTable.dict_expand_if_needed viabtc_server_mac.HashTable.link
    viabtc_server_mac.HashTable.Arrays.set_chain viabtc_server_mac.HashTable.new_entry
    viabtc_server_mac.HashTable.Iterate.dict_next
    viabtc_server_mac.HashTable.Iterate.dict_get_iterator viabtc_server_mac.HashTable.dict_delete
    viabtc_server_mac.HashTable.Chain.without_entry
clear_run = refl

-- The published test value of FNV-1a for the letter "a".
hash_of_a : dict_generic_hash_function (97 ∷ []) ≡ 0xe40c292c
unfolding dict_generic_hash_function
hash_of_a = refl
