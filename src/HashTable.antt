-- ===== src/HashTable.antt =====
-- The hash table of utils/ut_dict.c: chains of entries in a table whose size is a power of two. A
-- `dict_entry *` that is returned is the value that it points to. Copies and destructors of keys and
-- values are left out; `free` has no effect here. `hash` is `type.hash_function`. A `Bool` that is
-- an argument says whether an allocation succeeds.
pub mod Arrays
pub mod Chain
pub mod Power
pub mod Invariant
pub mod Sweep
pub mod Entries
pub mod Rehash
pub mod Grow
pub mod Methods
pub mod Add
pub mod Replace
pub mod Run
pub mod Steps
pub mod Refines
pub mod Hash
pub mod Iterate
pub mod Clear
use Prim.Native.Nat.{bit_and}
use viabtc_server_mac.Prelude.{
  pos, negsuc, ℤ, ◌&&◌, ℕ, zero, suc, ◌+◌, ◌-◌, ◌*◌, ◌%◌, ◌^◌, ◌≤◌, ◌<◌, ◌≡◌, refl, Bool, true,
  false, Option, none, some, List, [], ◌∷◌, arith, KeyType, ◌==◌, nat_beq, if◌then◌else◌, ltb, leb,
  length, ◌>>=◌,
}
use Arrays.{chain_at, set_chain, empty_chains}
use Chain.{Entry, one_less, find_entry, write_entry, without_entry, kept, used_after, counted_down}

-- `dict_t`, less its types.
pub record Table (K V : Type 0) : Type 0 where
  pub table : List (List (Entry K V))
  pub size : ℕ
  pub mask : ℕ
  pub used : ℕ
  pub id_start : ℕ
  pub id_clear : ℕ

-- The loop of `dict_next_power`: `none` when the rounds run out.
unfoldable pub double_until : ℕ → ℕ → ℕ → Option ℕ
double_until zero realsize size = none
double_until (suc fuel) realsize size =
    let rest = double_until fuel (realsize * 2 % 2 ^ 32) size in
    if leb size realsize then some realsize else rest

unfoldable pub dict_next_power : ℕ → ℕ → Option ℕ
unfolding double_until
dict_next_power fuel size = double_until fuel 4 size

-- Rounds enough for every size up to 2 ^ 31.
abbrev pub rounds : ℕ
rounds = 30

module _ {K V : Type 0} where
  -- `none`: `dict_next_power` does not end. `some none`: `NULL`.
  unfoldable pub dict_create : Bool → ℕ → Option (Option (Table K V))
  dict_create calloc_ok init_size = do
    size ← dict_next_power rounds init_size
    some (
        if calloc_ok
        then some (record {
          table = empty_chains size;
          size = size;
          mask = size - 1;
          used = 0;
          id_start = 0;
          id_clear = 0;
        })
        else none)

  -- `id_clear = id_start++`.
  unfoldable pub dict_mark_clear : Table K V → Table K V
  dict_mark_clear t = record t { id_clear = t.id_start; id_start = (t.id_start + 1) % 2 ^ 64 }

  -- The entry that `dict_add` makes.
  unfoldable pub new_entry : Table K V → K → V → Entry K V
  new_entry t k v = record { key = k; val = v; id = t.id_start }

  -- The entries whose id lies below `id_clear` leave the chain.
  unfoldable pub check_clear : Table K V → ℕ → Table K V
  check_clear t index = record t {
    table = set_chain t.table index (kept t.id_clear (chain_at t.table index));
    used = used_after t.id_clear (chain_at t.table index) t.used;
  }

  -- `dict_find` sweeps the chain only after a `dict_mark_clear`.
  unfoldable pub clear_if_marked : Table K V → ℕ → Table K V
  clear_if_marked t index = if ltb 0 t.id_clear then check_clear t index else t

-- `DICT_HASH_KEY(dt, key) & mask`.
unfoldable pub index_of : {K : Type 0} → (K → ℕ) → ℕ → K → ℕ
index_of hash mask k = bit_and (hash k) mask

module _ {K V : Type 0} (hash : K → ℕ) where
  -- The inner loop of `dict_expand`: each entry of a chain to the front of its new chain.
  unfoldable pub move_chain :
      ℕ → List (Entry K V) → List (List (Entry K V)) → List (List (Entry K V))
  move_chain mask [] fresh = fresh
  move_chain mask (x ∷ c) fresh =
      let index = index_of hash mask x.key in
      move_chain mask c (set_chain fresh index (x ∷ chain_at fresh index))

  -- The outer loop stops when `used`, which the inner one counts down, is 0.
  unfoldable pub move_all :
      ℕ → ℕ → List (List (Entry K V)) → List (List (Entry K V)) → List (List (Entry K V))
  move_all mask used [] fresh = fresh
  move_all mask used (c ∷ cs) fresh =
      let rest = move_all mask (counted_down used c) cs (move_chain mask c fresh) in
      if nat_beq used 0 then fresh else rest

  -- `false` is the result -1. `new.used` was copied before the loop counts `dt->used` down.
  unfoldable pub dict_expand : Bool → Table K V → ℕ → Option (Bool × Table K V)
  dict_expand calloc_ok t wanted = do
    size ← dict_next_power rounds wanted
    some (
        if calloc_ok
        then (
          true,
          record t {
            table = move_all (size - 1) t.used t.table (empty_chains size);
            size = size;
            mask = size - 1;
          },
        )
        else (false, t))

  unfoldable pub dict_expand_if_needed : Bool → Table K V → Option (Bool × Table K V)
  dict_expand_if_needed calloc_ok t =
      if leb (t.size * 4 % 2 ^ 32) t.used
      then dict_expand calloc_ok t (t.size * 4 % 2 ^ 32)
      else some (true, t)

  -- The table with the new entry in front of its chain.
  unfoldable pub link : Table K V → K → V → Table K V
  link t k v =
      let index = index_of hash t.mask k in
      record t {
        table = set_chain t.table index (new_entry t k v ∷ chain_at t.table index);
        used = (t.used + 1) % 2 ^ 32;
        id_start = (t.id_start + 1) % 2 ^ 64;
      }

module _ {K V : Type 0} ⦃e : KeyType K⦄ (hash : K → ℕ) where
  unfoldable pub dict_find : Table K V → K → Option (Entry K V) × Table K V
  dict_find t k =
      let index = index_of hash t.mask k in
      let swept = clear_if_marked t index in (find_entry k (chain_at swept.table index), swept)

  -- `some (none, …)` is `NULL`.
  unfoldable pub dict_add :
      Bool → Bool → Table K V → K → V → Option (Option (Entry K V) × Table K V)
  dict_add calloc_ok malloc_ok t k v =
      let (found, swept) = dict_find t k in
      elim found [
        | some old ↦ some (none, swept)
        | none ↦ do
          (expanded, grown) ← dict_expand_if_needed hash calloc_ok swept
          some (
              if expanded && malloc_ok
              then (some (new_entry grown k v), link hash grown k v)
              else (none, grown))
      ]

  -- -1, 1 and 0 of `dict_replace`.
  unfoldable pub dict_replace : Bool → Bool → Table K V → K → V → Option (ℤ × Table K V)
  dict_replace calloc_ok malloc_ok t k v =
      let (found, swept) = dict_find t k in
      let index = index_of hash swept.mask k in
      elim found [
        | none ↦ do
          (added, grown) ← dict_add calloc_ok malloc_ok swept k v
          some (elim added [ none ↦ negsuc 0 | some entry ↦ pos 1 ], grown)
        | some old ↦ some (
          pos 0,
          record swept {
            table = set_chain swept.table index (write_entry k v (chain_at swept.table index));
          },
        )
      ]

  unfoldable pub dict_delete : Table K V → K → Bool × Table K V
  dict_delete t k =
      let index = index_of hash t.mask k in
      let chain = chain_at t.table index in
      elim (find_entry k chain) [
        | some old ↦ (
          true,
          record t {
            table = set_chain t.table index (without_entry k chain);
            used = one_less t.used;
          },
        )
        | none ↦ (false, t)
      ]
