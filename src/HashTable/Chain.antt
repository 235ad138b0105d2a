-- ===== src/HashTable/Chain.antt =====
-- One chain of utils/ut_dict.c: the loops that walk it, and how often it holds a key.
pub mod Facts
use viabtc_server_mac.Prelude.{
  not, ◌<◌, ◌≤◌, All, ◌&&◌, ℕ, ◌+◌, ◌-◌, ◌%◌, ◌^◌, Option, none, some, List, [], ◌∷◌, KeyType, ◌==◌,
  if◌then◌else◌, ltb,
}

pub record Entry (K V : Type 0) : Type 0 where
  pub key : K
  pub val : V
  pub id : ℕ

-- `used--` on 32 bits.
unfoldable pub one_less : ℕ → ℕ
one_less used = (used + (2 ^ 32 - 1)) % 2 ^ 32

module _ {K V : Type 0} ⦃e : KeyType K⦄ where
  -- The loop of `dict_find`.
  unfoldable pub find_entry : K → List (Entry K V) → Option (Entry K V)
  find_entry k [] = none
  find_entry k (x ∷ c) = if k == x.key then some x else find_entry k c

  -- The write of `dict_replace` through the entry that `dict_find` returned.
  unfoldable pub write_entry : K → V → List (Entry K V) → List (Entry K V)
  write_entry k v [] = []
  write_entry k v (x ∷ c) = if k == x.key then record x { val = v } ∷ c else x ∷ write_entry k v c

  -- The loop of `dict_delete`: the chain without the first entry of the key.
  unfoldable pub without_entry : K → List (Entry K V) → List (Entry K V)
  without_entry k [] = []
  without_entry k (x ∷ c) = if x.key == k then c else x ∷ without_entry k c

  -- How many entries have the key.
  unfoldable pub count : K → List (Entry K V) → ℕ
  count k [] = 0
  count k (x ∷ c) = (if k == x.key then 1 else 0) + count k c

module _ {K V : Type 0} where
  -- The loop of `check_clear`: the entries that stay, and `used` after it.
  unfoldable pub kept : ℕ → List (Entry K V) → List (Entry K V)
  kept id_clear [] = []
  kept id_clear (x ∷ c) = let rest = kept id_clear c in if ltb x.id id_clear then rest else x ∷ rest

  unfoldable pub used_after : ℕ → List (Entry K V) → ℕ → ℕ
  used_after id_clear [] used = used
  used_after id_clear (x ∷ c) used =
      used_after id_clear c (if ltb x.id id_clear then one_less used else used)

  -- `used` counted down once for each entry.
  unfoldable pub counted_down : ℕ → List (Entry K V) → ℕ
  counted_down used [] = used
  counted_down used (x ∷ c) = counted_down (one_less used) c

module _ {K V : Type 0} ⦃e : KeyType K⦄ where
  -- What a client of the table sees of a chain: the first entry of the key that was not cleared.
  unfoldable pub seen : ℕ → K → List (Entry K V) → Option V
  seen id_clear k [] = none
  seen id_clear k (x ∷ c) =
      if (k == x.key) && not (ltb x.id id_clear) then some x.val else seen id_clear k c

abbrev pub Alive : {K V : Type 0} → ℕ → List (Entry K V) → Type 0
Alive n c = All (λ x. n ≤ x.id) c

abbrev pub Given : {K V : Type 0} → ℕ → List (Entry K V) → Type 0
Given n c = All (λ x. x.id < n) c

-- The value behind a `dict_entry *`.
abbrev pub value : {K V : Type 0} → Option (Entry K V) → Option V
value none = none
value (some x) = some x.val
