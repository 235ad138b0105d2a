-- ===== src/HashTable/Add.antt =====
-- `dict_add` of utils/ut_dict.c against the map that the table stands for.
use viabtc_server_mac.Prelude.{
  ℕ, ◌+◌, ◌^◌, ◌≤◌, ◌<◌, ◌≡◌, refl, Bool, true, Option, none, some, arith, KeyType, ◌==◌,
  if◌then◌else◌, sym, ap, ◌∙◌, Option-cases, inl, inr, ◌≢◌, ◌&&◌,
}
use viabtc_server_mac.HashTable.Arrays.{chain_at}
use viabtc_server_mac.HashTable.Chain.{Entry, count, value}
use viabtc_server_mac.HashTable.Chain.Facts.{count-eq-zero}
use viabtc_server_mac.HashTable.Invariant.{IsTable, view, if-both}
use viabtc_server_mac.HashTable.Sweep.{
  dict_find-IsTable, view-dict_find, dict_find_frame, value-dict_find,
}
use viabtc_server_mac.HashTable.Grow.{SameMap, held, dict_expand_if_needed_lem}
use viabtc_server_mac.HashTable.Methods.{Updates, link-Updates}
use viabtc_server_mac.HashTable.{
  Table, index_of, dict_expand_if_needed, new_entry, link, dict_find, dict_add,
}

pub some-ne-none : {A : Type 0} {a : A} → some a ≢ none
some-ne-none h = cc

-- Room for one more entry: `used` and `id_start` do not wrap.
abbrev pub HasRoom : {K V : Type 0} → Table K V → Type 0
HasRoom t = (t.used + 1 < 2 ^ 32) × (t.id_start + 1 < 2 ^ 64)

-- One operation uses up room for one entry at most.
abbrev pub Near : {K V : Type 0} → Table K V → Table K V → Type 0
Near t s = (s.used ≤ t.used + 1) × (s.id_start ≤ t.id_start + 1)

-- What `dict_add` of `val` at `k` may do: return the entry and hold it, or return `NULL` and hold what
-- it held.
abbrev pub Added :
    {K V : Type 0} ⦃e : KeyType K⦄
    → (K → ℕ)
    → Table K V
    → K
    → V
    → Option (Entry K V) × Table K V
    → Type 0
Added {K} {V} hash t k val (none, s) = IsTable hash s × ((q : K) → view hash s q ≡ view hash t q)
Added {K} {V} hash t k val (some x, s) = (x.val ≡ val) × Updates hash t k (some val) s

module _ {K V : Type 0} ⦃e : KeyType K⦄ (hash : K → ℕ) (t : Table K V) (v : IsTable hash t) (k : K)
    (val : V) where
  swept : Table K V
  swept = (dict_find hash t k).1

  swept-IsTable : IsTable hash swept
  unfolding swept
  swept-IsTable = dict_find-IsTable hash t v k

  -- `dict_find` saw no entry.
  absent-held : (dict_find hash t k).0 ≡ none → held hash swept k ≡ 0
  unfolding held swept dict_find
  absent-held absent =
      let (size_is, mask_is, start_is, clear_is, used_le) = dict_find_frame hash t v k in
      let home = index_of hash t.mask k in
      ap (λ m. count k (chain_at (dict_find hash t k).1.table (index_of hash m k))) mask_is
      ∙ count-eq-zero k (chain_at (dict_find hash t k).1.table home) absent

  pub found-view :
      (old : Entry K V) → (dict_find hash t k).0 ≡ some old → view hash t k ≡ some old.val
  found-view old h = sym (value-dict_find hash t v k) ∙ ap value h

  pub absent-view : (dict_find hash t k).0 ≡ none → view hash t k ≡ none
  absent-view h = sym (value-dict_find hash t v k) ∙ ap value h

  module _ (calloc_ok malloc_ok : Bool) where
    -- A key that is there is refused.
    pub dict_add_present :
        (old : Entry K V)
        → (dict_find hash t k).0 ≡ some old
        → dict_add hash calloc_ok malloc_ok t k val ≡ some (none, (dict_find hash t k).1)
    unfolding dict_add dict_find
    dict_add_present old h = rw (h, dict_add) refl

    -- What `dict_add` answers once the table has grown, or has failed to.
    abbrev outcome : Bool → Table K V → Option (Entry K V) × Table K V
    outcome r s =
        if r && malloc_ok then (some (new_entry s k val), link hash s k val) else (none, s)

    dict_add_absent :
        (r : Bool) (s : Table K V)
        → (dict_find hash t k).0 ≡ none
        → dict_expand_if_needed hash calloc_ok swept ≡ some (r, s)
        → dict_add hash calloc_ok malloc_ok t k val ≡ some (outcome r s)
    unfolding swept dict_add dict_find
    dict_add_absent r s h g = rw (h, g, dict_add) refl

    -- The outcome of `dict_add` on a key that its sweep did not find.
    added_lem :
        HasRoom t
        → (r : Bool) (s : Table K V) → (dict_find hash t k).0 ≡ none
        → SameMap hash swept s
        → Added hash t k val (outcome r s)
    unfolding swept new_entry
    added_lem (few, ids) r s absent (good, views, holds, used_is, start_is, clear_is) =
        let (size_is, mask_is, start_is', clear_is', used_le) = dict_find_frame hash t v k in
        let same : (q : K) → view hash s q ≡ view hash t q =
          λ q. views q ∙ view-dict_find hash t v k q in
        if-both (Added hash t k val) (r && malloc_ok) (some (new_entry s k val), link hash s k val)
          (none, s)
          (λ linked.
            let (kept, sees) =
              link-Updates hash s good k val (omega arith) (omega arith)
                (holds k ∙ absent-held absent) in
            (refl, (kept, λ q. sees q ∙ ap (λ o. if q == k then some val else o) (same q))))
          (λ failed. (good, same))

    added-Near :
        HasRoom t → (r : Bool) (s : Table K V) → SameMap hash swept s → Near t (outcome r s).1
    unfolding swept link
    added-Near (few, ids) r s (good, views, holds, used_is, start_is, clear_is) =
        let (size_is, mask_is, start_is', clear_is', used_le) = dict_find_frame hash t v k in
        if-both (λ (out : Option (Entry K V) × Table K V). Near t out.1) (r && malloc_ok)
          (some (new_entry s k val), link hash s k val) (none, s)
          (λ linked. (omega arith, omega arith)) (λ failed. (omega arith, omega arith))

    -- On a table with room for one more entry, `dict_add` ends whether its allocations succeed or not.
    -- If it returns `NULL`, the table stands for the same map as before; if it returns an entry, that
    -- has the value, and the map has the key at the value and is otherwise the same. `used` and
    -- `id_start` grow by one at most. `NULL` is returned for a key of the map, and an entry for any
    -- other key if both allocations succeed.
    pub dict_add_lem :
        HasRoom t
        → (r : Option (Entry K V)) × (s : Table K V) × (dict_add hash calloc_ok malloc_ok t k val
            ≡ some (r, s))
          × Added hash t k val (r, s)
          × Near t s
          × (view hash t k ≢ none → r ≡ none)
          × (view hash t k ≡ none → calloc_ok ≡ true → malloc_ok ≡ true → r ≢ none)
    dict_add_lem room =
        let (size_is, mask_is, start_is, clear_is, used_le) = dict_find_frame hash t v k in
        elim (Option-cases (dict_find hash t k).0) [
          | inr (old, h) ↦ (
            none,
            (dict_find hash t k).1,
            dict_add_present old h,
            (dict_find-IsTable hash t v k, view-dict_find hash t v k),
            (omega arith, omega arith),
            λ present. refl,
            λ absent. absurd (some-ne-none (sym (found-view old h) ∙ absent)),
          )
          | inl h ↦
              let (r, s, g, ok, same) =
                dict_expand_if_needed_lem hash swept swept-IsTable calloc_ok in
              let out = outcome r s in
              (
                out.0,
                out.1,
                dict_add_absent r s h g,
                added_lem room r s h same,
                added-Near room r s same,
                λ present. absurd (present (absent-view h)),
                λ absent c m. rw (ok c, m) some-ne-none,
              )
        ]
