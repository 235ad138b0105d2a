-- ===== src/HashTable/Replace.antt =====
-- `dict_replace` of utils/ut_dict.c against the map that the table stands for.
use viabtc_server_mac.Prelude.{
  ◌⊎◌, ℕ, ◌≤◌, ◌≡◌, refl, Bool, true, Option, none, some, arith, KeyType, ◌==◌, if◌then◌else◌, sym,
  ap, ◌∙◌, Option-cases, inl, inr, subst, ◌≢◌, ℤ, pos, negsuc,
}
use viabtc_server_mac.HashTable.Arrays.{chain_at}
use viabtc_server_mac.HashTable.Chain.{Entry, find_entry, write_entry, Alive}
use viabtc_server_mac.HashTable.Invariant.{IsTable, view, with_chain}
use viabtc_server_mac.HashTable.Sweep.{
  dict_find-IsTable, view-dict_find, dict_find_frame, dict_find-Alive,
}
use viabtc_server_mac.HashTable.Methods.{Updates, write-Updates}
use viabtc_server_mac.HashTable.Add.{
  HasRoom, Near, Added, found-view, absent-view, some-ne-none, dict_add_lem,
}
use viabtc_server_mac.HashTable.{Table, index_of, dict_find, dict_add, dict_replace}

pos-ne-negsuc : {n m : ℕ} → pos n ≢ negsuc m
pos-ne-negsuc h = cc

code-ne-failed :
    {A : Type 0} (r : Option A) → r ≢ none → elim r [ none ↦ negsuc 0 | some x ↦ pos 1 ] ≢ negsuc 0
code-ne-failed none h = absurd (h refl)
code-ne-failed (some x) h = pos-ne-negsuc

-- What `dict_replace` may do: 0 when it wrote over a value, 1 when it added the key, -1 when it could
-- not.
abbrev pub Replaced :
    {K V : Type 0} ⦃e : KeyType K⦄ → (K → ℕ) → Table K V → K → V → ℤ × Table K V → Type 0
Replaced {K} {V} hash t k val (negsuc n, s) =
    (n ≡ 0) × (view hash t k ≡ none) × IsTable hash s × ((q : K) → view hash s q ≡ view hash t q)
Replaced {K} {V} hash t k val (pos n, s) =
    (((n ≡ 0) × (view hash t k ≢ none)) ⊎ ((n ≡ 1) × (view hash t k ≡ none)))
    × Updates hash t k (some val) s

module _ {K V : Type 0} ⦃e : KeyType K⦄ (hash : K → ℕ) (t : Table K V) (v : IsTable hash t) (k : K)
    (val : V) (calloc_ok malloc_ok : Bool) where
  swept : Table K V
  swept = (dict_find hash t k).1

  swept-IsTable : IsTable hash swept
  unfolding swept
  swept-IsTable = dict_find-IsTable hash t v k

  swept-view : (q : K) → view hash swept q ≡ view hash t q
  unfolding swept
  swept-view = view-dict_find hash t v k

  dict_replace_present :
      (old : Entry K V)
      → (dict_find hash t k).0 ≡ some old
      → dict_replace hash calloc_ok malloc_ok t k val
        ≡ some (
          pos 0,
          with_chain swept
              (index_of hash swept.mask k)
              (write_entry k val (chain_at swept.table (index_of hash swept.mask k)))
              swept.used,
        )
  unfolding swept dict_replace dict_find
  dict_replace_present old h = rw (h, dict_replace) refl

  dict_replace_absent :
      (r : Option (Entry K V)) (s : Table K V)
      → (dict_find hash t k).0 ≡ none
      → dict_add hash calloc_ok malloc_ok swept k val ≡ some (r, s)
      → dict_replace hash calloc_ok malloc_ok t k val
        ≡ some (elim r [ none ↦ negsuc 0 | some x ↦ pos 1 ], s)
  unfolding swept dict_replace dict_find
  dict_replace_absent r s h g = rw (h, g, dict_replace) refl

  written-Updates :
      (old : Entry K V)
      → (dict_find hash t k).0 ≡ some old
      → Updates hash swept k (some val) (
          with_chain swept
            (index_of hash swept.mask k)
            (write_entry k val (chain_at swept.table (index_of hash swept.mask k)))
            swept.used)
  unfolding swept dict_find
  written-Updates old h =
      let (size_is, mask_is, start_is, clear_is, used_le) = dict_find_frame hash t v k in
      let s = (dict_find hash t k).1 in
      write-Updates hash s swept-IsTable k old val
        (ap (λ m. find_entry k (chain_at s.table (index_of hash m k))) mask_is ∙ h)
        (subst (λ m. Alive s.id_clear (chain_at s.table (index_of hash m k))) (sym mask_is)
          (subst (λ n. Alive n (chain_at s.table (index_of hash t.mask k))) (sym clear_is)
            (dict_find-Alive hash t v k)))

  swept-HasRoom : HasRoom t → HasRoom swept
  unfolding swept
  swept-HasRoom (few, ids) =
      let (size_is, mask_is, start_is, clear_is, used_le) = dict_find_frame hash t v k in
      (omega arith, omega arith)

  swept_frame : (swept.used ≤ t.used) × (swept.id_start ≡ t.id_start)
  unfolding swept
  swept_frame =
      let (size_is, mask_is, start_is, clear_is, used_le) = dict_find_frame hash t v k in
      (used_le, start_is)

  Replaced-absent :
      (r : Option (Entry K V)) (s : Table K V)
      → Added hash swept k val (r, s)
      → view hash t k ≡ none
      → Replaced hash t k val (elim r [ none ↦ negsuc 0 | some x ↦ pos 1 ], s)
  Replaced-absent none s (good, same) absent = (refl, absent, good, λ q. same q ∙ swept-view q)
  Replaced-absent (some x) s (is_val, (good, sees)) absent = (
    inr (refl, absent),
    (good, λ q. sees q ∙ ap (λ o. if q == k then some val else o) (swept-view q)),
  )

  -- `dict_replace` ends, and writes the value unless memory for a new key cannot be had.
  pub dict_replace_lem :
      HasRoom t
      → (code : ℤ) × (s : Table K V) × (dict_replace hash calloc_ok malloc_ok t k val
          ≡ some (code, s))
        × Replaced hash t k val (code, s)
        × Near t s
        × (calloc_ok ≡ true → malloc_ok ≡ true → code ≢ negsuc 0)
  dict_replace_lem (few, ids) =
      let (size_is, mask_is, start_is, clear_is, used_le) = dict_find_frame hash t v k in
      elim (Option-cases (dict_find hash t k).0) [
        | inr (old, h) ↦
            let (good, sees) = written-Updates old h in
            (
              pos 0,
              _,
              dict_replace_present old h,
              (
                inl (refl, λ absent. some-ne-none (sym (found-view hash t v k val old h) ∙ absent)),
                (good, λ q. sees q ∙ ap (λ o. if q == k then some val else o) (swept-view q)),
              ),
              (omega (arith, swept_frame), omega (arith, swept_frame)),
              λ c m. (λ z. pos-ne-negsuc z),
            )
        | inl h ↦
            let absent = absent-view hash t v k val h in
            let (r, s, g, done, near, refused, added) =
              dict_add_lem hash swept swept-IsTable k val calloc_ok malloc_ok
                (swept-HasRoom (few, ids)) in
            (
              elim r [ none ↦ negsuc 0 | some x ↦ pos 1 ],
              s,
              dict_replace_absent r s h g,
              Replaced-absent r s done absent,
              (omega (arith, swept_frame, near), omega (arith, swept_frame, near)),
              λ c m. code-ne-failed r (added (swept-view k ∙ absent) c m),
            )
      ]
