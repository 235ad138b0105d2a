-- ===== src/HashTable/Methods.antt =====
-- `dict_create`, `dict_add`, `dict_replace` and `dict_delete` of utils/ut_dict.c against the map that
-- the table stands for.
use native.Mathlib.Nat.{le_trans}
use viabtc_server_mac.Prelude.{
  ℕ, ◌+◌, ◌%◌, ◌^◌, ◌≤◌, ◌<◌, ◌≡◌, refl, Bool, true, false, Option, none, some, List, ◌∷◌, arith,
  KeyType, ◌==◌, if◌then◌else◌, nat_beq, sym, ap, ◌∙◌, Bool-cases, Option-cases, inl, inr,
  nat_beq_iff, subst,
}
use viabtc_server_mac.HashTable.Arrays.{chain_at, length-chain_at-le}
use viabtc_server_mac.HashTable.Chain.{
  Entry, count, seen, Given, find_entry, write_entry, without_entry, one_less, Alive,
}
use viabtc_server_mac.HashTable.Chain.Facts.{
  count-eq-zero, seen-eq-none, seen-write_entry, count-write_entry, length-write_entry,
  write_entry-Given, seen-without_entry, count-without_entry-le, length-without_entry,
  without_entry-Given, one_less_lem,
}
use viabtc_server_mac.HashTable.Invariant.{
  IsTable, view, with_chain, with_chain-IsTable, view-with_chain, index_of-lt,
}
use viabtc_server_mac.HashTable.Sweep.{Given-later}
use viabtc_server_mac.HashTable.Grow.{held}
use viabtc_server_mac.HashTable.{Table, index_of, new_entry, link, dict_delete}

-- The table `s` stands for the map of `t`, with `k` at `o`.
abbrev pub Updates :
    {K V : Type 0} ⦃e : KeyType K⦄ → (K → ℕ) → Table K V → K → Option V → Table K V → Type 0
Updates {K} {V} hash t k o s =
    IsTable hash s × ((q : K) → view hash s q ≡ (if q == k then o else view hash t q))

module _ {K V : Type 0} ⦃e : KeyType K⦄ (hash : K → ℕ) (t : Table K V) (v : IsTable hash t)
    (k : K) where
  open v use {sized, power, masked, placed, given, counted, few, cleared}

  home : ℕ
  home = index_of hash t.mask k

  chain : List (Entry K V)
  chain = chain_at t.table home

  home-lt : home < t.size
  unfolding home
  home-lt = index_of-lt hash t.mask t.size k masked

  -- A key stands once at most in the chain of `k`, and only where that is its own.
  chain-placed : (q : K) → count q chain ≤ 1
  unfolding chain
  chain-placed q = let at_most = placed q home in ground arith

  same_key : (q : K) → (q == k) ≡ true → index_of hash t.mask q ≡ home
  unfolding home
  same_key q h = ap (index_of hash t.mask) ((e.same_iff q k).0 h)

  -- Replacing the chain of `k` so that `k` is seen as `o` and the other keys as before.
  view-home :
      (c : List (Entry K V)) (used : ℕ) (o : Option V)
      → ((q : K) → seen t.id_clear q c ≡ (if q == k then o else seen t.id_clear q chain))
      → (q : K) → view hash (with_chain t home c used) q ≡ (if q == k then o else view hash t q)
  unfolding chain view
  view-home c used o at_home q =
      view-with_chain hash t v home c used home-lt q
      ∙ elim (Bool-cases (nat_beq home (index_of hash t.mask q))) [
        | inl same ↦
            let there : home ≡ index_of hash t.mask q =
              (nat_beq_iff home (index_of hash t.mask q)).0 same in
            rw same (
              at_home q
              ∙ ap (λ n. if q == k then o else seen t.id_clear q (chain_at t.table n)) there)
        | inr other ↦
            let apart : (q == k) ≡ false =
              ground (arith, same_key q, nat_beq_iff home (index_of hash t.mask q)) in
            rw (other, apart) refl
      ]

  found-pos : (old : Entry K V) → find_entry k chain ≡ some old → 0 < t.used
  unfolding chain
  found-pos old h =
      omega (arith, length-without_entry k old chain h, length-chain_at-le t.table home, counted)

  delete-Updates :
      (old : Entry K V)
      → find_entry k chain ≡ some old
      → Updates hash t k none (with_chain t home (without_entry k chain) (one_less t.used))
  unfolding chain
  delete-Updates old h =
      let less = one_less_lem t.used (found-pos old h) few in
      (
        with_chain-IsTable hash t v home (without_entry k chain) (one_less t.used) home-lt
            (λ q. le_trans (count-without_entry-le k q chain) (placed q home))
            (without_entry-Given t.id_start k chain (given home))
            (omega (arith, length-without_entry k old chain h, less)) (omega (arith, less, few)),
        view-home (without_entry k chain) (one_less t.used) none
            (λ q. seen-without_entry t.id_clear k q chain (chain-placed q)),
      )

  -- A key that the chain does not have is not in the map.
  view-absent :
      find_entry k chain ≡ none → (q : K) → view hash t q ≡ (if q == k then none else view hash t q)
  unfolding view chain
  view-absent absent q = elim (Bool-cases (q == k)) [
    | inl same ↦
        let is_k : q ≡ k = (e.same_iff q k).0 same in
        let unseen : seen t.id_clear k chain ≡ none =
          seen-eq-none t.id_clear k chain (count-eq-zero k chain absent) in
        rw same (subst (λ i. view hash t i ≡ none) (sym is_k) (unfold home in unseen))
    | inr other ↦ rw other refl
  ]

  dict_delete_absent : find_entry k chain ≡ none → dict_delete hash t k ≡ (false, t)
  unfolding dict_delete chain home
  dict_delete_absent absent = rw (absent, dict_delete) refl

  dict_delete_found :
      (old : Entry K V)
      → find_entry k chain ≡ some old
      → dict_delete hash t k ≡ (true, with_chain t home (without_entry k chain) (one_less t.used))
  unfolding dict_delete chain home
  dict_delete_found old found = rw (found, dict_delete) refl

  -- `dict_delete` takes the key out of the map.
  pub dict_delete-Updates : Updates hash t k none (dict_delete hash t k).1
  dict_delete-Updates = elim (Option-cases (find_entry k chain)) [
    | inl absent ↦
        subst (λ r. Updates hash t k none r.1) (sym (dict_delete_absent absent))
          (v, view-absent absent)
    | inr (old, found) ↦
        subst (λ r. Updates hash t k none r.1) (sym (dict_delete_found old found))
          (delete-Updates old found)
  ]

  pub dict_delete_frame :
      ((dict_delete hash t k).1.used ≤ t.used) × ((dict_delete hash t k).1.id_start ≡ t.id_start)
  dict_delete_frame = elim (Option-cases (find_entry k chain)) [
    | inl absent ↦
        subst (λ (r : Bool × Table K V). (r.1.used ≤ t.used) × (r.1.id_start ≡ t.id_start))
          (sym (dict_delete_absent absent)) (omega arith, refl)
    | inr (old, found) ↦
        subst (λ (r : Bool × Table K V). (r.1.used ≤ t.used) × (r.1.id_start ≡ t.id_start))
          (sym (dict_delete_found old found))
          (omega (arith, one_less_lem t.used (found-pos old found) few), refl)
  ]

  pub write-Updates :
      (old : Entry K V) (val : V)
      → find_entry k (chain_at t.table (index_of hash t.mask k)) ≡ some old
      → Alive t.id_clear (chain_at t.table (index_of hash t.mask k))
      → Updates hash t k (some val) (
          with_chain t
            (index_of hash t.mask k)
            (write_entry k val (chain_at t.table (index_of hash t.mask k)))
            t.used)
  unfolding chain home
  write-Updates old val h alive = (
    with_chain-IsTable hash t v home (write_entry k val chain) t.used home-lt
        (λ q.
          subst (λ n. n ≤ (if nat_beq home (index_of hash t.mask q) then 1 else 0))
            (sym (count-write_entry k q val chain)) (placed q home))
        (write_entry-Given t.id_start k val chain (given home))
        (omega (arith, length-write_entry k val chain)) few,
    view-home (write_entry k val chain) t.used (some val)
        (λ q. seen-write_entry t.id_clear k q val old chain alive h),
  )

  -- A new entry of a key that the chain does not have.
  module _ (val : V) (ids : t.id_start + 1 < 2 ^ 64) (room : t.used + 1 < 2 ^ 32) where
    -- The table after `id_start++`.
    next : Table K V
    next = record t { id_start = (t.id_start + 1) % 2 ^ 64 }

    ids-wrap : (t.id_start + 1) % 2 ^ 64 ≡ t.id_start + 1
    ids-wrap = omega arith

    later : (c : List (Entry K V)) → Given t.id_start c → Given ((t.id_start + 1) % 2 ^ 64) c
    later c h = subst (λ n. Given n c) (sym ids-wrap) (Given-later t.id_start c h)

    next-IsTable : IsTable hash next
    unfolding next
    next-IsTable = record {
      sized = sized;
      power = power;
      masked = masked;
      placed = placed;
      given = λ i. later (chain_at t.table i) (given i);
      counted = counted;
      few = few;
      cleared = omega arith;
    }

    placed-link :
        count k chain ≡ 0
        → (q : K)
        → count q (new_entry t k val ∷ chain)
          ≤ (if nat_beq home (index_of hash t.mask q) then 1 else 0)
    unfolding count new_entry chain
    placed-link absent q = ground (
      arith,
      placed q home,
      e.same_iff q k,
      same_key q,
      nat_beq_iff home (index_of hash t.mask q),
      ap (λ j. count j chain),
    )

    view-link :
        (q : K) → view hash (link hash t k val) q ≡ (if q == k then some val else view hash t q)
    unfolding link view chain home new_entry seen
    view-link q =
        view-home (new_entry t k val ∷ chain) ((t.used + 1) % 2 ^ 32) (some val) (λ j. ground arith)
          q

    pub link-Updates : held hash t k ≡ 0 → Updates hash t k (some val) (link hash t k val)
    unfolding link next chain home new_entry held
    link-Updates absent = (
      with_chain-IsTable hash next next-IsTable home (new_entry t k val ∷ chain)
          ((t.used + 1) % 2 ^ 32) home-lt (placed-link absent)
          (omega arith, later chain (given home)) (omega arith) (omega arith),
      view-link,
    )
