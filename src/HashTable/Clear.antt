-- ===== src/HashTable/Clear.antt =====
-- `dict_clear` of utils/ut_dict.c: where the iterator stands, and what a deletion there does.
use viabtc_server_mac.Prelude.{
  ℕ, zero, suc, ◌+◌, ◌≤◌, ◌<◌, ◌≡◌, refl, sym, ap, ◌∙◌, Option, none, some, List, [], ◌∷◌, arith,
  KeyType, leb, length, Bool-cases, inl, inr, subst, nat_beq, nat_beq_iff, ◌⊎◌,
}
use viabtc_server_mac.HashTable.Arrays.{
  chain_at, set_chain, total, chain_at-set_chain_self, chain_at-set_chain_ne, length-chain_at-le,
}
use viabtc_server_mac.HashTable.Chain.{Entry, count, seen, find_entry, without_entry, one_less}
use viabtc_server_mac.HashTable.Chain.Facts.{one_less_lem}
use viabtc_server_mac.HashTable.Invariant.{IsTable, view}
use viabtc_server_mac.HashTable.Methods.{dict_delete-Updates}
use viabtc_server_mac.HashTable.Iterate.{
  Iterator, dict_get_iterator, next_from, dict_next, clear_from, dict_clear,
}
use viabtc_server_mac.HashTable.{Table, index_of, dict_delete}

module _ {K V : Type 0} ⦃e : KeyType K⦄ where
  count-head : (x : Entry K V) (c : List (Entry K V)) → 1 ≤ count x.key (x ∷ c)
  unfolding count
  count-head x c = ground (arith, e.same_iff x.key x.key)

  find_entry-head : (x : Entry K V) (c : List (Entry K V)) → find_entry x.key (x ∷ c) ≡ some x
  unfolding find_entry
  find_entry-head x c = rw ((e.same_iff x.key x.key).1 refl) refl

  without_entry-head : (x : Entry K V) (c : List (Entry K V)) → without_entry x.key (x ∷ c) ≡ c
  unfolding without_entry
  without_entry-head x c = rw ((e.same_iff x.key x.key).1 refl) refl

module _ {K V : Type 0} ⦃e : KeyType K⦄ (hash : K → ℕ) (t : Table K V) (v : IsTable hash t) where
  -- The entry at the head of a chain is at home there, and deleting it leaves the rest of the chain.
  delete-head :
      (i : ℕ) (x : Entry K V) (c : List (Entry K V))
      → chain_at t.table i ≡ x ∷ c
      → (dict_delete hash t x.key).1
        ≡ record t { table = set_chain t.table i c; used = one_less t.used }
  unfolding dict_delete
  delete-head i x c at_head =
      let k = x.key in
      let once = v.placed k i in
      let here : 1 ≤ count k (chain_at t.table i) =
        subst (λ d. 1 ≤ count k d) (sym at_head) (count-head x c) in
      let home : i ≡ index_of hash t.mask k =
        (nat_beq_iff i (index_of hash t.mask k)).0 (ground arith) in
      let there : chain_at t.table (index_of hash t.mask k) ≡ x ∷ c =
        ap (chain_at t.table) (sym home) ∙ at_head in
      let rest : without_entry k (chain_at t.table (index_of hash t.mask k)) ≡ c =
        ap (without_entry k) there ∙ without_entry-head x c in
      rw (there, find_entry-head x c, dict_delete)
        (λ j. record t { table = set_chain t.table (sym home j) (rest j); used = one_less t.used })

module _ {K V : Type 0} where
  chain_at-outside : (cs : List (List (Entry K V))) (j : ℕ) → length cs ≤ j → chain_at cs j ≡ []
  unfolding chain_at
  chain_at-outside [] j h = refl
  chain_at-outside (c ∷ cs) zero h = absurd (omega arith)
  chain_at-outside (c ∷ cs) (suc j) h = chain_at-outside cs j (omega arith)

  inside_of :
      (cs : List (List (Entry K V))) (i : ℕ) (x : Entry K V) (c : List (Entry K V))
      → chain_at cs i ≡ x ∷ c
      → i < length cs
  inside_of cs i x c h = elim (Bool-cases (leb (length cs) i)) [
    | inl out ↦
        let gone = chain_at-outside cs i (ground arith) in let bad : x ∷ c ≡ [] = sym h ∙ gone in cc
    | inr within ↦ ground arith
  ]

  total-empty : (cs : List (List (Entry K V))) → ((j : ℕ) → chain_at cs j ≡ []) → total cs ≡ 0
  unfolding chain_at total
  total-empty [] h = refl
  total-empty (c ∷ cs) h = omega (arith, ap length (h 0), total-empty cs (λ j. h (suc j)))

  -- The rounds that an iterator may take without moving to another chain.
  cost : Option (List (Entry K V)) → ℕ
  cost none = 1
  cost (some rest) = 2

  cost-le : (current : Option (List (Entry K V))) → cost current ≤ 2
  unfolding cost
  cost-le none = omega arith
  cost-le (some rest) = omega arith

  -- The chains behind the iterator are empty, but for what is left of the one it is in.
  Behind : Table K V → ℕ → Option (List (Entry K V)) → Type 0
  Behind t index none = (j : ℕ) → j < index → chain_at t.table j ≡ []
  Behind t index (some rest) =
      (i : ℕ) × (index ≡ suc i)
      × (chain_at t.table i ≡ rest)
      × ((j : ℕ) → j < i → chain_at t.table j ≡ [])

  -- What `dict_next` finds: no entry in the table, or the first one of the first chain that has any.
  Found : Table K V → Option (Option (Entry K V) × Iterator K V) → Type 0
  Found t r =
      ((it : Iterator K V) × (r ≡ some (none, it)) × ((j : ℕ) → chain_at t.table j ≡ []))
      ⊎ ((i : ℕ) × (x : Entry K V) × (rest : List (Entry K V)) × (r
            ≡ some (some x, record { index = suc i; current = some rest }))
          × (chain_at t.table i ≡ x ∷ rest)
          × ((j : ℕ) → j < i → chain_at t.table j ≡ []))

  next_from-Found :
      (t : Table K V) (fuel index : ℕ) (current : Option (List (Entry K V)))
      → length t.table ≡ t.size
      → Behind t index current
      → cost current ≤ fuel
      → t.size + t.size + cost current ≤ fuel + index + index
      → Found t (next_from fuel t index current)
  unfolding next_from Behind Found cost
  next_from-Found t zero index (some (x ∷ rest)) sized b c h = absurd (omega arith)
  next_from-Found t (suc fuel) index (some (x ∷ rest)) sized (i, at, here, before) c h = inr (
    i,
    x,
    rest,
    ap (λ n. some (some x, record { index = n; current = some rest })) at,
    here,
    before,
  )
  next_from-Found t zero index (some []) sized b c h = absurd (omega arith)
  next_from-Found t zero index none sized b c h = absurd (omega arith)
  next_from-Found t (suc fuel) index (some []) sized (i, at, here, before) c h =
      next_from-Found t fuel index none sized
        (λ j lt. elim (Bool-cases (nat_beq j i)) [
          | inl same ↦ ap (chain_at t.table) ((nat_beq_iff j i).0 same) ∙ here
          | inr other ↦ before j (ground (arith, nat_beq_iff j i))
        ])
        (omega arith) (omega arith)
  next_from-Found t (suc fuel) index none sized b c h = elim (Bool-cases (leb t.size index)) [
    | inl over ↦ rw over (
        inl (
          record { index = suc index; current = none },
          refl,
          λ j. elim (Bool-cases (leb t.size j)) [
            | inl out ↦ chain_at-outside t.table j (ground (arith, sized))
            | inr within ↦ b j (ground arith)
          ],
        ))
    | inr more ↦ rw more (
        next_from-Found t fuel (suc index) (some (chain_at t.table index)) sized
          (index, refl, refl, b) (ground arith) (omega arith))
  ]

module _ {K V : Type 0} ⦃e : KeyType K⦄ (hash : K → ℕ) (fuel : ℕ) where
  -- The table after the first entry of a chain was deleted.
  after_delete : Table K V → ℕ → List (Entry K V) → Table K V
  after_delete t i rest = record t { table = set_chain t.table i rest; used = one_less t.used }

  used_pos :
      (t : Table K V) (i : ℕ) (x : Entry K V) (rest : List (Entry K V))
      → IsTable hash t
      → chain_at t.table i ≡ x ∷ rest
      → 0 < t.used
  used_pos t i x rest v here =
      omega (arith, length-chain_at-le t.table i, ap length here, v.counted)

  clear_lem :
      (rounds : ℕ) (t : Table K V) (index : ℕ) (current : Option (List (Entry K V)))
      → IsTable hash t
      → fuel ≡ t.size + t.size + 2
      → Behind t index current
      → t.used < rounds
      → (s : Table K V) × (clear_from hash fuel rounds t
            (record { index = index; current = current })
          ≡ some s)
        × IsTable hash s
        × ((j : ℕ) → chain_at s.table j ≡ [])
  unfolding clear_from dict_next Found Behind after_delete
  clear_lem zero t index current v f b few = absurd (omega arith)
  clear_lem (suc rounds) t index current v f b few =
      let small = cost-le current in
      elim (next_from-Found t fuel index current v.sized b (omega arith) (omega arith)) [
        | inl (it, done, empty) ↦ (t, rw done refl, v, empty)
        | inr (i, x, rest, found, here, before) ↦
            let s = after_delete t i rest in
            let deleted : (dict_delete hash t x.key).1 ≡ s = delete-head hash t v i x rest here in
            let inside : i < length t.table = inside_of t.table i x rest here in
            let good : IsTable hash s =
              subst (IsTable hash) deleted (dict_delete-Updates hash t v x.key).0 in
            let (r, run, kept, empty) =
              clear_lem rounds s (suc i) (some rest) good f
                (
                  i,
                  refl,
                  chain_at-set_chain_self t.table i rest inside,
                  λ j lt.
                      chain_at-set_chain_ne t.table i j rest (λ z. absurd (omega (arith, z)))
                      ∙ before j lt,
                )
                (omega (arith, one_less_lem t.used (used_pos t i x rest v here) v.few)) in
            (r, rw (found, deleted) run, kept, empty)
      ]

-- On a table, `dict_clear` ends and leaves a table without entries, in which no key is found.
pub dict_clear_lem :
    {K V : Type 0} ⦃e : KeyType K⦄ (hash : K → ℕ) (t : Table K V)
    → IsTable hash t
    → (s : Table K V) × (dict_clear hash t ≡ some s)
      × IsTable hash s
      × (s.used ≡ 0)
      × ((k : K) → view hash s k ≡ none)
unfolding dict_clear dict_get_iterator view seen Behind
dict_clear_lem hash t v =
    let (s, run, kept, empty) =
      clear_lem hash (t.size + t.size + 2) (suc t.used) t 0 none v refl
        (λ j lt. absurd (omega arith)) (omega arith) in
    (
      s,
      run,
      kept,
      sym kept.counted ∙ total-empty s.table empty,
      λ k. rw (empty (index_of hash s.mask k)) refl,
    )
