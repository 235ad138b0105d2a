-- ===== src/HashTable/Rehash.antt =====
-- The loops of `dict_expand` in utils/ut_dict.c: each entry goes to the front of its new chain.
use viabtc_server_mac.Prelude.{
  ℕ, ◌+◌, ◌^◌, ◌≤◌, ◌<◌, ◌≡◌, refl, true, false, List, [], ◌∷◌, arith, ◌++◌, KeyType, ◌==◌,
  if◌then◌else◌, length, nat_beq, sym, ap, ◌∙◌, Bool-cases, inl, inr, nat_beq_iff, subst,
}
use viabtc_server_mac.HashTable.Arrays.{
  chain_at, set_chain, total, length-set_chain, total-set_chain,
}
use viabtc_server_mac.HashTable.Chain.{Entry, count, seen, Given, counted_down}
use viabtc_server_mac.HashTable.Chain.Facts.{counted_down_lem, seen-eq-none}
use viabtc_server_mac.HashTable.Invariant.{index_of-lt, chain_at-set_chain, if-both}
use viabtc_server_mac.HashTable.Entries.{entries}
use viabtc_server_mac.HashTable.{index_of, move_chain, move_all}

module _ {K V : Type 0} ⦃e : KeyType K⦄ (hash : K → ℕ) (mask : ℕ) where
  -- One entry moved.
  push : Entry K V → List (List (Entry K V)) → List (List (Entry K V))
  push x fresh = let i = index_of hash mask x.key in set_chain fresh i (x ∷ chain_at fresh i)

  pub length-move_chain :
      (c : List (Entry K V)) (fresh : List (List (Entry K V)))
      → length (move_chain hash mask c fresh) ≡ length fresh
  unfolding move_chain push
  length-move_chain [] fresh = refl
  length-move_chain (x ∷ c) fresh =
      let i = index_of hash mask x.key in
      length-move_chain c (push x fresh) ∙ length-set_chain fresh i (x ∷ chain_at fresh i)

  pub total-move_chain :
      (c : List (Entry K V)) (fresh : List (List (Entry K V)))
      → mask + 1 ≡ length fresh
      → total (move_chain hash mask c fresh) ≡ total fresh + length c
  unfolding move_chain push
  total-move_chain [] fresh h = omega arith
  total-move_chain (x ∷ c) fresh h =
      let i = index_of hash mask x.key in
      let d = x ∷ chain_at fresh i in
      omega (
        arith,
        total-move_chain c (push x fresh) (h ∙ sym (length-set_chain fresh i d)),
        total-set_chain fresh i d (index_of-lt hash mask (length fresh) x.key h),
      )

  -- What stands in a chain after one entry was moved.
  chain_at-push :
      (x : Entry K V) (fresh : List (List (Entry K V))) (j : ℕ)
      → mask + 1 ≡ length fresh
      → chain_at (push x fresh) j ≡ (
          if nat_beq (index_of hash mask x.key) j
          then x ∷ chain_at fresh (index_of hash mask x.key)
          else chain_at fresh j)
  unfolding push
  chain_at-push x fresh j h =
      let i = index_of hash mask x.key in
      chain_at-set_chain fresh i j (x ∷ chain_at fresh i)
        (index_of-lt hash mask (length fresh) x.key h)

  length-push :
      (x : Entry K V) (fresh : List (List (Entry K V))) → length (push x fresh) ≡ length fresh
  unfolding push
  length-push x fresh =
      let i = index_of hash mask x.key in length-set_chain fresh i (x ∷ chain_at fresh i)

  pub move_chain-Given :
      (n : ℕ) (c : List (Entry K V)) (fresh : List (List (Entry K V)))
      → mask + 1 ≡ length fresh
      → Given n c
      → ((i : ℕ) → Given n (chain_at fresh i))
      → (i : ℕ) → Given n (chain_at (move_chain hash mask c fresh) i)
  unfolding move_chain push
  move_chain-Given n [] fresh h g f i = f i
  move_chain-Given n (x ∷ c) fresh h g f i' =
      let i = index_of hash mask x.key in
      move_chain-Given n c (push x fresh) (h ∙ sym (length-push x fresh)) g.1
        (λ j. subst (Given n) (sym (chain_at-push x fresh j h)) (
          if-both (Given n) (nat_beq i j) (x ∷ chain_at fresh i) (chain_at fresh j)
            (λ same. (g.0, f i)) (λ other. f j)))
        i'

  -- How much an entry adds to the count of a key in a chain.
  added : K → Entry K V → ℕ → ℕ
  added k x j = if nat_beq j (index_of hash mask k) then (if k == x.key then 1 else 0) else 0

  same_index :
      (k : K) (x : Entry K V)
      → (k == x.key) ≡ true
      → index_of hash mask k ≡ index_of hash mask x.key
  same_index k x h = ap (index_of hash mask) ((e.same_iff k x.key).0 h)

  count-push :
      (k : K) (x : Entry K V) (fresh : List (List (Entry K V))) (j : ℕ)
      → mask + 1 ≡ length fresh
      → count k (chain_at (push x fresh) j) ≡ count k (chain_at fresh j) + added k x j
  unfolding count added
  count-push k x fresh j h =
      let i = index_of hash mask x.key in
      subst (λ d. count k d ≡ count k (chain_at fresh j) + added k x j)
        (sym (chain_at-push x fresh j h))
        (if-both (λ d. count k d ≡ count k (chain_at fresh j) + added k x j) (nat_beq i j)
          (x ∷ chain_at fresh i) (chain_at fresh j)
          (λ same.
            let there : i ≡ j = (nat_beq_iff i j).0 same in
            rw there (
              ground
                (arith, same_index k x, nat_beq_iff i j, nat_beq_iff j (index_of hash mask k))))
          (λ other.
            ground (arith, same_index k x, nat_beq_iff i j, nat_beq_iff j (index_of hash mask k))))

  count-push_ne :
      (k : K) (x : Entry K V) (fresh : List (List (Entry K V))) (j : ℕ)
      → mask + 1 ≡ length fresh
      → (k == x.key) ≡ false
      → count k (chain_at fresh j) ≡ 0
      → count k (chain_at (push x fresh) j) ≡ 0
  unfolding added
  count-push_ne k x fresh j h other z = ground (arith, count-push k x fresh j h)

  pub count-move_chain :
      (k : K) (c : List (Entry K V)) (fresh : List (List (Entry K V))) (j : ℕ)
      → mask + 1 ≡ length fresh
      → count k (chain_at (move_chain hash mask c fresh) j)
        ≡ count k (chain_at fresh j) + (if nat_beq j (index_of hash mask k) then count k c else 0)
  unfolding move_chain count push added
  count-move_chain k [] fresh j h = ground arith
  count-move_chain k (x ∷ c) fresh j h = ground (
    arith,
    count-move_chain k c (push x fresh) j (h ∙ sym (length-push x fresh)),
    count-push k x fresh j h,
  )

  seen-push_ne :
      (n : ℕ) (k : K) (x : Entry K V) (fresh : List (List (Entry K V))) (j : ℕ)
      → mask + 1 ≡ length fresh
      → (k == x.key) ≡ false
      → seen n k (chain_at (push x fresh) j) ≡ seen n k (chain_at fresh j)
  unfolding seen
  seen-push_ne n k x fresh j h other =
      let i = index_of hash mask x.key in
      ap (seen n k) (chain_at-push x fresh j h)
      ∙ if-both (λ d. seen n k d ≡ seen n k (chain_at fresh j)) (nat_beq i j) (x ∷ chain_at fresh i)
          (chain_at fresh j)
          (λ same. rw other (ap (λ m. seen n k (chain_at fresh m)) ((nat_beq_iff i j).0 same)))
          (λ apart. refl)

  chain_at-push_self :
      (k : K) (x : Entry K V) (fresh : List (List (Entry K V)))
      → mask + 1 ≡ length fresh
      → (k == x.key) ≡ true
      → chain_at (push x fresh) (index_of hash mask k) ≡ x ∷ chain_at fresh (index_of hash mask k)
  chain_at-push_self k x fresh h same =
      let i = index_of hash mask x.key in
      let there : i ≡ index_of hash mask k = sym (same_index k x same) in
      subst (λ m. chain_at (push x fresh) m ≡ x ∷ chain_at fresh m) there
        (chain_at-push x fresh i h ∙ rw ((nat_beq_iff i i).1 refl) refl)

  -- Entries of other keys do not change what is seen of a key.
  seen-move_chain_none :
      (n : ℕ) (k : K) (c : List (Entry K V)) (fresh : List (List (Entry K V))) (j : ℕ)
      → mask + 1 ≡ length fresh
      → count k c ≡ 0
      → seen n k (chain_at (move_chain hash mask c fresh) j) ≡ seen n k (chain_at fresh j)
  unfolding move_chain count push
  seen-move_chain_none n k [] fresh j h z = refl
  seen-move_chain_none n k (x ∷ c) fresh j h z =
      seen-move_chain_none n k c (push x fresh) j (h ∙ sym (length-push x fresh)) (omega arith)
      ∙ seen-push_ne n k x fresh j h (ground arith)

  -- A key that stands once among the moved entries, and not in its new chain, is seen as among them.
  pub seen-move_chain :
      (n : ℕ) (k : K) (c : List (Entry K V)) (fresh : List (List (Entry K V)))
      → mask + 1 ≡ length fresh
      → count k c ≤ 1
      → count k (chain_at fresh (index_of hash mask k)) ≡ 0
      → seen n k (chain_at (move_chain hash mask c fresh) (index_of hash mask k)) ≡ seen n k c
  unfolding move_chain push seen
  seen-move_chain n k [] fresh h once z = seen-eq-none n k (chain_at fresh (index_of hash mask k)) z
  seen-move_chain n k (x ∷ c) fresh h once z =
      let longer = h ∙ sym (length-push x fresh) in
      elim (Bool-cases (k == x.key)) [
        | inl same ↦
            let rest : count k c ≡ 0 = unfold count in ground arith in
            seen-move_chain_none n k c (push x fresh) (index_of hash mask k) longer rest
            ∙ ap (seen n k) (chain_at-push_self k x fresh h same)
            ∙ ground (
              arith,
              seen-eq-none n k (chain_at fresh (index_of hash mask k)) z,
              seen-eq-none n k c rest,
            )
        | inr other ↦
            let rest : count k c ≤ 1 = unfold count in ground arith in
            seen-move_chain n k c (push x fresh) longer rest
              (count-push_ne k x fresh (index_of hash mask k) h other z)
            ∙ ground arith
      ]

module _ {K V : Type 0} ⦃e : KeyType K⦄ (hash : K → ℕ) (mask : ℕ) where
  move_chain-append :
      (a b : List (Entry K V)) (fresh : List (List (Entry K V)))
      → move_chain hash mask (a ++ b) fresh ≡ move_chain hash mask b (move_chain hash mask a fresh)
  unfolding move_chain
  move_chain-append [] b fresh = refl
  move_chain-append (x ∷ a) b fresh =
      let i = index_of hash mask x.key in
      move_chain-append a b (set_chain fresh i (x ∷ chain_at fresh i))

  entries-eq-nil : (cs : List (List (Entry K V))) → total cs ≡ 0 → entries cs ≡ []
  unfolding total entries
  entries-eq-nil [] h = refl
  entries-eq-nil ([] ∷ cs) h = entries-eq-nil cs (omega arith)
  entries-eq-nil ((x ∷ c) ∷ cs) h = absurd (omega arith)

  -- Since `used` counts the entries, the loop leaves none behind.
  pub move_all_lem :
      (used : ℕ) (cs fresh : List (List (Entry K V)))
      → total cs ≡ used
      → used < 2 ^ 32
      → move_all hash mask used cs fresh ≡ move_chain hash mask (entries cs) fresh
  unfolding move_all entries total
  move_all_lem used [] fresh h b = unfold move_chain in refl
  move_all_lem used (c ∷ cs) fresh h b = elim (Bool-cases (nat_beq used 0)) [
    | inl over ↦
        let z : used ≡ 0 = (nat_beq_iff used 0).0 over in
        rw (over, entries-eq-nil (c ∷ cs) (h ∙ z)) (unfold move_chain in refl)
    | inr more ↦
        let down = counted_down_lem used c (omega arith) b in
        rw more (
          move_all_lem (counted_down used c) cs (move_chain hash mask c fresh) (omega arith)
            (omega arith)
          ∙ sym (move_chain-append c (entries cs) fresh))
  ]
