-- ===== src/HashTable/Entries.antt =====
-- All the entries of a table of utils/ut_dict.c, chain after chain.
use viabtc_server_mac.Prelude.{
  ℕ, zero, suc, ◌+◌, ◌<◌, ◌≡◌, refl, List, [], ◌∷◌, arith, ◌++◌, KeyType, length, sym, ◌∙◌,
  All-append, ◌≢◌, length-append,
}
use viabtc_server_mac.HashTable.Arrays.{chain_at, total}
use viabtc_server_mac.HashTable.Chain.{Entry, count, seen, Given}
use viabtc_server_mac.HashTable.Chain.Facts.{seen-eq-none}

suc-ne-zero : {n : ℕ} → suc n ≡ 0 → ⊥
suc-ne-zero h = omega arith

suc_inj : {n m : ℕ} → suc n ≡ suc m → n ≡ m
suc_inj h = omega arith

-- All entries, chain after chain: the order in which `dict_next` returns them.
unfoldable pub entries : {K V : Type 0} → List (List (Entry K V)) → List (Entry K V)
entries [] = []
entries (c ∷ cs) = c ++ entries cs

pub length-entries : {K V : Type 0} (cs : List (List (Entry K V))) → length (entries cs) ≡ total cs
unfolding entries total
length-entries [] = refl
length-entries (c ∷ cs) = omega (arith, length-append c (entries cs), length-entries cs)

pub entries-Given :
    {K V : Type 0} (n : ℕ) (cs : List (List (Entry K V)))
    → ((i : ℕ) → Given n (chain_at cs i))
    → Given n (entries cs)
unfolding entries chain_at
entries-Given n [] h = tt
entries-Given n (c ∷ cs) h =
    All-append (λ x. x.id < n) c (entries cs) (h 0) (entries-Given n cs (λ i. h (suc i)))

module _ {K V : Type 0} ⦃e : KeyType K⦄ where
  pub count-append : (k : K) (a b : List (Entry K V)) → count k (a ++ b) ≡ count k a + count k b
  unfolding count
  count-append k [] b = omega arith
  count-append k (x ∷ a) b = omega (arith, count-append k a b)

  seen-append_left :
      (n : ℕ) (k : K) (a b : List (Entry K V)) → count k b ≡ 0 → seen n k (a ++ b) ≡ seen n k a
  unfolding seen
  seen-append_left n k [] b h = seen-eq-none n k b h
  seen-append_left n k (x ∷ a) b h = ground (arith, seen-append_left n k a b h)

  seen-append_right :
      (n : ℕ) (k : K) (a b : List (Entry K V)) → count k a ≡ 0 → seen n k (a ++ b) ≡ seen n k b
  unfolding seen count
  seen-append_right n k [] b h = refl
  seen-append_right n k (x ∷ a) b h = ground (arith, seen-append_right n k a b)

  count-entries_none :
      (k : K) (cs : List (List (Entry K V)))
      → ((i : ℕ) → count k (chain_at cs i) ≡ 0)
      → count k (entries cs) ≡ 0
  unfolding entries chain_at count
  count-entries_none k [] h = refl
  count-entries_none k (c ∷ cs) h =
      omega (arith, count-append k c (entries cs), h 0, count-entries_none k cs (λ i. h (suc i)))

  -- A key that stands in one chain only is counted and seen as in that chain.
  pub count-entries :
      (k : K) (cs : List (List (Entry K V))) (home : ℕ)
      → ((i : ℕ) → i ≢ home → count k (chain_at cs i) ≡ 0)
      → count k (entries cs) ≡ count k (chain_at cs home)
  unfolding entries chain_at
  count-entries k [] home h = refl
  count-entries k (c ∷ cs) zero h = omega (
    arith,
    count-append k c (entries cs),
    count-entries_none k cs (λ i. h (suc i) (λ p. suc-ne-zero p)),
  )
  count-entries k (c ∷ cs) (suc home) h = omega (
    arith,
    count-append k c (entries cs),
    h 0 (λ p. suc-ne-zero (sym p)),
    count-entries k cs home (λ i p. h (suc i) (λ q. p (suc_inj q))),
  )

  pub seen-entries :
      (n : ℕ) (k : K) (cs : List (List (Entry K V))) (home : ℕ)
      → ((i : ℕ) → i ≢ home → count k (chain_at cs i) ≡ 0)
      → seen n k (entries cs) ≡ seen n k (chain_at cs home)
  unfolding entries chain_at
  seen-entries n k [] home h = refl
  seen-entries n k (c ∷ cs) zero h =
      seen-append_left n k c (entries cs)
        (count-entries_none k cs (λ i. h (suc i) (λ p. suc-ne-zero p)))
  seen-entries n k (c ∷ cs) (suc home) h =
      seen-append_right n k c (entries cs) (h 0 (λ p. suc-ne-zero (sym p)))
      ∙ seen-entries n k cs home (λ i p. h (suc i) (λ q. p (suc_inj q)))
