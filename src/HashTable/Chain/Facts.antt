-- ===== src/HashTable/Chain/Facts.antt =====
-- What the loops over a chain of utils/ut_dict.c do to the entries that are seen and to their number.
use viabtc_server_mac.Prelude.{
  ℕ, ◌+◌, ◌^◌, ◌≤◌, ◌<◌, ◌≡◌, refl, none, some, List, [], ◌∷◌, arith, KeyType, ◌==◌, if◌then◌else◌,
  length,
}
use viabtc_server_mac.HashTable.Chain.{
  Entry, one_less, find_entry, write_entry, without_entry, kept, used_after, counted_down, count,
  seen, Alive, Given, value,
}

pub one_less_lem : (used : ℕ) → 0 < used → used < 2 ^ 32 → one_less used + 1 ≡ used
unfolding one_less
one_less_lem used h k = omega arith

module _ {K V : Type 0} where
  pub used_after_lem :
      (n : ℕ) (c : List (Entry K V)) (used : ℕ)
      → length c ≤ used
      → used < 2 ^ 32
      → used_after n c used + length c ≡ used + length (kept n c)
  unfolding used_after kept
  used_after_lem n [] used h b = refl
  used_after_lem n (x ∷ c) used h b = ground (
    arith,
    used_after_lem n c used (omega arith) b,
    used_after_lem n c (one_less used),
    one_less_lem used (omega arith) b,
  )

  pub counted_down_lem :
      (used : ℕ) (c : List (Entry K V))
      → length c ≤ used
      → used < 2 ^ 32
      → counted_down used c + length c ≡ used
  unfolding counted_down
  counted_down_lem used [] h b = omega arith
  counted_down_lem used (x ∷ c) h b =
      ground (arith, counted_down_lem (one_less used) c, one_less_lem used (omega arith) b)

  pub length-kept-le : (n : ℕ) (c : List (Entry K V)) → length (kept n c) ≤ length c
  unfolding kept
  length-kept-le n [] = omega arith
  length-kept-le n (x ∷ c) = ground (arith, length-kept-le n c)

  pub kept-Alive : (n : ℕ) (c : List (Entry K V)) → Alive n (kept n c)
  unfolding kept
  kept-Alive n [] = tt
  kept-Alive n (x ∷ c) = ground (arith, kept-Alive n c)

  pub kept-Given : (n m : ℕ) (c : List (Entry K V)) → Given m c → Given m (kept n c)
  unfolding kept
  kept-Given n m [] h = tt
  kept-Given n m (x ∷ c) h = ground (arith, kept-Given n m c h.1)

  pub zero-Alive : (c : List (Entry K V)) → Alive 0 c
  zero-Alive [] = tt
  zero-Alive (x ∷ c) = (omega arith, zero-Alive c)

module _ {K V : Type 0} ⦃e : KeyType K⦄ where
  pub find_entry-eq-none : (k : K) (c : List (Entry K V)) → count k c ≡ 0 → find_entry k c ≡ none
  unfolding find_entry count
  find_entry-eq-none k [] h = refl
  find_entry-eq-none k (x ∷ c) h = ground (arith, find_entry-eq-none k c)

  pub count-eq-zero : (k : K) (c : List (Entry K V)) → find_entry k c ≡ none → count k c ≡ 0
  unfolding find_entry count
  count-eq-zero k [] h = refl
  count-eq-zero k (x ∷ c) h = ground (arith, count-eq-zero k c)

  pub seen-eq-none : (n : ℕ) (k : K) (c : List (Entry K V)) → count k c ≡ 0 → seen n k c ≡ none
  unfolding seen count
  seen-eq-none n k [] h = refl
  seen-eq-none n k (x ∷ c) h = ground (arith, seen-eq-none n k c)

  pub seen-Given : (n : ℕ) (k : K) (c : List (Entry K V)) → Given n c → seen n k c ≡ none
  unfolding seen
  seen-Given n k [] h = refl
  seen-Given n k (x ∷ c) h = ground (arith, seen-Given n k c h.1)

  pub seen-Alive :
      (n : ℕ) (k : K) (c : List (Entry K V)) → Alive n c → value (find_entry k c) ≡ seen n k c
  unfolding seen find_entry
  seen-Alive n k [] h = refl
  seen-Alive n k (x ∷ c) h = ground (arith, seen-Alive n k c h.1)

  pub seen-kept : (n : ℕ) (k : K) (c : List (Entry K V)) → seen n k (kept n c) ≡ seen n k c
  unfolding seen kept
  seen-kept n k [] = refl
  seen-kept n k (x ∷ c) = ground (arith, seen-kept n k c)

  pub count-kept-le : (n : ℕ) (k : K) (c : List (Entry K V)) → count k (kept n c) ≤ count k c
  unfolding count kept
  count-kept-le n k [] = omega arith
  count-kept-le n k (x ∷ c) = ground (arith, count-kept-le n k c)

  pub seen-write_entry :
      (n : ℕ) (k q : K) (v : V) (old : Entry K V) (c : List (Entry K V))
      → Alive n c
      → find_entry k c ≡ some old
      → seen n q (write_entry k v c) ≡ (if q == k then some v else seen n q c)
  unfolding seen write_entry find_entry
  seen-write_entry n k q v old [] a h = cc
  seen-write_entry n k q v old (x ∷ c) a h = ground (
    arith,
    seen-write_entry n k q v old c a.1,
    e.same_iff q k,
    e.same_iff k x.key,
    e.same_iff q x.key,
  )

  pub count-write_entry :
      (k q : K) (v : V) (c : List (Entry K V)) → count q (write_entry k v c) ≡ count q c
  unfolding count write_entry
  count-write_entry k q v [] = refl
  count-write_entry k q v (x ∷ c) = ground (arith, count-write_entry k q v c)

  pub length-write_entry :
      (k : K) (v : V) (c : List (Entry K V)) → length (write_entry k v c) ≡ length c
  unfolding write_entry
  length-write_entry k v [] = refl
  length-write_entry k v (x ∷ c) = ground (arith, length-write_entry k v c)

  pub write_entry-Given :
      (n : ℕ) (k : K) (v : V) (c : List (Entry K V)) → Given n c → Given n (write_entry k v c)
  unfolding write_entry
  write_entry-Given n k v [] h = tt
  write_entry-Given n k v (x ∷ c) h = ground (arith, write_entry-Given n k v c h.1)

  pub seen-without_entry :
      (n : ℕ) (k q : K) (c : List (Entry K V))
      → count q c ≤ 1
      → seen n q (without_entry k c) ≡ (if q == k then none else seen n q c)
  unfolding seen without_entry count
  seen-without_entry n k q [] h = ground arith
  seen-without_entry n k q (x ∷ c) h = ground (
    arith,
    seen-without_entry n k q c,
    seen-eq-none n q c,
    e.same_iff q k,
    e.same_iff x.key k,
    e.same_iff q x.key,
  )

  pub count-without_entry-le :
      (k q : K) (c : List (Entry K V)) → count q (without_entry k c) ≤ count q c
  unfolding count without_entry
  count-without_entry-le k q [] = omega arith
  count-without_entry-le k q (x ∷ c) = ground (arith, count-without_entry-le k q c)

  pub length-without_entry :
      (k : K) (old : Entry K V) (c : List (Entry K V))
      → find_entry k c ≡ some old
      → length (without_entry k c) + 1 ≡ length c
  unfolding find_entry without_entry
  length-without_entry k old [] h = cc
  length-without_entry k old (x ∷ c) h =
      ground (arith, length-without_entry k old c, e.same_iff k x.key, e.same_iff x.key k)

  pub without_entry-Given :
      (n : ℕ) (k : K) (c : List (Entry K V)) → Given n c → Given n (without_entry k c)
  unfolding without_entry
  without_entry-Given n k [] h = tt
  without_entry-Given n k (x ∷ c) h = ground (arith, without_entry-Given n k c h.1)
