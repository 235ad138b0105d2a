-- ===== src/HashTable/Sweep.antt =====
-- `check_clear`, `dict_find` and `dict_mark_clear` of utils/ut_dict.c against the map that the table
-- stands for.
use native.Mathlib.Nat.{le_trans}
use viabtc_server_mac.Prelude.{
  ℕ, ◌+◌, ◌%◌, ◌^◌, ◌≤◌, ◌<◌, ◌≡◌, refl, none, List, [], ◌∷◌, arith, KeyType, ltb, length, nat_beq,
  sym, ap, ◌∙◌, nat_beq_iff, subst,
}
use viabtc_server_mac.HashTable.Arrays.{chain_at, length-chain_at-le, chain_at-set_chain_self}
use viabtc_server_mac.HashTable.Chain.{Entry, seen, Given, Alive, kept, used_after, value}
use viabtc_server_mac.HashTable.Chain.Facts.{
  used_after_lem, length-kept-le, kept-Alive, kept-Given, zero-Alive, seen-Given, seen-Alive,
  seen-kept, count-kept-le,
}
use viabtc_server_mac.HashTable.Invariant.{
  IsTable, view, index_of-lt, with_chain-IsTable, view-with_chain, if-both,
}
use viabtc_server_mac.HashTable.{
  Table, index_of, check_clear, clear_if_marked, dict_find, dict_mark_clear,
}

-- What an operation leaves as it was, and a number of entries that does not grow.
abbrev pub SameFrame : {K V : Type 0} → Table K V → Table K V → Type 0
SameFrame t s =
    (s.size ≡ t.size)
    × (s.mask ≡ t.mask)
    × (s.id_start ≡ t.id_start)
    × (s.id_clear ≡ t.id_clear)
    × (s.used ≤ t.used)

pub Given-later : {K V : Type 0} (n : ℕ) (c : List (Entry K V)) → Given n c → Given (n + 1) c
Given-later n [] h = tt
Given-later n (x ∷ c) h = (omega (arith, h.0), Given-later n c h.1)

module _ {K V : Type 0} ⦃e : KeyType K⦄ (hash : K → ℕ) (t : Table K V) (v : IsTable hash t) where
  open v use {sized, power, masked, placed, given, counted, few, cleared}

  module _ (i : ℕ) (inside : i < t.size) where
    left : ℕ
    left = used_after t.id_clear (chain_at t.table i) t.used

    left_lem :
        left + length (chain_at t.table i) ≡ t.used + length (kept t.id_clear (chain_at t.table i))
    unfolding left
    left_lem =
        used_after_lem t.id_clear (chain_at t.table i) t.used
          (omega (arith, length-chain_at-le t.table i, counted)) few

    pub check_clear-IsTable : IsTable hash (check_clear t i)
    unfolding check_clear left
    check_clear-IsTable =
        with_chain-IsTable hash t v i (kept t.id_clear (chain_at t.table i)) left inside
          (λ k. le_trans (count-kept-le t.id_clear k (chain_at t.table i)) (placed k i))
          (kept-Given t.id_clear t.id_start (chain_at t.table i) (given i)) left_lem
          (omega (arith, left_lem, length-kept-le t.id_clear (chain_at t.table i), few))

    pub view-check_clear : (k : K) → view hash (check_clear t i) k ≡ view hash t k
    unfolding check_clear view
    view-check_clear k =
        view-with_chain hash t v i (kept t.id_clear (chain_at t.table i)) (left) inside k
        ∙ if-both (λ d. d ≡ view hash t k) (nat_beq i (index_of hash t.mask k))
            (seen t.id_clear k (kept t.id_clear (chain_at t.table i))) (view hash t k)
            (λ same.
              seen-kept t.id_clear k (chain_at t.table i)
              ∙ ap (λ n. seen t.id_clear k (chain_at t.table n))
                  ((nat_beq_iff i (index_of hash t.mask k)).0 same))
            (λ other. refl)

    pub clear_if_marked-IsTable : IsTable hash (clear_if_marked t i)
    unfolding clear_if_marked
    clear_if_marked-IsTable =
        if-both (λ s. IsTable hash s) (ltb 0 t.id_clear) (check_clear t i) t
          (λ marked. check_clear-IsTable) (λ never. v)

    pub view-clear_if_marked : (k : K) → view hash (clear_if_marked t i) k ≡ view hash t k
    unfolding clear_if_marked
    view-clear_if_marked k =
        if-both (λ s. view hash s k ≡ view hash t k) (ltb 0 t.id_clear) (check_clear t i) t
          (λ marked. view-check_clear k) (λ never. refl)

    -- What a sweep leaves as it was.
    pub clear_if_marked_frame : (SameFrame t (clear_if_marked t i))
    unfolding clear_if_marked check_clear left
    clear_if_marked_frame =
        if-both (λ s. SameFrame t s) (ltb 0 t.id_clear) (check_clear t i) t
          (λ marked. (
            refl,
            refl,
            refl,
            refl,
            omega (arith, left_lem, length-kept-le t.id_clear (chain_at t.table i)),
          ))
          (λ never. (refl, refl, refl, refl, omega arith))

    pub clear_if_marked-Alive : Alive t.id_clear (chain_at (clear_if_marked t i).table i)
    unfolding clear_if_marked check_clear
    clear_if_marked-Alive =
        if-both (λ s. Alive t.id_clear (chain_at s.table i)) (ltb 0 t.id_clear) (check_clear t i) t
          (λ marked.
            subst (Alive t.id_clear)
              (sym (
                chain_at-set_chain_self t.table i (kept t.id_clear (chain_at t.table i))
                  (omega (arith, sized))))
              (kept-Alive t.id_clear (chain_at t.table i)))
          (λ never.
            let z : t.id_clear ≡ 0 = ground arith in
            subst (λ n. Alive n (chain_at t.table i)) (sym z) (zero-Alive (chain_at t.table i)))

  module _ (k : K) where
    home : ℕ
    home = index_of hash t.mask k

    home-lt : home < t.size
    unfolding home
    home-lt = index_of-lt hash t.mask t.size k masked

    pub dict_find-IsTable : IsTable hash (dict_find hash t k).1
    unfolding dict_find home
    dict_find-IsTable = clear_if_marked-IsTable home home-lt

    pub view-dict_find : (q : K) → view hash (dict_find hash t k).1 q ≡ view hash t q
    unfolding dict_find home
    view-dict_find = view-clear_if_marked home home-lt

    pub dict_find_frame : SameFrame t (dict_find hash t k).1
    unfolding dict_find home
    dict_find_frame = clear_if_marked_frame home home-lt

    pub dict_find-Alive :
        Alive t.id_clear (chain_at (dict_find hash t k).1.table (index_of hash t.mask k))
    unfolding dict_find home
    dict_find-Alive = clear_if_marked-Alive home home-lt

    -- The entry that `dict_find` returns holds the value of the key.
    pub value-dict_find : value (dict_find hash t k).0 ≡ view hash t k
    unfolding dict_find view
    value-dict_find =
        let (size_is, mask_is, start_is, clear_is, used_le) = dict_find_frame in
        let s = (dict_find hash t k).1 in
        seen-Alive t.id_clear k (chain_at s.table (index_of hash t.mask k)) dict_find-Alive
        ∙ (λ j. seen (sym clear_is j) k (chain_at s.table (index_of hash (sym mask_is j) k)))
        ∙ view-dict_find k

  pub dict_mark_clear-IsTable : t.id_start + 1 < 2 ^ 64 → IsTable hash (dict_mark_clear t)
  unfolding dict_mark_clear
  dict_mark_clear-IsTable room =
      let wraps : (t.id_start + 1) % 2 ^ 64 ≡ t.id_start + 1 = omega arith in
      record {
        sized = sized;
        power = power;
        masked = masked;
        placed = placed;
        given = λ i.
            subst (λ n. Given n (chain_at t.table i)) (sym wraps)
              (Given-later t.id_start (chain_at t.table i) (given i));
        counted = counted;
        few = few;
        cleared = omega arith;
      }

  -- Nothing is seen after a `dict_mark_clear`.
  pub view-dict_mark_clear : (k : K) → view hash (dict_mark_clear t) k ≡ none
  unfolding dict_mark_clear view
  view-dict_mark_clear k =
      seen-Given t.id_start k (chain_at t.table (index_of hash t.mask k))
        (given (index_of hash t.mask k))
