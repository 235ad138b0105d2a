-- ===== src/HashTable/Grow.antt =====
-- `dict_expand` of utils/ut_dict.c: the table that it makes holds the same entries.
use viabtc_server_mac.Prelude.{
  ℕ, ◌+◌, ◌-◌, ◌*◌, ◌%◌, ◌^◌, ◌≤◌, ◌≡◌, refl, Bool, true, false, some, List, arith, KeyType,
  if◌then◌else◌, leb, length, nat_beq, sym, ap, ◌∙◌, Bool-cases, inl, inr, nat_beq_iff, subst, ◌≢◌,
}
use viabtc_server_mac.HashTable.Arrays.{
  chain_at, empty_chains, total, length-empty_chains, total-empty_chains, chain_at-empty_chains,
}
use viabtc_server_mac.HashTable.Chain.{Entry, count, seen, Given}
use viabtc_server_mac.HashTable.Power.{IsTableSize, IsTableSize-bounds, dict_next_power-ends}
use viabtc_server_mac.HashTable.Invariant.{IsTable, view}
use viabtc_server_mac.HashTable.Entries.{
  entries, length-entries, entries-Given, count-entries, seen-entries,
}
use viabtc_server_mac.HashTable.Rehash.{
  length-move_chain, total-move_chain, move_chain-Given, count-move_chain, seen-move_chain,
  move_all_lem,
}
use viabtc_server_mac.HashTable.{
  Table, index_of, move_chain, move_all, dict_expand, dict_expand_if_needed,
}

-- How often a key stands in the chain of its hash, cleared or not.
unfoldable pub held : {K V : Type 0} ⦃e : KeyType K⦄ → (K → ℕ) → Table K V → K → ℕ
held hash t k = count k (chain_at t.table (index_of hash t.mask k))

-- What an operation that changes the places of the entries keeps.
abbrev pub SameMap : {K V : Type 0} ⦃e : KeyType K⦄ → (K → ℕ) → Table K V → Table K V → Type 0
SameMap {K} {V} hash t s =
    IsTable hash s
    × ((k : K) → view hash s k ≡ view hash t k)
    × ((k : K) → held hash s k ≡ held hash t k)
    × (s.used ≡ t.used)
    × (s.id_start ≡ t.id_start)
    × (s.id_clear ≡ t.id_clear)

-- The table after its entries moved to `size` new chains.
abbrev pub moved : {K V : Type 0} → (K → ℕ) → Table K V → ℕ → Table K V
moved hash t size = record t {
  table = move_all hash (size - 1) t.used t.table (empty_chains size);
  size = size;
  mask = size - 1;
}

module _ {K V : Type 0} ⦃e : KeyType K⦄ (hash : K → ℕ) (t : Table K V) (v : IsTable hash t) where
  open v use {sized, power, masked, placed, given, counted, few, cleared}

  -- A key stands nowhere but in its chain.
  elsewhere : (k : K) (i : ℕ) → i ≢ index_of hash t.mask k → count k (chain_at t.table i) ≡ 0
  elsewhere k i apart =
      let test : nat_beq i (index_of hash t.mask k) ≡ false =
        ground (arith, nat_beq_iff i (index_of hash t.mask k)) in
      let few' = placed k i in ground arith

  once : (k : K) → count k (entries t.table) ≤ 1
  once k =
      let home = index_of hash t.mask k in
      let one_at_most = placed k home in ground (arith, count-entries k t.table home (elsewhere k))

  seen-all : (k : K) → seen t.id_clear k (entries t.table) ≡ view hash t k
  unfolding view
  seen-all k = seen-entries t.id_clear k t.table (index_of hash t.mask k) (elsewhere k)

  module _ (size : ℕ) (allowed : IsTableSize size) where
    empties : List (List (Entry K V))
    empties = empty_chains size

    fits : size - 1 + 1 ≡ length empties
    unfolding empties
    fits = omega (arith, length-empty_chains (Entry K V) size, (IsTableSize-bounds size allowed).1)

    chains : List (List (Entry K V))
    chains = move_chain hash (size - 1) (entries t.table) empties

    moved-table : (moved hash t size).table ≡ chains
    unfolding chains empties
    moved-table = move_all_lem hash (size - 1) t.used t.table (empty_chains size) counted few

    count-empty : (k : K) (i : ℕ) → count k (chain_at empties i) ≡ 0
    unfolding empties count
    count-empty k i = rw (chain_at-empty_chains size i) refl

    placed-chains :
        (k : K) (i : ℕ)
        → count k (chain_at chains i) ≤ (if nat_beq i (index_of hash (size - 1) k) then 1 else 0)
    unfolding chains
    placed-chains k i = ground (
      arith,
      count-move_chain hash (size - 1) k (entries t.table) empties i fits,
      count-empty k i,
      once k,
    )

    chains-Given : (i : ℕ) → Given t.id_start (chain_at chains i)
    unfolding chains empties
    chains-Given =
        move_chain-Given hash (size - 1) t.id_start (entries t.table) empties fits
          (entries-Given t.id_start t.table given)
          (λ i. subst (Given t.id_start) (sym (chain_at-empty_chains size i)) tt)

    total-chains : total chains ≡ t.used
    unfolding chains empties
    total-chains = omega (
      arith,
      total-move_chain hash (size - 1) (entries t.table) empties fits,
      total-empty_chains (Entry K V) size,
      length-entries t.table,
      counted,
    )

    pub moved-IsTable : IsTable hash (moved hash t size)
    unfolding chains empties
    moved-IsTable = record {
      sized =
          ap length moved-table
          ∙ length-move_chain hash (size - 1) (entries t.table) empties
          ∙ length-empty_chains (Entry K V) size;
      power = allowed;
      masked = omega (arith, (IsTableSize-bounds size allowed).1);
      placed = λ k i.
          subst
            (λ cs.
              count k (chain_at cs i) ≤ (if nat_beq i (index_of hash (size - 1) k) then 1 else 0))
            (sym moved-table) (placed-chains k i);
      given =
          λ i. subst (λ cs. Given t.id_start (chain_at cs i)) (sym moved-table) (chains-Given i);
      counted = ap total moved-table ∙ total-chains;
      few = few;
      cleared = cleared;
    }

    pub view-moved : (k : K) → view hash (moved hash t size) k ≡ view hash t k
    unfolding view chains
    view-moved k =
        ap (λ cs. seen t.id_clear k (chain_at cs (index_of hash (size - 1) k))) moved-table
        ∙ seen-move_chain hash (size - 1) t.id_clear k (entries t.table) empties fits (once k)
            (count-empty k (index_of hash (size - 1) k))
        ∙ seen-all k

    held-moved : (k : K) → held hash (moved hash t size) k ≡ held hash t k
    unfolding held chains
    held-moved k =
        let home = index_of hash (size - 1) k in
        ap (λ cs. count k (chain_at cs home)) moved-table
        ∙ ground (
          arith,
          count-move_chain hash (size - 1) k (entries t.table) empties home fits,
          count-empty k home,
          count-entries k t.table (index_of hash t.mask k) (elsewhere k),
          nat_beq_iff home home,
        )

  -- `dict_expand` to at most 2 ^ 31 ends, keeps the map, and fails exactly where the allocation does.
  pub dict_expand_lem :
      (calloc_ok : Bool) (wanted : ℕ)
      → wanted ≤ 2 ^ 31
      → (s : Table K V) × (dict_expand hash calloc_ok t wanted ≡ some (calloc_ok, s))
        × SameMap hash t s
  unfolding dict_expand
  dict_expand_lem false wanted h =
      let (size, e', good) = dict_next_power-ends wanted h in
      (t, rw e' refl, (v, λ k. refl, λ k. refl, refl, refl, refl))
  dict_expand_lem true wanted h =
      let (size, e', (allowed, enough, least)) = dict_next_power-ends wanted h in
      (
        moved hash t size,
        rw e' refl,
        (
          moved-IsTable size allowed,
          view-moved size allowed,
          held-moved size allowed,
          refl,
          refl,
          refl,
        ),
      )

  -- In a table the size wanted never exceeds 2 ^ 31, so the growth before an insertion ends.
  pub dict_expand_if_needed_lem :
      (calloc_ok : Bool)
      → (r : Bool) × (s : Table K V) × (dict_expand_if_needed hash calloc_ok t ≡ some (r, s))
        × (calloc_ok ≡ true → r ≡ true)
        × SameMap hash t s
  unfolding dict_expand_if_needed
  dict_expand_if_needed_lem calloc_ok = elim (Bool-cases (leb (t.size * 4 % 2 ^ 32) t.used)) [
    | inl full ↦
        let (top, least, small) = IsTableSize-bounds t.size power in
        let (s, e', same) = dict_expand_lem calloc_ok (t.size * 4 % 2 ^ 32) small in
        (calloc_ok, s, rw full e', λ ok. ok, same)
    | inr room ↦ (true, t, rw room refl, λ ok. refl, (v, λ k. refl, λ k. refl, refl, refl, refl))
  ]
