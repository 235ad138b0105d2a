-- ===== src/HashTable/Invariant.antt =====
-- The tables that the operations of utils/ut_dict.c keep, the map that a table stands for, and what
-- a change of one chain does to both.
use viabtc_server_mac.Prelude.{
  ℕ, ◌+◌, ◌^◌, ◌≤◌, ◌<◌, ◌≡◌, refl, Bool, true, false, Option, List, arith, KeyType, if◌then◌else◌,
  length, nat_beq, sym, ap, ◌∙◌, Bool-cases, inl, inr, nat_beq_iff, subst,
}
use viabtc_server_mac.HashTable.Arrays.{
  chain_at, set_chain, total, length-set_chain, chain_at-set_chain_self, chain_at-set_chain_ne,
  total-set_chain, bit_and-le,
}
use viabtc_server_mac.HashTable.Chain.{Entry, count, seen, Given}
use viabtc_server_mac.HashTable.Power.{IsTableSize}
use viabtc_server_mac.HashTable.{Table, index_of}

module _ {K V : Type 0} ⦃e : KeyType K⦄ (hash : K → ℕ) where
  -- Each key stands at most once in the table, in the chain of its hash; `used` counts the entries, and
  -- every id was given out.
  pub record IsTable (t : Table K V) : Type 0 where
    pub sized : length t.table ≡ t.size
    pub power : IsTableSize t.size
    pub masked : t.mask + 1 ≡ t.size
    pub placed :
        (k : K) (i : ℕ)
        → count k (chain_at t.table i) ≤ (if nat_beq i (index_of hash t.mask k) then 1 else 0)
    pub given : (i : ℕ) → Given t.id_start (chain_at t.table i)
    pub counted : total t.table ≡ t.used
    pub few : t.used < 2 ^ 32
    pub cleared : t.id_clear ≤ t.id_start

  -- The map that the table stands for.
  unfoldable pub view : Table K V → K → Option V
  view t k = seen t.id_clear k (chain_at t.table (index_of hash t.mask k))

pub index_of-lt :
    {K : Type 0} (hash : K → ℕ) (mask size : ℕ) (k : K)
    → mask + 1 ≡ size
    → index_of hash mask k < size
unfolding index_of
index_of-lt hash mask size k h = omega (arith, bit_and-le (hash k) mask)

-- What holds in both branches of a test.
pub if-both :
    {A : Type 0} (P : A → Type 0) (b : Bool) (x y : A)
    → (b ≡ true → P x)
    → (b ≡ false → P y)
    → P (if b then x else y)
if-both P true x y h k = h refl
if-both P false x y h k = k refl

-- A chain that is replaced, and `used` with it.
abbrev pub with_chain : {K V : Type 0} → Table K V → ℕ → List (Entry K V) → ℕ → Table K V
with_chain t i c used = record t { table = set_chain t.table i c; used = used }

-- What stands in chain `j` after chain `i` was replaced.
pub chain_at-set_chain :
    {A : Type 0} (cs : List (List A)) (i j : ℕ) (c : List A)
    → i < length cs
    → chain_at (set_chain cs i c) j ≡ (if nat_beq i j then c else chain_at cs j)
chain_at-set_chain cs i j c h = elim (Bool-cases (nat_beq i j)) [
  | inl same ↦ rw same (
      subst (λ n. chain_at (set_chain cs i c) n ≡ c) ((nat_beq_iff i j).0 same)
        (chain_at-set_chain_self cs i c h))
  | inr other ↦ rw other (chain_at-set_chain_ne cs i j c (ground (arith, nat_beq_iff i j)))
]

module _ {K V : Type 0} ⦃e : KeyType K⦄ (hash : K → ℕ) (t : Table K V) (v : IsTable hash t) where
  open v use {sized, power, masked, placed, given, counted, few, cleared}

  module _ (i : ℕ) (c : List (Entry K V)) (used : ℕ) (inside : i < t.size) where
    inside' : i < length t.table
    inside' = omega (arith, sized)

    pub with_chain-IsTable :
        ((k : K) → count k c ≤ (if nat_beq i (index_of hash t.mask k) then 1 else 0))
        → Given t.id_start c
        → used + length (chain_at t.table i) ≡ t.used + length c
        → used < 2 ^ 32
        → IsTable hash (with_chain t i c used)
    with_chain-IsTable fewer ids change small = record {
      sized = length-set_chain t.table i c ∙ sized;
      power = power;
      masked = masked;
      placed = λ k j.
          subst (λ d. count k d ≤ (if nat_beq j (index_of hash t.mask k) then 1 else 0))
            (sym (chain_at-set_chain t.table i j c inside'))
            (if-both (λ d. count k d ≤ (if nat_beq j (index_of hash t.mask k) then 1 else 0))
              (nat_beq i j) c (chain_at t.table j)
              (λ same.
                subst (λ n. count k c ≤ (if nat_beq n (index_of hash t.mask k) then 1 else 0))
                  ((nat_beq_iff i j).0 same) (fewer k))
              (λ other. placed k j));
      given = λ j.
          subst (λ d. Given t.id_start d) (sym (chain_at-set_chain t.table i j c inside'))
            (if-both (λ d. Given t.id_start d) (nat_beq i j) c (chain_at t.table j) (λ same. ids)
              (λ other. given j));
      counted = omega (arith, total-set_chain t.table i c inside');
      few = small;
      cleared = cleared;
    }

    pub view-with_chain :
        (k : K)
        → view hash (with_chain t i c used) k
          ≡ (if nat_beq i (index_of hash t.mask k) then seen t.id_clear k c else view hash t k)
    unfolding view
    view-with_chain k =
        let j = index_of hash t.mask k in
        ap (λ d. seen t.id_clear k d) (chain_at-set_chain t.table i j c inside')
        ∙ if-both
            (λ d. seen t.id_clear k d ≡ (
              if nat_beq i j then seen t.id_clear k c else seen t.id_clear k (chain_at t.table j)))
            (nat_beq i j) c (chain_at t.table j) (λ same. rw same refl) (λ other. rw other refl)
