-- ===== src/HashTable/Arrays.antt =====
-- The array `table` of utils/ut_dict.c, and the bound of an index that was masked.
use Prim.Native.Nat.{min, digits, bit_and, bit_and-bitwise}
use viabtc_server_mac.Prelude.{
  ◌≢◌, ℕ, zero, suc, ◌+◌, ◌/◌, ◌≤◌, ◌<◌, ◌≡◌, refl, List, [], ◌∷◌, arith, length, ap,
}

module _ {A : Type 0} where
  -- `dt->table[i]`.
  unfoldable pub chain_at : List (List A) → ℕ → List A
  chain_at [] i = []
  chain_at (c ∷ cs) zero = c
  chain_at (c ∷ cs) (suc i) = chain_at cs i

  -- `dt->table[i] = c`.
  unfoldable pub set_chain : List (List A) → ℕ → List A → List (List A)
  set_chain [] i v = []
  set_chain (c ∷ cs) zero v = v ∷ cs
  set_chain (c ∷ cs) (suc i) v = c ∷ set_chain cs i v

  -- `calloc(n, sizeof(dict_entry *))`.
  unfoldable pub empty_chains : ℕ → List (List A)
  empty_chains zero = []
  empty_chains (suc n) = [] ∷ empty_chains n

  -- The number of all entries.
  unfoldable pub total : List (List A) → ℕ
  total [] = 0
  total (c ∷ cs) = length c + total cs

  pub length-set_chain :
      (cs : List (List A)) (i : ℕ) (v : List A) → length (set_chain cs i v) ≡ length cs
  unfolding set_chain
  length-set_chain [] i v = refl
  length-set_chain (c ∷ cs) zero v = refl
  length-set_chain (c ∷ cs) (suc i) v = ap suc (length-set_chain cs i v)

  pub chain_at-empty_chains : (n i : ℕ) → chain_at (empty_chains n) i ≡ []
  unfolding empty_chains chain_at
  chain_at-empty_chains zero i = refl
  chain_at-empty_chains (suc n) zero = refl
  chain_at-empty_chains (suc n) (suc i) = chain_at-empty_chains n i

  pub chain_at-set_chain_self :
      (cs : List (List A)) (i : ℕ) (v : List A) → i < length cs → chain_at (set_chain cs i v) i ≡ v
  unfolding chain_at set_chain
  chain_at-set_chain_self [] i v h = absurd (omega arith)
  chain_at-set_chain_self (c ∷ cs) zero v h = refl
  chain_at-set_chain_self (c ∷ cs) (suc i) v h = chain_at-set_chain_self cs i v (omega arith)

  pub chain_at-set_chain_ne :
      (cs : List (List A)) (i j : ℕ) (v : List A)
      → i ≢ j
      → chain_at (set_chain cs i v) j ≡ chain_at cs j
  unfolding chain_at set_chain
  chain_at-set_chain_ne [] i j v h = refl
  chain_at-set_chain_ne (c ∷ cs) zero zero v h = absurd (h refl)
  chain_at-set_chain_ne (c ∷ cs) zero (suc j) v h = refl
  chain_at-set_chain_ne (c ∷ cs) (suc i) zero v h = refl
  chain_at-set_chain_ne (c ∷ cs) (suc i) (suc j) v h =
      chain_at-set_chain_ne cs i j v (λ e. h (ap suc e))

  pub total-set_chain :
      (cs : List (List A)) (i : ℕ) (v : List A)
      → i < length cs
      → total (set_chain cs i v) + length (chain_at cs i) ≡ total cs + length v
  unfolding chain_at set_chain total
  total-set_chain [] i v h = absurd (omega arith)
  total-set_chain (c ∷ cs) zero v h = omega arith
  total-set_chain (c ∷ cs) (suc i) v h = omega (arith, total-set_chain cs i v (omega arith))

  pub length-chain_at-le : (cs : List (List A)) (i : ℕ) → length (chain_at cs i) ≤ total cs
  unfolding chain_at total
  length-chain_at-le [] i = omega arith
  length-chain_at-le (c ∷ cs) zero = omega arith
  length-chain_at-le (c ∷ cs) (suc i) = omega (arith, length-chain_at-le cs i)

pub length-empty_chains : (A : Type 0) (n : ℕ) → length (empty_chains {A = A} n) ≡ n
unfolding empty_chains
length-empty_chains A zero = refl
length-empty_chains A (suc n) = ap suc (length-empty_chains A n)

pub total-empty_chains : (A : Type 0) (n : ℕ) → total (empty_chains {A = A} n) ≡ 0
unfolding empty_chains total
total-empty_chains A zero = refl
total-empty_chains A (suc n) = omega (arith, total-empty_chains A n)

-- The digits that both numbers have make up at most the second one.
digits-le : (n a b : ℕ) → digits (λ b. zero) min n a b ≤ b
digits-le zero a b = omega arith
digits-le (suc n) zero b = omega arith
digits-le (suc n) (suc a) b = omega (arith, digits-le n (suc a / 2) (b / 2))

pub bit_and-le : (a b : ℕ) → bit_and a b ≤ b
bit_and-le a b = omega (arith, bit_and-bitwise a b, digits-le a a b)
