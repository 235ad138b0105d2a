-- ===== src/Wire/Signs.antt =====
-- The sign that `pack_oppushint_le` of utils/ut_pack.c puts into the bytes of a number.
use viabtc_server_mac.Prelude.{
  ℕ, zero, suc, ◌+◌, ◌*◌, ◌/◌, ◌%◌, ◌≤◌, ◌<◌, ◌≡◌, refl, sym, ap, subst, Bool, Bool-cases, true,
  false, List, [], ◌∷◌, inl, inr, leb, nat_eq, ◌==◌, if◌then◌else◌, length, arith,
}
use viabtc_server_mac.Wire.Bytes.{of_le, span}
use viabtc_server_mac.Wire.Push.{low_bytes, with_sign, is_neg, clear_sign}

pub with_sign-cons :
    (neg : Bool) (b : ℕ) (bs : List ℕ) → (c : ℕ) × (cs : List ℕ) × (with_sign neg (b ∷ bs) ≡ c ∷ cs)
unfolding with_sign
with_sign-cons neg b [] = elim (Bool-cases (leb 0x80 b)) [
  | inl e ↦ (b, (if neg then 0x80 else 0x00) ∷ [], rw e refl)
  | inr e ↦ ((if neg then b + 0x80 else b), [], rw e refl)
]
with_sign-cons neg b (c ∷ bs) = (b, with_sign neg (c ∷ bs), refl)

pub is_neg-with_sign : (neg : Bool) (b : ℕ) (bs : List ℕ) → is_neg (with_sign neg (b ∷ bs)) ≡ neg
unfolding is_neg with_sign
is_neg-with_sign true b [] = ground arith
is_neg-with_sign false b [] = ground arith
is_neg-with_sign neg b (c ∷ bs) =
    let (e, es, p) = with_sign-cons neg c bs in
    subst (λ w. is_neg (b ∷ w) ≡ neg) (sym p)
      (subst (λ w. is_neg w ≡ neg) p (is_neg-with_sign neg c bs))

pub of_le-clear_sign :
    (neg : Bool) (b : ℕ) (bs : List ℕ)
    → of_le (clear_sign (with_sign neg (b ∷ bs))) ≡ of_le (b ∷ bs)
unfolding of_le clear_sign with_sign
of_le-clear_sign true b [] = ground arith
of_le-clear_sign false b [] = ground arith
of_le-clear_sign neg b (c ∷ bs) =
    let (e, es, p) = with_sign-cons neg c bs in
    subst (λ w. of_le (clear_sign (b ∷ w)) ≡ of_le (b ∷ c ∷ bs)) (sym p)
      (ap (λ n. b + 256 * n)
        (subst (λ w. of_le (clear_sign w) ≡ of_le (c ∷ bs)) p (of_le-clear_sign neg c bs)))

pub of_le-low_bytes : (k n : ℕ) → n < span k → of_le (low_bytes k n) ≡ n
unfolding of_le low_bytes
of_le-low_bytes zero n h = omega arith
of_le-low_bytes (suc k) n h = ground (arith, of_le-low_bytes k (n / 256) (omega arith))

pub low_bytes-cons : (k n : ℕ) → 0 < n → low_bytes (suc k) n ≡ (n % 256) ∷ low_bytes k (n / 256)
unfolding low_bytes
low_bytes-cons k n h = ground arith

-- The sign needs no byte of its own where the top bit of the `suc k` bytes is free.
pub length-with_sign :
    (neg : Bool) (k n : ℕ) → n < 128 * span k → length (with_sign neg (low_bytes (suc k) n)) ≤ suc k
unfolding low_bytes with_sign
length-with_sign neg zero n h = ground arith
length-with_sign neg (suc k) n h = elim (Bool-cases (n / 256 == 0)) [
  | inl e ↦ ground arith
  | inr e ↦ ground (arith, length-with_sign neg k (n / 256) (omega arith))
]
