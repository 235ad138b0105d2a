-- ===== src/Wire/Bytes.antt =====
-- Bytes in memory: little-endian numbers, and a block of a given length in front of others. A byte is
-- a number below 256.
use viabtc_server_mac.Prelude.{
  subst, ℕ, zero, suc, ◌+◌, ◌*◌, ◌/◌, ◌%◌, ◌<◌, ◌≡◌, refl, Option, none, some, List, [], ◌∷◌, ◌++◌,
  length, arith,
}

-- The `w` bytes of `n`, the lowest first.
unfoldable pub le_bytes : ℕ → ℕ → List ℕ
le_bytes zero n = []
le_bytes (suc w) n = (n % 256) ∷ le_bytes w (n / 256)

unfoldable pub of_le : List ℕ → ℕ
of_le [] = 0
of_le (b ∷ bs) = b + 256 * of_le bs

-- 256 ^ w
abbrev pub span : ℕ → ℕ
span zero = 1
span (suc w) = 256 * span w

abbrev pub push_front : ℕ → Option (List ℕ × List ℕ) → Option (List ℕ × List ℕ)
push_front b none = none
push_front b (some (xs, rest)) = some (b ∷ xs, rest)

-- The first `n` bytes and what follows, if there are as many.
unfoldable pub split_at : ℕ → List ℕ → Option (List ℕ × List ℕ)
split_at zero bs = some ([], bs)
split_at (suc n) [] = none
split_at (suc n) (b ∷ bs) = push_front b (split_at n bs)

pub of_le-le_bytes : (w n : ℕ) → n < span w → of_le (le_bytes w n) ≡ n
unfolding of_le le_bytes
of_le-le_bytes zero n h = omega arith
of_le-le_bytes (suc w) n h = omega (arith, of_le-le_bytes w (n / 256) (omega arith))

pub length-le_bytes : (w n : ℕ) → length (le_bytes w n) ≡ w
unfolding le_bytes
length-le_bytes zero n = refl
length-le_bytes (suc w) n = omega (arith, length-le_bytes w (n / 256))

pub split_at-append : (xs rest : List ℕ) → split_at (length xs) (xs ++ rest) ≡ some (xs, rest)
unfolding split_at
split_at-append [] rest = refl
split_at-append (x ∷ xs) rest = rw (split_at-append xs rest) refl

-- A number that was written with `w` bytes is read back.
pub split_at-le_bytes :
    (w n : ℕ) (rest : List ℕ) → split_at w (le_bytes w n ++ rest) ≡ some (le_bytes w n, rest)
split_at-le_bytes w n rest =
    subst (λ k. split_at k (le_bytes w n ++ rest) ≡ some (le_bytes w n, rest)) (length-le_bytes w n)
      (split_at-append (le_bytes w n) rest)
