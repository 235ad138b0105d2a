-- ===== src/Platform.antt =====
-- What the programs take from outside the repository: libmpdec's decimals (`mpd_t`, with the
-- context that `init_mpd` of utils/ut_decimal.c sets up: 34 digits, rounding down) and the clock
-- behind `current_timestamp`.
use viabtc_server_mac.Prelude.{ℕ, ◌+◌, ◌*◌, ◌≤◌, ◌<◌, ◌≡◌, compare, Ordering, Bool}

-- The operations that the programs call. `cmp` is the sign of `mpd_cmp`'s result.
pub record Mpd : Type 1 where
  pub Decimal : Type 0
  pub mpd_zero : Decimal
  pub mpd_one : Decimal
  pub mpd_ten : Decimal
  pub cmp : Decimal → Decimal → Ordering
  pub add : Decimal → Decimal → Decimal
  pub sub : Decimal → Decimal → Decimal
  pub mul : Decimal → Decimal → Decimal
  pub div : Decimal → Decimal → Decimal
  pub pow : Decimal → Decimal → Decimal
  pub copy_negate : Decimal → Decimal
  pub abs : Decimal → Decimal
  -- `mpd_rescale(r, a, -p)`
  pub rescale : Decimal → ℕ → Decimal
  -- `mpd_set_i32(r, -p)`
  pub set_minus : ℕ → Decimal
  -- A time stamp, and what the n-th call of `current_timestamp` returns.
  pub Time : Type 0
  pub current_timestamp : ℕ → Time
  -- `t < now - 86400`, in doubles.
  pub day_before : Time → Time → Bool

-- What the programs rely on. An amount is a finite decimal that is not negative, and `units` is its
-- value in units of the smallest decimal, of which every finite decimal is a multiple.
-- `quantum p` is the units of 10 ^ -p, and `capacity` the number of coefficients, 10 ^ 34.
pub record Laws (M : Mpd) : Type 1 where
  pub IsAmount : M.Decimal → Type 0
  pub units : M.Decimal → ℕ
  pub quantum : ℕ → ℕ
  pub capacity : ℕ
  pub zero_amount : IsAmount M.mpd_zero
  pub units-zero : units M.mpd_zero ≡ 0
  pub quantum_pos : (p : ℕ) → 0 < quantum p
  -- Amounts are compared by value.
  pub cmp_units :
      (a b : M.Decimal) → IsAmount a → IsAmount b → M.cmp a b ≡ compare (units a) (units b)
  -- A difference is zero only between equals, and is never larger than what it is taken from.
  pub sub_amount :
      (a b : M.Decimal)
      → IsAmount a
      → IsAmount b
      → units b ≤ units a
      → IsAmount (M.sub a b)
        × (units (M.sub a b) ≤ units a)
        × (units (M.sub a b) ≡ 0 → units a ≡ units b)
        × (units a ≡ units b → units (M.sub a b) ≡ 0)
  pub add_amount : (a b : M.Decimal) → IsAmount a → IsAmount b → IsAmount (M.add a b)
  pub mul_amount : (a b : M.Decimal) → IsAmount a → IsAmount b → IsAmount (M.mul a b)
  -- A result that the context can hold is exact.
  pub add_exact :
      (a b : M.Decimal) (p k : ℕ)
      → IsAmount a
      → IsAmount b
      → units a + units b ≡ k * quantum p
      → k < capacity
      → units (M.add a b) ≡ units a + units b
  pub sub_exact :
      (a b : M.Decimal) (p k : ℕ)
      → IsAmount a
      → IsAmount b
      → units a ≡ units b + k * quantum p
      → k < capacity
      → units (M.sub a b) ≡ k * quantum p
  pub rescale_exact :
      (a : M.Decimal) (p k : ℕ)
      → IsAmount a
      → units a ≡ k * quantum p
      → k < capacity
      → IsAmount (M.rescale a p) × (units (M.rescale a p) ≡ k * quantum p)
  -- A power of ten that is a step of the precision.
  pub step_exact :
      (p : ℕ)
      → IsAmount (M.pow M.mpd_ten (M.set_minus p))
        × (units (M.pow M.mpd_ten (M.set_minus p)) ≡ quantum p)
  -- Products of amounts: nothing of nothing, and never less of more.
  pub mul_zero : (a b : M.Decimal) → IsAmount a → IsAmount b → units a ≡ 0 → units (M.mul a b) ≡ 0
  pub mul_mono :
      (a b c : M.Decimal)
      → IsAmount a
      → IsAmount b
      → IsAmount c
      → units a ≤ units b
      → units (M.mul a c) ≤ units (M.mul b c)
