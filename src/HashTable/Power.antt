-- ===== src/HashTable/Power.antt =====
-- `dict_next_power` of utils/ut_dict.c: the sizes that a table can have.
use viabtc_server_mac.Prelude.{
  ◌∙◌, subst, ℕ, zero, suc, ◌+◌, ◌*◌, ◌%◌, ◌^◌, ◌≤◌, ◌<◌, ◌≡◌, refl, true, false, none, some, arith,
  leb, ◌&&◌, Bool, Bool-cases, inl, inr, ◌⊎◌, nat_beq,
}
use viabtc_server_mac.HashTable.{double_until, dict_next_power, rounds}

-- The size after `j` doublings.
abbrev pub doubled : ℕ → ℕ
doubled j = 4 * 2 ^ j

-- A size that a table can have: 4, doubled at most 29 times.
abbrev pub IsTableSize : ℕ → Type 0
IsTableSize size = (j : ℕ) × (j ≤ 29) × (size ≡ doubled j)

abbrev checked_below : ℕ → (ℕ → Bool) → Bool
checked_below zero p = true
checked_below (suc n) p = p n && checked_below n p

checked_at : (n : ℕ) (p : ℕ → Bool) (x : ℕ) → checked_below n p ≡ true → x < n → p x ≡ true
checked_at zero p x h lt = absurd (omega arith)
checked_at (suc n) p x h lt = ground (arith, checked_at n p x)

-- Each of the 30 sizes is at most 2 ^ 31, at least 4, and wraps to a size or to 0 when it grows fourfold.
size_checks : ℕ → Bool
size_checks j =
    leb (doubled j) (2 ^ 31) && leb 4 (doubled j) && leb (doubled j * 4 % 2 ^ 32) (2 ^ 31)

sizes_checked : checked_below 30 size_checks ≡ true
unfolding size_checks
sizes_checked = refl

size_bounds :
    (j : ℕ) → j ≤ 29 → (doubled j ≤ 2 ^ 31) × (4 ≤ doubled j) × (doubled j * 4 % 2 ^ 32 ≤ 2 ^ 31)
unfolding size_checks
size_bounds j h = ground (arith, checked_at 30 size_checks j sizes_checked (omega arith))

pub IsTableSize-bounds :
    (size : ℕ) → IsTableSize size → (size ≤ 2 ^ 31) × (4 ≤ size) × (size * 4 % 2 ^ 32 ≤ 2 ^ 31)
IsTableSize-bounds size (j, h, e) = rw e (size_bounds j h)

doubled-suc : (j : ℕ) → doubled j * 2 ≡ doubled (suc j)
doubled-suc j = omega arith

-- What `dict_next_power` answers: the least of the sizes that is large enough.
abbrev pub IsNextPower : ℕ → ℕ → Type 0
IsNextPower size r = IsTableSize r × (size ≤ r) × ((r ≡ 4) ⊎ (r < 2 * size))

double_until_done : (fuel r size : ℕ) → leb size r ≡ true → double_until (suc fuel) r size ≡ some r
unfolding double_until
double_until_done fuel r size h = rw h refl

double_until_step :
    (fuel r next size : ℕ)
    → leb size r ≡ false
    → r * 2 % 2 ^ 32 ≡ next
    → double_until (suc fuel) r size ≡ double_until fuel next size
unfolding double_until
double_until_step fuel r next size h w = rw (h, w) refl

leb→le : (a b : ℕ) → leb a b ≡ true → a ≤ b
leb→le a b h = ground arith

not_last : (j size : ℕ) → j ≤ 29 → doubled j < size → size ≤ 2 ^ 31 → j ≤ 28
not_last j size h k b = elim (Bool-cases (nat_beq j 29)) [
  | inl last ↦
      let e : j ≡ 29 = ground arith in
      let m : doubled 29 < size = subst (λ i. doubled i < size) e k in absurd (omega arith)
  | inr earlier ↦ ground arith
]

double_until_lem :
    (fuel j size : ℕ)
    → j ≤ 29
    → j + fuel ≡ 30
    → size ≤ 2 ^ 31
    → (j ≡ 0) ⊎ (doubled j < 2 * size)
    → (r : ℕ) × (double_until fuel (doubled j) size ≡ some r) × IsNextPower size r
double_until_lem zero j size h s b low = absurd (omega arith)
double_until_lem (suc fuel) j size h s b low =
    let (top, least, grown) = size_bounds j h in
    elim (Bool-cases (leb size (doubled j))) [
      | inl done ↦ (
        doubled j,
        double_until_done fuel (doubled j) size done,
        (
          (j, h, refl),
          leb→le size (doubled j) done,
          elim low [ inl first ↦ inl (rw first refl) | inr more ↦ inr more ],
        ),
      )
      | inr on ↦
          let bigger : doubled j < size = ground arith in
          let below : j ≤ 28 = not_last j size h bigger b in
          let wraps : doubled j * 2 % 2 ^ 32 ≡ doubled (suc j) = omega (arith, doubled-suc j) in
          let (r, e, good) =
            double_until_lem fuel (suc j) size (omega arith) (omega arith) b
              (inr (omega (arith, doubled-suc j))) in
          (r, double_until_step fuel (doubled j) (doubled (suc j)) size on wraps ∙ e, good)
    ]

-- For a wanted size of at most 2 ^ 31 the doubling ends, with a table size that is at least the wanted
-- size, and is 4 or less than twice the wanted size.
pub dict_next_power-ends :
    (size : ℕ)
    → size ≤ 2 ^ 31
    → (r : ℕ) × (dict_next_power rounds size ≡ some r) × IsNextPower size r
unfolding dict_next_power
dict_next_power-ends size h =
    double_until_lem rounds 0 size (omega arith) (omega arith) h (inl refl)

double_until-zero : (fuel size : ℕ) → 0 < size → double_until fuel 0 size ≡ none
unfolding double_until
double_until-zero zero size h = refl
double_until-zero (suc fuel) size h = ground (arith, double_until-zero fuel size h)

double_until_endless :
    (fuel j size : ℕ) → j ≤ 29 → 2 ^ 31 < size → double_until fuel (doubled j) size ≡ none
unfolding double_until
double_until_endless zero j size h big = refl
double_until_endless (suc fuel) j size h big =
    let (top, least, grown) = size_bounds j h in
    let test : leb size (doubled j) ≡ false = ground arith in
    elim (Bool-cases (nat_beq j 29)) [
      | inl last ↦
          let e : j ≡ 29 = ground arith in
          let wraps : doubled j * 2 % 2 ^ 32 ≡ 0 = rw e refl in
          double_until_step fuel (doubled j) 0 size test wraps
          ∙ (double_until-zero fuel size (omega arith))
      | inr earlier ↦
          let below : j ≤ 28 = ground arith in
          let (top', least', grown') = size_bounds (suc j) (omega arith) in
          let wraps : doubled j * 2 % 2 ^ 32 ≡ doubled (suc j) = omega (arith, doubled-suc j) in
          double_until_step fuel (doubled j) (doubled (suc j)) size test wraps
          ∙ (double_until_endless fuel (suc j) size (omega arith) big)
    ]

-- A wanted size above 2 ^ 31 is never answered: `realsize` wraps to 0 and stays there.
pub dict_next_power-endless : (fuel size : ℕ) → 2 ^ 31 < size → dict_next_power fuel size ≡ none
unfolding dict_next_power
dict_next_power-endless fuel size h = double_until_endless fuel 0 size (omega arith) h
