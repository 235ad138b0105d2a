-- ===== src/Tests/Platforms.antt =====
-- A platform to compute with: decimals that are whole numbers, and a clock that counts.
use viabtc_server_mac.Prelude.{ℕ, ◌+◌, ◌-◌, ◌*◌, ◌/◌, ◌≤◌, ◌^◌, ◌≡◌, refl, compare, arith, ltb}
use native.Mathlib.Nat.{mul-le-mul_right}
use viabtc_server_mac.Platform.{Mpd, Laws}

abbrev pub whole : Mpd
whole = record {
  Decimal = ℕ;
  mpd_zero = 0;
  mpd_one = 1;
  mpd_ten = 10;
  cmp = λ a b. compare a b;
  add = λ a b. a + b;
  sub = λ a b. a - b;
  mul = λ a b. a * b;
  div = λ a b. a / b;
  pow = λ a b. 1;
  copy_negate = λ a. a;
  abs = λ a. a;
  rescale = λ a p. a;
  set_minus = λ p. p;
  Time = ℕ;
  current_timestamp = λ n. n;
  day_before = λ t now. ltb (t + 86400) now;
}

pub sub_whole :
    (a b : ℕ) → b ≤ a → Unit {0} × (a - b ≤ a) × (a - b ≡ 0 → a ≡ b) × (a ≡ b → a - b ≡ 0)
sub_whole a b h = (tt, omega arith, λ e. omega arith, λ e. omega arith)

pub sub_exact_whole : (a b k : ℕ) → a ≡ b + k * 1 → a - b ≡ k * 1
sub_exact_whole a b k e = omega arith

pub mul_zero_whole : (a b : ℕ) → a ≡ 0 → a * b ≡ 0
mul_zero_whole a b z = rw z (omega arith)

pub mul_mono_whole : (a b c : ℕ) → a ≤ b → a * c ≤ b * c
mul_mono_whole a b c h = mul-le-mul_right c h

abbrev pub whole_laws : Laws whole
whole_laws = record {
  IsAmount = λ a. Unit {0};
  units = λ a. a;
  quantum = λ p. 1;
  capacity = 10 ^ 34;
  zero_amount = tt;
  units-zero = refl;
  quantum_pos = λ p. omega arith;
  cmp_units = λ a b ha hb. refl;
  sub_amount = λ a b ha hb h. sub_whole a b h;
  add_amount = λ a b ha hb. tt;
  mul_amount = λ a b ha hb. tt;
  add_exact = λ a b p k ha hb e c. refl;
  sub_exact = λ a b p k ha hb e c. sub_exact_whole a b k e;
  rescale_exact = λ a p k ha e c. (tt, e);
  step_exact = λ p. (tt, refl);
  mul_zero = λ a b ha hb z. mul_zero_whole a b z;
  mul_mono = λ a b c ha hb hc h. mul_mono_whole a b c h;
}
