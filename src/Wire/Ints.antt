-- ===== src/Wire/Ints.antt =====
-- The signed numbers of utils/ut_pack.c are read back.
use viabtc_server_mac.Prelude.{
  ℤ, pos, negsuc, ℕ, zero, suc, ◌+◌, ◌-◌, ◌/◌, ◌%◌, ◌^◌, ◌≤◌, ◌<◌, ◌≡◌, refl, sym, subst, Bool,
  Bool-cases, true, false, some, List, [], ◌∷◌, ◌++◌, inl, inr, leb, nat_eq, ◌==◌, if◌then◌else◌,
  length, arith,
}
use viabtc_server_mac.Wire.Bytes.{of_le}
use viabtc_server_mac.Wire.Pack.{Out, pack_char}
use viabtc_server_mac.Wire.Push.{
  low_bytes, with_sign, is_neg, clear_sign, int_of, negated, pack_oppush, unpack_oppush,
  pack_oppushint_le, unpack_oppushint_le,
}
use viabtc_server_mac.Wire.Trips.{emit-Wrote, ReadsBack}
use viabtc_server_mac.Wire.Pushes.{short_push}
use viabtc_server_mac.Wire.Signs.{
  with_sign-cons, is_neg-with_sign, of_le-clear_sign, of_le-low_bytes, low_bytes-cons,
  length-with_sign,
}

-- An `int64_t` but for INT64_MIN.
abbrev pub Fits : ℤ → Type 0
Fits (pos n) = n < 2 ^ 63
Fits (negsuc n) = n < 2 ^ 63 - 1

abbrev signed : Bool → ℕ → ℤ
signed neg n = if neg then negated n else pos n

int_of-with_sign :
    (neg : Bool) (n : ℕ)
    → 0 < n
    → n < 2 ^ 63
    → int_of (with_sign neg (low_bytes 8 n)) ≡ signed neg n
unfolding int_of
int_of-with_sign neg n h l =
    let e = low_bytes-cons 7 n h in
    let a : is_neg (with_sign neg (low_bytes 8 n)) ≡ neg =
      rw e (is_neg-with_sign neg (n % 256) (low_bytes 7 (n / 256))) in
    let b : of_le (clear_sign (with_sign neg (low_bytes 8 n))) ≡ of_le (low_bytes 8 n) =
      rw e (of_le-clear_sign neg (n % 256) (low_bytes 7 (n / 256))) in
    rw (a, b, of_le-low_bytes 8 n (omega arith)) refl

length-with_sign_pos : (neg : Bool) (n : ℕ) → 0 < n → 0 < length (with_sign neg (low_bytes 8 n))
length-with_sign_pos neg n h =
    let (c, cs, e) = with_sign-cons neg (n % 256) (low_bytes 7 (n / 256)) in
    rw (low_bytes-cons 7 n h, e) (omega arith)

-- An opcode that is the length of the push.
int_behind :
    (op : ℕ) (src bs rest : List ℕ)
    → 0 < op
    → op ≤ 8
    → unpack_oppush (op ∷ src) 8 ≡ some (bs, rest)
    → unpack_oppushint_le (op ∷ src) ≡ some (int_of bs, rest)
unfolding unpack_oppushint_le
int_behind op src bs rest h l e = ground arith

-- What a push of a number of at most 8 bytes is read as.
pushed-ReadsBack :
    (d : Out) (neg : Bool) (n : ℕ)
    → 0 < n
    → n < 2 ^ 63
    → 9 ≤ d.left
    → ReadsBack unpack_oppushint_le (signed neg n) d (pack_oppush d (with_sign neg (low_bytes 8 n)))
pushed-ReadsBack d neg n h l room =
    let bs = with_sign neg (low_bytes 8 n) in
    let short = length-with_sign neg 7 n (omega arith) in
    let (w, back) = short_push d bs 8 (ground arith) (omega arith) short in
    (
      length bs ∷ bs,
      w,
      λ rest. rw (← int_of-with_sign neg n h l) (
          int_behind (length bs) (bs ++ rest) bs rest (length-with_sign_pos neg n h) short
            (back rest)),
    )

-- The numbers that have no opcode of their own.
pos_pushed :
    (d : Out) (n : ℕ)
    → 16 < n
    → pack_oppushint_le d (pos n) ≡ pack_oppush d (with_sign false (low_bytes 8 n))
unfolding pack_oppushint_le
pos_pushed d n h =
    let e : (n == 0) ≡ false = ground arith in
    let f : leb n 16 ≡ false = ground arith in rw (e, f) refl

negsuc_pushed :
    (d : Out) (n m : ℕ)
    → 0 < n
    → n < 2 ^ 63 - 1
    → n + 1 ≡ m
    → pack_oppushint_le d (negsuc n) ≡ pack_oppush d (with_sign true (low_bytes 8 m))
unfolding pack_oppushint_le
negsuc_pushed d n m h l k =
    let e : (n == 2 ^ 63 - 1) ≡ false = ground arith in
    let f : (n == 0) ≡ false = ground arith in rw (← k, e, f) refl

small_ReadsBack :
    (d : Out) (n : ℕ)
    → n ≤ 16
    → 1 ≤ d.left
    → ReadsBack unpack_oppushint_le (pos n) d (pack_oppushint_le d (pos n))
unfolding pack_oppushint_le unpack_oppushint_le pack_char
small_ReadsBack d n h room = elim (Bool-cases (n == 0)) [
  | inl e ↦ (0x00 ∷ [], rw e (emit-Wrote 1 (0x00 ∷ []) d room), λ rest. ground arith)
  | inr e ↦
      let f : leb n 16 ≡ true = ground arith in
      ((0x50 + n) ∷ [], rw (e, f) (emit-Wrote 1 ((0x50 + n) ∷ []) d room), λ rest. ground arith)
]

-- An `int64_t` other than INT64_MIN that is written by `pack_oppushint_le` with 9 bytes of room is read
-- back by `unpack_oppushint_le`, whatever follows.
pub unpack-pack_oppushint_le :
    (d : Out) (z : ℤ)
    → Fits z
    → 9 ≤ d.left
    → ReadsBack unpack_oppushint_le z d (pack_oppushint_le d z)
unfolding pack_oppushint_le unpack_oppushint_le pack_char
unpack-pack_oppushint_le d (pos n) h room = elim (Bool-cases (leb n 16)) [
  | inl e ↦ small_ReadsBack d n (ground arith) (omega arith)
  | inr e ↦
      let n_large : 16 < n = ground arith in
      subst (ReadsBack unpack_oppushint_le (pos n) d) (sym (pos_pushed d n n_large))
        (pushed-ReadsBack d false n (omega arith) h room)
]
unpack-pack_oppushint_le d (negsuc zero) h room =
    (0x4f ∷ [], emit-Wrote 1 (0x4f ∷ []) d (omega arith), λ rest. refl)
unpack-pack_oppushint_le d (negsuc (suc n)) h room =
    subst (ReadsBack unpack_oppushint_le (negsuc (suc n)) d)
      (sym (negsuc_pushed d (suc n) (suc (suc n)) (omega arith) h (omega arith)))
      (pushed-ReadsBack d true (suc (suc n)) (omega arith) (omega arith) room)
