-- ===== src/Wire/Trips.antt =====
-- What the functions of utils/ut_pack.c write is what they read.
use viabtc_server_mac.Prelude.{
  ℕ, ◌+◌, ◌-◌, ◌≤◌, ◌<◌, ◌^◌, ◌≡◌, refl, Bool-cases, false, Option, none, some, List, [], ◌∷◌, ◌++◌,
  inl, inr, ltb, nat_eq, length, length-append, arith,
}
use mathlib.Core.List.{append_assoc}
use viabtc_server_mac.Wire.Bytes.{
  le_bytes, of_le-le_bytes, length-le_bytes, split_at-le_bytes, split_at-append, span,
}
use viabtc_server_mac.Wire.Pack.{
  Out, Unpacked, emit, take_le, unpack_uint16_le, unpack_uint32_le, unpack_uint64_le, pack_buf,
}
use viabtc_server_mac.Wire.Varint.{
  pack_varint_le, unpack_varint_le, behind, put_after, pack_varstr, unpack_varstr, add_space,
  as_int,
}

-- A write has added `bs`, has returned its length and has taken it from the room.
abbrev pub Wrote : Out → List ℕ → Option ℕ × Out → Type 0
Wrote d bs r =
    (r.0 ≡ some (length bs)) × (r.1.written ≡ d.written ++ bs) × (r.1.left ≡ d.left - length bs)

pub emit-Wrote : (space : ℕ) (bs : List ℕ) (d : Out) → space ≤ d.left → Wrote d bs (emit space bs d)
unfolding emit
emit-Wrote space bs d h = ground arith

-- A value was written so that it is read back, whatever stands behind it.
abbrev pub ReadsBack : {A : Type 0} → (List ℕ → Unpacked A) → A → Out → Option ℕ × Out → Type 0
ReadsBack unpack a d r =
    (bs : List ℕ) × Wrote d bs r × ((rest : List ℕ) → unpack (bs ++ rest) ≡ some (a, rest))

behind-le_bytes :
    (w n : ℕ) (rest : List ℕ) → n < span w → behind w (le_bytes w n ++ rest) ≡ some (n, rest)
behind-le_bytes w n rest h = ground (arith, split_at-le_bytes w n rest, of_le-le_bytes w n h)

-- A number below 2 ^ 64 that is written by `pack_varint_le` with 9 bytes of room is read back by
-- `unpack_varint_le`, whatever follows; the result is the count of the bytes, which are taken from the room.
pub unpack-pack_varint_le :
    (d : Out) (n : ℕ)
    → n < 2 ^ 64
    → 9 ≤ d.left
    → ReadsBack unpack_varint_le n d (pack_varint_le d n)
unfolding pack_varint_le unpack_varint_le
unpack-pack_varint_le d n h room = elim (Bool-cases (ltb n 0xfd)) [
  | inl e ↦ (n ∷ [], rw e (emit-Wrote 1 (n ∷ []) d (omega arith)), λ rest. rw e refl)
  | inr e ↦ elim (Bool-cases (ltb n 0xffff)) [
    | inl f ↦ (
      0xfd ∷ le_bytes 2 n,
      rw (e, f) (emit-Wrote 3 (0xfd ∷ le_bytes 2 n) d (omega arith)),
      λ rest. behind-le_bytes 2 n rest (ground arith),
    )
    | inr f ↦ elim (Bool-cases (ltb n 0xffffffff)) [
      | inl g ↦ (
        0xfe ∷ le_bytes 4 n,
        rw (e, f, g) (emit-Wrote 5 (0xfe ∷ le_bytes 4 n) d (omega arith)),
        λ rest. behind-le_bytes 4 n rest (ground arith),
      )
      | inr g ↦ (
        0xff ∷ le_bytes 8 n,
        rw (e, f, g) (emit-Wrote 9 (0xff ∷ le_bytes 8 n) d (omega arith)),
        λ rest. behind-le_bytes 8 n rest (omega arith),
      )
    ]
  ]
]

-- No number takes more than 9 bytes.
length-varint : (d : Out) (n : ℕ) (bs : List ℕ) → Wrote d bs (pack_varint_le d n) → length bs ≤ 9
unfolding pack_varint_le emit
length-varint d n bs w =
    ground (arith, w.0, length-le_bytes 2 n, length-le_bytes 4 n, length-le_bytes 8 n)

take_le-le_bytes :
    (space w n : ℕ) (rest : List ℕ)
    → space ≤ w + length rest
    → n < span w
    → take_le space w (le_bytes w n ++ rest) ≡ some (n, rest)
unfolding take_le
take_le-le_bytes space w n rest h l =
    let e : length (le_bytes w n ++ rest) ≡ w + length rest =
      omega (arith, length-append (le_bytes w n) rest, length-le_bytes w n) in
    let f : ltb (length (le_bytes w n ++ rest)) space ≡ false = ground arith in
    rw (f, split_at-le_bytes w n rest, of_le-le_bytes w n l) refl

-- 16 bits need 2 bytes more behind them to be read.
pub uint16_trip :
    (n : ℕ) (rest : List ℕ)
    → n < 2 ^ 16
    → 2 ≤ length rest
    → unpack_uint16_le (le_bytes 2 n ++ rest) ≡ some (n, rest)
unfolding unpack_uint16_le
uint16_trip n rest h l = take_le-le_bytes 4 2 n rest (omega arith) (omega arith)

pub uint32_trip :
    (n : ℕ) (rest : List ℕ) → n < 2 ^ 32 → unpack_uint32_le (le_bytes 4 n ++ rest) ≡ some (n, rest)
unfolding unpack_uint32_le
uint32_trip n rest h = take_le-le_bytes 4 4 n rest (omega arith) (omega arith)

pub uint64_trip :
    (n : ℕ) (rest : List ℕ) → n < 2 ^ 64 → unpack_uint64_le (le_bytes 8 n ++ rest) ≡ some (n, rest)
unfolding unpack_uint64_le
uint64_trip n rest h = take_le-le_bytes 8 8 n rest (omega arith) (omega arith)

-- A count below 2 ^ 31 is its `int`.
as_int_lem : (n : ℕ) → n < 2 ^ 31 → as_int n ≡ some n
unfolding as_int
as_int_lem n h = ground arith

-- Two writes after one another.
pub Wrote-both :
    (d : Out) (xs bs : List ℕ) (r s : Option ℕ × Out)
    → Wrote d xs r
    → Wrote r.1 bs s
    → Wrote d (xs ++ bs) (add_space r.0 s.0, s.1)
Wrote-both d xs bs r s (a, b, c) (e, f, g) = (
  rw (a, e, length-append xs bs) refl,
  rw (f, b) (append_assoc d.written xs bs),
  omega (arith, length-append xs bs),
)

pub put_after-Wrote :
    (d : Out) (bs str : List ℕ) (r : Option ℕ × Out)
    → Wrote d bs r
    → length bs + length str ≤ d.left
    → length bs + length str < 2 ^ 31
    → Wrote d (bs ++ str) (put_after r str)
unfolding put_after pack_buf
put_after-Wrote d bs str (none, d') w room h = absurd (cc (w.0))
put_after-Wrote d bs str (some k, d') w room h =
    let (a, b, c) =
      Wrote-both d bs str (some k, d') (emit (length str) str d') w
        (emit-Wrote (length str) str d' (omega (arith, w.2))) in
    (rw a (as_int_lem (length (bs ++ str)) (omega (arith, length-append bs str))), b, c)

varstr_read :
    (src str rest : List ℕ)
    → unpack_varint_le src ≡ some (length str, str ++ rest)
    → length str < 2 ^ 31
    → length src < 2 ^ 31 + length rest
    → unpack_varstr src ≡ some (str, rest)
unfolding unpack_varstr
varstr_read src str rest h l short =
    let e : as_int (length src - length (str ++ rest) + length str)
        ≡ some (length src - length (str ++ rest) + length str) =
      as_int_lem (length src - length (str ++ rest) + length str)
        (omega (arith, length-append str rest)) in
    rw (h, unpack_varstr, e) (split_at-append str rest)

-- A string of at most 2 ^ 31 - 10 bytes that is written by `pack_varstr` with room for it and 9 bytes
-- more is read back by `unpack_varstr`, whatever follows; the result is the count of the bytes, which
-- are taken from the room. Of a longer string the count may be no `int`.
pub unpack-pack_varstr :
    (d : Out) (str : List ℕ)
    → length str + 9 < 2 ^ 31
    → 9 + length str ≤ d.left
    → ReadsBack unpack_varstr str d (pack_varstr d str)
unfolding pack_varstr put_after
unpack-pack_varstr d str h room =
    let (bs, w, back) = unpack-pack_varint_le d (length str) (omega arith) (omega arith) in
    let l = length-varint d (length str) bs w in
    (
      bs ++ str,
      put_after-Wrote d bs str (pack_varint_le d (length str)) w (omega arith) (omega arith),
      λ rest.
          varstr_read ((bs ++ str) ++ rest) str rest
            (rw (append_assoc bs str rest) (back (str ++ rest))) (omega arith)
            (omega (arith, length-append (bs ++ str) rest, length-append bs str)),
    )
