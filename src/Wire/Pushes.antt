-- ===== src/Wire/Pushes.antt =====
-- The pushes of utils/ut_pack.c are read back, whatever their length.
use viabtc_server_mac.Prelude.{
  ℕ, ◌+◌, ◌-◌, ◌^◌, ◌≤◌, ◌<◌, ◌≡◌, refl, ap, Bool-cases, true, false, Option, some, List, [], ◌∷◌,
  ◌++◌, inl, inr, ltb, leb, nat_eq, length, length-append, arith,
}
use mathlib.Core.List.{List, append_assoc}
use viabtc_server_mac.Wire.Bytes.{le_bytes, length-le_bytes, split_at-append}
use viabtc_server_mac.Wire.Pack.{Out, pack_char, pack_uint16_le, pack_uint32_le, pack_buf, emit}
use viabtc_server_mac.Wire.Push.{then_put, pack_oppush, push_len, unpack_oppush}
use viabtc_server_mac.Wire.Trips.{
  Wrote, emit-Wrote, ReadsBack, Wrote-both, uint16_trip, uint32_trip,
}

-- The destination has got `bs`, whatever the code has made of the result.
abbrev pub Holds : Out → List ℕ → Out → Type 0
Holds d bs e = (e.written ≡ d.written ++ bs) × (e.left ≡ d.left - length bs)

pub then_put-Wrote :
    (d : Out) (xs bs : List ℕ) (r : Option ℕ × Out)
    → Holds d xs r.1
    → length xs + length bs ≤ d.left
    → Wrote d (xs ++ bs) (then_put d r bs)
unfolding pack_buf
then_put-Wrote d xs bs r w room =
    let v = emit-Wrote (length bs) bs r.1 (omega (arith, w.1)) in
    let (a, b, c) =
      Wrote-both d xs bs (some (length xs), r.1) (emit (length bs) bs r.1) (refl, w.0, w.1) v in
    (ap some (omega (arith, c, length-append xs bs)), b, c)

char-Holds : (d : Out) (c : ℕ) → 1 ≤ d.left → Holds d (c ∷ []) (pack_char d c).1
unfolding pack_char
char-Holds d c h = let (a, b, e) = emit-Wrote 1 (c ∷ []) d h in (b, e)

-- The opcode with the length behind it.
marked-Holds :
    (d : Out) (op : ℕ) (bs : List ℕ) (space : ℕ)
    → space < d.left
    → Holds d (op ∷ bs) (emit space bs (pack_char d op).1).1
unfolding pack_char
marked-Holds d op bs space h =
    let u = emit-Wrote 1 (op ∷ []) d (omega arith) in
    let v = emit-Wrote space bs (pack_char d op).1 (omega (arith, u.2)) in
    let (a, b, c) =
      Wrote-both d (op ∷ []) bs (pack_char d op) (emit space bs (pack_char d op).1) u v in
    (b, c)

-- A string that was found behind its length.
oppush_read :
    (op size : ℕ) (src bs rest : List ℕ)
    → push_len op src ≡ some (length bs, bs ++ rest)
    → length bs ≤ size
    → unpack_oppush (op ∷ src) size ≡ some (bs, rest)
unfolding unpack_oppush
oppush_read op size src bs rest h l = ground (arith, split_at-append bs rest)

no_room : (n left : ℕ) → n ≤ left → ltb left n ≡ false
no_room n left h = ground arith

big_len : (n : ℕ) → n < 2 ^ 32 → leb n 0xffffffff ≡ true
big_len n h = ground arith

-- A string whose length is the opcode.
pub short_push :
    (d : Out) (bs : List ℕ) (size : ℕ)
    → leb (length bs) 0x4b ≡ true
    → 1 + length bs ≤ d.left
    → length bs ≤ size
    → Wrote d (length bs ∷ bs) (pack_oppush d bs)
      × ((rest : List ℕ) → unpack_oppush (length bs ∷ bs ++ rest) size ≡ some (bs, rest))
unfolding pack_oppush push_len
short_push d bs size e room fits = (
  rw (e, no_room (1 + length bs) d.left room)
      (then_put-Wrote d (length bs ∷ []) bs (pack_char d (length bs))
        (char-Holds d (length bs) (omega arith)) room),
  λ rest. oppush_read (length bs) size (bs ++ rest) bs rest (rw e refl) fits,
)

-- A string of less than 2 ^ 32 bytes that is written by `pack_oppush`, with room for it and 5 bytes
-- more, is read back by `unpack_oppush` into a destination that is large enough, whatever follows.
pub unpack-pack_oppush :
    (d : Out) (bs : List ℕ) (size : ℕ)
    → length bs < 2 ^ 32
    → 5 + length bs ≤ d.left
    → length bs ≤ size
    → ReadsBack (λ src. unpack_oppush src size) bs d (pack_oppush d bs)
unfolding pack_oppush push_len
unpack-pack_oppush d bs size h room fits = elim (Bool-cases (leb (length bs) 0x4b)) [
  | inl e ↦ let (w, back) = short_push d bs size e (omega arith) fits in (length bs ∷ bs, w, back)
  | inr e ↦ elim (Bool-cases (leb (length bs) 0xff)) [
    | inl f ↦ (
      (0x4c ∷ length bs ∷ []) ++ bs,
      rw (e, f, no_room (2 + length bs) d.left (omega arith))
          (then_put-Wrote d (0x4c ∷ length bs ∷ []) bs (pack_char (pack_char d 0x4c).1 (length bs))
            (marked-Holds d 0x4c (length bs ∷ []) 1 (ground arith)) (omega arith)),
      λ rest. oppush_read 0x4c size (length bs ∷ bs ++ rest) bs rest refl fits,
    )
    | inr f ↦ elim (Bool-cases (leb (length bs) 0xffff)) [
      | inl g ↦ (
        (0x4d ∷ le_bytes 2 (length bs)) ++ bs,
        rw (e, f, g, no_room (3 + length bs) d.left (omega arith))
            (then_put-Wrote d (0x4d ∷ le_bytes 2 (length bs)) bs
              (pack_uint16_le (pack_char d 0x4d).1 (length bs))
              (marked-Holds d 0x4d (le_bytes 2 (length bs)) 4 (ground arith))
              (omega (arith, length-le_bytes 2 (length bs)))),
        λ rest.
            oppush_read 0x4d size (le_bytes 2 (length bs) ++ bs ++ rest) bs rest
              (rw (append_assoc (le_bytes 2 (length bs)) bs rest) (
                uint16_trip (length bs) (bs ++ rest) (ground arith)
                  (ground (arith, length-append bs rest))))
              fits,
      )
      | inr g ↦ (
        (0x4e ∷ le_bytes 4 (length bs)) ++ bs,
        rw (e, f, g, big_len (length bs) h, no_room (5 + length bs) d.left room)
            (then_put-Wrote d (0x4e ∷ le_bytes 4 (length bs)) bs
              (pack_uint32_le (pack_char d 0x4e).1 (length bs))
              (marked-Holds d 0x4e (le_bytes 4 (length bs)) 4 (ground arith))
              (omega (arith, length-le_bytes 4 (length bs)))),
        λ rest.
            oppush_read 0x4e size (le_bytes 4 (length bs) ++ bs ++ rest) bs rest
              (rw (append_assoc (le_bytes 4 (length bs)) bs rest)
                (uint32_trip (length bs) (bs ++ rest) h))
              fits,
      )
    ]
  ]
]
