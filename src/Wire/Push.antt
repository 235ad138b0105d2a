-- ===== src/Wire/Push.antt =====
-- utils/ut_pack.c, the length-prefixed pushes and the signed numbers in them.
use viabtc_server_mac.Prelude.{
  ℤ, pos, negsuc, ℕ, zero, suc, ◌+◌, ◌-◌, ◌/◌, ◌%◌, ◌^◌, Bool, true, false, ◌&&◌, Option, none,
  some, List, [], ◌∷◌, ltb, leb, nat_eq, ◌==◌, if◌then◌else◌, length,
}
use viabtc_server_mac.Wire.Bytes.{of_le}
use viabtc_server_mac.Wire.Pack.{
  Out, Unpacked, pack_char, unpack_char, pack_uint16_le, unpack_uint16_le, pack_uint32_le,
  unpack_uint32_le, pack_buf, unpack_buf,
}

-- A write whose result the code does not look at, followed by another; the result is the room that
-- both have taken.
abbrev pub then_put : Out → Option ℕ × Out → List ℕ → Option ℕ × Out
then_put d r bs = let (put, d') = pack_buf r.1 bs in (some (d.left - d'.left), d')

unfoldable pub pack_oppush : Out → List ℕ → Option ℕ × Out
unfolding pack_char pack_uint16_le pack_uint32_le pack_buf
pack_oppush d bs =
    let len = length bs in
    if leb len 0x4b
    then (if ltb d.left (1 + len) then (none, d) else then_put d (pack_char d len) bs)
    else if leb len 0xff
    then (if ltb d.left (2 + len)
        then (none, d)
        else then_put d (pack_char (pack_char d 0x4c).1 len) bs)
    else if leb len 0xffff
    then (if ltb d.left (3 + len)
        then (none, d)
        else then_put d (pack_uint16_le (pack_char d 0x4d).1 len) bs)
    else if leb len 0xffffffff
    then (if ltb d.left (5 + len)
        then (none, d)
        else then_put d (pack_uint32_le (pack_char d 0x4e).1 len) bs)
    else (none, d)

-- The length that stands behind an opcode.
unfoldable pub push_len : ℕ → List ℕ → Unpacked ℕ
unfolding unpack_char unpack_uint16_le unpack_uint32_le
push_len op src =
    if leb op 0x4b
    then some (op, src)
    else if op == 0x4c
    then unpack_char src
    else if op == 0x4d
    then unpack_uint16_le src
    else if op == 0x4e
    then unpack_uint32_le src
    else none

-- `size` is the room at the destination.
unfoldable pub unpack_oppush : List ℕ → ℕ → Unpacked (List ℕ)
unfolding push_len unpack_char unpack_buf
unpack_oppush src size = elim (unpack_char src) [
  | none ↦ none
  | some (op, rest) ↦ elim (push_len op rest) [
    | none ↦ none
    | some (len, bytes) ↦ if ltb size len then none else unpack_buf bytes len
  ]
]

-- `while (absvalue)`: the bytes of a number without leading zeros. 8 rounds empty 64 bits.
unfoldable pub low_bytes : ℕ → ℕ → List ℕ
low_bytes zero n = []
low_bytes (suc fuel) n =
    let rest = low_bytes fuel (n / 256) in if n == 0 then [] else (n % 256) ∷ rest

-- The sign goes to the top bit of the last byte, or to a byte of its own if that bit is taken.
unfoldable pub with_sign : Bool → List ℕ → List ℕ
with_sign neg [] = []
with_sign neg (b ∷ []) =
    if leb 0x80 b then b ∷ (if neg then 0x80 else 0x00) ∷ [] else (if neg then b + 0x80 else b) ∷ []
with_sign neg (b ∷ c ∷ bs) = b ∷ with_sign neg (c ∷ bs)

unfoldable pub pack_oppushint_le : Out → ℤ → Option ℕ × Out
unfolding pack_char low_bytes with_sign pack_oppush
pack_oppushint_le d (pos n) =
    if n == 0
    then pack_char d 0x00
    else if leb n 16
    then pack_char d (0x50 + n)
    else pack_oppush d (with_sign false (low_bytes 8 n))
pack_oppushint_le d (negsuc n) =
    if n == 2 ^ 63 - 1
    then (none, d)
    else if n == 0
    then pack_char d 0x4f
    else pack_oppush d (with_sign true (low_bytes 8 (n + 1)))

-- The top bit of the last byte, and the bytes without it.
unfoldable pub is_neg : List ℕ → Bool
is_neg [] = false
is_neg (b ∷ []) = leb 0x80 b
is_neg (b ∷ c ∷ bs) = is_neg (c ∷ bs)

unfoldable pub clear_sign : List ℕ → List ℕ
clear_sign [] = []
clear_sign (b ∷ []) = (if leb 0x80 b then b - 0x80 else b) ∷ []
clear_sign (b ∷ c ∷ bs) = b ∷ clear_sign (c ∷ bs)

abbrev pub negated : ℕ → ℤ
negated zero = pos 0
negated (suc n) = negsuc n

unfoldable pub int_of : List ℕ → ℤ
unfolding is_neg clear_sign of_le
int_of bs = let n = of_le (clear_sign bs) in if is_neg bs then negated n else pos n

abbrev pub int_read : Unpacked (List ℕ) → Unpacked ℤ
int_read none = none
int_read (some (bs, rest)) = some (int_of bs, rest)

unfoldable pub unpack_oppushint_le : List ℕ → Unpacked ℤ
unfolding unpack_oppush int_of
unpack_oppushint_le [] = none
unpack_oppushint_le (op ∷ src) =
    if op == 0x00
    then some (pos 0, src)
    else if op == 0x4f
    then some (negsuc 0, src)
    else if leb 0x51 op && leb op 0x60
    then some (pos (op - 0x50), src)
    else if ltb 8 op
    then none
    else int_read (unpack_oppush (op ∷ src) 8)
