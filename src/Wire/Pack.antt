-- ===== src/Wire/Pack.antt =====
-- utils/ut_pack.c, the functions on fixed sizes. An `Out` is the destination: the bytes that were
-- written at `*dest` as it advanced, and `*left`. The source is the list of the `*left` bytes that
-- stand at `*src`. The result `none` is -1.
use viabtc_server_mac.Prelude.{
  ℕ, ◌-◌, Option, none, some, List, [], ◌∷◌, ◌++◌, ltb, if◌then◌else◌, length,
}
use viabtc_server_mac.Wire.Bytes.{le_bytes, of_le, split_at}

pub record Out : Type 0 where
  pub written : List ℕ
  pub left : ℕ

-- A number or a text that was read, with what is left of the source.
abbrev pub Unpacked : Type 0 → Type 0
Unpacked A = Option (A × List ℕ)

-- `space` bytes of room are asked for, and `bs` is written.
unfoldable pub emit : ℕ → List ℕ → Out → Option ℕ × Out
emit space bs d =
    if ltb d.left space
    then (none, d)
    else (some (length bs), record { written = d.written ++ bs; left = d.left - length bs })

-- A number of `w` bytes, where `space` bytes have to be left.
unfoldable pub take_le : ℕ → ℕ → List ℕ → Unpacked ℕ
take_le space w src =
    if ltb (length src) space
    then none
    else elim (split_at w src) [ none ↦ none | some (bs, rest) ↦ some (of_le bs, rest) ]

unfoldable pub pack_char : Out → ℕ → Option ℕ × Out
unfolding emit
pack_char d c = emit 1 (c ∷ []) d

unfoldable pub unpack_char : List ℕ → Unpacked ℕ
unpack_char [] = none
unpack_char (c ∷ src) = some (c, src)

unfoldable pub pack_uint16_le : Out → ℕ → Option ℕ × Out
unfolding emit
pack_uint16_le d n = emit 4 (le_bytes 2 n) d

unfoldable pub unpack_uint16_le : List ℕ → Unpacked ℕ
unfolding take_le
unpack_uint16_le src = take_le 4 2 src

unfoldable pub pack_uint32_le : Out → ℕ → Option ℕ × Out
unfolding emit
pack_uint32_le d n = emit 4 (le_bytes 4 n) d

unfoldable pub unpack_uint32_le : List ℕ → Unpacked ℕ
unfolding take_le
unpack_uint32_le src = take_le 4 4 src

unfoldable pub pack_uint64_le : Out → ℕ → Option ℕ × Out
unfolding emit
pack_uint64_le d n = emit 8 (le_bytes 8 n) d

unfoldable pub unpack_uint64_le : List ℕ → Unpacked ℕ
unfolding take_le
unpack_uint64_le src = take_le 8 8 src

unfoldable pub pack_buf : Out → List ℕ → Option ℕ × Out
unfolding emit
pack_buf d bs = emit (length bs) bs d

unfoldable pub unpack_buf : List ℕ → ℕ → Unpacked (List ℕ)
unpack_buf src len = split_at len src
