-- ===== src/Wire/Varint.antt =====
-- utils/ut_pack.c, the functions on numbers and strings of any length.
use viabtc_server_mac.Prelude.{
  ℕ, ◌+◌, ◌-◌, ◌%◌, ◌^◌, Option, none, some, List, [], ◌∷◌, ltb, nat_eq, ◌==◌, if◌then◌else◌,
  length,
}
use viabtc_server_mac.Wire.Bytes.{le_bytes, of_le, split_at}
use viabtc_server_mac.Wire.Pack.{Out, Unpacked, emit, pack_buf}

unfoldable pub pack_varint_le : Out → ℕ → Option ℕ × Out
unfolding emit
pack_varint_le d n =
    if ltb n 0xfd
    then emit 1 (n ∷ []) d
    else if ltb n 0xffff
    then emit 3 (0xfd ∷ le_bytes 2 n) d
    else if ltb n 0xffffffff
    then emit 5 (0xfe ∷ le_bytes 4 n) d
    else emit 9 (0xff ∷ le_bytes 8 n) d

-- The number behind a mark.
abbrev pub behind : ℕ → List ℕ → Unpacked ℕ
behind w src = elim (split_at w src) [ none ↦ none | some (bs, rest) ↦ some (of_le bs, rest) ]

unfoldable pub unpack_varint_le : List ℕ → Unpacked ℕ
unpack_varint_le [] = none
unpack_varint_le (mark ∷ src) =
    if ltb mark 0xfd
    then some (mark, src)
    else if mark == 0xfd
    then behind 2 src
    else if mark == 0xfe
    then behind 4 src
    else behind 8 src

-- A count of bytes as an `int`: from 2 ^ 31 on it wraps, and where the `int` is negative the caller
-- sees a failure.
unfoldable pub as_int : ℕ → Option ℕ
as_int n = if ltb (n % 2 ^ 32) (2 ^ 31) then some (n % 2 ^ 32) else none

abbrev pub int_result : Option ℕ → Option ℕ
int_result none = none
int_result (some n) = as_int n

-- The results of two writes after one another.
abbrev pub add_space : Option ℕ → Option ℕ → Option ℕ
add_space none s = none
add_space (some r) none = none
add_space (some r) (some s) = some (r + s)

-- The string behind its length.
unfoldable pub put_after : Option ℕ × Out → List ℕ → Option ℕ × Out
unfolding pack_buf as_int
put_after (none, d) str = (none, d)
put_after (some r, d) str =
    let (put, d') = pack_buf d str in (int_result (add_space (some r) put), d')

unfoldable pub pack_varstr : Out → List ℕ → Option ℕ × Out
unfolding pack_varint_le put_after
pack_varstr d str = put_after (pack_varint_le d (length str)) str

unfoldable pub unpack_varstr : List ℕ → Unpacked (List ℕ)
unfolding unpack_varint_le as_int
unpack_varstr src = elim (unpack_varint_le src) [
  | none ↦ none
  | some (len, rest) ↦ elim (as_int (length src - length rest + len)) [
    | none ↦ none
    | some _ ↦ split_at len rest
  ]
]
