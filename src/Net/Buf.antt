-- ===== src/Net/Buf.antt =====
-- network/nw_buf.c. A buffer holds its bytes up to `wpos`; what is in memory behind them is not
-- looked at. A list holds its buffers from `head` to `tail`. `malloc` does not fail.
-- The bytes of `free_arr` are of no use: a buffer that is taken from there is set up anew.
use viabtc_server_mac.Prelude.{
  ℕ, zero, suc, ◌+◌, ◌-◌, ◌*◌, Bool, true, false, not, ◌&&◌, List, [], ◌∷◌, ◌++◌, ltb, leb, nat_eq,
  string_eq, ◌==◌, if◌then◌else◌, length, take, drop,
}

pub record Buf : Type 0 where
  pub size : ℕ
  pub rpos : ℕ
  pub wpos : ℕ
  pub «data» : List ℕ

unfoldable pub nw_buf_size : Buf → ℕ
nw_buf_size b = b.wpos - b.rpos

unfoldable pub nw_buf_avail : Buf → ℕ
nw_buf_avail b = b.size - b.wpos

unfoldable pub nw_buf_write : Buf → List ℕ → ℕ × Buf
nw_buf_write b bytes =
    let len = length bytes in
    let available = b.size - b.wpos in
    let wlen = if ltb available len then available else len in
    (wlen, record b { wpos = b.wpos + wlen; «data» = b.«data» ++ take wlen bytes })

unfoldable pub nw_buf_shift : Buf → Buf
nw_buf_shift b =
    if b.rpos == b.wpos
    then record b { rpos = 0; wpos = 0; «data» = [] }
    else if b.rpos == 0
    then b
    else record b { wpos = b.wpos - b.rpos; rpos = 0; «data» = drop b.rpos b.«data» }

-- NW_BUF_POOL_INIT_SIZE and NW_BUF_POOL_MAX_SIZE
abbrev pub pool_init_size : ℕ
pool_init_size = 64

abbrev pub pool_max_size : ℕ
pool_max_size = 65535

-- `free` buffers lie in `free_arr`, which has room for `free_total`.
pub record BufPool : Type 0 where
  pub size : ℕ
  pub used : ℕ
  pub free : ℕ
  pub free_total : ℕ

unfoldable pub nw_buf_pool_create : ℕ → BufPool
nw_buf_pool_create size = record { size = size; used = 0; free = 0; free_total = pool_init_size }

unfoldable pub fresh : ℕ → Buf
fresh size = record { size = size; rpos = 0; wpos = 0; «data» = [] }

unfoldable pub nw_buf_alloc : BufPool → Buf × BufPool
unfolding fresh
nw_buf_alloc p =
    if p.free == 0 then (fresh p.size, p) else (fresh p.size, record p { free = p.free - 1 })

unfoldable pub nw_buf_free : BufPool → BufPool
nw_buf_free p =
    if ltb p.free p.free_total
    then record p { free = p.free + 1 }
    else if ltb p.free_total pool_max_size
    then record p { free_total = p.free_total * 2; free = p.free + 1 }
    else p

pub record BufList : Type 0 where
  pub pool : BufPool
  pub count : ℕ
  pub limit : ℕ
  pub bufs : List Buf

unfoldable pub nw_buf_list_create : BufPool → ℕ → BufList
nw_buf_list_create pool limit = record { pool = pool; count = 0; limit = limit; bufs = [] }

abbrev pub is_full : BufList → Bool
is_full l = not (l.limit == 0) && leb l.limit l.count

-- A new buffer at the tail, with as much of `bytes` as it takes.
unfoldable pub add_buf : BufList → List ℕ → ℕ × BufList
unfolding nw_buf_alloc nw_buf_write
add_buf l bytes =
    let (b, pool) = nw_buf_alloc l.pool in
    let (ret, b') = nw_buf_write b bytes in
    (ret, record l { pool = pool; count = l.count + 1; bufs = l.bufs ++ b' ∷ [] })

-- `while (left)`, of `fuel` rounds at most; the result is what is left.
unfoldable pub write_left : ℕ → BufList → List ℕ → List ℕ × BufList
unfolding add_buf
write_left zero l bytes = (bytes, l)
write_left (suc fuel) l [] = ([], l)
write_left (suc fuel) l (x ∷ bytes) = elim (is_full l) [
  | true ↦ (x ∷ bytes, l)
  | false ↦ let (ret, l') = add_buf l (x ∷ bytes) in write_left fuel l' (drop ret (x ∷ bytes))
]

-- The tail is written to first, if it has room.
unfoldable pub write_tail : List Buf → List ℕ → ℕ × List Buf
unfolding nw_buf_avail nw_buf_write
write_tail [] bytes = (0, [])
write_tail (b ∷ []) bytes =
    if nw_buf_avail b == 0
    then (0, b ∷ [])
    else let (ret, b') = nw_buf_write b bytes in (ret, b' ∷ [])
write_tail (b ∷ c ∷ bs) bytes = let (ret, bs') = write_tail (c ∷ bs) bytes in (ret, b ∷ bs')

unfoldable pub nw_buf_list_write : BufList → List ℕ → ℕ × BufList
unfolding write_tail write_left
nw_buf_list_write l bytes =
    let (ret, bufs) = write_tail l.bufs bytes in
    let (left, l') = write_left (length bytes + 1) (record l { bufs = bufs }) (drop ret bytes) in
    (length bytes - length left, l')

unfoldable pub nw_buf_list_append : BufList → List ℕ → ℕ × BufList
unfolding nw_buf_alloc nw_buf_free nw_buf_write
nw_buf_list_append l bytes =
    if is_full l
    then (0, l)
    else let (b, pool) = nw_buf_alloc l.pool in
      if ltb b.size (length bytes)
      then (0, record l { pool = nw_buf_free pool })
      else let (ret, b') = nw_buf_write b bytes in
        (length bytes, record l { pool = pool; count = l.count + 1; bufs = l.bufs ++ b' ∷ [] })

unfoldable pub nw_buf_list_shift : BufList → BufList
unfolding nw_buf_free
nw_buf_list_shift l = elim l.bufs [
  | [] ↦ l
  | b ∷ bs ↦ record l { pool = nw_buf_free l.pool; count = l.count - 1; bufs = bs }
]
