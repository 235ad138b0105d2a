-- ===== src/Tests/Buffers.antt =====
-- The buffers of network/nw_buf.c on a few bytes.
use viabtc_server_mac.Prelude.{
  ℕ, ◌≤◌, ◌≡◌, refl, true, false, List, [], ◌∷◌, ◌⊎◌, nat_eq, string_eq, arith,
}
use viabtc_server_mac.Net.Buf.{
  Buf, BufList, nw_buf_pool_create, nw_buf_list_create, nw_buf_list_write, is_full,
}
use viabtc_server_mac.Net.Fifo.{IsBuf}
use viabtc_server_mac.Net.Queue.{IsList, Took, nw_buf_list_write-Took}
use viabtc_server_mac.Net.Pool.{pool_after, pool_after_bounds}

abbrev five : List ℕ
five = 1 ∷ 2 ∷ 3 ∷ 4 ∷ 5 ∷ []

-- At most two buffers of two bytes.
abbrev small : BufList
small = nw_buf_list_create (nw_buf_pool_create 2) 2

small-IsList : IsList small
unfolding nw_buf_list_create
small-IsList = record { bufs = tt; counted = refl; bounded = λ p. omega arith }

written_count : (nw_buf_list_write small five).0 ≡ 4
unfolding nw_buf_list_write nw_buf_list_create nw_buf_pool_create
written_count = refl

nw_buf_list_write-Took_example :
    Took small five (nw_buf_list_write small five).0 (nw_buf_list_write small five).1
    × (((nw_buf_list_write small five).0 ≡ 5) ⊎ (is_full (nw_buf_list_write small five).1 ≡ true))
unfolding nw_buf_list_create nw_buf_pool_create
nw_buf_list_write-Took_example = nw_buf_list_write-Took small five small-IsList (omega arith)

abbrev half_read : Buf
half_read = record { size = 4; rpos = 1; wpos = 3; «data» = 1 ∷ 2 ∷ 3 ∷ [] }

half_read-IsBuf : IsBuf half_read
half_read-IsBuf = record { rpos_le = omega arith; wpos_le = omega arith; filled = refl }

pool_after_bounds_example :
    ((pool_after (false ∷ true ∷ false ∷ []) (nw_buf_pool_create 2)).free
      ≤ (pool_after (false ∷ true ∷ false ∷ []) (nw_buf_pool_create 2)).free_total)
    × ((pool_after (false ∷ true ∷ false ∷ []) (nw_buf_pool_create 2)).free_total ≤ 65536)
pool_after_bounds_example = pool_after_bounds 2 (false ∷ true ∷ false ∷ [])
