-- ===== src/Net/Pool.antt =====
-- The free buffers of a pool of network/nw_buf.c.
use viabtc_server_mac.Prelude.{
  ℕ, zero, suc, ◌*◌, ◌≤◌, ◌<◌, ◌≡◌, refl, Bool, Bool-cases, true, false, List, [], ◌∷◌, inl, inr,
  ltb, nat_eq, string_eq, ◌==◌, arith,
}
use viabtc_server_mac.Net.Buf.{
  BufPool, nw_buf_pool_create, nw_buf_alloc, nw_buf_free, pool_max_size,
}

-- A run of allocations (`true`) and releases.
abbrev pub pool_after : List Bool → BufPool → BufPool
pool_after [] p = p
pool_after (true ∷ ops) p = pool_after ops (nw_buf_alloc p).1
pool_after (false ∷ ops) p = pool_after ops (nw_buf_free p)

-- The room after some doublings.
abbrev grow : ℕ → ℕ → ℕ
grow zero total = total
grow (suc rounds) total = grow rounds (total * 2)

grow_ge : (rounds total : ℕ) → total ≤ grow rounds total
grow_ge zero total = omega arith
grow_ge (suc rounds) total = omega (arith, grow_ge rounds (total * 2))

-- `free_arr` has room for its buffers, and doublings lead from it to 65536.
pub record IsPool (p : BufPool) : Type 0 where
  pub fits : p.free ≤ p.free_total
  pub positive : 0 < p.free_total
  pub rounds : ℕ
  pub grows : grow rounds p.free_total ≡ 65536

doubling :
    (rounds total : ℕ)
    → total < pool_max_size
    → grow rounds total ≡ 65536
    → (j : ℕ) × (grow j (total * 2) ≡ 65536)
doubling zero total h g = absurd (omega arith)
doubling (suc j) total h g = (j, g)

nw_buf_free-IsPool : (p : BufPool) → IsPool p → IsPool (nw_buf_free p)
unfolding nw_buf_free
nw_buf_free-IsPool p i = elim (Bool-cases (ltb p.free p.free_total)) [
  | inl e ↦
      rw e
        (record { fits = ground arith; positive = i.positive; rounds = i.rounds; grows = i.grows })
  | inr e ↦ elim (Bool-cases (ltb p.free_total pool_max_size)) [
    | inl f ↦
        let (j, g) = doubling i.rounds p.free_total (ground arith) i.grows in
        rw (e, f)
          (record {
            fits = omega (arith, i.fits, i.positive);
            positive = omega (arith, i.positive);
            rounds = j;
            grows = g;
          })
    | inr f ↦ rw (e, f) i
  ]
]

nw_buf_alloc-IsPool : (p : BufPool) → IsPool p → IsPool (nw_buf_alloc p).1
unfolding nw_buf_alloc
nw_buf_alloc-IsPool p i = elim (Bool-cases (p.free == 0)) [
  | inl e ↦ rw e i
  | inr e ↦ rw e (record {
    fits = omega (arith, i.fits);
    positive = i.positive;
    rounds = i.rounds;
    grows = i.grows;
  })
]

pool_after-IsPool : (ops : List Bool) (p : BufPool) → IsPool p → IsPool (pool_after ops p)
pool_after-IsPool [] p i = i
pool_after-IsPool (true ∷ ops) p i =
    pool_after-IsPool ops (nw_buf_alloc p).1 (nw_buf_alloc-IsPool p i)
pool_after-IsPool (false ∷ ops) p i = pool_after-IsPool ops (nw_buf_free p) (nw_buf_free-IsPool p i)

-- After any run of allocations and releases, the free buffers of a pool have room in its array, and the
-- array is not larger than 65536.
pub pool_after_bounds :
    (size : ℕ) (ops : List Bool)
    → ((pool_after ops (nw_buf_pool_create size)).free
        ≤ (pool_after ops (nw_buf_pool_create size)).free_total)
      × ((pool_after ops (nw_buf_pool_create size)).free_total ≤ 65536)
unfolding nw_buf_pool_create
pool_after_bounds size ops =
    let start : IsPool (nw_buf_pool_create size) = record {
      fits = omega arith;
      positive = omega arith;
      rounds = 10;
      grows = refl;
    } in
    let i = pool_after-IsPool ops (nw_buf_pool_create size) start in
    (
      i.fits,
      omega
          (arith, i.grows, grow_ge i.rounds (pool_after ops (nw_buf_pool_create size)).free_total),
    )
