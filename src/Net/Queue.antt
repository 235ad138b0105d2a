-- ===== src/Net/Queue.antt =====
-- Writing to a list of buffers of network/nw_buf.c is writing to a queue of bytes.
use viabtc_server_mac.Prelude.{
  ℕ, zero, suc, ◌+◌, ◌-◌, ◌≤◌, ◌<◌, ◌≡◌, refl, sym, ap, subst, Bool-cases, true, false, List, [],
  ◌∷◌, ◌++◌, All, All-append, ◌⊎◌, ◌∙◌, inl, inr, ltb, nat_eq, string_eq, ◌==◌, length, take, drop,
  length-append, length-drop, drop-drop, take-take-drop, arith,
}
use mathlib.Core.List.{append_assoc, append-nil}
use viabtc_server_mac.Net.Buf.{
  Buf, nw_buf_write, nw_buf_avail, BufPool, fresh, nw_buf_alloc, nw_buf_free, BufList, is_full,
  add_buf, write_left, write_tail, nw_buf_list_write, nw_buf_list_append, nw_buf_list_shift,
}
use viabtc_server_mac.Net.Fifo.{
  IsBuf, content, contents, contents-append, contents-one, Written, nw_buf_write-Written,
  write_tail-contents,
}

-- The buffers are well formed and counted, and no more than the limit where there is one.
pub record IsList (l : BufList) : Type 0 where
  pub bufs : All IsBuf l.bufs
  pub counted : l.count ≡ length l.bufs
  pub bounded : 0 < l.limit → l.count ≤ l.limit

fresh-IsBuf : (n : ℕ) → IsBuf (fresh n) × (content (fresh n) ≡ []) × (nw_buf_avail (fresh n) ≡ n)
unfolding fresh content nw_buf_avail
fresh-IsBuf n =
    (record { rpos_le = omega arith; wpos_le = omega arith; filled = refl }, refl, omega arith)

nw_buf_alloc-fresh :
    (p : BufPool) → ((nw_buf_alloc p).0 ≡ fresh p.size) × ((nw_buf_alloc p).1.size ≡ p.size)
unfolding nw_buf_alloc
nw_buf_alloc-fresh p = elim (Bool-cases (p.free == 0)) [
  | inl e ↦ rw e (refl, refl)
  | inr e ↦ rw e (refl, refl)
]

-- `n` bytes have gone behind those of the list, and the settings are the same.
pub record Took (l : BufList) (bytes : List ℕ) (n : ℕ) (l' : BufList) : Type 0 where
  pub is_list : IsList l'
  pub n_le : n ≤ length bytes
  pub shown : contents l'.bufs ≡ contents l.bufs ++ take n bytes
  pub same_limit : l'.limit ≡ l.limit
  pub same_size : l'.pool.size ≡ l.pool.size

add_buf-Took :
    (l : BufList) (bytes : List ℕ)
    → IsList l
    → is_full l ≡ false
    → Took l bytes (add_buf l bytes).0 (add_buf l bytes).1
      × (0 < length bytes → 0 < l.pool.size → 0 < (add_buf l bytes).0)
unfolding add_buf
add_buf-Took l bytes i e =
    let (f, s) = nw_buf_alloc-fresh l.pool in
    let (fb, fc, fa) = fresh-IsBuf l.pool.size in
    let b = (nw_buf_alloc l.pool).0 in
    let r = nw_buf_write b bytes in
    let w : Written b bytes r = nw_buf_write-Written b bytes (rw f fb) in
    let empty : content b ≡ [] = rw f fc in
    let room : nw_buf_avail b ≡ l.pool.size = rw f fa in
    (
      record {
        is_list = record {
          bufs = All-append IsBuf l.bufs (r.1 ∷ []) i.bufs (w.is_buf, tt);
          counted = omega (arith, i.counted, length-append l.bufs (r.1 ∷ []));
          bounded = λ q. ground (arith, i.bounded);
        };
        n_le = w.ret_le;
        shown =
            contents-append l.bufs (r.1 ∷ [])
            ∙ ap (λ xs. contents l.bufs ++ xs)
                (contents-one r.1 ∙ w.shown ∙ ap (λ xs. xs ++ take r.0 bytes) empty);
        same_limit = refl;
        same_size = s;
      },
      λ p q. w.more p (omega arith),
    )

-- One step after another.
Took-trans :
    (l m k : BufList) (bytes : List ℕ) (n i : ℕ)
    → Took l bytes n m
    → Took m (drop n bytes) i k
    → Took l bytes (n + i) k
Took-trans l m k bytes n i t u = record {
  is_list = u.is_list;
  n_le = omega (arith, t.n_le, u.n_le, length-drop n bytes);
  shown =
      u.shown
      ∙ ap (λ xs. xs ++ take i (drop n bytes)) t.shown
      ∙ append_assoc (contents l.bufs) (take n bytes) (take i (drop n bytes))
      ∙ ap (λ xs. contents l.bufs ++ xs) (take-take-drop n i (n + i) bytes refl);
  same_limit = u.same_limit ∙ t.same_limit;
  same_size = u.same_size ∙ t.same_size;
}

Took-nothing : (l : BufList) (bytes : List ℕ) → IsList l → Took l bytes 0 l
Took-nothing l bytes i = record {
  is_list = i;
  n_le = omega arith;
  shown = sym (append-nil (contents l.bufs));
  same_limit = refl;
  same_size = refl;
}

-- All was taken, or the list has as many buffers as it may.
abbrev pub Ended : BufList → List ℕ → Type 0
Ended l left = (left ≡ []) ⊎ (is_full l ≡ true)

write_left-Took :
    (fuel : ℕ) (l : BufList) (bytes : List ℕ)
    → length bytes < fuel
    → 0 < l.pool.size
    → IsList l
    → (n : ℕ) × Took l bytes n (write_left fuel l bytes).1
      × ((write_left fuel l bytes).0 ≡ drop n bytes)
      × Ended (write_left fuel l bytes).1 (write_left fuel l bytes).0
unfolding write_left
write_left-Took zero l bytes f p i = absurd (omega arith)
write_left-Took (suc fuel) l [] f p i = (0, Took-nothing l [] i, refl, inl refl)
write_left-Took (suc fuel) l (x ∷ bytes) f p i = elim (Bool-cases (is_full l)) [
  | inl e ↦ rw (e, write_left) (0, Took-nothing l (x ∷ bytes) i, refl, inr e)
  | inr e ↦
      let (t, more) = add_buf-Took l (x ∷ bytes) i e in
      let n = (add_buf l (x ∷ bytes)).0 in
      let l' = (add_buf l (x ∷ bytes)).1 in
      let (k, u, d, ended) =
        write_left-Took fuel l' (drop n (x ∷ bytes))
          (omega (arith, length-drop n (x ∷ bytes), more (omega arith) p))
          (omega (arith, t.same_size)) t.is_list in
      rw (e, write_left)
        (
          n + k,
          Took-trans l l' (write_left fuel l' (drop n (x ∷ bytes))).1 (x ∷ bytes) n k t u,
          d ∙ drop-drop n k (n + k) (x ∷ bytes) refl,
          ended,
        )
]

finished :
    (l : BufList) (bytes left : List ℕ)
    → Ended l left
    → (length bytes - length left ≡ length bytes) ⊎ (is_full l ≡ true)
finished l bytes left (inl e) = inl (rw e (omega arith))
finished l bytes left (inr e) = inr e

-- With buffers that hold a byte, `nw_buf_list_write` returns how many bytes it took: these stand behind
-- those that were there, and they are all of them unless the list has reached its limit.
pub nw_buf_list_write-Took :
    (l : BufList) (bytes : List ℕ)
    → IsList l
    → 0 < l.pool.size
    → Took l bytes (nw_buf_list_write l bytes).0 (nw_buf_list_write l bytes).1
      × (((nw_buf_list_write l bytes).0 ≡ length bytes)
          ⊎ (is_full (nw_buf_list_write l bytes).1 ≡ true))
unfolding nw_buf_list_write
nw_buf_list_write-Took l bytes i p =
    let (all, s, r, len) = write_tail-contents l.bufs bytes i.bufs in
    let n = (write_tail l.bufs bytes).0 in
    let m = record l { bufs = (write_tail l.bufs bytes).1 } in
    let m_list : IsList m = record {
      bufs = all;
      counted = omega (arith, i.counted, len);
      bounded = i.bounded;
    } in
    let t : Took l bytes n m = record {
      is_list = m_list;
      n_le = r;
      shown = s;
      same_limit = refl;
      same_size = refl;
    } in
    let (k, u, d, ended) =
      write_left-Took (length bytes + 1) m (drop n bytes) (omega (arith, length-drop n bytes)) p
        m_list in
    let left = (write_left (length bytes + 1) m (drop n bytes)).0 in
    let l' = (write_left (length bytes + 1) m (drop n bytes)).1 in
    let both = Took-trans l m l' bytes n k t u in
    let rest : length left ≡ length bytes - (n + k) =
      ap length (d ∙ drop-drop n k (n + k) bytes refl) ∙ length-drop (n + k) bytes in
    let ret : n + k ≡ length bytes - length left = omega (arith, rest, both.n_le) in
    (subst (λ q. Took l bytes q l') ret both, finished l' bytes left ended)

nw_buf_free-size : (p : BufPool) → (nw_buf_free p).size ≡ p.size
unfolding nw_buf_free
nw_buf_free-size p = ground arith

add_buf_all :
    (l : BufList) (bytes : List ℕ)
    → ltb (nw_buf_alloc l.pool).0.size (length bytes) ≡ false
    → (add_buf l bytes).0 ≡ length bytes
unfolding add_buf fresh nw_buf_write
add_buf_all l bytes f =
    let start : (nw_buf_alloc l.pool).0.wpos ≡ 0 = ap (λ b. b.wpos) (nw_buf_alloc-fresh l.pool).0 in
    ground (arith, start)

-- `nw_buf_list_append` takes all bytes, into a buffer of their own, or none.
pub nw_buf_list_append-Took :
    (l : BufList) (bytes : List ℕ)
    → IsList l
    → Took l bytes (nw_buf_list_append l bytes).0 (nw_buf_list_append l bytes).1
      × (((nw_buf_list_append l bytes).0 ≡ 0) ⊎ ((nw_buf_list_append l bytes).0 ≡ length bytes))
unfolding nw_buf_list_append add_buf
nw_buf_list_append-Took l bytes i = elim (Bool-cases (is_full l)) [
  | inl e ↦ rw (e, nw_buf_list_append) (Took-nothing l bytes i, inl refl)
  | inr e ↦ elim (Bool-cases (ltb (nw_buf_alloc l.pool).0.size (length bytes))) [
    | inl f ↦
        rw (e, f, nw_buf_list_append)
          (
            record {
              is_list = record { bufs = i.bufs; counted = i.counted; bounded = i.bounded };
              n_le = omega arith;
              shown = sym (append-nil (contents l.bufs));
              same_limit = refl;
              same_size = nw_buf_free-size (nw_buf_alloc l.pool).1 ∙ (nw_buf_alloc-fresh l.pool).1;
            },
            inl refl,
          )
    | inr f ↦
        let (t, more) = add_buf-Took l bytes i e in
        rw (e, f, nw_buf_list_append)
          (subst (λ n. Took l bytes n (add_buf l bytes).1) (add_buf_all l bytes f) t, inr refl)
  ]
]

-- Dropping the head of a list drops its bytes and no others.
pub nw_buf_list_shift-contents :
    (l : BufList) (b : Buf) (bs : List Buf)
    → l.bufs ≡ b ∷ bs
    → IsList l
    → IsList (nw_buf_list_shift l)
      × (contents l.bufs ≡ content b ++ contents (nw_buf_list_shift l).bufs)
unfolding nw_buf_list_shift contents
nw_buf_list_shift-contents l b bs e i =
    let held = subst (All IsBuf) e i.bufs in
    rw (e, nw_buf_list_shift)
      (
        record {
          bufs = held.1;
          counted = omega (arith, i.counted, ap length e);
          bounded = λ p. omega (arith, i.bounded p);
        },
        refl,
      )
