-- ===== src/Net/Fifo.antt =====
-- A list of buffers of network/nw_buf.c is a queue of bytes.
use viabtc_server_mac.Prelude.{
  ℕ, ◌+◌, ◌-◌, ◌≤◌, ◌<◌, ◌≡◌, refl, sym, ap, Bool-cases, List, [], ◌∷◌, ◌++◌, All, ◌⊎◌, ◌∙◌, inl,
  inr, ltb, nat_eq, string_eq, ◌==◌, if◌then◌else◌, length, take, drop, length-append, drop-append,
  length-take, length-drop, drop_all, arith,
}
use mathlib.Core.List.{append_assoc, append-nil}
use viabtc_server_mac.Net.Buf.{Buf, nw_buf_avail, nw_buf_write, nw_buf_shift, write_tail}

-- The positions of a buffer are in order and within its size.
pub record IsBuf (b : Buf) : Type 0 where
  pub rpos_le : b.rpos ≤ b.wpos
  pub wpos_le : b.wpos ≤ b.size
  pub filled : length b.«data» ≡ b.wpos

-- The bytes that were written and not read.
unfoldable pub content : Buf → List ℕ
content b = drop b.rpos b.«data»

unfoldable pub contents : List Buf → List ℕ
unfolding content
contents [] = []
contents (b ∷ bs) = content b ++ contents bs

pub contents-append : (bs cs : List Buf) → contents (bs ++ cs) ≡ contents bs ++ contents cs
unfolding contents
contents-append [] cs = refl
contents-append (b ∷ bs) cs =
    rw (contents-append bs cs) (sym (append_assoc (content b) (contents bs) (contents cs)))

pub contents-one : (b : Buf) → contents (b ∷ []) ≡ content b
unfolding contents
contents-one b = append-nil (content b)

-- What a write does to a buffer: as much as there is room for goes behind what was there.
pub record Written (b : Buf) (bytes : List ℕ) (r : ℕ × Buf) : Type 0 where
  pub is_buf : IsBuf r.1
  pub shown : content r.1 ≡ content b ++ take r.0 bytes
  pub ret_le : r.0 ≤ length bytes
  pub room : (r.0 ≡ length bytes) ⊎ (nw_buf_avail r.1 ≡ 0)
  pub more : 0 < length bytes → 0 < nw_buf_avail b → 0 < r.0

bytes-Written :
    (n : ℕ) (b : Buf) (bytes : List ℕ)
    → IsBuf b
    → n ≤ length bytes
    → b.wpos + n ≤ b.size
    → (n ≡ length bytes) ⊎ (b.size - (b.wpos + n) ≡ 0)
    → (0 < length bytes → 0 < nw_buf_avail b → 0 < n)
    → Written b bytes (n, record b { wpos = b.wpos + n; «data» = b.«data» ++ take n bytes })
unfolding nw_buf_avail content
bytes-Written n b bytes w h k room more = record {
  is_buf = record {
    rpos_le = omega (arith, w.rpos_le);
    wpos_le = k;
    filled = omega (arith, w.filled, length-append b.«data» (take n bytes), length-take n bytes h);
  };
  shown = drop-append b.rpos b.«data» (take n bytes) (omega (arith, w.rpos_le, w.filled));
  ret_le = h;
  room = room;
  more = more;
}

room_left :
    (len size wpos n : ℕ)
    → n ≡ (if ltb (size - wpos) len then size - wpos else len)
    → (n ≡ len) ⊎ (size - (wpos + n) ≡ 0)
room_left len size wpos n e = elim (Bool-cases (ltb (size - wpos) len)) [
  | inl f ↦ inr (ground arith)
  | inr f ↦ inl (ground arith)
]

pub nw_buf_write-Written :
    (b : Buf) (bytes : List ℕ) → IsBuf b → Written b bytes (nw_buf_write b bytes)
unfolding nw_buf_write nw_buf_avail
nw_buf_write-Written b bytes w =
    bytes-Written (nw_buf_write b bytes).0 b bytes w (ground arith) (ground (arith, w.wpos_le))
      (room_left (length bytes) b.size b.wpos (nw_buf_write b bytes).0 refl) (λ p q. ground arith)

-- Moving what is left to the front of a buffer keeps its content and makes all room but it free.
pub nw_buf_shift-content :
    (b : Buf)
    → IsBuf b
    → IsBuf (nw_buf_shift b)
      × (content (nw_buf_shift b) ≡ content b)
      × (nw_buf_avail (nw_buf_shift b) ≡ b.size - length (content b))
unfolding nw_buf_shift content nw_buf_avail
nw_buf_shift-content b w = elim (Bool-cases (b.rpos == b.wpos)) [
  | inl e ↦
      let all_read : drop b.rpos b.«data» ≡ [] =
        drop_all b.rpos b.«data» (ground (arith, w.filled)) in
      rw e (
        record { rpos_le = omega arith; wpos_le = omega arith; filled = refl },
        sym all_read,
        rw all_read (omega arith),
      )
  | inr e ↦ elim (Bool-cases (b.rpos == 0)) [
    | inl f ↦
        let zero_rpos : b.rpos ≡ 0 = ground arith in
        rw (e, f) (w, refl, rw zero_rpos (omega (arith, w.filled)))
    | inr f ↦
        let l = length-drop b.rpos b.«data» in
        rw (e, f)
          (
            record {
              rpos_le = omega arith;
              wpos_le = omega (arith, w.wpos_le);
              filled = omega (arith, l, w.filled);
            },
            refl,
            omega (arith, l, w.filled),
          )
  ]
]

-- Buffers of a list, and what the tail's write does to them.
pub write_tail-contents :
    (bs : List Buf) (bytes : List ℕ)
    → All IsBuf bs
    → All IsBuf (write_tail bs bytes).1
      × (contents (write_tail bs bytes).1 ≡ contents bs ++ take (write_tail bs bytes).0 bytes)
      × ((write_tail bs bytes).0 ≤ length bytes)
      × (length (write_tail bs bytes).1 ≡ length bs)
unfolding write_tail contents nw_buf_avail
write_tail-contents [] bytes h = (tt, refl, omega arith, refl)
write_tail-contents (b ∷ []) bytes h = elim (Bool-cases (nw_buf_avail b == 0)) [
  | inl e ↦ rw e (h, sym (append-nil (content b ++ [])), omega arith, refl)
  | inr e ↦
      let w = nw_buf_write-Written b bytes h.0 in
      rw e (
        (w.is_buf, tt),
        append-nil (content (nw_buf_write b bytes).1)
            ∙ w.shown
            ∙ ap (λ xs. xs ++ take (nw_buf_write b bytes).0 bytes) (sym (append-nil (content b))),
        w.ret_le,
        refl,
      )
]
write_tail-contents (b ∷ c ∷ bs) bytes h =
    let (i, s, r, l) = write_tail-contents (c ∷ bs) bytes h.1 in
    (
      (h.0, i),
      ap (λ xs. content b ++ xs) s
          ∙ sym (
              append_assoc (content b) (contents (c ∷ bs))
                (take (write_tail (c ∷ bs) bytes).0 bytes)),
      r,
      omega arith,
    )
