-- ===== src/Wire/Packets.antt =====
-- A packet that `rpc_pack` of utils/ut_rpc.c makes is read back by `rpc_decode`.
use viabtc_server_mac.Prelude.{
  ℕ, zero, suc, ◌+◌, ◌-◌, ◌^◌, ◌≤◌, ◌<◌, ◌≡◌, refl, sym, ap, subst, Bool-cases, true, false, some,
  List, [], ◌∷◌, ◌++◌, ◌∙◌, inl, inr, ltb, nat_eq, string_eq, ◌==◌, length, take, drop,
  length-append, length-take, arith,
}
use mathlib.Core.List.{append_assoc, append-nil}
use viabtc_server_mac.Wire.Bytes.{le_bytes, of_le, split_at, of_le-le_bytes}
use viabtc_server_mac.Wire.Crc.{generate_crc32c, generate_crc32c_bound}
use viabtc_server_mac.Wire.Rpc.{
  RpcPkg, rpc_pkg_magic, rpc_pkg_head_size, rpc_pkg_max_body_size, with_head, rpc_pack, read_head,
  blank_crc, pkg_size, check_pkg, rpc_decode, decoded, wait,
}

-- The fields fit, and the sizes are those of the bytes.
pub record IsPkg (p : RpcPkg) : Type 0 where
  pub command : p.command < 2 ^ 32
  pub pkg_type : p.pkg_type < 2 ^ 16
  pub result : p.result < 2 ^ 32
  pub sequence : p.sequence < 2 ^ 32
  pub req_id : p.req_id < 2 ^ 64
  pub ext_size : p.ext_size < 2 ^ 16
  pub body_size : p.body_size ≤ rpc_pkg_max_body_size
  pub ext_sized : length p.ext ≡ p.ext_size
  pub body_sized : length p.body ≡ p.body_size

with_head-append :
    (p : RpcPkg) (tail rest : List ℕ) → with_head p tail ++ rest ≡ with_head p (tail ++ rest)
unfolding with_head le_bytes
with_head-append p tail rest = refl

length-with_head : (p : RpcPkg) (tail : List ℕ) → length (with_head p tail) ≡ 36 + length tail
unfolding with_head le_bytes
length-with_head p tail = omega arith

blank_crc-with_head :
    (p : RpcPkg) (tail : List ℕ)
    → blank_crc (with_head p tail) ≡ with_head (record p { crc32 = 0 }) tail
unfolding blank_crc with_head le_bytes
blank_crc-with_head p tail = refl

take-append : (xs ys : List ℕ) → take (length xs) (xs ++ ys) ≡ xs
take-append [] ys = refl
take-append (x ∷ xs) ys = ap (λ zs. x ∷ zs) (take-append xs ys)

drop-append_all : (xs ys : List ℕ) → drop (length xs) (xs ++ ys) ≡ ys
drop-append_all [] ys = refl
drop-append_all (x ∷ xs) ys = drop-append_all xs ys

take_past : (n m : ℕ) (xs ys : List ℕ) → length xs + m ≡ n → take n (xs ++ ys) ≡ xs ++ take m ys
take_past n m [] ys e = let same : n ≡ m = omega arith in ap (λ k. take k ys) same
take_past zero m (x ∷ xs) ys e = absurd (omega arith)
take_past (suc n) m (x ∷ xs) ys e = ap (λ zs. x ∷ zs) (take_past n m xs ys (omega arith))

-- A cut behind the head.
take-with_head :
    (k m : ℕ) (p : RpcPkg) (tail : List ℕ)
    → 36 + m ≡ k
    → take k (with_head p tail) ≡ with_head p (take m tail)
take-with_head k m p tail e =
    ap (take k) (sym (with_head-append p [] tail))
    ∙ take_past k m (with_head p []) tail (omega (arith, length-with_head p []))
    ∙ with_head-append p [] (take m tail)

read_head-with_head :
    (p : RpcPkg) (tail : List ℕ)
    → p.magic < 2 ^ 32
    → p.crc32 < 2 ^ 32
    → IsPkg p
    → read_head (with_head p tail) ≡ some (record p { ext = []; body = [] }, tail)
unfolding read_head with_head le_bytes of_le split_at
read_head-with_head p tail m c i =
    let e_magic = of_le-le_bytes 4 p.magic m in
    let e_command = of_le-le_bytes 4 p.command i.command in
    let e_type = of_le-le_bytes 2 p.pkg_type i.pkg_type in
    let e_result = of_le-le_bytes 4 p.result i.result in
    let e_crc = of_le-le_bytes 4 p.crc32 c in
    let e_sequence = of_le-le_bytes 4 p.sequence i.sequence in
    let e_id = of_le-le_bytes 8 p.req_id i.req_id in
    let e_body = of_le-le_bytes 4 p.body_size (omega (arith, i.body_size)) in
    let e_ext = of_le-le_bytes 2 p.ext_size i.ext_size in
    λ j. some (
      record {
        magic = e_magic j;
        command = e_command j;
        pkg_type = e_type j;
        result = e_result j;
        crc32 = e_crc j;
        sequence = e_sequence j;
        req_id = e_id j;
        body_size = e_body j;
        ext_size = e_ext j;
        ext = [];
        body = [];
      },
      tail,
    )

take_front : (n : ℕ) (xs ys : List ℕ) → length xs ≡ n → take n (xs ++ ys) ≡ xs
take_front n xs ys e = subst (λ k. take k (xs ++ ys) ≡ xs) e (take-append xs ys)

take_self : (n : ℕ) (xs : List ℕ) → length xs ≡ n → take n xs ≡ xs
take_self n xs e = ap (take n) (sym (append-nil xs)) ∙ take_front n xs [] e

drop_front : (n : ℕ) (xs ys : List ℕ) → length xs ≡ n → drop n (xs ++ ys) ≡ ys
drop_front n xs ys e = subst (λ k. drop k (xs ++ ys) ≡ ys) e (drop-append_all xs ys)

module _ (p : RpcPkg) (i : IsPkg p) where
  abbrev blank_pkg : RpcPkg
  blank_pkg = record p { magic = rpc_pkg_magic; crc32 = 0 }

  abbrev crc : ℕ
  crc = generate_crc32c (with_head blank_pkg (p.ext ++ p.body))

  -- The packet as it is sent.
  abbrev pub sent : RpcPkg
  sent = record p { magic = rpc_pkg_magic; crc32 = crc }

  abbrev packet : List ℕ
  packet = with_head sent (p.ext ++ p.body)

  pack-packet : rpc_pack p ≡ some packet
  unfolding rpc_pack
  pack-packet =
      let small : ltb rpc_pkg_max_body_size p.body_size ≡ false = ground (arith, i.body_size) in
      rw (small, take_self p.ext_size p.ext i.ext_sized, take_self p.body_size p.body i.body_sized)
        refl

  length-packet : length packet ≡ 36 + p.ext_size + p.body_size
  length-packet =
      length-with_head sent (p.ext ++ p.body)
      ∙ omega (arith, length-append p.ext p.body, i.ext_sized, i.body_sized)

  size-packet : pkg_size (record sent { ext = []; body = [] }) ≡ length packet
  unfolding pkg_size
  size-packet = omega (arith, length-packet, i.ext_size, i.body_size)

  blank_packet :
      (rest : List ℕ)
      → take (length packet) (blank_crc (packet ++ rest)) ≡ with_head blank_pkg (p.ext ++ p.body)
  blank_packet rest =
      ap (λ bs. take (length packet) (blank_crc bs)) (with_head-append sent (p.ext ++ p.body) rest)
      ∙ ap (take (length packet)) (blank_crc-with_head sent ((p.ext ++ p.body) ++ rest))
      ∙ ap (take (length packet)) (sym (with_head-append blank_pkg (p.ext ++ p.body) rest))
      ∙ take_front (length packet) (with_head blank_pkg (p.ext ++ p.body)) rest (
          length-with_head blank_pkg (p.ext ++ p.body)
          ∙ sym (length-with_head sent (p.ext ++ p.body)))

  check-packet :
      (rest : List ℕ)
      → check_pkg (packet ++ rest) (record sent { ext = []; body = [] }) ((p.ext ++ p.body) ++ rest)
        ≡ decoded (length packet) sent
  unfolding check_pkg
  check-packet rest =
      let enough : ltb (length (packet ++ rest)) (length packet) ≡ false =
        ground (arith, length-append packet rest) in
      let same : (crc == crc) ≡ true = ground arith in
      let body_read : take p.body_size (p.body ++ rest) ≡ p.body =
        take_front p.body_size p.body rest i.body_sized in
      rw
        (
          size-packet,
          enough,
          blank_packet rest,
          same,
          append_assoc p.ext p.body rest,
          take_front p.ext_size p.ext (p.body ++ rest) i.ext_sized,
          drop_front p.ext_size p.ext (p.body ++ rest) i.ext_sized,
          body_read,
        )
        refl

  sent-IsPkg : IsPkg sent
  sent-IsPkg = record {
    command = i.command;
    pkg_type = i.pkg_type;
    result = i.result;
    sequence = i.sequence;
    req_id = i.req_id;
    ext_size = i.ext_size;
    body_size = i.body_size;
    ext_sized = i.ext_sized;
    body_sized = i.body_sized;
  }

  read_head-packet :
      (rest : List ℕ)
      → read_head (packet ++ rest)
        ≡ some (record sent { ext = []; body = [] }, (p.ext ++ p.body) ++ rest)
  read_head-packet rest =
      ap read_head (with_head-append sent (p.ext ++ p.body) rest)
      ∙ read_head-with_head sent ((p.ext ++ p.body) ++ rest) (omega arith)
          (generate_crc32c_bound (with_head blank_pkg (p.ext ++ p.body))) sent-IsPkg

  -- A packet whose fields fit and whose sizes are those of its bytes is packed, and `rpc_decode` reads it
  -- back from what was sent, whatever follows: the size is that of the packet, and only the magic
  -- number and the checksum are not what they were.
  pub rpc_decode-pack :
      (rest : List ℕ)
      → (bytes : List ℕ) × (crc32 : ℕ) × (rpc_pack p ≡ some bytes)
        × (rpc_decode (bytes ++ rest)
            ≡ decoded (length bytes) (record p { magic = rpc_pkg_magic; crc32 = crc32 }))
  unfolding rpc_decode
  rpc_decode-pack rest =
      let long : ltb (length (packet ++ rest)) rpc_pkg_head_size ≡ false =
        ground (arith, length-append packet rest, length-packet) in
      (packet, crc, pack-packet, rw (long, read_head-packet rest) (check-packet rest))

  -- No part of such a packet that is cut off at its end is taken for a packet: `rpc_decode` waits.
  pub rpc_decode_partial :
      (bytes : List ℕ) × (rpc_pack p ≡ some bytes)
      × ((k : ℕ) → k < length bytes → rpc_decode (take k bytes) ≡ wait)
  unfolding rpc_decode check_pkg
  rpc_decode_partial = (packet, pack-packet, λ k h. cut k h)
    where
      cut : (k : ℕ) → k < length packet → rpc_decode (take k packet) ≡ wait
      cut k h =
          let len = length-take k packet (omega arith) in
          elim (Bool-cases (ltb k 36)) [
            | inl e ↦
                let short : ltb (length (take k packet)) rpc_pkg_head_size ≡ true = rw len e in
                rw short refl
            | inr e ↦
                let long : ltb (length (take k packet)) rpc_pkg_head_size ≡ false = rw len e in
                let m = k - 36 in
                let c = take-with_head k m sent (p.ext ++ p.body) (ground arith) in
                let r =
                  ap read_head c
                  ∙ read_head-with_head sent (take m (p.ext ++ p.body)) (omega arith)
                      (generate_crc32c_bound (with_head blank_pkg (p.ext ++ p.body))) sent-IsPkg in
                let lacks : ltb (length (take k packet)) (length packet) ≡ true =
                  ground (arith, len) in
                rw (long, r, size-packet, lacks) refl
          ]
