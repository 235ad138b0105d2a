-- ===== src/Wire/Rpc.antt =====
-- utils/ut_rpc.c on a machine with little-endian numbers: the packets that the services exchange.
use viabtc_server_mac.Prelude.{
  ℕ, ◌+◌, ◌-◌, ◌/◌, ◌%◌, ◌^◌, not, Option, none, some, List, [], ◌∷◌, ◌++◌, ltb, nat_eq, string_eq,
  ◌==◌, ◌>>=◌, if◌then◌else◌, length, take, drop,
}
use viabtc_server_mac.Wire.Bytes.{le_bytes}
use viabtc_server_mac.Wire.Pack.{Unpacked}
use viabtc_server_mac.Wire.Varint.{behind}
use viabtc_server_mac.Wire.Crc.{generate_crc32c}

-- `ext` and `body` are the bytes that the pointers lead to.
pub record RpcPkg : Type 0 where
  pub magic : ℕ
  pub command : ℕ
  pub pkg_type : ℕ
  pub result : ℕ
  pub crc32 : ℕ
  pub sequence : ℕ
  pub req_id : ℕ
  pub body_size : ℕ
  pub ext_size : ℕ
  pub ext : List ℕ
  pub body : List ℕ

-- RPC_PKG_MAGIC, RPC_PKG_HEAD_SIZE, RPC_PKG_MAX_BODY_SIZE with pointers of 8 bytes.
abbrev pub rpc_pkg_magic : ℕ
rpc_pkg_magic = 0x70656562

abbrev pub rpc_pkg_head_size : ℕ
rpc_pkg_head_size = 36

abbrev pub rpc_pkg_max_body_size : ℕ
rpc_pkg_max_body_size = (2 ^ 32 - 1) / 2 - (2 ^ 16 - 1) - 52

-- The head in memory, in front of other bytes.
unfoldable pub with_head : RpcPkg → List ℕ → List ℕ
unfolding le_bytes
with_head p tail =
    le_bytes 4 p.magic
    ++ (le_bytes 4 p.command
        ++ (le_bytes 2 p.pkg_type
            ++ (le_bytes 4 p.result
                ++ (le_bytes 4 p.crc32
                    ++ (le_bytes 4 p.sequence
                        ++ (le_bytes 8 p.req_id
                            ++ (le_bytes 4 p.body_size ++ (le_bytes 2 p.ext_size ++ tail))))))))

-- The bytes to send. The buffer that is kept from call to call is written before it is read.
unfoldable pub rpc_pack : RpcPkg → Option (List ℕ)
unfolding with_head generate_crc32c
rpc_pack p =
    if ltb rpc_pkg_max_body_size p.body_size
    then none
    else let tail = take p.ext_size p.ext ++ take p.body_size p.body in
      let blank : RpcPkg = record p { magic = rpc_pkg_magic; crc32 = 0 } in
      some (with_head (record blank { crc32 = generate_crc32c (with_head blank tail) }) tail)

-- 0, the negative results, and a packet with its size.
pub data Decoded : Type 0 where
  wait : Decoded
  bad_magic : Decoded
  bad_crc : Decoded
  decoded : ℕ → RpcPkg → Decoded

-- The head of a packet, and what stands behind it.
unfoldable pub read_head : List ℕ → Unpacked RpcPkg
read_head data' = do
  (magic, r1) ← behind 4 data'
  (command, r2) ← behind 4 r1
  (pkg_type, r3) ← behind 2 r2
  (result, r4) ← behind 4 r3
  (crc32, r5) ← behind 4 r4
  (sequence, r6) ← behind 4 r5
  (req_id, r7) ← behind 8 r6
  (body_size, r8) ← behind 4 r7
  (ext_size, r9) ← behind 2 r8
  some (
    record {
      magic = magic;
      command = command;
      pkg_type = pkg_type;
      result = result;
      crc32 = crc32;
      sequence = sequence;
      req_id = req_id;
      body_size = body_size;
      ext_size = ext_size;
      ext = [];
      body = [];
    },
    r9,
  )

-- `pkg->crc32 = 0`
unfoldable pub blank_crc : List ℕ → List ℕ
blank_crc bytes = take 14 bytes ++ 0 ∷ 0 ∷ 0 ∷ 0 ∷ drop 18 bytes

-- The sizes are added in 32 bits.
unfoldable pub pkg_size : RpcPkg → ℕ
pkg_size p = (rpc_pkg_head_size + p.ext_size + p.body_size) % 2 ^ 32

-- What `rpc_decode` makes of a head; `ext` and `body` are what its callers let the pointers lead to.
unfoldable pub check_pkg : List ℕ → RpcPkg → List ℕ → Decoded
unfolding pkg_size blank_crc generate_crc32c
check_pkg bytes p rest =
    if not (p.magic == rpc_pkg_magic)
    then bad_magic
    else if ltb (length bytes) (pkg_size p)
    then wait
    else if not (p.crc32 == generate_crc32c (take (pkg_size p) (blank_crc bytes)))
    then bad_crc
    else decoded (pkg_size p)
        (record p { ext = take p.ext_size rest; body = take p.body_size (drop p.ext_size rest) })

unfoldable pub rpc_decode : List ℕ → Decoded
unfolding read_head check_pkg
rpc_decode bytes =
    if ltb (length bytes) rpc_pkg_head_size
    then wait
    else elim (read_head bytes) [ none ↦ wait | some (p, rest) ↦ check_pkg bytes p rest ]
