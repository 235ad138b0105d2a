-- ===== src/Tests/Wires.antt =====
-- The wire formats of utils/ut_pack.c on bytes.
use viabtc_server_mac.Prelude.{
  ℕ, ◌<◌, ◌≡◌, negsuc, refl, some, List, [], ◌∷◌, ◌++◌, nat_eq, string_eq, length, take, arith,
}
use viabtc_server_mac.Wire.Pack.{Out}
use viabtc_server_mac.Wire.Varint.{pack_varint_le, unpack_varint_le, pack_varstr, unpack_varstr}
use viabtc_server_mac.Wire.Push.{pack_oppushint_le, unpack_oppushint_le}
use viabtc_server_mac.Wire.Trips.{ReadsBack, unpack-pack_varint_le, unpack-pack_varstr}
use viabtc_server_mac.Wire.Crc.{generate_crc32c}
use viabtc_server_mac.Wire.Rpc.{RpcPkg, rpc_pkg_magic, rpc_pack, rpc_decode, decoded, wait}
use viabtc_server_mac.Wire.Packets.{IsPkg, rpc_decode-pack, rpc_decode_partial}
use viabtc_server_mac.Wire.Ints.{unpack-pack_oppushint_le}

abbrev blank : Out
blank = record { written = []; left = 32 }

abbrev word : List ℕ
word = 0x66 ∷ 0x6f ∷ 0x6f ∷ []

varint_bytes : (pack_varint_le blank 70000).1.written ≡ 0xfe ∷ 0x70 ∷ 0x11 ∷ 0x01 ∷ 0x00 ∷ []
unfolding pack_varint_le viabtc_server_mac.Wire.Bytes.le_bytes
varint_bytes = refl

int_bytes : (pack_oppushint_le blank (negsuc 254)).1.written ≡ 2 ∷ 0xff ∷ 0x80 ∷ []
unfolding pack_oppushint_le
int_bytes = refl

unpack-pack_varint_le_example : ReadsBack unpack_varint_le 70000 blank (pack_varint_le blank 70000)
unpack-pack_varint_le_example = unpack-pack_varint_le blank 70000 (omega arith) (omega arith)

unpack-pack_varstr_example : ReadsBack unpack_varstr word blank (pack_varstr blank word)
unpack-pack_varstr_example = unpack-pack_varstr blank word (omega arith) (omega arith)

unpack-pack_oppushint_le_example :
    ReadsBack unpack_oppushint_le (negsuc 254) blank (pack_oppushint_le blank (negsuc 254))
unpack-pack_oppushint_le_example =
    unpack-pack_oppushint_le blank (negsuc 254) (omega arith) (omega arith)

-- The checksum of the digits 1 to 9 is that of CRC-32 (IEEE 802.3); CRC-32C has 0xe3069283.
crc_digits :
    generate_crc32c (0x31 ∷ 0x32 ∷ 0x33 ∷ 0x34 ∷ 0x35 ∷ 0x36 ∷ 0x37 ∷ 0x38 ∷ 0x39 ∷ []) ≡ 0xcbf43926
unfolding generate_crc32c
crc_digits = refl

abbrev request : RpcPkg
request = record {
  magic = 0;
  command = 201;
  pkg_type = 0;
  result = 0;
  crc32 = 0;
  sequence = 7;
  req_id = 9;
  body_size = 2;
  ext_size = 1;
  ext = 5 ∷ [];
  body = 91 ∷ 93 ∷ [];
}

request-IsPkg : IsPkg request
request-IsPkg = record {
  command = omega arith;
  pkg_type = omega arith;
  result = omega arith;
  sequence = omega arith;
  req_id = omega arith;
  ext_size = omega arith;
  body_size = omega arith;
  ext_sized = refl;
  body_sized = refl;
}

rpc_decode-pack_example :
    (bytes : List ℕ) × (crc32 : ℕ) × (rpc_pack request ≡ some bytes)
    × (rpc_decode (bytes ++ 1 ∷ 2 ∷ [])
        ≡ decoded (length bytes) (record request { magic = rpc_pkg_magic; crc32 = crc32 }))
rpc_decode-pack_example = rpc_decode-pack request request-IsPkg (1 ∷ 2 ∷ [])

rpc_decode_partial_example :
    (bytes : List ℕ) × (rpc_pack request ≡ some bytes)
    × ((k : ℕ) → k < length bytes → rpc_decode (take k bytes) ≡ wait)
rpc_decode_partial_example = rpc_decode_partial request request-IsPkg
