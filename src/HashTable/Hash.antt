-- ===== src/HashTable/Hash.antt =====
-- `dict_generic_hash_function` of utils/ut_dict.c, and the hash FNV-1a that it computes by shifts.
use Prim.Native.Nat.{bit_xor}
use viabtc_server_mac.Prelude.{ℕ, ◌+◌, ◌*◌, ◌%◌, ◌^◌, ◌≡◌, refl, List, [], ◌∷◌, arith, ap, ◌∙◌}

-- `hval << k` on 32 bits.
shifted : ℕ → ℕ → ℕ
shifted hval k = hval * 2 ^ k % 2 ^ 32

-- The body of the loop: the next byte, then a sum of shifts.
unfoldable pub hash_byte : ℕ → ℕ → ℕ
unfolding shifted
hash_byte hval byte =
    let x = bit_xor hval byte in
    (x + (shifted x 1 + shifted x 4 + shifted x 7 + shifted x 8 + shifted x 24) % 2 ^ 32) % 2 ^ 32

hash_bytes : ℕ → List ℕ → ℕ
unfolding hash_byte
hash_bytes hval [] = hval
hash_bytes hval (byte ∷ bytes) = hash_bytes (hash_byte hval byte) bytes

-- The bytes from `data` on, `len` of them.
unfoldable pub dict_generic_hash_function : List ℕ → ℕ
unfolding hash_bytes
dict_generic_hash_function bytes = hash_bytes 0x811c9dc5 bytes

-- FNV-1a as it is published: the exclusive or with each byte, then the product with the prime.
abbrev pub fnv_prime : ℕ
fnv_prime = 16777619

abbrev pub fnv_1a_from : ℕ → List ℕ → ℕ
fnv_1a_from h [] = h
fnv_1a_from h (byte ∷ bytes) = fnv_1a_from (bit_xor h byte * fnv_prime % 2 ^ 32) bytes

hash_byte_lem : (hval byte : ℕ) → hash_byte hval byte ≡ bit_xor hval byte * fnv_prime % 2 ^ 32
unfolding hash_byte
hash_byte_lem hval byte = omega arith

hash_bytes_lem : (hval : ℕ) (bytes : List ℕ) → hash_bytes hval bytes ≡ fnv_1a_from hval bytes
unfolding hash_bytes
hash_bytes_lem hval [] = refl
hash_bytes_lem hval (byte ∷ bytes) =
    ap (λ h. hash_bytes h bytes) (hash_byte_lem hval byte)
    ∙ hash_bytes_lem (bit_xor hval byte * fnv_prime % 2 ^ 32) bytes

-- The hash of a list of bytes, computed by shifts and sums, is their FNV-1a hash of 32 bits, computed by
-- the product with the prime.
pub dict_generic_hash_function-fnv_1a :
    (bytes : List ℕ) → dict_generic_hash_function bytes ≡ fnv_1a_from 2166136261 bytes
unfolding dict_generic_hash_function
dict_generic_hash_function-fnv_1a bytes = hash_bytes_lem 2166136261 bytes
