-- ===== src/Hash/Oaat.antt =====
-- src/hash.c: calcHashValue_OAAT.
use impd4e.Common.{ℕ, ◌^◌, ◌<◌, List, [], ◌∷◌, arith, bit_xor, ◌+₃₂◌, ◌<<◌, ◌>>◌}

-- One round of the loop.
pub oaat_byte : ℕ → ℕ → ℕ
oaat_byte hash byte =
    let added = hash +₃₂ byte in
    let spread = added +₃₂ (added << 10) in bit_xor spread (spread >> 6)

pub oaat_loop : ℕ → List ℕ → ℕ
oaat_loop hash [] = hash
oaat_loop hash (byte ∷ rest) = oaat_loop (oaat_byte hash byte) rest

pub oaat_finish : ℕ → ℕ
oaat_finish hash =
    let first = hash +₃₂ (hash << 3) in
    let second = bit_xor first (first >> 11) in second +₃₂ (second << 15)

unfoldable pub calc_hash_value_oaat : List ℕ → ℕ
unfolding oaat_byte oaat_loop oaat_finish
calc_hash_value_oaat bytes = oaat_finish (oaat_loop 0 bytes)

pub calc_hash_value_oaat-lt : (bytes : List ℕ) → calc_hash_value_oaat bytes < 2 ^ 32
unfolding calc_hash_value_oaat
calc_hash_value_oaat-lt bytes = omega arith
