-- ===== src/Hash.antt =====
-- The hash functions over the selected bytes of a packet: src/hash.c (calcHashValue_*), with
-- src/bobhash.c, src/twmx.c and src/hsieh.c. The children hold one function each; this file is
-- the choice among them that an options record carries as a function pointer.
pub mod Oaat
pub mod Sbox
pub mod Twmx
pub mod Hsieh
pub mod Bob
use impd4e.Common.{ℕ, ◌^◌, ◌<◌, List, Bool, arith}
use Oaat.{calc_hash_value_oaat, calc_hash_value_oaat-lt}
use Twmx.{twmx_hash, twmx_hash-lt}
use Hsieh.{hsieh_hash, hsieh_hash-lt}
use Bob.{bob_hash, bob_hash-lt}

-- What the compiler and the allocator choose: whether the buffer's address is a multiple of 4,
-- and whether `char` is signed.
pub record Machine : Type 0 where
  pub aligned : Bool
  pub char_signed : Bool

abbrev pub initval : ℕ
initval = 0x32545

pub data HashFunction : Type 0 where
  bob twmx hsieh oaat : HashFunction

-- The call through the function pointer.
unfoldable pub calc_hash_value : Machine → HashFunction → List ℕ → ℕ
calc_hash_value machine bob bytes = bob_hash bytes initval
calc_hash_value machine twmx bytes = twmx_hash machine.aligned bytes initval
calc_hash_value machine hsieh bytes = hsieh_hash machine.char_signed bytes
calc_hash_value machine oaat bytes = calc_hash_value_oaat bytes

-- Every hash function returns a uint32_t, on every input.
calc_hash_value-lt :
    (machine : Machine) (f : HashFunction) (bytes : List ℕ)
    → calc_hash_value machine f bytes < 2 ^ 32
unfolding calc_hash_value
calc_hash_value-lt machine bob bytes = bob_hash-lt bytes initval (omega arith)
calc_hash_value-lt machine twmx bytes = twmx_hash-lt machine.aligned bytes initval
calc_hash_value-lt machine hsieh bytes = hsieh_hash-lt machine.char_signed bytes
calc_hash_value-lt machine oaat bytes = calc_hash_value_oaat-lt bytes
