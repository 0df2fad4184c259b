-- ===== src/Hash/Twmx.antt =====
-- src/twmx.c: TWMXHash, built without HASHES_BIG_ENDIAN on a little-endian machine.
use impd4e.Common.{
  ℕ, ◌+◌, ◌-◌, ◌*◌, ◌^◌, ◌<◌, Bool, true, false, List, [], ◌∷◌, ◌≡◌, refl, arith, bit_and, bit_xor,
  u32_mod, ◌+₃₂◌, ◌<<◌, ◌>>◌, bit_xor-lt, bit_and-le, All,
}

-- `~x` on uint32_t.
abbrev complement : ℕ → ℕ
complement x = u32_mod - 1 - x

pub mix : ℕ → ℕ
mix key0 =
    let key1 = key0 +₃₂ complement (key0 << 15) in
    let key2 = bit_xor key1 (bit_and key1 0x7FFF_FFFF >> 10) in
    let key3 = key2 +₃₂ (key2 << 3) in
    let key4 = bit_xor key3 (bit_and key3 0x7FFF_FFFF >> 6) in
    let key5 = key4 +₃₂ complement (key4 << 11) in bit_xor key5 (bit_and key5 0x7FFF_FFFF >> 16)

-- Four bytes as the word that is added: put together by shifts where `data` is not aligned, and
-- loaded as a uint32_t where it is.
pub word : Bool → ℕ → ℕ → ℕ → ℕ → ℕ
word false k0 k1 k2 k3 = k0 +₃₂ (k1 << 8) +₃₂ (k2 << 16) +₃₂ (k3 << 24)
word true k0 k1 k2 k3 = k0 + 2 ^ 8 * (k1 + 2 ^ 8 * (k2 + 2 ^ 8 * k3))

-- The `while (len >= 4)` loop, and behind it the switch on the bytes left, which falls through.
pub twmx_loop : Bool → ℕ → List ℕ → ℕ
twmx_loop aligned key (k0 ∷ k1 ∷ k2 ∷ k3 ∷ rest) =
    twmx_loop aligned (mix (key +₃₂ word aligned k0 k1 k2 k3)) rest
twmx_loop aligned key (k0 ∷ k1 ∷ k2 ∷ []) = mix (key +₃₂ (k2 << 16) +₃₂ (k1 << 8) +₃₂ k0)
twmx_loop aligned key (k0 ∷ k1 ∷ []) = mix (key +₃₂ (k1 << 8) +₃₂ k0)
twmx_loop aligned key (k0 ∷ []) = mix (key +₃₂ k0)
twmx_loop aligned key [] = mix key

-- `aligned` is the test on the address of `data`.
unfoldable pub twmx_hash : Bool → List ℕ → ℕ → ℕ
unfolding mix word twmx_loop
twmx_hash aligned bytes initval = twmx_loop aligned initval bytes

word_aligned :
    (k0 k1 k2 k3 : ℕ)
    → k0 < 256
    → k1 < 256
    → k2 < 256
    → k3 < 256
    → word true k0 k1 k2 k3 ≡ word false k0 k1 k2 k3
unfolding word
word_aligned k0 k1 k2 k3 h0 h1 h2 h3 = omega arith

twmx_loop_aligned :
    (key : ℕ) (bytes : List ℕ)
    → All (λ b. b < 256) bytes
    → twmx_loop true key bytes ≡ twmx_loop false key bytes
unfolding twmx_loop
twmx_loop_aligned key (k0 ∷ k1 ∷ k2 ∷ k3 ∷ rest) (h0, (h1, (h2, (h3, h)))) =
    rw (word_aligned k0 k1 k2 k3 h0 h1 h2 h3)
      (twmx_loop_aligned (mix (key +₃₂ word false k0 k1 k2 k3)) rest h)
twmx_loop_aligned key (k0 ∷ k1 ∷ k2 ∷ []) h = refl
twmx_loop_aligned key (k0 ∷ k1 ∷ []) h = refl
twmx_loop_aligned key (k0 ∷ []) h = refl
twmx_loop_aligned key [] h = refl

-- The TWMX hash of a byte string, all bytes below 256, does not depend on the address at which it is stored.
twmx_hash_aligned :
    (bytes : List ℕ) (initval : ℕ)
    → All (λ b. b < 256) bytes
    → twmx_hash true bytes initval ≡ twmx_hash false bytes initval
unfolding twmx_hash
twmx_hash_aligned bytes initval h = twmx_loop_aligned initval bytes h

mix-lt : (key : ℕ) → mix key < 2 ^ 32
unfolding mix
mix-lt key = bit_xor-lt 32 _ _ (omega arith) (omega (arith, bit_and-le))

twmx_loop-lt : (aligned : Bool) (key : ℕ) (bytes : List ℕ) → twmx_loop aligned key bytes < 2 ^ 32
unfolding twmx_loop
twmx_loop-lt aligned key (k0 ∷ k1 ∷ k2 ∷ k3 ∷ rest) =
    twmx_loop-lt aligned (mix (key +₃₂ word aligned k0 k1 k2 k3)) rest
twmx_loop-lt aligned key (k0 ∷ k1 ∷ k2 ∷ []) = mix-lt _
twmx_loop-lt aligned key (k0 ∷ k1 ∷ []) = mix-lt _
twmx_loop-lt aligned key (k0 ∷ []) = mix-lt _
twmx_loop-lt aligned key [] = mix-lt _

pub twmx_hash-lt :
    (aligned : Bool) (bytes : List ℕ) (initval : ℕ) → twmx_hash aligned bytes initval < 2 ^ 32
unfolding twmx_hash
twmx_hash-lt aligned bytes initval = twmx_loop-lt aligned initval bytes
