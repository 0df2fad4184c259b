-- ===== src/Hash/Hsieh.antt =====
-- src/hsieh.c: Hsieh_Hash. `data` is a `const char*`, and whether `char` is signed is the
-- compiler's choice, so it is an argument here.
use impd4e.Common.{
  ℕ, ◌+◌, ◌-◌, ◌^◌, ◌<◌, Bool, true, false, List, [], ◌∷◌, ◌≡◌, refl, ap, arith, bit_xor, u32_mod,
  u16, ◌+₃₂◌, ◌<<◌, ◌>>◌, length, take, All, All-take, ltb, if◌then◌else◌,
}

-- `get16bits`, on two bytes of memory.
pub get16bits : ℕ → ℕ → ℕ
get16bits d0 d1 = (d1 << 8) +₃₂ d0

-- A `char` as it is converted to uint32_t.
pub char_value : Bool → ℕ → ℕ
char_value false c = c
char_value true c = if ltb c 128 then c else c + u32_mod - 256

hsieh_round : ℕ → ℕ → ℕ → ℕ → ℕ → ℕ
unfolding get16bits
hsieh_round hash0 d0 d1 d2 d3 =
    let hash1 = hash0 +₃₂ get16bits d0 d1 in
    let tmp = bit_xor (get16bits d2 d3 << 11) hash1 in
    let hash2 = bit_xor (hash1 << 16) tmp in hash2 +₃₂ (hash2 >> 11)

-- "Force avalanching of final 127 bits".
pub hsieh_finish : ℕ → ℕ
hsieh_finish hash0 =
    let hash1 = bit_xor hash0 (hash0 << 3) in
    let hash2 = hash1 +₃₂ (hash1 >> 5) in
    let hash3 = bit_xor hash2 (hash2 << 4) in
    let hash4 = hash3 +₃₂ (hash3 >> 17) in
    let hash5 = bit_xor hash4 (hash4 << 25) in hash5 +₃₂ (hash5 >> 6)

-- The end cases: `case 3`, `case 2` and `case 1`.
pub hsieh_three : Bool → ℕ → ℕ → ℕ → ℕ → ℕ
unfolding get16bits char_value
hsieh_three signed hash0 d0 d1 d2 =
    let hash1 = hash0 +₃₂ get16bits d0 d1 in
    let hash2 = bit_xor hash1 (hash1 << 16) in
    let hash3 = bit_xor hash2 (char_value signed d2 << 18) in hash3 +₃₂ (hash3 >> 11)

pub hsieh_two : ℕ → ℕ → ℕ → ℕ
unfolding get16bits
hsieh_two hash0 d0 d1 =
    let hash1 = hash0 +₃₂ get16bits d0 d1 in
    let hash2 = bit_xor hash1 (hash1 << 11) in hash2 +₃₂ (hash2 >> 17)

pub hsieh_one : Bool → ℕ → ℕ → ℕ
unfolding char_value
hsieh_one signed hash0 d0 =
    let hash1 = hash0 +₃₂ char_value signed d0 in
    let hash2 = bit_xor hash1 (hash1 << 10) in hash2 +₃₂ (hash2 >> 1)

-- The main loop takes four bytes a round; `rem` is what it leaves.
pub hsieh_loop : Bool → ℕ → List ℕ → ℕ
hsieh_loop signed hash (d0 ∷ d1 ∷ d2 ∷ d3 ∷ rest) =
    hsieh_loop signed (hsieh_round hash d0 d1 d2 d3) rest
hsieh_loop signed hash (d0 ∷ d1 ∷ d2 ∷ []) = hsieh_three signed hash d0 d1 d2
hsieh_loop signed hash (d0 ∷ d1 ∷ []) = hsieh_two hash d0 d1
hsieh_loop signed hash (d0 ∷ []) = hsieh_one signed hash d0
hsieh_loop signed hash [] = hash

-- The empty input returns before the finish.
hsieh_body : Bool → List ℕ → ℕ
hsieh_body signed [] = 0
hsieh_body signed (d ∷ rest) = hsieh_finish (hsieh_loop signed (length (d ∷ rest)) (d ∷ rest))

-- `len` is a uint16_t, so a longer buffer is hashed only in part.
unfoldable pub hsieh_hash : Bool → List ℕ → ℕ
unfolding hsieh_round hsieh_finish hsieh_three hsieh_two hsieh_one hsieh_loop hsieh_body
hsieh_hash signed bytes = hsieh_body signed (take (u16 (length bytes)) bytes)

hsieh_loop_signed :
    (hash : ℕ) (bytes : List ℕ)
    → All (λ b. b < 128) bytes
    → hsieh_loop true hash bytes ≡ hsieh_loop false hash bytes
unfolding hsieh_loop hsieh_three hsieh_one char_value
hsieh_loop_signed hash (d0 ∷ d1 ∷ d2 ∷ d3 ∷ rest) (h0, (h1, (h2, (h3, h)))) =
    hsieh_loop_signed (hsieh_round hash d0 d1 d2 d3) rest h
hsieh_loop_signed hash (d0 ∷ d1 ∷ d2 ∷ []) (h0, (h1, (h2, h))) = ground arith
hsieh_loop_signed hash (d0 ∷ d1 ∷ []) h = refl
hsieh_loop_signed hash (d0 ∷ []) (h0, h) = ground arith
hsieh_loop_signed hash [] h = refl

hsieh_body_signed :
    (bytes : List ℕ) → All (λ b. b < 128) bytes → hsieh_body true bytes ≡ hsieh_body false bytes
unfolding hsieh_body
hsieh_body_signed [] h = refl
hsieh_body_signed (d ∷ rest) h =
    ap hsieh_finish (hsieh_loop_signed (length (d ∷ rest)) (d ∷ rest) h)

-- On ASCII input, all bytes below 128, the hash is the same whether or not `char` is signed.
hsieh_hash_signed :
    (bytes : List ℕ) → All (λ b. b < 128) bytes → hsieh_hash true bytes ≡ hsieh_hash false bytes
unfolding hsieh_hash
hsieh_hash_signed bytes h = hsieh_body_signed _ (All-take _ _ bytes h)

hsieh_body-lt : (signed : Bool) (bytes : List ℕ) → hsieh_body signed bytes < 2 ^ 32
unfolding hsieh_body hsieh_finish
hsieh_body-lt signed [] = omega arith
hsieh_body-lt signed (d ∷ rest) = omega arith

pub hsieh_hash-lt : (signed : Bool) (bytes : List ℕ) → hsieh_hash signed bytes < 2 ^ 32
unfolding hsieh_hash
hsieh_hash-lt signed bytes = hsieh_body-lt signed _
