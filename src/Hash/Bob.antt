-- ===== src/Hash/Bob.antt =====
-- src/bobhash.c: bobhash and BOB_Hash, as calcHashValue_BOB of src/hash.c calls them.
pub mod Mix
use impd4e.Common.{
  ℕ, suc, ◌+◌, ◌*◌, ◌^◌, ◌≤◌, ◌<◌, List, [], ◌∷◌, ◌≡◌, refl, ◌∙◌, ap, sym, arith, none, some, u16,
  u32, ◌+₃₂◌, ◌<<◌, length, take, get_elem?,
}
use Mix.{State, IsWords, mix, unmix, mix-IsWords, mix_reversible}

-- `x += ((ub4)k[i] << shift)`, a case of the switch, which falls through: it is executed exactly
-- when the key has a byte `i`.
add_byte : List ℕ → ℕ → ℕ → ℕ → ℕ
add_byte tail i shift x = elim (get_elem? tail i) [ none ↦ x | some k ↦ x +₃₂ (k << shift) ]

-- A run of such cases, from the top.
add_bytes : List ℕ → List (ℕ × ℕ) → ℕ → ℕ
add_bytes tail [] x = x
add_bytes tail ((i, shift) ∷ cases) x = add_bytes tail cases (add_byte tail i shift x)

-- "handle the last 11 bytes": the first byte of c is reserved for the length.
bob_tail : ℕ → List ℕ → State → State
bob_tail length tail s = record {
  c = add_bytes tail ((10, 24) ∷ (9, 16) ∷ (8, 8) ∷ []) (s.c +₃₂ length);
  b = add_bytes tail ((7, 24) ∷ (6, 16) ∷ (5, 8) ∷ (4, 0) ∷ []) s.b;
  a = add_bytes tail ((3, 24) ∷ (2, 16) ∷ (1, 8) ∷ (0, 0) ∷ []) s.a;
}

bob_word : ℕ → ℕ → ℕ → ℕ → ℕ
bob_word k0 k1 k2 k3 = k0 +₃₂ (k1 << 8) +₃₂ (k2 << 16) +₃₂ (k3 << 24)

-- One block of the `while (len >= 12)` loop, before it is mixed.
bob_block : ℕ → ℕ → ℕ → State → State
bob_block wa wb wc s = record { a = s.a +₃₂ wa; b = s.b +₃₂ wb; c = s.c +₃₂ wc }

-- The loop, and behind it the last bytes; `length` is that of the whole key.
pub bob_state : ℕ → List ℕ → State → State
bob_state length (k0 ∷ k1 ∷ k2 ∷ k3 ∷ k4 ∷ k5 ∷ k6 ∷ k7 ∷ k8 ∷ k9 ∷ k10 ∷ k11 ∷ rest) s =
    bob_state length rest
      (mix (bob_block (bob_word k0 k1 k2 k3) (bob_word k4 k5 k6 k7) (bob_word k8 k9 k10 k11) s))
bob_state length tail s = mix (bob_tail length tail s)

golden_ratio : ℕ
golden_ratio = 0x9e37_79b9

unfoldable pub bobhash : List ℕ → ℕ → ℕ
unfolding add_byte add_bytes bob_tail bob_word bob_block bob_state golden_ratio mix
bobhash key initval =
    (bob_state (length key) key (record { a = golden_ratio; b = golden_ratio; c = initval })).c

-- The length parameter of BOB_Hash is a uint16_t.
unfoldable pub bob_hash : List ℕ → ℕ → ℕ
unfolding bobhash
bob_hash bytes initval = bobhash (take (u16 (length bytes)) bytes) initval

add_byte-lt : (tail : List ℕ) (i shift x : ℕ) → x < 2 ^ 32 → add_byte tail i shift x < 2 ^ 32
unfolding add_byte
add_byte-lt tail i shift x h = ground arith

add_bytes-lt :
    (tail : List ℕ) (cases : List (ℕ × ℕ)) (x : ℕ) → x < 2 ^ 32 → add_bytes tail cases x < 2 ^ 32
unfolding add_bytes
add_bytes-lt tail [] x h = h
add_bytes-lt tail ((i, shift) ∷ cases) x h =
    add_bytes-lt tail cases _ (add_byte-lt tail i shift x h)

add_byte-injective :
    (tail : List ℕ) (i shift x y : ℕ)
    → x < 2 ^ 32
    → y < 2 ^ 32
    → add_byte tail i shift x ≡ add_byte tail i shift y
    → x ≡ y
unfolding add_byte
add_byte-injective tail i shift x y hx hy e = ground arith

add_bytes-injective :
    (tail : List ℕ) (cases : List (ℕ × ℕ)) (x y : ℕ)
    → x < 2 ^ 32
    → y < 2 ^ 32
    → add_bytes tail cases x ≡ add_bytes tail cases y
    → x ≡ y
unfolding add_bytes
add_bytes-injective tail [] x y hx hy e = e
add_bytes-injective tail ((i, shift) ∷ cases) x y hx hy e =
    add_byte-injective tail i shift x y hx hy (
      add_bytes-injective tail cases _ _ (add_byte-lt tail i shift x hx)
        (add_byte-lt tail i shift y hy) e)

bob_tail-IsWords : (n : ℕ) (tail : List ℕ) (s : State) → IsWords s → IsWords (bob_tail n tail s)
unfolding bob_tail
bob_tail-IsWords n tail s (ha, hb, hc) =
    (add_bytes-lt tail _ s.a ha, add_bytes-lt tail _ s.b hb, add_bytes-lt tail _ _ (omega arith))

bob_tail-injective :
    (n : ℕ) (tail : List ℕ) (s t : State)
    → IsWords s
    → IsWords t
    → bob_tail n tail s ≡ bob_tail n tail t
    → s ≡ t
unfolding bob_tail
bob_tail-injective n tail s t (ha, hb, hc) (ka, kb, kc) e =
    let ea : s.a ≡ t.a = add_bytes-injective tail _ s.a t.a ha ka (ap (λ (u : State). u.a) e) in
    let eb : s.b ≡ t.b = add_bytes-injective tail _ s.b t.b hb kb (ap (λ (u : State). u.b) e) in
    let ec : s.c +₃₂ n ≡ t.c +₃₂ n =
      add_bytes-injective tail _ _ _ (omega arith) (omega arith) (ap (λ (u : State). u.c) e) in
    ground arith

bob_block-injective :
    (wa wb wc : ℕ) (s t : State)
    → IsWords s
    → IsWords t
    → bob_block wa wb wc s ≡ bob_block wa wb wc t
    → s ≡ t
unfolding bob_block
bob_block-injective wa wb wc s t hs ht e =
    let ea : s.a +₃₂ wa ≡ t.a +₃₂ wa = ap (λ (u : State). u.a) e in
    let eb : s.b +₃₂ wb ≡ t.b +₃₂ wb = ap (λ (u : State). u.b) e in
    let ec : s.c +₃₂ wc ≡ t.c +₃₂ wc = ap (λ (u : State). u.c) e in ground arith

bob_block-IsWords : (wa wb wc : ℕ) (s : State) → IsWords (bob_block wa wb wc s)
unfolding bob_block
bob_block-IsWords wa wb wc s = omega arith

mix-injective : (s t : State) → IsWords s → IsWords t → mix s ≡ mix t → s ≡ t
mix-injective s t hs ht e = cc ((mix_reversible s hs).0, (mix_reversible t ht).0, ap unmix e)

bob_state-IsWords : (n : ℕ) (key : List ℕ) (s : State) → IsWords s → IsWords (bob_state n key s)
unfolding bob_state
bob_state-IsWords n (k0 ∷ k1 ∷ k2 ∷ k3 ∷ k4 ∷ k5 ∷ k6 ∷ k7 ∷ k8 ∷ k9 ∷ k10 ∷ k11 ∷ rest) s h =
    bob_state-IsWords n rest _ (mix-IsWords _ (bob_block-IsWords _ _ _ s))
bob_state-IsWords n tail s h = mix-IsWords _ (bob_tail-IsWords n tail s h)

-- For every key, different states of three words at the start end in different states: what a previous hash
-- brings in as `initval` is never lost on the way.
pub bob_state-injective :
    (n : ℕ) (key : List ℕ) (s t : State)
    → IsWords s
    → IsWords t
    → bob_state n key s ≡ bob_state n key t
    → s ≡ t
unfolding bob_state
bob_state-injective n (k0 ∷ k1 ∷ k2 ∷ k3 ∷ k4 ∷ k5 ∷ k6 ∷ k7 ∷ k8 ∷ k9 ∷ k10 ∷ k11 ∷ rest) s t hs ht
      e =
    bob_block-injective _ _ _ s t hs ht (
      mix-injective _ _ (bob_block-IsWords _ _ _ s) (bob_block-IsWords _ _ _ t) (
        bob_state-injective n rest _ _ (mix-IsWords _ (bob_block-IsWords _ _ _ s))
          (mix-IsWords _ (bob_block-IsWords _ _ _ t)) e))
bob_state-injective n tail s t hs ht e =
    bob_tail-injective n tail s t hs ht
      (mix-injective _ _ (bob_tail-IsWords n tail s hs) (bob_tail-IsWords n tail t ht) e)

pub bob_hash-lt :
    (bytes : List ℕ) (initval : ℕ) → initval < 2 ^ 32 → bob_hash bytes initval < 2 ^ 32
unfolding bob_hash bobhash golden_ratio
bob_hash-lt bytes initval h =
    (bob_state-IsWords _ (take (u16 (length bytes)) bytes) _ (omega arith, omega arith, h)).2
