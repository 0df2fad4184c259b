-- ===== src/Hash/Bob/Mix.antt =====
-- The macro mix(a,b,c), "mix 3 32-bit values reversibly": an inverse, on both sides.
use impd4e.Common.{
  ℕ, ◌^◌, ◌<◌, ◌≡◌, ◌∙◌, ap, arith, bit_xor, ◌+₃₂◌, ◌-₃₂◌, ◌<<◌, ◌>>◌, bit_xor-lt, bit_xor-cancel,
}

-- The internal state.
pub record State : Type 0 where
  pub a : ℕ
  pub b : ℕ
  pub c : ℕ

abbrev pub IsWords : State → Type 0
IsWords s = (s.a < 2 ^ 32) × (s.b < 2 ^ 32) × (s.c < 2 ^ 32)

-- `x -= y; x -= z; x ^= w;`
line : ℕ → ℕ → ℕ → ℕ → ℕ
line x y z w = bit_xor (x -₃₂ y -₃₂ z) w

-- One row of the macro, at its three shift distances.
row : ℕ → ℕ → ℕ → State → State
row r1 l r2 s =
    let a = line s.a s.b s.c (s.c >> r1) in
    let b = line s.b s.c a (a << l) in
    let c = line s.c a b (b >> r2) in record { a = a; b = b; c = c }

unfoldable pub mix : State → State
unfolding row line
mix s = row 3 10 15 (row 12 16 5 (row 13 8 13 s))

unline : ℕ → ℕ → ℕ → ℕ → ℕ
unline x y z w = bit_xor x w +₃₂ z +₃₂ y

unrow : ℕ → ℕ → ℕ → State → State
unrow r1 l r2 s =
    let c = unline s.c s.a s.b (s.b >> r2) in
    let b = unline s.b c s.a (s.a << l) in
    let a = unline s.a b c (c >> r1) in record { a = a; b = b; c = c }

-- `mix` run backwards.
pub unmix : State → State
unmix s = unrow 13 8 13 (unrow 12 16 5 (unrow 3 10 15 s))

line-lt : (x y z w : ℕ) → w < 2 ^ 32 → line x y z w < 2 ^ 32
unfolding line
line-lt x y z w h = bit_xor-lt 32 _ _ (omega arith) h

unline-line : (x y z w : ℕ) → x < 2 ^ 32 → y < 2 ^ 32 → z < 2 ^ 32 → unline (line x y z w) y z w ≡ x
unfolding line unline
unline-line x y z w hx hy hz = rw (bit_xor-cancel (x -₃₂ y -₃₂ z) w) (omega arith)

line-unline :
    (x y z w : ℕ)
    → x < 2 ^ 32
    → y < 2 ^ 32
    → z < 2 ^ 32
    → w < 2 ^ 32
    → line (unline x y z w) y z w ≡ x
unfolding line unline
line-unline x y z w hx hy hz hw =
    let h : bit_xor x w < 2 ^ 32 = bit_xor-lt 32 x w hx hw in
    let e : (bit_xor x w +₃₂ z +₃₂ y) -₃₂ y -₃₂ z ≡ bit_xor x w = omega arith in
    rw e (bit_xor-cancel x w)

shr-lt : (x k n : ℕ) → x < n → x >> k < n
shr-lt x k n h = grind arith

row-IsWords : (r1 l r2 : ℕ) (s : State) → IsWords s → IsWords (row r1 l r2 s)
unfolding row
row-IsWords r1 l r2 s (ha, hb, hc) =
    let shift : (x k : ℕ) → x < 2 ^ 32 → x >> k < 2 ^ 32 = λ x k h. shr-lt x k (2 ^ 32) h in
    let a = line-lt s.a s.b s.c (s.c >> r1) (shift s.c r1 hc) in
    let b =
      line-lt s.b s.c (line s.a s.b s.c (s.c >> r1)) (line s.a s.b s.c (s.c >> r1) << l)
        (omega arith) in
    (a, b, line-lt _ _ _ _ (shift _ r2 b))

unrow-row : (r1 l r2 : ℕ) (s : State) → IsWords s → unrow r1 l r2 (row r1 l r2 s) ≡ s
unfolding row unrow
unrow-row r1 l r2 s (ha, hb, hc) =
    let a = line s.a s.b s.c (s.c >> r1) in
    let b = line s.b s.c a (a << l) in
    let (wa, wb, wc) = row-IsWords r1 l r2 s (ha, hb, hc) in
    cc (
      unline-line s.c a b (b >> r2) hc wa wb,
      unline-line s.b s.c a (a << l) hb hc wa,
      unline-line s.a s.b s.c (s.c >> r1) ha hb hc,
    )

unline-lt : (x y z w : ℕ) → unline x y z w < 2 ^ 32
unfolding unline
unline-lt x y z w = omega arith

unrow-IsWords : (r1 l r2 : ℕ) (s : State) → IsWords (unrow r1 l r2 s)
unfolding unrow
unrow-IsWords r1 l r2 s = (unline-lt _ _ _ _, unline-lt _ _ _ _, unline-lt _ _ _ _)

row-unrow : (r1 l r2 : ℕ) (s : State) → IsWords s → row r1 l r2 (unrow r1 l r2 s) ≡ s
unfolding row unrow
row-unrow r1 l r2 s (ha, hb, hc) =
    let c = unline s.c s.a s.b (s.b >> r2) in
    let b = unline s.b c s.a (s.a << l) in
    let (wa, wb, wc) = unrow-IsWords r1 l r2 s in
    cc (
      line-unline s.a b c (c >> r1) ha wb wc (shr-lt c r1 (2 ^ 32) wc),
      line-unline s.b c s.a (s.a << l) hb wc ha (omega arith),
      line-unline s.c s.a s.b (s.b >> r2) hc ha hb (shr-lt s.b r2 (2 ^ 32) hb),
    )

pub mix-IsWords : (s : State) → IsWords s → IsWords (mix s)
unfolding mix
mix-IsWords s h = row-IsWords 3 10 15 _ (row-IsWords 12 16 5 _ (row-IsWords 13 8 13 s h))

-- On three uint32_t words mix loses nothing: unmix gives them back, and mix gives back what unmix
-- was given, whose results are such words.
pub mix_reversible :
    (s : State) → IsWords s → (unmix (mix s) ≡ s) × (mix (unmix s) ≡ s) × IsWords (unmix s)
unfolding mix unmix
mix_reversible s h =
    let h1 = row-IsWords 13 8 13 s h in
    let h2 = row-IsWords 12 16 5 _ h1 in
    let k1 = unrow-IsWords 3 10 15 s in
    let k2 = unrow-IsWords 12 16 5 (unrow 3 10 15 s) in
    (
      ap (λ t. unrow 13 8 13 (unrow 12 16 5 t)) (unrow-row 3 10 15 _ h2)
          ∙ ap (unrow 13 8 13) (unrow-row 12 16 5 _ h1)
          ∙ unrow-row 13 8 13 s h,
      ap (λ t. row 3 10 15 (row 12 16 5 t)) (row-unrow 13 8 13 _ k2)
          ∙ ap (row 3 10 15) (row-unrow 12 16 5 _ k1)
          ∙ row-unrow 3 10 15 s h,
      unrow-IsWords 13 8 13 _,
    )
