-- ===== src/Common/Words.antt =====
-- C's fixed-width unsigned integers: casts, wrapping arithmetic and shifts.
use Prim.Native.Nat.{ℕ, ◌+◌, ◌-◌, ◌*◌, ◌/◌, ◌%◌, ◌^◌}

abbrev pub u16_mod : ℕ
u16_mod = 2 ^ 16

abbrev pub u32_mod : ℕ
u32_mod = 2 ^ 32

abbrev pub u64_mod : ℕ
u64_mod = 2 ^ 64

abbrev pub u16 : ℕ → ℕ
u16 n = n % u16_mod

abbrev pub u32 : ℕ → ℕ
u32 n = n % u32_mod

abbrev pub u64 : ℕ → ℕ
u64 n = n % u64_mod

-- `a + b`, `a - b`, `a << k` and `a >> k` on uint32_t.
infixl 65 ◌+₃₂◌ ◌-₃₂◌
infixl 75 ◌<<◌ ◌>>◌
abbrev pub ◌+₃₂◌ : ℕ → ℕ → ℕ
a +₃₂ b = (a + b) % u32_mod

abbrev pub ◌-₃₂◌ : ℕ → ℕ → ℕ
a -₃₂ b = (a + u32_mod - b) % u32_mod

abbrev pub ◌<<◌ : ℕ → ℕ → ℕ
a << k = a * 2 ^ k % u32_mod

abbrev pub ◌>>◌ : ℕ → ℕ → ℕ
a >> k = a / 2 ^ k
