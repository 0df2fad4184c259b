-- ===== src/Sockets/Print.antt =====
-- src/socket_handler.c: print_array, which print_addrinfo calls to log the bytes of an address.
use impd4e.Common.{
  ℕ, ◌+◌, ◌*◌, ◌/◌, ◌%◌, List, [], ◌∷◌, ◌++◌, Bool, true, false, ◌&&◌, leb, ltb, if◌then◌else◌,
  length, Outcome, ok, err, overflow, ◌>>=◌, ◌≡◌, refl, inl, inr, ◌⊎◌, Bool-cases, arith,
}
use impd4e.Range.{Text}

hex_digit : ℕ → ℕ
hex_digit d = if ltb d 10 then b'0' + d else 87 + d

hex_byte : ℕ → Text
unfolding hex_digit
hex_byte b = hex_digit (b / 16 % 16) ∷ hex_digit (b % 16) ∷ []

-- sprintf with "%02x " of a char: where char is signed, one from 128 on becomes an int below zero.
unfoldable pub print_char : Bool → ℕ → Text
unfolding hex_byte
print_char char_signed b =
    let digits = hex_byte b ++ (b' ' ∷ []) in
    if char_signed && leb 128 b then b'f' ∷ b'f' ∷ b'f' ∷ b'f' ∷ b'f' ∷ b'f' ∷ digits else digits

-- A text with its terminator at a position of an array of `size` bytes.
unfoldable pub print_at : ℕ → ℕ → Text → Outcome ℕ
print_at size t text = if leb (t + length text + 1) size then ok (t + 3) else err overflow

-- The loop: the position behind it.
unfoldable pub print_bytes : Bool → ℕ → ℕ → List ℕ → Outcome ℕ
unfolding print_char print_at
print_bytes char_signed size t [] = ok t
print_bytes char_signed size t (b ∷ s) = do
  t' ← print_at size t (print_char char_signed b)
  print_bytes char_signed size t' s

-- `a[len] = '\0'` for the array `a` of `len` bytes; the result tells whether the bytes are logged.
unfoldable pub print_array : Bool → Bool → List ℕ → Outcome Bool
unfolding print_bytes
print_array char_signed is_logged s =
    let len = 3 * length s + 1 in
    let printed = (do
      t ← print_bytes char_signed len 0 s
      if ltb len len then ok true else err overflow) in
    if is_logged then printed else ok false

print_bytes-cases :
    (char_signed : Bool) (size t : ℕ) (s : List ℕ)
    → ((t' : ℕ) × (print_bytes char_signed size t s ≡ ok t'))
      ⊎ (print_bytes char_signed size t s ≡ err overflow)
unfolding print_bytes print_at
print_bytes-cases char_signed size t [] = inl (t, refl)
print_bytes-cases char_signed size t (b ∷ s) =
    elim (Bool-cases (leb (t + length (print_char char_signed b) + 1) size)) [
      | inl fits ↦ rw fits (print_bytes-cases char_signed size (t + 3) s)
      | inr full ↦ rw full (inr refl)
    ]

-- Whenever the bytes of an address are logged, at whatever length, print_array writes beyond its array.
pub print_array_overflow :
    (char_signed : Bool) (s : List ℕ) → print_array char_signed true s ≡ err overflow
unfolding print_array
print_array_overflow char_signed s =
    let len = 3 * length s + 1 in
    let never : ltb len len ≡ false = ground arith in
    elim (print_bytes-cases char_signed len 0 s) [
      | inl (t, e) ↦ rw (e, never) refl
      | inr e ↦ rw e refl
    ]
