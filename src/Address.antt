-- ===== src/Address.antt =====
-- src/helper.c: IPv4 addresses as text, by ntoa and htoa, which print the four bytes of the address,
-- and by _intoa, which writes its digits from the end of a buffer.
--
-- The bytes are those that stand in memory; htonl puts the most significant one first.
use impd4e.Common.{
  ℕ, zero, suc, ◌+◌, ◌/◌, ◌%◌, ◌^◌, ◌≤◌, ◌<◌, [], ◌∷◌, ◌≡◌, sym, ltb, if◌then◌else◌, arith, length,
  drop,
}
use impd4e.Range.{Text}
use impd4e.Range.Decimal.{digits_onto, decimal}

-- sprintf with "%d.%d.%d.%d", in front of `rest`.
abbrev dotted : ℕ → ℕ → ℕ → ℕ → Text → Text
dotted p0 p1 p2 p3 rest =
    decimal p0 (b'.' ∷ decimal p1 (b'.' ∷ decimal p2 (b'.' ∷ decimal p3 rest)))

-- `p0` to `p3` are the bytes of the address as it stands in memory.
unfoldable pub ntoa : ℕ → ℕ → ℕ → ℕ → Text
unfolding decimal
ntoa p0 p1 p2 p3 = dotted p0 p1 p2 p3 []

unfoldable pub htoa : ℕ → Text
unfolding ntoa
htoa ipaddr =
    ntoa (ipaddr / 2 ^ 24 % 256) (ipaddr / 2 ^ 16 % 256) (ipaddr / 2 ^ 8 % 256) (ipaddr % 256)

-- The digits of one byte in _intoa, in front of what is written already.
pub intoa_byte : ℕ → Text → Text
intoa_byte byte buf =
    let ones = (byte % 10 + b'0') ∷ buf in
    let tens = (byte / 10 % 10 + b'0') ∷ ones in
    if ltb 0 (byte / 10)
    then (if ltb 0 (byte / 10 / 10) then (byte / 10 / 10 + b'0') ∷ tens else tens)
    else ones

-- The loop over the bytes, the last one first; each has a dot in front of it.
pub intoa_loop : ℕ → ℕ → Text → Text
intoa_loop zero addr buf = buf
intoa_loop (suc n) addr buf = intoa_loop n (addr / 2 ^ 8) (b'.' ∷ intoa_byte (addr % 256) buf)

-- The text begins behind the dot of the first byte.
unfoldable pub intoa : ℕ → Text
unfolding intoa_byte intoa_loop
intoa addr = drop 1 (intoa_loop 4 addr [])

digits_onto-intoa_byte :
    (fuel n : ℕ) (rest : Text) → n < 256 → n < fuel → digits_onto fuel n rest ≡ intoa_byte n rest
unfolding digits_onto intoa_byte
digits_onto-intoa_byte zero n rest h k = absurd (omega arith)
digits_onto-intoa_byte (suc zero) n rest h k = ground arith
digits_onto-intoa_byte (suc (suc zero)) n rest h k = ground arith
digits_onto-intoa_byte (suc (suc (suc fuel))) n rest h k = ground arith

decimal-intoa_byte : (n : ℕ) (rest : Text) → n < 256 → decimal n rest ≡ intoa_byte n rest
unfolding decimal
decimal-intoa_byte n rest h = digits_onto-intoa_byte (n + 1) n rest h (omega arith)

-- The fast conversion of an IPv4 address to text writes what the plain one prints, for every
-- uint32_t.
pub intoa-htoa : (addr : ℕ) → addr < 2 ^ 32 → intoa addr ≡ htoa addr
unfolding intoa htoa ntoa intoa_loop
intoa-htoa addr h =
    let e1 : addr / 256 / 256 / 256 % 256 ≡ addr / 2 ^ 24 % 256 = omega arith in
    let e2 : addr / 256 / 256 % 256 ≡ addr / 2 ^ 16 % 256 = omega arith in
    rw e1 (
      rw e2 (
        four (addr / 2 ^ 24 % 256) (addr / 2 ^ 16 % 256) (addr / 2 ^ 8 % 256) (addr % 256)
          (omega arith) (omega arith) (omega arith) (omega arith)))
  where
    four :
        (p0 p1 p2 p3 : ℕ)
        → p0 < 256
        → p1 < 256
        → p2 < 256
        → p3 < 256
        → intoa_byte p0 (b'.' ∷ intoa_byte p1 (b'.' ∷ intoa_byte p2 (b'.' ∷ intoa_byte p3 [])))
          ≡ dotted p0 p1 p2 p3 []
    four p0 p1 p2 p3 h0 h1 h2 h3 = rw (decimal-intoa_byte p3 [] h3) (
        rw (decimal-intoa_byte p2 (b'.' ∷ intoa_byte p3 []) h2) (
          rw (decimal-intoa_byte p1 (b'.' ∷ intoa_byte p2 (b'.' ∷ intoa_byte p3 [])) h1) (
            sym (
              decimal-intoa_byte p0
                (b'.' ∷ intoa_byte p1 (b'.' ∷ intoa_byte p2 (b'.' ∷ intoa_byte p3 []))) h0))))

byte_length : (n : ℕ) (rest : Text) → length (intoa_byte n rest) ≤ length rest + 3
unfolding intoa_byte
byte_length n rest = ground arith

-- The text of an IPv4 address of four bytes, with its terminator, fits the 16 bytes of the static buffer
-- that ntoa and htoa print it to.
length-ntoa :
    (p0 p1 p2 p3 : ℕ)
    → p0 < 256
    → p1 < 256
    → p2 < 256
    → p3 < 256
    → length (ntoa p0 p1 p2 p3) + 1 ≤ 16
unfolding ntoa
length-ntoa p0 p1 p2 p3 h0 h1 h2 h3 = rw (decimal-intoa_byte p3 [] h3) (
    rw (decimal-intoa_byte p2 (b'.' ∷ intoa_byte p3 []) h2) (
      rw (decimal-intoa_byte p1 (b'.' ∷ intoa_byte p2 (b'.' ∷ intoa_byte p3 [])) h1) (
        rw
          (decimal-intoa_byte p0
            (b'.' ∷ intoa_byte p1 (b'.' ∷ intoa_byte p2 (b'.' ∷ intoa_byte p3 []))) h0)
          (omega (
            arith,
            byte_length p3 [],
            byte_length p2 (b'.' ∷ intoa_byte p3 []),
            byte_length p1 (b'.' ∷ intoa_byte p2 (b'.' ∷ intoa_byte p3 [])),
            byte_length p0 (b'.' ∷ intoa_byte p1 (b'.' ∷ intoa_byte p2 (b'.' ∷ intoa_byte p3 []))),
          )))))
