-- ===== src/Packet/Decode.antt =====
-- The decode_* functions of src/packet_handler.c: they read from the front of a packet and move it
-- on. The length wraps as a uint32_t where the packet is too short, which nothing checks.
use impd4e.Common.{
  ℕ, suc, ◌+◌, ◌*◌, ◌/◌, ◌%◌, ◌^◌, ◌<◌, List, [], ◌∷◌, ◌++◌, ◌≡◌, refl, arith, length, drop, ◌-₃₂◌,
  Outcome, ok, ◌>>=◌,
}
use impd4e.Memory.{Packet, read}

-- `ptr += n` after the bytes were read, `len -= n`.
abbrev move_on : Packet → ℕ → Packet
move_on p n = record { ptr = drop n p.ptr; len = p.len -₃₂ n }

pub decode_uint8 : Packet → Outcome (ℕ × Packet)
decode_uint8 p = do b ← read p.ptr 0; ok (b, move_on p 1)

pub decode_uint16 : Packet → Outcome (ℕ × Packet)
decode_uint16 p = do b0 ← read p.ptr 0; b1 ← read p.ptr 1; ok (b0 * 2 ^ 8 + b1, move_on p 2)

pub decode_uint32 : Packet → Outcome (ℕ × Packet)
decode_uint32 p = do
  b0 ← read p.ptr 0
  b1 ← read p.ptr 1
  b2 ← read p.ptr 2
  b3 ← read p.ptr 3
  ok (b0 * 2 ^ 24 + b1 * 2 ^ 16 + b2 * 2 ^ 8 + b3, move_on p 4)

-- The next `len` bytes as a packet of their own.
pub decode_raw : Packet → ℕ → Packet × Packet
decode_raw p len = (record { ptr = p.ptr; len = len }, move_on p len)

-- [length][data], with a length of two bytes.
pub decode_array : Packet → Outcome (Packet × Packet)
decode_array p = do
  b0 ← read p.ptr 0
  b1 ← read p.ptr 1
  let len = b0 * 2 ^ 8 + b1
  ok (record { ptr = drop 2 p.ptr; len = len }, move_on p (len + 2))

-- The format that decode_array reads.
pub encode_array : List ℕ → List ℕ → List ℕ
encode_array bytes rest = length bytes / 2 ^ 8 ∷ length bytes % 2 ^ 8 ∷ (bytes ++ rest)

drop-append : (xs ys : List ℕ) → drop (length xs) (xs ++ ys) ≡ ys
drop-append [] ys = refl
drop-append (x ∷ xs) ys = drop-append xs ys

-- decode_array gives back what was encoded, with a length below 2 ^ 16 in a packet whose length is
-- below 2 ^ 32, and leaves what stood behind it.
pub decode_array-encode_array :
    (bytes rest : List ℕ)
    → length bytes < 2 ^ 16
    → length bytes + 2 + length rest < 2 ^ 32
    → decode_array (record { ptr = encode_array bytes rest; len = length bytes + 2 + length rest })
      ≡ ok (
        record { ptr = bytes ++ rest; len = length bytes },
        record { ptr = rest; len = length rest },
      )
unfolding decode_array encode_array
decode_array-encode_array bytes rest small fits =
    let len : length bytes / 2 ^ 8 * 2 ^ 8 + length bytes % 2 ^ 8 ≡ length bytes = omega arith in
    let left : (length bytes + 2 + length rest) -₃₂ (length bytes + 2) ≡ length rest =
      omega arith in
    let two : length bytes + 2 ≡ suc (suc (length bytes)) = omega arith in
    rw len (rw left (rw two (rw (drop-append bytes rest))))
