-- ===== src/Memory/Laws.antt =====
-- When a copy succeeds, and what it leaves.
use impd4e.Common.{
  ℕ, ◌+◌, ◌≤◌, ◌<◌, List, ◌++◌, ◌≡◌, arith, length, take, drop, length-append, length-take,
  length-drop, ok, err, overread, overflow,
}
use impd4e.Memory.{Buffer, slice, append_packet}

pub slice_of_le :
    (p : List ℕ) (off count : ℕ)
    → off + count ≤ length p
    → slice p off count ≡ ok (take count (drop off p))
unfolding slice
slice_of_le p off count h = ground arith

-- A copy within the packet and the buffer.
pub append_packet_of_le :
    (b : Buffer) (p : List ℕ) (off count : ℕ)
    → off + count ≤ length p
    → length b.bytes + count ≤ b.size
    → append_packet b p off count ≡ ok (record b { bytes = b.bytes ++ take count (drop off p) })
unfolding append_packet
append_packet_of_le b p off count h k = ground arith

pub append_packet_overread :
    (b : Buffer) (p : List ℕ) (off count : ℕ)
    → length p < off + count
    → append_packet b p off count ≡ err overread
unfolding append_packet
append_packet_overread b p off count h = ground arith

pub append_packet_overflow :
    (b : Buffer) (p : List ℕ) (off count : ℕ)
    → off + count ≤ length p
    → b.size < length b.bytes + count
    → append_packet b p off count ≡ err overflow
unfolding append_packet
append_packet_overflow b p off count h k = ground arith

-- A successful copy: the buffer grows by `count` bytes and is not overrun.
pub append_packet-length :
    (b : Buffer) (p : List ℕ) (off count : ℕ) {b' : Buffer}
    → append_packet b p off count ≡ ok b'
    → (length b'.bytes ≡ length b.bytes + count) × (b'.size ≡ b.size) × (length b'.bytes ≤ b.size)
unfolding append_packet
append_packet-length b p off count e = ground (
  arith,
  length-append b.bytes (take count (drop off p)),
  length-take count (drop off p),
  length-drop off p,
)
