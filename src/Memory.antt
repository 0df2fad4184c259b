-- ===== src/Memory.antt =====
-- What the packet path works on: packet_t and buffer_t of include/constants.h, the per-layer
-- arrays that findHeaders fills, and append_packet of src/hash.c.
--
-- A packet's `ptr` is the memory from that pointer to the end of the captured bytes, so a read
-- beyond it is a fault; `len` is the field, which the code keeps beside it. A buffer is the `len`
-- bytes at `ptr`, with the size of its allocation.
pub mod Laws
use impd4e.Common.{
  ℕ, ◌+◌, ◌-◌, ◌^◌, ◌≤◌, ◌<◌, List, [], ◌∷◌, ◌++◌, ◌≡◌, arith, length, take, drop, get_elem?, leb,
  if◌then◌else◌, Outcome, ok, err, overread, overflow, or_overread, ◌>>=◌,
}

pub record Packet : Type 0 where
  pub ptr : List ℕ
  pub len : ℕ

pub record Buffer : Type 0 where
  pub bytes : List ℕ
  pub size : ℕ

-- `uint32_t headerOffset[4]`, and -1 in such an entry.
pub record Offsets : Type 0 where
  pub link : ℕ
  pub net : ℕ
  pub trans : ℕ
  pub payload : ℕ

abbrev pub no_header : ℕ
no_header = 2 ^ 32 - 1

-- `uint8_t layers[4]`, and the values of netProt_t and transProt_t that the code tests for.
pub record Layers : Type 0 where
  pub link : ℕ
  pub net : ℕ
  pub trans : ℕ
  pub payload : ℕ

abbrev pub n_unknown : ℕ
n_unknown = 0

abbrev pub n_ip : ℕ
n_ip = 4

abbrev pub n_ip6 : ℕ
n_ip6 = 6

abbrev pub t_unknown : ℕ
t_unknown = 0

abbrev pub t_icmp : ℕ
t_icmp = 1

abbrev pub t_tcp : ℕ
t_tcp = 6

abbrev pub t_udp : ℕ
t_udp = 17

abbrev pub t_icmp6 : ℕ
t_icmp6 = 58

abbrev pub t_sctp : ℕ
t_sctp = 132

-- `p[i]`.
abbrev pub read : List ℕ → ℕ → Outcome ℕ
read p i = or_overread (get_elem? p i)

-- The `count` bytes from `p + off` on.
unfoldable pub slice : List ℕ → ℕ → ℕ → Outcome (List ℕ)
slice p off count =
    if leb (off + count) (length p) then ok (take count (drop off p)) else err overread

-- memcpy behind what the buffer holds, and `len += count`.
unfoldable pub append_packet : Buffer → List ℕ → ℕ → ℕ → Outcome Buffer
unfolding slice
append_packet b p off count = do
  piece ← slice p off count
  if leb (length b.bytes + count) b.size
      then ok (record b { bytes = b.bytes ++ piece })
      else err overflow
