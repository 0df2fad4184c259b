-- ===== src/Packet.antt =====
-- src/packet_handler.c: what is read from a packet, and the handling of one captured packet, which
-- the children Fields and Handler take up.
--
-- Two bytes are read through a uint16_t pointer and turned by ntohs: the first byte is the high one.
pub mod Decode
pub mod Fields
pub mod Handler
use impd4e.Common.{
  ℕ, ◌+◌, ◌-◌, ◌*◌, List, [], ◌∷◌, ◌||◌, ltb, leb, ◌==◌, if◌then◌else◌, u64, drop, bit_and, Outcome,
  ok, ◌>>=◌,
}
use impd4e.Memory.{Packet, n_ip, n_ip6, t_udp, t_tcp, t_sctp, read, slice}
use impd4e.Device.{LinkType, dlt_en10mb, dlt_atm_rfc1483, dlt_linux_sll, dlt_raw, other_link}

-- ntohs of the two bytes at `p + i`.
unfoldable pub read_u16 : List ℕ → ℕ → Outcome ℕ
read_u16 p i = do high ← read p i; low ← read p (i + 1); ok (high * 256 + low)

unfoldable pub get_ttl : Packet → ℕ → ℕ → Outcome ℕ
get_ttl p offset nettype =
    if nettype == n_ip
    then read p.ptr (offset + 8)
    else if nettype == n_ip6
    then read p.ptr (offset + 7)
    else ok 0

unfoldable pub get_ip_length : Packet → ℕ → ℕ → Outcome ℕ
unfolding read_u16
get_ip_length p offset nettype =
    if nettype == n_ip
    then read_u16 p.ptr (offset + 2)
    else if nettype == n_ip6
    then read_u16 p.ptr (offset + 4)
    else ok 0

-- The four bytes behind the pointer that get_ipa returns: in the packet, or the zero `unknown_ipa`.
unfoldable pub get_ipa : Packet → ℕ → ℕ → Outcome (List ℕ)
get_ipa p offset nettype =
    if nettype == n_ip then slice p.ptr (offset + 12) 4 else ok (0 ∷ 0 ∷ 0 ∷ 0 ∷ [])

unfoldable pub get_port : Packet → ℕ → ℕ → Outcome ℕ
unfolding read_u16
get_port p offset transtype =
    if transtype == t_udp || transtype == t_tcp || transtype == t_sctp
    then read_u16 p.ptr offset
    else ok 0

-- The packet protocol beyond the link layer, 0 if unknown; the packet begins with the link layer.
unfoldable pub get_nettype : Packet → LinkType → Outcome ℕ
unfolding read_u16
get_nettype p dlt_en10mb = read_u16 p.ptr 12
get_nettype p dlt_atm_rfc1483 = read_u16 p.ptr 6
get_nettype p dlt_linux_sll = read_u16 p.ptr 14
get_nettype p dlt_raw = ok 0
get_nettype p other_link = ok 0

abbrev pub ethertype_ip4 : ℕ
ethertype_ip4 = 0x0800

abbrev pub ethertype_ip6 : ℕ
ethertype_ip6 = 0x86DD

-- The same from the version field of a packet with no link layer, of at least 20 bytes.
unfoldable pub get_nettype_pkt : Packet → Outcome ℕ
get_nettype_pkt p =
    if leb 20 p.len
    then (do
      first ← read p.ptr 0
      ok (
          if bit_and first 0xf0 == 0x40
          then ethertype_ip4
          else if bit_and first 0xf0 == 0x60
          then ethertype_ip6
          else 0))
    else ok 0

-- struct timeval, and get_timestamp: microseconds as a uint64_t.
pub record Timeval : Type 0 where
  pub tv_sec : ℕ
  pub tv_usec : ℕ

unfoldable pub get_timestamp : Timeval → ℕ
get_timestamp ts = u64 (u64 (ts.tv_sec * 1_000_000) + ts.tv_usec)

-- An offset that is not inside the packet makes the packet empty, and leaves the pointer.
unfoldable pub apply_offset : Packet → ℕ → Packet
apply_offset p offset =
    if ltb offset p.len
    then record { ptr = drop offset p.ptr; len = p.len - offset }
    else record p { len = 0 }
