-- ===== src/Headers.antt =====
-- src/hash.c: findHeaders, which locates the transport header and the payload of an IP packet.
-- An `int` offset is a natural number here: handle_ip_packet passes 0 for the network layer.
pub mod Bounds
pub mod Ends
pub mod Faults
use impd4e.Common.{
  ℕ, zero, suc, ◌+◌, ◌*◌, ◌/◌, List, Bool, true, false, ◌||◌, ltb, leb, ◌==◌, if◌then◌else◌,
  bit_and, length, Outcome, ok, err, no_fuel, ◌>>=◌,
}
use impd4e.Memory.{
  Offsets, no_header, Layers, n_unknown, n_ip, n_ip6, t_icmp, t_tcp, t_udp, t_icmp6, read,
}

-- IPv6 extension headers that are skipped: IP6HDR_HOP, ROUTE, FRAG, AH and DEST.
abbrev pub ip6hdr_ah : ℕ
ip6hdr_ah = 51

unfoldable pub is_option : ℕ → Bool
is_option proto = proto == 0 || proto == 43 || proto == 44 || proto == ip6hdr_ah || proto == 60

-- The `while` loop: the offset behind the options, and the protocol read there.
pub skip_options : ℕ → List ℕ → ℕ → ℕ → ℕ → Outcome (ℕ × ℕ)
skip_options zero p net offs proto = err no_fuel
skip_options (suc fuel) p net offs proto = elim (is_option proto) [
  | false ↦ ok (offs, proto)
  | true ↦ do
    size ← read p (net + offs + 1)
    let offs' = offs + (if proto == ip6hdr_ah then size * 4 + 8 else size * 8 + 8)
    proto' ← read p (net + offs')
    skip_options fuel p net offs' proto'
]

-- `switch (proto)`: where the payload would start. The default case returns with the entry at -1,
-- which no packet length (a uint16_t) exceeds.
unfoldable pub payload_offset : List ℕ → ℕ → ℕ → ℕ → Outcome ℕ
payload_offset p packet_length offs proto =
    if proto == t_icmp
    then ok (offs + 4)
    else if proto == t_icmp6
    then ok (offs + 4)
    else if proto == t_udp
    then ok (offs + 8)
    else if proto == t_tcp
    then (if leb (offs + 12) packet_length
        then (do words ← read p (offs + 12); ok (offs + bit_and words 0xF0 / 4))
        else ok offs)
    else ok no_header

abbrev pub Found : Type 0
Found = Offsets × Layers

-- From `if (offs<packetLength)` to the end.
unfoldable pub find_transport : List ℕ → ℕ → ℕ → ℕ → Offsets → Layers → Outcome Found
find_transport p packet_length offs proto o l =
    if ltb offs packet_length
    then (do
      payload ← payload_offset p packet_length offs proto
      ok (
        record o {
          trans = offs;
          payload = (if ltb payload packet_length then payload else no_header);
        },
        record l { trans = proto },
      ))
    else ok (o, l)

find_ip4 : List ℕ → ℕ → ℕ → Offsets → Layers → Outcome Found
find_ip4 p packet_length first o l = do
  proto ← read p (o.net + 9)
  find_transport p packet_length (o.net + bit_and first 0x0F * 4) proto o (record l { net = n_ip })

find_ip6 : List ℕ → ℕ → Offsets → Layers → Outcome Found
find_ip6 p packet_length o l = do
  proto ← read p (o.net + 6)
  behind ← skip_options (length p + 1) p o.net (o.net + 40) proto
  find_transport p packet_length behind.0 behind.1 o (record l { net = n_ip6 })

unfoldable pub find_headers : List ℕ → ℕ → Offsets → Layers → Outcome Found
unfolding find_ip4 find_ip6
find_headers p packet_length o l =
    let cleared = record o { trans = no_header; payload = no_header } in
    do
      first ← read p o.net
      if bit_and first 0xf0 == 6 * 16
          then find_ip6 p packet_length cleared l
          else if bit_and first 0xf0 == 4 * 16
          then find_ip4 p packet_length first cleared l
          else ok (cleared, record l { net = n_unknown })
