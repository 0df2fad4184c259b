-- ===== src/Packet/Handler/Links.antt =====
-- The link layer of a pcap device: where the type of the packet is read, and what is not processed.
use impd4e.Common.{ℕ, ◌+◌, [], ◌≡◌, ◌⊎◌, inl, inr, arith, ok}
use impd4e.Memory.{Packet}
use impd4e.Hash.{Machine}
use impd4e.Device.{
  type_pcap, type_pcap_file, LinkType, dlt_en10mb, dlt_atm_rfc1483, dlt_linux_sll, dlt_raw,
  other_link, Device, Options,
}
use impd4e.Packet.{Timeval, read_u16, get_nettype}
use impd4e.Packet.Handler.{determine_link_type, count_packet, handle_packet}

abbrev HasLinkHeader : LinkType → Type 0
HasLinkHeader link = (link ≡ dlt_en10mb) ⊎ (link ≡ dlt_atm_rfc1483) ⊎ (link ≡ dlt_linux_sll)

-- For Ethernet, ATM and Linux cooked captures, the packet type is read from the two bytes that
-- stand directly before the offset at which the network layer is taken to begin.
get_nettype-determine_link_type :
    (link : LinkType) (dev : Device) (packet : Packet) (i : ℕ)
    → HasLinkHeader link
    → i + 2 ≡ (determine_link_type link dev).pkt_offset
    → get_nettype packet (determine_link_type link dev).link_type ≡ read_u16 packet.ptr i
unfolding determine_link_type get_nettype
get_nettype-determine_link_type dlt_en10mb dev packet i h e = let at : i ≡ 12 = omega arith in rw at
get_nettype-determine_link_type dlt_atm_rfc1483 dev packet i h e =
    let at : i ≡ 6 = omega arith in rw at
get_nettype-determine_link_type dlt_linux_sll dev packet i h e =
    let at : i ≡ 14 = omega arith in rw at
get_nettype-determine_link_type dlt_raw dev packet i h e = absurd (ground arith)
get_nettype-determine_link_type other_link dev packet i h e = absurd (ground arith)

-- A pcap device of raw IP packets counts every packet and processes none: determineLinkType
-- accepts DLT_RAW, and get_nettype knows no packet type for it.
handle_packet-raw :
    (machine : Machine) (options : Options) (packet : Packet) (ts : Timeval) (dev : Device)
    → (dev.device_type ≡ type_pcap) ⊎ (dev.device_type ≡ type_pcap_file)
    → let raw = determine_link_type dlt_raw dev in
      handle_packet machine options packet ts raw ≡ ok (count_packet raw, [])
unfolding handle_packet determine_link_type get_nettype
handle_packet-raw machine options packet ts dev (inl h) = rw h
handle_packet-raw machine options packet ts dev (inr h) = rw h
