-- ===== src/Packet/Handler/Returns.antt =====
-- The callback of src/packet_handler.c on captured packets, and what it reads of them.
use impd4e.Common.{ℕ, ◌+◌, ◌≤◌, ◌<◌, ◌^◌, ◌≡◌, ◌≢◌, ◌⊎◌, length}
use impd4e.Memory.{Packet, t_tcp}
use impd4e.Device.{Device, Options}
use impd4e.Packet.{apply_offset}
use impd4e.Packet.Handler.Located.{IpPacket, HasPorts}

-- What the callback reads of the link layer is there.
abbrev pub HasLink : Packet → Type 0
HasLink packet = 16 ≤ length packet.ptr

-- The packet behind the offsets of the device and of the options.
abbrev pub inner_packet : Options → Packet → Device → Packet
inner_packet options packet dev = apply_offset (apply_offset packet dev.pkt_offset) options.offset

-- An IP packet that nothing reads beyond.
abbrev pub IsWhole : ℕ → Packet → ℕ → ℕ → Type 0
IsWhole t packet h proto =
    (packet.len ≡ length packet.ptr)
    × (packet.len < 2 ^ 16)
    × IpPacket packet h proto
    × ((proto ≢ t_tcp) ⊎ (packet.len ≢ h + 12))
    × HasPorts t packet h proto
