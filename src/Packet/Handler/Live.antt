-- ===== src/Packet/Handler/Live.antt =====
-- Runs of the callback over captures of such packets.
use impd4e.Common.{ℕ}
use impd4e.Memory.{Packet}
use impd4e.Device.{Device, Options}
use impd4e.Packet.{Timeval, apply_offset}
use impd4e.Packet.Handler.Record.{Setup, setup_template}
use impd4e.Packet.Handler.Returns.{HasLink, IsWhole}

-- A packet that a device of this setup can handle.
abbrev pub IsSafe : Options → Setup → Packet × Timeval → Type 0
IsSafe options s p =
    HasLink p.0
    × ((h : ℕ) × (proto : ℕ) × IsWhole (setup_template options s)
          (apply_offset (apply_offset p.0 s.pkt_offset) options.offset) h proto)
