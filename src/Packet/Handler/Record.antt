-- ===== src/Packet/Handler/Record.antt =====
-- Which packets are exported, and as what: a specification of one packet by itself.
pub mod Refines
use impd4e.Common.{
  ℕ, List, [], ◌∷◌, ◌++◌, Bool, true, false, ◌&&◌, ◌≡◌, refl, ap, sym, subst, ◌∙◌, arith, length,
  Option, none, some, leb, ◌==◌, if◌then◌else◌, u16, ◌+₃₂◌, Bool-cases, Fault, Outcome,
  Outcome-cases, ok, err, ◌>>=◌, inl, inr,
}
use impd4e.Memory.{Packet, Buffer}
use impd4e.Hash.{Machine, calc_hash_value}
use impd4e.Headers.{Found, find_headers}
use impd4e.Selection.{select_fields}
use impd4e.Selection.Size.{select_fields-size}
use impd4e.Templates.{ExportField, get_template}
use impd4e.Device.{DeviceType, LinkType, Device, no_template, Options}
use impd4e.Packet.{Timeval, apply_offset}
use impd4e.Packet.Fields.{Field, Selected, packet_fields}
use impd4e.Packet.Handler.{
  Effect, export_array, export_flush, Handled, hashed, flush_full, export_packet, count_hash,
  handle_ip_packet, packet_nettype, count_packet, is_ip, handle_packet, zero_offsets, zero_layers,
}
use impd4e.Packet.Handler.Counters.{run_packets}

abbrev pub Record : Type 0
Record = List ExportField × List Field

-- The part of a device that does not change while packets are handled.
pub record Setup : Type 0 where
  pub device_type : DeviceType
  pub link_type : LinkType
  pub template_id : ℕ
  pub pkt_offset : ℕ
  pub buffer_size : ℕ

abbrev pub setup : Device → Setup
setup dev = record {
  device_type = dev.device_type;
  link_type = dev.link_type;
  template_id = dev.template_id;
  pkt_offset = dev.pkt_offset;
  buffer_size = dev.hash_buffer.size;
}

abbrev pub setup_template : Options → Setup → ℕ
setup_template options s =
    if s.template_id == no_template then options.template_id else s.template_id

-- The record of a packet whose hash is in the range.
unfoldable pub selected_record : Options → Setup → Selected → Outcome (Option Record)
selected_record options s selected =
    if leb options.sel_range_min selected.hash_id && leb selected.hash_id options.sel_range_max
    then (do
      template ← get_template (setup_template options s)
      fields ← packet_fields (setup_template options s) selected
      ok (elim fields [ none ↦ none | some fs ↦ some (template, fs) ]))
    else ok none

-- The record of an IP packet, if its selection is not empty and hashes into the range.
unfoldable pub ip_record : Machine → Options → Packet → Timeval → Setup → Outcome (Option Record)
ip_record machine options packet ts s = do
  found ← find_headers packet.ptr (u16 packet.len) zero_offsets zero_layers
  buffer ←
      select_fields options.selection_function options.ranges packet
        (record { bytes = []; size = s.buffer_size }) found.0 found.1
  if length buffer.bytes == 0
      then ok none
      else selected_record options s (hashed machine options packet ts found buffer)

unfoldable pub packet_record :
    Machine → Options → Packet → Timeval → Setup → Outcome (Option Record)
packet_record machine options packet ts s = do
  nettype ← packet_nettype s.device_type s.link_type packet
  if is_ip nettype
      then ip_record machine options
          (apply_offset (apply_offset packet s.pkt_offset) options.offset) ts s
      else ok none

abbrev pub prepend : Option Record → List Record → List Record
prepend none records = records
prepend (some r) records = r ∷ records

-- The records of a capture, packet by packet.
unfoldable pub packet_records :
    Machine → Options → List (Packet × Timeval) → Setup → Outcome (List Record)
packet_records machine options [] s = ok []
packet_records machine options ((packet, ts) ∷ packets) s = do
  here ← packet_record machine options packet ts s
  rest ← packet_records machine options packets s
  ok (prepend here rest)

-- The records among what was sent.
unfoldable pub sent : List Effect → List Record
sent [] = []
sent (export_array template fs ∷ effects) = (template, fs) ∷ sent effects
sent (export_flush ∷ effects) = sent effects
