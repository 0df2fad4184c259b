-- ===== src/Packet/Handler.antt =====
-- src/packet_handler.c: handle_ip_packet and handle_packet, the callback for each captured packet,
-- with determineLinkType of src/pcap_handler.c, which sets the offset of the network layer.
--
-- The device is passed in and out. What is sent is listed in order: libipfix gets the records, and
-- export_flush of src/ipfix_handler.c is called. The packet id is computed by code that nothing
-- uses afterwards, and is left out.
pub mod Counters
pub mod Safe
pub mod Readable
pub mod Located
pub mod Returns
pub mod Live
pub mod Links
pub mod Record
pub mod Post
use impd4e.Common.{
  ℕ, zero, suc, ◌+◌, List, [], ◌∷◌, ◌++◌, Bool, true, false, not, ◌&&◌, ◌||◌, length, Option, none,
  some, leb, ◌==◌, if◌then◌else◌, u16, u64, ◌+₃₂◌, Outcome, ok, ◌>>=◌,
}
use impd4e.Memory.{Packet, Buffer, Offsets, Layers}
use impd4e.Hash.{Machine, HashFunction, calc_hash_value}
use impd4e.Headers.{Found, find_headers}
use impd4e.Selection.{select_fields}
use impd4e.Templates.{ExportField, get_template}
use impd4e.Device.{
  DeviceType, type_unknown, type_pcap, type_pcap_file, type_socket_unix, type_socket_inet,
  type_file, type_testtype, LinkType, dlt_en10mb, dlt_atm_rfc1483, dlt_linux_sll, dlt_raw,
  other_link, Device, no_template, Options,
}
use impd4e.Packet.{
  Timeval, get_nettype, get_nettype_pkt, ethertype_ip4, ethertype_ip6, apply_offset,
}
use impd4e.Packet.Fields.{Field, Selected, packet_fields}

pub data Effect : Type 0 where
  export_array : List ExportField → List Field → Effect
  export_flush : Effect

abbrev pub Handled : Type 0
Handled = Device × List Effect

-- determineLinkType; the link type itself is what libpcap reports.
unfoldable pub determine_link_type : LinkType → Device → Device
determine_link_type dlt_en10mb dev = record dev { link_type = dlt_en10mb; pkt_offset = 14 }
determine_link_type dlt_atm_rfc1483 dev = record dev { link_type = dlt_atm_rfc1483; pkt_offset = 8 }
determine_link_type dlt_linux_sll dev = record dev { link_type = dlt_linux_sll; pkt_offset = 16 }
determine_link_type dlt_raw dev = record dev { link_type = dlt_raw; pkt_offset = 0 }
determine_link_type other_link dev = record dev { link_type = other_link; pkt_offset = 0 }

abbrev pub zero_offsets : Offsets
zero_offsets = record { link = 0; net = 0; trans = 0; payload = 0 }

abbrev pub zero_layers : Layers
zero_layers = record { link = 0; net = 0; trans = 0; payload = 0 }

-- From "flush ipfix storage" to the reset of the dropped packets.
flush_full : Options → Device → List Effect → Handled
flush_full options dev effects =
    if leb options.export_packet_count dev.export_packet_count
    then (
      record dev { export_packet_count = 0; packets_dropped = 0 },
      effects ++ (export_flush ∷ []),
    )
    else (record dev { packets_dropped = 0 }, effects)

-- From `t_id = ...` on: the record, unless the template id names none of the packet templates.
export_packet : Options → Device → Selected → Outcome Handled
unfolding flush_full
export_packet options dev selected =
    let t_id = (if dev.template_id == no_template then options.template_id else dev.template_id) in
    do
      template ← get_template t_id
      fields ← packet_fields t_id selected
      elim fields [
        | none ↦ ok (dev, [])
        | some fs ↦ ok (flush_full options dev (export_array template fs ∷ []))
      ]

-- What is done with the hash of a packet.
pub count_hash : Options → Device → Selected → Outcome Handled
unfolding export_packet
count_hash options dev selected =
    if leb options.sel_range_min selected.hash_id && leb selected.hash_id options.sel_range_max
    then (let counted = record dev {
      export_packet_count = dev.export_packet_count +₃₂ 1;
      sampling_size = dev.sampling_size +₃₂ 1;
    } in
        if not options.pktid_export
        then ok (counted, [])
        else export_packet options counted selected)
    else ok (record dev { packets_dropped = dev.packets_dropped +₃₂ 1 }, [])

abbrev pub hashed : Machine → Options → Packet → Timeval → Found → Buffer → Selected
hashed machine options packet ts found buffer = record {
  packet = packet;
  ts = ts;
  offsets = found.0;
  layers = found.1;
  hash_id = calc_hash_value machine options.hash_function buffer.bytes;
}

-- findHeaders takes the length as a uint16_t.
unfoldable pub handle_ip_packet : Machine → Options → Packet → Timeval → Device → Outcome Handled
unfolding count_hash
handle_ip_packet machine options packet ts dev = do
  found ← find_headers packet.ptr (u16 packet.len) zero_offsets zero_layers
  buffer ←
      select_fields options.selection_function options.ranges packet
        (record dev.hash_buffer { bytes = [] }) found.0 found.1
  let dev' = record dev { hash_buffer = buffer }
  if length buffer.bytes == 0
      then ok (dev', [])
      else count_hash options dev' (hashed machine options packet ts found buffer)

-- The switch on the device type; `nettype` is 0 where no case sets it.
pub packet_nettype : DeviceType → LinkType → Packet → Outcome ℕ
packet_nettype device_type link_type packet = elim device_type [
  | type_pcap ↦ get_nettype packet link_type
  | type_pcap_file ↦ get_nettype packet link_type
  | type_socket_unix ↦ get_nettype_pkt packet
  | type_socket_inet ↦ get_nettype_pkt packet
  | type_file ↦ ok 0
  | type_unknown ↦ ok 0
  | type_testtype ↦ ok 0
]

pub count_packet : Device → Device
count_packet dev = record dev {
  sampling_delta_count = u64 (dev.sampling_delta_count + 1);
  totalpacketcount = u64 (dev.totalpacketcount + 1);
}

abbrev pub is_ip : ℕ → Bool
is_ip nettype = nettype == ethertype_ip4 || nettype == ethertype_ip6

-- handle_default_packet only logs.
unfoldable pub handle_packet : Machine → Options → Packet → Timeval → Device → Outcome Handled
unfolding packet_nettype count_packet
handle_packet machine options packet ts dev =
    let counted = count_packet dev in
    do
      nettype ← packet_nettype dev.device_type dev.link_type packet
      let inner = apply_offset (apply_offset packet dev.pkt_offset) options.offset
      if is_ip nettype then handle_ip_packet machine options inner ts counted else ok (counted, [])
