-- ===== src/Tests/Packet.antt =====
-- The handling of concrete packets.
use impd4e.Common.{ℕ, List, [], ◌∷◌, ◌++◌, ◌≡◌, refl, arith, true, ok}
use impd4e.Memory.{Packet}
use impd4e.Hash.{Machine}
use impd4e.Templates.{observation_time_microseconds, digest_hash_value, ts_id}
use impd4e.Device.{Device, Options, default_options, type_pcap, dlt_en10mb, no_template}
use impd4e.Settings.{zero_device}
use impd4e.Packet.{Timeval, get_timestamp}
use impd4e.Packet.Decode.{decode_array, encode_array, decode_array-encode_array}
use impd4e.Packet.Fields.{
  Selected, set_value, number, packet_fields, template_lengths, packet_fields-lengths,
}
use impd4e.Packet.Handler.{Handled, export_array, export_flush}

abbrev zeros : List ℕ
zeros = 0 ∷ 0 ∷ 0 ∷ 0 ∷ 0 ∷ 0 ∷ 0 ∷ 0 ∷ []

abbrev pub udp_bytes : List ℕ
udp_bytes =
    69 ∷ 0 ∷ 0 ∷ 32 ∷ 0 ∷ 0 ∷ 0 ∷ 0 ∷ 64 ∷ 17 ∷ 0 ∷ 0 ∷ (zeros ++ zeros ++ (1 ∷ 2 ∷ 3 ∷ 4 ∷ []))

abbrev udp_packet : Packet
udp_packet = record { ptr = udp_bytes; len = 32 }

-- The same behind an Ethernet header.
abbrev pub frame : Packet
frame = record { ptr = zeros ++ (0 ∷ 0 ∷ 0 ∷ 0 ∷ 8 ∷ 0 ∷ udp_bytes); len = 46 }

abbrev pub noon : Timeval
noon = record { tv_sec = 43200; tv_usec = 5 }

abbrev pub machine : Machine
machine = record { aligned = true; char_signed = true }

abbrev pub ethernet : Device
ethernet = record zero_device {
  device_type = type_pcap;
  link_type = dlt_en10mb;
  template_id = no_template;
  pkt_offset = 14;
  hash_buffer = record { bytes = []; size = 80 };
}

abbrev pub all_selected : Options
all_selected = record default_options {
  sel_range_min = 0;
  sel_range_max = 4294967295;
  export_packet_count = 1;
  template_id = ts_id;
}

abbrev selected : Selected
selected = record {
  packet = udp_packet;
  ts = noon;
  offsets = record { link = 0; net = 0; trans = 20; payload = 28 };
  layers = record { link = 0; net = 4; trans = 17; payload = 0 };
  hash_id = 7;
}

packet_fields-lengths_example : template_lengths ts_id ≡ ok (8 ∷ 4 ∷ [])
unfolding packet_fields get_timestamp
packet_fields-lengths_example =
    packet_fields-lengths ts_id selected
      {fs = set_value (number 43200000005) 8 ∷ set_value (number 7) 4 ∷ []} refl

decode_array-encode_array_example :
    decode_array (record { ptr = encode_array (7 ∷ 8 ∷ []) (9 ∷ []); len = 5 })
    ≡ ok (record { ptr = 7 ∷ 8 ∷ 9 ∷ []; len = 2 }, record { ptr = 9 ∷ []; len = 1 })
decode_array-encode_array_example =
    decode_array-encode_array (7 ∷ 8 ∷ []) (9 ∷ []) (omega arith) (omega arith)

abbrev pub capture : List (Packet × Timeval)
capture = (frame, noon) ∷ []

abbrev pub sent : Handled
sent = (
  record ethernet {
    hash_buffer = record {
      bytes = 69 ∷ 0 ∷ 0 ∷ 32 ∷ 0 ∷ 0 ∷ 0 ∷ 0 ∷ 17 ∷ (zeros ++ zeros);
      size = 80;
    };
    totalpacketcount = 1;
    sampling_size = 1;
    sampling_delta_count = 1;
  },
  export_array
        (record { element = observation_time_microseconds; length = 8 }
          ∷ record { element = digest_hash_value; length = 4 }
          ∷ [])
        (set_value (number 43200000005) 8 ∷ set_value (number 1492077074) 4 ∷ [])
      ∷ export_flush
      ∷ [],
)
