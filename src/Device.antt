-- ===== src/Device.antt =====
-- The state of a capturing interface (device_dev_t of include/constants.h) and the options that the
-- packet path reads (options_t of include/settings.h).
use impd4e.Common.{ℕ, ◌-◌, ◌^◌, List, [], ◌∷◌, Bool, true}
use impd4e.Memory.{Buffer}
use impd4e.Hash.{HashFunction, bob}
use impd4e.Selection.{Range, SelectionFunction, u_tcp_and_net}
use impd4e.Templates.{mint_id}

-- device_type_t.
pub data DeviceType : Type 0 where
  type_unknown type_pcap type_pcap_file type_socket_unix type_socket_inet type_file : DeviceType
  type_testtype : DeviceType

-- The link types of libpcap that the code names, and any other.
pub data LinkType : Type 0 where
  dlt_en10mb dlt_atm_rfc1483 dlt_linux_sll dlt_raw other_link : LinkType

pub record Device : Type 0 where
  pub device_type : DeviceType
  pub device_name : List ℕ
  pub link_type : LinkType
  pub template_id : ℕ
  pub pkt_offset : ℕ
  pub hash_buffer : Buffer
  pub export_packet_count : ℕ
  pub totalpacketcount : ℕ
  pub packets_dropped : ℕ
  pub sampling_size : ℕ
  pub sampling_delta_count : ℕ

-- -1 in the uint32_t field `template_id`: the device has no template of its own.
abbrev pub no_template : ℕ
no_template = 2 ^ 32 - 1

-- Of the double `export_pktid_interval` only `<= 0` is asked, whose negation is `pktid_export`.
-- `ranges` is the global list `rSel` of src/hash.c.
pub record Options : Type 0 where
  pub template_id : ℕ
  pub offset : ℕ
  pub hash_function : HashFunction
  pub selection_function : SelectionFunction
  pub sel_range_min : ℕ
  pub sel_range_max : ℕ
  pub snap_length : ℕ
  pub export_packet_count : ℕ
  pub pktid_export : Bool
  pub ranges : List Range

-- set_defaults_options, and the static `baseSelection`.
abbrev pub default_options : Options
default_options = record {
  template_id = mint_id;
  offset = 0;
  hash_function = bob;
  selection_function = u_tcp_and_net;
  sel_range_min = 0x1999_9999;
  sel_range_max = 0x3333_3333;
  snap_length = 80;
  export_packet_count = 1000;
  pktid_export = true;
  ranges = record { offset = 0; length = 0 } ∷ [];
}

-- set_defaults_device: the fields that it sets, on a device of the static array, which starts as zero.
unfoldable pub set_defaults_device : Options → Device → Device
set_defaults_device options dev = record dev {
  packets_dropped = 0;
  export_packet_count = 0;
  hash_buffer = record { bytes = []; size = options.snap_length };
  template_id = no_template;
}
