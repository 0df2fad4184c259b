-- ===== src/Settings.antt =====
-- src/settings.c: the options of the command line and of the configuration file, each applied by
-- its opt_* handler to the options and to the static array `if_devices`.
--
-- Handlers whose option nothing on the packet path reads (names, addresses, intervals other than
-- that of -I, verbosity) stand in Others; those that end the program are left out. The numbers are those that atoi
-- and strtoll return. atof is a parameter of -I through its one test, `<= 0`, and of -r as the number that its scaled value
-- is converted to.
pub mod Sampling
pub mod Names
pub mod File
pub mod Table
pub mod Sections
pub mod Others
pub mod Invariant
use impd4e.Common.{
  ℕ, zero, suc, ◌+◌, List, [], ◌∷◌, Bool, true, false, not, Option, none, some, get_elem?, ◌==◌,
  if◌then◌else◌, u32, ℤ, to_u16, to_u32,
}
use impd4e.Memory.{Buffer}
use impd4e.Range.{Text}
use impd4e.Device.{
  DeviceType, type_unknown, type_pcap, type_pcap_file, type_socket_unix, type_socket_inet,
  type_file, LinkType, other_link, Device, no_template, Options, default_options,
  set_defaults_device,
}
use Sampling.{set_sampling_lowerbound, set_sampling_upperbound, set_sampling_ratio}
use Names.{parse_template, parse_function, parse_sel_function}

abbrev pub max_interfaces : ℕ
max_interfaces = 10

-- `template_count` is the static `t_idx` of opt_t.
pub record Settings : Type 0 where
  pub options : Options
  pub devices : List Device
  pub number_interfaces : ℕ
  pub template_count : ℕ

pub data Setting : Type 0 where
  opt_i opt_t opt_S opt_F : Text → Setting
  opt_m opt_M opt_e opt_N opt_O : ℤ → Setting
  opt_r : ℕ → Setting
  opt_I : Bool → Setting

-- `devices[i] = f( devices[i] )`.
unfoldable pub update : ℕ → (Device → Device) → List Device → List Device
update i f [] = []
update zero f (dev ∷ devices) = f dev ∷ devices
update (suc i) f (dev ∷ devices) = dev ∷ update i f devices

-- The prefix of an interface's name; an unknown one leaves the type as it is. Behind the terminator of an empty argument,
-- where the code looks for the colon, there is taken to be none.
pub interface_type : Text → Device → DeviceType
interface_type (c ∷ colon ∷ name) dev =
    if not (colon == b':')
    then type_pcap
    else if c == b'i'
    then type_pcap
    else if c == b'p'
    then type_pcap_file
    else if c == b'f'
    then type_file
    else if c == b's'
    then type_socket_inet
    else if c == b'u'
    then type_socket_unix
    else if c == b'x'
    then type_unknown
    else dev.device_type
interface_type [] dev = type_pcap
interface_type (c ∷ []) dev = type_pcap

-- Behind the prefix, or all of it without one.
pub interface_name : Text → Text
interface_name (c ∷ colon ∷ name) = if colon == b':' then name else c ∷ colon ∷ name
interface_name [] = []
interface_name (c ∷ []) = c ∷ []

unfoldable pub apply_opt_i : Text → Settings → Settings
unfolding interface_type interface_name
apply_opt_i arg s = if s.number_interfaces == max_interfaces then s else record s {
  devices =
      update s.number_interfaces
        (λ dev. record (set_defaults_device s.options dev) {
          device_type = interface_type arg dev;
          device_name = interface_name arg;
        })
        s.devices;
  number_interfaces = s.number_interfaces + 1;
}

-- The id of the template that was named, or -1 as a uint32_t.
abbrev pub template_or : ℕ → Option ℕ → ℕ
template_or other none = other
template_or other (some id) = id

unfoldable pub apply_opt_t : Text → Settings → Settings
apply_opt_t arg s =
    let id = parse_template arg in
    let named = record s {
      options = record s.options { template_id = template_or s.options.template_id id };
    } in
    if s.template_count == max_interfaces then named else record named {
      devices =
          update s.template_count (λ dev. record dev { template_id = template_or no_template id })
            s.devices;
      template_count = s.template_count + 1;
    }

abbrev set_options : (Options → Options) → Settings → Settings
set_options f s = record s { options = f s.options }

-- find_opt_function_char, and the call of what it finds.
unfoldable pub apply_setting : Setting → Settings → Settings
unfolding apply_opt_i apply_opt_t update
apply_setting (opt_i arg) s = apply_opt_i arg s
apply_setting (opt_t arg) s = apply_opt_t arg s
apply_setting (opt_S arg) s = set_options (parse_sel_function arg) s
apply_setting (opt_F arg) s =
    set_options (λ options. record options { hash_function = parse_function arg }) s
apply_setting (opt_m value) s = set_options (set_sampling_lowerbound value) s
apply_setting (opt_M value) s = set_options (set_sampling_upperbound value) s
apply_setting (opt_r share) s = set_options (set_sampling_ratio (u32 share)) s
apply_setting (opt_e value) s =
    set_options (λ options. record options { export_packet_count = to_u32 value }) s
apply_setting (opt_N value) s =
    set_options (λ options. record options { snap_length = to_u16 value }) s
apply_setting (opt_O value) s = set_options (λ options. record options { offset = to_u32 value }) s
apply_setting (opt_I positive) s =
    set_options (λ options. record options { pktid_export = positive }) s

-- The loop of parse_cmdline_v2.
unfoldable pub parse_cmdline : List Setting → Settings → Settings
parse_cmdline [] s = s
parse_cmdline (setting ∷ settings) s = parse_cmdline settings (apply_setting setting s)

-- A device of the static array, which begins as zero.
abbrev pub zero_device : Device
zero_device = record {
  device_type = type_unknown;
  device_name = [];
  link_type = other_link;
  template_id = 0;
  pkt_offset = 0;
  hash_buffer = record { bytes = []; size = 0 };
  export_packet_count = 0;
  totalpacketcount = 0;
  packets_dropped = 0;
  sampling_size = 0;
  sampling_delta_count = 0;
}

zero_devices : ℕ → List Device
zero_devices zero = []
zero_devices (suc n) = zero_device ∷ zero_devices n

unfoldable pub initial_settings : Settings
unfolding zero_devices
initial_settings = record {
  options = default_options;
  devices = zero_devices max_interfaces;
  number_interfaces = 0;
  template_count = 0;
}
