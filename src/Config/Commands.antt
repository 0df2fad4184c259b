-- ===== src/Config/Commands.antt =====
-- src/config_handler.c: the functions behind the commands. Each returns its response, an ASCII text that
-- snprintf cuts at 255 bytes.
use impd4e.Common.{
  ℕ, zero, suc, ◌-◌, ◌^◌, List, [], ◌∷◌, ◌++◌, Option, none, some, take, ltb, if◌then◌else◌, u32, ℤ,
  pos, negsuc, Bool, true, false, Outcome, ok, err, overread, ◌>>=◌,
}
use Prim.Native.Char.{code}
use Prim.Native.String.{String}
use impd4e.Range.{Text}
use impd4e.Range.Decimal.{decimal}
use impd4e.Device.{
  DeviceType, type_unknown, type_pcap, type_pcap_file, type_socket_unix, type_socket_inet,
  type_file, type_testtype, Device, no_template, Options,
}
use impd4e.Settings.{Settings}
use impd4e.Settings.Names.{parse_template}
use impd4e.Settings.Sampling.{set_sampling_lowerbound, set_sampling_upperbound, set_sampling_ratio}

-- The bytes of an ASCII text.
abbrev pub codes : String → Text
codes String.[] = []
codes (String.◌∷◌ c s) = code c ∷ codes s

-- The functions of the C library: strtoll and strtol with base 0, the latter as an int, what
-- set_sampling_ratio scales the double of strtod to, and the number that sscanf reads with "mid: %lu ".
pub record Outside : Type 0 where
  pub strtoll : Text → ℤ
  pub strtol : Text → ℤ
  pub share : Text → ℕ
  pub scan_mid : Text → Option ℕ

pub record Timers : Type 0 where
  pub pktid : ℕ
  pub probestats : ℕ
  pub ifstats : ℕ

pub record Configured : Type 0 where
  pub settings : Settings
  pub timers : Timers

abbrev pub Answered : Type 0
Answered = Configured × Text

-- SET_CFG_RESPONSE with "%s" at the end.
unfoldable pub respond : String → Text → Text
respond prefix msg = take 255 (codes prefix ++ msg)

-- A uint32_t printed with "%d".
unfoldable pub print_int : ℕ → Text
print_int n = if ltb n (2 ^ 31) then decimal n [] else b'-' ∷ decimal (2 ^ 32 - n) []

-- The loop that resets the template of each device.
unfoldable pub reset_templates : ℕ → List Device → List Device
reset_templates zero devices = devices
reset_templates (suc n) [] = []
reset_templates (suc n) (dev ∷ devices) =
    record dev { template_id = no_template } ∷ reset_templates n devices

is_negative : ℤ → Bool
is_negative (pos n) = false
is_negative (negsuc n) = true

unfoldable pub configuration_set_template : Text → Configured → Answered
unfolding reset_templates respond
configuration_set_template msg c = elim (parse_template msg) [
  | none ↦ (c, respond "INFO: unknown template: " msg)
  | some id ↦ (
    record c {
      settings = record c.settings {
        options = record c.settings.options { template_id = id };
        devices = reset_templates c.settings.number_interfaces c.settings.devices;
      };
    },
    respond "INFO: new template set: " msg,
  )
]

-- set_filter on one interface. `device_handle` is a union: that of a socket is a descriptor and no pcap_t, and an interface that is
-- not opened has a null pointer; libpcap follows both. What it answers makes no difference.
unfoldable pub set_filter_on : DeviceType → Outcome ℤ
set_filter_on type_pcap = ok (pos 0)
set_filter_on type_pcap_file = ok (pos 0)
set_filter_on type_socket_inet = err overread
set_filter_on type_socket_unix = err overread
set_filter_on type_file = err overread
set_filter_on type_unknown = err overread
set_filter_on type_testtype = err overread

-- It returns 0 whatever set_filter returns.
unfoldable pub set_all_filter : ℕ → List Device → Outcome ℤ
unfolding set_filter_on
set_all_filter zero devices = ok (pos 0)
set_all_filter (suc n) [] = err overread
set_all_filter (suc n) (dev ∷ devices) = do
  ignored ← set_filter_on dev.device_type
  set_all_filter n devices

unfoldable pub filter_answer : Text → Configured → Answered
unfolding respond
filter_answer msg c = (c, respond "INFO: new filter expression set: " msg)

unfoldable pub configuration_set_filter : Text → Configured → Outcome Answered
unfolding set_all_filter filter_answer respond is_negative
configuration_set_filter msg c = do
  returned ← set_all_filter c.settings.number_interfaces c.settings.devices
  if is_negative returned
      then ok (c, respond "INFO: error setting filter: " msg)
      else ok (filter_answer msg c)

unfoldable pub configuration_set_export_to_probestats : Outside → Text → Configured → Answered
unfolding respond
configuration_set_export_to_probestats outside msg c = elim (outside.strtol msg) [
  | pos n ↦ (
    record c { timers = record c.timers { probestats = n } },
    respond "INFO: new probestats export timeout set: " msg,
  )
  | negsuc n ↦ (c, respond "INFO: probestats export timeout NOT changed" [])
]

unfoldable pub configuration_set_export_to_ifstats : Outside → Text → Configured → Answered
unfolding respond
configuration_set_export_to_ifstats outside msg c = elim (outside.strtol msg) [
  | pos n ↦ (
    record c { timers = record c.timers { ifstats = n } },
    respond "INFO: new ifstats export timeout set: " msg,
  )
  | negsuc n ↦ (c, respond "INFO: ifstats export timeout NOT changed" [])
]

unfoldable pub configuration_set_export_to_pktid : Outside → Text → Configured → Answered
unfolding respond
configuration_set_export_to_pktid outside msg c = elim (outside.strtol msg) [
  | pos n ↦ (
    record c { timers = record c.timers { pktid = n } },
    respond "INFO: new packet export timeout set: " msg,
  )
  | negsuc n ↦ (c, respond "INFO: packet export timeout NOT changed" [])
]

abbrev with_options : Options → Configured → Configured
with_options options c = record c { settings = record c.settings { options = options } }

unfoldable pub configuration_set_min_selection : Outside → Text → Configured → Answered
unfolding print_int respond
configuration_set_min_selection outside msg c =
    let options = set_sampling_lowerbound (outside.strtoll msg) c.settings.options in
    (
      with_options options c,
      respond "INFO: minimum selection range set: " (print_int options.sel_range_min),
    )

unfoldable pub configuration_set_max_selection : Outside → Text → Configured → Answered
unfolding print_int respond
configuration_set_max_selection outside msg c =
    let options = set_sampling_upperbound (outside.strtoll msg) c.settings.options in
    (
      with_options options c,
      respond "INFO: maximum selection range set: " (print_int options.sel_range_max),
    )

-- set_sampling_ratio never returns -1.
unfoldable pub configuration_set_ratio : Outside → Text → Configured → Answered
unfolding respond
configuration_set_ratio outside msg c = (
  with_options (set_sampling_ratio (u32 (outside.share msg)) c.settings.options) c,
  respond "INFO: new sampling ratio set: " msg,
)
