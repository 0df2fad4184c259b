-- ===== src/Export.antt =====
-- src/export_handler.c: the records about the probe itself and the timers that send them, with
-- export_flush of src/ipfix_handler.c.
--
-- Whether ipfix_export_array took a record is an argument; what it took, and each flush, is listed in
-- order. What a flush returns is only logged. `ev_now` is an argument in whole seconds, to
-- which the timers cut it. The counters of libpcap are what pcap_stats leaves in `pcapStat`.
pub mod Fits
pub mod Reports
use impd4e.Common.{
  ℕ, zero, suc, ◌+◌, ◌*◌, List, [], ◌∷◌, ◌++◌, Bool, Option, none, some, length, take,
  if◌then◌else◌, u16, u64, Fault, overread, Outcome, ok, err, ◌>>=◌,
}
use impd4e.Range.{Text}
use impd4e.Address.{ntoa}
use impd4e.Templates.{get_template, intf_stats_id, sync_id, probe_stats_id, location_id}
use impd4e.Device.{
  DeviceType, type_pcap, type_unknown, type_pcap_file, type_socket_unix, type_socket_inet,
  type_file, type_testtype, Device,
}
use impd4e.Packet.Fields.{Field, set_value, number, octets}
use impd4e.Packet.Handler.{Effect, export_array, export_flush, Handled}

-- The name of an interface, and the bytes of its IPv4 address.
pub record Identity : Type 0 where
  pub device_name : Text
  pub p0 : ℕ
  pub p1 : ℕ
  pub p2 : ℕ
  pub p3 : ℕ

pub record PcapStat : Type 0 where
  pub ps_recv : ℕ
  pub ps_drop : ℕ

pub pcap_stat : DeviceType → PcapStat → PcapStat
pcap_stat type_pcap live = live
pcap_stat type_pcap_file live = record { ps_recv = 0; ps_drop = 0 }
pcap_stat type_socket_unix live = record { ps_recv = 0; ps_drop = 0 }
pcap_stat type_socket_inet live = record { ps_recv = 0; ps_drop = 0 }
pcap_stat type_file live = record { ps_recv = 0; ps_drop = 0 }
pcap_stat type_unknown live = record { ps_recv = 0; ps_drop = 0 }
pcap_stat type_testtype live = record { ps_recv = 0; ps_drop = 0 }

-- A string with its strlen as the uint16_t of `lengths`.
abbrev pub text_field : Text → Field
text_field s = set_value (octets s) (u16 (length s))

-- snprintf to the 16 bytes of `interfaceDescription`.
unfoldable pub interface_description : Identity → Text
interface_description identity = take 15 (ntoa identity.p0 identity.p1 identity.p2 identity.p3)

unfoldable pub interface_fields : Identity → PcapStat → ℕ → ℕ → ℕ → List Field
interface_fields identity stat time size delta_count =
    set_value (number time) 8
    ∷ set_value (number size) 4
    ∷ set_value (number delta_count) 8
    ∷ set_value (number stat.ps_recv) 4
    ∷ set_value (number stat.ps_drop) 4
    ∷ text_field identity.device_name
    ∷ text_field (interface_description identity)
    ∷ []

unfoldable pub export_data_interface_stats :
    Bool → Identity → PcapStat → ℕ → ℕ → ℕ → Device → Outcome Handled
unfolding interface_fields pcap_stat interface_description
export_data_interface_stats accepted identity live time size delta_count dev = do
  template ← get_template intf_stats_id
  let fields = interface_fields identity (pcap_stat dev.device_type live) time size delta_count
  ok (
      if accepted
      then (
        record dev { sampling_size = 0; sampling_delta_count = 0 },
        export_array template fields ∷ [],
      )
      else (dev, []))

-- A record of template `t_id`, and the flush that follows where it was taken.
send_flushed : Bool → ℕ → List Field → Outcome (List Effect)
send_flushed accepted t_id fields = do
  template ← get_template t_id
  ok (if accepted then export_array template fields ∷ export_flush ∷ [] else [])

unfoldable pub sync_fields : ℕ → ℕ → ℕ → Text → List Field
sync_fields time message_id message_value message =
    set_value (number time) 8
    ∷ set_value (number message_id) 4
    ∷ set_value (number message_value) 4
    ∷ text_field message
    ∷ []

unfoldable pub export_data_sync : Bool → ℕ → ℕ → ℕ → Text → Outcome (List Effect)
unfolding send_flushed sync_fields
export_data_sync accepted time message_id message_value message =
    send_flushed accepted sync_id (sync_fields time message_id message_value message)

-- struct probe_stat; a float is the number that its four bytes make.
pub record ProbeStat : Type 0 where
  pub system_cpu_idle : ℕ
  pub system_mem_free : ℕ
  pub process_cpu_user : ℕ
  pub process_cpu_sys : ℕ
  pub process_mem_vzs : ℕ
  pub process_mem_rss : ℕ
  pub system_mem_total : ℕ

unfoldable pub probe_fields : ℕ → ProbeStat → List Field
probe_fields time stat =
    set_value (number time) 8
    ∷ set_value (number stat.system_cpu_idle) 4
    ∷ set_value (number stat.system_mem_free) 8
    ∷ set_value (number stat.process_cpu_user) 4
    ∷ set_value (number stat.process_cpu_sys) 4
    ∷ set_value (number stat.process_mem_vzs) 8
    ∷ set_value (number stat.process_mem_rss) 8
    ∷ set_value (number stat.system_mem_total) 8
    ∷ []

unfoldable pub export_data_probe_stats : Bool → ProbeStat → ℕ → Outcome (List Effect)
unfolding send_flushed probe_fields
export_data_probe_stats accepted stat time =
    send_flushed accepted probe_stats_id (probe_fields time stat)

-- The options that export_data_location reads.
pub record Location : Type 0 where
  pub ip_address : ℕ
  pub s_latitude : Text
  pub s_longitude : Text
  pub s_probe_name : Text
  pub s_location_name : Text

unfoldable pub location_fields : ℕ → Location → List Field
location_fields time location =
    set_value (number time) 8
    ∷ set_value (number location.ip_address) 4
    ∷ text_field location.s_latitude
    ∷ text_field location.s_longitude
    ∷ text_field location.s_probe_name
    ∷ text_field location.s_location_name
    ∷ []

unfoldable pub export_data_location : Bool → Location → ℕ → Outcome (List Effect)
unfolding send_flushed location_fields
export_data_location accepted location time =
    send_flushed accepted location_id (location_fields time location)

-- On a device; a null pointer is passed by nothing.
export_flush_device : Device → Handled
export_flush_device device = (record device { export_packet_count = 0 }, export_flush ∷ [])

-- The loop of export_flush_all over the first `n` devices.
unfoldable pub export_flush_all : ℕ → List Device → Outcome (List Device × List Effect)
unfolding export_flush_device
export_flush_all zero devices = ok (devices, [])
export_flush_all (suc n) [] = err overread
export_flush_all (suc n) (dev ∷ devices) = do
  let here = export_flush_device dev
  rest ← export_flush_all n devices
  ok (here.0 ∷ rest.0, here.1 ++ rest.1)

-- What the timer of the sampling statistics meets at each interface.
pub record Sampler : Type 0 where
  pub accepted : ℕ → Bool
  pub identity : ℕ → Identity
  pub live : ℕ → PcapStat

-- The loop of export_timer_sampling_cb over the first `n` devices, the first of which has index `i`.
unfoldable pub sample_devices :
    Sampler → ℕ → ℕ → ℕ → List Device → Outcome (List Device × List Effect)
sample_devices sampler time i zero devices = ok (devices, [])
sample_devices sampler time i (suc n) [] = err overread
sample_devices sampler time i (suc n) (dev ∷ devices) = do
  here ←
      export_data_interface_stats (sampler.accepted i) (sampler.identity i) (sampler.live i) time
        dev.sampling_size dev.sampling_delta_count dev
  rest ← sample_devices sampler time (suc i) n devices
  ok (here.0 ∷ rest.0, here.1 ++ rest.1)

abbrev pub milliseconds : ℕ → ℕ
milliseconds now = u64 (now * 1000)

unfoldable pub export_timer_sampling_cb :
    Sampler → ℕ → ℕ → List Device → Outcome (List Device × List Effect)
export_timer_sampling_cb sampler now number_interfaces devices = do
  r ← sample_devices sampler (milliseconds now) 0 number_interfaces devices
  ok (r.0, r.1 ++ (export_flush ∷ []))

abbrev pub export_timer_pktid_cb : List Effect
export_timer_pktid_cb = export_flush ∷ []

unfoldable pub export_timer_stats_cb : Bool → ProbeStat → ℕ → Outcome (List Effect)
export_timer_stats_cb accepted stat now = export_data_probe_stats accepted stat (milliseconds now)

unfoldable pub export_timer_location_cb : Bool → Location → ℕ → Outcome (List Effect)
export_timer_location_cb accepted location now =
    export_data_location accepted location (milliseconds now)
