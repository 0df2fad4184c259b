-- ===== src/Tests/Probe.antt =====
-- A run of the probe: a packet, a report of the packets counted, and a flush.
use impd4e.Common.{List, [], ◌∷◌, ◌++◌, ◌≡◌, refl, true, arith, ok}
use impd4e.Memory.{append_packet, slice}
use impd4e.Hash.{calc_hash_value}
use impd4e.Hash.Bob.{bob_hash, bobhash}
use impd4e.Headers.{find_headers, find_transport, payload_offset}
use impd4e.Selection.{select_fields}
use impd4e.Templates.{get_template, export_fields_interface_stats}
use impd4e.Packet.{get_timestamp, read_u16, get_nettype, apply_offset}
use impd4e.Packet.Fields.{packet_fields}
use impd4e.Packet.Handler.{export_array, export_flush, handle_packet, handle_ip_packet}
use impd4e.Settings.{update}
use impd4e.Export.{
  Identity, Sampler, Location, ProbeStat, interface_fields, export_data_interface_stats,
  sample_devices, export_timer_sampling_cb, export_timer_stats_cb, export_timer_location_cb,
  export_timer_pktid_cb,
}
use impd4e.Export.Fits.{AllFit, Sends, SendsOnly, export_timers-AllFit}
use impd4e.Probe.{Event, packet_event, sampling_event, Stepped, with_devices, step, run}
use impd4e.Probe.Invariant.{Counts, packets, run-Counts}
use impd4e.Probe.Fits.{run-AllFit}
use impd4e.Tests.Packet.{machine, frame, noon, ethernet, sent}
use impd4e.Tests.Config.{outside, configured}

abbrev identity : Identity
identity = record { device_name = 101 ∷ []; p0 = 10; p1 = 0; p2 = 0; p3 = 1 }

abbrev sampler : Sampler
sampler = record {
  accepted = λ i. true;
  identity = λ i. identity;
  live = λ i. record { ps_recv = 1; ps_drop = 0 };
}

abbrev events : List Event
events = packet_event 0 frame noon ∷ sampling_event sampler 5 ∷ []

abbrev after : Stepped
after = (
  with_devices (record sent.0 { sampling_size = 0; sampling_delta_count = 0 } ∷ []) configured,
  sent.1
      ++ (export_array export_fields_interface_stats
            (interface_fields identity (record { ps_recv = 1; ps_drop = 0 }) 5000 1 1)
          ∷ export_flush
          ∷ []),
)

ran : run machine outside events configured ≡ ok after
unfolding run step handle_packet handle_ip_packet get_nettype read_u16 apply_offset find_headers
    find_transport payload_offset select_fields append_packet slice calc_hash_value bob_hash bobhash
    packet_fields get_template get_timestamp update export_timer_sampling_cb sample_devices
    export_data_interface_stats
ran = refl

run-Counts_example : Counts (packets events) configured after
run-Counts_example = run-Counts machine outside events configured {r = after} ran

run-AllFit_example : AllFit after.1
run-AllFit_example =
    run-AllFit machine outside events configured {r = after} (tt, ((λ j. omega arith), tt)) ran

abbrev location : Location
location = record {
  ip_address = 1;
  s_latitude = [];
  s_longitude = [];
  s_probe_name = 112 ∷ [];
  s_location_name = [];
}

abbrev idle_stat : ProbeStat
idle_stat = record {
  system_cpu_idle = 0;
  system_mem_free = 1;
  process_cpu_user = 0;
  process_cpu_sys = 0;
  process_mem_vzs = 1;
  process_mem_rss = 1;
  system_mem_total = 2;
}

export_timers-AllFit_example :
    Sends (export_timer_sampling_cb sampler 5 1 (ethernet ∷ []))
    × SendsOnly (export_timer_stats_cb true idle_stat 5)
    × SendsOnly (export_timer_location_cb true location 5)
    × AllFit export_timer_pktid_cb
export_timers-AllFit_example =
    export_timers-AllFit sampler 5 1 (ethernet ∷ []) true idle_stat location (λ j. omega arith)
      (omega arith) (omega arith, omega arith, omega arith, omega arith)
