-- ===== src/Tests/Startup.antt =====
-- Concrete command lines, configuration files and a run of the program.
use impd4e.Common.{
  ℕ, List, [], ◌∷◌, true, false, All, negsuc, arith, Option, none, some, ok, pos, ◌≡◌, refl, u64,
  ◌+◌,
}
use impd4e.Range.{Text, digits_value, is_space}
use impd4e.Device.{type_pcap, dlt_en10mb, default_options}
use impd4e.Settings.{zero_device, initial_settings}
use impd4e.Settings.File.{
  read_line, r_trim, remove_comment, make_lower, trim_end, no_text, to_lower,
}
use impd4e.Settings.Table.{
  codes, find_opt_function_char, function_char, cfg_opt_list, find_opt_letter, letter_key,
  same_text,
}
use impd4e.Settings.Sections.{read_options_file, line_of, scan_heading}
use impd4e.Settings.Others.{Others, default_others}
use impd4e.Settings.Invariant.{IsValid}
use impd4e.Export.Reports.{reported, pending}
use impd4e.Config.Commands.{Timers}
use impd4e.Probe.{Event, packet_event}
use impd4e.Probe.Invariant.{packets}
use impd4e.Startup.{Meets}
use impd4e.Startup.Arguments.{Readers, initial_parsed, run_lines, opt_c, parse_cmdline_v2}
use impd4e.Startup.Files.{as_arguments, run_lines-parse_cmdline_v2}
use impd4e.Startup.First.{is_common, switched, parse_cmdline_first, parse_cmdline_first-v2}
use impd4e.Startup.Open.{System, Interface, open_device}
use impd4e.Startup.Pfring.{
  Pfring, OpenedPfring, IsTold, policy_for, open_each_pfring, open_each_pfring-policies,
}
use impd4e.Startup.Ready.{IsOpened, open_device-IsOpened}
use impd4e.Startup.Main.{Ipfix, not_open, main, Finished}
use impd4e.Startup.Life.{main-Counts}
use impd4e.Tests.Packet.{machine, frame, noon}
use impd4e.Tests.Config.{outside}

abbrev io : Readers
io = record {
  strtoll = λ text. pos (digits_value 0 text);
  atoi = λ text. pos (digits_value 0 text);
  share = λ text. digits_value 0 text;
  positive = λ text. true;
  lines_of = λ name. none;
  stale_heading = [];
}

abbrev sys : System
sys = record {
  pcap_open_offline = λ name. true;
  pcap_open_live = λ name snap_length. true;
  pcap_datalink = λ name. dlt_en10mb;
  pcap_fileno = λ name. 5;
  pcap_compile = λ name bpf. true;
  pcap_setfilter = λ name bpf. true;
  nonblocking = λ name. true;
  ipv4_address = λ name. some 16777343;
  getaddrinfo = λ port inet6. some true;
  address_bytes = λ name. [];
  logs_info = false;
  char_signed = true;
  socket = λ name. some 6;
  bind = λ s. true;
  connect = λ s name. true;
  gethostname = λ n. none;
  now = noon;
  ntohl = λ address. 2130706433;
}

abbrev ipfix : Ipfix
ipfix = record {
  ipfix_init = true;
  ipfix_add_vendor_information_elements = true;
  ipfix_open = λ id. true;
  ipfix_make_template = λ id. true;
  ipfix_add_collector = λ ip port. true;
}

abbrev timers : Others → Timers
timers others = record { pktid = 3; probestats = 30; ifstats = 10 }

-- "-t ts -i i:lo".
abbrev arguments : List (ℕ × Option Text)
arguments = (b't', some (codes "ts")) ∷ (b'i', some (codes "i:lo")) ∷ []

abbrev events : List Event
events = packet_event 0 frame noon ∷ []

main-Counts_example :
    Meets
      (λ finished.
        (u64 (
            reported (Finished.effects finished)
            + pending (Finished.configured finished).settings.devices)
          ≡ u64 (packets events))
        × IsValid (Finished.configured finished).settings)
      (main io sys ipfix timers machine outside 1 arguments events)
main-Counts_example = main-Counts io sys ipfix timers machine outside 1 arguments events

abbrev texts : List Text
texts = codes "[capture]" ∷ codes "interface = i:lo" ∷ []

stored : read_options_file [] texts ≡ ok ((b'i', codes "i:lo") ∷ [])
unfolding read_options_file line_of scan_heading read_line r_trim remove_comment make_lower
    find_opt_letter trim_end no_text to_lower is_space cfg_opt_list letter_key same_text
stored = refl

run_lines-parse_cmdline_v2_example :
    run_lines io (opt_c io 1) [] texts initial_parsed
    ≡ parse_cmdline_v2 io 1 (as_arguments ((b'i', codes "i:lo") ∷ [])) initial_parsed
run_lines-parse_cmdline_v2_example =
    run_lines-parse_cmdline_v2 io 1 [] texts initial_parsed {stored = (b'i', codes "i:lo") ∷ []}
      stored

abbrev common : List (ℕ × Option Text)
common = (b'm', some (codes "5")) ∷ (b'F', some (codes "TWMX")) ∷ []

parse_cmdline_first-v2_example :
    parse_cmdline_first io common initial_parsed ≡ parse_cmdline_v2 io 1 common initial_parsed
unfolding initial_settings is_common switched find_opt_function_char function_char cfg_opt_list
parse_cmdline_first-v2_example =
    parse_cmdline_first-v2 io 1 common initial_parsed refl (refl, (refl, tt))

abbrev lo : Interface
lo = not_open (record zero_device { device_type = type_pcap; device_name = codes "lo" })

open_device-IsOpened_example :
    Meets (IsOpened sys default_others lo) (open_device sys default_options default_others lo)
open_device-IsOpened_example = open_device-IsOpened sys default_others lo default_options

abbrev pfring : Pfring
pfring = record {
  pfring_open = λ name snap_length. true;
  device_address = λ name. some 1;
  accepted = λ rule. true;
  toggled = λ policy. true;
}

open_each_pfring-policies_example :
    Meets
      (λ r.
        (first : OpenedPfring) × (others : List OpenedPfring) × (r.0 ≡ first ∷ others)
        × IsTold (policy_for []) first
        × All (IsTold (pos 0)) others)
      (open_each_pfring pfring default_options 256
        (zero_device ∷ zero_device ∷ [])
        (record { rules = []; filter_policy = negsuc 0 }))
open_each_pfring-policies_example =
    open_each_pfring-policies pfring default_options 256 (omega arith) zero_device
      (zero_device ∷ []) (record { rules = []; filter_policy = negsuc 0 }) (omega arith)
