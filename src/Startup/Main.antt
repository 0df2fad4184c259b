-- ===== src/Startup/Main.antt =====
-- main of src/main.c: the options, the probe's name, the interfaces, the observation domain, the set-up of libipfix by
-- src/ipfix_handler.c, the event loop as a run of its events, and impd4e_shutdown.
--
-- event_loop_init and the init functions of the handlers register watchers; here the events say which of them
-- are called. The loop ends where the events end, which is what sigint_cb brings about.
use impd4e.Common.{
  ℕ, zero, suc, List, [], ◌∷◌, ◌++◌, Bool, true, false, if◌then◌else◌, ◌==◌, Option, none, some, ℤ,
  pos, overread, to_u32,
}
use impd4e.Range.{Text}
use impd4e.Hash.{Machine}
use impd4e.Device.{Device, Options}
use impd4e.Templates.{
  mint_id, ts_id, ts_ttl_proto_id, ts_ttl_proto_ip_id, intf_stats_id, probe_stats_id, sync_id,
  location_id,
}
use impd4e.Packet.Handler.{Effect, export_flush}
use impd4e.Settings.Others.{Others}
use impd4e.Config.Commands.{Outside, Configured, Timers}
use impd4e.Probe.{Event, run}
use impd4e.Startup.{Program, goes_on, exits, crashes, of_outcome, ◌>>=◌}
use impd4e.Startup.Arguments.{Readers, initial_parsed, parse_cmdline_v2}
use impd4e.Startup.Open.{System, Interface, open_device}

-- libipfix: whether each call works; a template is named by its id.
pub record Ipfix : Type 0 where
  pub ipfix_init : Bool
  pub ipfix_add_vendor_information_elements : Bool
  pub ipfix_open : ℕ → Bool
  pub ipfix_make_template : ℕ → Bool
  pub ipfix_add_collector : Text → ℤ → Bool

-- A failing call ends the program with EXIT_FAILURE.
unfoldable pub or_failure : Bool → Program Bool
or_failure true = goes_on true
or_failure false = exits (pos 1)

-- The handle is NULL at the start.
unfoldable pub libipfix_init : Ipfix → ℕ → Program Bool
unfolding or_failure
libipfix_init ipfix observation_id = do
  inited ← or_failure ipfix.ipfix_init
  added ← or_failure ipfix.ipfix_add_vendor_information_elements
  or_failure (ipfix.ipfix_open observation_id)

-- The templates that are made, in order.
unfoldable pub make_templates : Ipfix → List ℕ → Program (List ℕ)
unfolding or_failure
make_templates ipfix [] = goes_on []
make_templates ipfix (id ∷ ids) = do
  made ← or_failure (ipfix.ipfix_make_template id)
  rest ← make_templates ipfix ids
  goes_on (id ∷ rest)

abbrev pub registered_order : List ℕ
registered_order =
    mint_id ∷ ts_id ∷ ts_ttl_proto_id ∷ ts_ttl_proto_ip_id ∷ intf_stats_id ∷ probe_stats_id
    ∷ sync_id ∷ location_id ∷ []

unfoldable pub libipfix_register_templates : Ipfix → Program (List ℕ)
unfolding make_templates
libipfix_register_templates ipfix = make_templates ipfix registered_order

-- An error is only logged; the answer is whether there is a collector.
unfoldable pub libipfix_connect : Ipfix → Others → Bool
libipfix_connect ipfix others = ipfix.ipfix_add_collector others.collector_ip others.collector_port

-- gethostname is given the size of a pointer, not that of the buffer.
unfoldable pub host_name : System → Option Text → Text
host_name sys (some name) = name
host_name sys none = elim (sys.gethostname 8) [ some name ↦ name | none ↦ [] ]

abbrev pub not_open : Device → Interface
not_open dev = record {
  device = dev;
  ipv4_address = 0;
  dispatch = none;
  watched = none;
  filtered = false;
  nonblocking = false;
  last_export_time = record { tv_sec = 0; tv_usec = 0 };
}

-- The loop over the first `n` interfaces: they, and all devices.
unfoldable pub open_devices :
    System → Options → Others → ℕ → List Device → Program (List Interface × List Device)
open_devices sys options others zero devices = goes_on ([], devices)
open_devices sys options others (suc n) [] = crashes overread
open_devices sys options others (suc n) (dev ∷ devices) = do
  here ← open_device sys options others (not_open dev)
  rest ← open_devices sys options others n devices
  goes_on (here ∷ rest.0, here.device ∷ rest.1)

-- ipAddress and observationDomainID, an int in the options and a uint32_t.
unfoldable pub domain_id : System → ℕ → List Interface → ℕ
domain_id sys given [] = given
domain_id sys given (first ∷ interfaces) =
    if given == 0 then sys.ntohl first.ipv4_address else given

-- What the event loop starts with.
pub record Started : Type 0 where
  pub configured : Configured
  pub interfaces : List Interface
  pub observation_domain_id : ℕ
  pub probe_name : Text
  pub registered : List ℕ
  pub has_collector : Bool

-- `timers` are the intervals of the options as numbers.
unfoldable pub start :
    Readers → System → Ipfix → (Others → Timers) → ℕ → List (ℕ × Option Text) → Program Started
unfolding open_devices domain_id host_name libipfix_connect
start io sys ipfix timers fuel arguments = do
  parsed ← parse_cmdline_v2 io fuel arguments initial_parsed
  let settings = parsed.settings
  opened ←
      open_devices sys settings.options parsed.others settings.number_interfaces settings.devices
  let oid = domain_id sys (to_u32 parsed.others.observation_domain_id) opened.0
  inited ← libipfix_init ipfix oid
  made ← libipfix_register_templates ipfix
  goes_on (record {
    configured = record {
      settings = record settings { devices = opened.1 };
      timers = timers parsed.others;
    };
    interfaces = opened.0;
    observation_domain_id = oid;
    probe_name = host_name sys parsed.others.s_probe_name;
    registered = made;
    has_collector = libipfix_connect ipfix parsed.others;
  })

-- The state at the end, and all that was handed to libipfix, the flush of impd4e_shutdown last. Behind it the
-- program exits with 0.
pub record Finished : Type 0 where
  pub started : Started
  pub configured : Configured
  pub effects : List Effect

unfoldable pub main :
    Readers
    → System
    → Ipfix
    → (Others → Timers)
    → Machine
    → Outside
    → ℕ
    → List (ℕ × Option Text)
    → List Event
    → Program Finished
main io sys ipfix timers machine outside fuel arguments events = do
  started ← start io sys ipfix timers fuel arguments
  ended ← of_outcome (run machine outside events started.configured)
  goes_on
      (record { started = started; configured = ended.0; effects = ended.1 ++ (export_flush ∷ []) })
