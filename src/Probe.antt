-- ===== src/Probe.antt =====
-- The running probe: what the event loop of src/main.c calls, one callback after the other, on the state
-- that the parts share. A packet reaches handle_packet for its interface; the timers are those of
-- src/export_handler.c; a message of the collector passes connection_read of src/netcon.c to the
-- one callback that src/config_handler.c registers.
pub mod Silent
pub mod Devices
pub mod Invariant
pub mod Fits
use impd4e.Common.{ℕ, List, [], ◌∷◌, ◌++◌, Bool, get_elem?, Outcome, ok, or_overread, ◌>>=◌}
use impd4e.Range.{Text}
use impd4e.Memory.{Packet}
use impd4e.Hash.{Machine}
use impd4e.Device.{Device}
use impd4e.Packet.{Timeval}
use impd4e.Packet.Handler.{Effect, handle_packet}
use impd4e.Settings.{update}
use impd4e.Export.{
  Sampler, ProbeStat, Location, export_timer_sampling_cb, export_timer_pktid_cb,
  export_timer_stats_cb, export_timer_location_cb,
}
use impd4e.Netcon.{Callback, connection_read, netcon_register}
use impd4e.Config.{runtime_configuration_cb}
use impd4e.Config.Commands.{Outside, Configured}

-- `packet_event` names the interface by its index. The numbers are the time, in seconds for a timer and in
-- milliseconds for a message.
pub data Event : Type 0 where
  packet_event : ℕ → Packet → Timeval → Event
  sampling_event : Sampler → ℕ → Event
  pktid_event : Event
  stats_event : Bool → ProbeStat → ℕ → Event
  location_event : Bool → Location → ℕ → Event
  message_event : (ℕ → Bool) → ℕ → Text → Event

abbrev pub Stepped : Type 0
Stepped = Configured × List Effect

abbrev pub with_devices : List Device → Configured → Configured
with_devices devices c = record c { settings = record c.settings { devices = devices } }

-- The callback that config_handler_init registers; what it sends comes behind what was sent.
pub config_callback : Outside → (ℕ → Bool) → ℕ → Callback Stepped
config_callback outside accepted time msg s = do
  reply ← runtime_configuration_cb outside accepted time msg s.0
  ok (reply.matched, (reply.configured, s.1 ++ reply.effects))

unfoldable pub step : Machine → Outside → Event → Configured → Outcome Stepped
unfolding config_callback netcon_register
step machine outside (packet_event i packet ts) c = do
  dev ← or_overread (get_elem? c.settings.devices i)
  r ← handle_packet machine c.settings.options packet ts dev
  ok (with_devices (update i (λ d. r.0) c.settings.devices) c, r.1)
step machine outside (sampling_event sampler now) c = do
  r ← export_timer_sampling_cb sampler now c.settings.number_interfaces c.settings.devices
  ok (with_devices r.0 c, r.1)
step machine outside pktid_event c = ok (c, export_timer_pktid_cb)
step machine outside (stats_event accepted stat now) c = do
  effects ← export_timer_stats_cb accepted stat now
  ok (c, effects)
step machine outside (location_event accepted location now) c = do
  effects ← export_timer_location_cb accepted location now
  ok (c, effects)
step machine outside (message_event accepted time in_buf) c = do
  r ← connection_read (config_callback outside accepted time ∷ []) in_buf (c, [])
  ok r.1

unfoldable pub run : Machine → Outside → List Event → Configured → Outcome Stepped
run machine outside [] c = ok (c, [])
run machine outside (event ∷ events) c = do
  here ← step machine outside event c
  rest ← run machine outside events here.0
  ok (rest.0, here.1 ++ rest.1)
