-- ===== src/Probe/Invariant.antt =====
-- Runs of the probe: the counts of packets, and the validity of the settings.
use impd4e.Common.{
  ℕ, suc, ◌+◌, List, [], ◌∷◌, Bool, true, false, if◌then◌else◌, ◌≡◌, inl, inr, refl, arith,
  Option-cases, Outcome, ok, overread, ◌>>=◌, u64, get_elem?, Ensures, returns, faults,
  Ensures-bind, Ensures-ok,
}
use impd4e.Range.{Text}
use impd4e.Memory.{Packet}
use impd4e.Hash.{Machine}
use impd4e.Packet.{Timeval}
use impd4e.Packet.Handler.{Effect, handle_packet, export_flush}
use impd4e.Packet.Handler.Post.{handle_packet-Keeps}
use impd4e.Settings.{update}
use impd4e.Export.{
  Sampler, export_timer_sampling_cb, export_timer_stats_cb, export_timer_location_cb, milliseconds,
}
use impd4e.Export.Reports.{reported, reported-append, pending, export_timer_sampling_cb-Reports}
use impd4e.Netcon.{run_callbacks, connection_read, strip_cntrl, strncpy}
use impd4e.Config.{runtime_configuration_cb, Reply, answer_of}
use impd4e.Config.Commands.{Outside, Configured}
use impd4e.Config.Keeps.{KeepsValid, answer_of-IsValid}
use impd4e.Config.Answers.{IsAnswer, runtime_configuration_cb-IsAnswer}
use impd4e.Probe.{
  Event, packet_event, sampling_event, pktid_event, stats_event, location_event, message_event,
  Stepped, config_callback, step, run,
}
use impd4e.Probe.Silent.{
  packet_records-reported, export_data_probe_stats-IsSilent, export_data_location-IsSilent,
  send_response-IsSilent, answer_of-pending,
}
use impd4e.Probe.Devices.{SameTemplates-HasTemplates, update-SameTemplates}

-- The packets among the events.
pub packets : List Event → ℕ
packets [] = 0
packets (packet_event i packet ts ∷ events) = suc (packets events)
packets (sampling_event sampler now ∷ events) = packets events
packets (pktid_event ∷ events) = packets events
packets (stats_event accepted stat now ∷ events) = packets events
packets (location_event accepted location now ∷ events) = packets events
packets (message_event accepted time in_buf ∷ events) = packets events

-- After `n` packets: reported and pending packets are those that were pending and these, modulo 2^64, and valid settings
-- are still valid.
abbrev pub Counts : ℕ → Configured → Stepped → Type 0
Counts n c r =
    (u64 (reported r.1 + pending r.0.settings.devices) ≡ u64 (pending c.settings.devices + n))
    × (KeepsValid c → KeepsValid r.0)

module _ (machine : Machine) (outside : Outside) where
  packet_event-Counts :
      (i : ℕ) (packet : Packet) (ts : Timeval) (c : Configured)
      → Ensures (Counts 1 c) (step machine outside (packet_event i packet ts) c)
  unfolding step
  packet_event-Counts i packet ts c = elim (Option-cases (get_elem? c.settings.devices i)) [
    | inl absent ↦ rw (absent, step) (faults overread)
    | inr (dev, there) ↦
        rw (there, step)
          (Ensures-bind (handle_packet machine c.settings.options packet ts dev) _ (λ r e.
            let (counted, same, records) =
              Ensures-ok (handle_packet-Keeps machine c.settings.options packet ts dev) e in
            let (sames, sum) = update-SameTemplates i r.0 c.settings.devices there same in
            let silent = packet_records-reported r.1 records in
            returns _ (
              omega (arith, silent, counted, sum),
              λ (range, template, own). (
                range,
                template,
                SameTemplates-HasTemplates c.settings.devices
                    (update i (λ d. r.0) c.settings.devices) c.settings.number_interfaces sames own,
              ),
            )))
  ]

  sampling_event-Counts :
      (sampler : Sampler) (now : ℕ) (c : Configured)
      → Ensures (Counts 0 c) (step machine outside (sampling_event sampler now) c)
  unfolding step
  sampling_event-Counts sampler now c =
      Ensures-bind
        (export_timer_sampling_cb sampler now c.settings.number_interfaces c.settings.devices) _
        (λ r e.
          let (same, sum) =
            Ensures-ok
              (export_timer_sampling_cb-Reports sampler now c.settings.number_interfaces
                c.settings.devices)
              e in
          returns _ (
            omega (arith, sum),
            λ (range, template, own). (
              range,
              template,
              SameTemplates-HasTemplates c.settings.devices r.0 c.settings.number_interfaces same
                  own,
            ),
          ))

  -- A callback that sends no packet counts and leaves the devices as they are.
  silent-Counts :
      (effects : List Effect) (c : Configured) → reported effects ≡ 0 → Counts 0 c (c, effects)
  silent-Counts effects c silent = (omega (arith, silent), λ h. h)

  answer-Counts :
      (accepted : ℕ → Bool) (time : ℕ) (c : Configured) (reply : Reply)
      → IsAnswer outside accepted time c reply
      → Counts 0 c (reply.configured, reply.effects)
  unfolding reported
  answer-Counts accepted time c reply (inl (same, none_sent)) =
      (rw same (rw none_sent (omega arith)), λ h. rw same h)
  answer-Counts accepted time c reply (inr (f, value, mid, same, sends)) =
      let answer = answer_of outside f value c in
      let silent =
        Ensures-ok
          (send_response-IsSilent accepted time mid answer.1 0 answer.0.settings.number_interfaces)
          sends in
      (
        rw same (omega (arith, silent, answer_of-pending outside f value c)),
        λ h. rw same (answer_of-IsValid outside f value c h),
      )

  -- The end of connection_read with one callback, and of the step.
  pub after_callback :
      {P : Stepped → Type 0} {m : Outcome (Bool × Stepped)}
      → Ensures (λ r. P r.1) m
      → Ensures P (do r ← (do r ← m; if r.0 then ok r else ok (false, r.1)); ok r.1)
  after_callback (returns (true, s) p) = returns s p
  after_callback (returns (false, s) p) = returns s p
  after_callback (faults why) = faults why

  message_event-Counts :
      (accepted : ℕ → Bool) (time : ℕ) (in_buf : Text) (c : Configured)
      → Ensures (Counts 0 c) (step machine outside (message_event accepted time in_buf) c)
  unfolding step config_callback connection_read run_callbacks
  message_event-Counts accepted time in_buf c = elim (Option-cases (strip_cntrl (strncpy in_buf))) [
    | inl blank ↦ rw (blank, step) (faults overread)
    | inr (msg, kept) ↦
        rw (kept, step)
          (after_callback (
            Ensures-bind (runtime_configuration_cb outside accepted time msg c) _ (λ reply e.
              returns _ (
                answer-Counts accepted time c reply
                  (Ensures-ok (runtime_configuration_cb-IsAnswer outside accepted time msg c) e)))))
  ]

  step-Counts :
      (event : Event) (c : Configured)
      → Ensures (Counts (packets (event ∷ [])) c) (step machine outside event c)
  unfolding step packets reported export_timer_stats_cb export_timer_location_cb
  step-Counts (packet_event i packet ts) c = packet_event-Counts i packet ts c
  step-Counts (sampling_event sampler now) c = sampling_event-Counts sampler now c
  step-Counts pktid_event c = returns _ (silent-Counts (export_flush ∷ []) c refl)
  step-Counts (stats_event accepted stat now) c =
      Ensures-bind (export_timer_stats_cb accepted stat now) _ (λ effects e. returns _ (
        silent-Counts effects c
          (Ensures-ok (export_data_probe_stats-IsSilent accepted stat (milliseconds now)) e)))
  step-Counts (location_event accepted location now) c =
      Ensures-bind (export_timer_location_cb accepted location now) _ (λ effects e. returns _ (
        silent-Counts effects c
          (Ensures-ok (export_data_location-IsSilent accepted location (milliseconds now)) e)))
  step-Counts (message_event accepted time in_buf) c = message_event-Counts accepted time in_buf c

  packets-cons :
      (event : Event) (events : List Event)
      → packets (event ∷ events) ≡ packets (event ∷ []) + packets events
  unfolding packets
  packets-cons (packet_event i packet ts) events = omega arith
  packets-cons (sampling_event sampler now) events = omega arith
  packets-cons pktid_event events = omega arith
  packets-cons (stats_event accepted stat now) events = omega arith
  packets-cons (location_event accepted location now) events = omega arith
  packets-cons (message_event accepted time in_buf) events = omega arith

  run-Ensures :
      (events : List Event) (c : Configured)
      → Ensures (Counts (packets events) c) (run machine outside events c)
  unfolding run packets reported
  run-Ensures [] c = returns _ (silent-Counts [] c refl)
  run-Ensures (event ∷ events) c = Ensures-bind (step machine outside event c) _ (λ here e.
      Ensures-bind (run machine outside events here.0) _ (λ rest e'.
        let (now, valid) = Ensures-ok (step-Counts event c) e in
        let (later, valid') = Ensures-ok (run-Ensures events here.0) e' in
        returns _ (
          omega (arith, now, later, packets-cons event events, reported-append here.1 rest.1),
          λ h. valid' (valid h),
        )))

  -- Over every sequence of packets, timers and messages that leads to no memory fault, each packet is counted once: the
  -- packetDeltaCount fields of all records that libipfix took, and what the interfaces have not
  -- reported yet, are together the packets handled and what was pending before, modulo 2^64,
  -- whichever records libipfix refuses and whichever commands come in between. If the hash range and the templates were
  -- valid before, they are valid after.
  pub run-Counts :
      (events : List Event) (c : Configured) {r : Stepped}
      → run machine outside events c ≡ ok r
      → Counts (packets events) c r
  run-Counts events c {r} e = Ensures-ok (run-Ensures events c) e
