-- ===== src/Probe/Fits.antt =====
-- Runs of the probe: the lengths of the records that are sent.
use impd4e.Common.{
  ℕ, zero, suc, List, [], ◌∷◌, Bool, true, map, ◌==◌, ◌≡◌, inl, inr, refl, sym, subst, arith,
  Option-cases, Outcome, ok, overread, ◌>>=◌, get_elem?, Ensures, returns, faults, Ensures-bind,
  Ensures-ok, All,
}
use impd4e.Range.{Text}
use impd4e.Hash.{Machine}
use impd4e.Templates.{ExportField}
use impd4e.Device.{Device}
use impd4e.Packet.Fields.{Field, packet_fields-lengths, field_lengths}
use impd4e.Packet.Handler.{Effect, export_array, export_flush, handle_packet}
use impd4e.Packet.Handler.Post.{handle_packet-Keeps, IsPacketRecord}
use impd4e.Export.{
  Sampler, export_timer_sampling_cb, export_timer_stats_cb, export_timer_location_cb,
  sample_devices, milliseconds,
}
use impd4e.Export.Fits.{
  fits, field_fits, AllFit, AllFit-append, IsShort, LocationIsShort,
  export_data_interface_stats-AllFit, SendsOnly, export_data_probe_stats-AllFit,
  export_data_location-AllFit,
}
use impd4e.Netcon.{run_callbacks, connection_read, strip_cntrl, strncpy}
use impd4e.Config.{runtime_configuration_cb, Reply, answer_of}
use impd4e.Config.Commands.{Outside, Configured}
use impd4e.Config.Lengths.{answer_of-IsShort}
use impd4e.Config.Answers.{IsAnswer, runtime_configuration_cb-IsAnswer}
use impd4e.Config.Replies.{send_response-AnswersTo}
use impd4e.Probe.{
  Event, packet_event, sampling_event, pktid_event, stats_event, location_event, message_event,
  Stepped, config_callback, step, run,
}
use impd4e.Probe.Invariant.{after_callback}

-- The names that an event brings are shorter than 65536 bytes.
abbrev pub HasShortNames : Event → Type 0
HasShortNames (packet_event i packet ts) = Unit
HasShortNames (sampling_event sampler now) = (j : ℕ) → IsShort (sampler.identity j).device_name
HasShortNames pktid_event = Unit
HasShortNames (stats_event accepted stat now) = Unit
HasShortNames (location_event accepted location now) = LocationIsShort location
HasShortNames (message_event accepted time in_buf) = Unit

fits-lengths :
    (template : List ExportField) (fields : List Field)
    → map (λ e. ExportField.length e) template ≡ field_lengths fields
    → fits template fields ≡ true
unfolding fits field_fits
fits-lengths [] [] e = refl
fits-lengths [] (f ∷ fields) e = absurd (cc)
fits-lengths (t ∷ template) [] e = absurd (cc)
fits-lengths (t ∷ template) (f ∷ fields) e =
    let same : t.length ≡ f.length = cc in
    let same_test : (t.length == f.length) ≡ true = ground arith in
    rw same_test (fits-lengths template fields (cc))

packet_records-AllFit : (effects : List Effect) → All IsPacketRecord effects → AllFit effects
packet_records-AllFit [] h = tt
packet_records-AllFit (export_array template fs ∷ effects) ((t_id, s, e, e'), h) =
    let lengths : ok (map (λ f. ExportField.length f) template) ≡ ok (field_lengths fs) =
      subst
        (λ m.
          (do template ← m; ok (map (λ f. ExportField.length f) template)) ≡ ok (field_lengths fs))
        e (packet_fields-lengths t_id s e') in
    (fits-lengths template fs (cc), packet_records-AllFit effects h)
packet_records-AllFit (export_flush ∷ effects) (tt, h) = (tt, packet_records-AllFit effects h)

abbrev Fitting : Stepped → Type 0
Fitting r = AllFit r.1

-- What returns for certain ensures what it returns.
SendsOnly-Ensures :
    {m : Outcome (List Effect)} (c : Configured)
    → SendsOnly m
    → Ensures Fitting (do effects ← m; ok (c, effects))
SendsOnly-Ensures c (effects, e, fit) =
    subst (λ m. Ensures Fitting (do effects ← m; ok (c, effects))) (sym e)
      (returns (c, effects) fit)

sample_devices-Ensures :
    (sampler : Sampler) (time i n : ℕ) (devices : List Device)
    → ((j : ℕ) → IsShort (sampler.identity j).device_name)
    → Ensures (λ r. AllFit r.1) (sample_devices sampler time i n devices)
unfolding sample_devices
sample_devices-Ensures sampler time i zero devices short = returns _ tt
sample_devices-Ensures sampler time i (suc n) [] short = faults overread
sample_devices-Ensures sampler time i (suc n) (dev ∷ devices) short =
    let (here, e, fit) =
      export_data_interface_stats-AllFit (sampler.accepted i) (sampler.identity i) (sampler.live i)
        time dev.sampling_size dev.sampling_delta_count dev (short i) in
    rw e (
      Ensures-bind (sample_devices sampler time (suc i) n devices) _ (λ rest e'. returns _ (
        AllFit-append here.1 rest.1 fit
          (Ensures-ok (sample_devices-Ensures sampler time (suc i) n devices short) e'))))

sampling_timer-Ensures :
    (sampler : Sampler) (now n : ℕ) (devices : List Device)
    → ((j : ℕ) → IsShort (sampler.identity j).device_name)
    → Ensures (λ r. AllFit r.1) (export_timer_sampling_cb sampler now n devices)
unfolding export_timer_sampling_cb
sampling_timer-Ensures sampler now n devices short =
    Ensures-bind (sample_devices sampler (milliseconds now) 0 n devices) _ (λ r e.
      let fit =
        Ensures-ok (sample_devices-Ensures sampler (milliseconds now) 0 n devices short) e in
      returns _ (AllFit-append r.1 (export_flush ∷ []) fit (tt, tt)))

module _ (machine : Machine) (outside : Outside) where
  answer-AllFit :
      (accepted : ℕ → Bool) (time : ℕ) (c : Configured) (reply : Reply)
      → IsAnswer outside accepted time c reply
      → AllFit reply.effects
  answer-AllFit accepted time c reply (inl (same, none_sent)) = rw none_sent tt
  answer-AllFit accepted time c reply (inr (f, value, mid, same, sends)) =
      let answer = answer_of outside f value c in
      let (effects, e, counts) =
        send_response-AnswersTo accepted time mid answer.1 0 answer.0.settings.number_interfaces
          (answer_of-IsShort outside f value c) in
      subst (λ es. AllFit es) (same_effects (sym e) sends) counts.0
    where
      same_effects :
          {m : Outcome (List Effect)} {xs ys : List Effect} → ok xs ≡ m → m ≡ ok ys → xs ≡ ys
      same_effects h k = cc

  message_event-AllFit :
      (accepted : ℕ → Bool) (time : ℕ) (in_buf : Text) (c : Configured)
      → Ensures Fitting (step machine outside (message_event accepted time in_buf) c)
  unfolding step config_callback connection_read run_callbacks
  message_event-AllFit accepted time in_buf c = elim (Option-cases (strip_cntrl (strncpy in_buf))) [
    | inl blank ↦ rw (blank, step) (faults overread)
    | inr (msg, kept) ↦
        rw (kept, step)
          (after_callback machine outside (
            Ensures-bind (runtime_configuration_cb outside accepted time msg c) _ (λ reply e.
              returns _ (
                answer-AllFit accepted time c reply
                  (Ensures-ok (runtime_configuration_cb-IsAnswer outside accepted time msg c) e)))))
  ]

  step-AllFit :
      (event : Event) (c : Configured)
      → HasShortNames event
      → Ensures Fitting (step machine outside event c)
  unfolding step export_timer_sampling_cb export_timer_stats_cb export_timer_location_cb
  step-AllFit (packet_event i packet ts) c short =
      elim (Option-cases (get_elem? c.settings.devices i)) [
        | inl absent ↦ rw (absent, step) (faults overread)
        | inr (dev, there) ↦
            rw (there, step)
              (Ensures-bind (handle_packet machine c.settings.options packet ts dev) _ (λ r e.
                returns _ (
                  packet_records-AllFit r.1
                    (Ensures-ok (handle_packet-Keeps machine c.settings.options packet ts dev)
                      e).2)))
      ]
  step-AllFit (sampling_event sampler now) c short =
      Ensures-bind
        (export_timer_sampling_cb sampler now c.settings.number_interfaces c.settings.devices) _
        (λ r e. returns _ (
          Ensures-ok
            (sampling_timer-Ensures sampler now c.settings.number_interfaces c.settings.devices
              short)
            e))
  step-AllFit pktid_event c short = returns _ (tt, tt)
  step-AllFit (stats_event accepted stat now) c short =
      SendsOnly-Ensures c (export_data_probe_stats-AllFit accepted stat (milliseconds now))
  step-AllFit (location_event accepted location now) c short =
      SendsOnly-Ensures c (export_data_location-AllFit accepted location (milliseconds now) short)
  step-AllFit (message_event accepted time in_buf) c short =
      message_event-AllFit accepted time in_buf c

  run-Ensures :
      (events : List Event) (c : Configured)
      → All HasShortNames events
      → Ensures Fitting (run machine outside events c)
  unfolding run
  run-Ensures [] c short = returns _ tt
  run-Ensures (event ∷ events) c (short, shorts) =
      Ensures-bind (step machine outside event c) _ (λ here e.
        Ensures-bind (run machine outside events here.0) _ (λ rest e'. returns _ (
          AllFit-append here.1 rest.1 (Ensures-ok (step-AllFit event c short) e)
            (Ensures-ok (run-Ensures events here.0 shorts) e'))))

  -- Over every sequence of packets, timers and messages that leads to no memory fault, every record
  -- that the probe sends has the fields of its template: as many, the numbers of the length that the template
  -- gives, the strings of the length that the record gives. The names of interfaces and places are
  -- shorter than 65536 bytes.
  pub run-AllFit :
      (events : List Event) (c : Configured) {r : Stepped}
      → All HasShortNames events
      → run machine outside events c ≡ ok r
      → AllFit r.1
  run-AllFit events c {r} short e = Ensures-ok (run-Ensures events c short) e
