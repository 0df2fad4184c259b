-- ===== src/Config/Keeps.antt =====
-- The commands and the validity of the settings: their hash range and their templates.
use impd4e.Common.{
  pos, refl, Ensures, returns, faults, Ensures-bind, Ensures-ok, ℕ, zero, suc, ◌<◌, List, [], ◌∷◌,
  Option, none, some, Option-cases, u32, get_elem?, ◌≡◌, inl, inr, arith,
}
use impd4e.Range.{Text}
use impd4e.Device.{Device, no_template}
use impd4e.Packet.Handler.Counters.{chosen_template}
use impd4e.Settings.Names.{parse_template}
use impd4e.Settings.Sampling.{
  set_sampling_lowerbound-IsRange, set_sampling_upperbound-IsRange, set_sampling_ratio-IsRange,
}
use impd4e.Settings.Invariant.{
  IsValid, parse_template-IsPacketTemplate, set_sampling_lowerbound-template,
  set_sampling_upperbound-template, set_sampling_ratio-template,
}
use impd4e.Config.{
  ConfigFunction, Command, help, set_ratio, set_min_selection, set_max_selection, set_filter,
  set_template, set_export_to_pktid, set_export_to_probestats, set_export_to_ifstats, answer_of,
  run_command, get_cfg_fct,
}
use impd4e.Config.Commands.{
  Outside, Configured, Answered, configuration_set_template, filter_answer,
  configuration_set_filter, set_all_filter, set_filter_on, configuration_set_export_to_probestats,
  configuration_set_export_to_ifstats, configuration_set_export_to_pktid,
  configuration_set_min_selection, configuration_set_max_selection, configuration_set_ratio,
  reset_templates,
}

get_elem?-reset_templates :
    (n i : ℕ) (devices : List Device) {dev : Device}
    → i < n
    → get_elem? (reset_templates n devices) i ≡ some dev
    → dev.template_id ≡ no_template
unfolding reset_templates
get_elem?-reset_templates zero i devices lt e = absurd (omega arith)
get_elem?-reset_templates (suc n) i [] lt e = absurd (cc)
get_elem?-reset_templates (suc n) zero (d ∷ devices) lt e = ground arith
get_elem?-reset_templates (suc n) (suc i) (d ∷ devices) lt e =
    get_elem?-reset_templates n i devices (omega arith) e

-- The invariant of the settings, on the state of a running probe.
abbrev pub KeepsValid : Configured → Type 0
KeepsValid c = IsValid c.settings

configuration_set_template-IsValid :
    (msg : Text) (c : Configured) → KeepsValid c → KeepsValid (configuration_set_template msg c).0
unfolding configuration_set_template
configuration_set_template-IsValid msg c (range, template, own) =
    elim (Option-cases (parse_template msg)) [
      | inl unknown ↦ rw (unknown, configuration_set_template) (range, template, own)
      | inr (id, known) ↦
          rw (known, configuration_set_template)
            (
              range,
              parse_template-IsPacketTemplate msg known,
              λ i dev lt e. inl (
                  get_elem?-reset_templates c.settings.number_interfaces i c.settings.devices lt e),
            )
    ]

configuration_set_min_selection-IsValid :
    (outside : Outside) (msg : Text) (c : Configured)
    → KeepsValid c
    → KeepsValid (configuration_set_min_selection outside msg c).0
unfolding configuration_set_min_selection
configuration_set_min_selection-IsValid outside msg c (range, template, own) = (
  set_sampling_lowerbound-IsRange (outside.strtoll msg) c.settings.options range,
  rw (set_sampling_lowerbound-template (outside.strtoll msg) c.settings.options) template,
  own,
)

configuration_set_max_selection-IsValid :
    (outside : Outside) (msg : Text) (c : Configured)
    → KeepsValid c
    → KeepsValid (configuration_set_max_selection outside msg c).0
unfolding configuration_set_max_selection
configuration_set_max_selection-IsValid outside msg c (range, template, own) = (
  set_sampling_upperbound-IsRange (outside.strtoll msg) c.settings.options range,
  rw (set_sampling_upperbound-template (outside.strtoll msg) c.settings.options) template,
  own,
)

configuration_set_ratio-IsValid :
    (outside : Outside) (msg : Text) (c : Configured)
    → KeepsValid c
    → KeepsValid (configuration_set_ratio outside msg c).0
unfolding configuration_set_ratio
configuration_set_ratio-IsValid outside msg c (range, template, own) = (
  (set_sampling_ratio-IsRange (u32 (outside.share msg)) c.settings.options (omega arith)).0,
  rw (set_sampling_ratio-template (u32 (outside.share msg)) c.settings.options) template,
  own,
)

abbrev SameSettings : Configured → Answered → Type 0
SameSettings c answer = answer.0.settings ≡ c.settings

timeout-IsValid :
    (c : Configured) (answer : Answered)
    → SameSettings c answer
    → KeepsValid c
    → KeepsValid answer.0
timeout-IsValid c answer same h = rw same h

configuration_set_export_to_pktid-same :
    (outside : Outside) (msg : Text) (c : Configured)
    → SameSettings c (configuration_set_export_to_pktid outside msg c)
unfolding configuration_set_export_to_pktid
configuration_set_export_to_pktid-same outside msg c = ground arith

configuration_set_export_to_probestats-same :
    (outside : Outside) (msg : Text) (c : Configured)
    → SameSettings c (configuration_set_export_to_probestats outside msg c)
unfolding configuration_set_export_to_probestats
configuration_set_export_to_probestats-same outside msg c = ground arith

configuration_set_export_to_ifstats-same :
    (outside : Outside) (msg : Text) (c : Configured)
    → SameSettings c (configuration_set_export_to_ifstats outside msg c)
unfolding configuration_set_export_to_ifstats
configuration_set_export_to_ifstats-same outside msg c = ground arith

set_all_filter-none :
    (n : ℕ) (devices : List Device) → Ensures (λ r. r ≡ pos 0) (set_all_filter n devices)
unfolding set_all_filter
set_all_filter-none zero devices = returns _ refl
set_all_filter-none (suc n) [] = faults _
set_all_filter-none (suc n) (dev ∷ devices) =
    Ensures-bind (set_filter_on dev.device_type) _ (λ r e. set_all_filter-none n devices)

-- A command that returns leaves and answers what it should.
pub run_command-answer_of :
    (outside : Outside) (f : Option ConfigFunction) (msg : Text) (c : Configured)
    → Ensures (λ a. a ≡ answer_of outside f msg c) (run_command outside f msg c)
unfolding run_command answer_of configuration_set_filter
run_command-answer_of outside none msg c = returns _ refl
run_command-answer_of outside (some f) msg c = by_command f.fct
  where
    by_command :
        (command : Command)
        → Ensures
            (λ a. a ≡ answer_of outside (some (record f { fct = command })) msg c)
            (run_command outside (some (record f { fct = command })) msg c)
    by_command help = returns _ refl
    by_command set_ratio = returns _ refl
    by_command set_min_selection = returns _ refl
    by_command set_max_selection = returns _ refl
    by_command set_filter =
        Ensures-bind (set_all_filter c.settings.number_interfaces c.settings.devices) _ (λ r e.
          let zero_returned = Ensures-ok (set_all_filter-none _ c.settings.devices) e in
          rw zero_returned (returns _ refl))
    by_command set_template = returns _ refl
    by_command set_export_to_pktid = returns _ refl
    by_command set_export_to_probestats = returns _ refl
    by_command set_export_to_ifstats = returns _ refl

pub answer_of-IsValid :
    (outside : Outside) (f : Option ConfigFunction) (msg : Text) (c : Configured)
    → KeepsValid c
    → KeepsValid (answer_of outside f msg c).0
unfolding answer_of filter_answer
answer_of-IsValid outside none msg c h = h
answer_of-IsValid outside (some f) msg c h = by_command f.fct
  where
    by_command :
        (command : Command)
        → KeepsValid (answer_of outside (some (record f { fct = command })) msg c).0
    by_command help = h
    by_command set_ratio = configuration_set_ratio-IsValid outside msg c h
    by_command set_min_selection = configuration_set_min_selection-IsValid outside msg c h
    by_command set_max_selection = configuration_set_max_selection-IsValid outside msg c h
    by_command set_filter = h
    by_command set_template = configuration_set_template-IsValid msg c h
    by_command set_export_to_pktid = rw (configuration_set_export_to_pktid-same outside msg c) h
    by_command set_export_to_probestats =
        rw (configuration_set_export_to_probestats-same outside msg c) h
    by_command set_export_to_ifstats = rw (configuration_set_export_to_ifstats-same outside msg c) h

-- The command -t with the name of a template makes it the one that every configured interface uses,
-- whatever template the interface had of its own; the hash range stays as it is.
answer_of-template :
    (outside : Outside) (msg : Text) (c : Configured) (i : ℕ) {id : ℕ} {dev : Device}
    → parse_template msg ≡ some id
    → let after = (answer_of outside (get_cfg_fct b't') msg c).0.settings in
      i < after.number_interfaces
      → get_elem? after.devices i ≡ some dev
      → (chosen_template after.options dev ≡ id)
        × (after.options.sel_range_min ≡ c.settings.options.sel_range_min)
        × (after.options.sel_range_max ≡ c.settings.options.sel_range_max)
unfolding answer_of get_cfg_fct
answer_of-template outside msg c i {id} {dev} known lt e =
    ground (
      arith,
      get_elem?-reset_templates c.settings.number_interfaces i c.settings.devices {dev = dev},
    )
