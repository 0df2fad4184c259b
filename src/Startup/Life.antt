-- ===== src/Startup/Life.antt =====
-- The life of the program from its start to its end: the packet counts and the settings.
use impd4e.Common.{
  ℕ, zero, suc, ◌+◌, List, [], ◌∷◌, Option, inl, inr, Bool-cases, Outcome-cases, u64, overread,
  ◌==◌, ◌≡◌, refl, ap₂, ◌∙◌, arith,
}
use impd4e.Range.{Text}
use impd4e.Hash.{Machine}
use impd4e.Device.{Device, Options, set_defaults_device}
use impd4e.Packet.Handler.{export_flush}
use impd4e.Settings.{
  Settings, Setting, opt_i, opt_t, opt_S, opt_F, opt_m, opt_M, opt_e, opt_N, opt_O, opt_r, opt_I,
  apply_opt_i, apply_opt_t, apply_setting, update, max_interfaces, initial_settings,
}
use impd4e.Settings.Invariant.{IsValid, apply_setting-IsValid, initial_settings-IsValid}
use impd4e.Settings.Others.{Others}
use impd4e.Export.Reports.{reported, reported-append, pending, SameTemplates}
use impd4e.Config.Commands.{Outside, Timers}
use impd4e.Probe.{Event, run}
use impd4e.Probe.Invariant.{packets, run-Counts}
use impd4e.Probe.Devices.{SameTemplates-HasTemplates}
use impd4e.Startup.{Program, goes_on, exits, crashes, Meets, meets, ended, crashed, Meets-bind}
use impd4e.Startup.Arguments.{Readers, initial_parsed, parse_cmdline_v2}
use impd4e.Startup.Valid.{parse_cmdline_v2-Stays}
use impd4e.Startup.Open.{System, Interface, open_device}
use impd4e.Startup.Ready.{IsOpened, open_device-IsOpened}
use impd4e.Startup.Main.{
  Ipfix, libipfix_init, libipfix_register_templates, not_open, open_devices, start, Started, main,
}

update-pending :
    (i : ℕ) (f : Device → Device) (devices : List Device)
    → ((dev : Device) → (f dev).sampling_delta_count ≡ dev.sampling_delta_count)
    → pending (update i f devices) ≡ pending devices
unfolding update pending
update-pending i f [] same = refl
update-pending zero f (dev ∷ devices) same = omega (arith, same dev)
update-pending (suc i) f (dev ∷ devices) same = omega (arith, update-pending i f devices same)

-- No option changes what the devices have counted.
apply_setting-pending :
    (setting : Setting) (s : Settings)
    → pending (apply_setting setting s).devices ≡ pending s.devices
unfolding apply_setting apply_opt_i apply_opt_t set_defaults_device
apply_setting-pending (opt_i arg) s = elim (Bool-cases (s.number_interfaces == max_interfaces)) [
  | inl full ↦ rw full refl
  | inr room ↦ rw room (update-pending s.number_interfaces _ s.devices (λ dev. refl))
]
apply_setting-pending (opt_t arg) s = elim (Bool-cases (s.template_count == max_interfaces)) [
  | inl full ↦ rw full refl
  | inr room ↦ rw room (update-pending s.template_count _ s.devices (λ dev. refl))
]
apply_setting-pending (opt_S arg) s = refl
apply_setting-pending (opt_F arg) s = refl
apply_setting-pending (opt_m value) s = refl
apply_setting-pending (opt_M value) s = refl
apply_setting-pending (opt_r share) s = refl
apply_setting-pending (opt_e value) s = refl
apply_setting-pending (opt_N value) s = refl
apply_setting-pending (opt_O value) s = refl
apply_setting-pending (opt_I positive) s = refl

-- Valid settings, and devices that have counted nothing.
abbrev IsFresh : Settings → Type 0
IsFresh s = IsValid s × (pending s.devices ≡ 0)

apply_setting-IsFresh :
    (setting : Setting) (s : Settings) → IsFresh s → IsFresh (apply_setting setting s)
apply_setting-IsFresh setting s (valid, none_counted) =
    (apply_setting-IsValid setting s valid, apply_setting-pending setting s ∙ none_counted)

initial_settings-pending : pending initial_settings.devices ≡ 0
unfolding pending initial_settings
initial_settings-pending = refl

abbrev Opens : List Device → List Interface × List Device → Type 0
Opens devices r = SameTemplates devices r.1 × (pending r.1 ≡ pending devices)

open_devices-Opens :
    (sys : System) (options : Options) (others : Others) (n : ℕ) (devices : List Device)
    → Meets (Opens devices) (open_devices sys options others n devices)
unfolding open_devices pending IsOpened
open_devices-Opens sys options others zero devices = meets _ (refl, refl)
open_devices-Opens sys options others (suc n) [] = crashed overread
open_devices-Opens sys options others (suc n) (dev ∷ devices) =
    Meets-bind (open_device sys options others (not_open dev)) _
      (open_device-IsOpened sys others (not_open dev) options)
      (λ f opened.
        Meets-bind (open_devices sys options others n devices) _
          (open_devices-Opens sys options others n devices)
          (λ rest (same, counted).
            meets _ (ap₂ ◌∷◌ opened.0.0 same, omega (arith, counted, opened.0.1))))

-- No matter what it is.
Anything : {A : Type 0} → A → Type 0
Anything a = Unit

any : {A : Type 0} (m : Program A) → Meets Anything m
unfolding Anything
any (goes_on a) = meets a tt
any (exits code) = ended code
any (crashes why) = crashed why

flush_silent : reported (export_flush ∷ []) ≡ 0
unfolding reported
flush_silent = refl

-- What the event loop starts with is valid, and has counted nothing.
IsFreshStart : Started → Type 0
IsFreshStart started = IsFresh started.configured.settings

module _ (io : Readers) (sys : System) (ipfix : Ipfix) (timers : Others → Timers) where
  start-IsFreshStart :
      (fuel : ℕ) (arguments : List (ℕ × Option Text))
      → Meets IsFreshStart (start io sys ipfix timers fuel arguments)
  unfolding start IsFreshStart Anything
  start-IsFreshStart fuel arguments =
      Meets-bind (parse_cmdline_v2 io fuel arguments initial_parsed) _
        (parse_cmdline_v2-Stays IsFresh apply_setting-IsFresh io fuel arguments initial_parsed
          (initial_settings-IsValid, initial_settings-pending))
        (λ parsed fresh.
          Meets-bind
            (open_devices sys parsed.settings.options parsed.others
              parsed.settings.number_interfaces parsed.settings.devices)
            _
            (open_devices-Opens sys parsed.settings.options parsed.others
              parsed.settings.number_interfaces parsed.settings.devices)
            (λ opened kept. Meets-bind (libipfix_init ipfix _) _ (any _) (λ inited h.
              Meets-bind (libipfix_register_templates ipfix) _ (any _) (λ made h'. meets _ (
                (
                  fresh.0.0,
                  fresh.0.1,
                  SameTemplates-HasTemplates parsed.settings.devices opened.1
                      parsed.settings.number_interfaces kept.0 fresh.0.2,
                ),
                kept.1 ∙ fresh.1,
              )))))

  -- Whatever the command line and the configuration files are, and whatever packets, timers and messages come: where the program goes
  -- on to its normal end, every packet that was handled is counted once, in a record that libipfix took or in what the interfaces have
  -- still to report, modulo 2^64; and the hash range has its borders in order, and the templates are packet templates, to the end.
  pub main-Counts :
      (machine : Machine) (outside : Outside) (fuel : ℕ) (arguments : List (ℕ × Option Text))
      (events : List Event)
      → Meets
          (λ finished.
            (u64 (reported finished.effects + pending finished.configured.settings.devices)
              ≡ u64 (packets events))
            × IsValid finished.configured.settings)
          (main io sys ipfix timers machine outside fuel arguments events)
  unfolding main IsFreshStart
  main-Counts machine outside fuel arguments events =
      Meets-bind (start io sys ipfix timers fuel arguments) _ (start-IsFreshStart fuel arguments)
        (λ started fresh. elim (Outcome-cases (run machine outside events started.configured)) [
          | inr (why, e) ↦ rw e (crashed why)
          | inl (r, e) ↦
              let (counted, valid) = run-Counts machine outside events started.configured e in
              rw e (
                meets _ (
                  omega (
                    arith,
                    counted,
                    fresh.1,
                    reported-append r.1 (export_flush ∷ []),
                    flush_silent,
                  ),
                  valid fresh.0,
                ))
        ])
