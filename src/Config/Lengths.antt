-- ===== src/Config/Lengths.antt =====
-- The length of a response.
use impd4e.Common.{
  ℕ, ◌<◌, List, [], ◌∷◌, ◌++◌, Option, none, some, Option-cases, length, ℤ-cases, ◌≡◌, inl, inr,
  arith, All, length-take,
}
use Prim.Native.String.{String}
use impd4e.Range.{Text}
use impd4e.Settings.Names.{parse_template}
use impd4e.Export.Fits.{IsShort}
use impd4e.Config.{
  ConfigFunction, Command, help, set_ratio, set_min_selection, set_max_selection, set_filter,
  set_template, set_export_to_pktid, set_export_to_probestats, set_export_to_ifstats, answer_of,
  get_cfg_fct, find_cfg_fct, configuration_fct, configuration_help, help_text, first_byte,
}
use impd4e.Config.Commands.{
  respond, print_int, codes, Outside, Configured, configuration_set_template, filter_answer,
  configuration_set_export_to_probestats, configuration_set_export_to_ifstats,
  configuration_set_export_to_pktid, configuration_set_min_selection,
  configuration_set_max_selection, configuration_set_ratio,
}
use impd4e.Settings.Sampling.{set_sampling_lowerbound, set_sampling_upperbound}

-- A description in the table.
abbrev HasShort : ConfigFunction → Type 0
HasShort f = length f.desc < 100

find_cfg_fct-IsShort :
    (cmd : ℕ) (functions : List ConfigFunction) {f : ConfigFunction}
    → All HasShort functions
    → find_cfg_fct cmd functions ≡ some f
    → HasShort f
unfolding find_cfg_fct
find_cfg_fct-IsShort cmd [] h e = absurd (cc)
find_cfg_fct-IsShort cmd (g ∷ functions) {f} (short, h) e =
    ground (arith, find_cfg_fct-IsShort cmd functions {f = f} h)

configuration_fct-IsShort : All HasShort configuration_fct
unfolding configuration_fct
configuration_fct-IsShort = omega arith

help_text-IsShort : IsShort (help_text configuration_fct)
unfolding help_text configuration_fct
help_text-IsShort = omega arith

configuration_help-IsShort : (msg : Text) → IsShort (configuration_help msg)
unfolding configuration_help get_cfg_fct
configuration_help-IsShort msg = elim (Option-cases (get_cfg_fct (first_byte msg))) [
  | inl absent ↦ rw (absent, configuration_help) help_text-IsShort
  | inr (f, found) ↦
      let short =
        find_cfg_fct-IsShort (first_byte msg) configuration_fct {f = f} configuration_fct-IsShort
          found in
      rw (found, configuration_help) (omega arith)
]

length-respond : (prefix : String) (msg : Text) → IsShort (respond prefix msg)
unfolding respond
length-respond prefix msg = omega (arith, length-take 255 (codes prefix ++ msg))

configuration_set_template-IsShort :
    (msg : Text) (c : Configured) → IsShort (configuration_set_template msg c).1
unfolding configuration_set_template
configuration_set_template-IsShort msg c = elim (Option-cases (parse_template msg)) [
  | inl unknown ↦
      rw (unknown, configuration_set_template) (length-respond "INFO: unknown template: " msg)
  | inr (id, known) ↦
      rw (known, configuration_set_template) (length-respond "INFO: new template set: " msg)
]

configuration_set_export_to_pktid-IsShort :
    (outside : Outside) (msg : Text) (c : Configured)
    → IsShort (configuration_set_export_to_pktid outside msg c).1
unfolding configuration_set_export_to_pktid
configuration_set_export_to_pktid-IsShort outside msg c = elim (ℤ-cases (outside.strtol msg)) [
  | inl (n, set) ↦
      rw (set, configuration_set_export_to_pktid)
        (length-respond "INFO: new packet export timeout set: " msg)
  | inr (n, kept) ↦
      rw (kept, configuration_set_export_to_pktid)
        (length-respond "INFO: packet export timeout NOT changed" [])
]

configuration_set_export_to_probestats-IsShort :
    (outside : Outside) (msg : Text) (c : Configured)
    → IsShort (configuration_set_export_to_probestats outside msg c).1
unfolding configuration_set_export_to_probestats
configuration_set_export_to_probestats-IsShort outside msg c = elim (ℤ-cases (outside.strtol msg)) [
  | inl (n, set) ↦
      rw (set, configuration_set_export_to_probestats)
        (length-respond "INFO: new probestats export timeout set: " msg)
  | inr (n, kept) ↦
      rw (kept, configuration_set_export_to_probestats)
        (length-respond "INFO: probestats export timeout NOT changed" [])
]

configuration_set_export_to_ifstats-IsShort :
    (outside : Outside) (msg : Text) (c : Configured)
    → IsShort (configuration_set_export_to_ifstats outside msg c).1
unfolding configuration_set_export_to_ifstats
configuration_set_export_to_ifstats-IsShort outside msg c = elim (ℤ-cases (outside.strtol msg)) [
  | inl (n, set) ↦
      rw (set, configuration_set_export_to_ifstats)
        (length-respond "INFO: new ifstats export timeout set: " msg)
  | inr (n, kept) ↦
      rw (kept, configuration_set_export_to_ifstats)
        (length-respond "INFO: ifstats export timeout NOT changed" [])
]

pub answer_of-IsShort :
    (outside : Outside) (f : Option ConfigFunction) (msg : Text) (c : Configured)
    → IsShort (answer_of outside f msg c).1
unfolding answer_of filter_answer configuration_set_ratio configuration_set_min_selection
    configuration_set_max_selection
answer_of-IsShort outside none msg c = omega arith
answer_of-IsShort outside (some f) msg c = by_command f.fct
  where
    by_command :
        (command : Command)
        → IsShort (answer_of outside (some (record f { fct = command })) msg c).1
    by_command help = configuration_help-IsShort msg
    by_command set_ratio = length-respond "INFO: new sampling ratio set: " msg
    by_command set_min_selection =
        length-respond "INFO: minimum selection range set: " (
          print_int
            (set_sampling_lowerbound (outside.strtoll msg) c.settings.options).sel_range_min)
    by_command set_max_selection =
        length-respond "INFO: maximum selection range set: " (
          print_int
            (set_sampling_upperbound (outside.strtoll msg) c.settings.options).sel_range_max)
    by_command set_filter = length-respond "INFO: new filter expression set: " msg
    by_command set_template = configuration_set_template-IsShort msg c
    by_command set_export_to_pktid = configuration_set_export_to_pktid-IsShort outside msg c
    by_command set_export_to_probestats =
        configuration_set_export_to_probestats-IsShort outside msg c
    by_command set_export_to_ifstats = configuration_set_export_to_ifstats-IsShort outside msg c
