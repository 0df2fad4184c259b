-- ===== src/Startup/First.antt =====
-- src/settings.c: parse_cmdline, which main no longer calls, against parse_cmdline_v2.
--
-- It reads the configuration files in a first pass, the last of them replacing what the others left, and their options stand before those of
-- the command line in the second one. The letters of the switch are those of the table but V, 4, 6, O and X. More options of a
-- file than the array `g_config_file_options` holds overflow it.
use impd4e.Common.{
  ℤ, ◌+◌, ◌%◌, ap, Option-cases, pos, negsuc, u32, to_u32, to_u16, ℕ, suc, List, [], ◌∷◌, ◌++◌,
  Bool, true, false, ◌||◌, if◌then◌else◌, ltb, length, ◌==◌, Option, none, some, overread, overflow,
  ◌≡◌, refl, sym, subst, ==_iff, ◌∙◌, All, Bool-cases, inl, inr,
}
use impd4e.Range.{Text}
use impd4e.Settings.{
  Settings, update, max_interfaces, interface_type, interface_name, template_or, apply_setting,
}
use impd4e.Settings.Names.{parse_template, parse_function, parse_sel_function}
use impd4e.Device.{Options, no_template}
use impd4e.Settings.Table.{
  OptFunction, fct_v, fct_V, fct_h, fct_i, fct_4, fct_6, fct_O, fct_f, fct_N, fct_I, fct_J, fct_K,
  fct_G, fct_m, fct_M, fct_r, fct_s, fct_S, fct_F, fct_p, fct_o, fct_u, fct_C, fct_P, fct_e, fct_t,
  fct_d, fct_D, fct_l, fct_L, fct_c, fct_n, fct_X, fct_y, fct_unknown, find_opt_function_char,
  function_char, cfg_opt_list, is_unknown,
}
use impd4e.Settings.Sections.{read_options_file}
use impd4e.Startup.{Program, goes_on, exits, crashes, of_outcome, ◌>>=◌, bind_same}
use impd4e.Settings.Sampling.{set_sampling_lowerbound, set_sampling_upperbound, set_sampling_ratio}
use impd4e.Settings.Others
use impd4e.Settings.Others.{Others, to_i16, u8_of, begins_with_digit, leading_v, strtok_colon}
use impd4e.Startup.Arguments.{
  Readers, Parsed, apply_to, apply_option, set_collector, set_port, parse_cmdline_v2,
}
use impd4e.Startup.Files.{as_arguments}

-- The case of the switch that a letter has, by the function of the same option.
unfoldable pub switched : ℕ → OptFunction
switched c =
    if c == b'V' || c == b'4' || c == b'6' || c == b'O' || c == b'X'
    then fct_unknown
    else find_opt_function_char c

case_i : Text → Settings → Settings
case_i arg s = if s.number_interfaces == max_interfaces then s else record s {
  devices =
      update s.number_interfaces
        (λ dev. record dev {
          device_type = interface_type arg dev;
          device_name = interface_name arg;
        })
        s.devices;
  number_interfaces = suc s.number_interfaces;
}

-- An unknown name is -1, in a uint32_t.
case_t : Text → Settings → Settings
case_t arg s = record s {
  options = record s.options { template_id = template_or no_template (parse_template arg) };
}

abbrev set_options : (Options → Options) → Parsed → Program Parsed
set_options f s =
    goes_on (record s { settings = record s.settings { options = f s.settings.options } })

abbrev set_others : (Others → Others) → Parsed → Program Parsed
set_others f s = goes_on (record s { others = f s.others })

-- strcpy to the 256 bytes of collectorIP.
case_C : Text → Parsed → Program Parsed
case_C arg s =
    if ltb (length arg) 256
    then set_others (λ o. record o { collector_ip = arg }) s
    else crashes overflow

-- The value is that of the assignment, an int16_t.
case_P : ℤ → Parsed → Program Parsed
case_P (pos port) s = set_others (λ o. record o { collector_port = pos port }) s
case_P (negsuc n) s = exits (pos 1)

case_v : Readers → Option Text → Others → Others
case_v io none o = record o { verbosity = (o.verbosity + 1) % 256 }
case_v io (some arg) o =
    if begins_with_digit arg then record o { verbosity = u8_of (io.atoi arg) } else record o {
      verbosity = (o.verbosity + 1 + (leading_v arg).0) % 256;
      verbosity_filter_string = some (leading_v arg).1;
    }

-- The third token of -l and -L.
interval : Option (Text × Text) → Others → Others
interval none o = o
interval (some (token, rest)) o =
    if begins_with_digit token then record o { export_location_interval = token } else o

second_l : Option (Text × Text) → Others → Others
unfolding interval
second_l none o = o
second_l (some (token, rest)) o = interval (strtok_colon rest) (record o { s_longitude = token })

case_l : Option (Text × Text) → Others → Others
unfolding second_l
case_l none o = o
case_l (some (token, rest)) o = second_l (strtok_colon rest) (record o { s_latitude = token })

second_L : Option (Text × Text) → Others → Others
unfolding interval
second_L none o = o
second_L (some (token, rest)) o = interval (strtok_colon rest) (record o { s_latitude = token })

case_L : Option (Text × Text) → Others → Others
unfolding second_L
case_L none o = o
case_L (some (token, rest)) o = second_L (strtok_colon rest) (record o { s_longitude = token })

-- The switch, by the letters of the functions; an unknown letter is only printed. An option without an argument has a null
-- pointer in `optarg`.
unfoldable pub run_case : Readers → OptFunction → Option Text → Parsed → Program Parsed
unfolding case_i case_t case_C case_P case_v case_l case_L
run_case io fct_c arg s = goes_on s
run_case io fct_C (some arg) s = case_C arg s
run_case io fct_e (some arg) s =
    set_options (λ o. record o { export_packet_count = to_u32 (io.atoi arg) }) s
run_case io fct_f (some arg) s = set_others (λ o. record o { bpf = some arg }) s
run_case io fct_h arg s = exits (pos 0)
run_case io fct_i (some arg) s = goes_on (record s { settings = case_i arg s.settings })
run_case io fct_I (some arg) s = set_options (λ o. record o { pktid_export = io.positive arg }) s
run_case io fct_J (some arg) s = set_others (λ o. record o { export_stats_interval = arg }) s
run_case io fct_K (some arg) s = set_others (λ o. record o { export_sampling_interval = arg }) s
run_case io fct_G (some arg) s = set_others (λ o. record o { export_location_interval = arg }) s
run_case io fct_o (some arg) s =
    set_others (λ o. record o { observation_domain_id = io.atoi arg }) s
run_case io fct_t (some arg) s = goes_on (record s { settings = case_t arg s.settings })
run_case io fct_m (some arg) s = set_options (set_sampling_lowerbound (io.strtoll arg)) s
run_case io fct_M (some arg) s = set_options (set_sampling_upperbound (io.strtoll arg)) s
run_case io fct_r (some arg) s = set_options (set_sampling_ratio (u32 (io.share arg))) s
run_case io fct_s (some arg) s = set_options (parse_sel_function arg) s
run_case io fct_S (some arg) s = set_options (parse_sel_function arg) s
run_case io fct_F (some arg) s =
    set_options (λ o. record o { hash_function = parse_function arg }) s
run_case io fct_p (some arg) s =
    set_others
      (λ o. record o { pktid_function = some (parse_function arg); hash_as_packet_id = false }) s
run_case io fct_P (some arg) s = case_P (to_i16 (io.atoi arg)) s
run_case io fct_v arg s = set_others (case_v io arg) s
run_case io fct_d (some arg) s = set_others (λ o. record o { s_probe_name = some arg }) s
run_case io fct_D (some arg) s = set_others (λ o. record o { s_location_name = arg }) s
run_case io fct_l (some arg) s = set_others (case_l (strtok_colon arg)) s
run_case io fct_L (some arg) s = set_others (case_L (strtok_colon arg)) s
run_case io fct_N (some arg) s =
    set_options (λ o. record o { snap_length = to_u16 (io.atoi arg) }) s
run_case io fct_u arg s = set_others (λ o. record o { use_oid_first_interface = true }) s
run_case io fct_n arg s = goes_on s
run_case io fct_y arg s = goes_on s
run_case io fct_V arg s = goes_on s
run_case io fct_4 arg s = goes_on s
run_case io fct_6 arg s = goes_on s
run_case io fct_O arg s = goes_on s
run_case io fct_X arg s = goes_on s
run_case io fct_unknown arg s = goes_on s
run_case io f none s = crashes overread

unfoldable pub run_switch : Readers → List (ℕ × Option Text) → Parsed → Program Parsed
run_switch io [] s = goes_on s
run_switch io ((c, optarg) ∷ arguments) s = do
  next ← run_case io (switched c) optarg s
  run_switch io arguments next

unfoldable pub stored_of : Readers → Option Text → Program (List (ℕ × Text))
stored_of io none = crashes overread
stored_of io (some name) = elim (io.lines_of name) [
  | none ↦ exits (pos 1)
  | some texts ↦ of_outcome (read_options_file io.stale_heading texts)
]

-- The first pass.
unfoldable pub config_options :
    Readers → List (ℕ × Option Text) → List (ℕ × Text) → Program (List (ℕ × Text))
unfolding stored_of
config_options io [] found = goes_on found
config_options io ((c, optarg) ∷ arguments) found = do
  new ← (if c == b'c' then stored_of io optarg else goes_on found)
  config_options io arguments new

unfoldable pub parse_cmdline_first : Readers → List (ℕ × Option Text) → Parsed → Program Parsed
unfolding config_options run_switch
parse_cmdline_first io arguments s = do
  stored ← config_options io arguments []
  run_switch io (as_arguments stored ++ arguments)
      (record s { settings = record s.settings { number_interfaces = 0 } })

-- The options that both treat alike.
unfoldable pub is_common : OptFunction → Bool
is_common fct_c = false
is_common fct_i = false
is_common fct_t = false
is_common fct_unknown = false
is_common fct_V = false
is_common fct_4 = false
is_common fct_6 = false
is_common fct_O = false
is_common fct_X = false
is_common _ = true

abbrev pub IsCommon : ℕ × Option Text → Type 0
IsCommon argument = is_common (switched argument.0) ≡ true

case_C-opt_C :
    (arg : Text) (s : Parsed) → case_C arg s ≡ set_collector (Others.opt_C arg s.others) s
unfolding case_C set_collector Others.opt_C
case_C-opt_C arg s = elim (Bool-cases (ltb (length arg) 256)) [
  | inl h ↦ rw h refl
  | inr h ↦ rw h refl
]

case_P-opt_P :
    (io : Readers) (arg : Text) (s : Parsed) (value : ℤ)
    → to_i16 (io.atoi arg) ≡ value
    → case_P (to_i16 (io.atoi arg)) s ≡ set_port (Others.opt_P io.atoi arg s.others) s
unfolding case_P set_port Others.opt_P
case_P-opt_P io arg s (pos port) e = rw (e, Others.opt_P) refl
case_P-opt_P io arg s (negsuc n) e = rw (e, Others.opt_P) refl

interval-same :
    (rest : Text) (o : Others) → interval (strtok_colon rest) o ≡ Others.location_interval rest o
unfolding interval Others.location_interval
interval-same rest o = elim (Option-cases (strtok_colon rest)) [
  | inl h ↦ rw (h, Others.location_interval) refl
  | inr (t, h) ↦ rw (h, Others.location_interval) refl
]

case_l-opt_l : (arg : Text) (o : Others) → case_l (strtok_colon arg) o ≡ Others.opt_l arg o
unfolding case_l second_l Others.opt_l
case_l-opt_l arg o = elim (Option-cases (strtok_colon arg)) [
  | inl h ↦ rw (h, Others.opt_l) refl
  | inr (t, h) ↦ elim (Option-cases (strtok_colon t.1)) [
    | inl h' ↦ rw (h, h', Others.opt_l) refl
    | inr (u, h') ↦ rw (h, h', Others.opt_l) (interval-same u.1 _)
  ]
]

case_L-opt_L : (arg : Text) (o : Others) → case_L (strtok_colon arg) o ≡ Others.opt_L arg o
unfolding case_L second_L Others.opt_L
case_L-opt_L arg o = elim (Option-cases (strtok_colon arg)) [
  | inl h ↦ rw (h, Others.opt_L) refl
  | inr (t, h) ↦ elim (Option-cases (strtok_colon t.1)) [
    | inl h' ↦ rw (h, h', Others.opt_L) refl
    | inr (u, h') ↦ rw (h, h', Others.opt_L) (interval-same u.1 _)
  ]
]

run_case-common :
    (io : Readers) (fuel : ℕ) (f : OptFunction) (arg : Option Text) (s : Parsed)
    → is_common f ≡ true
    → run_case io f arg s ≡ apply_option io fuel f arg s
unfolding run_case case_v is_common apply_option apply_to apply_setting Others.opt_v Others.opt_p
    Others.opt_f Others.opt_J Others.opt_K Others.opt_G Others.opt_o Others.opt_u Others.opt_d
    Others.opt_D
run_case-common io fuel fct_c arg s e = absurd (cc)
run_case-common io fuel fct_i arg s e = absurd (cc)
run_case-common io fuel fct_t arg s e = absurd (cc)
run_case-common io fuel fct_unknown arg s e = absurd (cc)
run_case-common io fuel fct_V arg s e = absurd (cc)
run_case-common io fuel fct_4 arg s e = absurd (cc)
run_case-common io fuel fct_6 arg s e = absurd (cc)
run_case-common io fuel fct_O arg s e = absurd (cc)
run_case-common io fuel fct_X arg s e = absurd (cc)
run_case-common io fuel fct_C (some arg) s e = case_C-opt_C arg s
run_case-common io fuel fct_P (some arg) s e = case_P-opt_P io arg s (to_i16 (io.atoi arg)) refl
run_case-common io fuel fct_l (some arg) s e =
    ap (λ o. goes_on (record s { others = o })) (case_l-opt_l arg s.others)
run_case-common io fuel fct_L (some arg) s e =
    ap (λ o. goes_on (record s { others = o })) (case_L-opt_L arg s.others)
run_case-common io fuel f none s e = refl
run_case-common io fuel f (some arg) s e = refl

common-known : (f : OptFunction) → is_common f ≡ true → is_unknown f ≡ false
unfolding is_common is_unknown
common-known fct_unknown e = absurd (cc)
common-known f e = refl

-- The letters without a case of their own.
abbrev without_case : ℕ → Bool
without_case c = c == b'V' || c == b'4' || c == b'6' || c == b'O' || c == b'X'

switched-common : (c : ℕ) → is_common (switched c) ≡ true → switched c ≡ find_opt_function_char c
unfolding switched is_common
switched-common c e = elim (Bool-cases (without_case c)) [
  | inl h ↦ (let never : false ≡ true = rw h at e in absurd (cc))
  | inr h ↦ rw h refl
]

letter_c : is_common (switched b'c') ≡ false
unfolding switched is_common find_opt_function_char function_char cfg_opt_list
letter_c = refl

common-not_c : (c : ℕ) → is_common (switched c) ≡ true → (c == b'c') ≡ false
common-not_c c e = elim (Bool-cases (c == b'c')) [
  | inr h ↦ h
  | inl h ↦
      let same : c ≡ b'c' = (==_iff c b'c').0 h in
      let never : is_common (switched b'c') ≡ true =
        subst (λ c. is_common (switched c) ≡ true) same e in
      (let both : false ≡ true = sym letter_c ∙ never in absurd (cc))
]

config_options-common :
    (io : Readers) (arguments : List (ℕ × Option Text)) (found : List (ℕ × Text))
    → All IsCommon arguments
    → config_options io arguments found ≡ goes_on found
unfolding config_options
config_options-common io [] found h = refl
config_options-common io ((c, optarg) ∷ arguments) found (here, h) =
    rw (common-not_c c here) (config_options-common io arguments found h)

run_switch-common :
    (io : Readers) (fuel : ℕ) (arguments : List (ℕ × Option Text)) (s : Parsed)
    → All IsCommon arguments
    → run_switch io arguments s ≡ parse_cmdline_v2 io fuel arguments s
unfolding run_switch parse_cmdline_v2
run_switch-common io fuel [] s h = refl
run_switch-common io fuel ((c, optarg) ∷ arguments) s (here, h) =
    let known : is_unknown (switched c) ≡ false = common-known (switched c) here in
    rw (sym (switched-common c here), known, run_case-common io fuel (switched c) optarg s here)
      (bind_same (apply_option io fuel (switched c) optarg s) _ _
        (λ next. run_switch-common io fuel arguments next h))

-- Before an interface is given, parse_cmdline and parse_cmdline_v2 do the same with every option but -c, -i, -t, -V, -4, -6,
-- -O, -X and unknown ones: they end with the same options, in the same exit or in the same fault.
pub parse_cmdline_first-v2 :
    (io : Readers) (fuel : ℕ) (arguments : List (ℕ × Option Text)) (s : Parsed)
    → s.settings.number_interfaces ≡ 0
    → All IsCommon arguments
    → parse_cmdline_first io arguments s ≡ parse_cmdline_v2 io fuel arguments s
unfolding parse_cmdline_first
parse_cmdline_first-v2 io fuel arguments s none_given h =
    let reset : record s { settings = record s.settings { number_interfaces = 0 } } ≡ s =
      rw (sym none_given) refl in
    rw (config_options-common io arguments [] h, reset) (run_switch-common io fuel arguments s h)
