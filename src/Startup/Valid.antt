-- ===== src/Startup/Valid.antt =====
-- What holds of the settings however the command line and the configuration files are put together.
use impd4e.Common.{
  ℕ, zero, suc, List, [], ◌∷◌, Option, none, some, Outcome, ok, err, overread, overflow, no_fuel,
  Bool-cases, inl, inr, leb, ltb, length,
}
use impd4e.Range.{Text}
use impd4e.Settings.{Settings, Setting, apply_setting}
use impd4e.Settings.Table.{
  OptFunction, fct_v, fct_V, fct_h, fct_i, fct_4, fct_6, fct_O, fct_f, fct_N, fct_I, fct_J, fct_K,
  fct_G, fct_m, fct_M, fct_r, fct_s, fct_S, fct_F, fct_p, fct_o, fct_u, fct_C, fct_P, fct_e, fct_t,
  fct_d, fct_D, fct_l, fct_L, fct_c, fct_n, fct_X, fct_y, fct_unknown, find_opt_function_char,
  find_opt_function_key, is_unknown,
}
use impd4e.Settings.Sections.{line_of, Line-cases}
use impd4e.Settings.Others
use impd4e.Settings.Others.{Others}
use impd4e.Settings.Invariant.{IsValid, apply_setting-IsValid}
use impd4e.Startup.{Program, Meets, meets, ended, crashed, Meets-bind}
use impd4e.Startup.Arguments.{
  Readers, Parsed, set_one, apply_to, run_lines, read_file, opt_c, apply_option, parse_cmdline_v2,
  set_port, set_collector,
}

module _ (P : Settings → Type 0)
    (preserved : (setting : Setting) (s : Settings) → P s → P (apply_setting setting s)) where
  -- Where the program goes on, its settings meet `P`.
  abbrev pub Stays : Program Parsed → Type 0
  Stays m = Meets (λ s. P s.settings) m

  set_one-Stays : (setting : Setting) (s : Parsed) → P s.settings → Stays (set_one setting s)
  set_one-Stays setting s h = meets _ (preserved setting s.settings h)

  set_port-Stays : (others : Option Others) (s : Parsed) → P s.settings → Stays (set_port others s)
  unfolding set_port
  set_port-Stays none s h = ended _
  set_port-Stays (some others) s h = meets _ h

  set_collector-Stays :
      (others : Outcome Others) (s : Parsed) → P s.settings → Stays (set_collector others s)
  unfolding set_collector
  set_collector-Stays (ok others) s h = meets _ h
  set_collector-Stays (err why) s h = crashed why

  apply_to-Stays :
      (io : Readers) (config : Text → Parsed → Program Parsed) (f : OptFunction) (arg : Text)
      (s : Parsed)
      → ((name : Text) (t : Parsed) → P t.settings → Stays (config name t))
      → P s.settings
      → Stays (apply_to io config f arg s)
  unfolding apply_to
  apply_to-Stays io config fct_v arg s config_stays h = meets _ h
  apply_to-Stays io config fct_V arg s config_stays h = ended _
  apply_to-Stays io config fct_h arg s config_stays h = ended _
  apply_to-Stays io config fct_i arg s config_stays h = set_one-Stays _ s h
  apply_to-Stays io config fct_4 arg s config_stays h = meets _ h
  apply_to-Stays io config fct_6 arg s config_stays h = meets _ h
  apply_to-Stays io config fct_O arg s config_stays h = set_one-Stays _ s h
  apply_to-Stays io config fct_f arg s config_stays h = meets _ h
  apply_to-Stays io config fct_N arg s config_stays h = set_one-Stays _ s h
  apply_to-Stays io config fct_I arg s config_stays h = set_one-Stays _ s h
  apply_to-Stays io config fct_J arg s config_stays h = meets _ h
  apply_to-Stays io config fct_K arg s config_stays h = meets _ h
  apply_to-Stays io config fct_G arg s config_stays h = meets _ h
  apply_to-Stays io config fct_m arg s config_stays h = set_one-Stays _ s h
  apply_to-Stays io config fct_M arg s config_stays h = set_one-Stays _ s h
  apply_to-Stays io config fct_r arg s config_stays h = set_one-Stays _ s h
  apply_to-Stays io config fct_s arg s config_stays h = set_one-Stays _ s h
  apply_to-Stays io config fct_S arg s config_stays h = set_one-Stays _ s h
  apply_to-Stays io config fct_F arg s config_stays h = set_one-Stays _ s h
  apply_to-Stays io config fct_p arg s config_stays h = meets _ h
  apply_to-Stays io config fct_o arg s config_stays h = meets _ h
  apply_to-Stays io config fct_u arg s config_stays h = meets _ h
  apply_to-Stays io config fct_C arg s config_stays h =
      set_collector-Stays (Others.opt_C arg s.others) s h
  apply_to-Stays io config fct_P arg s config_stays h =
      set_port-Stays (Others.opt_P io.atoi arg s.others) s h
  apply_to-Stays io config fct_e arg s config_stays h = set_one-Stays _ s h
  apply_to-Stays io config fct_t arg s config_stays h = set_one-Stays _ s h
  apply_to-Stays io config fct_d arg s config_stays h = meets _ h
  apply_to-Stays io config fct_D arg s config_stays h = meets _ h
  apply_to-Stays io config fct_l arg s config_stays h = meets _ h
  apply_to-Stays io config fct_L arg s config_stays h = meets _ h
  apply_to-Stays io config fct_c arg s config_stays h = config_stays arg s h
  apply_to-Stays io config fct_n arg s config_stays h = meets _ h
  apply_to-Stays io config fct_X arg s config_stays h = ended _
  apply_to-Stays io config fct_y arg s config_stays h = meets _ h
  apply_to-Stays io config fct_unknown arg s config_stays h = meets _ h

  run_lines-Stays :
      (io : Readers) (config : Text → Parsed → Program Parsed) (heading : Text) (texts : List Text)
      (s : Parsed)
      → ((name : Text) (t : Parsed) → P t.settings → Stays (config name t))
      → P s.settings
      → Stays (run_lines io config heading texts s)
  unfolding run_lines
  run_lines-Stays io config heading [] s config_stays h = meets s h
  run_lines-Stays io config heading (text ∷ texts) s config_stays h =
      elim (Line-cases (line_of heading text)) [
        | inl e ↦ rw (e, run_lines) (run_lines-Stays io config heading texts s config_stays h)
        | inr (inl (name, e)) ↦ elim (Bool-cases (leb (length name) 100)) [
          | inl fits ↦
              rw (e, fits, run_lines) (run_lines-Stays io config name texts s config_stays h)
          | inr long ↦ rw (e, long, run_lines) (crashed overflow)
        ]
        | inr (inr (fullkey, value, e)) ↦ elim (Bool-cases (ltb (length fullkey) 200)) [
          | inl fits ↦
              rw (e, fits, run_lines)
                (Meets-bind (apply_to io config (find_opt_function_key fullkey) value s) _
                  (apply_to-Stays io config (find_opt_function_key fullkey) value s config_stays h)
                  (λ next k. run_lines-Stays io config heading texts next config_stays k))
          | inr long ↦ rw (e, long, run_lines) (crashed overflow)
        ]
      ]

  read_file-Stays :
      (io : Readers) (config : Text → Parsed → Program Parsed) (texts : Option (List Text))
      (s : Parsed)
      → ((name : Text) (t : Parsed) → P t.settings → Stays (config name t))
      → P s.settings
      → Stays (read_file io config texts s)
  unfolding read_file
  read_file-Stays io config none s config_stays h = ended _
  read_file-Stays io config (some texts) s config_stays h =
      run_lines-Stays io config io.stale_heading texts s config_stays h

  opt_c-Stays :
      (io : Readers) (fuel : ℕ) (name : Text) (s : Parsed)
      → P s.settings
      → Stays (opt_c io fuel name s)
  unfolding opt_c
  opt_c-Stays io zero name s h = crashed no_fuel
  opt_c-Stays io (suc fuel) name s h =
      read_file-Stays io (opt_c io fuel) (io.lines_of name) s (opt_c-Stays io fuel) h

  apply_option-Stays :
      (io : Readers) (fuel : ℕ) (f : OptFunction) (arg : Option Text) (s : Parsed)
      → P s.settings
      → Stays (apply_option io fuel f arg s)
  unfolding apply_option
  apply_option-Stays io fuel f (some arg) s h =
      apply_to-Stays io (opt_c io fuel) f arg s (opt_c-Stays io fuel) h
  apply_option-Stays io fuel fct_v none s h = meets _ h
  apply_option-Stays io fuel fct_V none s h = ended _
  apply_option-Stays io fuel fct_h none s h = ended _
  apply_option-Stays io fuel fct_i none s h = crashed overread
  apply_option-Stays io fuel fct_4 none s h = meets _ h
  apply_option-Stays io fuel fct_6 none s h = meets _ h
  apply_option-Stays io fuel fct_O none s h = crashed overread
  apply_option-Stays io fuel fct_f none s h = crashed overread
  apply_option-Stays io fuel fct_N none s h = crashed overread
  apply_option-Stays io fuel fct_I none s h = crashed overread
  apply_option-Stays io fuel fct_J none s h = crashed overread
  apply_option-Stays io fuel fct_K none s h = crashed overread
  apply_option-Stays io fuel fct_G none s h = crashed overread
  apply_option-Stays io fuel fct_m none s h = crashed overread
  apply_option-Stays io fuel fct_M none s h = crashed overread
  apply_option-Stays io fuel fct_r none s h = crashed overread
  apply_option-Stays io fuel fct_s none s h = crashed overread
  apply_option-Stays io fuel fct_S none s h = crashed overread
  apply_option-Stays io fuel fct_F none s h = crashed overread
  apply_option-Stays io fuel fct_p none s h = crashed overread
  apply_option-Stays io fuel fct_o none s h = crashed overread
  apply_option-Stays io fuel fct_u none s h = meets _ h
  apply_option-Stays io fuel fct_C none s h = crashed overread
  apply_option-Stays io fuel fct_P none s h = crashed overread
  apply_option-Stays io fuel fct_e none s h = crashed overread
  apply_option-Stays io fuel fct_t none s h = crashed overread
  apply_option-Stays io fuel fct_d none s h = crashed overread
  apply_option-Stays io fuel fct_D none s h = crashed overread
  apply_option-Stays io fuel fct_l none s h = crashed overread
  apply_option-Stays io fuel fct_L none s h = crashed overread
  apply_option-Stays io fuel fct_c none s h = crashed overread
  apply_option-Stays io fuel fct_n none s h = meets _ h
  apply_option-Stays io fuel fct_X none s h = crashed overread
  apply_option-Stays io fuel fct_y none s h = meets _ h
  apply_option-Stays io fuel fct_unknown none s h = meets _ h

  pub parse_cmdline_v2-Stays :
      (io : Readers) (fuel : ℕ) (arguments : List (ℕ × Option Text)) (s : Parsed)
      → P s.settings
      → Stays (parse_cmdline_v2 io fuel arguments s)
  unfolding parse_cmdline_v2
  parse_cmdline_v2-Stays io fuel [] s h = meets s h
  parse_cmdline_v2-Stays io fuel ((c, optarg) ∷ arguments) s h =
      Meets-bind (apply_option io fuel (find_opt_function_char c) optarg s) _
        (apply_option-Stays io fuel (find_opt_function_char c) optarg s h)
        (λ next k. elim (Bool-cases (is_unknown (find_opt_function_char c))) [
          | inl unknown ↦ rw unknown (ended _)
          | inr known ↦ rw known (parse_cmdline_v2-Stays io fuel arguments next k)
        ])

-- Whatever getopt returns, and whatever the configuration files hold that it names, where parse_cmdline_v2 ends and the
-- program goes on, the hash range has its borders in order, and the template of the options and of each
-- configured interface is a packet template.
parse_cmdline_v2-IsValid :
    (io : Readers) (fuel : ℕ) (arguments : List (ℕ × Option Text)) (s : Parsed)
    → IsValid s.settings
    → Meets (λ parsed. IsValid (Parsed.settings parsed)) (parse_cmdline_v2 io fuel arguments s)
parse_cmdline_v2-IsValid = parse_cmdline_v2-Stays IsValid apply_setting-IsValid
