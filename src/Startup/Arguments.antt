-- ===== src/Startup/Arguments.antt =====
-- src/settings.c: the functions of the table of options, applied to what getopt and the lines of
-- configuration files give, by parse_cmdline_v2, opt_c and read_options_file_v2.
--
-- getopt is not part of the repository: the command line is the letters and arguments that it returns, with '?' for an
-- unknown one. An option with ":" in the table has an argument; one that getopt gives without follows a null pointer.
-- Files that name each other are read on fuel. What -V, -h and -X print is left out.
use impd4e.Common.{
  ◌+◌, ◌*◌, ◌≤◌, ◌++◌, arith, ℕ, zero, suc, List, [], ◌∷◌, Bool, if◌then◌else◌, Option, none, some,
  ℤ, pos, negsuc, Outcome, ok, err, overread, overflow, no_fuel, leb, ltb, length,
}
use impd4e.Range.{Text}
use impd4e.Settings.{
  Settings, Setting, opt_i, opt_t, opt_S, opt_F, opt_m, opt_M, opt_r, opt_e, opt_N, opt_O, opt_I,
  apply_setting, initial_settings,
}
use impd4e.Settings.Table.{
  ConfigMap, cfg_opt_list, OptFunction, fct_v, fct_V, fct_h, fct_i, fct_4, fct_6, fct_O, fct_f,
  fct_N, fct_I, fct_J, fct_K, fct_G, fct_m, fct_M, fct_r, fct_s, fct_S, fct_F, fct_p, fct_o, fct_u,
  fct_C, fct_P, fct_e, fct_t, fct_d, fct_D, fct_l, fct_L, fct_c, fct_n, fct_X, fct_y, fct_unknown,
  find_opt_function_char, find_opt_function_key, is_unknown,
}
use impd4e.Settings.Sections.{line_of, no_line, heading_line, option_line}
use impd4e.Settings.Others
use impd4e.Settings.Others.{Others, default_others}
use impd4e.Startup.{Program, goes_on, exits, crashes, ◌>>=◌}

-- The functions of the C library and the files: strtoll with base 0, atoi, what set_sampling_ratio
-- scales the double of strtod to, `atof(..) > 0`, the lines of a file that can be opened, and what stands in the
-- buffer for a heading before the first one.
pub record Readers : Type 0 where
  pub strtoll : Text → ℤ
  pub atoi : Text → ℤ
  pub share : Text → ℕ
  pub positive : Text → Bool
  pub lines_of : Text → Option (List Text)
  pub stale_heading : Text

-- g_options and if_devices.
pub record Parsed : Type 0 where
  pub settings : Settings
  pub others : Others

abbrev pub initial_parsed : Parsed
initial_parsed = record { settings = initial_settings; others = default_others }

abbrev pub set_one : Setting → Parsed → Program Parsed
set_one setting s = goes_on (record s { settings = apply_setting setting s.settings })

abbrev pub set_other : (Others → Others) → Parsed → Program Parsed
set_other f s = goes_on (record s { others = f s.others })

abbrev pub with_others : Parsed → Others → Parsed
with_others s others = record s { others = others }

unfoldable pub set_port : Option Others → Parsed → Program Parsed
set_port none s = exits (pos 1)
set_port (some others) s = goes_on (with_others s others)

unfoldable pub set_collector : Outcome Others → Parsed → Program Parsed
set_collector (ok others) s = goes_on (with_others s others)
set_collector (err why) s = crashes why

-- An option's function on an argument; `config` is opt_c.
unfoldable pub apply_to :
    Readers → (Text → Parsed → Program Parsed) → OptFunction → Text → Parsed → Program Parsed
unfolding set_port set_collector
apply_to io config fct_v arg s = set_other (Others.opt_v io.atoi (some arg)) s
apply_to io config fct_V arg s = exits (pos 0)
apply_to io config fct_h arg s = exits (pos 0)
apply_to io config fct_i arg s = set_one (opt_i arg) s
apply_to io config fct_4 arg s = set_other Others.opt_4 s
apply_to io config fct_6 arg s = set_other Others.opt_6 s
apply_to io config fct_O arg s = set_one (opt_O (io.atoi arg)) s
apply_to io config fct_f arg s = set_other (Others.opt_f arg) s
apply_to io config fct_N arg s = set_one (opt_N (io.atoi arg)) s
apply_to io config fct_I arg s = set_one (opt_I (io.positive arg)) s
apply_to io config fct_J arg s = set_other (Others.opt_J arg) s
apply_to io config fct_K arg s = set_other (Others.opt_K arg) s
apply_to io config fct_G arg s = set_other (Others.opt_G arg) s
apply_to io config fct_m arg s = set_one (opt_m (io.strtoll arg)) s
apply_to io config fct_M arg s = set_one (opt_M (io.strtoll arg)) s
apply_to io config fct_r arg s = set_one (opt_r (io.share arg)) s
apply_to io config fct_s arg s = set_one (opt_S arg) s
apply_to io config fct_S arg s = set_one (opt_S arg) s
apply_to io config fct_F arg s = set_one (opt_F arg) s
apply_to io config fct_p arg s = set_other (Others.opt_p arg) s
apply_to io config fct_o arg s = set_other (Others.opt_o io.atoi arg) s
apply_to io config fct_u arg s = set_other Others.opt_u s
apply_to io config fct_C arg s = set_collector (Others.opt_C arg s.others) s
apply_to io config fct_P arg s = set_port (Others.opt_P io.atoi arg s.others) s
apply_to io config fct_e arg s = set_one (opt_e (io.atoi arg)) s
apply_to io config fct_t arg s = set_one (opt_t arg) s
apply_to io config fct_d arg s = set_other (Others.opt_d arg) s
apply_to io config fct_D arg s = set_other (Others.opt_D arg) s
apply_to io config fct_l arg s = set_other (Others.opt_l arg) s
apply_to io config fct_L arg s = set_other (Others.opt_L arg) s
apply_to io config fct_c arg s = config arg s
apply_to io config fct_n arg s = goes_on s
apply_to io config fct_X arg s = exits (pos 0)
apply_to io config fct_y arg s = goes_on s
apply_to io config fct_unknown arg s = goes_on s

-- read_options_file_v2 with its calls. A call that returns -1, which is one of the function for
-- unknown options, is logged.
unfoldable pub run_lines :
    Readers → (Text → Parsed → Program Parsed) → Text → List Text → Parsed → Program Parsed
run_lines io config heading [] s = goes_on s
run_lines io config heading (text ∷ texts) s = elim (line_of heading text) [
  | no_line ↦ run_lines io config heading texts s
  | heading_line name ↦
      (let rest = run_lines io config name texts s in
        if leb (length name) 100 then rest else crashes overflow)
  | option_line fullkey value ↦
      (let this = apply_to io config (find_opt_function_key fullkey) value s in
        let both = (do next ← this; run_lines io config heading texts next) in
        if ltb (length fullkey) 200 then both else crashes overflow)
]

unfoldable pub read_file :
    Readers → (Text → Parsed → Program Parsed) → Option (List Text) → Parsed → Program Parsed
read_file io config none s = exits (pos 1)
read_file io config (some texts) s = run_lines io config io.stale_heading texts s

unfoldable pub opt_c : Readers → ℕ → Text → Parsed → Program Parsed
unfolding read_file run_lines
opt_c io zero arg s = crashes no_fuel
opt_c io (suc fuel) arg s = read_file io (opt_c io fuel) (io.lines_of arg) s

-- Functions that take no argument, or none if they like, are called with a null pointer without harm.
unfoldable pub apply_option : Readers → ℕ → OptFunction → Option Text → Parsed → Program Parsed
unfolding apply_to
apply_option io fuel f (some arg) s = apply_to io (opt_c io fuel) f arg s
apply_option io fuel fct_v none s = set_other (Others.opt_v io.atoi none) s
apply_option io fuel fct_V none s = exits (pos 0)
apply_option io fuel fct_h none s = exits (pos 0)
apply_option io fuel fct_4 none s = set_other Others.opt_4 s
apply_option io fuel fct_6 none s = set_other Others.opt_6 s
apply_option io fuel fct_u none s = set_other Others.opt_u s
apply_option io fuel fct_n none s = goes_on s
apply_option io fuel fct_y none s = goes_on s
apply_option io fuel fct_unknown none s = goes_on s
apply_option io fuel f none s = crashes overread

-- The loop of parse_cmdline_v2 over what getopt returns: an unknown option ends the program with -1.
unfoldable pub parse_cmdline_v2 : Readers → ℕ → List (ℕ × Option Text) → Parsed → Program Parsed
unfolding apply_option
parse_cmdline_v2 io fuel [] s = goes_on s
parse_cmdline_v2 io fuel ((c, optarg) ∷ arguments) s =
    let f = find_opt_function_char c in
    do
      next ← apply_option io fuel f optarg s
      if is_unknown f then exits (negsuc 0) else parse_cmdline_v2 io fuel arguments next

-- The option string that parse_cmdline_v2 builds for getopt, in an array of three bytes for each option.
unfoldable pub option_string : List ConfigMap → Text
option_string [] = []
option_string (m ∷ table) = m.opt_letter ∷ (m.opt_need_param ++ option_string table)

-- It fits the array with its terminator.
option_string_fits : length (option_string cfg_opt_list) + 1 ≤ 3 * length cfg_opt_list
unfolding option_string cfg_opt_list
option_string_fits = omega arith
