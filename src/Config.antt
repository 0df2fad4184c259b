-- ===== src/Config.antt =====
-- src/config_handler.c: the commands that change a running probe, typed on the standard input or sent
-- by the collector in a message "mid: <id> -<command> <value>".
--
-- fgets and sscanf are functions of the C library. `true` is NETCON_CMD_MATCHED.
pub mod Commands
pub mod Keeps
pub mod Lengths
pub mod Replies
pub mod Answers
use impd4e.Common.{
  ℕ, zero, suc, ◌+◌, ◌-◌, ◌^◌, List, [], ◌∷◌, ◌++◌, Bool, true, false, ◌&&◌, ◌||◌, Option, none,
  some, take, length, ltb, leb, ◌==◌, if◌then◌else◌, Outcome, ok, err, overread, ◌>>=◌, u32, not,
}
use Prim.Native.String.{String}
use impd4e.Range.{Text}
use impd4e.Settings.{Settings}
use impd4e.Settings.Names.{skip_spaces}
use impd4e.Packet.Handler.{Effect}
use impd4e.Export.{export_data_sync}
use Commands.{
  codes, Outside, Configured, Answered, configuration_set_template, filter_answer,
  configuration_set_filter, configuration_set_export_to_probestats,
  configuration_set_export_to_ifstats, configuration_set_export_to_pktid,
  configuration_set_min_selection, configuration_set_max_selection, configuration_set_ratio,
}

pub data Command : Type 0 where
  help set_ratio set_min_selection set_max_selection set_filter set_template : Command
  set_export_to_pktid set_export_to_probestats set_export_to_ifstats : Command

pub record ConfigFunction : Type 0 where
  pub cmd : ℕ
  pub fct : Command
  pub desc : Text

abbrev entry : ℕ → Command → String → ConfigFunction
entry cmd fct desc = record { cmd = cmd; fct = fct; desc = codes desc ++ (10 ∷ []) }

unfoldable pub configuration_fct : List ConfigFunction
configuration_fct =
    entry b'?' help "INFO: -? this help"
    ∷ entry b'h' help "INFO: -h this help"
    ∷ entry b'r' set_ratio "INFO: -r capturing ratio in %"
    ∷ entry b'm' set_min_selection "INFO: -m capturing selection range min (hex|int)"
    ∷ entry b'M' set_max_selection "INFO: -M capturing selection range max (hex|int)"
    ∷ entry b'f' set_filter "INFO: -f bpf filter expression"
    ∷ entry b't' set_template "INFO: -t template (ts|min|lp)"
    ∷ entry b'I' set_export_to_pktid "INFO: -I pktid export interval (s)"
    ∷ entry b'J' set_export_to_probestats "INFO: -J porbe stats export interval (s)"
    ∷ entry b'K' set_export_to_ifstats "INFO: -K interface stats export interval (s)"
    ∷ []

-- The loop of get_cfg_fct.
unfoldable pub find_cfg_fct : ℕ → List ConfigFunction → Option ConfigFunction
find_cfg_fct cmd [] = none
find_cfg_fct cmd (f ∷ functions) =
    let rest = find_cfg_fct cmd functions in if cmd == f.cmd then some f else rest

unfoldable pub get_cfg_fct : ℕ → Option ConfigFunction
unfolding find_cfg_fct configuration_fct
get_cfg_fct cmd = find_cfg_fct cmd configuration_fct

-- All descriptions, one behind the other.
pub help_text : List ConfigFunction → Text
help_text [] = []
help_text (f ∷ functions) = f.desc ++ help_text functions

-- `*msg`, with the terminator at the end of the text.
abbrev pub first_byte : Text → ℕ
first_byte [] = 0
first_byte (c ∷ s) = c

unfoldable pub configuration_help : Text → Text
unfolding get_cfg_fct help_text
configuration_help msg = elim (get_cfg_fct (first_byte msg)) [
  | none ↦ help_text configuration_fct
  | some f ↦ f.desc
]

-- What each command leaves and answers, where it returns.
unfoldable pub answer_of : Outside → Option ConfigFunction → Text → Configured → Answered
unfolding configuration_help configuration_set_ratio configuration_set_min_selection
    configuration_set_max_selection filter_answer configuration_set_template
    configuration_set_export_to_pktid configuration_set_export_to_probestats
    configuration_set_export_to_ifstats
answer_of outside none msg c = (c, codes "unknown command received")
answer_of outside (some f) msg c = elim f.fct [
  | help ↦ (c, configuration_help msg)
  | set_ratio ↦ configuration_set_ratio outside msg c
  | set_min_selection ↦ configuration_set_min_selection outside msg c
  | set_max_selection ↦ configuration_set_max_selection outside msg c
  | set_filter ↦ filter_answer msg c
  | set_template ↦ configuration_set_template msg c
  | set_export_to_pktid ↦ configuration_set_export_to_pktid outside msg c
  | set_export_to_probestats ↦ configuration_set_export_to_probestats outside msg c
  | set_export_to_ifstats ↦ configuration_set_export_to_ifstats outside msg c
]

-- The function that getFunction finds, or unknown_cmd_fct, on a message. Only that of a filter may fail to return.
unfoldable pub run_command : Outside → Option ConfigFunction → Text → Configured → Outcome Answered
unfolding answer_of configuration_set_filter
run_command outside none msg c = ok (answer_of outside none msg c)
run_command outside (some f) msg c = elim f.fct [
  | help ↦ ok (answer_of outside (some f) msg c)
  | set_ratio ↦ ok (answer_of outside (some f) msg c)
  | set_min_selection ↦ ok (answer_of outside (some f) msg c)
  | set_max_selection ↦ ok (answer_of outside (some f) msg c)
  | set_filter ↦ configuration_set_filter msg c
  | set_template ↦ ok (answer_of outside (some f) msg c)
  | set_export_to_pktid ↦ ok (answer_of outside (some f) msg c)
  | set_export_to_probestats ↦ ok (answer_of outside (some f) msg c)
  | set_export_to_ifstats ↦ ok (answer_of outside (some f) msg c)
]

-- The text behind the first hyphen.
unfoldable pub behind_hyphen : Text → Option Text
behind_hyphen [] = none
behind_hyphen (c ∷ s) = let rest = behind_hyphen s in if c == b'-' then some s else rest

-- The response to each of the `n` interfaces from index `i` on.
unfoldable pub send_response : (ℕ → Bool) → ℕ → ℕ → Text → ℕ → ℕ → Outcome (List Effect)
send_response accepted time mid response i zero = ok []
send_response accepted time mid response i (suc n) = do
  here ← export_data_sync (accepted i) time (u32 mid) 0 response
  rest ← send_response accepted time mid response (suc i) n
  ok (here ++ rest)

pub record Reply : Type 0 where
  pub matched : Bool
  pub configured : Configured
  pub effects : List Effect

-- `time` is in milliseconds. Where the message ends in the hyphen, the code steps over the terminator.
unfoldable pub runtime_configuration_cb :
    Outside → (ℕ → Bool) → ℕ → Text → Configured → Outcome Reply
unfolding behind_hyphen
runtime_configuration_cb outside accepted time conf_msg c = elim (outside.scan_mid conf_msg) [
  | none ↦ ok (record { matched = false; configured = c; effects = [] })
  | some mid ↦ elim (behind_hyphen conf_msg) [
    | none ↦ ok (record { matched = false; configured = c; effects = [] })
    | some [] ↦ err overread
    | some (cmd ∷ value) ↦ (do
      answer ← run_command outside (get_cfg_fct cmd) (skip_spaces value) c
      effects ← send_response accepted time mid answer.1 0 answer.0.settings.number_interfaces
      ok (record { matched = true; configured = answer.0; effects = effects }))
  ]
]

-- isalpha in the C locale.
is_alpha : ℕ → Bool
is_alpha c = (leb b'a' c && leb c b'z') || (leb b'A' c && leb c b'Z')

-- From the first letter on.
unfoldable pub skip_to_alpha : Text → Text
unfolding is_alpha
skip_to_alpha [] = []
skip_to_alpha (c ∷ s) = let rest = skip_to_alpha s in if is_alpha c then c ∷ s else rest

-- strncmp with the word's length, as a test for 0.
unfoldable pub begins_with : Text → Text → Bool
begins_with s [] = true
begins_with [] (d ∷ word) = false
begins_with (c ∷ s) (d ∷ word) = (c == d) && begins_with s word

-- The call of the function that the first letter names, on a line without a letter nothing.
unfoldable pub run_line : Outside → Text → Configured → Outcome Answered
run_line outside [] c = ok (c, [])
run_line outside (cmd ∷ value) c = run_command outside (get_cfg_fct cmd) (skip_spaces value) c

-- On the line that fgets read: `none` is the call of exit.
unfoldable pub user_input_cb : Outside → Text → Configured → Outcome (Option Answered)
unfolding skip_to_alpha begins_with run_line
user_input_cb outside buffer c =
    if begins_with buffer (codes "exit") || begins_with buffer (codes "quit")
    then ok none
    else (do answer ← run_line outside (skip_to_alpha buffer) c; ok (some answer))
