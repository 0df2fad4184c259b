-- ===== src/Settings/Others.antt =====
-- src/settings.c: the handlers of the options that only store what they are given, for the parts
-- that talk to the collector, and the splitting of -l and -L; with parse_ip_port of
-- src/socket_handler.c, which splits the same way.
--
-- atoi is an argument. Of an interval the text that atof reads is kept.
use impd4e.Common.{
  ℕ, suc, ◌+◌, ◌-◌, ◌≤◌, ◌<◌, ◌%◌, [], ◌∷◌, ◌++◌, Bool, true, false, ltb, ◌==◌, if◌then◌else◌,
  length, Option, none, some, ℤ, pos, negsuc, to_u16, Outcome, ok, err, overflow, ◌≡◌, refl, ap,
  arith, All,
}
use impd4e.Hash.{HashFunction}
use impd4e.Range.{Text, is_digit}
use impd4e.Settings.Names.{parse_function}
use impd4e.Settings.Table.{codes}

-- The options, beside those of Device.
pub record Others : Type 0 where
  pub collector_ip : Text
  pub collector_port : ℤ
  pub bpf : Option Text
  pub ai_family_inet6 : Bool
  pub observation_domain_id : ℤ
  pub use_oid_first_interface : Bool
  pub verbosity : ℕ
  pub verbosity_filter_string : Option Text
  pub s_probe_name : Option Text
  pub s_location_name : Text
  pub s_latitude : Text
  pub s_longitude : Text
  pub export_stats_interval : Text
  pub export_sampling_interval : Text
  pub export_location_interval : Text
  pub pktid_function : Option HashFunction
  pub hash_as_packet_id : Bool

-- set_defaults_options, for these fields. `none` is a null pointer.
abbrev pub default_others : Others
default_others = record {
  collector_ip = codes "localhost";
  collector_port = pos 4739;
  bpf = none;
  ai_family_inet6 = true;
  observation_domain_id = pos 0;
  use_oid_first_interface = false;
  verbosity = 0;
  verbosity_filter_string = some [];
  s_probe_name = none;
  s_location_name = codes "unknown";
  s_latitude = codes "unknown";
  s_longitude = codes "unknown";
  export_stats_interval = codes "30.0";
  export_sampling_interval = codes "10.0";
  export_location_interval = codes "60.0";
  pktid_function = none;
  hash_as_packet_id = true;
}

-- The conversion of an int to int16_t.
unfoldable pub to_i16 : ℤ → ℤ
to_i16 z = if ltb (to_u16 z) 32768 then pos (to_u16 z) else negsuc (65535 - to_u16 z)

-- strcpy to the 256 bytes of collectorIP.
unfoldable pub opt_C : Text → Others → Outcome Others
opt_C arg o = if ltb (length arg) 256 then ok (record o { collector_ip = arg }) else err overflow

-- `none` is the call of exit; the int16_t is what is compared with 0.
unfoldable pub opt_P : (Text → ℤ) → Text → Others → Option Others
opt_P atoi arg o = elim (to_i16 (atoi arg)) [
  | pos port ↦ some (record o { collector_port = pos port })
  | negsuc n ↦ none
]

unfoldable pub opt_f : Text → Others → Others
opt_f arg o = record o { bpf = some arg }

unfoldable pub opt_4 : Others → Others
opt_4 o = record o { ai_family_inet6 = false }

unfoldable pub opt_6 : Others → Others
opt_6 o = record o { ai_family_inet6 = true }

unfoldable pub opt_o : (Text → ℤ) → Text → Others → Others
opt_o atoi arg o = record o { observation_domain_id = atoi arg }

unfoldable pub opt_u : Others → Others
opt_u o = record o { use_oid_first_interface = true }

unfoldable pub opt_d : Text → Others → Others
opt_d arg o = record o { s_probe_name = some arg }

unfoldable pub opt_D : Text → Others → Others
opt_D arg o = record o { s_location_name = arg }

unfoldable pub opt_p : Text → Others → Others
opt_p arg o = record o { pktid_function = some (parse_function arg); hash_as_packet_id = false }

unfoldable pub opt_J : Text → Others → Others
opt_J arg o = record o { export_stats_interval = arg }

unfoldable pub opt_K : Text → Others → Others
opt_K arg o = record o { export_sampling_interval = arg }

unfoldable pub opt_G : Text → Others → Others
opt_G arg o = record o { export_location_interval = arg }

-- The number of letters v at the start, and what is behind them.
unfoldable pub leading_v : Text → ℕ × Text
leading_v [] = (0, [])
leading_v (c ∷ s) = let rest = leading_v s in if c == b'v' then (suc rest.0, rest.1) else (0, c ∷ s)

unfoldable pub begins_with_digit : Text → Bool
begins_with_digit [] = false
begins_with_digit (c ∷ s) = is_digit c

unfoldable pub u8_of : ℤ → ℕ
u8_of (pos n) = n % 256
u8_of (negsuc n) = 255 - n % 256

-- With the level as a number, or with one more for the option and for each v of its argument, the
-- rest of which is the filter. `none` is no argument.
unfoldable pub opt_v : (Text → ℤ) → Option Text → Others → Others
unfolding begins_with_digit u8_of
opt_v atoi none o = record o { verbosity = (o.verbosity + 1) % 256 }
opt_v atoi (some arg) o =
    let more = leading_v arg in
    if begins_with_digit arg then record o { verbosity = u8_of (atoi arg) } else record o {
      verbosity = (o.verbosity + 1 + more.0) % 256;
      verbosity_filter_string = some more.1;
    }

-- A token of strtok with ":" and what is behind it.
unfoldable pub until_colon : Text → Text × Text
until_colon [] = ([], [])
until_colon (c ∷ s) =
    let rest = until_colon s in if c == b':' then ([], s) else (c ∷ rest.0, rest.1)

unfoldable pub strtok_colon : Text → Option (Text × Text)
strtok_colon [] = none
strtok_colon (c ∷ s) =
    let rest = strtok_colon s in if c == b':' then rest else some (until_colon (c ∷ s))

-- The third token of -l and -L.
unfoldable pub location_interval : Text → Others → Others
unfolding begins_with_digit
location_interval s o = elim (strtok_colon s) [
  | none ↦ o
  | some (token, rest) ↦
      if begins_with_digit token then record o { export_location_interval = token } else o
]

unfoldable pub opt_l : Text → Others → Others
unfolding location_interval
opt_l arg o = elim (strtok_colon arg) [
  | none ↦ o
  | some (first, rest) ↦ elim (strtok_colon rest) [
    | none ↦ record o { s_latitude = first }
    | some (second, rest') ↦
        location_interval rest' (record o { s_latitude = first; s_longitude = second })
  ]
]

unfoldable pub opt_L : Text → Others → Others
unfolding location_interval
opt_L arg o = elim (strtok_colon arg) [
  | none ↦ o
  | some (first, rest) ↦ elim (strtok_colon rest) [
    | none ↦ record o { s_longitude = first }
    | some (second, rest') ↦
        location_interval rest' (record o { s_longitude = first; s_latitude = second })
  ]
]

-- The address and the port, each empty where it is missing.
unfoldable pub parse_ip_port : Text → Text × Text
parse_ip_port s = elim (strtok_colon s) [
  | none ↦ ([], [])
  | some (ip, rest) ↦ elim (strtok_colon rest) [ none ↦ (ip, []) | some (port, rest') ↦ (ip, port) ]
]

-- A token: not empty and without a colon.
abbrev pub NoColon : Text → Type 0
NoColon s = All (λ c. (c == b':') ≡ false) s

until_colon-append : (s rest : Text) → NoColon s → until_colon (s ++ (b':' ∷ rest)) ≡ (s, rest)
unfolding until_colon
until_colon-append [] rest h = refl
until_colon-append (c ∷ s) rest (p, h) = rw p (rw (until_colon-append s rest h) refl)

until_colon_all : (s : Text) → NoColon s → until_colon s ≡ (s, [])
unfolding until_colon
until_colon_all [] h = refl
until_colon_all (c ∷ s) (p, h) = rw p (rw (until_colon_all s h) refl)

strtok_colon-append :
    (c : ℕ) (s rest : Text)
    → NoColon (c ∷ s)
    → strtok_colon ((c ∷ s) ++ (b':' ∷ rest)) ≡ some (c ∷ s, rest)
unfolding strtok_colon
strtok_colon-append c s rest (p, h) = rw p (ap some (until_colon-append (c ∷ s) rest (p, h)))

strtok_colon_all : (c : ℕ) (s : Text) → NoColon (c ∷ s) → strtok_colon (c ∷ s) ≡ some (c ∷ s, [])
unfolding strtok_colon
strtok_colon_all c s (p, h) = rw p (ap some (until_colon_all (c ∷ s) (p, h)))

-- An address and a port that are written with a colon between them are read back, where neither is
-- empty or has a colon of its own.
parse_ip_port_joined :
    (c d : ℕ) (ip port : Text)
    → NoColon (c ∷ ip)
    → NoColon (d ∷ port)
    → parse_ip_port ((c ∷ ip) ++ (b':' ∷ (d ∷ port))) ≡ (c ∷ ip, d ∷ port)
unfolding parse_ip_port
parse_ip_port_joined c d ip port h k =
    let first = strtok_colon-append c ip (d ∷ port) h in
    let second = strtok_colon_all d port k in
    rw (first, parse_ip_port) (rw (second, parse_ip_port) refl)

-- A collector port from 32768 on, though it is a port, ends the program.
opt_P_high :
    (atoi : Text → ℤ) (arg : Text) (o : Others) (port : ℕ)
    → atoi arg ≡ pos port
    → 32768 ≤ port
    → port < 65536
    → opt_P atoi arg o ≡ none
unfolding opt_P to_i16
opt_P_high atoi arg o port e low high = ground arith
