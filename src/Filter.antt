-- ===== src/Filter.antt =====
-- src/settings.c, parse_pfring_filter and parse_pfring_filter_arg: the option -a of a build with PF_RING, which
-- adds a filtering rule for the packets that the kernel passes on.
--
-- A rule has the fields of PF_RING's filtering_rule that the code reads or sets. PF_RING's header is no part
-- of the repository: the value that an assignment leaves in a 16-bit field from
-- atoi, and ntohl(inet_addr(..)), are parameters. A null pointer that is followed is an overread.
pub mod Protocols
pub mod Once
pub mod Words
pub mod Install
pub mod Numbers
use impd4e.Common.{
  ℕ, zero, suc, ◌+◌, List, [], ◌∷◌, ◌++◌, Bool, true, false, not, ◌&&◌, ◌||◌, ltb, ◌==◌,
  if◌then◌else◌, length, Option, none, some, Outcome, ok, err, overread, or_overread, ◌>>=◌,
}
use impd4e.Range.{Text}
use impd4e.Settings.Names.{has_name}
use impd4e.Settings.Table.{codes}
use Protocols.{ip_protocols}

-- The keywords, by which the switch of parse_pfring_filter_arg goes; the code has their indices.
pub data Keyword : Type 0 where
  kw_prot kw_ipl kw_iph kw_ip kw_portl kw_porth kw_port kw_macl kw_mach kw_mac kw_vlan kw_prio :
      Keyword

-- pfring_filter_keywords.
unfoldable pub pfring_filter_keywords : List (Text × Keyword)
pfring_filter_keywords =
    (codes "prot", kw_prot)
    ∷ (codes "ipl", kw_ipl)
    ∷ (codes "iph", kw_iph)
    ∷ (codes "ip", kw_ip)
    ∷ (codes "portl", kw_portl)
    ∷ (codes "porth", kw_porth)
    ∷ (codes "port", kw_port)
    ∷ (codes "macl", kw_macl)
    ∷ (codes "mach", kw_mach)
    ∷ (codes "mac", kw_mac)
    ∷ (codes "vlan", kw_vlan)
    ∷ (codes "prio", kw_prio)
    ∷ []

pub record Rule : Type 0 where
  pub proto : ℕ
  pub host_low : ℕ
  pub host_high : ℕ
  pub port_low : ℕ
  pub port_high : ℕ
  pub vlan_id : ℕ
  pub rule_id : ℕ

-- memset of the rule.
abbrev pub empty_rule : Rule
empty_rule = record {
  proto = 0;
  host_low = 0;
  host_high = 0;
  port_low = 0;
  port_high = 0;
  vlan_id = 0;
  rule_id = 0;
}

-- The text from the first character on that is no delimiter.
pub skip_delimiters : ℕ → Text → Text
skip_delimiters d [] = []
skip_delimiters d (c ∷ s) = let rest = skip_delimiters d s in if c == d then rest else c ∷ s

-- The text up to the next delimiter, and behind it.
pub split_delimiter : ℕ → Text → Text × Text
split_delimiter d [] = ([], [])
split_delimiter d (c ∷ s) =
    let rest = split_delimiter d s in if c == d then ([], s) else (c ∷ rest.0, rest.1)

pub token_of : ℕ → Text → Option (Text × Text)
unfolding split_delimiter
token_of d [] = none
token_of d (c ∷ s) = some (split_delimiter d (c ∷ s))

-- strtok_r with one delimiter: a token and what is left behind it, or no token.
unfoldable pub strtok_r : ℕ → Text → Option (Text × Text)
unfolding skip_delimiters token_of
strtok_r d s = token_of d (skip_delimiters d s)

-- What `arg_string` still reads as after its first strtok_r, which ends the token and leaves the delimiters before it.
pub ended_at : ℕ → Text → Text
unfolding split_delimiter
ended_at d [] = []
ended_at d (c ∷ s) =
    let rest = ended_at d s in if c == d then c ∷ rest else (split_delimiter d (c ∷ s)).0

-- The loop over the keywords, which ends at the first that the argument begins with.
pub find_keyword : Text → List (Text × Keyword) → Option Keyword
find_keyword arg [] = none
find_keyword arg ((name, keyword) ∷ keywords) =
    let rest = find_keyword arg keywords in if has_name arg name then some keyword else rest

-- The loop over the protocols, from `k` on: each whose name the value begins with is taken while the field is 0.
pub set_proto : ℕ → List Text → Text → Rule → Rule
set_proto k [] value rule = rule
set_proto k (name ∷ names) value rule =
    set_proto (k + 1) names value
      (if has_name value name && rule.proto == 0 then record rule { proto = k } else rule)

abbrev pub Address : Type 0
Address = Text → ℕ

abbrev pub Number : Type 0
Number = Text → ℕ

-- `ntohl(inet_addr("0"))`.
abbrev pub no_address : Address → ℕ
no_address address = address (b'0' ∷ [])

-- The switch.
pub set_field : Address → Number → Keyword → Text → Rule → Rule
unfolding set_proto
set_field address number kw_prot value rule = set_proto 0 ip_protocols value rule
set_field address number kw_ipl value rule =
    if rule.host_low == no_address address then record rule { host_low = address value } else rule
set_field address number kw_iph value rule =
    if rule.host_high == no_address address then record rule { host_high = address value } else rule
set_field address number kw_ip value rule =
    if rule.host_high == no_address address && rule.host_low == no_address address
    then record rule { host_low = address value; host_high = address value }
    else rule
set_field address number kw_portl value rule =
    if rule.port_low == 0 then record rule { port_low = number value } else rule
set_field address number kw_porth value rule =
    if rule.port_high == 0 then record rule { port_high = number value } else rule
set_field address number kw_port value rule =
    if rule.port_low == 0 && rule.port_high == 0
    then record rule { port_low = number value; port_high = number value }
    else rule
set_field address number kw_macl value rule = rule
set_field address number kw_mach value rule = rule
set_field address number kw_mac value rule = rule
set_field address number kw_vlan value rule =
    if rule.vlan_id == 0 then record rule { vlan_id = number value } else rule
set_field address number kw_prio value rule =
    if rule.rule_id == 0 then record rule { rule_id = number value } else rule

-- A keyword without a value follows a null pointer.
unfoldable pub apply_keyword :
    Address → Number → Option Keyword → Option (Text × Text) → Rule → Outcome Rule
unfolding set_field
apply_keyword address number none value rule = ok rule
apply_keyword address number (some keyword) none rule = err overread
apply_keyword address number (some keyword) (some (value, rest)) rule =
    ok (set_field address number keyword value rule)

-- The second strtok_r, of what the first one left.
pub value_of : Option (Text × Text) → Option (Text × Text)
unfolding strtok_r
value_of none = none
value_of (some (token, rest)) = strtok_r b':' rest

unfoldable pub parse_pfring_filter_arg : Address → Number → Text → Rule → Outcome Rule
unfolding strtok_r ended_at find_keyword value_of
parse_pfring_filter_arg address number arg_string rule =
    apply_keyword address number (find_keyword (ended_at b':' arg_string) pfring_filter_keywords)
      (value_of (strtok_r b':' arg_string)) rule

-- The tokens of strtok_r, each taken in turn; fuel bounds their number.
unfoldable pub tokens : ℕ → ℕ → Text → List Text
unfolding strtok_r
tokens d zero s = []
tokens d (suc fuel) s = elim (strtok_r d s) [
  | none ↦ []
  | some (token, rest) ↦ token ∷ tokens d fuel rest
]

unfoldable pub parse_args : Address → Number → List Text → Rule → Outcome Rule
parse_args address number [] rule = ok rule
parse_args address number (arg ∷ args) rule = do
  next ← parse_pfring_filter_arg address number arg rule
  parse_args address number args next

-- `rules_in_list` is the length of the list.
abbrev pub max_rules : ℕ
max_rules = 256

-- The condition at the end of parse_pfring_filter.
pub any_field_set : Address → Rule → Bool
any_field_set address rule =
    not (rule.proto == 0)
    || not (rule.port_low == 0)
    || not (rule.port_high == 0)
    || not (rule.host_low == no_address address)
    || not (rule.host_high == no_address address)
    || not (rule.vlan_id == 0)

pub add_rule : Address → Rule → List Rule → List Rule
unfolding any_field_set
add_rule address rule rules =
    if any_field_set address rule
    then (if ltb (length rules) max_rules then rules ++ rule ∷ [] else rules)
    else rules

-- Without a token the first argument is a null pointer, from which strtok_r reads on.
pub parse_tokens : Address → Number → List Text → Outcome Rule
parse_tokens address number [] = err overread
parse_tokens address number (arg ∷ args) = parse_args address number (arg ∷ args) empty_rule

-- opt_a.
unfoldable pub parse_pfring_filter : Address → Number → Text → List Rule → Outcome (List Rule)
unfolding parse_tokens add_rule
parse_pfring_filter address number arg_string rules = do
  rule ← parse_tokens address number (tokens b' ' (suc (length arg_string)) arg_string)
  ok (add_rule address rule rules)
