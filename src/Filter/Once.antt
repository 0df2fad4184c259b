-- ===== src/Filter/Once.antt =====
-- What the arguments of one -a option do to the rule that they build together.
use impd4e.Common.{
  ℕ, suc, ◌+◌, ◌≤◌, List, [], ◌∷◌, ◌++◌, true, ◌&&◌, ◌==◌, Option, none, some, Ensures, returns,
  faults, Ensures-bind, Ensures-ok, Ensures-map, Bool-cases, inl, inr, ◌⊎◌, length, ltb, ltb→lt,
  length-append, ◌≡◌, ◌≢◌, refl, arith,
}
use impd4e.Range.{Text}
use impd4e.Settings.Names.{has_name}
use impd4e.Filter.{
  Keyword, kw_prot, kw_ipl, kw_iph, kw_ip, kw_portl, kw_porth, kw_port, kw_macl, kw_mach, kw_mac,
  kw_vlan, kw_prio, Rule, Address, Number, no_address, set_proto, set_field, apply_keyword,
  find_keyword, pfring_filter_keywords, ended_at, value_of, strtok_r, parse_pfring_filter_arg,
  parse_args, parse_pfring_filter, add_rule, any_field_set, max_rules, tokens, parse_tokens,
}
use impd4e.Filter.Protocols.{ip_protocols}

-- The fields that are set in the one rule stand in the other.
abbrev pub Keeps : Address → Rule → Rule → Type 0
Keeps address r r' =
    (r.proto ≢ 0 → r'.proto ≡ r.proto)
    × (r.host_low ≢ no_address address → r'.host_low ≡ r.host_low)
    × (r.host_high ≢ no_address address → r'.host_high ≡ r.host_high)
    × (r.port_low ≢ 0 → r'.port_low ≡ r.port_low)
    × (r.port_high ≢ 0 → r'.port_high ≡ r.port_high)
    × (r.vlan_id ≢ 0 → r'.vlan_id ≡ r.vlan_id)
    × (r.rule_id ≢ 0 → r'.rule_id ≡ r.rule_id)

Keeps-refl : (address : Address) (r : Rule) → Keeps address r r
Keeps-refl address r = (λ h. refl, λ h. refl, λ h. refl, λ h. refl, λ h. refl, λ h. refl, λ h. refl)

keep_trans :
    (none_set a b c : ℕ) → (a ≢ none_set → b ≡ a) → (b ≢ none_set → c ≡ b) → a ≢ none_set → c ≡ a
keep_trans none_set a b c f g h = let e = f h in ground arith

Keeps-trans :
    (address : Address) (r s t : Rule) → Keeps address r s → Keeps address s t → Keeps address r t
Keeps-trans address r s t (a, b, c, d, e, f, g) (a', b', c', d', e', f', g') = (
  keep_trans 0 r.proto s.proto t.proto a a',
  keep_trans (no_address address) r.host_low s.host_low t.host_low b b',
  keep_trans (no_address address) r.host_high s.host_high t.host_high c c',
  keep_trans 0 r.port_low s.port_low t.port_low d d',
  keep_trans 0 r.port_high s.port_high t.port_high e e',
  keep_trans 0 r.vlan_id s.vlan_id t.vlan_id f f',
  keep_trans 0 r.rule_id s.rule_id t.rule_id g g',
)

set_proto-Keeps :
    (address : Address) (k : ℕ) (names : List Text) (value : Text) (r : Rule)
    → Keeps address r (set_proto k names value r)
unfolding set_proto
set_proto-Keeps address k [] value r = Keeps-refl address r
set_proto-Keeps address k (name ∷ names) value r =
    elim (Bool-cases (has_name value name && r.proto == 0)) [
      | inl h ↦
          let set : Rule = record r { proto = k } in
          rw (h, set_proto)
            (Keeps-trans address r set (set_proto (k + 1) names value set)
              (
                λ n. absurd (ground arith),
                λ n. refl,
                λ n. refl,
                λ n. refl,
                λ n. refl,
                λ n. refl,
                λ n. refl,
              )
              (set_proto-Keeps address (k + 1) names value set))
      | inr h ↦ rw (h, set_proto) (set_proto-Keeps address (k + 1) names value r)
    ]

set_field-Keeps :
    (address : Address) (number : Number) (keyword : Keyword) (value : Text) (r : Rule)
    → Keeps address r (set_field address number keyword value r)
unfolding set_field
set_field-Keeps address number kw_prot value r = set_proto-Keeps address 0 ip_protocols value r
set_field-Keeps address number kw_ipl value r = ground arith
set_field-Keeps address number kw_iph value r = ground arith
set_field-Keeps address number kw_ip value r = ground arith
set_field-Keeps address number kw_portl value r = ground arith
set_field-Keeps address number kw_porth value r = ground arith
set_field-Keeps address number kw_port value r = ground arith
set_field-Keeps address number kw_macl value r = Keeps-refl address r
set_field-Keeps address number kw_mach value r = Keeps-refl address r
set_field-Keeps address number kw_mac value r = Keeps-refl address r
set_field-Keeps address number kw_vlan value r = ground arith
set_field-Keeps address number kw_prio value r = ground arith

parse_pfring_filter_arg-Keeps :
    (address : Address) (number : Number) (arg : Text) (r : Rule)
    → Ensures (Keeps address r) (parse_pfring_filter_arg address number arg r)
unfolding parse_pfring_filter_arg apply_keyword
parse_pfring_filter_arg-Keeps address number arg r =
    by_keyword (find_keyword (ended_at b':' arg) pfring_filter_keywords)
      (value_of (strtok_r b':' arg))
  where
    by_keyword :
        (keyword : Option Keyword) (value : Option (Text × Text))
        → Ensures (Keeps address r) (apply_keyword address number keyword value r)
    by_keyword none value = returns r (Keeps-refl address r)
    by_keyword (some keyword) none = faults _
    by_keyword (some keyword) (some (value, rest)) =
        returns (set_field address number keyword value r)
          (set_field-Keeps address number keyword value r)

-- Of the arguments of one -a option, the first that sets a field decides it: whatever arguments
-- follow, a field of the rule that is set (an address: is not that of "0") keeps its value, where the parsing returns.
pub parse_args-Keeps :
    (address : Address) (number : Number) (args : List Text) (r : Rule)
    → Ensures (Keeps address r) (parse_args address number args r)
unfolding parse_args
parse_args-Keeps address number [] r = returns r (Keeps-refl address r)
parse_args-Keeps address number (arg ∷ args) r =
    Ensures-bind (parse_pfring_filter_arg address number arg r) _ (λ s e.
      Ensures-map (parse_args address number args s)
        (λ t.
          Keeps-trans address r s t
            (Ensures-ok (parse_pfring_filter_arg-Keeps address number arg r) e))
        (parse_args-Keeps address number args s))

-- The list is as it was, or has one rule more behind it, with a field that is set.
abbrev pub IsExtended : Address → List Rule → List Rule → Type 0
IsExtended address rules rules' =
    (length rules' ≤ max_rules)
    × ((rules' ≡ rules)
        ⊎ ((rule : Rule) × (rules' ≡ rules ++ rule ∷ []) × (any_field_set address rule ≡ true)))

add_rule-IsExtended :
    (address : Address) (rule : Rule) (rules : List Rule)
    → length rules ≤ max_rules
    → IsExtended address rules (add_rule address rule rules)
unfolding add_rule
add_rule-IsExtended address rule rules h = elim (Bool-cases (any_field_set address rule)) [
  | inr unset ↦ rw unset (h, inl refl)
  | inl set ↦ elim (Bool-cases (ltb (length rules) max_rules)) [
    | inr full ↦ rw (set, full) (h, inl refl)
    | inl room ↦
        rw (set, room)
          (
            let below = ltb→lt (length rules) max_rules room in
                omega (arith, length-append rules (rule ∷ [])),
            inr (rule, refl, set),
          )
  ]
]

-- An -a option keeps the rules that were there, in their order, adds at most one rule, which has a field
-- that is set, and never leaves more rules than the array of 256 holds, where it returns.
pub parse_pfring_filter-IsExtended :
    (address : Address) (number : Number) (arg_string : Text) (rules : List Rule)
    → length rules ≤ max_rules
    → Ensures (IsExtended address rules) (parse_pfring_filter address number arg_string rules)
unfolding parse_pfring_filter
parse_pfring_filter-IsExtended address number arg_string rules h =
    Ensures-bind (parse_tokens address number (tokens b' ' (suc (length arg_string)) arg_string)) _
      (λ rule e. returns _ (add_rule-IsExtended address rule rules h))
