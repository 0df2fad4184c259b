-- ===== src/Tests/Filter.antt =====
-- Concrete filters of PF_RING.
use impd4e.Common.{
  List, [], ◌∷◌, ◌++◌, Bool, true, not, ◌==◌, ok, err, no_fuel, pos, negsuc, Ensures, ◌≡◌, ◌↔◌,
  refl, arith,
}
use impd4e.Range.{digits_value}
use impd4e.Settings.Table.{codes}
use impd4e.Filter.{
  Rule, empty_rule, Address, kw_vlan, parse_pfring_filter_arg, parse_args, parse_pfring_filter,
  pfring_filter_keywords,
}
use impd4e.Filter.Protocols.{ip_protocols}
use impd4e.Filter.Numbers.{set_proto-name, prot_read, is_shadowed}
use impd4e.Filter.Once.{Keeps, parse_args-Keeps, IsExtended, parse_pfring_filter-IsExtended}
use impd4e.Filter.Words.{SetsField, parse_pfring_filter_arg-keyword}
use impd4e.Filter.Install.{
  Filtering, Installed, default_rule, install_each, set_pfring_filter, set_pfring_filter-each,
  set_pfring_filter-full,
}

-- No address is known but that of "1".
abbrev address : Address
address text = digits_value 0 text

abbrev vlan_rule : Rule
vlan_rule = record empty_rule { vlan_id = 7 }

parse_args-Keeps_example :
    Ensures
      (Keeps address vlan_rule)
      (parse_args address address (codes "vlan:9" ∷ codes "prio:2" ∷ []) vlan_rule)
parse_args-Keeps_example =
    parse_args-Keeps address address (codes "vlan:9" ∷ codes "prio:2" ∷ []) vlan_rule

parse_pfring_filter-IsExtended_example :
    Ensures
      (IsExtended address (vlan_rule ∷ []))
      (parse_pfring_filter address address (codes "prot:tcp port:80") (vlan_rule ∷ []))
parse_pfring_filter-IsExtended_example =
    parse_pfring_filter-IsExtended address address (codes "prot:tcp port:80") (vlan_rule ∷ [])
      (omega arith)

parse_pfring_filter_arg-keyword_example :
    (rule' : Rule) × (parse_pfring_filter_arg address address (codes "vlan:42") empty_rule
      ≡ ok rule')
    × SetsField address address kw_vlan (codes "42") empty_rule rule'
unfolding pfring_filter_keywords
parse_pfring_filter_arg-keyword_example =
    parse_pfring_filter_arg-keyword address address empty_rule 10 b'4' (b'2' ∷ [])
      {name = codes "vlan"} {keyword = kw_vlan} refl (refl, (refl, tt))

set_proto-name_example :
    (prot_read (codes "ipv6-icmp") == 58) ≡ not (is_shadowed 58 (codes "ipv6-icmp"))
unfolding ip_protocols
set_proto-name_example = set_proto-name 58 {name = codes "ipv6-icmp"} refl

abbrev two_rules : Filtering
two_rules = record { rules = vlan_rule ∷ empty_rule ∷ []; filter_policy = negsuc 0 }

abbrev accepts : Installed → Bool
accepts rule = true

set_pfring_filter-each_example :
    (set_pfring_filter accepts 1 2 256 two_rules ≡ (
      let each = install_each accepts 1 2 (default_rule two_rules).rules in
      ok (record { filtering = default_rule two_rules; returned = each.0; calls = each.1 })))
    × (((default_rule two_rules).filter_policy ≡ pos 1) ↔ (two_rules.rules ≡ []))
set_pfring_filter-each_example =
    set_pfring_filter-each accepts 1 2 256 two_rules (omega arith) (omega arith)

abbrev double : List Rule → List Rule
double rules = rules ++ rules

abbrev full : Filtering
full = record {
  rules = double (double (double (double (double (double (double (double (vlan_rule ∷ []))))))));
  filter_policy = negsuc 0;
}

set_pfring_filter-full_example : set_pfring_filter accepts 1 2 1000 full ≡ err no_fuel
set_pfring_filter-full_example = set_pfring_filter-full accepts 1 2 1000 full (λ rule. refl) refl
