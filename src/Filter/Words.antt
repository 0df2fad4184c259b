-- ===== src/Filter/Words.antt =====
-- How the argument of an -a option is split, and what one argument of it sets.
use impd4e.Common.{
  ◌+◌, true, ◌&&◌, ==_iff, ◌≢◌, ℕ, zero, suc, ◌≤◌, ◌<◌, List, [], ◌∷◌, ◌++◌, false, ◌==◌,
  if◌then◌else◌, some, ok, Bool-cases, inl, inr, ◌⊎◌, length, All, get_elem?, get_elem?-All, ◌≡◌,
  refl, ◌∙◌, sym, ap, arith,
}
use impd4e.Range.{Text}
use impd4e.Settings.Names.{has_name}
use impd4e.Settings.Table.{codes}
use impd4e.Filter.Protocols.{ip_protocols}
use impd4e.Filter.{
  Keyword, kw_prot, kw_ipl, kw_iph, kw_ip, kw_portl, kw_porth, kw_port, kw_macl, kw_mach, kw_mac,
  kw_vlan, kw_prio, Rule, Address, Number, no_address, set_proto, set_field, find_keyword,
  pfring_filter_keywords, ended_at, value_of, strtok_r, token_of, skip_delimiters, split_delimiter,
  parse_pfring_filter_arg, apply_keyword, tokens,
}

-- The words of a text, from its start on: at each delimiter a word ends, and empty ones are left out.
abbrev pub end_word : Text → List Text → List Text
end_word [] rest = rest
end_word (c ∷ word) rest = (c ∷ word) ∷ rest

-- The word that begins here, which may be empty, and the words behind it.
unfoldable pub words : ℕ → Text → Text × List Text
words d [] = ([], [])
words d (c ∷ s) =
    let rest = words d s in if c == d then ([], end_word rest.0 rest.1) else (c ∷ rest.0, rest.1)

abbrev pub all_words : ℕ → Text → List Text
all_words d s = end_word (words d s).0 (words d s).1

skip_delimiters-words : (d : ℕ) (s : Text) → all_words d (skip_delimiters d s) ≡ all_words d s
unfolding words skip_delimiters
skip_delimiters-words d [] = refl
skip_delimiters-words d (c ∷ s) = elim (Bool-cases (c == d)) [
  | inl h ↦ rw (h, skip_delimiters, words) (skip_delimiters-words d s)
  | inr h ↦
      let same : skip_delimiters d (c ∷ s) ≡ c ∷ s = rw (h, skip_delimiters) refl in
      ap (all_words d) same
]

split_delimiter-words :
    (d : ℕ) (s : Text) → words d s ≡ ((split_delimiter d s).0, all_words d (split_delimiter d s).1)
unfolding words split_delimiter
split_delimiter-words d [] = refl
split_delimiter-words d (c ∷ s) = elim (Bool-cases (c == d)) [
  | inl h ↦ rw h refl
  | inr h ↦ rw h (ap (λ r. (c ∷ r.0, r.1)) (split_delimiter-words d s))
]

length-split_delimiter : (d : ℕ) (s : Text) → length (split_delimiter d s).1 ≤ length s
unfolding split_delimiter
length-split_delimiter d [] = omega arith
length-split_delimiter d (c ∷ s) = elim (Bool-cases (c == d)) [
  | inl h ↦ rw h (omega arith)
  | inr h ↦ rw h (omega (arith, length-split_delimiter d s))
]

length-skip_delimiters : (d : ℕ) (s : Text) → length (skip_delimiters d s) ≤ length s
unfolding skip_delimiters
length-skip_delimiters d [] = omega arith
length-skip_delimiters d (c ∷ s) = elim (Bool-cases (c == d)) [
  | inl h ↦ rw h (omega (arith, length-skip_delimiters d s))
  | inr h ↦ rw h (omega arith)
]

-- Nothing is left, or a character that is no delimiter begins what is left.
skip_delimiters-cases :
    (d : ℕ) (s : Text)
    → (skip_delimiters d s ≡ [])
      ⊎ ((c : ℕ) × (rest : Text) × (skip_delimiters d s ≡ c ∷ rest) × ((c == d) ≡ false))
unfolding skip_delimiters
skip_delimiters-cases d [] = inl refl
skip_delimiters-cases d (c ∷ s) = elim (Bool-cases (c == d)) [
  | inl h ↦ rw h (skip_delimiters-cases d s)
  | inr h ↦ rw h (inr (c, s, refl, h))
]

tokens-words : (d fuel : ℕ) (s : Text) → length s < fuel → tokens d fuel s ≡ all_words d s
unfolding tokens strtok_r token_of split_delimiter words
tokens-words d zero s h = absurd (omega arith)
tokens-words d (suc fuel) s h = elim (skip_delimiters-cases d s) [
  | inl none_left ↦
      rw (none_left, tokens) (ap (all_words d) (sym none_left) ∙ skip_delimiters-words d s)
  | inr (c, rest, left, other) ↦
      let parts = split_delimiter-words d (c ∷ rest) in
      let shorter : length (split_delimiter d (c ∷ rest)).1 < fuel = after c rest left other in
      rw (left, tokens)
        (rw (tokens-words d fuel (split_delimiter d (c ∷ rest)).1 shorter) (
          sym (
            sym (skip_delimiters-words d s)
            ∙ ap (all_words d) left
            ∙ ap (λ w. end_word w.0 w.1) parts
            ∙ word_first c rest other)))
]
  where
    after :
        (c : ℕ) (rest : Text)
        → skip_delimiters d s ≡ c ∷ rest
        → (c == d) ≡ false
        → length (split_delimiter d (c ∷ rest)).1 < fuel
    after c rest left other =
        let fits = length-skip_delimiters d s in
        let same = ap length left in rw other (omega (arith, length-split_delimiter d rest))

    word_first :
        (c : ℕ) (rest : Text)
        → (c == d) ≡ false
        → end_word (split_delimiter d (c ∷ rest)).0 (all_words d (split_delimiter d (c ∷ rest)).1)
          ≡ (split_delimiter d (c ∷ rest)).0 ∷ all_words d (split_delimiter d (c ∷ rest)).1
    word_first c rest other = rw other refl

-- A text without the delimiter.
abbrev pub Without : ℕ → Text → Type 0
Without d s = All (λ c. (c == d) ≡ false) s

split_delimiter_whole : (d : ℕ) (s : Text) → Without d s → split_delimiter d s ≡ (s, [])
unfolding split_delimiter
split_delimiter_whole d [] h = refl
split_delimiter_whole d (c ∷ s) (p, h) = rw p (rw (split_delimiter_whole d s h) refl)

strtok_r_whole : (d c : ℕ) (s : Text) → Without d (c ∷ s) → strtok_r d (c ∷ s) ≡ some (c ∷ s, [])
unfolding strtok_r skip_delimiters token_of
strtok_r_whole d c s (p, h) =
    let same : skip_delimiters d (c ∷ s) ≡ c ∷ s = rw p refl in
    rw same (ap some (split_delimiter_whole d (c ∷ s) (p, h)))

-- The argument that is written as a keyword, a colon and a value.
abbrev Reads : Address → Number → Rule → Text → Text × Keyword → Type 0
Reads address number rule value (name, keyword) =
    parse_pfring_filter_arg address number (name ++ (b':' ∷ value)) rule
    ≡ ok (set_field address number keyword value rule)

read-keyword :
    (address : Address) (number : Number) (rule : Rule) (arg name : Text) (c : ℕ) (s : Text)
    (keyword : Keyword)
    → Without b':' (c ∷ s)
    → find_keyword (ended_at b':' arg) pfring_filter_keywords ≡ some keyword
    → strtok_r b':' arg ≡ some (name, c ∷ s)
    → parse_pfring_filter_arg address number arg rule
      ≡ ok (set_field address number keyword (c ∷ s) rule)
unfolding parse_pfring_filter_arg apply_keyword value_of
read-keyword address number rule arg name c s keyword plain found split =
    rw (found, split, strtok_r_whole b':' c s plain) refl

keyword-Reads :
    (address : Address) (number : Number) (rule : Rule) (c : ℕ) (s : Text)
    → Without b':' (c ∷ s)
    → All (Reads address number rule (c ∷ s)) pfring_filter_keywords
unfolding pfring_filter_keywords find_keyword ended_at strtok_r has_name split_delimiter
    skip_delimiters token_of
keyword-Reads address number rule c s plain =
    let read = λ (name : Text) (keyword : Keyword).
      read-keyword address number rule (name ++ (b':' ∷ (c ∷ s))) name c s keyword plain in
    (
      read (codes "prot") kw_prot refl refl,
      (
        read (codes "ipl") kw_ipl refl refl,
        (
          read (codes "iph") kw_iph refl refl,
          (
            read (codes "ip") kw_ip refl refl,
            (
              read (codes "portl") kw_portl refl refl,
              (
                read (codes "porth") kw_porth refl refl,
                (
                  read (codes "port") kw_port refl refl,
                  (
                    read (codes "macl") kw_macl refl refl,
                    (
                      read (codes "mach") kw_mach refl refl,
                      (
                        read (codes "mac") kw_mac refl refl,
                        (
                          read (codes "vlan") kw_vlan refl refl,
                          (read (codes "prio") kw_prio refl refl, tt),
                        ),
                      ),
                    ),
                  ),
                ),
              ),
            ),
          ),
        ),
      ),
    )

-- A rule that is changed if something is not set in it yet.
abbrev IfUnset : Type 0 → Rule → Rule → Rule → Type 0
IfUnset unset r changed r' = (unset × (r' ≡ changed)) ⊎ ((¬ unset) × (r' ≡ r))

-- What each keyword does to a rule.
unfoldable pub SetsField : Address → Number → Keyword → Text → Rule → Rule → Type 0
SetsField address number kw_prot v r r' =
    (r' ≡ record r { proto = r'.proto }) × (r.proto ≢ 0 → r' ≡ r)
SetsField address number kw_ipl v r r' =
    IfUnset (r.host_low ≡ no_address address) r (record r { host_low = address v }) r'
SetsField address number kw_iph v r r' =
    IfUnset (r.host_high ≡ no_address address) r (record r { host_high = address v }) r'
SetsField address number kw_ip v r r' =
    IfUnset ((r.host_low ≡ no_address address) × (r.host_high ≡ no_address address)) r
      (record r { host_low = address v; host_high = address v }) r'
SetsField address number kw_portl v r r' =
    IfUnset (r.port_low ≡ 0) r (record r { port_low = number v }) r'
SetsField address number kw_porth v r r' =
    IfUnset (r.port_high ≡ 0) r (record r { port_high = number v }) r'
SetsField address number kw_port v r r' =
    IfUnset ((r.port_low ≡ 0) × (r.port_high ≡ 0)) r
      (record r { port_low = number v; port_high = number v }) r'
SetsField address number kw_macl v r r' = r' ≡ r
SetsField address number kw_mach v r r' = r' ≡ r
SetsField address number kw_mac v r r' = r' ≡ r
SetsField address number kw_vlan v r r' =
    IfUnset (r.vlan_id ≡ 0) r (record r { vlan_id = number v }) r'
SetsField address number kw_prio v r r' =
    IfUnset (r.rule_id ≡ 0) r (record r { rule_id = number v }) r'

one_test : (a b : ℕ) (r changed : Rule) → IfUnset (a ≡ b) r changed (if a == b then changed else r)
one_test a b r changed = elim (Bool-cases (a == b)) [
  | inl h ↦ rw h (inl ((==_iff a b).0 h, refl))
  | inr h ↦ rw h (inr (differs h, refl))
]
  where
    differs : (a == b) ≡ false → ¬ (a ≡ b)
    differs h e = (let both : true ≡ false = sym ((==_iff a b).1 e) ∙ h in absurd (cc))

two_tests :
    (a b c d : ℕ) (r changed : Rule)
    → IfUnset ((a ≡ b) × (c ≡ d)) r changed (if a == b && c == d then changed else r)
two_tests a b c d r changed = elim (Bool-cases (a == b && c == d)) [
  | inl h ↦ rw h (inl (ground arith, refl))
  | inr h ↦ rw h (inr ((λ e. absurd (ground arith)), refl))
]

set_proto-others :
    (k : ℕ) (names : List Text) (v : Text) (r : Rule)
    → SetsField (λ t. 0) (λ t. 0) kw_prot v r (set_proto k names v r)
unfolding set_proto SetsField
set_proto-others k [] v r = (refl, λ set. refl)
set_proto-others k (name ∷ names) v r = elim (Bool-cases (has_name v name && r.proto == 0)) [
  | inl h ↦
      let (same, kept) = set_proto-others (k + 1) names v (record r { proto = k }) in
      rw (h, set_proto) (same, λ set. absurd (ground arith))
  | inr h ↦ rw (h, set_proto) (set_proto-others (k + 1) names v r)
]

set_field-SetsField :
    (address : Address) (number : Number) (keyword : Keyword) (v : Text) (r : Rule)
    → SetsField address number keyword v r (set_field address number keyword v r)
unfolding set_field SetsField
set_field-SetsField address number kw_prot v r = set_proto-others 0 ip_protocols v r
set_field-SetsField address number kw_ipl v r = one_test _ _ r _
set_field-SetsField address number kw_iph v r = one_test _ _ r _
set_field-SetsField address number kw_ip v r =
    swapped (two_tests r.host_high (no_address address) r.host_low (no_address address) r _)
  where
    swapped :
        {A B : Type 0} {changed r' : Rule}
        → IfUnset (A × B) r changed r'
        → IfUnset (B × A) r changed r'
    swapped (inl ((a, b), e)) = inl ((b, a), e)
    swapped (inr (n, e)) = inr ((λ p. n (p.1, p.0)), e)
set_field-SetsField address number kw_portl v r = one_test _ _ r _
set_field-SetsField address number kw_porth v r = one_test _ _ r _
set_field-SetsField address number kw_port v r = two_tests _ _ _ _ r _
set_field-SetsField address number kw_macl v r = refl
set_field-SetsField address number kw_mach v r = refl
set_field-SetsField address number kw_mac v r = refl
set_field-SetsField address number kw_vlan v r = one_test _ _ r _
set_field-SetsField address number kw_prio v r = one_test _ _ r _

-- Every keyword, written with a colon and a value behind it that is not empty and has no colon, is read as itself, though
-- some begin with others, and sets from the whole value: ipl and iph one border of the addresses, ip both, portl and porth one
-- border of the ports, port both, vlan the VLAN id and prio the rule's id, each only where it (or for ip and port both borders) is
-- not set yet; prot changes at most the protocol, and nothing where that is set; macl, mach and mac change nothing.
pub parse_pfring_filter_arg-keyword :
    (address : Address) (number : Number) (rule : Rule) (i c : ℕ) (s : Text) {name : Text}
    {keyword : Keyword}
    → get_elem? pfring_filter_keywords i ≡ some (name, keyword)
    → Without b':' (c ∷ s)
    → (rule' : Rule) × (parse_pfring_filter_arg address number (name ++ (b':' ∷ (c ∷ s))) rule
        ≡ ok rule')
      × SetsField address number keyword (c ∷ s) rule rule'
parse_pfring_filter_arg-keyword address number rule i c s {name} {keyword} listed plain = (
  set_field address number keyword (c ∷ s) rule,
  get_elem?-All (Reads address number rule (c ∷ s)) pfring_filter_keywords i {x = (name, keyword)}
      (keyword-Reads address number rule c s plain) listed,
  set_field-SetsField address number keyword (c ∷ s) rule,
)
