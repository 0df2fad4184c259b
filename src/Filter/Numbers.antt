-- ===== src/Filter/Numbers.antt =====
-- The numbers of the protocols that get_ip_prot and the keyword "prot" of an -a option read from the names of the table.
use impd4e.Common.{
  ℕ, zero, suc, ◌+◌, List, [], ◌∷◌, Bool, true, false, not, ◌&&◌, ◌||◌, ◌==◌, ==_iff, get_elem?,
  take, ◌≡◌, if◌then◌else◌, refl, sym, Bool-cases, inl, inr, arith, some,
}
use impd4e.Range.{Text}
use impd4e.Settings.Names.{has_name}
use impd4e.Filter.{set_proto, empty_rule}
use impd4e.Filter.Protocols.{ip_protocols, get_ip_prot}

-- A test that every entry meets, from the index `i` on.
every : (ℕ → Text → Bool) → ℕ → List Text → Bool
every test i [] = true
every test i (name ∷ names) = test i name && every test (suc i) names

get_elem?-every :
    (test : ℕ → Text → Bool) (i j : ℕ) (names : List Text) {name : Text}
    → every test i names ≡ true
    → get_elem? names j ≡ some name
    → test (j + i) name ≡ true
unfolding every
get_elem?-every test i j [] h e = absurd (cc)
get_elem?-every test i zero (n ∷ names) {name} h e =
    let same : n ≡ name = cc in
    let start : 0 + i ≡ i = omega arith in rw (start, sym same) (ground arith)
get_elem?-every test i (suc j) (n ∷ names) h e =
    let moved : suc j + i ≡ j + suc i = omega arith in
    rw moved (get_elem?-every test (suc i) j names (ground arith) e)

get_ip_prot-every : every (λ i name. get_ip_prot name == i) 0 ip_protocols ≡ true
unfolding every ip_protocols get_ip_prot
get_ip_prot-every = refl

-- Every number up to the last is read back from its name in the table, though get_ip_prot compares no more than the
-- eight characters that a pointer's size makes it compare.
pub get_ip_prot-name :
    (i : ℕ) {name : Text} → get_elem? ip_protocols i ≡ some name → get_ip_prot name ≡ i
get_ip_prot-name i {name} e =
    let start : i + 0 ≡ i = omega arith in
    let test : (get_ip_prot name == i) ≡ true =
      rw start at
        (get_elem?-every (λ i name. get_ip_prot name == i) 0 i ip_protocols get_ip_prot-every e) in
    (==_iff (get_ip_prot name) i).0 test

-- The number that "prot" sets from a value.
abbrev pub prot_read : Text → ℕ
prot_read value = (set_proto 0 ip_protocols value empty_rule).proto

-- A name begins with one of these.
is_prefix : Text → Text → Bool
is_prefix [] name = true
is_prefix (d ∷ word) [] = false
is_prefix (d ∷ word) (c ∷ name) = (d == c) && is_prefix word name

unfoldable pub begins_with_one : List Text → Text → Bool
unfolding is_prefix
begins_with_one [] name = false
begins_with_one (word ∷ words) name = is_prefix word name || begins_with_one words name

-- A name begins with that of an earlier entry of the table.
abbrev pub is_shadowed : ℕ → Text → Bool
is_shadowed i name = begins_with_one (take i ip_protocols) name

as_read : ℕ → Text → Bool
as_read i name = if is_shadowed i name then not (prot_read name == i) else prot_read name == i

as_read-every : every as_read 0 ip_protocols ≡ true
unfolding every ip_protocols as_read begins_with_one is_prefix set_proto has_name
as_read-every = refl

as_read-name :
    (i : ℕ) (name : Text) → as_read i name ≡ true → (prot_read name == i) ≡ not (is_shadowed i name)
unfolding as_read
as_read-name i name e = elim (Bool-cases (is_shadowed i name)) [
  | inl h ↦ elim (Bool-cases (prot_read name == i)) [
    | inl k ↦ (let no : false ≡ true = rw (h, k) at e in absurd (cc))
    | inr k ↦ rw (h, k) refl
  ]
  | inr h ↦ rw h (rw h at e)
]

-- The keyword "prot" with the name at an index of the table sets that index exactly where the name does not begin with
-- that of an entry before it.
pub set_proto-name :
    (i : ℕ) {name : Text}
    → get_elem? ip_protocols i ≡ some name
    → (prot_read name == i) ≡ not (is_shadowed i name)
set_proto-name i {name} e =
    let start : i + 0 ≡ i = omega arith in
    as_read-name i name (rw start at (get_elem?-every as_read 0 i ip_protocols as_read-every e))
