-- ===== src/Filter/Install.antt =====
-- src/helper.c, setPFRingFilter and setPFRingFilterPolicy: the rules are handed to PF_RING, each
-- with the plugin that selects packets, and the policy for what no rule matches is set.
--
-- PF_RING's two calls are the effects; whether it accepts a rule is a parameter. The loop's index is a uint8_t, and
-- the loop is on fuel. Of the plugin's data, the hash range is kept; the plugin and the functions that
-- it is given are constants.
use impd4e.Common.{
  ℕ, zero, suc, ◌+◌, ◌%◌, ◌≤◌, ◌<◌, List, [], ◌∷◌, Bool, true, ltb, ◌==◌, if◌then◌else◌, length,
  get_elem?, drop, some, Outcome, ok, err, or_overread, no_fuel, ◌>>=◌, ℤ, pos, negsuc, ◌≡◌, ◌↔◌,
  refl, arith, get_elem?_of_lt, lt→ltb, ltb→lt, drop_all, Bool-cases, inl, inr,
}
use impd4e.Filter.{Rule, empty_rule, max_rules}

-- A rule with the range of impd_data: min and max.
pub record Installed : Type 0 where
  pub rule : Rule
  pub sel_range_min : ℕ
  pub sel_range_max : ℕ

-- `filter_policy` is 1 for accept, 0 for drop, and -1 for none.
pub record Filtering : Type 0 where
  pub rules : List Rule
  pub filter_policy : ℤ

pub data PfringCall : Type 0 where
  pfring_add_filtering_rule : Installed → PfringCall
  pfring_toggle_filtering_policy : ℤ → PfringCall

-- A rule as it is handed over; each is given the range of the options.
abbrev pub installed : ℕ → ℕ → Rule → Installed
installed lo hi rule = record { rule = rule; sel_range_min = lo; sel_range_max = hi }

-- The loop `for ( i = 0; i < rules_in_list; i++ )`: what is returned, and the calls.
unfoldable pub install_rules :
    (Installed → Bool) → ℕ → ℕ → ℕ → ℕ → List Rule → Outcome (ℤ × List PfringCall)
install_rules accepted lo hi zero i rules = err no_fuel
install_rules accepted lo hi (suc fuel) i rules =
    let rest = install_rules accepted lo hi fuel ((i + 1) % 256) rules in
    if ltb i (length rules)
    then (do
      rule ← or_overread (get_elem? rules i)
      let this = installed lo hi rule
      if accepted this
          then (do more ← rest; ok (more.0, pfring_add_filtering_rule this ∷ more.1))
          else ok (negsuc 0, pfring_add_filtering_rule this ∷ []))
    else ok (pos 0, [])

-- Without a rule one that matches every packet is added, with the policy to accept; with rules the policy is to drop.
unfoldable pub default_rule : Filtering → Filtering
default_rule f = elim f.rules [
  | [] ↦ record { rules = empty_rule ∷ []; filter_policy = pos 1 }
  | rule ∷ rules ↦ record f { filter_policy = pos 0 }
]

pub record Filtered : Type 0 where
  pub filtering : Filtering
  pub returned : ℤ
  pub calls : List PfringCall

unfoldable pub set_pfring_filter : (Installed → Bool) → ℕ → ℕ → ℕ → Filtering → Outcome Filtered
unfolding default_rule install_rules
set_pfring_filter accepted lo hi fuel f = do
  r ← install_rules accepted lo hi fuel 0 (default_rule f).rules
  ok (record { filtering = default_rule f; returned = r.0; calls = r.1 })

accept_unset : ℤ → ℤ
accept_unset (pos n) = pos n
accept_unset (negsuc n) = if n == 0 then pos 1 else negsuc n

unfoldable pub set_pfring_filter_policy : (ℤ → Bool) → Filtering → Filtered
unfolding accept_unset
set_pfring_filter_policy toggled f =
    let policy = accept_unset f.filter_policy in
    record {
      filtering = record f { filter_policy = policy };
      returned = if toggled policy then pos 0 else negsuc 0;
      calls = pfring_toggle_filtering_policy policy ∷ [];
    }

-- The rules in order, up to the first that is refused.
unfoldable pub install_each : (Installed → Bool) → ℕ → ℕ → List Rule → ℤ × List PfringCall
install_each accepted lo hi [] = (pos 0, [])
install_each accepted lo hi (rule ∷ rules) =
    let rest = install_each accepted lo hi rules in
    let this = installed lo hi rule in
    if accepted this
    then (rest.0, pfring_add_filtering_rule this ∷ rest.1)
    else (negsuc 0, pfring_add_filtering_rule this ∷ [])

drop-get_elem? {ℓ} :
    {A : Type ℓ} (xs : List A) (i : ℕ) {x : A}
    → get_elem? xs i ≡ some x
    → drop i xs ≡ x ∷ drop (suc i) xs
drop-get_elem? [] i e = absurd (cc)
drop-get_elem? (y ∷ xs) zero e = cc
drop-get_elem? (y ∷ xs) (suc i) e = drop-get_elem? xs i e

default_rule-length :
    (f : Filtering) → length f.rules < max_rules → length (default_rule f).rules < max_rules
unfolding default_rule
default_rule-length f h = by_rules f.rules f.filter_policy h
  where
    by_rules :
        (rules : List Rule) (policy : ℤ)
        → length rules < max_rules
        → length (default_rule (record { rules = rules; filter_policy = policy })).rules < max_rules
    by_rules [] policy h = omega arith
    by_rules (rule ∷ rules) policy h = h

default_rule-full :
    (f : Filtering) → length f.rules ≡ max_rules → length (default_rule f).rules ≡ max_rules
unfolding default_rule
default_rule-full f h = by_rules f.rules f.filter_policy h
  where
    by_rules :
        (rules : List Rule) (policy : ℤ)
        → length rules ≡ max_rules
        → length (default_rule (record { rules = rules; filter_policy = policy })).rules ≡ max_rules
    by_rules [] policy h = absurd (omega arith)
    by_rules (rule ∷ rules) policy h = h

default_rule-policy : (f : Filtering) → ((default_rule f).filter_policy ≡ pos 1) ↔ (f.rules ≡ [])
unfolding default_rule
default_rule-policy f = by_rules f.rules f.filter_policy
  where
    by_rules :
        (rules : List Rule) (policy : ℤ)
        → ((default_rule (record { rules = rules; filter_policy = policy })).filter_policy ≡ pos 1)
          ↔ (rules ≡ [])
    by_rules [] policy = (λ e. refl, λ e. refl)
    by_rules (rule ∷ rules) policy = (λ e. absurd (cc), λ e. absurd (cc))

module _ (accepted : Installed → Bool) (lo hi : ℕ) where
  install_rules-each :
      (fuel i : ℕ) (rules : List Rule)
      → length rules < max_rules
      → i ≤ length rules
      → length rules < i + fuel
      → install_rules accepted lo hi fuel i rules ≡ ok (install_each accepted lo hi (drop i rules))
  unfolding install_rules install_each
  install_rules-each zero i rules few within enough = absurd (omega arith)
  install_rules-each (suc fuel) i rules few within enough =
      elim (Bool-cases (ltb i (length rules))) [
        | inl more ↦
            let below = ltb→lt i (length rules) more in
            let here = get_elem?_of_lt rules i below in
            let next : (i + 1) % 256 ≡ suc i = omega arith in
            let later = install_rules-each fuel (suc i) rules few (omega arith) (omega arith) in
            rw (more, here.1, next, later, drop-get_elem? rules i here.1)
              (elim (Bool-cases (accepted (installed lo hi here.0))) [
                | inl taken ↦ rw taken refl
                | inr refused ↦ rw refused refl
              ])
        | inr done ↦ rw (done, drop_all i rules (ground arith)) refl
      ]

  endless :
      (fuel i : ℕ) (rules : List Rule)
      → ((rule : Installed) → accepted rule ≡ true)
      → length rules ≡ max_rules
      → i < max_rules
      → install_rules accepted lo hi fuel i rules ≡ err no_fuel
  unfolding install_rules
  endless zero i rules takes full within = refl
  endless (suc fuel) i rules takes full within =
      let here = get_elem?_of_lt rules i (omega arith) in
      let more : ltb i (length rules) ≡ true = lt→ltb i (length rules) (omega arith) in
      rw
        (
          more,
          here.1,
          takes (installed lo hi here.0),
          endless fuel ((i + 1) % 256) rules takes full (omega arith),
        )
        refl

  -- With at most 255 rules, the one that is added for none included, the loop ends within 256 rounds: every rule is handed to
  -- PF_RING once, in the order of the list, up to the first that it refuses; the answer is 0
  -- where it takes them all, else -1; and the policy is to accept exactly where no rule was given.
  pub set_pfring_filter-each :
      (fuel : ℕ) (f : Filtering)
      → length f.rules < max_rules
      → max_rules ≤ fuel
      → (set_pfring_filter accepted lo hi fuel f ≡ (
          let each = install_each accepted lo hi (default_rule f).rules in
          ok (record { filtering = default_rule f; returned = each.0; calls = each.1 })))
        × (((default_rule f).filter_policy ≡ pos 1) ↔ (f.rules ≡ []))
  unfolding set_pfring_filter
  set_pfring_filter-each fuel f few enough =
      let bounded = default_rule-length f few in
      (
        rw (install_rules-each fuel 0 (default_rule f).rules bounded (omega arith) (omega arith))
            refl,
        default_rule-policy f,
      )

  -- With 256 rules, as many as the array holds, the uint8_t index returns to 0 behind the last rule: where PF_RING
  -- takes every rule the loop never ends, on whatever fuel.
  pub set_pfring_filter-full :
      (fuel : ℕ) (f : Filtering)
      → ((rule : Installed) → accepted rule ≡ true)
      → length f.rules ≡ max_rules
      → set_pfring_filter accepted lo hi fuel f ≡ err no_fuel
  unfolding set_pfring_filter
  set_pfring_filter-full fuel f takes full =
      rw (endless fuel 0 (default_rule f).rules takes (default_rule-full f full) (omega arith)) refl
