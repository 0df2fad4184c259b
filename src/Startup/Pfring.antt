-- ===== src/Startup/Pfring.antt =====
-- src/main.c under the build option PFRING: open_pfring, for one interface after the other, as main opens them. What PF_RING
-- and the operating system answer is a parameter; a refused rule or policy is only logged.
use impd4e.Common.{
  ℕ, ◌≤◌, ◌<◌, List, [], ◌∷◌, ◌++◌, Bool, if◌then◌else◌, length, Option, none, some, ℤ, pos, ◌≡◌,
  ◌∙◌, refl, All, arith, Bool-cases, Option-cases, inl, inr,
}
use impd4e.Range.{Text}
use impd4e.Device.{Device, Options, dlt_en10mb}
use impd4e.Filter.{Rule, max_rules}
use impd4e.Filter.Install.{
  Filtering, Installed, PfringCall, pfring_add_filtering_rule, pfring_toggle_filtering_policy,
  Filtered, default_rule, install_each, installed, set_pfring_filter, set_pfring_filter_policy,
  set_pfring_filter-each,
}
use impd4e.Startup.{Program, goes_on, exits, of_outcome, ◌>>=◌, Meets, meets, ended, Meets-bind}

-- `pfring_open` is given the name and the snap length; `device_address` is getIPv4AddressFromDevice, which exits without a socket.
pub record Pfring : Type 0 where
  pub pfring_open : Text → ℕ → Bool
  pub device_address : Text → Option ℕ
  pub accepted : Installed → Bool
  pub toggled : ℤ → Bool

pub record OpenedPfring : Type 0 where
  pub device : Device
  pub ipv4_address : ℕ
  pub calls : List PfringCall

unfoldable opened_or_exit : Pfring → Options → Device → Program ℕ
opened_or_exit sys options dev =
    if sys.pfring_open dev.device_name options.snap_length
    then elim (sys.device_address dev.device_name) [
      | none ↦ exits (pos 1)
      | some address ↦ goes_on address
    ]
    else exits (pos 1)

-- The interface with both calls on it, and the options that they leave. Fuel bounds the loop over the rules.
unfoldable filtered_pfring : Pfring → Device → ℕ → Filtered → OpenedPfring × Filtering
filtered_pfring sys dev address filtered =
    let policed = set_pfring_filter_policy sys.toggled filtered.filtering in
    (
      record {
        device = record dev { link_type = dlt_en10mb; pkt_offset = 14 };
        ipv4_address = address;
        calls = filtered.calls ++ policed.calls;
      },
      policed.filtering,
    )

unfoldable pub open_pfring :
    Pfring → Options → ℕ → Device → Filtering → Program (OpenedPfring × Filtering)
unfolding opened_or_exit filtered_pfring
open_pfring sys options fuel dev f = do
  address ← opened_or_exit sys options dev
  filtered ←
      of_outcome (set_pfring_filter sys.accepted options.sel_range_min options.sel_range_max fuel f)
  goes_on (filtered_pfring sys dev address filtered)

-- One interface after the other.
unfoldable pub open_each_pfring :
    Pfring → Options → ℕ → List Device → Filtering → Program (List OpenedPfring × Filtering)
open_each_pfring sys options fuel [] f = goes_on ([], f)
open_each_pfring sys options fuel (dev ∷ devices) f = do
  here ← open_pfring sys options fuel dev f
  rest ← open_each_pfring sys options fuel devices here.1
  goes_on (here.0 ∷ rest.0, rest.1)

-- The policies among the calls.
unfoldable pub policies : List PfringCall → List ℤ
policies [] = []
policies (pfring_add_filtering_rule rule ∷ calls) = policies calls
policies (pfring_toggle_filtering_policy policy ∷ calls) = policy ∷ policies calls

abbrev pub IsTold : ℤ → OpenedPfring → Type 0
IsTold policy opened = policies opened.calls ≡ policy ∷ []

-- The policy of an interface that is opened with these rules: accept without a rule, else drop.
unfoldable pub policy_for : List Rule → ℤ
policy_for [] = pos 1
policy_for (rule ∷ rules) = pos 0

policies-install_each :
    (accepted : Installed → Bool) (lo hi : ℕ) (rules : List Rule) (calls : List PfringCall)
    → policies ((install_each accepted lo hi rules).1 ++ calls) ≡ policies calls
unfolding policies install_each
policies-install_each accepted lo hi [] calls = refl
policies-install_each accepted lo hi (rule ∷ rules) calls =
    elim (Bool-cases (accepted (installed lo hi rule))) [
      | inl taken ↦ rw taken (policies-install_each accepted lo hi rules calls)
      | inr refused ↦ rw refused refl
    ]

-- What opening leaves: rules, and so the policy to drop for the next one.
abbrev HasRules : Filtering → Type 0
HasRules f = (policy_for f.rules ≡ pos 0) × (length f.rules < max_rules)

default_rule-HasRules :
    (sys : Pfring) (f : Filtering)
    → length f.rules < max_rules
    → (policies (set_pfring_filter_policy sys.toggled (default_rule f)).calls
        ≡ policy_for f.rules ∷ [])
      × HasRules (set_pfring_filter_policy sys.toggled (default_rule f)).filtering
unfolding default_rule set_pfring_filter_policy policies policy_for
default_rule-HasRules sys f few = by_rules f.rules f.filter_policy few
  where
    by_rules :
        (rules : List Rule) (policy : ℤ)
        → length rules < max_rules
        → (let after =
              set_pfring_filter_policy sys.toggled
                (default_rule (record { rules = rules; filter_policy = policy })) in
            (policies after.calls ≡ policy_for rules ∷ []) × HasRules after.filtering)
    by_rules [] policy few = (refl, (refl, omega arith))
    by_rules (rule ∷ rules) policy few = (refl, (refl, few))

module _ (sys : Pfring) (options : Options) (fuel : ℕ) (enough : max_rules ≤ fuel) where
  open_pfring-IsTold :
      (dev : Device) (f : Filtering)
      → length f.rules < max_rules
      → Meets
          (λ r. IsTold (policy_for f.rules) r.0 × HasRules r.1)
          (open_pfring sys options fuel dev f)
  unfolding open_pfring opened_or_exit filtered_pfring
  open_pfring-IsTold dev f few =
      let (each, policy) =
        set_pfring_filter-each sys.accepted options.sel_range_min options.sel_range_max fuel f few
          enough in
      let (told, left) = default_rule-HasRules sys f few in
      let adds =
        policies-install_each sys.accepted options.sel_range_min options.sel_range_max
          (default_rule f).rules (set_pfring_filter_policy sys.toggled (default_rule f)).calls in
      elim (Bool-cases (sys.pfring_open dev.device_name options.snap_length)) [
        | inr closed ↦ rw closed (ended _)
        | inl ready ↦ elim (Option-cases (sys.device_address dev.device_name)) [
          | inl no_socket ↦ rw (ready, no_socket) (ended _)
          | inr (address, found) ↦ rw (ready, found, each) (meets _ (adds ∙ told, left))
        ]
      ]

  open_each_pfring-drop :
      (devices : List Device) (f : Filtering)
      → HasRules f
      → Meets (λ r. All (IsTold (pos 0)) r.0) (open_each_pfring sys options fuel devices f)
  unfolding open_each_pfring
  open_each_pfring-drop [] f h = meets _ tt
  open_each_pfring-drop (dev ∷ devices) f (same, few) =
      Meets-bind (open_pfring sys options fuel dev f) _ (open_pfring-IsTold dev f few)
        (λ here (told, left).
          Meets-bind (open_each_pfring sys options fuel devices here.1) _
            (open_each_pfring-drop devices here.1 left)
            (λ rest later. meets _ (rw same at told, later)))

  -- The interfaces of PF_RING that are opened one after the other do not all get the same policy: without a rule in the
  -- options the first is told to accept and, as it leaves its own rule there, all others to drop what no
  -- rule matches; with rules, fewer than 256, all are told to drop. It holds where the program goes on, for
  -- 256 rounds or more of the loop over the rules.
  pub open_each_pfring-policies :
      (dev : Device) (devices : List Device) (f : Filtering)
      → length f.rules < max_rules
      → Meets
          (λ r.
            (first : OpenedPfring) × (others : List OpenedPfring) × (r.0 ≡ first ∷ others)
            × IsTold (policy_for f.rules) first
            × All (IsTold (pos 0)) others)
          (open_each_pfring sys options fuel (dev ∷ devices) f)
  unfolding open_each_pfring
  open_each_pfring-policies dev devices f few =
      Meets-bind (open_pfring sys options fuel dev f) _ (open_pfring-IsTold dev f few)
        (λ here (told, left).
          Meets-bind (open_each_pfring sys options fuel devices here.1) _
            (open_each_pfring-drop devices here.1 left)
            (λ rest later. meets _ (here.0, rest.0, refl, told, later)))
