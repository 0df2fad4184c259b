-- ===== src/Settings/Invariant.antt =====
-- What holds of the options and the devices however the command line is put together.
use impd4e.Common.{
  u32, ℤ, arith, ℕ, zero, suc, ◌+◌, ◌<◌, List, [], ◌∷◌, ◌≡◌, ◌≢◌, refl, ◌⊎◌, inl, inr, Bool-cases,
  Option-cases, some, length, drop, get_elem?, ◌==◌,
}
use impd4e.Range.{Text, parse_range}
use impd4e.Selection.{SelectionFunction}
use impd4e.Device.{Device, no_template, Options, set_defaults_device}
use impd4e.Packet.Handler.Counters.{IsPacketTemplate, chosen_template}
use impd4e.Settings.{
  Settings, Setting, opt_i, opt_t, opt_S, opt_F, opt_m, opt_M, opt_e, opt_N, opt_O, opt_r, opt_I,
  apply_opt_i, apply_opt_t, max_interfaces, interface_type, interface_name, template_or,
  apply_setting, parse_cmdline, initial_settings, update,
}
use impd4e.Settings.Sampling.{
  IsRange, set_sampling_lowerbound-IsRange, set_sampling_upperbound-IsRange,
  set_sampling_ratio-IsRange, set_sampling_lowerbound, set_sampling_upperbound, set_sampling_ratio,
}
use impd4e.Settings.Names.{
  parse_template, find_template, has_name, parse_sel_function, select_named, selection_functions,
}

-- A template id of its own, or none.
abbrev pub IsDeviceTemplate : ℕ → Type 0
IsDeviceTemplate t = (t ≡ no_template) ⊎ IsPacketTemplate t

abbrev pub HasTemplates : List Device → ℕ → Type 0
HasTemplates devices n =
    (i : ℕ) (dev : Device)
    → i < n
    → get_elem? devices i ≡ some dev
    → IsDeviceTemplate dev.template_id

-- The hash range has its borders in order; the template of the options and that of every
-- configured interface are packet templates.
abbrev pub IsValid : Settings → Type 0
IsValid s =
    IsRange s.options
    × IsPacketTemplate s.options.template_id
    × HasTemplates s.devices s.number_interfaces

pub parse_template-IsPacketTemplate :
    (text : Text) {id : ℕ} → parse_template text ≡ some id → IsPacketTemplate id
unfolding parse_template find_template
parse_template-IsPacketTemplate text e = ground arith

-- An update is of a device that is there, or of none.
get_elem?-update :
    (i j : ℕ) (f : Device → Device) (devices : List Device) {dev : Device}
    → get_elem? (update i f devices) j ≡ some dev
    → ((j ≢ i) × (get_elem? devices j ≡ some dev)) ⊎ ((old : Device) × (j ≡ i) × (dev ≡ f old))
unfolding update
get_elem?-update i j f [] e = absurd (cc)
get_elem?-update zero zero f (d ∷ devices) e = inr (d, refl, cc)
get_elem?-update zero (suc j) f (d ∷ devices) e = inl (omega arith, e)
get_elem?-update (suc i) zero f (d ∷ devices) e = inl (omega arith, e)
get_elem?-update (suc i) (suc j) f (d ∷ devices) e = elim (get_elem?-update i j f devices e) [
  | inl (ne, same) ↦ inl (omega arith, same)
  | inr (old, eq', same) ↦ inr (old, omega arith, same)
]

update-HasTemplates :
    (i n n' : ℕ) (f : Device → Device) (devices : List Device)
    → HasTemplates devices n
    → ((j : ℕ) → j < n' → j ≢ i → j < n)
    → ((dev : Device) → IsDeviceTemplate (f dev).template_id)
    → HasTemplates (update i f devices) n'
update-HasTemplates i n n' f devices h within good j dev lt e =
    elim (get_elem?-update i j f devices {dev = dev} e) [
      | inl (ne, same) ↦ h j dev (within j lt ne) same
      | inr (old, at, same) ↦ rw same (good old)
    ]

apply_opt_i-IsValid : (arg : Text) (s : Settings) → IsValid s → IsValid (apply_opt_i arg s)
unfolding apply_opt_i set_defaults_device
apply_opt_i-IsValid arg s (range, template, h) =
    elim (Bool-cases (s.number_interfaces == max_interfaces)) [
      | inl full ↦ rw full (range, template, h)
      | inr room ↦ rw room (
        range,
        template,
        update-HasTemplates s.number_interfaces s.number_interfaces (s.number_interfaces + 1)
            (λ dev. record (set_defaults_device s.options dev) {
              device_type = interface_type arg dev;
              device_name = interface_name arg;
            })
            s.devices h (λ j lt ne. omega arith) (λ dev. inl refl),
      )
    ]

template_or-cases :
    (P : ℕ → Type 0) (text : Text) (other : ℕ)
    → P other
    → ((id : ℕ) → IsPacketTemplate id → P id)
    → P (template_or other (parse_template text))
template_or-cases P text other p good = elim (Option-cases (parse_template text)) [
  | inl absent ↦ rw absent p
  | inr (id, found) ↦ rw found (good id (parse_template-IsPacketTemplate text found))
]

apply_opt_t-IsValid : (arg : Text) (s : Settings) → IsValid s → IsValid (apply_opt_t arg s)
unfolding apply_opt_t
apply_opt_t-IsValid arg s (range, template, h) =
    let named = template_or-cases IsPacketTemplate arg s.options.template_id template (λ id p. p) in
    let own = template_or-cases IsDeviceTemplate arg no_template (inl refl) (λ id p. inr p) in
    elim (Bool-cases (s.template_count == max_interfaces)) [
      | inl full ↦ rw full (range, named, h)
      | inr room ↦ rw room (
        range,
        named,
        update-HasTemplates s.template_count s.number_interfaces s.number_interfaces
            (λ dev. record dev { template_id = template_or no_template (parse_template arg) })
            s.devices h (λ j lt ne. lt) (λ dev. own),
      )
    ]

abbrev SameRange : Options → Options → Type 0
SameRange set options =
    (set.sel_range_min ≡ options.sel_range_min)
    × (set.sel_range_max ≡ options.sel_range_max)
    × (set.template_id ≡ options.template_id)

select_named-SameRange :
    (text : Text) (names : List (Text × SelectionFunction)) (options : Options)
    → SameRange (select_named text names options) options
unfolding select_named
select_named-SameRange text [] options = (refl, refl, refl)
select_named-SameRange text ((name, f) ∷ names) options = elim (Bool-cases (has_name text name)) [
  | inl h ↦
      rw (select_named, h)
        (select_named-SameRange text names (record options {
          selection_function = f;
          ranges = parse_range (drop (length name) text);
        }))
  | inr h ↦ rw (select_named, h) (select_named-SameRange text names options)
]

pub set_sampling_lowerbound-template :
    (value : ℤ) (options : Options)
    → (set_sampling_lowerbound value options).template_id ≡ options.template_id
unfolding set_sampling_lowerbound
set_sampling_lowerbound-template value options = ground arith

pub set_sampling_upperbound-template :
    (value : ℤ) (options : Options)
    → (set_sampling_upperbound value options).template_id ≡ options.template_id
unfolding set_sampling_upperbound
set_sampling_upperbound-template value options = ground arith

pub set_sampling_ratio-template :
    (share : ℕ) (options : Options)
    → (set_sampling_ratio share options).template_id ≡ options.template_id
unfolding set_sampling_ratio
set_sampling_ratio-template share options = ground arith

pub apply_setting-IsValid :
    (setting : Setting) (s : Settings) → IsValid s → IsValid (apply_setting setting s)
unfolding apply_setting parse_sel_function
apply_setting-IsValid (opt_i arg) s h = apply_opt_i-IsValid arg s h
apply_setting-IsValid (opt_t arg) s h = apply_opt_t-IsValid arg s h
apply_setting-IsValid (opt_S arg) s (range, template, h) =
    let (lo, hi, same) = select_named-SameRange arg selection_functions s.options in
    ((ground arith, ground arith), ground arith, h)
apply_setting-IsValid (opt_F arg) s h = h
apply_setting-IsValid (opt_m value) s (range, template, h) = (
  set_sampling_lowerbound-IsRange value s.options range,
  rw (set_sampling_lowerbound-template value s.options) template,
  h,
)
apply_setting-IsValid (opt_M value) s (range, template, h) = (
  set_sampling_upperbound-IsRange value s.options range,
  rw (set_sampling_upperbound-template value s.options) template,
  h,
)
apply_setting-IsValid (opt_r share) s (range, template, h) = (
  (set_sampling_ratio-IsRange (u32 share) s.options (omega arith)).0,
  rw (set_sampling_ratio-template (u32 share) s.options) template,
  h,
)
apply_setting-IsValid (opt_e value) s h = h
apply_setting-IsValid (opt_N value) s h = h
apply_setting-IsValid (opt_O value) s h = h
apply_setting-IsValid (opt_I positive) s h = h

parse_cmdline-IsValid :
    (settings : List Setting) (s : Settings) → IsValid s → IsValid (parse_cmdline settings s)
unfolding parse_cmdline
parse_cmdline-IsValid [] s h = h
parse_cmdline-IsValid (setting ∷ settings) s h =
    parse_cmdline-IsValid settings (apply_setting setting s) (apply_setting-IsValid setting s h)

pub initial_settings-IsValid : IsValid initial_settings
unfolding initial_settings
initial_settings-IsValid =
    ((omega arith, omega arith), (omega arith, omega arith), λ i dev lt e. absurd (omega arith))

-- Whatever options are given, in whatever order: the hash range has its borders in order and
-- within uint32_t, and the template chosen for each configured interface is one of the four packet
-- templates, which the switch of handle_ip_packet has cases for.
parse_cmdline-IsPacketTemplate :
    (settings : List Setting) (i : ℕ) {dev : Device}
    → i < (parse_cmdline settings initial_settings).number_interfaces
    → get_elem? (parse_cmdline settings initial_settings).devices i ≡ some dev
    → IsRange (parse_cmdline settings initial_settings).options
      × IsPacketTemplate (chosen_template (parse_cmdline settings initial_settings).options dev)
parse_cmdline-IsPacketTemplate settings i {dev} lt e =
    let (range, template, h) =
      parse_cmdline-IsValid settings initial_settings initial_settings-IsValid in
    let own = h i dev lt e in (range, ground arith)
