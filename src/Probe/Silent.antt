-- ===== src/Probe/Silent.antt =====
-- The callbacks other than the timer of the sampling statistics, and the packet counts in what they
-- send.
use impd4e.Common.{
  ℕ, zero, suc, List, [], ◌∷◌, Bool, true, false, ◌||◌, ◌≡◌, ◌⊎◌, inl, inr, refl, subst, arith,
  Option, none, some, Outcome, ok, ◌>>=◌, u32, Ensures, returns, Ensures-bind, Ensures-ok, All,
}
use impd4e.Range.{Text}
use impd4e.Templates.{
  ExportField, get_template, export_fields_sync, export_fields_location, export_fields_probe_stats,
}
use impd4e.Device.{Device}
use impd4e.Packet.Fields.{Field, Selected, packet_fields}
use impd4e.Packet.Handler.{Effect, export_array, export_flush}
use impd4e.Packet.Handler.Post.{IsPacketRecord}
use impd4e.Export.{
  ProbeStat, Location, export_data_sync, export_data_probe_stats, export_data_location, sync_fields,
  location_fields, probe_fields,
}
use impd4e.Export.Reports.{is_delta, delta_of, reported, reported-append, pending}
use impd4e.Config.{
  ConfigFunction, Command, help, set_ratio, set_min_selection, set_max_selection, set_filter,
  set_template, set_export_to_pktid, set_export_to_probestats, set_export_to_ifstats, answer_of,
  send_response,
}
use impd4e.Config.Commands.{
  Outside, Configured, configuration_set_template, reset_templates, configuration_set_ratio,
  configuration_set_min_selection, configuration_set_max_selection, filter_answer,
  configuration_set_export_to_pktid, configuration_set_export_to_probestats,
  configuration_set_export_to_ifstats,
}

has_delta : List ExportField → Bool
has_delta [] = false
has_delta (e ∷ template) = is_delta e.element || has_delta template

delta_of-none :
    (template : List ExportField) (fields : List Field)
    → has_delta template ≡ false
    → delta_of template fields ≡ 0
unfolding delta_of has_delta
delta_of-none [] fields h = refl
delta_of-none (e ∷ template) [] h = refl
delta_of-none (e ∷ template) (f ∷ fields) h = ground (arith, delta_of-none template fields)

packet_fields-template :
    (t_id : ℕ) (s : Selected) {fs : List Field}
    → packet_fields t_id s ≡ ok (some fs)
    → (t_id ≡ 4) ⊎ ((t_id ≡ 5) ⊎ ((t_id ≡ 6) ⊎ (t_id ≡ 7)))
unfolding packet_fields
packet_fields-template t_id s e = ground arith

packet_template-none :
    (t_id : ℕ) (s : Selected) {template : List ExportField} {fs : List Field}
    → get_template t_id ≡ ok template
    → packet_fields t_id s ≡ ok (some fs)
    → has_delta template ≡ false
unfolding get_template has_delta is_delta
packet_template-none t_id s {template} e e' = elim (packet_fields-template t_id s e') [
  | inl at ↦ named 4 (subst (λ t. get_template t ≡ ok template) at e) refl
  | inr (inl at) ↦ named 5 (subst (λ t. get_template t ≡ ok template) at e) refl
  | inr (inr (inl at)) ↦ named 6 (subst (λ t. get_template t ≡ ok template) at e) refl
  | inr (inr (inr at)) ↦ named 7 (subst (λ t. get_template t ≡ ok template) at e) refl
]
  where
    named :
        (t : ℕ)
        → get_template t ≡ ok template
        → (do fields ← get_template t; ok (has_delta fields)) ≡ ok false
        → has_delta template ≡ false
    named t e h =
        let known : ok (has_delta template) ≡ ok false =
          subst (λ m. (do fields ← m; ok (has_delta fields)) ≡ ok false) e h in
        cc

pub packet_records-reported :
    (effects : List Effect) → All IsPacketRecord effects → reported effects ≡ 0
unfolding reported
packet_records-reported [] h = refl
packet_records-reported (export_array template fs ∷ effects) ((t_id, s, e, e'), h) = omega (
  arith,
  delta_of-none template fs (packet_template-none t_id s e e'),
  packet_records-reported effects h,
)
packet_records-reported (export_flush ∷ effects) (tt, h) = packet_records-reported effects h

-- No packet counts are reported, where it returns.
abbrev pub IsSilent : Outcome (List Effect) → Type 0
IsSilent m = Ensures (λ effects. reported effects ≡ 0) m

export_data_sync-IsSilent :
    (accepted : Bool) (time mid value : ℕ) (message : Text)
    → IsSilent (export_data_sync accepted time mid value message)
unfolding export_data_sync get_template reported delta_of is_delta sync_fields export_fields_sync
export_data_sync-IsSilent true time mid value message = returns _ refl
export_data_sync-IsSilent false time mid value message = returns _ refl

pub export_data_probe_stats-IsSilent :
    (accepted : Bool) (stat : ProbeStat) (time : ℕ)
    → IsSilent (export_data_probe_stats accepted stat time)
unfolding export_data_probe_stats get_template reported delta_of is_delta probe_fields
    export_fields_probe_stats
export_data_probe_stats-IsSilent true stat time = returns _ refl
export_data_probe_stats-IsSilent false stat time = returns _ refl

pub export_data_location-IsSilent :
    (accepted : Bool) (location : Location) (time : ℕ)
    → IsSilent (export_data_location accepted location time)
unfolding export_data_location get_template reported delta_of is_delta location_fields
    export_fields_location
export_data_location-IsSilent true location time = returns _ refl
export_data_location-IsSilent false location time = returns _ refl

pub send_response-IsSilent :
    (accepted : ℕ → Bool) (time mid : ℕ) (response : Text) (i n : ℕ)
    → IsSilent (send_response accepted time mid response i n)
unfolding send_response reported
send_response-IsSilent accepted time mid response i zero = returns [] refl
send_response-IsSilent accepted time mid response i (suc n) =
    Ensures-bind (export_data_sync (accepted i) time (u32 mid) 0 response) _ (λ here e.
      Ensures-bind (send_response accepted time mid response (suc i) n) _ (λ rest e'.
        let now = Ensures-ok (export_data_sync-IsSilent (accepted i) time (u32 mid) 0 response) e in
        let later = Ensures-ok (send_response-IsSilent accepted time mid response (suc i) n) e' in
        returns _ (omega (arith, now, later, reported-append here rest))))

reset_templates-pending :
    (n : ℕ) (devices : List Device) → pending (reset_templates n devices) ≡ pending devices
unfolding reset_templates pending
reset_templates-pending zero devices = refl
reset_templates-pending (suc n) [] = refl
reset_templates-pending (suc n) (dev ∷ devices) = omega (arith, reset_templates-pending n devices)

abbrev pub KeepsPending : Configured → Configured → Type 0
KeepsPending c c' = pending c'.settings.devices ≡ pending c.settings.devices

configuration_set_template-pending :
    (msg : Text) (c : Configured) → KeepsPending c (configuration_set_template msg c).0
unfolding configuration_set_template
configuration_set_template-pending msg c =
    ground (arith, reset_templates-pending c.settings.number_interfaces c.settings.devices)

-- A command keeps the packet counts of the devices.
pub answer_of-pending :
    (outside : Outside) (f : Option ConfigFunction) (msg : Text) (c : Configured)
    → KeepsPending c (answer_of outside f msg c).0
unfolding answer_of filter_answer configuration_set_ratio configuration_set_min_selection
    configuration_set_max_selection configuration_set_export_to_pktid
    configuration_set_export_to_probestats configuration_set_export_to_ifstats
answer_of-pending outside none msg c = refl
answer_of-pending outside (some f) msg c = by_command f.fct
  where
    by_command :
        (command : Command)
        → KeepsPending c (answer_of outside (some (record f { fct = command })) msg c).0
    by_command help = refl
    by_command set_ratio = refl
    by_command set_min_selection = refl
    by_command set_max_selection = refl
    by_command set_filter = refl
    by_command set_template = configuration_set_template-pending msg c
    by_command set_export_to_pktid = ground arith
    by_command set_export_to_probestats = ground arith
    by_command set_export_to_ifstats = ground arith
