-- ===== src/Config/Replies.antt =====
-- What a command answers, and to which interfaces.
use impd4e.Common.{
  Option, none, pos, get_elem?, ◌<◌, ◌⊎◌, ℕ, zero, suc, ◌+◌, List, [], ◌∷◌, ◌++◌, Bool, true, false,
  some, Option-cases, if◌then◌else◌, ok, err, overread, u32, ◌≡◌, ◌≢◌, refl, ap, ◌∙◌, inl, inr,
  arith,
}
use impd4e.Range.{Text}
use impd4e.Templates.{get_template}
use impd4e.Packet.Handler.{Effect}
use impd4e.Packet.Handler.Counters.{exports, exports-append, flushes, flushes-append}
use impd4e.Settings.Names.{skip_spaces}
use impd4e.Export.{export_data_sync}
use impd4e.Export.Fits.{IsShort, AllFit, AllFit-append, export_data_sync-AllFit}
use impd4e.Device.{Device, type_pcap, type_pcap_file}
use impd4e.Config.{
  ConfigFunction, Command, help, set_ratio, set_min_selection, set_max_selection, set_filter,
  set_template, set_export_to_pktid, set_export_to_probestats, set_export_to_ifstats, answer_of,
  run_command, runtime_configuration_cb, get_cfg_fct, behind_hyphen, send_response, Reply,
}
use impd4e.Config.Commands.{
  Outside, Configured, set_filter_on, set_all_filter, configuration_set_filter,
}
use impd4e.Config.Keeps.{KeepsValid, answer_of-IsValid}
use impd4e.Config.Lengths.{answer_of-IsShort}

-- One record for each interface whose export libipfix takes, and a flush behind it.
unfoldable pub taken : (ℕ → Bool) → ℕ → ℕ → ℕ
taken accepted i zero = 0
taken accepted i (suc n) = (if accepted i then 1 else 0) + taken accepted (suc i) n

abbrev pub AnswersTo : (ℕ → Bool) → ℕ → ℕ → List Effect → Type 0
AnswersTo accepted i n effects =
    AllFit effects × (exports effects ≡ taken accepted i n) × (flushes effects ≡ taken accepted i n)

export_data_sync-counts :
    (accepted : Bool) (time mid value : ℕ) (response : Text) (effects : List Effect)
    → export_data_sync accepted time mid value response ≡ ok effects
    → (exports effects ≡ (if accepted then 1 else 0))
      × (flushes effects ≡ (if accepted then 1 else 0))
unfolding export_data_sync exports flushes get_template
export_data_sync-counts accepted time mid value response effects e = ground arith

pub send_response-AnswersTo :
    (accepted : ℕ → Bool) (time mid : ℕ) (response : Text) (i n : ℕ)
    → IsShort response
    → (effects : List Effect) × (send_response accepted time mid response i n ≡ ok effects)
      × AnswersTo accepted i n effects
unfolding send_response taken exports flushes
send_response-AnswersTo accepted time mid response i zero short = ([], refl, (tt, refl, refl))
send_response-AnswersTo accepted time mid response i (suc n) short =
    let (here, e, fit) = export_data_sync-AllFit (accepted i) time (u32 mid) 0 response short in
    let counts = export_data_sync-counts (accepted i) time (u32 mid) 0 response here e in
    let (rest, e', (fit', sent, flushed)) =
      send_response-AnswersTo accepted time mid response (suc i) n short in
    (
      here ++ rest,
      rw e (rw e' refl),
      (
        AllFit-append here rest fit fit',
        ground (arith, exports-append here rest),
        ground (arith, flushes-append here rest),
      ),
    )

-- What the theorem below states of a run.
abbrev pub IsReply : (ℕ → Bool) → Configured → Reply → Type 0
IsReply accepted c reply =
    KeepsValid reply.configured
    × ((reply.matched ≡ false) → (reply.configured ≡ c) × (reply.effects ≡ []))
    × ((reply.matched ≡ true)
        → AnswersTo accepted 0 reply.configured.settings.number_interfaces reply.effects)

-- Each configured interface is captured by libpcap.
abbrev pub HasCaptures : ℕ → List Device → Type 0
HasCaptures n devices =
    (i : ℕ)
    → i < n
    → (dev : Device) × (get_elem? devices i ≡ some dev)
      × ((dev.device_type ≡ type_pcap) ⊎ (dev.device_type ≡ type_pcap_file))

set_all_filter-returns :
    (n : ℕ) (devices : List Device) → HasCaptures n devices → set_all_filter n devices ≡ ok (pos 0)
unfolding set_all_filter set_filter_on
set_all_filter-returns zero devices h = refl
set_all_filter-returns (suc n) [] h = (let none_there = h 0 (omega arith) in absurd (cc))
set_all_filter-returns (suc n) (dev ∷ devices) h =
    let (first, there, captured) = h 0 (omega arith) in
    let same : dev ≡ first = cc in
    let rest = set_all_filter-returns n devices (λ i lt. h (suc i) (omega (arith, lt))) in
    elim captured [ inl live ↦ rw (same, live) rest | inr file ↦ rw (same, file) rest ]

abbrev pub IsFilter : Option ConfigFunction → Type 0
IsFilter f = (g : ConfigFunction) × (f ≡ some g) × (g.fct ≡ set_filter)

run_command-returns :
    (outside : Outside) (f : Option ConfigFunction) (msg : Text) (c : Configured)
    → (IsFilter f → HasCaptures c.settings.number_interfaces c.settings.devices)
    → run_command outside f msg c ≡ ok (answer_of outside f msg c)
unfolding run_command answer_of configuration_set_filter
run_command-returns outside none msg c h = refl
run_command-returns outside (some f) msg c h = by_command f.fct (λ e. h (f, refl, e))
  where
    by_command :
        (command : Command)
        → (command ≡ set_filter → HasCaptures c.settings.number_interfaces c.settings.devices)
        → run_command outside (some (record f { fct = command })) msg c
          ≡ ok (answer_of outside (some (record f { fct = command })) msg c)
    by_command help captured = refl
    by_command set_ratio captured = refl
    by_command set_min_selection captured = refl
    by_command set_max_selection captured = refl
    by_command set_filter captured =
        rw (set_all_filter-returns c.settings.number_interfaces c.settings.devices (captured refl))
          refl
    by_command set_template captured = refl
    by_command set_export_to_pktid captured = refl
    by_command set_export_to_probestats captured = refl
    by_command set_export_to_ifstats captured = refl

-- A filter is set only where libpcap captures.
abbrev pub IsFilterable : Text → Configured → Type 0
IsFilterable conf_msg c =
    (cmd : ℕ) (value : Text)
    → behind_hyphen conf_msg ≡ some (cmd ∷ value)
    → IsFilter (get_cfg_fct cmd)
    → HasCaptures c.settings.number_interfaces c.settings.devices

known_command :
    (outside : Outside) (accepted : ℕ → Bool) (time mid : ℕ) (conf_msg text : Text) (c : Configured)
    → KeepsValid c
    → outside.scan_mid conf_msg ≡ some mid
    → behind_hyphen conf_msg ≡ some text
    → text ≢ []
    → IsFilterable conf_msg c
    → (reply : Reply) × (runtime_configuration_cb outside accepted time conf_msg c ≡ ok reply)
      × IsReply accepted c reply
unfolding runtime_configuration_cb
known_command outside accepted time mid conf_msg [] c h scanned found more filterable =
    absurd (more refl)
known_command outside accepted time mid conf_msg (cmd ∷ value) c h scanned found more filterable =
    let answer = answer_of outside (get_cfg_fct cmd) (skip_spaces value) c in
    let (effects, sends, counts) =
      send_response-AnswersTo accepted time mid answer.1 0 answer.0.settings.number_interfaces
        (answer_of-IsShort outside (get_cfg_fct cmd) (skip_spaces value) c) in
    let returned =
      run_command-returns outside (get_cfg_fct cmd) (skip_spaces value) c
        (filterable cmd value found) in
    (
      record { matched = true; configured = answer.0; effects = effects },
      rw (scanned, found, runtime_configuration_cb) (rw returned (rw sends refl)),
      (
        answer_of-IsValid outside (get_cfg_fct cmd) (skip_spaces value) c h,
        (λ e. absurd (cc)),
        (λ e. counts),
      ),
    )

-- On every message of the collector whose first hyphen does not stand at its end, and, if it sets a filter, where each
-- configured interface is captured by libpcap, runtime_configuration_cb returns. It keeps the hash range and the templates
-- valid. Where it does not know the message, the settings stay as they are and nothing is sent; where it does, a
-- response goes out for each interface whose record libipfix takes, in a record that fits its template, with a
-- flush behind it.
pub runtime_configuration_cb-Reply :
    (outside : Outside) (accepted : ℕ → Bool) (time : ℕ) (conf_msg : Text) (c : Configured)
    → KeepsValid c
    → behind_hyphen conf_msg ≢ some []
    → IsFilterable conf_msg c
    → (reply : Reply) × (runtime_configuration_cb outside accepted time conf_msg c ≡ ok reply)
      × IsReply accepted c reply
unfolding runtime_configuration_cb
runtime_configuration_cb-Reply outside accepted time conf_msg c h ended filterable =
    let quiet : Reply = record { matched = false; configured = c; effects = [] } in
    elim (Option-cases (outside.scan_mid conf_msg)) [
      | inl other ↦ (
        quiet,
        rw (other, runtime_configuration_cb) refl,
        (h, (λ e. (refl, refl)), (λ e. absurd (cc))),
      )
      | inr (mid, scanned) ↦ elim (Option-cases (behind_hyphen conf_msg)) [
        | inl plain ↦ (
          quiet,
          rw (scanned, plain, runtime_configuration_cb) refl,
          (h, (λ e. (refl, refl)), (λ e. absurd (cc))),
        )
        | inr (text, found) ↦
            known_command outside accepted time mid conf_msg text c h scanned found
              (λ e. ended (found ∙ ap some e)) filterable
      ]
    ]

-- A known message that ends in its first hyphen makes runtime_configuration_cb read beyond the message.
runtime_configuration_cb_overread :
    (outside : Outside) (accepted : ℕ → Bool) (time : ℕ) (conf_msg : Text) (c : Configured)
    {mid : ℕ}
    → outside.scan_mid conf_msg ≡ some mid
    → behind_hyphen conf_msg ≡ some []
    → runtime_configuration_cb outside accepted time conf_msg c ≡ err overread
unfolding runtime_configuration_cb
runtime_configuration_cb_overread outside accepted time conf_msg c scanned found =
    rw (scanned, found, runtime_configuration_cb) refl
