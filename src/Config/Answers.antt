-- ===== src/Config/Answers.antt =====
-- What runtime_configuration_cb does, by cases: nothing, or one command.
use impd4e.Common.{
  Ensures, returns, faults, Ensures-bind, Ensures-ok, ap, inl, inr, ◌⊎◌, ℕ, [], ◌∷◌, Bool, Option,
  Option-cases, some, ok, overread, ◌≡◌, refl,
}
use impd4e.Range.{Text}
use impd4e.Settings.Names.{skip_spaces}
use impd4e.Config.{
  ConfigFunction, answer_of, run_command, runtime_configuration_cb, get_cfg_fct, behind_hyphen,
  send_response, Reply,
}
use impd4e.Config.Commands.{Outside, Configured}
use impd4e.Config.Keeps.{run_command-answer_of}

-- What runtime_configuration_cb does, where it returns: nothing, or one command and its responses.
abbrev pub IsAnswer : Outside → (ℕ → Bool) → ℕ → Configured → Reply → Type 0
IsAnswer outside accepted time c reply =
    ((reply.configured ≡ c) × (reply.effects ≡ []))
    ⊎ ((f : Option ConfigFunction) × (value : Text) × (mid : ℕ) × (reply.configured
          ≡ (answer_of outside f value c).0)
        × (send_response accepted time mid (answer_of outside f value c).1 0
              (answer_of outside f value c).0.settings.number_interfaces
            ≡ ok reply.effects))

pub runtime_configuration_cb-IsAnswer :
    (outside : Outside) (accepted : ℕ → Bool) (time : ℕ) (conf_msg : Text) (c : Configured)
    → Ensures
        (IsAnswer outside accepted time c)
        (runtime_configuration_cb outside accepted time conf_msg c)
unfolding runtime_configuration_cb
runtime_configuration_cb-IsAnswer outside accepted time conf_msg c =
    elim (Option-cases (outside.scan_mid conf_msg)) [
      | inl other ↦ rw (other, runtime_configuration_cb) (returns _ (inl (refl, refl)))
      | inr (mid, scanned) ↦ elim (Option-cases (behind_hyphen conf_msg)) [
        | inl plain ↦ rw (scanned, plain, runtime_configuration_cb) (returns _ (inl (refl, refl)))
        | inr (text, found) ↦ by_text mid text scanned found
      ]
    ]
  where
    by_text :
        (mid : ℕ) (text : Text)
        → outside.scan_mid conf_msg ≡ some mid
        → behind_hyphen conf_msg ≡ some text
        → Ensures
            (IsAnswer outside accepted time c)
            (runtime_configuration_cb outside accepted time conf_msg c)
    by_text mid [] scanned found = rw (scanned, found, runtime_configuration_cb) (faults overread)
    by_text mid (cmd ∷ value) scanned found =
        let answered = run_command-answer_of outside (get_cfg_fct cmd) (skip_spaces value) c in
        rw (scanned, found, runtime_configuration_cb)
          (Ensures-bind (run_command outside (get_cfg_fct cmd) (skip_spaces value) c) _ (λ answer e.
            Ensures-bind
              (send_response accepted time mid answer.1 0 answer.0.settings.number_interfaces) _
              (λ effects e'. returns _ (
                let same = Ensures-ok answered e in
                inr (get_cfg_fct cmd, skip_spaces value, mid, ap (λ a. a.0) same, rw same at e')))))
