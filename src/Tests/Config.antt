-- ===== src/Tests/Config.antt =====
-- Concrete commands.
use impd4e.Common.{
  ℕ, zero, suc, inl, subst, [], ◌∷◌, ◌≡◌, refl, true, ok, pos, arith, some, get_elem?, ◌<◌,
}
use impd4e.Range.{Text}
use impd4e.Device.{Device}
use impd4e.Settings.Invariant.{IsDeviceTemplate}
use impd4e.Config.{runtime_configuration_cb, behind_hyphen, Reply}
use impd4e.Config.Commands.{codes, Outside, Configured}
use impd4e.Config.Keeps.{KeepsValid}
use impd4e.Config.Replies.{HasCaptures, IsReply, runtime_configuration_cb-Reply}
use impd4e.Tests.Packet.{ethernet, all_selected}

-- Functions of the C library that read every number as 7.
abbrev pub outside : Outside
outside = record {
  strtoll = λ s. pos 7;
  strtol = λ s. pos 7;
  share = λ s. 7;
  scan_mid = λ s. some 7;
}

abbrev pub configured : Configured
configured = record {
  settings = record {
    options = all_selected;
    devices = ethernet ∷ [];
    number_interfaces = 1;
    template_count = 1;
  };
  timers = record { pktid = 1; probestats = 1; ifstats = 1 };
}

own :
    (i : ℕ) (dev : Device)
    → i < 1
    → get_elem? (ethernet ∷ []) i ≡ some dev
    → IsDeviceTemplate dev.template_id
own zero dev lt e =
    let same : ethernet ≡ dev = cc in
    subst (λ d. IsDeviceTemplate (Device.template_id d)) same (inl refl)
own (suc i) dev lt e = absurd (omega arith)

configured-IsValid : KeepsValid configured
configured-IsValid = ((omega arith, omega arith), (omega arith, omega arith), own)

configured-HasCaptures : HasCaptures 1 (ethernet ∷ [])
configured-HasCaptures zero lt = (ethernet, refl, inl refl)
configured-HasCaptures (suc i) lt = absurd (omega arith)

abbrev message : Text
message = codes "mid: 7 -t ts"

runtime_configuration_cb-Reply_example :
    (reply : Reply) × (runtime_configuration_cb outside (λ i. true) 5 message configured ≡ ok reply)
    × IsReply (λ i. true) configured reply
unfolding behind_hyphen
runtime_configuration_cb-Reply_example =
    runtime_configuration_cb-Reply outside (λ i. true) 5 message configured configured-IsValid
      (λ e. absurd (cc)) (λ cmd value found is. configured-HasCaptures)
