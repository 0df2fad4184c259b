-- ===== src/Probe/Devices.antt =====
-- Lists of devices of the same templates, and the packets that they have to report.
use impd4e.Common.{
  ℕ, zero, suc, ◌+◌, List, [], ◌∷◌, map, ◌≡◌, refl, sym, subst, ap, arith, some, get_elem?,
}
use impd4e.Device.{Device}
use impd4e.Settings.{update}
use impd4e.Settings.Invariant.{HasTemplates, IsDeviceTemplate}
use impd4e.Export.Reports.{pending, SameTemplates}

-- Templates of devices that stay keep the settings valid.
template_at :
    (devices devices' : List Device) (i : ℕ) {dev : Device}
    → SameTemplates devices devices'
    → get_elem? devices' i ≡ some dev
    → (old : Device) × (get_elem? devices i ≡ some old) × (old.template_id ≡ dev.template_id)
template_at [] [] i same e = absurd (cc)
template_at [] (d' ∷ devices') i same e = absurd (cc)
template_at (d ∷ devices) [] i same e = absurd (cc)
template_at (d ∷ devices) (d' ∷ devices') zero {dev} same e = (d, refl, cc)
template_at (d ∷ devices) (d' ∷ devices') (suc i) same e = template_at devices devices' i (cc) e

pub SameTemplates-HasTemplates :
    (devices devices' : List Device) (n : ℕ)
    → SameTemplates devices devices'
    → HasTemplates devices n
    → HasTemplates devices' n
SameTemplates-HasTemplates devices devices' n same h i dev lt e =
    let (old, there, t) = template_at devices devices' i same e in
    subst (λ t. IsDeviceTemplate t) t (h i old lt there)

-- A device in place of one of the same template.
pub update-SameTemplates :
    (i : ℕ) (new : Device) (devices : List Device) {dev : Device}
    → get_elem? devices i ≡ some dev
    → new.template_id ≡ dev.template_id
    → SameTemplates devices (update i (λ d. new) devices)
      × (pending (update i (λ d. new) devices) + dev.sampling_delta_count
          ≡ pending devices + new.sampling_delta_count)
unfolding update pending
update-SameTemplates i new [] e same = absurd (cc)
update-SameTemplates zero new (d ∷ devices) {dev} e same =
    let at : d ≡ dev = cc in
    (
      ap (λ t. t ∷ map (λ d. Device.template_id d) devices)
          (subst (λ x. new.template_id ≡ Device.template_id x) (sym at) same),
      subst
          (λ x.
            new.sampling_delta_count + pending devices + Device.sampling_delta_count x
            ≡ d.sampling_delta_count + pending devices + new.sampling_delta_count)
          at (omega arith),
    )
update-SameTemplates (suc i) new (d ∷ devices) e same =
    let (sames, sum) = update-SameTemplates i new devices e same in
    (ap (λ ts. d.template_id ∷ ts) sames, omega (arith, sum))
