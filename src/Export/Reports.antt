-- ===== src/Export/Reports.antt =====
-- The packet counts in the records of the sampling statistics: what is reported and what is still
-- to be reported.
use impd4e.Common.{
  ℕ, zero, suc, ◌+◌, List, [], ◌∷◌, ◌++◌, Bool, true, false, map, if◌then◌else◌, ◌≡◌, refl, ap₂,
  arith, overread, Ensures, returns, faults, Ensures-bind, Ensures-ok,
}
use impd4e.Templates.{
  ExportField, Element, packet_delta_count, get_template, export_fields_interface_stats,
}
use impd4e.Device.{Device}
use impd4e.Packet.Fields.{Field, Value, number, octets}
use impd4e.Packet.Handler.{Effect, export_array, export_flush}
use impd4e.Export.{
  Identity, PcapStat, Sampler, export_data_interface_stats, interface_fields, sample_devices,
  export_timer_sampling_cb, milliseconds,
}

-- The field packetDeltaCount.
unfoldable pub is_delta : Element → Bool
is_delta packet_delta_count = true
is_delta _ = false

value_of : Value → ℕ
value_of (number n) = n
value_of (octets s) = 0

-- The number of packets that a record reports.
unfoldable pub delta_of : List ExportField → List Field → ℕ
unfolding is_delta value_of
delta_of [] fields = 0
delta_of (e ∷ template) [] = 0
delta_of (e ∷ template) (f ∷ fields) =
    (if is_delta e.element then value_of f.value else 0) + delta_of template fields

unfoldable pub reported : List Effect → ℕ
reported [] = 0
reported (export_array template fields ∷ effects) = delta_of template fields + reported effects
reported (export_flush ∷ effects) = reported effects

pub reported-append : (xs ys : List Effect) → reported (xs ++ ys) ≡ reported xs + reported ys
unfolding reported
reported-append [] ys = ground arith
reported-append (export_array template fields ∷ xs) ys = ground (arith, reported-append xs ys)
reported-append (export_flush ∷ xs) ys = reported-append xs ys

-- The packets that the devices have counted since their last report.
unfoldable pub pending : List Device → ℕ
pending [] = 0
pending (dev ∷ devices) = dev.sampling_delta_count + pending devices

abbrev pub SameTemplates : List Device → List Device → Type 0
SameTemplates devices devices' =
    map (λ d. Device.template_id d) devices' ≡ map (λ d. Device.template_id d) devices

-- What was to be reported is reported, or still to be reported; templates stay.
abbrev pub Reports : List Device → List Device × List Effect → Type 0
Reports devices r = SameTemplates devices r.0 × (reported r.1 + pending r.0 ≡ pending devices)

export_data_interface_stats-reports :
    (accepted : Bool) (identity : Identity) (live : PcapStat) (time size : ℕ) (dev : Device)
    → Ensures
        (λ r.
          (r.0.template_id ≡ dev.template_id)
          × (reported r.1 + r.0.sampling_delta_count ≡ dev.sampling_delta_count))
        (export_data_interface_stats accepted identity live time size dev.sampling_delta_count dev)
unfolding export_data_interface_stats get_template reported delta_of is_delta value_of
    interface_fields export_fields_interface_stats
export_data_interface_stats-reports true identity live time size dev = returns _ (refl, omega arith)
export_data_interface_stats-reports false identity live time size dev =
    returns _ (refl, omega arith)

sample_devices-Reports :
    (sampler : Sampler) (time i n : ℕ) (devices : List Device)
    → Ensures (Reports devices) (sample_devices sampler time i n devices)
unfolding sample_devices reported pending
sample_devices-Reports sampler time i zero devices = returns _ (refl, omega arith)
sample_devices-Reports sampler time i (suc n) [] = faults overread
sample_devices-Reports sampler time i (suc n) (dev ∷ devices) =
    let m =
      export_data_interface_stats (sampler.accepted i) (sampler.identity i) (sampler.live i) time
        dev.sampling_size dev.sampling_delta_count dev in
    Ensures-bind m _ (λ here e.
      Ensures-bind (sample_devices sampler time (suc i) n devices) _ (λ rest e'.
        let (same, sum) =
          Ensures-ok
            (export_data_interface_stats-reports (sampler.accepted i) (sampler.identity i)
              (sampler.live i) time dev.sampling_size dev)
            e in
        let (sames, sums) = Ensures-ok (sample_devices-Reports sampler time (suc i) n devices) e' in
        returns _ (ap₂ ◌∷◌ same sames, omega (arith, sum, sums, reported-append here.1 rest.1))))

-- Where the timer of the sampling statistics returns, the packets that it reports and those that are still to be
-- reported are together those that were to be reported before, whichever records libipfix takes.
pub export_timer_sampling_cb-Reports :
    (sampler : Sampler) (now number_interfaces : ℕ) (devices : List Device)
    → Ensures (Reports devices) (export_timer_sampling_cb sampler now number_interfaces devices)
unfolding export_timer_sampling_cb reported
export_timer_sampling_cb-Reports sampler now number_interfaces devices =
    Ensures-bind (sample_devices sampler (milliseconds now) 0 number_interfaces devices) _ (λ r e.
      let (same, sum) =
        Ensures-ok (sample_devices-Reports sampler (milliseconds now) 0 number_interfaces devices)
          e in
      returns _ (same, omega (arith, sum, reported-append r.1 (export_flush ∷ []))))
