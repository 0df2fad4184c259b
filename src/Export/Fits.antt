-- ===== src/Export/Fits.antt =====
-- Records that fit their templates: libipfix takes as many fields as the template has, each of the
-- length that it gives, and strings of the length that the record gives.
use impd4e.Common.{
  ℕ, zero, suc, ◌≤◌, ◌<◌, List, [], ◌∷◌, ◌++◌, Bool, true, false, ◌&&◌, ◌||◌, ◌==◌, length, Outcome,
  ok, ◌≡◌, refl, arith, length-take, All,
}
use impd4e.Range.{Text}
use impd4e.Templates.{
  ExportField, variable_length, get_template, export_fields_interface_stats, export_fields_sync,
  export_fields_location, export_fields_probe_stats,
}
use impd4e.Device.{Device}
use impd4e.Packet.Fields.{Field, Value, number, octets}
use impd4e.Packet.Handler.{Effect, export_array, export_flush}
use impd4e.Address.{ntoa}
use impd4e.Export.{
  Identity, PcapStat, ProbeStat, Location, Sampler, interface_description,
  export_data_interface_stats, export_data_sync, export_data_probe_stats, export_data_location,
  pcap_stat, sample_devices, export_timer_sampling_cb, export_timer_pktid_cb, export_timer_stats_cb,
  export_timer_location_cb, milliseconds, interface_fields, sync_fields, probe_fields,
  location_fields,
}

-- A string of exactly the length that the record gives.
pub is_text : Field → Bool
is_text f = whole f.value f.length
  where
    whole : Value → ℕ → Bool
    whole (number n) k = false
    whole (octets s) k = length s == k

unfoldable pub field_fits : ExportField → Field → Bool
unfolding is_text
field_fits e f = (e.length == f.length) || (e.length == variable_length && is_text f)

unfoldable pub fits : List ExportField → List Field → Bool
unfolding field_fits
fits [] [] = true
fits (e ∷ template) (f ∷ fields) = field_fits e f && fits template fields
fits [] (f ∷ fields) = false
fits (e ∷ template) [] = false

abbrev pub EffectFits : Effect → Type 0
EffectFits (export_array template fields) = fits template fields ≡ true
EffectFits export_flush = Unit

abbrev pub AllFit : List Effect → Type 0
AllFit effects = All EffectFits effects

-- A string whose length a uint16_t holds.
abbrev pub IsShort : Text → Type 0
IsShort s = length s < 65536

abbrev pub LocationIsShort : Location → Type 0
LocationIsShort location =
    IsShort location.s_latitude
    × IsShort location.s_longitude
    × IsShort location.s_probe_name
    × IsShort location.s_location_name

pub AllFit-append : (xs ys : List Effect) → AllFit xs → AllFit ys → AllFit (xs ++ ys)
AllFit-append [] ys h k = k
AllFit-append (x ∷ xs) ys h k = (h.0, AllFit-append xs ys h.1 k)

length-interface_description : (identity : Identity) → IsShort (interface_description identity)
unfolding interface_description
length-interface_description identity =
    omega (arith, length-take 15 (ntoa identity.p0 identity.p1 identity.p2 identity.p3))

interface_fields-fits :
    (identity : Identity) (stat : PcapStat) (time size delta_count : ℕ)
    → IsShort identity.device_name
    → fits export_fields_interface_stats (interface_fields identity stat time size delta_count)
      ≡ true
unfolding fits field_fits is_text interface_fields export_fields_interface_stats
interface_fields-fits identity stat time size delta_count short =
    ground (arith, length-interface_description identity)

sync_fields-fits :
    (time message_id message_value : ℕ) (message : Text)
    → IsShort message
    → fits export_fields_sync (sync_fields time message_id message_value message) ≡ true
unfolding fits field_fits is_text sync_fields export_fields_sync
sync_fields-fits time message_id message_value message short = ground arith

location_fields-fits :
    (time : ℕ) (location : Location)
    → LocationIsShort location
    → fits export_fields_location (location_fields time location) ≡ true
unfolding fits field_fits is_text location_fields export_fields_location
location_fields-fits time location short = ground arith

probe_fields-fits :
    (time : ℕ) (stat : ProbeStat) → fits export_fields_probe_stats (probe_fields time stat) ≡ true
unfolding fits field_fits probe_fields export_fields_probe_stats
probe_fields-fits time stat = refl

-- What is sent, where it is sent at all.
abbrev pub Sends : {A : Type 0} → Outcome (A × List Effect) → Type 0
Sends {A} m = (r : A × List Effect) × (m ≡ ok r) × AllFit r.1

abbrev pub SendsOnly : Outcome (List Effect) → Type 0
SendsOnly m = (effects : List Effect) × (m ≡ ok effects) × AllFit effects

pub export_data_interface_stats-AllFit :
    (accepted : Bool) (identity : Identity) (live : PcapStat) (time size delta_count : ℕ)
    (dev : Device)
    → IsShort identity.device_name
    → Sends (export_data_interface_stats accepted identity live time size delta_count dev)
unfolding export_data_interface_stats get_template
export_data_interface_stats-AllFit true identity live time size delta_count dev short = (
  _,
  refl,
  (interface_fields-fits identity (pcap_stat dev.device_type live) time size delta_count short, tt),
)
export_data_interface_stats-AllFit false identity live time size delta_count dev short =
    (_, refl, tt)

sample_devices-AllFit :
    (sampler : Sampler) (time i n : ℕ) (devices : List Device)
    → ((j : ℕ) → IsShort (sampler.identity j).device_name)
    → n ≤ length devices
    → Sends (sample_devices sampler time i n devices)
unfolding sample_devices
sample_devices-AllFit sampler time i zero devices short lim = (_, refl, tt)
sample_devices-AllFit sampler time i (suc n) [] short lim = absurd (omega arith)
sample_devices-AllFit sampler time i (suc n) (dev ∷ devices) short lim =
    let (here, e, fit) =
      export_data_interface_stats-AllFit (sampler.accepted i) (sampler.identity i) (sampler.live i)
        time dev.sampling_size dev.sampling_delta_count dev (short i) in
    let (rest, e', fit') =
      sample_devices-AllFit sampler time (suc i) n devices short (omega arith) in
    ((here.0 ∷ rest.0, here.1 ++ rest.1), rw e (rw e' refl), AllFit-append here.1 rest.1 fit fit')

pub export_data_probe_stats-AllFit :
    (accepted : Bool) (stat : ProbeStat) (time : ℕ)
    → SendsOnly (export_data_probe_stats accepted stat time)
unfolding export_data_probe_stats get_template
export_data_probe_stats-AllFit true stat time = (_, refl, (probe_fields-fits time stat, (tt, tt)))
export_data_probe_stats-AllFit false stat time = (_, refl, tt)

pub export_data_location-AllFit :
    (accepted : Bool) (location : Location) (time : ℕ)
    → LocationIsShort location
    → SendsOnly (export_data_location accepted location time)
unfolding export_data_location get_template
export_data_location-AllFit true location time short =
    (_, refl, (location_fields-fits time location short, (tt, tt)))
export_data_location-AllFit false location time short = (_, refl, tt)

-- Where each interface of the configuration has a device and names are shorter than 65536 bytes, each
-- of the four timers returns, and every record that it sends has the fields of its template: as many, the
-- numbers of the length that the template gives, the strings of the length that the record gives.
pub export_timers-AllFit :
    (sampler : Sampler) (now number_interfaces : ℕ) (devices : List Device) (accepted : Bool)
    (stat : ProbeStat) (location : Location)
    → ((j : ℕ) → IsShort (sampler.identity j).device_name)
    → number_interfaces ≤ length devices
    → LocationIsShort location
    → Sends (export_timer_sampling_cb sampler now number_interfaces devices)
      × SendsOnly (export_timer_stats_cb accepted stat now)
      × SendsOnly (export_timer_location_cb accepted location now)
      × AllFit export_timer_pktid_cb
unfolding export_timer_sampling_cb export_timer_stats_cb export_timer_location_cb
export_timers-AllFit sampler now number_interfaces devices accepted stat location short lim
      strings =
    (
      sampling
          (sample_devices-AllFit sampler (milliseconds now) 0 number_interfaces devices short lim),
      export_data_probe_stats-AllFit accepted stat (milliseconds now),
      export_data_location-AllFit accepted location (milliseconds now) strings,
      (tt, tt),
    )
  where
    sampling :
        Sends (sample_devices sampler (milliseconds now) 0 number_interfaces devices)
        → Sends (export_timer_sampling_cb sampler now number_interfaces devices)
    sampling (r, e, fit) = (
      (r.0, r.1 ++ (export_flush ∷ [])),
      rw e refl,
      AllFit-append r.1 (export_flush ∷ []) fit (tt, tt),
    )

-- A response to a command that is shorter than 65536 bytes is sent as a record that fits its template.
pub export_data_sync-AllFit :
    (accepted : Bool) (time message_id message_value : ℕ) (message : Text)
    → IsShort message
    → SendsOnly (export_data_sync accepted time message_id message_value message)
unfolding export_data_sync get_template
export_data_sync-AllFit true time message_id message_value message short =
    (_, refl, (sync_fields-fits time message_id message_value message short, (tt, tt)))
export_data_sync-AllFit false time message_id message_value message short = (_, refl, tt)
