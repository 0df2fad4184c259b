-- ===== src/Packet/Handler/Counters.antt =====
-- The counters of a device over the packets of a capture, and the batches in which records are sent.
use impd4e.Common.{
  ℕ, suc, ◌+◌, ◌*◌, ◌^◌, ◌≤◌, ◌<◌, List, [], ◌∷◌, ◌++◌, true, ◌≡◌, refl, inl, inr, arith, length,
  u16, Outcome, Outcome-cases, ok, ◌>>=◌, bind_returns, Option, none, some, ◌==◌, if◌then◌else◌,
  ◌+₃₂◌, Bool-cases,
}
use native.Mathlib.Nat.{mul-add}
use impd4e.Memory.{Packet}
use impd4e.Headers.{find_headers}
use impd4e.Selection.{select_fields}
use impd4e.Hash.{Machine}
use impd4e.Templates.{ExportField, mint_id, ts_ttl_proto_ip_id, get_template}
use impd4e.Device.{Device, Options, no_template}
use impd4e.Packet.{Timeval, apply_offset}
use impd4e.Packet.Fields.{Field, Selected, packet_fields}
use impd4e.Packet.Handler.{
  Effect, export_array, export_flush, Handled, flush_full, export_packet, count_hash,
  handle_ip_packet, handle_packet, count_packet, packet_nettype, hashed, zero_offsets, zero_layers,
}

-- pcap_dispatch and the other dispatch functions: the callback on one packet after the other.
unfoldable pub run_packets : Machine → Options → List (Packet × Timeval) → Device → Outcome Handled
run_packets machine options [] dev = ok (dev, [])
run_packets machine options ((packet, ts) ∷ packets) dev = do
  here ← handle_packet machine options packet ts dev
  rest ← run_packets machine options packets here.0
  ok (rest.0, here.1 ++ rest.1)

unfoldable pub exports : List Effect → ℕ
exports [] = 0
exports (export_array template fs ∷ effects) = suc (exports effects)
exports (export_flush ∷ effects) = exports effects

unfoldable pub flushes : List Effect → ℕ
flushes [] = 0
flushes (export_array template fs ∷ effects) = flushes effects
flushes (export_flush ∷ effects) = suc (flushes effects)

pub exports-append : (xs ys : List Effect) → exports (xs ++ ys) ≡ exports xs + exports ys
unfolding exports
exports-append [] ys = ground arith
exports-append (export_array t fs ∷ xs) ys = ground (arith, exports-append xs ys)
exports-append (export_flush ∷ xs) ys = ground (arith, exports-append xs ys)

pub flushes-append : (xs ys : List Effect) → flushes (xs ++ ys) ≡ flushes xs + flushes ys
unfolding flushes
flushes-append [] ys = ground arith
flushes-append (export_array t fs ∷ xs) ys = flushes-append xs ys
flushes-append (export_flush ∷ xs) ys = ground (arith, flushes-append xs ys)

-- The configuration of a device that this is not: one of a batch size and a packet template.
abbrev pub IsPacketTemplate : ℕ → Type 0
IsPacketTemplate t = (mint_id ≤ t) × (t ≤ ts_ttl_proto_ip_id)

abbrev pub chosen_template : Options → Device → ℕ
chosen_template options dev =
    if dev.template_id == no_template then options.template_id else dev.template_id

-- A batch holds a positive number of records, which fits a uint32_t.
abbrev pub IsBatched : Options → Type 0
IsBatched options = (0 < options.export_packet_count) × (options.export_packet_count < 2 ^ 32)

-- What one packet, or several, did: `limit` records for each flush, but for those waiting before
-- and after, and fewer than `limit` records wait.
abbrev pub Batches : Options → Device → Handled → Type 0
Batches options dev r =
    (options.export_packet_count * flushes r.1 + r.0.export_packet_count
      ≡ dev.export_packet_count + exports r.1)
    × (r.0.export_packet_count < options.export_packet_count)
    × (r.0.template_id ≡ dev.template_id)

packet_fields-some :
    (t : ℕ) (s : Selected) {found : Option (List Field)}
    → IsPacketTemplate t
    → packet_fields t s ≡ ok found
    → (fs : List Field) × (found ≡ some fs)
unfolding packet_fields
packet_fields-some t s {found = none} h e = ground arith
packet_fields-some t s {found = some fs} h e = (fs, refl)

flush_full-Batches :
    (options : Options) (dev : Device) (template : List ExportField) (fs : List Field)
    → IsBatched options
    → dev.export_packet_count ≤ options.export_packet_count
    → let r = flush_full options dev (export_array template fs ∷ []) in
      (options.export_packet_count * flushes r.1 + r.0.export_packet_count
        ≡ dev.export_packet_count)
      × (exports r.1 ≡ 1)
      × (r.0.export_packet_count < options.export_packet_count)
      × (r.0.template_id ≡ dev.template_id)
unfolding flush_full exports flushes
flush_full-Batches options dev template fs b lim = ground arith

export_packet-sends :
    (options : Options) (dev : Device) (s : Selected) {r : Handled}
    → IsPacketTemplate (chosen_template options dev)
    → export_packet options dev s ≡ ok r
    → (template : List ExportField) × (fs : List Field) × (r
        ≡ flush_full options dev (export_array template fs ∷ []))
unfolding export_packet
export_packet-sends options dev s {r} t e =
    let (template, e1, e2) = bind_returns (get_template (chosen_template options dev)) _ e in
    let (fields, e3, e4) = bind_returns (packet_fields (chosen_template options dev) s) _ e2 in
    let (fs, e5) = packet_fields-some (chosen_template options dev) s t e3 in
    (template, fs, ground arith)

count_hash-Batches :
    (options : Options) (dev : Device) (s : Selected) {r : Handled}
    → IsBatched options
    → (options.pktid_export ≡ true)
    → IsPacketTemplate (chosen_template options dev)
    → dev.export_packet_count < options.export_packet_count
    → count_hash options dev s ≡ ok r
    → Batches options dev r
unfolding count_hash exports flushes
count_hash-Batches options dev s {r} b exporting t lim e =
    let counted = record dev {
      export_packet_count = dev.export_packet_count +₃₂ 1;
      sampling_size = dev.sampling_size +₃₂ 1;
    } in
    elim (Outcome-cases (export_packet options counted s)) [
      | inl (sent, e1) ↦
          let (template, fs, e2) = export_packet-sends options counted s {r = sent} t e1 in
          ground (arith, flush_full-Batches options counted template fs b)
      | inr (why, e1) ↦ ground arith
    ]

-- The configuration under which records are sent: a batch size, sending enabled, a packet template.
abbrev pub IsExporting : Options → Device → Type 0
IsExporting options dev =
    IsBatched options
    × (options.pktid_export ≡ true)
    × IsPacketTemplate (chosen_template options dev)

pub Batches-none :
    (options : Options) (dev dev' : Device)
    → dev.export_packet_count < options.export_packet_count
    → (dev'.export_packet_count ≡ dev.export_packet_count) × (dev'.template_id ≡ dev.template_id)
    → Batches options dev (dev', [])
unfolding exports flushes
Batches-none options dev dev' lim same = ground arith

handle_ip_packet-Batches :
    (machine : Machine) (options : Options) (packet : Packet) (ts : Timeval) (dev : Device)
    {r : Handled}
    → IsExporting options dev
    → dev.export_packet_count < options.export_packet_count
    → handle_ip_packet machine options packet ts dev ≡ ok r
    → Batches options dev r
unfolding handle_ip_packet
handle_ip_packet-Batches machine options packet ts dev {r} (b, exporting, t) lim e =
    let (found, e1, e2) =
      bind_returns (find_headers packet.ptr (u16 packet.len) zero_offsets zero_layers) _ e in
    let (buffer, e3, e4) =
      bind_returns
        (select_fields options.selection_function options.ranges packet
          (record dev.hash_buffer { bytes = [] }) found.0 found.1)
        _ e2 in
    let dev' = record dev { hash_buffer = buffer } in
    elim (Bool-cases (length buffer.bytes == 0)) [
      | inl h ↦ ground (arith, Batches-none options dev dev')
      | inr h ↦ ground (
        arith,
        count_hash-Batches options dev' (hashed machine options packet ts found buffer) {r = r} b
            exporting t lim,
      )
    ]

pub handle_packet-Batches :
    (machine : Machine) (options : Options) (packet : Packet) (ts : Timeval) (dev : Device)
    {r : Handled}
    → IsExporting options dev
    → dev.export_packet_count < options.export_packet_count
    → handle_packet machine options packet ts dev ≡ ok r
    → Batches options dev r
unfolding handle_packet count_packet
handle_packet-Batches machine options packet ts dev {r} h lim e =
    let (nettype, e1, e2) =
      bind_returns (packet_nettype dev.device_type dev.link_type packet) _ e in
    let inner = apply_offset (apply_offset packet dev.pkt_offset) options.offset in
    ground (
      arith,
      Batches-none options dev (count_packet dev),
      handle_ip_packet-Batches machine options inner ts (count_packet dev) {r = r} h lim,
    )

pub Batches-append :
    (options : Options) (dev : Device) (here rest : Handled)
    → Batches options dev here
    → Batches options here.0 rest
    → Batches options dev (rest.0, here.1 ++ rest.1)
Batches-append options dev here rest h k = ground (
  arith,
  exports-append here.1 rest.1,
  flushes-append here.1 rest.1,
  mul-add options.export_packet_count (flushes here.1) (flushes rest.1),
)

-- Over a capture, records are sent in batches of exactly the configured size: the records sent,
-- with those that waited before, are the flushes times the size and those that wait behind; and
-- fewer records than one batch wait; the device keeps its template. Sending is enabled, the
-- template is one of the four packet templates, the size is positive and fits a uint32_t, fewer
-- records than one batch waited before, and no packet of the capture leads to a memory fault.
run_packets-Batches :
    (machine : Machine) (options : Options) (packets : List (Packet × Timeval)) (dev : Device)
    {r : Handled}
    → IsExporting options dev
    → dev.export_packet_count < options.export_packet_count
    → run_packets machine options packets dev ≡ ok r
    → Batches options dev r
unfolding run_packets
run_packets-Batches machine options [] dev h lim e = ground (arith, Batches-none options dev dev)
run_packets-Batches machine options ((packet, ts) ∷ packets) dev {r} h lim e =
    let (here, e1, e2) = bind_returns (handle_packet machine options packet ts dev) _ e in
    let (rest, e3, e4) = bind_returns (run_packets machine options packets here.0) _ e2 in
    let (b, lim', same) = handle_packet-Batches machine options packet ts dev {r = here} h lim e1 in
    ground (
      arith,
      run_packets-Batches machine options packets here.0 {r = rest},
      Batches-append options dev here rest,
    )
