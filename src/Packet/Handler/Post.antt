-- ===== src/Packet/Handler/Post.antt =====
-- What the handler of packets does to the counters and the template of a device, and which records
-- it sends.
use impd4e.Common.{
  ℕ, ◌+◌, List, [], ◌∷◌, Bool, true, false, not, ◌&&◌, ◌≡◌, refl, length, Option, none, some, leb,
  ◌==◌, if◌then◌else◌, u16, u64, ◌+₃₂◌, Bool-cases, inl, inr, Outcome, ok, Ensures, returns,
  Ensures-bind, All,
}
use impd4e.Memory.{Packet}
use impd4e.Hash.{Machine}
use impd4e.Headers.{find_headers}
use impd4e.Selection.{select_fields}
use impd4e.Templates.{ExportField, get_template}
use impd4e.Device.{Device, Options}
use impd4e.Packet.{Timeval, apply_offset}
use impd4e.Packet.Fields.{Field, Selected, packet_fields}
use impd4e.Packet.Handler.{
  Effect, export_array, export_flush, Handled, hashed, flush_full, export_packet, count_hash,
  handle_ip_packet, packet_nettype, count_packet, is_ip, handle_packet, zero_offsets, zero_layers,
}
use impd4e.Packet.Handler.Counters.{chosen_template}

-- A record that handle_ip_packet builds for one of the template ids.
abbrev pub IsPacketRecord : Effect → Type 0
IsPacketRecord (export_array template fs) =
    (t_id : ℕ) × (s : Selected) × (get_template t_id ≡ ok template)
    × (packet_fields t_id s ≡ ok (some fs))
IsPacketRecord export_flush = Unit

-- The device keeps its template, has `delta` packets to report, and packet records are sent.
abbrev pub Keeps : Device → ℕ → Handled → Type 0
Keeps dev delta r =
    (r.0.sampling_delta_count ≡ delta)
    × (r.0.template_id ≡ dev.template_id)
    × All IsPacketRecord r.1

flush_full-Keeps :
    (options : Options) (dev : Device) (template : List ExportField) (fs : List Field)
    → IsPacketRecord (export_array template fs)
    → Keeps dev dev.sampling_delta_count (flush_full options dev (export_array template fs ∷ []))
unfolding flush_full
flush_full-Keeps options dev template fs p =
    elim (Bool-cases (leb options.export_packet_count dev.export_packet_count)) [
      | inl full ↦ rw (full, flush_full) (refl, refl, (p, (tt, tt)))
      | inr room ↦ rw (room, flush_full) (refl, refl, (p, tt))
    ]

export_packet-Keeps :
    (options : Options) (dev : Device) (s : Selected)
    → Ensures (Keeps dev dev.sampling_delta_count) (export_packet options dev s)
unfolding export_packet
export_packet-Keeps options dev s =
    Ensures-bind (get_template (chosen_template options dev)) _ (λ template e.
      Ensures-bind (packet_fields (chosen_template options dev) s) _
        (λ fields e'. with_fields template fields e e'))
  where
    with_fields :
        (template : List ExportField) (fields : Option (List Field))
        → get_template (chosen_template options dev) ≡ ok template
        → packet_fields (chosen_template options dev) s ≡ ok fields
        → Ensures (Keeps dev dev.sampling_delta_count) (elim fields [
          | none ↦ ok (dev, [])
          | some fs ↦ ok (flush_full options dev (export_array template fs ∷ []))
        ])
    with_fields template none e e' = returns (dev, []) (refl, refl, tt)
    with_fields template (some fs) e e' =
        returns _ (flush_full-Keeps options dev template fs (chosen_template options dev, s, e, e'))

Ensures-if :
    {A : Type 0} {P : A → Type 0} (t : Bool) (x y : Outcome A)
    → Ensures P x
    → Ensures P y
    → Ensures P (if t then x else y)
Ensures-if true x y h k = h
Ensures-if false x y h k = k

count_hash-Keeps :
    (options : Options) (dev : Device) (s : Selected)
    → Ensures (Keeps dev dev.sampling_delta_count) (count_hash options dev s)
unfolding count_hash
count_hash-Keeps options dev s =
    let counted = record dev {
      export_packet_count = dev.export_packet_count +₃₂ 1;
      sampling_size = dev.sampling_size +₃₂ 1;
    } in
    Ensures-if (leb options.sel_range_min s.hash_id && leb s.hash_id options.sel_range_max) _ _
      (Ensures-if (not options.pktid_export) _ _ (returns (counted, []) (refl, refl, tt))
        (export_packet-Keeps options counted s))
      (returns _ (refl, refl, tt))

handle_ip_packet-Keeps :
    (machine : Machine) (options : Options) (packet : Packet) (ts : Timeval) (dev : Device)
    → Ensures (Keeps dev dev.sampling_delta_count) (handle_ip_packet machine options packet ts dev)
unfolding handle_ip_packet
handle_ip_packet-Keeps machine options packet ts dev =
    Ensures-bind (find_headers packet.ptr (u16 packet.len) zero_offsets zero_layers) _ (λ found e.
      Ensures-bind
        (select_fields options.selection_function options.ranges packet
          (record dev.hash_buffer { bytes = [] }) found.0 found.1)
        _
        (λ buffer e'.
          let dev' = record dev { hash_buffer = buffer } in
          Ensures-if (length buffer.bytes == 0) _ _ (returns (dev', []) (refl, refl, tt))
            (count_hash-Keeps options dev' (hashed machine options packet ts found buffer))))

-- Where handle_packet returns, the packet is counted, the template of the device is kept, and what
-- is sent are records of packets and flushes.
pub handle_packet-Keeps :
    (machine : Machine) (options : Options) (packet : Packet) (ts : Timeval) (dev : Device)
    → Ensures
        (Keeps dev (u64 (dev.sampling_delta_count + 1)))
        (handle_packet machine options packet ts dev)
unfolding handle_packet count_packet
handle_packet-Keeps machine options packet ts dev =
    let inner = apply_offset (apply_offset packet dev.pkt_offset) options.offset in
    Ensures-bind (packet_nettype dev.device_type dev.link_type packet) _ (λ nettype e.
      Ensures-if (is_ip nettype) _ _
        (handle_ip_packet-Keeps machine options inner ts (count_packet dev))
        (returns (count_packet dev, []) (refl, refl, tt)))
