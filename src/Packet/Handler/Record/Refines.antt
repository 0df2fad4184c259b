-- ===== src/Packet/Handler/Record/Refines.antt =====
-- The handler of packets compared with the specification of one packet by itself.
use impd4e.Common.{
  List, [], ◌∷◌, Bool, true, false, ◌≡◌, refl, ap, subst, length, Option, none, some, leb, ◌==◌,
  if◌then◌else◌, u16, ◌+₃₂◌, Bool-cases, Fault, Outcome, ok, err, ◌>>=◌, inl, inr,
}
use impd4e.Memory.{Packet, Buffer}
use impd4e.Hash.{Machine}
use impd4e.Headers.{find_headers}
use impd4e.Selection.{select_fields}
use impd4e.Selection.Size.{select_fields-size}
use impd4e.Templates.{ExportField, get_template}
use impd4e.Device.{Device, Options}
use impd4e.Packet.{Timeval, apply_offset}
use impd4e.Packet.Fields.{Field, Selected, packet_fields}
use impd4e.Packet.Handler.{
  export_array, Handled, hashed, flush_full, export_packet, count_hash, handle_ip_packet,
  packet_nettype, count_packet, is_ip, handle_packet, zero_offsets, zero_layers,
}
use impd4e.Packet.Handler.Record.{
  Record, Setup, setup, setup_template, selected_record, ip_record, packet_record, prepend, sent,
}

-- The handler of one packet does what the specification says: the same fault, or that record and a
-- device of the same setup.
data Refines (s : Setup) : Outcome Handled → Outcome (Option Record) → Type 0 where
  returns :
      (r : Handled) (o : Option Record)
      → setup r.0 ≡ s
      → sent r.1 ≡ prepend o []
      → Refines s (ok r) (ok o)
  faults : (why : Fault) → Refines s (err why) (err why)

Refines-bind :
    {s : Setup} {A : Type 0} (m : Outcome A) (f : A → Outcome Handled)
    (g : A → Outcome (Option Record))
    → ((a : A) → m ≡ ok a → Refines s (f a) (g a))
    → Refines s (m >>= f) (m >>= g)
Refines-bind (ok a) f g h = h a refl
Refines-bind (err why) f g h = faults why

Refines-if :
    {s : Setup} (t : Bool) (x x' : Outcome Handled) (y y' : Outcome (Option Record))
    → Refines s x y
    → Refines s x' y'
    → Refines s (if t then x else x') (if t then y else y')
Refines-if true x x' y y' h k = h
Refines-if false x x' y y' h k = k

flush_full-Refines :
    (options : Options) (dev : Device) (template : List ExportField) (fs : List Field)
    → Refines
        (setup dev)
        (ok (flush_full options dev (export_array template fs ∷ [])))
        (ok (some (template, fs)))
unfolding flush_full sent
flush_full-Refines options dev template fs =
    elim (Bool-cases (leb options.export_packet_count dev.export_packet_count)) [
      | inl full ↦ returns _ _ (rw full) (rw full)
      | inr room ↦ returns _ _ (rw room) (rw room)
    ]

export_packet-Refines :
    (options : Options) (dev : Device) (selected : Selected)
    → Refines (setup dev) (export_packet options dev selected) (do
      template ← get_template (setup_template options (setup dev))
      fields ← packet_fields (setup_template options (setup dev)) selected
      ok (elim fields [ none ↦ none | some fs ↦ some (template, fs) ]))
unfolding export_packet sent
export_packet-Refines options dev selected =
    Refines-bind (get_template (setup_template options (setup dev))) _ _ (λ template e.
      Refines-bind (packet_fields (setup_template options (setup dev)) selected) _ _
        (λ fields e'. with_fields template fields))
  where
    with_fields :
        (template : List ExportField) (fields : Option (List Field))
        → Refines
            (setup dev)
            (elim fields [
              | none ↦ ok (dev, [])
              | some fs ↦ ok (flush_full options dev (export_array template fs ∷ []))
            ])
            (ok (elim fields [ none ↦ none | some fs ↦ some (template, fs) ]))
    with_fields template none = returns _ _ refl refl
    with_fields template (some fs) = flush_full-Refines options dev template fs

count_hash-Refines :
    (options : Options) (dev : Device) (selected : Selected)
    → options.pktid_export ≡ true
    → Refines
        (setup dev)
        (count_hash options dev selected)
        (selected_record options (setup dev) selected)
unfolding count_hash selected_record sent
count_hash-Refines options dev selected exporting =
    let counted = record dev {
      export_packet_count = dev.export_packet_count +₃₂ 1;
      sampling_size = dev.sampling_size +₃₂ 1;
    } in
    rw exporting (
      Refines-if _ _ _ _ _ (export_packet-Refines options counted selected) (returns _ _ refl refl))

after_selection-Refines :
    (options : Options) (dev : Device) (buffer : Buffer) (selected : Selected)
    → options.pktid_export ≡ true
    → buffer.size ≡ dev.hash_buffer.size
    → Refines
        (setup dev)
        (if length buffer.bytes == 0
          then ok (record dev { hash_buffer = buffer }, [])
          else count_hash options (record dev { hash_buffer = buffer }) selected)
        (if length buffer.bytes == 0 then ok none else selected_record options (setup dev) selected)
unfolding selected_record sent
after_selection-Refines options dev buffer selected exporting same =
    let dev' = record dev { hash_buffer = buffer } in
    let kept : setup dev' ≡ setup dev = ap (λ n. record (setup dev) { buffer_size = n }) same in
    Refines-if (length buffer.bytes == 0) _ _ _ _ (returns (dev', []) none kept refl) (
      subst
        (λ s.
          Refines s (count_hash options dev' selected)
            (selected_record options (setup dev) selected))
        kept (count_hash-Refines options dev' selected exporting))

handle_ip_packet-Refines :
    (machine : Machine) (options : Options) (packet : Packet) (ts : Timeval) (dev : Device)
    → options.pktid_export ≡ true
    → Refines
        (setup dev)
        (handle_ip_packet machine options packet ts dev)
        (ip_record machine options packet ts (setup dev))
unfolding handle_ip_packet ip_record
handle_ip_packet-Refines machine options packet ts dev exporting =
    Refines-bind (find_headers packet.ptr (u16 packet.len) zero_offsets zero_layers) _ _ (λ found e.
      Refines-bind
        (select_fields options.selection_function options.ranges packet
          (record dev.hash_buffer { bytes = [] }) found.0 found.1)
        _ _
        (λ buffer e'.
          after_selection-Refines options dev buffer (hashed machine options packet ts found buffer)
            exporting
            (select_fields-size options.selection_function options.ranges packet
              (record dev.hash_buffer { bytes = [] }) found.0 found.1 e')))

handle_packet-Refines :
    (machine : Machine) (options : Options) (packet : Packet) (ts : Timeval) (dev : Device)
    → options.pktid_export ≡ true
    → Refines
        (setup dev)
        (handle_packet machine options packet ts dev)
        (packet_record machine options packet ts (setup dev))
unfolding handle_packet packet_record count_packet sent
handle_packet-Refines machine options packet ts dev exporting =
    let inner = apply_offset (apply_offset packet dev.pkt_offset) options.offset in
    Refines-bind (packet_nettype dev.device_type dev.link_type packet) _ _ (λ nettype e.
      Refines-if (is_ip nettype) _ _ _ _
        (handle_ip_packet-Refines machine options inner ts (count_packet dev) exporting)
        (returns (count_packet dev, []) none refl refl))

Refines-setup :
    {s : Setup} {m : Outcome Handled} {o : Outcome (Option Record)} {r : Handled}
    → Refines s m o
    → m ≡ ok r
    → setup r.0 ≡ s
Refines-setup {s = s} {r = r} (returns done o same records) e =
    let equal : done ≡ r = cc in subst (λ d. setup d.0 ≡ s) equal same
Refines-setup (faults why) e = absurd (cc)

-- Where a packet is handled, the device keeps what does not change.
pub handle_packet-setup :
    (machine : Machine) (options : Options) (packet : Packet) (ts : Timeval) (dev : Device)
    {r : Handled}
    → options.pktid_export ≡ true
    → handle_packet machine options packet ts dev ≡ ok r
    → setup r.0 ≡ setup dev
handle_packet-setup machine options packet ts dev exporting e =
    Refines-setup (handle_packet-Refines machine options packet ts dev exporting) e

-- What a run sends, as far as records go.
abbrev pub sent_by : Outcome Handled → Outcome (List Record)
sent_by run = do r ← run; ok (sent r.1)
