-- ===== src/Packet/Handler/Readable.antt =====
-- What a record of each template reads of the packet, when it is there.
use impd4e.Common.{
  arith, ℕ, ◌+◌, ◌*◌, ◌≤◌, List, [], ◌∷◌, ◌≡◌, refl, ◌⊎◌, inl, inr, Option, Bool, true, ◌||◌, ◌==◌,
  ==_iff, length, get_elem?_of_lt, take, drop, Outcome-cases, Option-cases, Bool-cases, ◌+₃₂◌, ok,
}
use impd4e.Memory.{n_ip, n_ip6, t_tcp, t_udp, t_sctp, slice}
use impd4e.Memory.Laws.{slice_of_le}
use impd4e.Templates.{mint_id, ts_ttl_proto_ip_id, get_template}
use impd4e.Device.{Device, Options}
use impd4e.Packet.{read_u16, get_ttl, get_ip_length, get_ipa, get_port}
use impd4e.Packet.Fields.{Field, Selected, packet_fields}
use impd4e.Packet.Handler.{Handled, export_array, flush_full, export_packet, count_hash}
use impd4e.Packet.Handler.Counters.{chosen_template}
use impd4e.Packet.Handler.Safe.{get_template_returns}

-- The protocols whose ports are read.
abbrev pub has_ports : ℕ → Bool
has_ports proto = proto == t_udp || proto == t_tcp || proto == t_sctp

-- What a record of the packet reads is there.
abbrev pub IsReadable : ℕ → Selected → Type 0
IsReadable t s =
    (((s.layers.net ≡ n_ip) × (s.offsets.net + 20 ≤ length s.packet.ptr))
      ⊎ ((s.layers.net ≡ n_ip6) × (s.offsets.net + 40 ≤ length s.packet.ptr)))
    × ((t ≡ ts_ttl_proto_ip_id)
        → (has_ports s.layers.trans ≡ true)
        → s.offsets.trans + 4 ≤ length s.packet.ptr)

pub read_u16_returns :
    (p : List ℕ) (off : ℕ) → off + 2 ≤ length p → (n : ℕ) × (read_u16 p off ≡ ok n)
unfolding read_u16
read_u16_returns p off h =
    let (high, e1) = get_elem?_of_lt p off (omega arith) in
    let (low, e2) = get_elem?_of_lt p (off + 1) (omega arith) in (high * 256 + low, ground arith)

slice_returns :
    (p : List ℕ) (off count : ℕ)
    → off + count ≤ length p
    → (piece : List ℕ) × (slice p off count ≡ ok piece)
slice_returns p off count h = (take count (drop off p), slice_of_le p off count h)

module _ (t : ℕ) (s : Selected) (readable : IsReadable t s) where
  get_ttl_returns : (ttl : ℕ) × (get_ttl s.packet s.offsets.net s.layers.net ≡ ok ttl)
  unfolding get_ttl
  get_ttl_returns = elim readable.0 [
    | inl (ip4, header) ↦
        let (ttl, e) = get_elem?_of_lt s.packet.ptr (s.offsets.net + 8) (omega arith) in
        (ttl, ground arith)
    | inr (ip6, header) ↦
        let (ttl, e) = get_elem?_of_lt s.packet.ptr (s.offsets.net + 7) (omega arith) in
        (ttl, ground arith)
  ]

  get_ip_length_returns : (len : ℕ) × (get_ip_length s.packet s.offsets.net s.layers.net ≡ ok len)
  unfolding get_ip_length
  get_ip_length_returns = elim readable.0 [
    | inl (ip4, header) ↦
        let (len, e) = read_u16_returns s.packet.ptr (s.offsets.net + 2) (omega arith) in
        (len, ground arith)
    | inr (ip6, header) ↦
        let (len, e) = read_u16_returns s.packet.ptr (s.offsets.net + 4) (omega arith) in
        (len, ground arith)
  ]

  get_ipa_returns :
      (off : ℕ)
      → off ≤ 4
      → (ipa : List ℕ) × (get_ipa s.packet (s.offsets.net + off) s.layers.net ≡ ok ipa)
  unfolding get_ipa
  get_ipa_returns off few = elim readable.0 [
    | inl (ip4, header) ↦
        let (ipa, e) = slice_returns s.packet.ptr (s.offsets.net + off + 12) 4 (omega arith) in
        (ipa, rw ip4 e)
    | inr (ip6, header) ↦ (0 ∷ 0 ∷ 0 ∷ 0 ∷ [], rw ip6 refl)
  ]

  get_port_returns :
      (off : ℕ)
      → off ≤ 2
      → t ≡ ts_ttl_proto_ip_id
      → (port : ℕ) × (get_port s.packet (s.offsets.trans + off) s.layers.trans ≡ ok port)
  unfolding get_port
  get_port_returns off few chosen = elim (Bool-cases (has_ports s.layers.trans)) [
    | inl ported ↦
        let (port, e) =
          read_u16_returns s.packet.ptr (s.offsets.trans + off)
            (ground (arith, readable.1 chosen ported)) in
        (port, rw ported e)
    | inr portless ↦ (0, rw portless refl)
  ]

  packet_fields_returns :
      mint_id ≤ t
      → t ≤ ts_ttl_proto_ip_id
      → (fs : Option (List Field)) × (packet_fields t s ≡ ok fs)
  unfolding packet_fields
  packet_fields_returns lo hi =
      let (ttl, e1) = get_ttl_returns in
      let (len, e2) = get_ip_length_returns in
      let (src, e3) = get_ipa_returns 0 (omega arith) in
      let (dst, e4) = get_ipa_returns 4 (omega arith) in
      let start : s.offsets.net + 0 ≡ s.offsets.net = omega arith in
      let from : s.offsets.trans + 0 ≡ s.offsets.trans = omega arith in
      elim (Bool-cases (t == ts_ttl_proto_ip_id)) [
        | inl at_id ↦
            let chosen = (==_iff t ts_ttl_proto_ip_id).0 at_id in
            let (src_port, e5) = get_port_returns 0 (omega arith) chosen in
            let (dst_port, e6) = get_port_returns 2 (omega arith) chosen in
            let e3' = rw start at e3 in
            let e5' = rw from at e5 in
            elim (Outcome-cases (packet_fields t s)) [
              | inl found ↦ found
              | inr (why, e) ↦ absurd (ground arith)
            ]
        | inr other ↦ elim (Outcome-cases (packet_fields t s)) [
          | inl found ↦ found
          | inr (why, e) ↦ absurd (ground arith)
        ]
      ]

export_packet_returns :
    (options : Options) (dev : Device) (s : Selected)
    → IsReadable (chosen_template options dev) s
    → mint_id ≤ chosen_template options dev
    → chosen_template options dev ≤ ts_ttl_proto_ip_id
    → (r : Handled) × (export_packet options dev s ≡ ok r)
unfolding export_packet get_template
export_packet_returns options dev s readable lo hi =
    let (found, e) = packet_fields_returns (chosen_template options dev) s readable lo hi in
    let (template, e') = get_template_returns (chosen_template options dev) (omega arith) in
    elim (Option-cases found) [
      | inl nothing ↦ ((dev, []), rw (e', e, nothing))
      | inr (fs, something) ↦
          (flush_full options dev (export_array template fs ∷ []), rw (e', e, something))
    ]

pub count_hash_returns :
    (options : Options) (dev : Device) (s : Selected)
    → IsReadable (chosen_template options dev) s
    → mint_id ≤ chosen_template options dev
    → chosen_template options dev ≤ ts_ttl_proto_ip_id
    → (r : Handled) × (count_hash options dev s ≡ ok r)
unfolding count_hash
count_hash_returns options dev s readable lo hi =
    let counted = record dev {
      export_packet_count = dev.export_packet_count +₃₂ 1;
      sampling_size = dev.sampling_size +₃₂ 1;
    } in
    let (sent, e1) = export_packet_returns options counted s readable lo hi in
    elim (Outcome-cases (count_hash options dev s)) [
      | inl found ↦ found
      | inr (why, e) ↦ absurd (ground arith)
    ]
