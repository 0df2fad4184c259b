-- ===== src/Packet/Handler/Safe.antt =====
-- Packets that are handled with no memory fault.
use impd4e.Common.{
  arith, ℕ, ◌+◌, ◌*◌, ◌≤◌, ◌<◌, ◌^◌, List, [], ◌∷◌, ◌≡◌, ◌≢◌, refl, ◌⊎◌, inl, inr, Option, some,
  length, get_elem?, get_elem?_of_lt, bit_and, u16, Outcome-cases, Option-cases, ◌+₃₂◌, ok,
}
use impd4e.Memory.{Packet, n_ip, t_tcp}
use impd4e.Hash.{Machine}
use impd4e.Headers.Bounds.{find_headers-IsFound}
use impd4e.Headers.Faults.{find_headers_ip4}
use impd4e.Selection.{u_tcp_and_net, select_fields}
use impd4e.Selection.Fields.{copy_fields_u_tcp_and_net_safe}
use impd4e.Templates.{ExportField, templates, mint_id, ts_ttl_proto_id, get_template}
use impd4e.Device.{Device, Options}
use impd4e.Packet.{Timeval, read_u16, get_ttl, get_ip_length}
use impd4e.Packet.Fields.{Field, Selected, packet_fields}
use impd4e.Packet.Handler.{
  Handled, export_array, flush_full, export_packet, count_hash, handle_ip_packet, hashed,
  zero_offsets, zero_layers,
}
use impd4e.Packet.Handler.Counters.{chosen_template}

pub get_template_returns :
    (t : ℕ) → t < 8 → (template : List ExportField) × (get_template t ≡ ok template)
unfolding get_template
get_template_returns t h = let (template, e) = get_elem?_of_lt templates t h in (template, rw e)

module _ (s : Selected) (ip4 : s.layers.net ≡ n_ip)
    (header : s.offsets.net + 20 ≤ length s.packet.ptr) where
  get_ttl_returns : (ttl : ℕ) × (get_ttl s.packet s.offsets.net s.layers.net ≡ ok ttl)
  unfolding get_ttl
  get_ttl_returns =
      let (ttl, e) = get_elem?_of_lt s.packet.ptr (s.offsets.net + 8) (omega arith) in
      (ttl, ground arith)

  get_ip_length_returns : (len : ℕ) × (get_ip_length s.packet s.offsets.net s.layers.net ≡ ok len)
  unfolding get_ip_length read_u16
  get_ip_length_returns =
      let (high, e1) = get_elem?_of_lt s.packet.ptr (s.offsets.net + 2) (omega arith) in
      let (low, e2) = get_elem?_of_lt s.packet.ptr (s.offsets.net + 2 + 1) (omega arith) in
      (high * 256 + low, ground arith)

  -- A template without ports and addresses reads the IP header only.
  packet_fields_returns :
      (t : ℕ)
      → mint_id ≤ t
      → t ≤ ts_ttl_proto_id
      → (fs : Option (List Field)) × (packet_fields t s ≡ ok fs)
  unfolding packet_fields
  packet_fields_returns t lo hi =
      let (ttl, e1) = get_ttl_returns in
      let (len, e2) = get_ip_length_returns in
      elim (Outcome-cases (packet_fields t s)) [
        | inl found ↦ found
        | inr (why, e) ↦ absurd (ground arith)
      ]

  export_packet_returns :
      (options : Options) (dev : Device)
      → mint_id ≤ chosen_template options dev
      → chosen_template options dev ≤ ts_ttl_proto_id
      → (r : Handled) × (export_packet options dev s ≡ ok r)
  unfolding export_packet get_template
  export_packet_returns options dev lo hi =
      let (found, e) = packet_fields_returns (chosen_template options dev) lo hi in
      let (template, e') = get_template_returns (chosen_template options dev) (omega arith) in
      elim (Option-cases found) [
        | inl nothing ↦ ((dev, []), rw (e', e, nothing))
        | inr (fs, something) ↦
            (flush_full options dev (export_array template fs ∷ []), rw (e', e, something))
      ]

  count_hash_returns :
      (options : Options) (dev : Device)
      → mint_id ≤ chosen_template options dev
      → chosen_template options dev ≤ ts_ttl_proto_id
      → (r : Handled) × (count_hash options dev s ≡ ok r)
  unfolding count_hash
  count_hash_returns options dev lo hi =
      let counted = record dev {
        export_packet_count = dev.export_packet_count +₃₂ 1;
        sampling_size = dev.sampling_size +₃₂ 1;
      } in
      let (sent, e1) = export_packet_returns options counted lo hi in
      elim (Outcome-cases (count_hash options dev s)) [
        | inl found ↦ found
        | inr (why, e) ↦ absurd (ground arith)
      ]

-- The default selection and a template without ports never fault on an IPv4 packet: it holds its
-- 20 bytes of header, its length is that of the captured bytes and fits a uint16_t, and not, with
-- TCP, exactly 12 bytes more than its IHL words; the hash buffer has 59 bytes or more. Whatever the
-- hash function and the selection range, handle_ip_packet returns.
handle_ip_packet_returns :
    (machine : Machine) (options : Options) (packet : Packet) (ts : Timeval) (dev : Device)
    {first proto : ℕ}
    → options.selection_function ≡ u_tcp_and_net
    → 59 ≤ dev.hash_buffer.size
    → mint_id ≤ chosen_template options dev
    → chosen_template options dev ≤ ts_ttl_proto_id
    → (packet.len ≡ length packet.ptr) × (20 ≤ packet.len) × (packet.len < 2 ^ 16)
    → get_elem? packet.ptr 0 ≡ some first
    → bit_and first 0xf0 ≡ 0x40
    → get_elem? packet.ptr 9 ≡ some proto
    → (proto ≢ t_tcp) ⊎ (packet.len ≢ bit_and first 0x0F * 4 + 12)
    → (r : Handled) × (handle_ip_packet machine options packet ts dev ≡ ok r)
unfolding handle_ip_packet select_fields
handle_ip_packet_returns machine options packet ts dev {first} {proto} sel size lo hi len version
      ip4 protocol fine =
    let (found, e1, net, trans, layer) =
      find_headers_ip4 packet.ptr (u16 packet.len) zero_offsets zero_layers {first = first}
        {proto = proto} refl version ip4 protocol (omega arith) (ground arith) in
    let (located, zero_net, zero_link, known) =
      find_headers-IsFound packet.ptr (u16 packet.len) zero_offsets zero_layers {r = found} e1 in
    let (buffer, e2, bound, same, empty) =
      copy_fields_u_tcp_and_net_safe packet (record dev.hash_buffer { bytes = [] }) found.0 found.1
        refl size (ground arith) (omega arith) (omega arith) (ground arith) in
    let dev' = record dev { hash_buffer = buffer } in
    let (r, e3) =
      count_hash_returns (hashed machine options packet ts found buffer) net (ground arith) options
        dev' lo hi in
    elim (Outcome-cases (handle_ip_packet machine options packet ts dev)) [
      | inl done ↦ done
      | inr (why, failed) ↦ absurd (ground arith)
    ]
