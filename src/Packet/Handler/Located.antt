-- ===== src/Packet/Handler/Located.antt =====
-- Captured IPv4 and IPv6 packets, by where their transport header stands.
use impd4e.Common.{
  arith, ltb→lt, ℕ, ◌+◌, ◌*◌, ◌≤◌, ◌<◌, ◌^◌, [], ◌≡◌, ◌≢◌, refl, ◌⊎◌, inl, inr, some, true, false,
  length, get_elem?, bit_and, u16, Outcome-cases, Bool-cases, ok, ltb, if◌then◌else◌,
}
use impd4e.Memory.{Packet, Buffer, Offsets, n_ip, n_ip6, t_tcp, no_header}
use impd4e.Hash.{Machine}
use impd4e.Headers.{Found, find_headers, is_option}
use impd4e.Headers.Bounds.{IsLocated, find_headers-IsFound}
use impd4e.Headers.Faults.{find_headers_ip4, find_headers_ip6}
use impd4e.Selection.{u_tcp_and_net, select_fields}
use impd4e.Selection.Fields.{copy_fields_u_tcp_and_net_safe, net_header}
use impd4e.Templates.{mint_id, ts_ttl_proto_ip_id}
use impd4e.Device.{Device, Options}
use impd4e.Packet.{Timeval}
use impd4e.Packet.Handler.{Handled, handle_ip_packet, hashed, zero_offsets, zero_layers}
use impd4e.Packet.Handler.Counters.{chosen_template}
use impd4e.Packet.Handler.Readable.{has_ports, IsReadable, count_hash_returns}

-- A captured IP packet at the offset 0: where its transport header stands, and with which protocol. Behind an IPv6
-- header no option stands.
pub data IpPacket (packet : Packet) : ℕ → ℕ → Type 0 where
  ip4 :
      (first proto : ℕ)
      → get_elem? packet.ptr 0 ≡ some first
      → bit_and first 0xf0 ≡ 0x40
      → get_elem? packet.ptr 9 ≡ some proto
      → 20 ≤ packet.len
      → IpPacket packet (bit_and first 0x0F * 4) proto
  ip6 :
      (first proto : ℕ)
      → get_elem? packet.ptr 0 ≡ some first
      → bit_and first 0xf0 ≡ 0x60
      → get_elem? packet.ptr 6 ≡ some proto
      → is_option proto ≡ false
      → 40 ≤ packet.len
      → IpPacket packet 40 proto

-- findHeaders on it.
abbrev IsAt : Packet → ℕ → ℕ → Found → Type 0
IsAt packet h proto r =
    (find_headers packet.ptr (u16 packet.len) zero_offsets zero_layers ≡ ok r)
    × (((r.1.net ≡ n_ip) × (20 ≤ packet.len)) ⊎ ((r.1.net ≡ n_ip6) × (40 ≤ packet.len)))
    × (r.0.trans ≡ (if ltb h packet.len then h else no_header))
    × (r.1.trans ≡ (if ltb h packet.len then proto else 0))

find_headers-IsAt :
    (packet : Packet) {h proto : ℕ}
    → packet.len ≡ length packet.ptr
    → packet.len < 2 ^ 16
    → IpPacket packet h proto
    → (proto ≢ t_tcp) ⊎ (packet.len ≢ h + 12)
    → (r : Found) × IsAt packet h proto r
find_headers-IsAt packet whole small (ip4 first proto version v4 protocol long) fine =
    let (r, e, net, trans, layer) =
      find_headers_ip4 packet.ptr (u16 packet.len) zero_offsets zero_layers {first = first}
        {proto = proto} refl version v4 protocol (omega arith) (ground arith) in
    let fits : u16 packet.len ≡ packet.len = omega arith in
    (r, (e, inl (net, long), rw fits at trans, rw fits at layer))
find_headers-IsAt packet whole small (ip6 first proto version v6 protocol plain long) fine =
    let (r, e, net, trans, layer) =
      find_headers_ip6 packet.ptr (u16 packet.len) zero_offsets zero_layers {first = first}
        {proto = proto} refl version v6 protocol plain (omega arith) (ground arith) in
    let fits : u16 packet.len ≡ packet.len = omega arith in
    (r, (e, inr (net, long), rw fits at trans, rw fits at layer))

-- The ports of the packet are there, where the template has ports.
abbrev pub HasPorts : ℕ → Packet → ℕ → ℕ → Type 0
HasPorts t packet h proto =
    t ≡ ts_ttl_proto_ip_id → has_ports proto ≡ true → h < packet.len → h + 4 ≤ packet.len

IsAt-IsReadable :
    (t : ℕ) (machine : Machine) (options : Options) (packet : Packet) (ts : Timeval) (h proto : ℕ)
    (found : Found) (buffer : Buffer)
    → packet.len ≡ length packet.ptr
    → found.0.net ≡ 0
    → IsAt packet h proto found
    → HasPorts t packet h proto
    → IsReadable t (hashed machine options packet ts found buffer)
IsAt-IsReadable t machine options packet ts h proto found buffer whole zero_net
      (e, net, trans, layer) ports =
    (
      elim net [ inl (v4, long) ↦ inl (v4, omega arith) | inr (v6, long) ↦ inr (v6, omega arith) ],
      λ chosen ported. elim (Bool-cases (ltb h packet.len)) [
        | inl inside ↦
            let at : found.0.trans ≡ h = rw inside at trans in
            let known : found.1.trans ≡ proto = rw inside at layer in
            let behind = ports chosen (rw known at ported) (ltb→lt h packet.len inside) in
            omega arith
        | inr outside ↦
            let unknown : found.1.trans ≡ 0 = rw outside at layer in
            let never : false ≡ true = rw unknown at ported in absurd (cc)
      ],
    )

trans_within : (n : ℕ) (o : Offsets) → IsLocated n o → (o.trans ≡ no_header) ⊎ (o.trans < n)
trans_within n o (inl (absent, nothing)) = inl absent
trans_within n o (inr (inside, payload)) = inr inside

IsAt-header :
    (packet : Packet) (h proto : ℕ) (found : Found)
    → IsAt packet h proto found
    → net_header found.1 ≤ packet.len
IsAt-header packet h proto found (e, net, trans, layer) = elim net [
  | inl (v4, long) ↦ rw v4 long
  | inr (v6, long) ↦ rw v6 long
]

module _ (machine : Machine) (options : Options) (packet : Packet) (ts : Timeval) (dev : Device)
    (sel : options.selection_function ≡ u_tcp_and_net) (size : 59 ≤ dev.hash_buffer.size)
    (lo : mint_id ≤ chosen_template options dev)
    (hi : chosen_template options dev ≤ ts_ttl_proto_ip_id) (whole : packet.len ≡ length packet.ptr)
    (small : packet.len < 2 ^ 16) where
  handle_located :
      (found : Found)
      → find_headers packet.ptr (u16 packet.len) zero_offsets zero_layers ≡ ok found
      → net_header found.1 ≤ packet.len
      → found.0.net ≡ 0
      → (found.0.trans ≡ no_header) ⊎ (found.0.trans < packet.len)
      → ((buffer : Buffer)
          → IsReadable
              (chosen_template options dev)
              (hashed machine options packet ts found buffer))
      → (r : Handled) × (handle_ip_packet machine options packet ts dev ≡ ok r)
  unfolding handle_ip_packet select_fields
  handle_located found e1 header zero_net trans readable =
      let (buffer, e2, bound, same, empty) =
        copy_fields_u_tcp_and_net_safe packet (record dev.hash_buffer { bytes = [] }) found.0
          found.1 refl size (omega arith) (omega arith) (omega arith) trans in
      let dev' = record dev { hash_buffer = buffer } in
      let (r, e3) =
        count_hash_returns options dev' (hashed machine options packet ts found buffer)
          (readable buffer) lo hi in
      elim (Outcome-cases (handle_ip_packet machine options packet ts dev)) [
        | inl done ↦ done
        | inr (why, failed) ↦ absurd (ground arith)
      ]

  pub handle_ip_packet_total :
      {h proto : ℕ}
      → IpPacket packet h proto
      → (proto ≢ t_tcp) ⊎ (packet.len ≢ h + 12)
      → HasPorts (chosen_template options dev) packet h proto
      → (r : Handled) × (handle_ip_packet machine options packet ts dev ≡ ok r)
  handle_ip_packet_total {h} {proto} ip fine ports =
      let (found, located) = find_headers-IsAt packet {h = h} {proto = proto} whole small ip fine in
      let (bounds, zero_net, zero_link, known) =
        find_headers-IsFound packet.ptr (u16 packet.len) zero_offsets zero_layers {r = found}
          located.0 in
      let fits : u16 packet.len ≡ packet.len = omega arith in
      handle_located found located.0 (IsAt-header packet h proto found located) zero_net
        (rw fits at (trans_within (u16 packet.len) found.0 bounds))
        (λ buffer.
          IsAt-IsReadable (chosen_template options dev) machine options packet ts h proto found
            buffer whole zero_net located ports)
