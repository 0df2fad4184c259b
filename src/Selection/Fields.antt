-- ===== src/Selection/Fields.antt =====
-- The selections by header fields: when they stay within the packet and the buffer, and how much
-- they copy.
use impd4e.Common.{
  ℕ, ◌+◌, ◌^◌, ◌≤◌, ◌<◌, List, [], ◌++◌, ◌≡◌, refl, ap, ◌⊎◌, inl, inr, arith, min, length, true,
  Bool-cases, Outcome, ok, ◌==◌, if◌then◌else◌, ◌-₃₂◌, ◌>>=◌, ◌||◌, take, drop,
}
use impd4e.Memory.{
  Packet, Buffer, Offsets, no_header, Layers, n_ip, n_ip6, t_tcp, t_udp, t_icmp, t_icmp6,
  append_packet,
}
use impd4e.Memory.Laws.{append_packet_of_le, append_packet-length}
use impd4e.Selection.{
  copy_net_ip, copy_net_ip6, copy_net_fields, has_transport, copy_transport,
  copy_fields_u_tcp_and_net,
}

-- `result` is a buffer of the same size that holds `n` bytes more than `b`.
abbrev pub Grows : Buffer → ℕ → Outcome Buffer → Type 0
Grows b n result =
    (b' : Buffer) × (result ≡ ok b') × (length b'.bytes ≡ length b.bytes + n) × (b'.size ≡ b.size)

pub append_packet-Grows :
    (b : Buffer) (p : List ℕ) (off count : ℕ)
    → off + count ≤ length p
    → length b.bytes + count ≤ b.size
    → Grows b count (append_packet b p off count)
append_packet-Grows b p off count h k =
    let e = append_packet_of_le b p off count h k in
    (
      record b { bytes = b.bytes ++ take count (drop off p) },
      e,
      (append_packet-length b p off count e).0,
      refl,
    )

-- Two copies one behind the other.
Grows-bind :
    (b : Buffer) (n m : ℕ) (first : Outcome Buffer) (next : Buffer → Outcome Buffer)
    → Grows b n first
    → ((b' : Buffer)
        → length b'.bytes ≡ length b.bytes + n
        → b'.size ≡ b.size
        → Grows b' m (next b'))
    → Grows b (n + m) (first >>= next)
Grows-bind b n m first next (b1, e1, l1, s1) then_next =
    let (b2, e2, l2, s2) = then_next b1 l1 s1 in (b2, rw e1 e2, omega arith, omega arith)

module _ (p : Packet) (b : Buffer) (o : Offsets) where
  copy_net_ip-Grows :
      o.net + 20 ≤ length p.ptr → length b.bytes + 17 ≤ b.size → Grows b 17 (copy_net_ip p b o)
  unfolding copy_net_ip
  copy_net_ip-Grows h k =
      Grows-bind b 8 9 _ _ (append_packet-Grows b p.ptr o.net 8 (omega arith) (omega arith))
        λ b1 l1 s1.
          Grows-bind b1 1 8 _ _
            (append_packet-Grows b1 p.ptr (o.net + 9) 1 (omega arith) (omega arith))
            λ b2 l2 s2. append_packet-Grows b2 p.ptr (o.net + 12) 8 (omega arith) (omega arith)

  copy_net_ip6-Grows :
      o.net + 40 ≤ length p.ptr → length b.bytes + 39 ≤ b.size → Grows b 39 (copy_net_ip6 p b o)
  unfolding copy_net_ip6
  copy_net_ip6-Grows h k =
      Grows-bind b 7 32 _ _ (append_packet-Grows b p.ptr o.net 7 (omega arith) (omega arith))
        λ b1 l1 s1. append_packet-Grows b1 p.ptr (o.net + 8) 32 (omega arith) (omega arith)

-- The bytes that the network header needs in the packet, and takes in the buffer.
abbrev pub net_header : Layers → ℕ
net_header l = if l.net == n_ip then 20 else if l.net == n_ip6 then 40 else 0

abbrev pub net_copied : Layers → ℕ
net_copied l = if l.net == n_ip then 17 else if l.net == n_ip6 then 39 else 0

module _ (p : Packet) (b : Buffer) (o : Offsets) (l : Layers) where
  -- copy_NetFields copies 17 bytes of an IPv4 header, 39 of an IPv6 header and none of another,
  -- with no fault, where the packet holds the header of 20 or 40 bytes and the buffer the copy.
  pub copy_net_fields-Grows :
      o.net + net_header l ≤ length p.ptr
      → length b.bytes + net_copied l ≤ b.size
      → Grows b (net_copied l) (copy_net_fields p b o l)
  unfolding copy_net_fields
  copy_net_fields-Grows h k = elim (Bool-cases (l.net == n_ip)) [
    | inl ip4 ↦
        let net : l.net ≡ n_ip = ground arith in
        let (b1, e1, l1, s1) = copy_net_ip-Grows p b o (ground arith) (ground arith) in
        (b1, ground arith, ground arith, s1)
    | inr not_ip4 ↦ elim (Bool-cases (l.net == n_ip6)) [
      | inl ip6 ↦
          let (b1, e1, l1, s1) = copy_net_ip6-Grows p b o (ground arith) (ground arith) in
          (b1, ground arith, ground arith, s1)
      | inr other ↦ (b, ground arith, ground arith, refl)
    ]
  ]

  -- At most 20 bytes of a transport header that begins in the packet.
  copy_transport-Grows :
      o.trans < p.len
      → p.len ≤ length p.ptr
      → p.len < 2 ^ 32
      → length b.bytes + 20 ≤ b.size
      → (n : ℕ) × (n ≤ 20) × Grows b n (copy_transport p b o l)
  unfolding copy_transport
  copy_transport-Grows inside fits small room =
      let eight =
        append_packet-Grows b p.ptr o.trans (min 8 (p.len -₃₂ o.trans)) (omega arith)
          (omega arith) in
      let twenty =
        append_packet-Grows b p.ptr o.trans (min 20 (p.len -₃₂ o.trans)) (omega arith)
          (omega arith) in
      elim (Bool-cases (l.trans == t_udp)) [
        | inl udp ↦
            (min 8 (p.len -₃₂ o.trans), omega arith, (eight.0, ground arith, eight.2, eight.3))
        | inr not_udp ↦
            elim (Bool-cases (l.trans == t_tcp || l.trans == t_icmp || l.trans == t_icmp6)) [
              | inl copied ↦ (
                min 20 (p.len -₃₂ o.trans),
                omega arith,
                (twenty.0, ground arith, twenty.2, twenty.3),
              )
              | inr other ↦ (0, omega arith, (b, ground arith, omega arith, refl))
            ]
      ]

has_transport-lt :
    (n : ℕ) (o : Offsets) (l : Layers)
    → has_transport o l ≡ true
    → (o.trans ≡ no_header) ⊎ (o.trans < n)
    → o.trans < n
unfolding has_transport
has_transport-lt n o l h t = ground arith

module _ (p : Packet) (b : Buffer) (o : Offsets) (l : Layers) where
  -- The default selection. A packet that holds its network header, and whose transport header is
  -- absent or begins in it, is selected with no fault into an empty buffer of 59 bytes or more: at
  -- most 59 bytes, and none where it has no transport layer. Its length, below 2 ^ 32, is not
  -- beyond its bytes.
  pub copy_fields_u_tcp_and_net_safe :
      b.bytes ≡ []
      → 59 ≤ b.size
      → o.net + net_header l ≤ length p.ptr
      → p.len ≤ length p.ptr
      → p.len < 2 ^ 32
      → (o.trans ≡ no_header) ⊎ (o.trans < p.len)
      → (b' : Buffer) × (copy_fields_u_tcp_and_net p b o l ≡ ok b')
        × (length b'.bytes ≤ 59)
        × (b'.size ≡ b.size)
        × ((has_transport o l ≡ true) ⊎ (b'.bytes ≡ []))
  unfolding copy_fields_u_tcp_and_net
  copy_fields_u_tcp_and_net_safe empty room net fits small trans =
      let start : length b.bytes ≡ 0 = ap length empty in
      let copied : net_copied l ≤ 39 = ground arith in
      let (b1, e1, l1, s1) = copy_net_fields-Grows p b o l net (omega arith) in
      elim (Bool-cases (has_transport o l)) [
        | inl there ↦
            let (n, twenty, (b2, e2, l2, s2)) =
              copy_transport-Grows p b1 o l (has_transport-lt p.len o l there trans) fits small
                (omega arith) in
            (b2, rw (e1, there) e2, omega arith, omega arith, inl there)
        | inr absent ↦ (record b1 { bytes = [] }, rw (e1, absent), omega arith, s1, inr refl)
      ]
