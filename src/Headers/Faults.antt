-- ===== src/Headers/Faults.antt =====
-- When findHeaders stays inside the packet, and two inputs classes on which it does not do what it means to.
use impd4e.Common.{
  ℕ, suc, ◌+◌, ◌-◌, ◌*◌, ◌≤◌, ◌<◌, List, ◌≡◌, ◌≢◌, ◌⊎◌, inl, inr, arith, length, get_elem?,
  get_elem?_of_le, ok, err, overread, Outcome-cases, le_of_get_elem?, ltb, if◌then◌else◌, some,
  bit_and, false,
}
use impd4e.Memory.{Offsets, no_header, Layers, n_ip, n_ip6, t_tcp}
use impd4e.Headers.{Found, find_transport, find_headers, skip_options, is_option, payload_offset}

payload_offset_returns :
    (p : List ℕ) (n offs proto : ℕ)
    → n ≤ length p
    → (proto ≢ t_tcp) ⊎ (n ≢ offs + 12)
    → (q : ℕ) × (payload_offset p n offs proto ≡ ok q)
unfolding payload_offset
payload_offset_returns p n offs proto fits fine =
    elim (Outcome-cases (payload_offset p n offs proto)) [
      | inl (q, e) ↦ (q, e)
      | inr (why, e) ↦ absurd (ground (arith, le_of_get_elem? p (offs + 12)))
    ]

find_transport_returns :
    (p : List ℕ) (n offs proto : ℕ) (o : Offsets) (l : Layers)
    → n ≤ length p
    → (proto ≢ t_tcp) ⊎ (n ≢ offs + 12)
    → (r : Found) × (find_transport p n offs proto o l ≡ ok r)
unfolding find_transport
find_transport_returns p n offs proto o l fits fine =
    let (q, e) = payload_offset_returns p n offs proto fits fine in
    elim (Outcome-cases (find_transport p n offs proto o l)) [
      | inl found ↦ found
      | inr (why, e') ↦ absurd (ground arith)
    ]

module _ (p : List ℕ) (n : ℕ) (o : Offsets) (l : Layers) {first proto : ℕ} (at_start : o.net ≡ 0)
    (version : get_elem? p 0 ≡ some first) (ip4 : bit_and first 0xf0 ≡ 0x40)
    (protocol : get_elem? p 9 ≡ some proto) where
  find_headers-find_transport :
      find_headers p n o l
      ≡ find_transport p n
          (bit_and first 0x0F * 4)
          proto
          (record o { trans = no_header; payload = no_header })
          (record l { net = n_ip })
  unfolding find_headers
  find_headers-find_transport = ground arith

  -- An IPv4 packet that begins at offset 0, with its version byte and byte 9: findHeaders returns
  -- if the packet length is not beyond the memory and does not, with TCP, end exactly 12 bytes
  -- behind the IHL words of the IPv4 header. The transport header stands behind these words, with
  -- the protocol of byte 9, or is absent where they reach the end of the packet.
  pub find_headers_ip4 :
      n ≤ length p
      → (proto ≢ t_tcp) ⊎ (n ≢ bit_and first 0x0F * 4 + 12)
      → (r : Found) × (find_headers p n o l ≡ ok r)
        × (r.1.net ≡ n_ip)
        × (r.0.trans
            ≡ (if ltb (bit_and first 0x0F * 4) n then bit_and first 0x0F * 4 else no_header))
        × (r.1.trans ≡ (if ltb (bit_and first 0x0F * 4) n then proto else l.trans))
  unfolding find_transport
  find_headers_ip4 fits fine =
      let (r, e) =
        find_transport_returns p n (bit_and first 0x0F * 4) proto
          (record o { trans = no_header; payload = no_header }) (record l { net = n_ip }) fits
          fine in
      (r, rw find_headers-find_transport e, ground arith, ground arith, ground arith)

  -- `packetLength >= headerOffset[L_TRANS] + 12` does not cover the byte at offset 12 of the TCP
  -- header that is then read: in an IPv4 packet at offset 0 with exactly 12 captured bytes of TCP
  -- header it lies beyond them.
  find_headers_tcp_overread :
      proto ≡ t_tcp
      → n ≡ bit_and first 0x0F * 4 + 12
      → length p ≡ n
      → find_headers p n o l ≡ err overread
  unfolding find_transport payload_offset
  find_headers_tcp_overread tcp twelve end =
      rw find_headers-find_transport
        (ground (arith, get_elem?_of_le p (bit_and first 0x0F * 4 + 12)))

skip_stop :
    (fuel : ℕ) (p : List ℕ) (net offs proto : ℕ)
    → is_option proto ≡ false
    → skip_options (suc fuel) p net offs proto ≡ ok (offs, proto)
unfolding skip_options
skip_stop fuel p net offs proto plain = rw (plain, skip_options)

-- An IPv6 packet that begins at offset 0, whose byte 6 is no option's number: findHeaders returns if the
-- packet length is not beyond the memory and not, with TCP, 52. The transport header stands behind the 40 bytes of
-- the IPv6 header, with the protocol of byte 6, or is absent where these reach the end of the packet.
pub find_headers_ip6 :
    (p : List ℕ) (n : ℕ) (o : Offsets) (l : Layers) {first proto : ℕ}
    → o.net ≡ 0
    → get_elem? p 0 ≡ some first
    → bit_and first 0xf0 ≡ 0x60
    → get_elem? p 6 ≡ some proto
    → is_option proto ≡ false
    → n ≤ length p
    → (proto ≢ t_tcp) ⊎ (n ≢ 40 + 12)
    → (r : Found) × (find_headers p n o l ≡ ok r)
      × (r.1.net ≡ n_ip6)
      × (r.0.trans ≡ (if ltb 40 n then 40 else no_header))
      × (r.1.trans ≡ (if ltb 40 n then proto else l.trans))
unfolding find_headers find_transport
find_headers_ip6 p n o l {first} {proto} at_start version ip6 protocol plain fits fine =
    let cleared = record o { trans = no_header; payload = no_header } in
    let rounds : length p + 1 ≡ suc (length p) = omega arith in
    let (r, e) = find_transport_returns p n 40 proto cleared (record l { net = n_ip6 }) fits fine in
    (
      r,
      ground (arith, skip_stop (length p) p 0 40 proto plain),
      ground arith,
      ground arith,
      ground arith,
    )

skip_one :
    (fuel : ℕ) (p : List ℕ) {behind : ℕ}
    → get_elem? p 41 ≡ some 0
    → get_elem? p 48 ≡ some behind
    → is_option behind ≡ false
    → skip_options (suc (suc fuel)) p 0 40 0 ≡ ok (48, behind)
unfolding skip_options is_option
skip_one fuel p e41 e48 plain =
    rw (e41, skip_options) (rw (e48, skip_options) (skip_stop fuel p 0 48 _ plain))

-- An IPv6 packet at offset 0 with one hop-by-hop option of 8 bytes, which goes on behind it, with
-- a byte there that is no option's number, and is not 60 bytes long: the transport protocol that is
-- reported is that byte, whatever the option's own Next Header field (byte 40) says.
pub find_headers_option :
    (p : List ℕ) (n : ℕ) (o : Offsets) (l : Layers) {first behind : ℕ}
    → o.net ≡ 0
    → get_elem? p 0 ≡ some first
    → bit_and first 0xf0 ≡ 0x60
    → get_elem? p 6 ≡ some 0
    → get_elem? p 41 ≡ some 0
    → get_elem? p 48 ≡ some behind
    → is_option behind ≡ false
    → 48 < n
    → n ≤ length p
    → n ≢ 60
    → (r : Found) × (find_headers p n o l ≡ ok r) × (r.0.trans ≡ 48) × (r.1.trans ≡ behind)
unfolding find_headers find_transport
find_headers_option p n o l {first} {behind} at_start e0 ip6 e6 e41 e48 plain long fits fine =
    let cleared = record o { trans = no_header; payload = no_header } in
    let rounds : length p + 1 ≡ suc (suc (length p - 1)) = omega arith in
    let (r, e) =
      find_transport_returns p n 48 behind cleared (record l { net = n_ip6 }) fits (inr fine) in
    (r, ground (arith, skip_one (length p - 1) p e41 e48 plain), ground arith, ground arith)
