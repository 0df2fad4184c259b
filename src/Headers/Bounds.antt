-- ===== src/Headers/Bounds.antt =====
-- The offsets that findHeaders reports lie in the packet.
use impd4e.Common.{
  ℕ, ◌+◌, ◌≤◌, ◌<◌, List, ◌≡◌, refl, ◌⊎◌, inl, inr, arith, length, ok, bind_returns, Outcome-cases,
}
use impd4e.Memory.{Offsets, no_header, Layers, n_unknown, n_ip, n_ip6, read}
use impd4e.Headers.{
  Found, find_transport, find_ip4, find_ip6, find_headers, skip_options, payload_offset,
}

-- Both headers are absent, or the transport header begins in the packet and the payload, if
-- there is one, begins in the packet and not before it.
abbrev pub IsLocated : ℕ → Offsets → Type 0
IsLocated n o =
    ((o.trans ≡ no_header) × (o.payload ≡ no_header))
    ⊎ ((o.trans < n) × ((o.payload ≡ no_header) ⊎ ((o.trans ≤ o.payload) × (o.payload < n))))

payload_offset-le :
    (p : List ℕ) (n offs proto : ℕ) {r : ℕ}
    → payload_offset p n offs proto ≡ ok r
    → (r ≡ no_header) ⊎ (offs ≤ r)
unfolding payload_offset
payload_offset-le p n offs proto e = ground arith

find_transport-IsLocated :
    (p : List ℕ) (n offs proto : ℕ) (o : Offsets) (l : Layers) {r : Found}
    → (o.trans ≡ no_header) × (o.payload ≡ no_header)
    → find_transport p n offs proto o l ≡ ok r
    → IsLocated n r.0 × (r.0.net ≡ o.net) × (r.0.link ≡ o.link) × (r.1.net ≡ l.net)
unfolding find_transport
find_transport-IsLocated p n offs proto o l h e =
    elim (Outcome-cases (payload_offset p n offs proto)) [
      | inl (q, found) ↦ ground (arith, payload_offset-le p n offs proto found)
      | inr (why, failed) ↦ ground arith
    ]

abbrev pub IsFound : ℕ → Offsets → Found → Type 0
IsFound n o r =
    IsLocated n r.0
    × (r.0.net ≡ o.net)
    × (r.0.link ≡ o.link)
    × ((r.1.net ≡ n_unknown) ⊎ (r.1.net ≡ n_ip) ⊎ (r.1.net ≡ n_ip6))

find_ip4-IsFound :
    (p : List ℕ) (n first : ℕ) (o : Offsets) (l : Layers) {r : Found}
    → (o.trans ≡ no_header) × (o.payload ≡ no_header)
    → find_ip4 p n first o l ≡ ok r
    → IsFound n o r
unfolding find_ip4
find_ip4-IsFound p n first o l h e =
    let (proto, e1, e2) = bind_returns (read p (o.net + 9)) _ e in
    ground (arith, find_transport-IsLocated p n _ proto o _ h e2)

find_ip6-IsFound :
    (p : List ℕ) (n : ℕ) (o : Offsets) (l : Layers) {r : Found}
    → (o.trans ≡ no_header) × (o.payload ≡ no_header)
    → find_ip6 p n o l ≡ ok r
    → IsFound n o r
unfolding find_ip6
find_ip6-IsFound p n o l h e =
    let (proto, e1, e2) = bind_returns (read p (o.net + 6)) _ e in
    let (behind, e3, e4) =
      bind_returns (skip_options (length p + 1) p o.net (o.net + 40) proto) _ e2 in
    ground (arith, find_transport-IsLocated p n _ _ o _ h e4)

-- What findHeaders reports: either no header behind the network layer, or a transport header
-- that begins in the packet and a payload that is absent or begins in the packet, not before it.
-- The offsets of the link and the network layer are kept, and the protocol is IPv4, IPv6 or unknown.
pub find_headers-IsFound :
    (p : List ℕ) (n : ℕ) (o : Offsets) (l : Layers) {r : Found}
    → find_headers p n o l ≡ ok r
    → IsFound n o r
unfolding find_headers
find_headers-IsFound p n o l {r} e =
    let cleared = record o { trans = no_header; payload = no_header } in
    let (first, e1, e2) = bind_returns (read p o.net) _ e in
    ground (
      arith,
      find_ip6-IsFound p n cleared l {r = r} (refl, refl),
      find_ip4-IsFound p n first cleared l {r = r} (refl, refl),
    )
