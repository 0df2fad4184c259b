-- ===== src/Tests/Headers.antt =====
-- findHeaders on concrete packets.
use impd4e.Common.{ℕ, List, [], ◌∷◌, ◌++◌, ◌≡◌, ◌≢◌, refl, inl, arith, ok, err, no_fuel}
use impd4e.Memory.{Offsets, Layers, n_ip}
use impd4e.Headers.{Found, find_headers, find_transport, payload_offset, is_option}
use impd4e.Headers.Bounds.{IsFound, find_headers-IsFound}
use impd4e.Headers.Ends.{find_headers-ne-no_fuel}
use impd4e.Headers.Faults.{find_headers_ip4, find_headers_option}

abbrev zeros : List ℕ
zeros = 0 ∷ 0 ∷ 0 ∷ 0 ∷ 0 ∷ 0 ∷ 0 ∷ 0 ∷ []

abbrev offsets : Offsets
offsets = record { link = 0; net = 0; trans = 0; payload = 0 }

abbrev layers : Layers
layers = record { link = 0; net = 0; trans = 0; payload = 0 }

-- 20 bytes of IPv4 header, and a UDP header of 8 bytes with 4 bytes of payload.
abbrev udp_packet : List ℕ
udp_packet =
    69 ∷ 0 ∷ 0 ∷ 32 ∷ 0 ∷ 0 ∷ 0 ∷ 0 ∷ 64 ∷ 17 ∷ 0 ∷ 0 ∷ (zeros ++ zeros ++ (1 ∷ 2 ∷ 3 ∷ 4 ∷ []))

-- IPv6, a hop-by-hop option whose Next Header is UDP, and 8 bytes that begin with 4.
abbrev ip6_packet : List ℕ
ip6_packet =
    96
    ∷ 0
    ∷ 0
    ∷ 0
    ∷ 0
    ∷ 16
    ∷ 0
    ∷ 64
    ∷ (zeros
        ++ zeros
        ++ zeros
        ++ zeros
        ++ (17 ∷ 0 ∷ 0 ∷ 0 ∷ 0 ∷ 0 ∷ 0 ∷ 0 ∷ 4 ∷ 210 ∷ 0 ∷ 53 ∷ 0 ∷ 8 ∷ 0 ∷ 0 ∷ []))

abbrev udp_found : Found
udp_found = (
  record { link = 0; net = 0; trans = 20; payload = 28 },
  record { link = 0; net = 4; trans = 17; payload = 0 },
)

find_headers-IsFound_example : IsFound 32 offsets udp_found
unfolding find_headers find_transport payload_offset
find_headers-IsFound_example =
    find_headers-IsFound udp_packet 32 offsets layers {r = udp_found} refl

find_headers-ne-no_fuel_example : find_headers ip6_packet 56 offsets layers ≢ err no_fuel
find_headers-ne-no_fuel_example = find_headers-ne-no_fuel ip6_packet 56 offsets layers

find_headers_ip4_example :
    (r : Found) × (find_headers udp_packet 32 offsets layers ≡ ok r)
    × (r.1.net ≡ n_ip)
    × (r.0.trans ≡ 20)
    × (r.1.trans ≡ 17)
find_headers_ip4_example =
    find_headers_ip4 udp_packet 32 offsets layers {first = 69} {proto = 17} refl refl refl refl
      (omega arith) (inl (omega arith))

find_headers_option_example :
    (r : Found) × (find_headers ip6_packet 56 offsets layers ≡ ok r)
    × (r.0.trans ≡ 48)
    × (r.1.trans ≡ 4)
unfolding find_headers is_option
find_headers_option_example =
    find_headers_option ip6_packet 56 offsets layers {first = 96} {behind = 4} refl refl refl refl
      refl refl refl (omega arith) (omega arith) (omega arith)
