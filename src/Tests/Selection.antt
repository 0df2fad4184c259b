-- ===== src/Tests/Selection.antt =====
-- The selection functions, and parseRange, on concrete packets.
use impd4e.Common.{ℕ, List, [], ◌∷◌, ◌++◌, ◌≡◌, refl, inr, ◌⊎◌, ◌≤◌, arith, length, take, true, ok}
use impd4e.Memory.{Packet, Buffer, Offsets, Layers}
use impd4e.Range.RoundTrip.{Spec, from_to, plus}
use impd4e.Selection.{
  Range, copy_fields_select, copy_fields_select_reverse, copy_fields_u_tcp_and_net, has_transport,
}
use impd4e.Selection.Ranges.{
  all_ranges, all_ranges_reverse, copy_fields_select-all_ranges,
  copy_fields_select_reverse-all_ranges,
}
use impd4e.Selection.Fields.{copy_fields_u_tcp_and_net_safe}

abbrev zeros : List ℕ
zeros = 0 ∷ 0 ∷ 0 ∷ 0 ∷ 0 ∷ 0 ∷ 0 ∷ 0 ∷ []

abbrev udp_bytes : List ℕ
udp_bytes =
    69 ∷ 0 ∷ 0 ∷ 32 ∷ 0 ∷ 0 ∷ 0 ∷ 0 ∷ 64 ∷ 17 ∷ 0 ∷ 0 ∷ (zeros ++ zeros ++ (1 ∷ 2 ∷ 3 ∷ 4 ∷ []))

abbrev udp_packet : Packet
udp_packet = record { ptr = udp_bytes; len = 32 }

abbrev buffer : Buffer
buffer = record { bytes = []; size = 80 }

abbrev offsets : Offsets
offsets = record { link = 0; net = 0; trans = 20; payload = 28 }

abbrev layers : Layers
layers = record { link = 0; net = 4; trans = 17; payload = 0 }

abbrev ranges : List Range
ranges = record { offset = 28; length = 2 } ∷ record { offset = 30; length = 0 } ∷ []

copy_fields_select-all_ranges_example :
    copy_fields_select udp_bytes 32 ranges 3 ≡ ok (take 3 (all_ranges (take 32 udp_bytes) ranges))
copy_fields_select-all_ranges_example =
    copy_fields_select-all_ranges udp_bytes 32 ranges 3 (omega arith)

copy_fields_select_reverse-all_ranges_example :
    copy_fields_select_reverse udp_bytes 32 ranges 3
    ≡ ok (take 3 (all_ranges_reverse (take 32 udp_bytes) ranges))
copy_fields_select_reverse-all_ranges_example =
    copy_fields_select_reverse-all_ranges udp_bytes 32 ranges 3 (omega arith)

copy_fields_u_tcp_and_net_safe_example :
    (b' : Buffer) × (copy_fields_u_tcp_and_net udp_packet buffer offsets layers ≡ ok b')
    × (length b'.bytes ≤ 59)
    × (b'.size ≡ 80)
    × ((has_transport offsets layers ≡ true) ⊎ (b'.bytes ≡ []))
copy_fields_u_tcp_and_net_safe_example =
    copy_fields_u_tcp_and_net_safe udp_packet buffer offsets layers refl (omega arith) (omega arith)
      (omega arith) (omega arith) (inr (omega arith))

-- "20,34-45,14+4".
abbrev more_specs : List Spec
more_specs = from_to 34 45 ∷ plus 14 4 ∷ []
