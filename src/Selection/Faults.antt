-- ===== src/Selection/Faults.antt =====
-- Inputs on which the selections by header fields leave the packet or the buffer.
use impd4e.Common.{
  ◌+◌, ◌^◌, ◌≤◌, ◌<◌, [], ◌≡◌, ap, arith, min, length, Outcome, ok, err, overread, overflow, ◌-₃₂◌,
  ◌>>=◌,
}
use impd4e.Memory.{Packet, Buffer, Offsets, Layers, n_ip, n_ip6}
use impd4e.Memory.Laws.{append_packet_overread, append_packet_overflow}
use impd4e.Selection.{copy_net_ip, copy_net_fields, copy_fields_packet}
use impd4e.Selection.Fields.{append_packet-Grows, copy_net_fields-Grows}

bind_err {ℓ κ} :
    {A : Type ℓ} {B : Type κ} (m : Outcome A) (f : A → Outcome B) {a : A} → m ≡ ok a → m >>= f ≡ f a
bind_err m f e = rw e

-- Nothing checks that an IPv4 packet holds its 20 bytes of header: on one of 12 to 19 bytes,
-- copy_NetFields, with room for its 17 bytes in the buffer, reads beyond the captured bytes.
copy_net_fields_short :
    (p : Packet) (b : Buffer) (o : Offsets) (l : Layers)
    → l.net ≡ n_ip
    → o.net + 12 ≤ length p.ptr
    → length p.ptr < o.net + 20
    → length b.bytes + 17 ≤ b.size
    → copy_net_fields p b o l ≡ err overread
unfolding copy_net_fields copy_net_ip
copy_net_fields_short p b o l ip4 enough short room =
    let (b1, e1, l1, s1) = append_packet-Grows b p.ptr o.net 8 (omega arith) (omega arith) in
    let (b2, e2, l2, s2) = append_packet-Grows b1 p.ptr (o.net + 9) 1 (omega arith) (omega arith) in
    ground (arith, append_packet_overread b2 p.ptr (o.net + 12) 8)

-- The selection PACKET takes 39 bytes of an IPv6 header and up to 50 bytes from offset 20 on, with
-- no regard to the size of the buffer: an empty one of the default snap length, 80 bytes, is overrun
-- by every IPv6 packet at offset 0 of 62 bytes or more, all of which are there.
copy_fields_packet_overflow :
    (p : Packet) (b : Buffer) (o : Offsets) (l : Layers)
    → l.net ≡ n_ip6
    → o.net ≡ 0
    → b.bytes ≡ []
    → b.size ≡ 80
    → p.len ≡ length p.ptr
    → 62 ≤ p.len
    → p.len < 2 ^ 32
    → copy_fields_packet p b o l ≡ err overflow
unfolding copy_fields_packet
copy_fields_packet_overflow p b o l ip6 start empty size len long small =
    let none_yet : length b.bytes ≡ 0 = ap length empty in
    let (b1, e1, l1, s1) = copy_net_fields-Grows p b o l (ground arith) (ground arith) in
    rw e1 (
      append_packet_overflow b1 p.ptr (o.net + 20) (min (p.len -₃₂ 20) 50) (omega arith)
        (ground arith))
