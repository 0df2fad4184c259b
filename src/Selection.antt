-- ===== src/Selection.antt =====
-- src/hash.c: the functions that choose the packet's bytes to hash (copyFields_*), and
-- copyFields_Select, which copies the ranges that the user gave. The result of each is the buffer;
-- the returned length is that of its bytes. The global list `rSel` is the argument `ranges`.
pub mod Ranges
pub mod Fields
pub mod Faults
pub mod Size
use impd4e.Common.{
  ℕ, ◌+◌, ◌-◌, List, [], ◌∷◌, ◌++◌, Bool, true, false, not, ◌&&◌, ◌||◌, ltb, leb, ◌==◌,
  if◌then◌else◌, min, u16, ◌-₃₂◌, length, drop, Outcome, ok, err, overread, ◌>>=◌,
}
use impd4e.Memory.{
  Packet, Buffer, Offsets, no_header, Layers, n_ip, n_ip6, t_unknown, t_icmp, t_tcp, t_udp, t_icmp6,
  slice, append_packet,
}

-- struct range_select, less the link: the list of ranges is a list.
pub record Range : Type 0 where
  pub offset : ℕ
  pub length : ℕ

-- "copies the IP Header into the hash input": the fields that are static between hops.
copy_net_ip : Packet → Buffer → Offsets → Outcome Buffer
copy_net_ip p b o = do
  b1 ← append_packet b p.ptr o.net 8
  b2 ← append_packet b1 p.ptr (o.net + 9) 1
  append_packet b2 p.ptr (o.net + 12) 8

copy_net_ip6 : Packet → Buffer → Offsets → Outcome Buffer
copy_net_ip6 p b o = do b1 ← append_packet b p.ptr o.net 7; append_packet b1 p.ptr (o.net + 8) 32

pub copy_net_fields : Packet → Buffer → Offsets → Layers → Outcome Buffer
unfolding copy_net_ip copy_net_ip6
copy_net_fields p b o l = do
  b1 ← (if l.net == n_ip then copy_net_ip p b o else ok b)
  if l.net == n_ip6 then copy_net_ip6 p b1 o else ok b1

-- `(headerOffset[L_TRANS] != -1) && (layers[L_TRANS] != T_UNKNOWN)`.
pub has_transport : Offsets → Layers → Bool
has_transport o l = not (o.trans == no_header) && not (l.trans == t_unknown)

-- "copy recommended 8 bytes -- only TCP UDP ICMP supported", for IPv4.
copy_rec_tcp : Packet → Buffer → Offsets → Outcome Buffer
copy_rec_tcp p b o = do
  b1 ← append_packet b p.ptr (o.trans + 6) 2
  b2 ← append_packet b1 p.ptr (o.trans + 10) 2
  append_packet b2 p.ptr (o.trans + 16) 2

copy_rec_udp : Packet → Buffer → Offsets → Outcome Buffer
copy_rec_udp p b o = do
  b1 ← append_packet b p.ptr o.trans 2
  b2 ← append_packet b1 p.ptr (o.trans + 3) 1
  append_packet b2 p.ptr (o.trans + 5) 3

copy_rec_icmp : Packet → Buffer → Offsets → Outcome Buffer
copy_rec_icmp p b o = do
  b1 ← append_packet b p.ptr (o.trans + 2) 2
  append_packet b1 p.ptr (o.trans + 12) 4

pub copy_fields_rec : Packet → Buffer → Offsets → Layers → Outcome Buffer
unfolding copy_rec_tcp copy_rec_udp copy_rec_icmp
copy_fields_rec p b o l =
    if has_transport o l && l.net == n_ip
    then (do
      b1 ← append_packet b p.ptr (o.net + 4) 2
      b2 ← (if l.trans == t_tcp then copy_rec_tcp p b1 o else ok b1)
      b3 ← (if l.trans == t_udp then copy_rec_udp p b2 o else ok b2)
      if l.trans == t_icmp || l.trans == t_icmp6 then copy_rec_icmp p b3 o else ok b3)
    else ok b

pub copy_fields_only_net : Packet → Buffer → Offsets → Layers → Outcome Buffer
copy_fields_only_net p b o l = copy_net_fields p b o l

-- "copies the IP Header and Transport Header (only TCP,ICMP,UDP) into the Hash Input".
pub copy_transport : Packet → Buffer → Offsets → Layers → Outcome Buffer
copy_transport p b o l = do
  b1 ←
      (if l.trans == t_tcp || l.trans == t_icmp || l.trans == t_icmp6
        then append_packet b p.ptr o.trans (min 20 (p.len -₃₂ o.trans))
        else ok b)
  if l.trans == t_udp then append_packet b1 p.ptr o.trans (min 8 (p.len -₃₂ o.trans)) else ok b1

pub copy_fields_u_tcp_and_net : Packet → Buffer → Offsets → Layers → Outcome Buffer
copy_fields_u_tcp_and_net p b o l = do
  b1 ← copy_net_fields p b o l
  if has_transport o l then copy_transport p b1 o l else ok (record b1 { bytes = [] })

-- "copy everything that is in the packet except variable fields into the hash input". The
-- difference wraps, and is compared as an unsigned number.
pub copy_fields_packet : Packet → Buffer → Offsets → Layers → Outcome Buffer
copy_fields_packet p b o l = do
  b1 ← copy_net_fields p b o l
  append_packet b1 p.ptr (o.net + 20) (min (p.len -₃₂ 20) 50)

-- How many of the `available` bytes of a range are written where `room` is left; a length of 0
-- stands for the rest of the packet.
pub write_count : ℕ → ℕ → ℕ → ℕ
write_count available wanted room =
    min (if wanted == 0 then available else min available wanted) room

-- The loop of copyFields_Select: the bytes that it writes. It ends with the list, or where the
-- buffer has no room left.
pub copy_fields_select : List ℕ → ℕ → List Range → ℕ → Outcome (List ℕ)
copy_fields_select p packet_length [] room = ok []
copy_fields_select p packet_length (range ∷ ranges) room =
    let count =
      (if ltb range.offset packet_length
        then write_count (packet_length - range.offset) range.length room
        else 0) in
    let next = copy_fields_select p packet_length ranges (room - count) in
    do
      piece ← (if ltb range.offset packet_length then slice p range.offset count else ok [])
      rest ← (if ltb 0 (room - count) then next else ok [])
      ok (piece ++ rest)

-- copyFields_Select_reverse: an offset counts from the end of the packet.
pub copy_fields_select_reverse : List ℕ → ℕ → List Range → ℕ → Outcome (List ℕ)
copy_fields_select_reverse p packet_length [] room = ok []
copy_fields_select_reverse p packet_length (range ∷ ranges) room =
    let count =
      (if leb range.offset packet_length then write_count range.offset range.length room else 0) in
    let next = copy_fields_select_reverse p packet_length ranges (room - count) in
    do
      piece ←
          (if leb range.offset packet_length
            then slice p (packet_length - range.offset) count
            else ok [])
      rest ← (if ltb 0 (room - count) then next else ok [])
      ok (piece ++ rest)

-- `packet->ptr + offset`.
advance : List ℕ → ℕ → Outcome (List ℕ)
advance p offset = if leb offset (length p) then ok (drop offset p) else err overread

-- The ranges, applied from the header at `offset` on; an absent header leaves the buffer as it is.
pub copy_fields_from : List Range → ℕ → Packet → Buffer → Outcome Buffer
unfolding advance
copy_fields_from ranges offset p b = if offset == no_header then ok b else (do
  q ← advance p.ptr offset
  bytes ← copy_fields_select q (u16 (p.len -₃₂ offset)) ranges (u16 b.size)
  ok (record b { bytes = bytes }))

pub copy_fields_raw : List Range → Packet → Buffer → Outcome Buffer
copy_fields_raw ranges p b = do
  bytes ← copy_fields_select p.ptr (u16 p.len) ranges (u16 b.size)
  ok (record b { bytes = bytes })

pub copy_fields_last : List Range → Packet → Buffer → Outcome Buffer
copy_fields_last ranges p b = do
  bytes ← copy_fields_select_reverse p.ptr (u16 p.len) ranges (u16 b.size)
  ok (record b { bytes = bytes })

-- The selection functions that an options record can hold.
pub data SelectionFunction : Type 0 where
  rec_fields only_net u_tcp_and_net whole_packet raw last : SelectionFunction
  link_layer net_layer trans_layer payload_layer : SelectionFunction

-- The call through the function pointer.
unfoldable pub select_fields :
    SelectionFunction → List Range → Packet → Buffer → Offsets → Layers → Outcome Buffer
unfolding copy_fields_rec copy_fields_only_net copy_net_fields has_transport copy_transport
    copy_fields_u_tcp_and_net copy_fields_packet copy_fields_select copy_fields_select_reverse
    write_count copy_fields_raw copy_fields_last copy_fields_from
select_fields rec_fields ranges p b o l = copy_fields_rec p b o l
select_fields only_net ranges p b o l = copy_fields_only_net p b o l
select_fields u_tcp_and_net ranges p b o l = copy_fields_u_tcp_and_net p b o l
select_fields whole_packet ranges p b o l = copy_fields_packet p b o l
select_fields raw ranges p b o l = copy_fields_raw ranges p b
select_fields last ranges p b o l = copy_fields_last ranges p b
select_fields link_layer ranges p b o l = copy_fields_from ranges o.link p b
select_fields net_layer ranges p b o l = copy_fields_from ranges o.net p b
select_fields trans_layer ranges p b o l = copy_fields_from ranges o.trans p b
select_fields payload_layer ranges p b o l = copy_fields_from ranges o.payload p b
