-- ===== src/Selection/Size.antt =====
-- The size of the hash buffer, which no selection changes.
use impd4e.Common.{
  ℕ, List, ◌≡◌, refl, Bool, true, false, if◌then◌else◌, Outcome, ok, err, ◌>>=◌, arith,
}
use impd4e.Memory.{Packet, Buffer, Offsets, Layers, slice, append_packet}
use impd4e.Selection.{
  Range, copy_net_fields, copy_rec_tcp, copy_rec_udp, copy_rec_icmp, copy_fields_rec,
  copy_fields_only_net, copy_transport, copy_fields_u_tcp_and_net, copy_fields_packet,
  copy_fields_raw, copy_fields_last, copy_fields_from, SelectionFunction, rec_fields, only_net,
  u_tcp_and_net, whole_packet, raw, last, link_layer, net_layer, trans_layer, payload_layer,
  select_fields,
}

-- If there is a buffer, its size is `n`.
data HasSize (n : ℕ) : Outcome Buffer → Type 0 where
  has_size : (b : Buffer) → b.size ≡ n → HasSize n (ok b)
  no_buffer : (why : impd4e.Common.Fault) → HasSize n (err why)

HasSize-bind :
    {n : ℕ} {A : Type 0} (m : Outcome A) (f : A → Outcome Buffer)
    → ((a : A) → HasSize n (f a))
    → HasSize n (m >>= f)
HasSize-bind (ok a) f h = h a
HasSize-bind (err why) f h = no_buffer why

HasSize-then :
    {n : ℕ} (m : Outcome Buffer) (f : Buffer → Outcome Buffer)
    → HasSize n m
    → ((b : Buffer) → b.size ≡ n → HasSize n (f b))
    → HasSize n (m >>= f)
HasSize-then m f (has_size b e) h = h b e
HasSize-then m f (no_buffer why) h = no_buffer why

HasSize-if :
    {n : ℕ} (t : Bool) (x y : Outcome Buffer)
    → HasSize n x
    → HasSize n y
    → HasSize n (if t then x else y)
HasSize-if true x y h k = h
HasSize-if false x y h k = k

append_packet-HasSize :
    {n : ℕ} (b : Buffer) (p : List ℕ) (off count : ℕ)
    → b.size ≡ n
    → HasSize n (append_packet b p off count)
unfolding append_packet
append_packet-HasSize b p off count e =
    HasSize-bind (slice p off count) _ (λ piece. HasSize-if _ _ _ (has_size _ e) (no_buffer _))

ruleset sizes = (HasSize-then, HasSize-if, append_packet-HasSize, has_size)

module _ {n : ℕ} (p : Packet) (o : Offsets) (l : Layers) where
  copy_net_fields-HasSize : (b : Buffer) → b.size ≡ n → HasSize n (copy_net_fields p b o l)
  unfolding copy_net_fields
  copy_net_fields-HasSize b e = search sizes

  copy_rec_tcp-HasSize : (b : Buffer) → b.size ≡ n → HasSize n (copy_rec_tcp p b o)
  unfolding copy_rec_tcp
  copy_rec_tcp-HasSize b e = search sizes

  copy_rec_udp-HasSize : (b : Buffer) → b.size ≡ n → HasSize n (copy_rec_udp p b o)
  unfolding copy_rec_udp
  copy_rec_udp-HasSize b e = search sizes

  copy_rec_icmp-HasSize : (b : Buffer) → b.size ≡ n → HasSize n (copy_rec_icmp p b o)
  unfolding copy_rec_icmp
  copy_rec_icmp-HasSize b e = search sizes

  copy_fields_rec-HasSize : (b : Buffer) → b.size ≡ n → HasSize n (copy_fields_rec p b o l)
  unfolding copy_fields_rec
  copy_fields_rec-HasSize b e =
      search (sizes, copy_rec_tcp-HasSize, copy_rec_udp-HasSize, copy_rec_icmp-HasSize) depth 12

  copy_transport-HasSize : (b : Buffer) → b.size ≡ n → HasSize n (copy_transport p b o l)
  unfolding copy_transport
  copy_transport-HasSize b e = search sizes

  copy_fields_u_tcp_and_net-HasSize :
      (b : Buffer) → b.size ≡ n → HasSize n (copy_fields_u_tcp_and_net p b o l)
  unfolding copy_fields_u_tcp_and_net
  copy_fields_u_tcp_and_net-HasSize b e =
      search (sizes, copy_net_fields-HasSize, copy_transport-HasSize)

  copy_fields_packet-HasSize : (b : Buffer) → b.size ≡ n → HasSize n (copy_fields_packet p b o l)
  unfolding copy_fields_packet
  copy_fields_packet-HasSize b e = search (sizes, copy_net_fields-HasSize)

  copy_fields_from-HasSize :
      (ranges : List Range) (offset : ℕ) (b : Buffer)
      → b.size ≡ n
      → HasSize n (copy_fields_from ranges offset p b)
  unfolding copy_fields_from
  copy_fields_from-HasSize ranges offset b e = search (sizes, HasSize-bind)

  select_fields-HasSize :
      (f : SelectionFunction) (ranges : List Range) (b : Buffer)
      → b.size ≡ n
      → HasSize n (select_fields f ranges p b o l)
  unfolding select_fields copy_fields_only_net copy_fields_raw copy_fields_last
  select_fields-HasSize rec_fields ranges b e = copy_fields_rec-HasSize b e
  select_fields-HasSize only_net ranges b e = copy_net_fields-HasSize b e
  select_fields-HasSize u_tcp_and_net ranges b e = copy_fields_u_tcp_and_net-HasSize b e
  select_fields-HasSize whole_packet ranges b e = copy_fields_packet-HasSize b e
  select_fields-HasSize raw ranges b e = HasSize-bind _ _ (λ bytes. has_size _ e)
  select_fields-HasSize last ranges b e = HasSize-bind _ _ (λ bytes. has_size _ e)
  select_fields-HasSize link_layer ranges b e = copy_fields_from-HasSize ranges o.link b e
  select_fields-HasSize net_layer ranges b e = copy_fields_from-HasSize ranges o.net b e
  select_fields-HasSize trans_layer ranges b e = copy_fields_from-HasSize ranges o.trans b e
  select_fields-HasSize payload_layer ranges b e = copy_fields_from-HasSize ranges o.payload b e

HasSize-ok : {n : ℕ} {m : Outcome Buffer} {b : Buffer} → HasSize n m → m ≡ ok b → b.size ≡ n
HasSize-ok (has_size b' e) same = ground arith
HasSize-ok (no_buffer why) same = absurd (cc)

-- Whatever is selected, the buffer keeps its size.
pub select_fields-size :
    (f : SelectionFunction) (ranges : List Range) (p : Packet) (b : Buffer) (o : Offsets)
    (l : Layers) {b' : Buffer}
    → select_fields f ranges p b o l ≡ ok b'
    → b'.size ≡ b.size
select_fields-size f ranges p b o l e = HasSize-ok (select_fields-HasSize p o l f ranges b refl) e
