-- ===== src/Packet/Fields.antt =====
-- src/packet_handler.c: the switch of handle_ip_packet on the template id, which fills the arrays
-- `fields` and `lengths` of a record.
use impd4e.Common.{
  arith, ℕ, ◌+◌, List, [], ◌∷◌, map, ◌≡◌, Option, none, some, ◌==◌, if◌then◌else◌, Outcome, ok,
  ◌>>=◌, bind_returns,
}
use impd4e.Memory.{Packet, Offsets, Layers}
use impd4e.Templates.{
  ExportField, get_template, ts_id, mint_id, ts_ttl_proto_id, ts_ttl_proto_ip_id,
}
use impd4e.Packet.{Timeval, get_timestamp, get_ttl, get_ip_length, get_port, get_ipa}

-- What the pointer `fields[i]` leads to: a number of the size `lengths[i]`, or bytes.
pub data Value : Type 0 where
  number : ℕ → Value
  octets : List ℕ → Value

pub record Field : Type 0 where
  pub value : Value
  pub length : ℕ

abbrev pub set_value : Value → ℕ → Field
set_value value length = record { value = value; length = length }

-- What the switch reads.
pub record Selected : Type 0 where
  pub packet : Packet
  pub ts : Timeval
  pub offsets : Offsets
  pub layers : Layers
  pub hash_id : ℕ

abbrev time_and_hash : Selected → List Field → List Field
time_and_hash s rest =
    set_value (number (get_timestamp s.ts)) 8 ∷ set_value (number s.hash_id) 4 ∷ rest

fields_ts : Selected → List Field
fields_ts s = time_and_hash s []

fields_min : Selected → Outcome (List Field)
fields_min s = do
  ttl ← get_ttl s.packet s.offsets.net s.layers.net
  ok (time_and_hash s (set_value (number ttl) 1 ∷ []))

abbrev ip_fields : Selected → ℕ → ℕ → List Field → List Field
ip_fields s ttl len rest = time_and_hash s (
    set_value (number ttl) 1
    ∷ set_value (number len) 2
    ∷ set_value (number s.layers.trans) 1
    ∷ set_value (number s.layers.net) 1
    ∷ rest)

fields_ts_ttl_proto : Selected → Outcome (List Field)
fields_ts_ttl_proto s = do
  ttl ← get_ttl s.packet s.offsets.net s.layers.net
  len ← get_ip_length s.packet s.offsets.net s.layers.net
  ok (ip_fields s ttl len [])

fields_ts_ttl_proto_ip : Selected → Outcome (List Field)
fields_ts_ttl_proto_ip s = do
  ttl ← get_ttl s.packet s.offsets.net s.layers.net
  len ← get_ip_length s.packet s.offsets.net s.layers.net
  src_port ← get_port s.packet s.offsets.trans s.layers.trans
  dst_port ← get_port s.packet (s.offsets.trans + 2) s.layers.trans
  src_ipa ← get_ipa s.packet s.offsets.net s.layers.net
  dst_ipa ← get_ipa s.packet (s.offsets.net + 4) s.layers.net
  ok (
      ip_fields s ttl len (
        set_value (octets src_ipa) 4
        ∷ set_value (number src_port) 2
        ∷ set_value (octets dst_ipa) 4
        ∷ set_value (number dst_port) 2
        ∷ []))

-- The switch; `none` is the default case, which returns from the handler.
unfoldable pub packet_fields : ℕ → Selected → Outcome (Option (List Field))
unfolding fields_ts fields_min fields_ts_ttl_proto fields_ts_ttl_proto_ip
packet_fields t_id s =
    if t_id == ts_id
    then ok (some (fields_ts s))
    else if t_id == mint_id
    then (do fs ← fields_min s; ok (some fs))
    else if t_id == ts_ttl_proto_id
    then (do fs ← fields_ts_ttl_proto s; ok (some fs))
    else if t_id == ts_ttl_proto_ip_id
    then (do fs ← fields_ts_ttl_proto_ip s; ok (some fs))
    else ok none

abbrev pub template_lengths : ℕ → Outcome (List ℕ)
template_lengths t_id = do
  template ← get_template t_id
  ok (map (λ f. ExportField.length f) template)

abbrev pub field_lengths : List Field → List ℕ
field_lengths fs = map (λ f. Field.length f) fs

fields_min-lengths :
    (s : Selected) {fs : List Field} → fields_min s ≡ ok fs → field_lengths fs ≡ 8 ∷ 4 ∷ 1 ∷ []
unfolding fields_min
fields_min-lengths s e =
    let (ttl, e1, e2) = bind_returns (get_ttl s.packet s.offsets.net s.layers.net) _ e in
    ground arith

fields_ts_ttl_proto-lengths :
    (s : Selected) {fs : List Field}
    → fields_ts_ttl_proto s ≡ ok fs
    → field_lengths fs ≡ 8 ∷ 4 ∷ 1 ∷ 2 ∷ 1 ∷ 1 ∷ []
unfolding fields_ts_ttl_proto
fields_ts_ttl_proto-lengths s e =
    let (ttl, e1, e2) = bind_returns (get_ttl s.packet s.offsets.net s.layers.net) _ e in
    let (len, e3, e4) = bind_returns (get_ip_length s.packet s.offsets.net s.layers.net) _ e2 in
    ground arith

fields_ts_ttl_proto_ip-lengths :
    (s : Selected) {fs : List Field}
    → fields_ts_ttl_proto_ip s ≡ ok fs
    → field_lengths fs ≡ 8 ∷ 4 ∷ 1 ∷ 2 ∷ 1 ∷ 1 ∷ 4 ∷ 2 ∷ 4 ∷ 2 ∷ []
unfolding fields_ts_ttl_proto_ip
fields_ts_ttl_proto_ip-lengths s e =
    let (ttl, e1, e2) = bind_returns (get_ttl s.packet s.offsets.net s.layers.net) _ e in
    let (len, e3, e4) = bind_returns (get_ip_length s.packet s.offsets.net s.layers.net) _ e2 in
    let (src, e5, e6) = bind_returns (get_port s.packet s.offsets.trans s.layers.trans) _ e4 in
    let (dst, e7, e8) =
      bind_returns (get_port s.packet (s.offsets.trans + 2) s.layers.trans) _ e6 in
    let (from, e9, f1) = bind_returns (get_ipa s.packet s.offsets.net s.layers.net) _ e8 in
    let (to, f2, f3) = bind_returns (get_ipa s.packet (s.offsets.net + 4) s.layers.net) _ f1 in
    ground arith

-- A record that handle_ip_packet builds has the fields of its template: as many, and each of the
-- length that the template gives, whichever of the template ids it is built for.
pub packet_fields-lengths :
    (t_id : ℕ) (s : Selected) {fs : List Field}
    → packet_fields t_id s ≡ ok (some fs)
    → template_lengths t_id ≡ ok (field_lengths fs)
unfolding packet_fields fields_ts get_template
packet_fields-lengths t_id s {fs} e = ground (
  arith,
  fields_min-lengths s {fs = fs},
  fields_ts_ttl_proto-lengths s {fs = fs},
  fields_ts_ttl_proto_ip-lengths s {fs = fs},
)
