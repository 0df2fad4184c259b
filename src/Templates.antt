-- ===== src/Templates.antt =====
-- The IPFIX templates: the ids and their table (include/ipfix_handler.h, src/ipfix_handler.c) and
-- the fields of each (include/ipfix_templates.h), as information elements with their lengths.
use impd4e.Common.{ℕ, List, [], ◌∷◌, get_elem?, Outcome, or_overread}

-- template_id_t.
abbrev pub location_id : ℕ
location_id = 0

abbrev pub sync_id : ℕ
sync_id = 1

abbrev pub probe_stats_id : ℕ
probe_stats_id = 2

abbrev pub intf_stats_id : ℕ
intf_stats_id = 3

abbrev pub mint_id : ℕ
mint_id = 4

abbrev pub ts_id : ℕ
ts_id = 5

abbrev pub ts_ttl_proto_id : ℕ
ts_ttl_proto_id = 6

abbrev pub ts_ttl_proto_ip_id : ℕ
ts_ttl_proto_ip_id = 7

-- The information elements, by their IPFIX names.
pub data Element : Type 0 where
  observation_time_microseconds observation_time_milliseconds digest_hash_value ip_ttl : Element
  total_length_ipv4 protocol_identifier ip_version : Element
  source_ipv4_address source_transport_port : Element
  destination_ipv4_address destination_transport_port : Element
  sampling_size packet_delta_count pcapstat_recv pcapstat_drop : Element
  interface_name interface_description : Element
  system_cpu_idle system_mem_free process_cpu_user process_cpu_sys : Element
  process_mem_vzs process_mem_rss system_mem_total : Element
  geo_latitude geo_longitude probe_name probe_location_name : Element
  message_id message_value message : Element

pub record ExportField : Type 0 where
  pub element : Element
  pub length : ℕ

abbrev field : Element → ℕ → ExportField
field e n = record { element = e; length = n }

-- The length of a string field, which each record gives for itself.
abbrev pub variable_length : ℕ
variable_length = 65535

pub export_fields_ts : List ExportField
export_fields_ts = field observation_time_microseconds 8 ∷ field digest_hash_value 4 ∷ []

pub export_fields_min : List ExportField
export_fields_min =
    field observation_time_microseconds 8 ∷ field digest_hash_value 4 ∷ field ip_ttl 1 ∷ []

pub export_fields_ts_ttl_proto : List ExportField
export_fields_ts_ttl_proto =
    field observation_time_microseconds 8
    ∷ field digest_hash_value 4
    ∷ field ip_ttl 1
    ∷ field total_length_ipv4 2
    ∷ field protocol_identifier 1
    ∷ field ip_version 1
    ∷ []

pub export_fields_ts_ttl_proto_ip : List ExportField
export_fields_ts_ttl_proto_ip =
    field observation_time_microseconds 8
    ∷ field digest_hash_value 4
    ∷ field ip_ttl 1
    ∷ field total_length_ipv4 2
    ∷ field protocol_identifier 1
    ∷ field ip_version 1
    ∷ field source_ipv4_address 4
    ∷ field source_transport_port 2
    ∷ field destination_ipv4_address 4
    ∷ field destination_transport_port 2
    ∷ []

unfoldable pub export_fields_interface_stats : List ExportField
export_fields_interface_stats =
    field observation_time_milliseconds 8
    ∷ field sampling_size 4
    ∷ field packet_delta_count 8
    ∷ field pcapstat_recv 4
    ∷ field pcapstat_drop 4
    ∷ field interface_name variable_length
    ∷ field interface_description variable_length
    ∷ []

unfoldable pub export_fields_probe_stats : List ExportField
export_fields_probe_stats =
    field observation_time_milliseconds 8
    ∷ field system_cpu_idle 4
    ∷ field system_mem_free 8
    ∷ field process_cpu_user 4
    ∷ field process_cpu_sys 4
    ∷ field process_mem_vzs 8
    ∷ field process_mem_rss 8
    ∷ field system_mem_total 8
    ∷ []

unfoldable pub export_fields_location : List ExportField
export_fields_location =
    field observation_time_milliseconds 8
    ∷ field source_ipv4_address 4
    ∷ field geo_latitude variable_length
    ∷ field geo_longitude variable_length
    ∷ field probe_name variable_length
    ∷ field probe_location_name variable_length
    ∷ []

unfoldable pub export_fields_sync : List ExportField
export_fields_sync =
    field observation_time_milliseconds 8
    ∷ field message_id 4
    ∷ field message_value 4
    ∷ field message variable_length
    ∷ []

-- The table, in the order of the ids, with what libipfix_register_templates makes of each entry.
pub templates : List (List ExportField)
templates =
    export_fields_location ∷ export_fields_sync ∷ export_fields_probe_stats
    ∷ export_fields_interface_stats ∷ export_fields_min ∷ export_fields_ts
    ∷ export_fields_ts_ttl_proto ∷ export_fields_ts_ttl_proto_ip ∷ []

-- An index beyond the table is read all the same.
unfoldable pub get_template : ℕ → Outcome (List ExportField)
unfolding templates export_fields_location export_fields_sync export_fields_probe_stats
    export_fields_interface_stats export_fields_min export_fields_ts export_fields_ts_ttl_proto
    export_fields_ts_ttl_proto_ip
get_template template_id = or_overread (get_elem? templates template_id)
