-- ===== src/Settings/Names.antt =====
-- src/settings.c: parse_template, parseFunction and parseSelFunction, which look a name up in any
-- case. The case of a letter is that of the C locale.
use impd4e.Common.{
  ℕ, ◌+◌, List, [], ◌∷◌, Bool, true, false, ◌&&◌, leb, ◌==◌, if◌then◌else◌, length, drop, Option,
  none, some,
}
use impd4e.Hash.{HashFunction, bob, twmx, hsieh, oaat}
use impd4e.Range.{Text, is_space, parse_range}
use impd4e.Selection.{
  SelectionFunction, rec_fields, only_net, u_tcp_and_net, whole_packet, raw, last, link_layer,
  net_layer, trans_layer, payload_layer,
}
use impd4e.Templates.{mint_id, ts_id, ts_ttl_proto_id, ts_ttl_proto_ip_id}
use impd4e.Device.{Options}

lower : ℕ → ℕ
lower c = if leb 65 c && leb c 90 then c + 32 else c

-- strcasecmp, and strncasecmp up to the length of the name, as tests for 0.
pub same_name : Text → Text → Bool
unfolding lower
same_name [] [] = true
same_name (c ∷ text) (d ∷ name) = (lower c == lower d) && same_name text name
same_name (c ∷ text) [] = false
same_name [] (d ∷ name) = false

unfoldable pub has_name : Text → Text → Bool
unfolding lower
has_name text [] = true
has_name [] (d ∷ name) = false
has_name (c ∷ text) (d ∷ name) = (lower c == lower d) && has_name text name

-- "min", "lp", "ls" and "ts".
abbrev pub min_name : Text
min_name = b'm' ∷ b'i' ∷ b'n' ∷ []

abbrev pub ts_ttl_proto_name : Text
ts_ttl_proto_name = b'l' ∷ b'p' ∷ []

abbrev pub ts_ttl_proto_ip_name : Text
ts_ttl_proto_ip_name = b'l' ∷ b's' ∷ []

abbrev pub ts_name : Text
ts_name = b't' ∷ b's' ∷ []

abbrev pub template_names : List (Text × ℕ)
template_names =
    (min_name, mint_id)
    ∷ (ts_ttl_proto_name, ts_ttl_proto_id)
    ∷ (ts_ttl_proto_ip_name, ts_ttl_proto_ip_id)
    ∷ (ts_name, ts_id)
    ∷ []

-- The first entry with the name; `none` is -1.
unfoldable pub find_template : Text → List (Text × ℕ) → Option ℕ
find_template text [] = none
find_template text ((name, id) ∷ names) =
    let rest = find_template text names in if same_name text name then some id else rest

pub skip_spaces : Text → Text
skip_spaces [] = []
skip_spaces (c ∷ text) = let rest = skip_spaces text in if is_space c then rest else c ∷ text

unfoldable pub parse_template : Text → Option ℕ
unfolding find_template skip_spaces same_name
parse_template text = find_template (skip_spaces text) template_names

-- "BOB", "TWMX", "HSIEH" and "OAAT".
abbrev hash_functions : List (Text × HashFunction)
hash_functions =
    (b'B' ∷ b'O' ∷ b'B' ∷ [], bob)
    ∷ (b'T' ∷ b'W' ∷ b'M' ∷ b'X' ∷ [], twmx)
    ∷ (b'H' ∷ b'S' ∷ b'I' ∷ b'E' ∷ b'H' ∷ [], hsieh)
    ∷ (b'O' ∷ b'A' ∷ b'A' ∷ b'T' ∷ [], oaat)
    ∷ []

-- The last entry whose name the text begins with, or what was found before.
unfoldable pub find_function : Text → List (Text × HashFunction) → HashFunction → HashFunction
find_function text [] found = found
find_function text ((name, f) ∷ names) found =
    find_function text names (if has_name text name then f else found)

unfoldable pub parse_function : Text → HashFunction
unfolding find_function has_name
parse_function text = find_function text hash_functions bob

-- "REC8", "IP", "IP+TP", "PACKET", "RAW", "LAST", "LINK", "NET", "TRANS", "PAYLOAD" and "SELECT".
abbrev pub selection_functions : List (Text × SelectionFunction)
selection_functions =
    (b'R' ∷ b'E' ∷ b'C' ∷ b'8' ∷ [], rec_fields)
    ∷ (b'I' ∷ b'P' ∷ [], only_net)
    ∷ (b'I' ∷ b'P' ∷ b'+' ∷ b'T' ∷ b'P' ∷ [], u_tcp_and_net)
    ∷ (b'P' ∷ b'A' ∷ b'C' ∷ b'K' ∷ b'E' ∷ b'T' ∷ [], whole_packet)
    ∷ (b'R' ∷ b'A' ∷ b'W' ∷ [], raw)
    ∷ (b'L' ∷ b'A' ∷ b'S' ∷ b'T' ∷ [], last)
    ∷ (b'L' ∷ b'I' ∷ b'N' ∷ b'K' ∷ [], link_layer)
    ∷ (b'N' ∷ b'E' ∷ b'T' ∷ [], net_layer)
    ∷ (b'T' ∷ b'R' ∷ b'A' ∷ b'N' ∷ b'S' ∷ [], trans_layer)
    ∷ (b'P' ∷ b'A' ∷ b'Y' ∷ b'L' ∷ b'O' ∷ b'A' ∷ b'D' ∷ [], payload_layer)
    ∷ (b'S' ∷ b'E' ∷ b'L' ∷ b'E' ∷ b'C' ∷ b'T' ∷ [], raw)
    ∷ []

-- Every entry whose name the text begins with is taken in turn, and the text behind it is read as ranges.
unfoldable pub select_named : Text → List (Text × SelectionFunction) → Options → Options
select_named text [] options = options
select_named text ((name, f) ∷ names) options = select_named text names (
    if has_name text name
    then record options { selection_function = f; ranges = parse_range (drop (length name) text) }
    else options)

unfoldable pub parse_sel_function : Text → Options → Options
unfolding select_named has_name
parse_sel_function text options = select_named text selection_functions options
