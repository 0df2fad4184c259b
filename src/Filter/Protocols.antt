-- ===== src/Filter/Protocols.antt =====
-- include/pfring_filter.h: the table of the IP protocols' names, and get_ip_prot of
-- src/pfring_filter.c, which looks a number up in it.
use impd4e.Common.{ℕ, zero, suc, ◌+◌, List, [], ◌∷◌, Bool, true, false, ◌&&◌, ◌==◌, if◌then◌else◌}
use impd4e.Range.{Text}
use impd4e.Settings.Table.{codes}

-- ip_protocols.
unfoldable pub ip_protocols : List Text
ip_protocols =
    codes "hopopt"
    ∷ codes "icmp"
    ∷ codes "igmp"
    ∷ codes "ggp"
    ∷ codes "ipv4"
    ∷ codes "st"
    ∷ codes "tcp"
    ∷ codes "cbt"
    ∷ codes "egp"
    ∷ codes "igp"
    ∷ codes "bbn-rcc-mon"
    ∷ codes "nvp-ii"
    ∷ codes "pup"
    ∷ codes "argus"
    ∷ codes "emcon"
    ∷ codes "xnet"
    ∷ codes "chaos"
    ∷ codes "udp"
    ∷ codes "mux"
    ∷ codes "dcn-meas"
    ∷ codes "hmp"
    ∷ codes "prm"
    ∷ codes "xns-idp"
    ∷ codes "trunk-1"
    ∷ codes "trunk-2"
    ∷ codes "leaf-1"
    ∷ codes "leaf-2"
    ∷ codes "rdp"
    ∷ codes "irtp"
    ∷ codes "iso-tp4"
    ∷ codes "netblt"
    ∷ codes "mfe-nsp"
    ∷ codes "merit-inp"
    ∷ codes "dccp"
    ∷ codes "3pc"
    ∷ codes "idpr"
    ∷ codes "xtp"
    ∷ codes "ddp"
    ∷ codes "idpr-cmtp"
    ∷ codes "tp++"
    ∷ codes "il"
    ∷ codes "ipv6"
    ∷ codes "sdrp"
    ∷ codes "ipv6-route"
    ∷ codes "ipv6-frag"
    ∷ codes "idrp"
    ∷ codes "rsvp"
    ∷ codes "gre"
    ∷ codes "dsr"
    ∷ codes "bna"
    ∷ codes "esp"
    ∷ codes "ah"
    ∷ codes "i-nlsp"
    ∷ codes "swipe"
    ∷ codes "narp"
    ∷ codes "mobile"
    ∷ codes "tlsp"
    ∷ codes "skip"
    ∷ codes "ipv6-icmp"
    ∷ codes "ipv6-nonxt"
    ∷ codes "ipv6-opts"
    ∷ codes "anyhost"
    ∷ codes "cftp"
    ∷ codes "anynet"
    ∷ codes "sat-expak"
    ∷ codes "kryptolan"
    ∷ codes "rvd"
    ∷ codes "ippc"
    ∷ codes "anydistfs"
    ∷ codes "sat-mon"
    ∷ codes "visa"
    ∷ codes "ipcv"
    ∷ codes "cpnx"
    ∷ codes "cphb"
    ∷ codes "wsn"
    ∷ codes "pvp"
    ∷ codes "br-sat-mon"
    ∷ codes "sun-nd"
    ∷ codes "wb-mon"
    ∷ codes "wb-expak"
    ∷ codes "iso-ip"
    ∷ codes "vmtp"
    ∷ codes "secure-vmtp"
    ∷ codes "vines"
    ∷ codes "ttp"
    ∷ codes "nsfnet-igp"
    ∷ codes "dgp"
    ∷ codes "tcf"
    ∷ codes "eigrp"
    ∷ codes "ospfigp"
    ∷ codes "sprite-rpc"
    ∷ codes "larp"
    ∷ codes "mtp"
    ∷ codes "ax.25"
    ∷ codes "ipip"
    ∷ codes "micp"
    ∷ codes "scc-sp"
    ∷ codes "etherip"
    ∷ codes "encap"
    ∷ codes "anyprivenc"
    ∷ codes "gmtp"
    ∷ codes "ifmp"
    ∷ codes "pnni"
    ∷ codes "pim"
    ∷ codes "aris"
    ∷ codes "scps"
    ∷ codes "qnx"
    ∷ codes "a/n"
    ∷ codes "ipcomp"
    ∷ codes "snp"
    ∷ codes "compaq-peer"
    ∷ codes "ipx-in-ip"
    ∷ codes "vrrp"
    ∷ codes "pgm"
    ∷ codes "any0hop"
    ∷ codes "l2tp"
    ∷ codes "ddx"
    ∷ codes "iatp"
    ∷ codes "stp"
    ∷ codes "srp"
    ∷ codes "uti"
    ∷ codes "smp"
    ∷ codes "sm"
    ∷ codes "ptp"
    ∷ codes "isisoveripv4"
    ∷ codes "fire"
    ∷ codes "crtp"
    ∷ codes "crudp"
    ∷ codes "sscopmce"
    ∷ codes "iplt"
    ∷ codes "sps"
    ∷ codes "pipesctp"
    ∷ codes "fc"
    ∷ codes "rsvp-e2e-ignore"
    ∷ codes "mobilityheader"
    ∷ codes "udplite"
    ∷ codes "mplsinip"
    ∷ codes "manet"
    ∷ codes "hip"
    ∷ codes "shim6"
    ∷ codes "wesp"
    ∷ codes "rohc"
    ∷ codes "exptest0"
    ∷ codes "exptest1"
    ∷ []

abbrev pub last_ip_prot : ℕ
last_ip_prot = 0x8f

abbrev pub invalid_prot : ℕ
invalid_prot = 0xff

-- strncmp as a test for 0: the first `n` characters are the same, up to a terminator.
same_start : ℕ → Text → Text → Bool
same_start zero s t = true
same_start (suc n) [] [] = true
same_start (suc n) (c ∷ s) [] = false
same_start (suc n) [] (d ∷ t) = false
same_start (suc n) (c ∷ s) (d ∷ t) = (c == d) && same_start n s t

-- `sizeof(ip_protocols[i])` is the size of a pointer.
abbrev pub pointer_size : ℕ
pointer_size = 8

-- The loop from the index `i` on, over the names that are left.
pub find_ip_prot : ℕ → List Text → Text → ℕ
unfolding same_start
find_ip_prot i [] prot = invalid_prot
find_ip_prot i (name ∷ names) prot =
    let rest = find_ip_prot (i + 1) names prot in
    if same_start pointer_size name prot then i else rest

unfoldable pub get_ip_prot : Text → ℕ
unfolding find_ip_prot
get_ip_prot prot = find_ip_prot 0 ip_protocols prot
