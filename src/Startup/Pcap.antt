-- ===== src/Startup/Pcap.antt =====
-- A pcap interface or file when it is open: what no opening changes, the link type and the watcher.
use impd4e.Common.{ℕ, Option, none, some, Bool-cases, inl, inr, overread, ◌≡◌, refl, ap, ◌∙◌, arith}
use impd4e.Range.{Text}
use impd4e.Device.{
  DeviceType, type_pcap, type_pcap_file, LinkType, Device, Options, dlt_en10mb, dlt_atm_rfc1483,
  dlt_linux_sll, dlt_raw, other_link,
}
use impd4e.Packet.Handler.{determine_link_type}
use impd4e.Startup.{Meets, meets, ended, crashed, Meets-bind}
use impd4e.Startup.Open.{
  System, Interface, pcap_dispatch_wrapper, Watched, io_read, timer, get_file_desc, set_filter,
  set_nonblocking, link_of, watch, open_pcap_file, open_pcap, with_address,
}

-- The fields of the device that no opening sets: all but its name, its link type and its offset.
abbrev pub SameUse : Device → Device → Type 0
SameUse dev dev' =
    (dev'.template_id ≡ dev.template_id)
    × (dev'.sampling_delta_count ≡ dev.sampling_delta_count)
    × (dev'.device_type ≡ dev.device_type)
    × (dev'.hash_buffer ≡ dev.hash_buffer)
    × (dev'.export_packet_count ≡ dev.export_packet_count)
    × (dev'.totalpacketcount ≡ dev.totalpacketcount)
    × (dev'.packets_dropped ≡ dev.packets_dropped)
    × (dev'.sampling_size ≡ dev.sampling_size)

abbrev pub SameDevice : Interface → Interface → Type 0
SameDevice f f' = (f'.device ≡ f.device) × (f'.dispatch ≡ f.dispatch)

set_nonblocking-SameDevice : (sys : System) (f : Interface) → SameDevice f (set_nonblocking sys f)
unfolding set_nonblocking
set_nonblocking-SameDevice sys f = ground arith

set_filter-SameDevice :
    (sys : System) (bpf : Option Text) (f : Interface) → Meets (SameDevice f) (set_filter sys bpf f)
unfolding set_filter
set_filter-SameDevice sys none f = meets f (refl, refl)
set_filter-SameDevice sys (some bpf) f =
    elim (Bool-cases (sys.pcap_compile f.device.device_name bpf)) [
      | inl compiled ↦ rw compiled (meets _ (refl, refl))
      | inr not_compiled ↦ rw not_compiled (crashed overread)
    ]

pub determine_link_type-SameUse :
    (link : LinkType) (dev : Device) → SameUse dev (determine_link_type link dev)
unfolding determine_link_type
determine_link_type-SameUse link dev = ground arith

-- How many bytes stand before the network layer: a header of Ethernet, of LLC and SNAP, or of a Linux cooked
-- capture; a raw packet begins with it, as is assumed of other link types.
unfoldable pub header_length : LinkType → ℕ
header_length dlt_en10mb = 14
header_length dlt_atm_rfc1483 = 8
header_length dlt_linux_sll = 16
header_length dlt_raw = 0
header_length other_link = 0

abbrev pub IsLinked : LinkType → Device → Type 0
IsLinked link dev = (dev.link_type ≡ link) × (dev.pkt_offset ≡ header_length link)

pub determine_link_type-IsLinked :
    (link : LinkType) (dev : Device) → IsLinked link (determine_link_type link dev)
unfolding determine_link_type header_length
determine_link_type-IsLinked link dev = ground arith

-- The device of a pcap interface, its dispatch function and its watcher.
abbrev pub CapturesBy : System → (ℕ → Watched) → Interface → Interface → Type 0
CapturesBy sys to_watcher f f' =
    (f'.device ≡ determine_link_type (sys.pcap_datalink f.device.device_name) f.device)
    × (f'.dispatch ≡ some pcap_dispatch_wrapper)
    × (f'.watched ≡ some (to_watcher (sys.pcap_fileno f.device.device_name)))

pub watch-SameDevice :
    (to_watcher : ℕ → Watched) (sys : System) (s : ℕ) (g : Interface)
    → SameDevice g (watch to_watcher sys s g)
      × ((watch to_watcher sys s g).watched
          ≡ some (to_watcher (get_file_desc sys g.device.device_type g.device.device_name s)))
unfolding watch
watch-SameDevice to_watcher sys s g = (set_nonblocking-SameDevice sys g, refl)

-- The descriptor of this type of device is libpcap's.
abbrev ByPcap : System → DeviceType → Type 0
ByPcap sys device_type = (name : Text) → get_file_desc sys device_type name 0 ≡ sys.pcap_fileno name

file_desc-linked :
    (sys : System) (link : LinkType) (dev : Device)
    → ByPcap sys dev.device_type
    → get_file_desc sys
        (determine_link_type link dev).device_type
        (determine_link_type link dev).device_name
        0
      ≡ sys.pcap_fileno dev.device_name
unfolding determine_link_type
file_desc-linked sys dlt_en10mb dev reads = reads dev.device_name
file_desc-linked sys dlt_atm_rfc1483 dev reads = reads dev.device_name
file_desc-linked sys dlt_linux_sll dev reads = reads dev.device_name
file_desc-linked sys dlt_raw dev reads = reads dev.device_name
file_desc-linked sys other_link dev reads = reads dev.device_name

-- A pcap interface with its filter is watched.
watch-CapturesBy :
    (to_watcher : ℕ → Watched) (sys : System) (f addressed g : Interface)
    → ByPcap sys f.device.device_type
    → addressed.device ≡ f.device
    → addressed.dispatch ≡ some pcap_dispatch_wrapper
    → SameDevice (link_of sys addressed) g
    → CapturesBy sys to_watcher f (watch to_watcher sys 0 g)
unfolding link_of
watch-CapturesBy to_watcher sys f addressed g pcap same called (d, c) =
    let ((d', c'), w) = watch-SameDevice to_watcher sys 0 g in
    let device : g.device ≡ determine_link_type (sys.pcap_datalink f.device.device_name) f.device =
      d ∙ ap (λ dev. determine_link_type (sys.pcap_datalink (Device.device_name dev)) dev) same in
    let desc = file_desc-linked sys (sys.pcap_datalink f.device.device_name) f.device pcap in
    (
      d' ∙ device,
      c' ∙ (c ∙ called),
      w
          ∙ ap
              (λ dev. some (
                to_watcher (get_file_desc sys (Device.device_type dev) (Device.device_name dev) 0)))
              device
          ∙ ap (λ fd. some (to_watcher fd)) desc,
    )

pub open_pcap_file-CapturesBy :
    (sys : System) (bpf : Option Text) (f : Interface)
    → f.device.device_type ≡ type_pcap_file
    → Meets (CapturesBy sys (λ fd. timer 0 1) f) (open_pcap_file sys bpf f)
unfolding open_pcap_file get_file_desc
open_pcap_file-CapturesBy sys bpf f pcap =
    elim (Bool-cases (sys.pcap_open_offline f.device.device_name)) [
      | inr not_open ↦ rw not_open (crashed overread)
      | inl is_open ↦
          let called = record f { dispatch = some pcap_dispatch_wrapper } in
          rw is_open (
            Meets-bind (set_filter sys bpf (link_of sys called)) _
              (set_filter-SameDevice sys bpf (link_of sys called))
              (λ g same. meets _ (
                watch-CapturesBy (λ fd. timer 0 1) sys f called g (λ name. rw pcap refl) refl refl
                  same)))
    ]

pub open_pcap-CapturesBy :
    (sys : System) (options : Options) (bpf : Option Text) (f : Interface)
    → f.device.device_type ≡ type_pcap
    → Meets (CapturesBy sys io_read f) (open_pcap sys options bpf f)
unfolding open_pcap with_address get_file_desc
open_pcap-CapturesBy sys options bpf f pcap =
    elim (Bool-cases (sys.pcap_open_live f.device.device_name options.snap_length)) [
      | inr not_open ↦ rw not_open (ended _)
      | inl is_open ↦ rw is_open (
          Meets-bind (with_address (sys.ipv4_address f.device.device_name) called) _
            (by_address (sys.ipv4_address f.device.device_name))
            (λ addressed kept.
              Meets-bind (set_filter sys bpf (link_of sys addressed)) _
                (set_filter-SameDevice sys bpf (link_of sys addressed))
                (λ g same. meets _ (
                  watch-CapturesBy io_read sys f addressed g (λ name. rw pcap refl) kept.0 kept.1
                    same))))
    ]
  where
    called : Interface
    called = record f { dispatch = some pcap_dispatch_wrapper }

    by_address : (address : Option ℕ) → Meets (SameDevice called) (with_address address called)
    by_address none = ended _
    by_address (some address) = meets _ (refl, refl)
