-- ===== src/Startup/Open.antt =====
-- The opening of an interface: open_device of src/main.c, open_pcap_file and open_pcap of
-- src/pcap_handler.c, open_socket_inet and open_socket_unix of src/socket_handler.c, and from src/helper.c
-- setFilter, setNONBlocking, get_file_desc and getIPv4AddressFromDevice.
--
-- What libpcap and the sockets answer is a parameter. The handles of an interface are not kept, but for the
-- descriptor that is watched. The build is the one without PF_RING.
use impd4e.Common.{
  List, true, false, ℕ, Bool, if◌then◌else◌, ltb, length, Option, none, some, pos, overread,
  overflow,
}
use impd4e.Range.{Text}
use impd4e.Device.{
  DeviceType, type_unknown, type_pcap, type_pcap_file, type_socket_unix, type_socket_inet,
  type_file, type_testtype, LinkType, Device, Options,
}
use impd4e.Packet.{Timeval}
use impd4e.Packet.Handler.{determine_link_type}
use impd4e.Settings.Others.{Others, parse_ip_port}
use impd4e.Filter.{ended_at}
use impd4e.Sockets.Print.{print_array}
use impd4e.Startup.{of_outcome, Program, goes_on, exits, crashes, ◌>>=◌}

-- `ipv4_address` is what stands in the ifreq after the ioctl, whose result is not looked at, or `none` without a socket for it.
-- Of getaddrinfo an error is `none`, else it is told whether there is an address.
pub record System : Type 0 where
  pub pcap_open_offline : Text → Bool
  pub pcap_open_live : Text → ℕ → Bool
  pub pcap_datalink : Text → LinkType
  pub pcap_fileno : Text → ℕ
  pub pcap_compile : Text → Text → Bool
  pub pcap_setfilter : Text → Text → Bool
  pub nonblocking : Text → Bool
  pub ipv4_address : Text → Option ℕ
  pub getaddrinfo : Text → Bool → Option Bool
  pub address_bytes : Text → List ℕ
  pub logs_info : Bool
  pub char_signed : Bool
  pub socket : Text → Option ℕ
  pub bind : ℕ → Bool
  pub connect : ℕ → Text → Bool
  pub gethostname : ℕ → Option Text
  pub now : Timeval
  pub ntohl : ℕ → ℕ

-- `dispatch`.
pub data DispatchFunction : Type 0 where
  pcap_dispatch_wrapper call_socket_dispatch_inet call_socket_dispatch_unix : DispatchFunction

-- The watchers of event_register_io_r and event_register_timer, for packet_watcher_cb.
pub data Watched : Type 0 where
  io_read : ℕ → Watched
  timer : ℕ → ℕ → Watched

-- What device_dev_t has beside Device.
pub record Interface : Type 0 where
  pub device : Device
  pub ipv4_address : ℕ
  pub dispatch : Option DispatchFunction
  pub watched : Option Watched
  pub filtered : Bool
  pub nonblocking : Bool
  pub last_export_time : Timeval

-- The fd of an interface; a socket's is kept in the handle.
unfoldable pub get_file_desc : System → DeviceType → Text → ℕ → ℕ
get_file_desc sys type_pcap name s = sys.pcap_fileno name
get_file_desc sys type_pcap_file name s = sys.pcap_fileno name
get_file_desc sys type_testtype name s = sys.pcap_fileno name
get_file_desc sys type_socket_inet name s = s
get_file_desc sys type_socket_unix name s = s
get_file_desc sys type_file name s = 0
get_file_desc sys type_unknown name s = 0

-- A program that pcap_compile did not write is installed all the same.
unfoldable pub set_filter : System → Option Text → Interface → Program Interface
set_filter sys none f = goes_on f
set_filter sys (some bpf) f =
    if sys.pcap_compile f.device.device_name bpf
    then goes_on (record f { filtered = sys.pcap_setfilter f.device.device_name bpf })
    else crashes overread

unfoldable pub set_nonblocking : System → Interface → Interface
set_nonblocking sys f = elim f.device.device_type [
  | type_pcap_file ↦ record f { nonblocking = sys.nonblocking f.device.device_name }
  | type_pcap ↦ record f { nonblocking = sys.nonblocking f.device.device_name }
  | type_socket_inet ↦ record f { nonblocking = sys.nonblocking f.device.device_name }
  | type_socket_unix ↦ record f { nonblocking = sys.nonblocking f.device.device_name }
  | type_file ↦ f
  | type_unknown ↦ f
  | type_testtype ↦ f
]

unfoldable pub link_of : System → Interface → Interface
link_of sys f = record f {
  device = determine_link_type (sys.pcap_datalink f.device.device_name) f.device;
}

unfoldable pub watch : (ℕ → Watched) → System → ℕ → Interface → Interface
unfolding set_nonblocking get_file_desc
watch to_watcher sys s f =
    let ready = set_nonblocking sys f in
    record ready {
      watched = some (to_watcher (get_file_desc sys f.device.device_type f.device.device_name s));
    }

-- Without a handle, pcap_datalink follows a null pointer.
unfoldable pub open_pcap_file : System → Option Text → Interface → Program Interface
unfolding watch set_filter link_of
open_pcap_file sys bpf f =
    if sys.pcap_open_offline f.device.device_name
    then (do
      filtered ←
          set_filter sys bpf (link_of sys (record f { dispatch = some pcap_dispatch_wrapper }))
      goes_on (watch (λ fd. timer 0 1) sys 0 filtered))
    else crashes overread

unfoldable pub with_address : Option ℕ → Interface → Program Interface
with_address none f = exits (pos 1)
with_address (some address) f = goes_on (record f { ipv4_address = address })

unfoldable pub open_pcap : System → Options → Option Text → Interface → Program Interface
unfolding watch set_filter link_of with_address
open_pcap sys options bpf f =
    if sys.pcap_open_live f.device.device_name options.snap_length
    then (do
      addressed ←
          with_address (sys.ipv4_address f.device.device_name)
            (record f { dispatch = some pcap_dispatch_wrapper })
      filtered ← set_filter sys bpf (link_of sys addressed)
      goes_on (watch io_read sys 0 filtered))
    else exits (pos 1)

-- create_bind and create_connect: a socket, closed again where the call on it fails.
unfoldable pub create_socket : (ℕ → Bool) → Option ℕ → Option ℕ
create_socket works none = none
create_socket works (some s) = if works s then some s else none

unfoldable pub bound : System → Option ℕ → Interface → Program Interface
unfolding watch
bound sys none f = exits (pos 1)
bound sys (some s) f =
    goes_on (watch io_read sys s (record f { dispatch = some call_socket_dispatch_inet }))

-- print_addrinfo, which logs the bytes of the address that was found, if the logger's level is info or more.
unfoldable pub print_addrinfo : System → Text → Bool → Program Bool
print_addrinfo sys name false = goes_on false
print_addrinfo sys name true =
    of_outcome (print_array sys.char_signed sys.logs_info (sys.address_bytes name))

-- The name is cut behind its first token.
unfoldable pub open_socket_inet : System → Others → Interface → Program Interface
unfolding bound create_socket print_addrinfo
open_socket_inet sys others f =
    let name = f.device.device_name in
    let cut = record f { device = record f.device { device_name = ended_at b':' name } } in
    elim (sys.getaddrinfo (parse_ip_port name).1 others.ai_family_inet6) [
      | none ↦ exits (pos 1)
      | some found ↦ (do
        logged ← print_addrinfo sys name found
        if found then bound sys (create_socket sys.bind (sys.socket name)) cut else goes_on cut)
    ]

-- `sizeof(sun_path)`.
abbrev pub sun_path_size : ℕ
sun_path_size = 108

unfoldable pub connected : System → Option ℕ → Interface → Program Interface
unfolding watch
connected sys none f = exits (pos 1)
connected sys (some s) f =
    if ltb (length f.device.device_name) sun_path_size
    then (if sys.connect s f.device.device_name
        then goes_on (watch io_read sys s (record f { dispatch = some call_socket_dispatch_unix }))
        else exits (pos 2))
    else crashes overflow

unfoldable pub open_socket_unix : System → Interface → Program Interface
unfolding connected
open_socket_unix sys f = connected sys (sys.socket f.device.device_name) f

unfoldable pub open_by_type : System → Options → Others → Interface → Program Interface
unfolding open_pcap open_pcap_file open_socket_inet open_socket_unix
open_by_type sys options others f = elim f.device.device_type [
  | type_pcap_file ↦ open_pcap_file sys others.bpf f
  | type_pcap ↦ open_pcap sys options others.bpf f
  | type_socket_inet ↦ open_socket_inet sys others f
  | type_socket_unix ↦ open_socket_unix sys f
  | type_file ↦ goes_on f
  | type_unknown ↦ goes_on f
  | type_testtype ↦ goes_on f
]

unfoldable pub open_device : System → Options → Others → Interface → Program Interface
unfolding open_by_type
open_device sys options others f = do
  opened ← open_by_type sys options others f
  goes_on (record opened { last_export_time = sys.now })
