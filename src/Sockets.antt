-- ===== src/Sockets.antt =====
-- src/socket_handler.c: the dispatch functions, which read packets from a socket and hand each to
-- the packet handler, and packet_watcher_cb of src/packet_handler.c, which calls them.
--
-- What a socket delivers is a list, in order; at its end nothing is there to read. A call of recv
-- with MSG_PEEK leaves the datagram where it is and, with MSG_TRUNC, returns its whole length; recv
-- cuts a datagram off at the size of the buffer. A stream socket delivers the results of recv.
-- The time of each packet is part of what is delivered.
pub mod Capture
pub mod Dispatch
pub mod Print
use impd4e.Common.{
  ℕ, zero, suc, ◌+◌, List, [], ◌∷◌, ◌++◌, Bool, true, false, ◌&&◌, ◌||◌, ltb, ◌==◌, if◌then◌else◌,
  ℤ, pos, negsuc, length, take, Outcome, ok, ◌>>=◌,
}
use impd4e.Memory.{Packet}
use impd4e.Hash.{Machine}
use impd4e.Device.{
  DeviceType, type_unknown, type_pcap, type_pcap_file, type_socket_unix, type_socket_inet,
  type_file, type_testtype, Device, Options,
}
use impd4e.Packet.{Timeval}
use impd4e.Packet.Handler.{Effect, Handled, handle_packet}

-- A shutdown is a result 0 of recv, as an empty datagram is.
pub data Delivered : Type 0 where
  shutdown would_block recv_error : Delivered
  datagram : List ℕ → Timeval → Delivered

pub record Dispatched : Type 0 where
  pub result : ℤ
  pub socket : List Delivered
  pub device : Device
  pub effects : List Effect

-- The condition of the loops, `i < max_packets || 0 == max_packets || -1 == max_packets`.
unfoldable pub continues : ℤ → ℕ → Bool
continues (pos zero) i = true
continues (pos (suc m)) i = ltb i (suc m)
continues (negsuc zero) i = true
continues (negsuc (suc m)) i = false

-- The end of a dispatch.
abbrev pub returning : ℤ → List Delivered → Device → Outcome Dispatched
returning result socket dev =
    ok (record { result = result; socket = socket; device = dev; effects = [] })

-- What the calls of recv in one round find: a result 0 or an error, with whether the datagram was
-- left where it is, nothing to read, or the bytes that were read.
pub data Next : Type 0 where
  fails : Bool → Next
  idle : Next
  received : List ℕ → Timeval → Next

-- Only socket_dispatch_inet looks at the length first.
unfoldable pub read_next : Bool → ℕ → Delivered → Next
read_next peeks size shutdown = fails false
read_next peeks size would_block = idle
read_next peeks size recv_error = fails false
read_next peeks size (datagram bytes ts) =
    if peeks && (length bytes == 0)
    then fails true
    else if length (take size bytes) == 0
    then fails false
    else received (take size bytes) ts

abbrev pub recv_packet : List ℕ → Packet
recv_packet bytes = record { ptr = bytes; len = length bytes }

-- The loop of the dispatch functions. `i` is also the number of packets.
unfoldable pub dispatch_loop :
    Bool
    → (Packet → Timeval → Device → Outcome Handled)
    → ℕ
    → ℤ
    → ℕ
    → List Delivered
    → Device
    → Outcome Dispatched
unfolding continues
dispatch_loop peeks handler size max_packets i [] dev = returning (pos i) [] dev
dispatch_loop peeks handler size max_packets i (delivered ∷ socket) dev =
    elim (continues max_packets i) [
      | false ↦ returning (pos i) (delivered ∷ socket) dev
      | true ↦ elim (read_next peeks size delivered) [
        | fails left ↦ returning (negsuc 0) (if left then delivered ∷ socket else socket) dev
        | idle ↦ returning (pos i) socket dev
        | received bytes ts ↦ (do
          here ← handler (recv_packet bytes) ts dev
          rest ← dispatch_loop peeks handler size max_packets (suc i) socket here.0
          ok (record rest { effects = here.1 ++ rest.effects }))
      ]
    ]

unfoldable pub socket_dispatch_inet :
    Machine → Options → ℤ → List Delivered → Device → Outcome Dispatched
socket_dispatch_inet machine options max_packets socket dev =
    dispatch_loop true (handle_packet machine options) options.snap_length max_packets 0 socket dev

unfoldable pub socket_dispatch_unix :
    Machine → Options → ℤ → List Delivered → Device → Outcome Dispatched
socket_dispatch_unix machine options max_packets socket dev =
    dispatch_loop false (handle_packet machine options) options.snap_length max_packets 0 socket dev

abbrev pub buffer_size : ℕ
buffer_size = 1024

unfoldable pub socket_dispatch :
    Machine → Options → ℤ → List Delivered → Device → Outcome Dispatched
socket_dispatch machine options max_packets socket dev =
    let caplen =
      (if ltb options.snap_length buffer_size then options.snap_length else buffer_size) in
    dispatch_loop false (handle_packet machine options) caplen max_packets 0 socket dev

-- What packet_watcher_cb was called for.
pub data Revents : Type 0 where
  ev_read ev_timer other_event : Revents

pub data Watcher : Type 0 where
  registered deregistered : Watcher

abbrev pub pcap_dispatch_packet_count : ℕ
pcap_dispatch_packet_count = 10

is_dispatched : DeviceType → Bool
is_dispatched type_testtype = true
is_dispatched type_pcap_file = true
is_dispatched type_pcap = true
is_dispatched type_socket_inet = true
is_dispatched type_socket_unix = true
is_dispatched type_file = false
is_dispatched type_unknown = false

after_dispatch : Revents → ℤ → Watcher
after_dispatch revents (pos n) = registered
after_dispatch ev_read (negsuc n) = deregistered
after_dispatch ev_timer (negsuc n) = deregistered
after_dispatch other_event (negsuc n) = registered

-- `dispatch` is the function of the device, and `socket` what it reads from.
unfoldable pub packet_watcher_cb :
    (ℤ → List Delivered → Device → Outcome Dispatched)
    → Revents
    → List Delivered
    → Device
    → Outcome (Dispatched × Watcher)
unfolding is_dispatched after_dispatch
packet_watcher_cb dispatch revents socket dev =
    if is_dispatched dev.device_type
    then (do
      r ← dispatch (pos pcap_dispatch_packet_count) socket dev
      ok (r, after_dispatch revents r.result))
    else ok (record { result = pos 0; socket = socket; device = dev; effects = [] }, registered)
