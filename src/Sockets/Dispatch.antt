-- ===== src/Sockets/Dispatch.antt =====
-- The dispatch functions as runs of the packet handler, and what an empty datagram does to one.
use impd4e.Common.{
  ℕ, zero, suc, ◌+◌, ◌≤◌, ◌<◌, List, [], ◌∷◌, Bool, true, false, ltb, if◌then◌else◌, ℤ, pos, negsuc,
  length, length-take, min, All, ok, ◌≡◌, inl, inr, refl, arith,
}
use impd4e.Memory.{Packet}
use impd4e.Hash.{Machine}
use impd4e.Device.{Device, Options, type_socket_inet}
use impd4e.Packet.{Timeval}
use impd4e.Sockets.{
  Delivered, shutdown, would_block, recv_error, datagram, continues, received, read_next,
  recv_packet, dispatch_loop, socket_dispatch_inet, socket_dispatch_unix, socket_dispatch,
  buffer_size, packet_watcher_cb, ev_read, deregistered,
}
use impd4e.Sockets.Capture.{
  captured, captured-read_next, dispatched, dispatch_loop-captured, HasRounds, next_cases,
}

-- How many packets a dispatch may take.
pub limit : ℤ → List Delivered → ℕ
limit (pos zero) socket = length socket
limit (pos (suc m)) socket = suc m
limit (negsuc zero) socket = length socket
limit (negsuc (suc m)) socket = 0

limit-HasRounds :
    (max_packets : ℤ) (socket : List Delivered)
    → HasRounds max_packets 0 (limit max_packets socket) socket
unfolding limit continues
limit-HasRounds (pos zero) socket j lt = ground arith
limit-HasRounds (pos (suc m)) socket j lt = let at : 0 + j ≡ j = omega arith in rw at refl
limit-HasRounds (negsuc zero) socket j lt = ground arith
limit-HasRounds (negsuc (suc m)) socket j lt = ground arith

-- A packet that a dispatch function hands on: it is not empty, and fits the buffer.
abbrev pub IsCaptured : ℕ → Packet × Timeval → Type 0
IsCaptured size p = (0 < p.0.len) × (p.0.len ≤ size) × (p.0.len ≡ length p.0.ptr)

read_next-IsCaptured :
    (peeks : Bool) (size : ℕ) (delivered : Delivered) {bytes : List ℕ} {ts : Timeval}
    → read_next peeks size delivered ≡ received bytes ts
    → IsCaptured size (recv_packet bytes, ts)
unfolding read_next
read_next-IsCaptured peeks size shutdown e = absurd (cc)
read_next-IsCaptured peeks size would_block e = absurd (cc)
read_next-IsCaptured peeks size recv_error e = absurd (cc)
read_next-IsCaptured peeks size (datagram whole at) {bytes} {ts} e =
    ground (arith, length-take size whole)

captured-IsCaptured :
    (peeks : Bool) (size k : ℕ) (socket : List Delivered)
    → let packets = (captured peeks size k socket).packets in
      (length packets ≤ k) × All (IsCaptured size) packets
unfolding captured
captured-IsCaptured peeks size zero socket = (omega arith, tt)
captured-IsCaptured peeks size (suc k) [] = (omega arith, tt)
captured-IsCaptured peeks size (suc k) (delivered ∷ socket) =
    elim (next_cases (read_next peeks size delivered)) [
      | inl (b, e) ↦ rw (captured-read_next peeks size k delivered socket, e) (omega arith, tt)
      | inr (inl e) ↦ rw (captured-read_next peeks size k delivered socket, e) (omega arith, tt)
      | inr (inr (bytes, ts, e)) ↦
          let (few, ih) = captured-IsCaptured peeks size k socket in
          rw (captured-read_next peeks size k delivered socket, e)
            (omega (arith, few), (read_next-IsCaptured peeks size delivered e, ih))
    ]

abbrev smaller_size : Options → ℕ
smaller_size options =
    if ltb options.snap_length buffer_size then options.snap_length else buffer_size

-- Each of the three dispatch functions hands the packets that the socket delivers to the handler, one after
-- the other, up to the first round in which recv delivers none and to the number asked for. It returns
-- their number, or -1 where that round was an error, and leaves the rest on the socket. The packets are at most as
-- many as asked for, not empty, and cut off at the snap length and, for socket_dispatch, at 1024 bytes.
pub socket_dispatch-captured :
    (machine : Machine) (options : Options) (max_packets : ℤ) (socket : List Delivered)
    (dev : Device)
    → let k = limit max_packets socket in
      (socket_dispatch_inet machine options max_packets socket dev
        ≡ dispatched machine options 0 (captured true options.snap_length k socket) dev)
      × (socket_dispatch_unix machine options max_packets socket dev
          ≡ dispatched machine options 0 (captured false options.snap_length k socket) dev)
      × (socket_dispatch machine options max_packets socket dev
          ≡ dispatched machine options 0
              (captured false (min options.snap_length 1024) k socket)
              dev)
      × ((peeks : Bool) (size : ℕ)
          → (length (captured peeks size k socket).packets ≤ k)
            × All (IsCaptured size) (captured peeks size k socket).packets)
unfolding socket_dispatch_inet socket_dispatch_unix socket_dispatch
socket_dispatch-captured machine options max_packets socket dev =
    let k = limit max_packets socket in
    let rounds = limit-HasRounds max_packets socket in
    let cut : smaller_size options ≡ min options.snap_length 1024 = ground arith in
    (
      dispatch_loop-captured machine options true options.snap_length max_packets 0 k socket dev
          rounds,
      dispatch_loop-captured machine options false options.snap_length max_packets 0 k socket dev
          rounds,
      rw cut (
          dispatch_loop-captured machine options false (min options.snap_length 1024) max_packets 0
            k socket dev rounds),
      λ peeks size. captured-IsCaptured peeks size k socket,
    )

-- An empty datagram, which anybody may send, ends the capture of an inet socket: whatever is behind
-- it, the callback handles no packet, leaves the datagram on the socket, and deregisters the watcher.
pub packet_watcher_cb_empty :
    (machine : Machine) (options : Options) (ts : Timeval) (socket : List Delivered) (dev : Device)
    → dev.device_type ≡ type_socket_inet
    → packet_watcher_cb (socket_dispatch_inet machine options) ev_read (datagram [] ts ∷ socket) dev
      ≡ ok (
        record { result = negsuc 0; socket = datagram [] ts ∷ socket; device = dev; effects = [] },
        deregistered,
      )
unfolding packet_watcher_cb socket_dispatch_inet dispatch_loop read_next continues
packet_watcher_cb_empty machine options ts socket dev inet = rw inet refl
