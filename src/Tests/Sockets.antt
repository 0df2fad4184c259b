-- ===== src/Tests/Sockets.antt =====
-- Concrete sockets and addresses.
use impd4e.Common.{
  ℕ, List, [], ◌∷◌, ◌≡◌, refl, true, false, ok, negsuc, pos, min, length, All, ◌≤◌, Bool, arith,
}
use impd4e.Device.{Device, type_socket_inet}
use impd4e.Address.{intoa, htoa, intoa-htoa}
use impd4e.Sockets.{
  Delivered, would_block, datagram, deregistered, ev_read, packet_watcher_cb, socket_dispatch_inet,
  socket_dispatch_unix, socket_dispatch,
}
use impd4e.Sockets.Capture.{captured, dispatched}
use impd4e.Sockets.Dispatch.{limit, IsCaptured, socket_dispatch-captured, packet_watcher_cb_empty}
use impd4e.Tests.Packet.{machine, all_selected, ethernet, noon, udp_bytes}

abbrev udp_socket : Device
udp_socket = record ethernet { device_type = type_socket_inet }

abbrev queue : List Delivered
queue = datagram udp_bytes noon ∷ would_block ∷ datagram udp_bytes noon ∷ []

socket_dispatch-captured_example :
    let k = limit (pos 10) queue in
    (socket_dispatch_inet machine all_selected (pos 10) queue udp_socket
      ≡ dispatched machine all_selected 0 (captured true 80 k queue) udp_socket)
    × (socket_dispatch_unix machine all_selected (pos 10) queue udp_socket
        ≡ dispatched machine all_selected 0 (captured false 80 k queue) udp_socket)
    × (socket_dispatch machine all_selected (pos 10) queue udp_socket
        ≡ dispatched machine all_selected 0 (captured false (min 80 1024) k queue) udp_socket)
    × ((peeks : Bool) (size : ℕ)
        → (length (captured peeks size k queue).packets ≤ k)
          × All (IsCaptured size) (captured peeks size k queue).packets)
socket_dispatch-captured_example =
    socket_dispatch-captured machine all_selected (pos 10) queue udp_socket

packet_watcher_cb_empty_example :
    packet_watcher_cb
      (socket_dispatch_inet machine all_selected)
      ev_read
      (datagram [] noon ∷ queue)
      udp_socket
    ≡ ok (
      record {
        result = negsuc 0;
        socket = datagram [] noon ∷ queue;
        device = udp_socket;
        effects = [];
      },
      deregistered,
    )
packet_watcher_cb_empty_example =
    packet_watcher_cb_empty machine all_selected noon queue udp_socket refl

intoa-htoa_example : intoa 3232235777 ≡ htoa 3232235777
intoa-htoa_example = intoa-htoa 3232235777 (omega arith)
