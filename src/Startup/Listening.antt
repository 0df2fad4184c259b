-- ===== src/Startup/Listening.antt =====
-- The sockets of an interface: which one is watched, and by which dispatch function.
use impd4e.Common.{
  ℕ, ◌<◌, Bool, ltb, ltb→lt, length, Option, none, some, Bool-cases, inl, inr, overflow, ◌≡◌, refl,
  ap, ◌∙◌,
}
use impd4e.Range.{Text}
use impd4e.Device.{DeviceType}
use impd4e.Startup.{Meets, meets, ended, crashed}
use impd4e.Startup.Open.{
  System, Interface, DispatchFunction, call_socket_dispatch_inet, call_socket_dispatch_unix,
  io_read, get_file_desc, watch, create_socket, bound, connected,
}
use impd4e.Startup.Pcap.{watch-SameDevice}

-- The socket that was made is watched, by this dispatch function.
abbrev pub IsWatching : DispatchFunction → Option ℕ → Interface → Type 0
IsWatching by socket f' =
    (s : ℕ) × (socket ≡ some s) × (f'.dispatch ≡ some by) × (f'.watched ≡ some (io_read s))

-- A watched socket, whose device is that of `g`.
abbrev pub Watches : DispatchFunction → Option ℕ → Interface → Interface → Type 0
Watches by socket g f' = (f'.device ≡ g.device) × IsWatching by socket f'

-- The descriptor of a socket is the socket.
abbrev BySocket : System → DeviceType → Type 0
BySocket sys device_type = (name : Text) (s : ℕ) → get_file_desc sys device_type name s ≡ s

watch-BySocket :
    (sys : System) (by : DispatchFunction) (s : ℕ) (g : Interface)
    → BySocket sys g.device.device_type
    → Watches by (some s) g (watch io_read sys s (record g { dispatch = some by }))
watch-BySocket sys by s g reads =
    let ((d, c), w) = watch-SameDevice io_read sys s (record g { dispatch = some by }) in
    (d, (s, refl, c, w ∙ ap (λ fd. some (io_read fd)) (reads g.device.device_name s)))

create_socket-some :
    (works : ℕ → Bool) (socket : Option ℕ) {s : ℕ}
    → create_socket works socket ≡ some s
    → socket ≡ some s
unfolding create_socket
create_socket-some works none e = e
create_socket-some works (some s) e = elim (Bool-cases (works s)) [
  | inl yes' ↦ rw yes' at e
  | inr no' ↦ (let never : none ≡ some _ = rw no' at e in absurd (cc))
]

pub IsWatching-create_socket :
    (by : DispatchFunction) (works : ℕ → Bool) (socket : Option ℕ) (f' : Interface)
    → IsWatching by (create_socket works socket) f'
    → IsWatching by socket f'
IsWatching-create_socket by works socket f' (s, made, called, w) =
    (s, create_socket-some works socket made, called, w)

pub bound-Watches :
    (sys : System) (socket : Option ℕ) (g : Interface)
    → BySocket sys g.device.device_type
    → Meets (Watches call_socket_dispatch_inet socket g) (bound sys socket g)
unfolding bound
bound-Watches sys none g reads = ended _
bound-Watches sys (some s) g reads =
    meets _ (watch-BySocket sys call_socket_dispatch_inet s g reads)

pub connected-Watches :
    (sys : System) (socket : Option ℕ) (g : Interface)
    → BySocket sys g.device.device_type
    → Meets
        (λ f'. Watches call_socket_dispatch_unix socket g f' × (length g.device.device_name < 108))
        (connected sys socket g)
unfolding connected
connected-Watches sys none g reads = ended _
connected-Watches sys (some s) g reads = elim (Bool-cases (ltb (length g.device.device_name) 108)) [
  | inr long ↦ rw long (crashed overflow)
  | inl fits ↦ elim (Bool-cases (sys.connect s g.device.device_name)) [
    | inr refused ↦ rw (fits, refused) (ended _)
    | inl accepted ↦
        let short = ltb→lt (length g.device.device_name) 108 fits in
        rw (fits, accepted)
          (meets _ (watch-BySocket sys call_socket_dispatch_unix s g reads, short))
  ]
]
