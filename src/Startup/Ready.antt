-- ===== src/Startup/Ready.antt =====
-- What an interface is when it is open, by its type.
use impd4e.Common.{
  overflow, ℕ, ◌<◌, Bool, true, false, length, some, Option-cases, Bool-cases, inl, inr, ◌⊎◌, ◌≡◌,
  refl, ap, ◌∙◌,
}
use impd4e.Filter.{ended_at}
use impd4e.Device.{
  DeviceType, type_unknown, type_pcap, type_pcap_file, type_socket_unix, type_socket_inet,
  type_file, type_testtype, Options,
}
use impd4e.Settings.Others.{Others, parse_ip_port}
use impd4e.Startup.{Program, goes_on, Meets, meets, ended, crashed, Meets-bind, Meets-map}
use impd4e.Startup.Open.{
  System, Interface, call_socket_dispatch_inet, call_socket_dispatch_unix, Watched, io_read, timer,
  get_file_desc, open_pcap_file, open_pcap, create_socket, bound, print_addrinfo, open_socket_inet,
  connected, open_socket_unix, open_by_type, open_device,
}
use impd4e.Sockets.Print.{print_array, print_array_overflow}
use impd4e.Startup.Pcap.{
  SameUse, determine_link_type-SameUse, IsLinked, determine_link_type-IsLinked, CapturesBy,
  open_pcap_file-CapturesBy, open_pcap-CapturesBy,
}
use impd4e.Startup.Listening.{
  IsWatching, Watches, IsWatching-create_socket, bound-Watches, connected-Watches,
}

-- Whether an address is found for the name of an inet socket.
abbrev pub FindsAddress : System → Others → Interface → Bool → Type 0
FindsAddress sys others f found =
    sys.getaddrinfo (parse_ip_port f.device.device_name).1 others.ai_family_inet6 ≡ some found

-- What an open interface is, by its type; an inet socket without an address is not watched.
unfoldable pub IsReady : System → Others → DeviceType → Interface → Interface → Type 0
IsReady sys others type_pcap f f' =
    CapturesBy sys io_read f f' × IsLinked (sys.pcap_datalink f.device.device_name) f'.device
IsReady sys others type_pcap_file f f' =
    CapturesBy sys (λ fd. timer 0 1) f f'
    × IsLinked (sys.pcap_datalink f.device.device_name) f'.device
IsReady sys others type_socket_inet f f' =
    (FindsAddress sys others f true
      × IsWatching call_socket_dispatch_inet (sys.socket f.device.device_name) f')
    ⊎ (FindsAddress sys others f false × (f'.watched ≡ f.watched))
IsReady sys others type_socket_unix f f' =
    IsWatching call_socket_dispatch_unix (sys.socket f.device.device_name) f'
    × (length f'.device.device_name < 108)
IsReady sys others type_file f f' = f'.watched ≡ f.watched
IsReady sys others type_unknown f f' = f'.watched ≡ f.watched
IsReady sys others type_testtype f f' = f'.watched ≡ f.watched

unfoldable pub IsOpened : System → Others → Interface → Interface → Type 0
IsOpened sys others f f' = SameUse f.device f'.device × IsReady sys others f.device.device_type f f'

CapturesBy-SameUse :
    (sys : System) (to_watcher : ℕ → Watched) (f f' : Interface)
    → CapturesBy sys to_watcher f f'
    → SameUse f.device f'.device
CapturesBy-SameUse sys to_watcher f f' (d, c, w) =
    rw d (determine_link_type-SameUse (sys.pcap_datalink f.device.device_name) f.device)

CapturesBy-IsLinked :
    (sys : System) (to_watcher : ℕ → Watched) (f f' : Interface)
    → CapturesBy sys to_watcher f f'
    → IsLinked (sys.pcap_datalink f.device.device_name) f'.device
CapturesBy-IsLinked sys to_watcher f f' (d, c, w) =
    rw d (determine_link_type-IsLinked (sys.pcap_datalink f.device.device_name) f.device)

module _ (sys : System) (others : Others) (f : Interface) where
  open_socket_inet-IsOpened :
      f.device.device_type ≡ type_socket_inet
      → Meets (IsOpened sys others f) (open_socket_inet sys others f)
  unfolding open_socket_inet IsOpened IsReady get_file_desc print_addrinfo print_array
  open_socket_inet-IsOpened inet =
      elim (Option-cases
        (sys.getaddrinfo (parse_ip_port f.device.device_name).1 others.ai_family_inet6)) [
          | inl failed ↦ rw (failed, open_socket_inet) (ended _)
          | inr (found, e) ↦ elim (Bool-cases found) [
            | inr absent ↦
                rw (e, open_socket_inet)
                  (rw absent (
                    meets _ (
                      (refl, refl, refl, refl, refl, refl, refl, refl),
                      simp (inet, IsReady) (inr (e ∙ ap (λ b. some b) absent, refl)),
                    )))
            | inl there ↦
                let at : FindsAddress sys others f true = e ∙ ap (λ b. some b) there in
                let made = create_socket sys.bind (sys.socket f.device.device_name) in
                let cut : Interface = record f {
                  device = record f.device { device_name = ended_at b':' f.device.device_name };
                } in
                let opened : Meets (IsOpened sys others f) (bound sys made cut) =
                  Meets-map {P = Watches call_socket_dispatch_inet made cut} (bound sys made cut)
                    (λ f' w. (
                      rw w.0 (refl, refl, refl, refl, refl, refl, refl, refl),
                      simp (inet, IsReady)
                          (inl (
                            at,
                            IsWatching-create_socket call_socket_dispatch_inet sys.bind
                                (sys.socket f.device.device_name) f' w.1,
                          )),
                    ))
                    (bound-Watches sys made cut (λ name s. rw (inet, get_file_desc) refl)) in
                elim (Bool-cases sys.logs_info) [
                  | inr silent ↦ rw (e, open_socket_inet) (rw there (rw silent opened))
                  | inl logs ↦
                      rw (e, open_socket_inet)
                        (rw there (
                          rw logs (
                            rw
                              (print_array_overflow sys.char_signed
                                (sys.address_bytes f.device.device_name))
                              (crashed overflow))))
                ]
          ]
        ]

  open_socket_unix-IsOpened :
      f.device.device_type ≡ type_socket_unix
      → Meets (IsOpened sys others f) (open_socket_unix sys f)
  unfolding open_socket_unix IsOpened IsReady get_file_desc
  open_socket_unix-IsOpened unix =
      Meets-map (connected sys (sys.socket f.device.device_name) f)
        (λ f' w. (
          rw w.0.0 (refl, refl, refl, refl, refl, refl, refl, refl),
          simp (unix, IsReady) (w.0.1, rw w.0.0 w.1),
        ))
        (connected-Watches sys (sys.socket f.device.device_name) f
          (λ name s. rw (unix, get_file_desc) refl))

  as-IsOpened :
      (m opened : Program Interface)
      → m ≡ opened
      → Meets (IsOpened sys others f) opened
      → Meets (IsOpened sys others f) m
  as-IsOpened m opened same h = rw same h

  open_by_type-IsOpened :
      (options : Options) → Meets (IsOpened sys others f) (open_by_type sys options others f)
  unfolding open_by_type IsOpened IsReady
  open_by_type-IsOpened options = by_type f.device.device_type refl
    where
      unwatched :
          open_by_type sys options others f ≡ goes_on f
          → IsReady sys others f.device.device_type f f
          → Meets (IsOpened sys others f) (open_by_type sys options others f)
      unwatched same ready =
          rw same (meets f ((refl, refl, refl, refl, refl, refl, refl, refl), ready))

      by_type :
          (t : DeviceType)
          → f.device.device_type ≡ t
          → Meets (IsOpened sys others f) (open_by_type sys options others f)
      by_type type_pcap e =
          as-IsOpened _ (open_pcap sys options others.bpf f) (simp (e, open_by_type) refl) (
            Meets-map (open_pcap sys options others.bpf f)
              (λ f' w. (
                CapturesBy-SameUse sys io_read f f' w,
                simp (e, IsReady) (w, CapturesBy-IsLinked sys io_read f f' w),
              ))
              (open_pcap-CapturesBy sys options others.bpf f e))
      by_type type_pcap_file e =
          as-IsOpened _ (open_pcap_file sys others.bpf f) (simp (e, open_by_type) refl) (
            Meets-map (open_pcap_file sys others.bpf f)
              (λ f' w. (
                CapturesBy-SameUse sys (λ fd. timer 0 1) f f' w,
                simp (e, IsReady) (w, CapturesBy-IsLinked sys (λ fd. timer 0 1) f f' w),
              ))
              (open_pcap_file-CapturesBy sys others.bpf f e))
      by_type type_socket_inet e =
          as-IsOpened _ _ (simp (e, open_by_type) refl) (open_socket_inet-IsOpened e)
      by_type type_socket_unix e =
          as-IsOpened _ _ (simp (e, open_by_type) refl) (open_socket_unix-IsOpened e)
      by_type type_file e = unwatched (simp (e, open_by_type) refl) (simp (e, IsReady) refl)
      by_type type_unknown e = unwatched (simp (e, open_by_type) refl) (simp (e, IsReady) refl)
      by_type type_testtype e = unwatched (simp (e, open_by_type) refl) (simp (e, IsReady) refl)

  -- Where open_device goes on, the interface keeps its type, template, hash buffer and all of its counts. One of libpcap has the
  -- link type that libpcap names and the length of its header (14, 8, 16 or 0) as the offset of the network layer, and is watched by
  -- libpcap's descriptor, a file by a timer of one second; a unix socket, whose name fits sun_path, and an inet socket for
  -- whose name an address is found are watched by the descriptor of their socket, each by the dispatch function of its type; other
  -- interfaces get no watcher.
  pub open_device-IsOpened :
      (options : Options) → Meets (IsOpened sys others f) (open_device sys options others f)
  unfolding open_device IsOpened IsReady
  open_device-IsOpened options =
      Meets-bind (open_by_type sys options others f) _ (open_by_type-IsOpened options)
        (λ f' (same, ready). meets _ (same, later f.device.device_type f' ready))
    where
      later :
          (t : DeviceType) (f' : Interface)
          → IsReady sys others t f f'
          → IsReady sys others t f (record f' { last_export_time = sys.now })
      later type_pcap f' h = h
      later type_pcap_file f' h = h
      later type_socket_inet f' h = h
      later type_socket_unix f' h = h
      later type_file f' h = h
      later type_unknown f' h = h
      later type_testtype f' h = h
