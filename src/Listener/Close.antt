-- ===== src/Listener/Close.antt =====
-- The descriptors: what `initListener` leaves open, and `close` after it.
use gtcp.Prelude.{
  ◌≡◌, refl, ap, ◌∙◌, Bool, true, false, ◌||◌, Option, none, some, List, [], ◌∷◌, ◌++◌,
  if◌then◌else◌, if_lem,
}
use gtcp.Prelude.Int.{ℤ, pos, ltb_ℤ}
use gtcp.Prelude.Text.{String, same, has_prefix}
use gtcp.Options.{Options}
use gtcp.Socket.{IpAddr, close, remove_all, Log, SockError, Kernel, perform}
use gtcp.Socket.Ip.{Net}
use gtcp.Socket.Options.{
  Setter, SocketOption, InterfaceAddrs, set_no_delay, set_recv_buffer, set_send_buffer,
  set_reuseport, set_reuse_addr, set_multicast_membership,
}
use gtcp.Socket.Create.{Platform, Created}
use gtcp.Socket.Descriptors.{open_fds, held, Leaves, Keeps, KeepAll, without, without_self}
use gtcp.Socket.Leaks.{sockets_lem}
use gtcp.Socket.Keeps.{SetterKeeps, set_multicast_membership-SetterKeeps}
use gtcp.Listener.{
  Listener, is_multicast, unix_close, close_listener, normalize, append_if, append_membership,
  append_setter, listener_options, init_listener,
}

append-KeepAll : (xs ys : List SocketOption) → KeepAll xs → KeepAll ys → KeepAll (xs ++ ys)
append-KeepAll [] ys one two = two
append-KeepAll (x ∷ xs) ys (here, one) two = (here, append-KeepAll xs ys one two)

-- What `initListener` and `normalize` return, as the socket functions do.
abbrev pub made : Listener × Option SockError × Log → Created × Log
made (ln, err, log) = (record { fd = ln.fd; net_addr = ln.addr; err = err }, log)

closed_once :
    (k : Kernel) (ln : Listener) (log later : Log)
    → ln.closed ≡ false
    → (open_fds (close_listener k ln log).1
        ≡ (if ltb_ℤ (pos 0) ln.fd then without ln.fd (open_fds log) else open_fds log))
      × (close_listener k (close_listener k ln log).0 later ≡ ((close_listener k ln log).0, later))
unfolding close_listener
closed_once k ln log later not_yet =
    let log₁ : Log = unix_close k ln.fd log in
    let log₂ : Log = (perform k (remove_all ln.address) log₁).1 in
    rw not_yet (
      if_lem (λ l. open_fds l ≡ open_fds log₁) (same ln.network "unix") log₂ log₁ refl refl
          ∙ elim (ltb_ℤ (pos 0) ln.fd)
              as (λ b.
                open_fds (if b then (perform k (close ln.fd) log).1 else log)
                ≡ (if b then without ln.fd (open_fds log) else open_fds log)) [
                  | true ↦ refl
                  | false ↦ refl
                ],
      refl,
    )

module _ (k : Kernel) (net : Net) (platform : Platform) (backlog : ℤ) where
  normalize-Leaves :
      (ln : Listener) (log : Log)
      → KeepAll ln.sock_opts
      → Leaves log (made (normalize k net platform backlog ln log))
  unfolding normalize
  normalize-Leaves ln log all =
      let n : String = ln.network in
      let log₁ : Log = (perform k (remove_all ln.address) log).1 in
      let P : Listener × Option SockError × Log → Type 0 = λ out. Leaves log (made out) in
      let (tcp, _, _) = sockets_lem k net platform backlog ln.sock_opts all true log n ln.address in
      let (_, udp, _) =
        sockets_lem k net platform backlog ln.sock_opts all false log n ln.address in
      let (_, _, uds) =
        sockets_lem k net platform backlog ln.sock_opts all true log₁ n ln.address in
      if_lem P (same n "tcp" || same n "tcp4" || same n "tcp6") _ _ tcp (
        if_lem P (same n "udp" || same n "udp4" || same n "udp6") _ _ udp
          (if_lem P (same n "unix") _ _ uds refl))

  module _ (interfaces : ℤ → InterfaceAddrs) where
    append_if-KeepAll :
        (wanted : Bool) (set : Setter) (opt : ℤ) (opts : List SocketOption)
        → ((fd : ℤ) → Keeps (set fd opt))
        → KeepAll opts
        → KeepAll (append_if wanted set opt opts)
    append_if-KeepAll wanted set opt opts keeps all =
        if_lem KeepAll wanted (opts ++ (record { set_sock_opt = set; opt = opt } ∷ [])) opts
          (append-KeepAll opts _ all (keeps, tt)) all

    append_setter-KeepAll :
        (set : Option Setter) (opt : ℤ) (opts : List SocketOption)
        → SetterKeeps set
        → KeepAll opts
        → KeepAll (append_setter set opt opts)
    append_setter-KeepAll none opt opts keeps all = all
    append_setter-KeepAll (some set) opt opts keeps all =
        append_if-KeepAll true set opt opts (λ fd. keeps fd opt) all

    append_membership-KeepAll :
        (found : Option IpAddr) (network : String) (index : ℤ) (opts : List SocketOption)
        → KeepAll opts
        → KeepAll (append_membership k net platform backlog interfaces found network index opts)
    append_membership-KeepAll none network index opts all = all
    append_membership-KeepAll (some udp) network index opts all =
        let set : Option Setter = set_multicast_membership k interfaces network udp in
        if_lem KeepAll (is_multicast udp.ip) _ opts
          (append_setter-KeepAll set index opts
            (set_multicast_membership-SetterKeeps k interfaces network udp) all)
          all

    listener_options-KeepAll :
        (network address : String) (options : Options)
        → KeepAll (listener_options k net platform backlog interfaces network address options)
    unfolding listener_options
    listener_options-KeepAll network address options =
        let udp : Bool = has_prefix network "udp" in
        let send : ℤ = options.socket_send_buffer in
        let recv : ℤ = options.socket_recv_buffer in
        let found : Option IpAddr = net.resolve_udp_addr network address in
        let index : ℤ = options.multicast_interface_index in
        let all =
          append_if-KeepAll (ltb_ℤ (pos 0) send) (set_send_buffer k) send _ (λ fd log. refl)
            (append_if-KeepAll (ltb_ℤ (pos 0) recv) (set_recv_buffer k) recv _ (λ fd log. refl)
              (append_if-KeepAll _ (set_no_delay k) (pos 1) _ (λ fd log. refl)
                (append_if-KeepAll options.reuse_addr (set_reuse_addr k) (pos 1) _ (λ fd log. refl)
                  (append_if-KeepAll (options.reuse_port || udp) (set_reuseport k) (pos 1) []
                    (λ fd log. refl) tt)))) in
        if_lem KeepAll udp _ _ (append_membership-KeepAll found network index _ all) all

    module _ (network address : String) (options : Options) (log : Log) where
      abbrev pub started : Listener × Option SockError × Log
      started = init_listener k net platform backlog interfaces network address options log

      -- For every network, address and options, and whatever the kernel answers, but that
      -- socket and fcntl do not fail with EINPROGRESS: `initListener` leaves the descriptors
      -- open that were open before, and besides just the listener's own if it returns no error
      -- or EINPROGRESS from a system call. So no path, on any failure, leaks a descriptor or
      -- closes another one.
      pub init_listener_lem : Leaves log (made started)
      unfolding init_listener
      init_listener_lem = normalize-Leaves _ log (listener_options-KeepAll network address options)

      started_open : started.0.closed ≡ false
      unfolding init_listener normalize
      started_open =
          let n : String = network in
          let P : Listener × Option SockError × Log → Type 0 = λ out. out.0.closed ≡ false in
          if_lem P (same n "tcp" || same n "tcp4" || same n "tcp6") _ _ refl (
            if_lem P (same n "udp" || same n "udp4" || same n "udp6") _ _ refl
              (if_lem P (same n "unix") _ _ refl refl))

      -- After `initListener` without an error, `close` leaves open just what was open before if
      -- the listener's descriptor is above 0, and also the descriptor if it is 0; a second
      -- `close` makes no call.
      pub listener_close_lem :
          (later : Log)
          → started.1 ≡ none
          → (open_fds (close_listener k started.0 started.2).1
              ≡ (if ltb_ℤ (pos 0) started.0.fd then open_fds log else started.0.fd ∷ open_fds log))
            × (close_listener k (close_listener k started.0 started.2).0 later
                ≡ ((close_listener k started.0 started.2).0, later))
      listener_close_lem later done_well =
          let fd : ℤ = started.0.fd in
          let was : open_fds started.2 ≡ fd ∷ open_fds log =
            init_listener_lem
            ∙ ap (λ e. held (record { fd = fd; net_addr = started.0.addr; err = e }) (open_fds log))
                done_well in
          let (now, again) = closed_once k started.0 started.2 later started_open in
          (
            now
                ∙ elim (ltb_ℤ (pos 0) fd)
                    as (λ b.
                      (if b then without fd (open_fds started.2) else open_fds started.2)
                      ≡ (if b then open_fds log else fd ∷ open_fds log)) [
                        | true ↦ ap (without fd) was ∙ without_self fd (open_fds log)
                        | false ↦ was
                      ],
            again,
          )
