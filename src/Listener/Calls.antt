-- ===== src/Listener/Calls.antt =====
-- The system calls of `initListener` for TCP.
use gtcp.Prelude.{
  ◌≡◌, refl, Bool, true, false, ◌&&◌, ◌||◌, Option, none, List, [], ◌∷◌, ◌++◌, append-nil,
}
use gtcp.Prelude.Int.{ℤ, pos, ltb_ℤ}
use gtcp.Prelude.Text.{String, same, has_prefix}
use gtcp.Options.{Options}
use gtcp.Socket.{
  sock_stream, ipproto_tcp, so_reuseport, so_reuseaddr, so_rcvbuf, so_sndbuf, tcp_nodelay, int,
  Call, socket, setsockopt, Log, SockError, ok, Kernel,
}
use gtcp.Socket.Ip.{Net, SockAddr, get_tcp_sock_addr}
use gtcp.Socket.Options.{
  Setter, SocketOption, InterfaceAddrs, set_no_delay, set_recv_buffer, set_send_buffer,
  set_reuseport, set_reuse_addr,
}
use gtcp.Socket.Create.{cloexec, tcp_socket, set_options, create, sys_socket, tcp_body}
use gtcp.Socket.Calls.{
  calls, recorded, call_if, Makes, syscall-Makes, raw-Makes, return-Makes, append-Makes, one-Makes,
  tcp_calls, tcp_body-Makes, use_socket_calls,
}
use gtcp.Listener.{Listener, normalize, append_if, wants_no_delay, listener_options, init_listener}

or_false : (b : Bool) → (b || false) ≡ b
or_false true = refl
or_false false = refl

and_true : (b : Bool) → (b && true) ≡ b
and_true true = refl
and_true false = refl

-- The calls for the options, in their order.
abbrev pub option_calls : Options → ℤ → List Call
option_calls options fd =
    call_if options.reuse_port (setsockopt fd so_reuseport (int (pos 1)))
    ++ call_if options.reuse_addr (setsockopt fd so_reuseaddr (int (pos 1)))
    ++ call_if (wants_no_delay options) (setsockopt fd tcp_nodelay (int (pos 1)))
    ++ call_if (ltb_ℤ (pos 0) options.socket_recv_buffer)
        (setsockopt fd so_rcvbuf (int options.socket_recv_buffer))
    ++ call_if (ltb_ℤ (pos 0) options.socket_send_buffer)
        (setsockopt fd so_sndbuf (int options.socket_send_buffer))

module _ (k : Kernel) (net : Net) (backlog : ℤ) (interfaces : ℤ → InterfaceAddrs) where
  append_if-Makes :
      (wanted : Bool) (set : Setter) (opt : ℤ) (opts : List SocketOption) (fd : ℤ) (cs : List Call)
      (c : Call)
      → Makes (set_options k fd opts) cs
      → Makes (set fd opt) (c ∷ [])
      → Makes (set_options k fd (append_if wanted set opt opts)) (cs ++ call_if wanted c)
  append_if-Makes true set opt opts fd cs c before one =
      let o : SocketOption = record { set_sock_opt = set; opt = opt } in
      append-Makes k fd opts (o ∷ []) cs (c ∷ []) before (one-Makes k fd o c one)
  append_if-Makes false set opt opts fd cs c before one = rw (append-nil cs) before

  -- A network that is one of the TCP networks.
  pub record IsTcp (network : String) : Type 0 where
    pub known : (same network "tcp" || same network "tcp4" || same network "tcp6") ≡ true
    pub tcp_prefix : has_prefix network "tcp" ≡ true
    pub udp_prefix : has_prefix network "udp" ≡ false

  listener_options-Makes :
      (network address : String) (options : Options) (fd : ℤ)
      → IsTcp network
      → Makes
          (set_options k fd
            (listener_options k net cloexec backlog interfaces network address options))
          (option_calls options fd)
  unfolding listener_options
  listener_options-Makes network address options fd tcp =
      let no_delay : Bool = wants_no_delay options in
      let recv : ℤ = options.socket_recv_buffer in
      let send : ℤ = options.socket_send_buffer in
      let cs₁ = call_if options.reuse_port (setsockopt fd so_reuseport (int (pos 1))) in
      let cs₂ = cs₁ ++ call_if options.reuse_addr (setsockopt fd so_reuseaddr (int (pos 1))) in
      let cs₃ = cs₂ ++ call_if no_delay (setsockopt fd tcp_nodelay (int (pos 1))) in
      let cs₄ = cs₃ ++ call_if (ltb_ℤ (pos 0) recv) (setsockopt fd so_rcvbuf (int recv)) in
      rw (tcp.udp_prefix, tcp.tcp_prefix, or_false options.reuse_port, and_true no_delay)
        (append_if-Makes (ltb_ℤ (pos 0) send) (set_send_buffer k) send _ fd cs₄ _
          (append_if-Makes (ltb_ℤ (pos 0) recv) (set_recv_buffer k) recv _ fd cs₃ _
            (append_if-Makes no_delay (set_no_delay k) (pos 1) _ fd cs₂ _
              (append_if-Makes options.reuse_addr (set_reuse_addr k) (pos 1) _ fd cs₁ _
                (append_if-Makes options.reuse_port (set_reuseport k) (pos 1) [] fd [] _
                  return-Makes
                  (syscall-Makes k "setsockopt" (setsockopt fd so_reuseport (int (pos 1)))))
                (syscall-Makes k "setsockopt" (setsockopt fd so_reuseaddr (int (pos 1)))))
              (syscall-Makes k "setsockopt" (setsockopt fd tcp_nodelay (int (pos 1)))))
            (raw-Makes k (setsockopt fd so_rcvbuf (int recv))))
          (raw-Makes k (setsockopt fd so_sndbuf (int send))))

  tcp_socket_calls :
      (network address : String) (opts : List SocketOption) (cs : ℤ → List Call) (found : SockAddr)
      (log : Log)
      → get_tcp_sock_addr net network address ≡ ok found
      → ((fd : ℤ) → Makes (set_options k fd opts) (cs fd))
      → (tcp_socket k net cloexec backlog network address true opts log).0.err ≡ none
      → calls (tcp_socket k net cloexec backlog network address true opts log).1
        ≡ recorded
            (socket found.family sock_stream true ipproto_tcp
              ∷ tcp_calls backlog found
                  (cs (tcp_socket k net cloexec backlog network address true opts log).0.fd)
                  (tcp_socket k net cloexec backlog network address true opts log).0.fd)
            (calls log)
  unfolding tcp_socket create sys_socket
  tcp_socket_calls network address opts cs found log e sets =
      let c : Call = socket found.family sock_stream true ipproto_tcp in
      rw e (
        use_socket_calls k net cloexec backlog found
          (tcp_body k net cloexec backlog true opts found)
          (λ fd. tcp_calls backlog found (cs fd) fd) c log (k.answer log c)
          (λ fd. tcp_body-Makes k net cloexec backlog opts (cs fd) found fd (sets fd)))

  abbrev pub started : String → String → Options → Log → Listener × Option SockError × Log
  started = init_listener k net cloexec backlog interfaces

  -- For a network among tcp, tcp4 and tcp6 and an address that `GetTCPSockAddr` finds: when
  -- `initListener` returns without an error on Linux or the BSDs, its system calls were, in
  -- this order, socket, IPV6_V6ONLY if the address says so, the setsockopt of each option that
  -- is asked for (SO_REUSEPORT, SO_REUSEADDR, TCP_NODELAY and the two buffer sizes), bind and
  -- listen.
  pub init_listener_calls :
      (network address : String) (options : Options) (log : Log) (found : SockAddr)
      → IsTcp network
      → get_tcp_sock_addr net network address ≡ ok found
      → (started network address options log).1 ≡ none
      → calls (started network address options log).2
        ≡ recorded
            (socket found.family sock_stream true ipproto_tcp
              ∷ tcp_calls backlog found
                  (option_calls options (started network address options log).0.fd)
                  (started network address options log).0.fd)
            (calls log)
  unfolding init_listener normalize
  init_listener_calls network address options log found tcp e = rw tcp.known (
      tcp_socket_calls network address
        (listener_options k net cloexec backlog interfaces network address options)
        (option_calls options) found log e
        (λ fd. listener_options-Makes network address options fd tcp))
