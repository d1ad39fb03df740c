-- ===== src/Listener.antt =====
-- listener_unix.go: the listening socket. The field lpIdex is never used and left out; what is logged
-- is, too.
pub mod Close
pub mod Calls
mod Tests
use gtcp.Prelude.{
  ℕ, ◌/◌, ◌==◌, ◌&&◌, ◌||◌, Bool, true, false, Option, none, some, List, [], ◌∷◌, ◌++◌,
  if◌then◌else◌, length,
}
use gtcp.Prelude.Int.{ℤ, pos, negsuc, ltb_ℤ}
use gtcp.Prelude.Text.{String, same, has_prefix}
use gtcp.Options.{Options, tcp_no_delay, tcp_delay}
use gtcp.Socket.{
  Family, af_inet, af_inet6, af_unix, SockType, sock_stream, sock_dgram, Proto, ipproto_none,
  ipproto_tcp, ipproto_udp, Sockaddr, inet4, inet6, unix_name, IpAddr, Addr, tcp_addr, udp_addr,
  unix_addr, SockOpt, so_reuseport, so_reuseaddr, so_rcvbuf, so_sndbuf, so_broadcast, so_keepalive,
  so_linger, tcp_nodelay, tcp_keepintvl, tcp_keepidle, ipv6_v6only, ip_multicast_if,
  ip_multicast_loop, ip_add_membership, ipv6_multicast_if, ipv6_multicast_loop, ipv6_join_group,
  OptValue, int, linger, inet4_addr, ip_mreq, ipv6_mreq, Call, socket, setsockopt, bind, connect,
  listen, close_on_exec, set_nonblock, close, remove_all, Reply, done, failed, Log, SockError,
  unsupported_protocol, unsupported_tcp_protocol, unsupported_udp_protocol,
  unsupported_uds_protocol, no_ipv4_address_on_interface, invalid_time_duration, net_error,
  addr_error, syscall_error, errno, Result, ok, error, einprogress, in_progress, Kernel, Step, ◌>>◌,
  return, perform, raw, syscall,
}
use gtcp.Socket.Ip.{Net, to4}
use gtcp.Socket.Options.{
  Setter, SocketOption, InterfaceAddrs, set_no_delay, set_recv_buffer, set_send_buffer,
  set_reuseport, set_reuse_addr, set_multicast_membership,
}
use gtcp.Socket.Create.{Platform, Created, tcp_socket, udp_socket, unix_socket}

-- `closed` says that `once` has been used.
pub record Listener : Type 0 where
  pub closed : Bool
  pub fd : ℤ
  pub addr : Option Addr
  pub address : String
  pub network : String
  pub sock_opts : List SocketOption

abbrev starts_with_ff : List ℕ → Bool
starts_with_ff [] = false
starts_with_ff (b ∷ bs) = b == 255

-- `ip4[0]&0xf0 == 0xe0`
abbrev starts_with_e : List ℕ → Bool
starts_with_e [] = false
starts_with_e (b ∷ bs) = b / 16 == 14

-- `IsMulticast` of net.IP
unfoldable pub is_multicast : List ℕ → Bool
is_multicast ip = elim (to4 ip) [
  | none ↦ (length ip == 16) && starts_with_ff ip
  | some ip4 ↦ starts_with_e ip4
]

-- `if wanted { sockOpts = append(sockOpts, sockOpt) }`
abbrev pub append_if : Bool → Setter → ℤ → List SocketOption → List SocketOption
append_if wanted set opt opts =
    if wanted then opts ++ (record { set_sock_opt = set; opt = opt } ∷ []) else opts

abbrev pub wants_no_delay : Options → Bool
wants_no_delay options = elim options.tcp_delay_option [ tcp_no_delay ↦ true | tcp_delay ↦ false ]

abbrev pub append_setter : Option Setter → ℤ → List SocketOption → List SocketOption
append_setter none opt opts = opts
append_setter (some set) opt opts = append_if true set opt opts

module _ (k : Kernel) where
  abbrev pub unix_close : ℤ → Log → Log
  unix_close fd log = if ltb_ℤ (pos 0) fd then (perform k (close fd) log).1 else log

  unfoldable pub close_listener : Listener → Log → Listener × Log
  close_listener ln log =
      let log₁ = unix_close ln.fd log in
      let log₂ =
        if same ln.network "unix" then (perform k (remove_all ln.address) log₁).1 else log₁ in
      if ln.closed then (ln, log) else (record ln { closed = true }, log₂)

  module _ (net : Net) (platform : Platform) (backlog : ℤ) where
    abbrev pub with_socket : Listener → String → Created × Log → Listener × Option SockError × Log
    with_socket ln network (c, log) =
        (record ln { fd = c.fd; addr = c.net_addr; network = network }, c.err, log)

    unfoldable pub normalize : Listener → Log → Listener × Option SockError × Log
    normalize ln log =
        let n = ln.network in
        let tcp = tcp_socket k net platform backlog n ln.address true ln.sock_opts log in
        let udp = udp_socket k net platform backlog n ln.address false ln.sock_opts log in
        let (_, log₁) = perform k (remove_all ln.address) log in
        let uds = unix_socket k net platform backlog n ln.address true ln.sock_opts log₁ in
        if same n "tcp" || same n "tcp4" || same n "tcp6"
        then with_socket ln "tcp" tcp
        else if same n "udp" || same n "udp4" || same n "udp6"
        then with_socket ln "udp" udp
        else if same n "unix"
        then with_socket ln n uds
        else (ln, some unsupported_protocol, log)

    module _ (interfaces : ℤ → InterfaceAddrs) where
      -- The multicast group, for an address that resolves to one.
      abbrev pub append_membership :
          Option IpAddr → String → ℤ → List SocketOption → List SocketOption
      append_membership none network index opts = opts
      append_membership (some udp) network index opts =
          if is_multicast udp.ip
          then append_setter (set_multicast_membership k interfaces network udp) index opts
          else opts

      unfoldable pub listener_options : String → String → Options → List SocketOption
      listener_options network address options =
          let udp = has_prefix network "udp" in
          let no_delay = wants_no_delay options && has_prefix network "tcp" in
          let opts₁ = append_if (options.reuse_port || udp) (set_reuseport k) (pos 1) [] in
          let opts₂ = append_if options.reuse_addr (set_reuse_addr k) (pos 1) opts₁ in
          let opts₃ = append_if no_delay (set_no_delay k) (pos 1) opts₂ in
          let recv = options.socket_recv_buffer in
          let opts₄ = append_if (ltb_ℤ (pos 0) recv) (set_recv_buffer k) recv opts₃ in
          let send = options.socket_send_buffer in
          let opts₅ = append_if (ltb_ℤ (pos 0) send) (set_send_buffer k) send opts₄ in
          if udp
          then append_membership (net.resolve_udp_addr network address) network
              options.multicast_interface_index opts₅
          else opts₅

      unfoldable pub init_listener :
          String → String → Options → Log → Listener × Option SockError × Log
      init_listener network address options log =
          normalize
            (record {
              closed = false;
              fd = pos 0;
              addr = none;
              address = address;
              network = network;
              sock_opts = listener_options network address options;
            })
            log
