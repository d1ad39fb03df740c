-- ===== src/Socket/Ip.antt =====
-- sock_posix.go and the addresses of tcp_socket.go, udp_socket.go and unix_socket.go in
-- internal/socket. `to4`, `to16` and `ip_equal` are methods of Go's net.IP; what a name resolves to
-- and the interfaces of the host are parameters.
pub mod Laws
use gtcp.Prelude.{
  ℕ, ◌+◌, ◌%◌, ◌^◌, ◌==◌, ◌&&◌, ◌||◌, Bool, true, false, Option, none, some, List, [], ◌∷◌, ◌++◌,
  if◌then◌else◌, length, take, drop,
}
use gtcp.Prelude.Int.{ℤ}
use gtcp.Prelude.Slices.{copy}
use gtcp.Prelude.Text.{String, same}
use gtcp.Alloc.{Alloc}
use gtcp.Socket.{
  Family, af_inet, af_inet6, af_unix, SockType, sock_stream, sock_dgram, Proto, ipproto_none,
  ipproto_tcp, ipproto_udp, Sockaddr, inet4, inet6, unix_name, IpAddr, Addr, tcp_addr, udp_addr,
  unix_addr, SockOpt, so_reuseport, so_reuseaddr, so_rcvbuf, so_sndbuf, so_broadcast, so_keepalive,
  so_linger, tcp_nodelay, tcp_keepintvl, tcp_keepidle, ipv6_v6only, ip_multicast_if,
  ip_multicast_loop, ip_add_membership, ipv6_multicast_if, ipv6_multicast_loop, ipv6_join_group,
  OptValue, int, linger, inet4_addr, ip_mreq, ipv6_mreq, Call, socket, setsockopt, bind, connect,
  listen, close_on_exec, set_nonblock, close, remove_all, Reply, done, failed, Log, SockError,
  unsupported_protocol, unsupported_tcp_protocol, unsupported_udp_protocol,
  unsupported_uds_protocol, no_ipv4_address_on_interface, invalid_time_duration, net_error,
  addr_error, syscall_error, errno, Result, ok, error, ◌>>=◌, einprogress, in_progress, Kernel,
  Step, ◌>>◌, return, perform, raw, syscall,
}
use gtcp.Socket.Decimal.{uint2decimal_str}

abbrev pub zeros4 : List ℕ
zeros4 = 0 ∷ 0 ∷ 0 ∷ 0 ∷ []

abbrev pub zeros12 : List ℕ
zeros12 = 0 ∷ 0 ∷ 0 ∷ 0 ∷ 0 ∷ 0 ∷ 0 ∷ 0 ∷ zeros4

abbrev pub zeros16 : List ℕ
zeros16 = 0 ∷ 0 ∷ 0 ∷ 0 ∷ zeros12

-- The first 12 bytes of an IPv4 address in 16 bytes.
abbrev pub v4_in_v6_prefix : List ℕ
v4_in_v6_prefix = 0 ∷ 0 ∷ 0 ∷ 0 ∷ 0 ∷ 0 ∷ 0 ∷ 0 ∷ 0 ∷ 0 ∷ 255 ∷ 255 ∷ []

abbrev pub equal_bytes : List ℕ → List ℕ → Bool
equal_bytes [] [] = true
equal_bytes [] (d ∷ ds) = false
equal_bytes (c ∷ cs) [] = false
equal_bytes (c ∷ cs) (d ∷ ds) = (c == d) && equal_bytes cs ds

unfoldable pub to4 : List ℕ → Option (List ℕ)
to4 ip =
    if length ip == 4
    then some ip
    else if (length ip == 16) && equal_bytes (take 12 ip) v4_in_v6_prefix
    then some (drop 12 ip)
    else none

unfoldable pub to16 : List ℕ → Option (List ℕ)
to16 ip =
    if length ip == 4
    then some (v4_in_v6_prefix ++ ip)
    else if length ip == 16
    then some ip
    else none

unfoldable pub ip_equal : List ℕ → List ℕ → Bool
ip_equal ip x =
    if length ip == length x
    then equal_bytes ip x
    else if (length ip == 4) && (length x == 16)
    then equal_bytes (take 12 x) v4_in_v6_prefix && equal_bytes ip (drop 12 x)
    else if (length ip == 16) && (length x == 4)
    then equal_bytes (take 12 ip) v4_in_v6_prefix && equal_bytes (drop 12 ip) x
    else false

-- `net.IPv4zero`
abbrev pub ipv4_zero : List ℕ
ipv4_zero = v4_in_v6_prefix ++ zeros4

-- `copy(dst[:], ip)` for what To4 or To16 returns; nil copies nothing.
abbrev pub copied : List ℕ → Option (List ℕ) → List ℕ
copied dst none = dst
copied dst (some src) = copy dst src

abbrev pub is_nil : List ℕ → Bool
is_nil [] = true
is_nil (b ∷ bs) = false

-- The `switch proto` at the end of determineTCPProto and determineUDPProto.
abbrev one_of : String → String → String → String → SockError → Result String
one_of proto a b c err =
    if same proto a || same proto b || same proto c then ok proto else error err

unfoldable pub determine_tcp_proto : String → IpAddr → Result String
determine_tcp_proto proto addr = elim (to4 addr.ip) [
  | some ip4 ↦ ok "tcp4"
  | none ↦ elim (to16 addr.ip) [
    | some ip16 ↦ ok "tcp6"
    | none ↦ one_of proto "tcp" "tcp4" "tcp6" unsupported_tcp_protocol
  ]
]

unfoldable pub determine_udp_proto : String → IpAddr → Result String
determine_udp_proto proto addr = elim (to4 addr.ip) [
  | some ip4 ↦ ok "udp4"
  | none ↦ elim (to16 addr.ip) [
    | some ip16 ↦ ok "udp6"
    | none ↦ one_of proto "udp" "udp4" "udp6" unsupported_udp_protocol
  ]
]

-- What `GetTCPSockAddr` and its like return without an error.
pub record SockAddr : Type 0 where
  pub sa : Sockaddr
  pub family : Family
  pub addr : Addr
  pub ipv6only : Bool

abbrev pub with_sa : Result Sockaddr → Family → Addr → Bool → Result SockAddr
with_sa (error e) family addr ipv6only = error e
with_sa (ok sa) family addr ipv6only =
    ok (record { sa = sa; family = family; addr = addr; ipv6only = ipv6only })

unfoldable pub ip_to_sockaddr_inet4 : List ℕ → ℤ → Result Sockaddr
ip_to_sockaddr_inet4 ip port = elim (to4 (if is_nil ip then ipv4_zero else ip)) [
  | none ↦ error (addr_error "non-IPv4 address")
  | some ip4 ↦ ok (inet4 (copy zeros4 ip4) port)
]

pub record Net : Type 0 where
  -- `net.ResolveTCPAddr`, `net.ResolveUDPAddr` and `net.ResolveUnixAddr`, which gives a network and a name;
  -- `none` is an error
  pub resolve_tcp_addr : String → String → Option IpAddr
  pub resolve_udp_addr : String → String → Option IpAddr
  pub resolve_unix_addr : String → String → Option (String × String)
  -- `net.InterfaceByName(name)` and the index, `net.InterfaceByIndex(index)` and the name
  pub interface_by_name : List ℕ → Option ℕ
  pub interface_by_index : ℕ → Option (List ℕ)

abbrev pub resolved : {A : Type 0} → Option A → Result A
resolved none = error net_error
resolved (some a) = ok a

module _ (net : Net) where
  unfoldable pub ip_to_sockaddr_inet6 : List ℕ → ℤ → List ℕ → Result Sockaddr
  ip_to_sockaddr_inet6 ip port zone =
      elim (to16 (if is_nil ip || ip_equal ip ipv4_zero then zeros16 else ip)) [
        | none ↦ error (addr_error "non-IPv6 address")
        | some ip6 ↦ elim (net.interface_by_name zone) [
          | none ↦ ok (inet6 (copy zeros16 ip6) port 0)
          | some index ↦ ok (inet6 (copy zeros16 ip6) port (index % 2 ^ 32))
        ]
      ]

  abbrev pub ip_to_sockaddr : Family → List ℕ → ℤ → List ℕ → Result Sockaddr
  ip_to_sockaddr af_inet ip port zone = ip_to_sockaddr_inet4 ip port
  ip_to_sockaddr af_inet6 ip port zone = ip_to_sockaddr_inet6 ip port zone
  ip_to_sockaddr af_unix ip port zone = error (addr_error "invalid address family")

  -- The switch on the version.
  unfoldable pub tcp_sock_addr : String → IpAddr → Result SockAddr
  tcp_sock_addr version a =
      let inet4_sa = ip_to_sockaddr af_inet a.ip a.port [] in
      let inet6_sa = ip_to_sockaddr af_inet6 a.ip a.port a.zone in
      if same version "tcp4"
      then with_sa inet4_sa af_inet (tcp_addr a) false
      else if same version "tcp6"
      then with_sa inet6_sa af_inet6 (tcp_addr a) true
      else if same version "tcp"
      then with_sa inet6_sa af_inet6 (tcp_addr a) false
      else error unsupported_protocol

  unfoldable pub get_tcp_sock_addr : String → String → Result SockAddr
  get_tcp_sock_addr proto addr = do
    a ← resolved (net.resolve_tcp_addr proto addr)
    version ← determine_tcp_proto proto a
    tcp_sock_addr version a

  unfoldable pub udp_sock_addr : String → IpAddr → Result SockAddr
  udp_sock_addr version a =
      let inet4_sa = ip_to_sockaddr af_inet a.ip a.port [] in
      let inet6_sa = ip_to_sockaddr af_inet6 a.ip a.port a.zone in
      if same version "udp4"
      then with_sa inet4_sa af_inet (udp_addr a) false
      else if same version "udp6"
      then with_sa inet6_sa af_inet6 (udp_addr a) true
      else if same version "udp"
      then with_sa inet6_sa af_inet6 (udp_addr a) false
      else error unsupported_protocol

  unfoldable pub get_udp_sock_addr : String → String → Result SockAddr
  get_udp_sock_addr proto addr = do
    a ← resolved (net.resolve_udp_addr proto addr)
    version ← determine_udp_proto proto a
    udp_sock_addr version a

  -- The switch on `unixAddr.Network()`.
  unfoldable pub unix_sock_addr : String × String → Result SockAddr
  unix_sock_addr (network, name) =
      if same network "unix"
      then ok (record {
        sa = unix_name name;
        family = af_unix;
        addr = unix_addr name;
        ipv6only = false;
      })
      else error unsupported_uds_protocol

  unfoldable pub get_unix_sock_addr : String → String → Result SockAddr
  get_unix_sock_addr proto addr = resolved (net.resolve_unix_addr proto addr) >>= unix_sock_addr
