-- ===== src/Socket/Leaks.antt =====
-- What TCPSocket, UDPSocket and UnixSocket leave open.
use gtcp.Prelude.{
  ℕ, ◌≡◌, refl, arith, Bool, true, false, Option, none, some, List, [], if_lem, ◌&&◌,
}
use gtcp.Prelude.Int.{ℤ, pos}
use gtcp.Prelude.Text.{String}
use gtcp.Socket.{
  Family, af_inet, af_inet6, af_unix, SockType, sock_stream, sock_dgram, Proto, ipproto_none,
  ipproto_tcp, ipproto_udp, Sockaddr, IpAddr, Addr, tcp_addr, udp_addr, so_broadcast, int,
  setsockopt, bind, listen, Log, Result, ok, error, ◌>>=◌, in_progress, Kernel, Step, ◌>>◌, return,
  syscall,
}
use gtcp.Socket.Ip.{
  SockAddr, Net, get_tcp_sock_addr, get_udp_sock_addr, get_unix_sock_addr, tcp_sock_addr,
  udp_sock_addr, unix_sock_addr, with_sa, ip_to_sockaddr, ip_to_sockaddr_inet4,
  ip_to_sockaddr_inet6, determine_tcp_proto, resolved, determine_udp_proto,
}
use gtcp.Socket.Options.{SocketOption, set_ipv6_only}
use gtcp.Socket.Create.{
  Platform, create, set_options, tcp_body, udp_body, unix_body, tcp_socket, udp_socket, unix_socket,
  restrict_ipv6, is_inet6, if_found, listen_or_connect, connect_or_bind,
}
use gtcp.Socket.Descriptors.{Leaves, Keeps, KeepAll, first-Keeps, set_options-Keeps, create_lem}

restrict_ipv6-Keeps : (k : Kernel) (fd : ℤ) (found : SockAddr) → Keeps (restrict_ipv6 k fd found)
restrict_ipv6-Keeps k fd found =
    if_lem Keeps (is_inet6 found.family && found.ipv6only) (set_ipv6_only k fd (pos 1))
      (return none) (λ log. refl) (λ log. refl)

-- No error comes from a system call before there is a socket.
abbrev stopped_in_progress {ℓ} : {A : Type ℓ} → Result A → Bool
stopped_in_progress (error e) = in_progress e
stopped_in_progress (ok a) = false

with_sa-Other :
    (net : Net) (family : Family) (ip : List ℕ) (port : ℤ) (zone : List ℕ) (addr : Addr)
    (only : Bool)
    → stopped_in_progress (with_sa (ip_to_sockaddr net family ip port zone) family addr only)
      ≡ false
unfolding ip_to_sockaddr_inet4 ip_to_sockaddr_inet6
with_sa-Other net af_inet ip port zone addr only = ground arith
with_sa-Other net af_inet6 ip port zone addr only = ground arith
with_sa-Other net af_unix ip port zone addr only = refl

bind-Other :
    {A B : Type 0} (r : Result A) (f : A → Result B)
    → stopped_in_progress r ≡ false
    → ((a : A) → stopped_in_progress (f a) ≡ false)
    → stopped_in_progress (r >>= f) ≡ false
bind-Other (ok a) f one two = two a
bind-Other (error e) f one two = one

resolved-Other : {A : Type 0} (found : Option A) → stopped_in_progress (resolved found) ≡ false
resolved-Other none = refl
resolved-Other (some a) = refl

determine_tcp_proto-Other :
    (proto : String) (a : IpAddr) → stopped_in_progress (determine_tcp_proto proto a) ≡ false
unfolding determine_tcp_proto
determine_tcp_proto-Other proto a = ground arith

tcp_sock_addr-Other :
    (net : Net) (version : String) (a : IpAddr)
    → stopped_in_progress (tcp_sock_addr net version a) ≡ false
unfolding tcp_sock_addr
tcp_sock_addr-Other net version a = ground (
  arith,
  with_sa-Other net af_inet a.ip a.port [] (tcp_addr a) false,
  with_sa-Other net af_inet6 a.ip a.port a.zone (tcp_addr a) true,
  with_sa-Other net af_inet6 a.ip a.port a.zone (tcp_addr a) false,
)

get_tcp_sock_addr-Other :
    (net : Net) (proto addr : String)
    → stopped_in_progress (get_tcp_sock_addr net proto addr) ≡ false
unfolding get_tcp_sock_addr
get_tcp_sock_addr-Other net proto addr =
    bind-Other (resolved (net.resolve_tcp_addr proto addr))
      (λ a. determine_tcp_proto proto a >>= λ version. tcp_sock_addr net version a)
      (resolved-Other (net.resolve_tcp_addr proto addr))
      λ a.
        bind-Other (determine_tcp_proto proto a) (λ version. tcp_sock_addr net version a)
          (determine_tcp_proto-Other proto a) λ version. tcp_sock_addr-Other net version a

determine_udp_proto-Other :
    (proto : String) (a : IpAddr) → stopped_in_progress (determine_udp_proto proto a) ≡ false
unfolding determine_udp_proto
determine_udp_proto-Other proto a = ground arith

udp_sock_addr-Other :
    (net : Net) (version : String) (a : IpAddr)
    → stopped_in_progress (udp_sock_addr net version a) ≡ false
unfolding udp_sock_addr
udp_sock_addr-Other net version a = ground (
  arith,
  with_sa-Other net af_inet a.ip a.port [] (udp_addr a) false,
  with_sa-Other net af_inet6 a.ip a.port a.zone (udp_addr a) true,
  with_sa-Other net af_inet6 a.ip a.port a.zone (udp_addr a) false,
)

get_udp_sock_addr-Other :
    (net : Net) (proto addr : String)
    → stopped_in_progress (get_udp_sock_addr net proto addr) ≡ false
unfolding get_udp_sock_addr
get_udp_sock_addr-Other net proto addr =
    bind-Other (resolved (net.resolve_udp_addr proto addr))
      (λ a. determine_udp_proto proto a >>= λ version. udp_sock_addr net version a)
      (resolved-Other (net.resolve_udp_addr proto addr))
      λ a.
        bind-Other (determine_udp_proto proto a) (λ version. udp_sock_addr net version a)
          (determine_udp_proto-Other proto a) λ version. udp_sock_addr-Other net version a

get_unix_sock_addr-Other :
    (net : Net) (proto addr : String)
    → stopped_in_progress (get_unix_sock_addr net proto addr) ≡ false
unfolding get_unix_sock_addr unix_sock_addr
get_unix_sock_addr-Other net proto addr =
    bind-Other (resolved (net.resolve_unix_addr proto addr)) (unix_sock_addr net)
      (resolved-Other (net.resolve_unix_addr proto addr)) λ found. ground arith

module _ (k : Kernel) (net : Net) (platform : Platform) (backlog : ℤ) where
  listen_or_connect-Keeps :
      (passive : Bool) (fd : ℤ) (sa : Sockaddr)
      → Keeps (listen_or_connect k net platform backlog passive fd sa)
  listen_or_connect-Keeps true fd sa =
      first-Keeps (syscall k "bind" (bind fd sa)) (syscall k "listen" (listen fd backlog))
        (λ log. refl) (λ log. refl)
  listen_or_connect-Keeps false fd sa = λ log. refl

  connect_or_bind-Keeps :
      (connected : Bool) (fd : ℤ) (sa : Sockaddr)
      → Keeps (connect_or_bind k net platform backlog connected fd sa)
  connect_or_bind-Keeps true fd sa = λ log. refl
  connect_or_bind-Keeps false fd sa = λ log. refl

  module _ (opts : List SocketOption) (all : KeepAll opts) (passive : Bool) (log : Log) where
    if_found-Leaves :
        (found : Result SockAddr) (t : SockType) (p : Proto) (body : SockAddr → ℤ → Step)
        → stopped_in_progress found ≡ false
        → ((a : SockAddr) (fd : ℤ) → Keeps (body a fd))
        → Leaves log
            (if_found k net platform backlog found (λ a. create k platform t p a (body a)) log)
    if_found-Leaves (error e) t p body other keeps = rw other refl
    if_found-Leaves (ok a) t p body other keeps = create_lem k platform t p a (body a) log (keeps a)

    tcp_body-Keeps :
        (a : SockAddr) (fd : ℤ) → Keeps (tcp_body k net platform backlog passive opts a fd)
    tcp_body-Keeps a fd =
        first-Keeps (restrict_ipv6 k fd a)
          (set_options k fd opts >> (listen_or_connect k net platform backlog passive fd a.sa))
          (restrict_ipv6-Keeps k fd a)
          (first-Keeps (set_options k fd opts)
            (listen_or_connect k net platform backlog passive fd a.sa)
            (set_options-Keeps k fd opts all) (listen_or_connect-Keeps passive fd a.sa))

    udp_body-Keeps :
        (a : SockAddr) (fd : ℤ) → Keeps (udp_body k net platform backlog passive opts a fd)
    udp_body-Keeps a fd =
        let broadcast : Step = syscall k "setsockopt" (setsockopt fd so_broadcast (int (pos 1))) in
        let last : Step = connect_or_bind k net platform backlog passive fd a.sa in
        first-Keeps (restrict_ipv6 k fd a) (broadcast >> set_options k fd opts >> last)
          (restrict_ipv6-Keeps k fd a)
          (first-Keeps broadcast (set_options k fd opts >> last) (λ log. refl)
            (first-Keeps (set_options k fd opts) last (set_options-Keeps k fd opts all)
              (connect_or_bind-Keeps passive fd a.sa)))

    unix_body-Keeps :
        (a : SockAddr) (fd : ℤ) → Keeps (unix_body k net platform backlog passive opts a fd)
    unix_body-Keeps a fd =
        first-Keeps (set_options k fd opts)
          (listen_or_connect k net platform backlog passive fd a.sa)
          (set_options-Keeps k fd opts all) (listen_or_connect-Keeps passive fd a.sa)

    pub sockets_lem :
        (proto addr : String)
        → Leaves log (tcp_socket k net platform backlog proto addr passive opts log)
          × Leaves log (udp_socket k net platform backlog proto addr passive opts log)
          × Leaves log (unix_socket k net platform backlog proto addr passive opts log)
    unfolding tcp_socket udp_socket unix_socket
    sockets_lem proto addr = (
      if_found-Leaves _ sock_stream ipproto_tcp _ (get_tcp_sock_addr-Other net proto addr)
          tcp_body-Keeps,
      if_found-Leaves _ sock_dgram ipproto_udp _ (get_udp_sock_addr-Other net proto addr)
          udp_body-Keeps,
      if_found-Leaves _ sock_stream ipproto_none _ (get_unix_sock_addr-Other net proto addr)
          unix_body-Keeps,
    )
