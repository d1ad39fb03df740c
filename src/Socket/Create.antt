-- ===== src/Socket/Create.antt =====
-- `tcpSocket`, `udpSocket` and `udsSocket` of internal/socket, on Linux and the BSDs (sock_cloexec.go) or on
-- Darwin (sys_cloexec.go). The backlog of listen(2) is a parameter.
use gtcp.Prelude.{
  ℕ, ◌==◌, ◌&&◌, Bool, true, false, Option, none, some, List, [], ◌∷◌, if◌then◌else◌,
}
use gtcp.Prelude.Int.{ℤ, pos, negsuc, ltb_ℤ}
use gtcp.Prelude.Text.{String}
use gtcp.Socket.{
  Family, af_inet6, SockType, sock_stream, sock_dgram, Proto, ipproto_none, ipproto_tcp,
  ipproto_udp, Sockaddr, Addr, so_broadcast, int, socket, setsockopt, bind, connect, listen,
  close_on_exec, set_nonblock, close, Reply, done, failed, Log, SockError, syscall_error, Result,
  ok, error, in_progress, Kernel, Step, ◌>>◌, return, perform, syscall,
}
use gtcp.Socket.Ip.{SockAddr, Net, get_tcp_sock_addr, get_udp_sock_addr, get_unix_sock_addr}
use gtcp.Socket.Options.{SocketOption, set_ipv6_only}

pub data Platform : Type 0 where
  cloexec darwin : Platform

-- `maxListenerBacklog` on Linux: `read` is the number that somaxconn holds, `none` if it cannot be read.
unfoldable pub max_listener_backlog : ℤ → Option ℤ → ℤ
max_listener_backlog somaxconn none = somaxconn
max_listener_backlog somaxconn (some (pos n)) =
    if n == 0 then somaxconn else if ltb_ℤ (pos 65535) (pos n) then pos 65535 else pos n
max_listener_backlog somaxconn (some (negsuc n)) = negsuc n

-- On the BSDs and Darwin; `read` is the number that sysctl gives, 0 where none is asked for.
unfoldable pub max_listener_backlog_bsd : ℤ → Option ℕ → ℤ
max_listener_backlog_bsd somaxconn none = somaxconn
max_listener_backlog_bsd somaxconn (some n) =
    if n == 0 then somaxconn else if ltb_ℤ (pos 65535) (pos n) then pos 65535 else pos n

-- What a socket function returns.
pub record Created : Type 0 where
  pub fd : ℤ
  pub net_addr : Option Addr
  pub err : Option SockError

abbrev pub is_inet6 : Family → Bool
is_inet6 af_inet6 = true
is_inet6 family = false

-- The deferred function of the three.
abbrev pub close_unless_in_progress : Kernel → ℤ → Option SockError → Log → Log
close_unless_in_progress k fd none log = log
close_unless_in_progress k fd (some err) log =
    if in_progress err then log else (perform k (close fd) log).1

module _ (k : Kernel) where
  abbrev pub opened : Reply → Log → ℤ × Option ℕ × Log
  opened (done n) log = (pos n, none, log)
  opened (failed e) log = (negsuc 0, some e, log)

  -- A descriptor that cannot be made non-blocking is closed; its number is returned with the error.
  abbrev pub unblocked : ℤ → Reply → Log → ℤ × Option ℕ × Log
  unblocked fd (done n) log = (fd, none, log)
  unblocked fd (failed e) log = (fd, some e, (perform k (close fd) log).1)

  abbrev pub unblock : ℤ × Option ℕ × Log → ℤ × Option ℕ × Log
  unblock (fd, some e, log) = (fd, some e, log)
  unblock (fd, none, log) =
      let (_, log₁) = perform k (close_on_exec fd) log in
      let (r, log₂) = perform k (set_nonblock fd) log₁ in unblocked fd r log₂

  -- The descriptor and the error number, before `os.NewSyscallError`.
  unfoldable pub sys_socket : Platform → Family → SockType → Proto → Log → ℤ × Option ℕ × Log
  sys_socket cloexec family sotype proto log =
      let (r, log₁) = perform k (socket family sotype true proto) log in opened r log₁
  sys_socket darwin family sotype proto log =
      let (r, log₁) = perform k (socket family sotype false proto) log in unblock (opened r log₁)

  -- What comes after the call of `sysSocket`: `body` is what follows the defer statement.
  abbrev pub use_socket : SockAddr → (ℤ → Step) → ℤ × Option ℕ × Log → Created × Log
  use_socket found body (fd, some e, log) =
      (record { fd = fd; net_addr = some found.addr; err = some (syscall_error "socket" e) }, log)
  use_socket found body (fd, none, log) =
      let (err, log₁) = body fd log in
      (
        record { fd = fd; net_addr = some found.addr; err = err },
        close_unless_in_progress k fd err log₁,
      )

  unfoldable pub create : Platform → SockType → Proto → SockAddr → (ℤ → Step) → Log → Created × Log
  create platform sotype proto found body log =
      use_socket found body (sys_socket platform found.family sotype proto log)

  abbrev pub set_options : ℤ → List SocketOption → Step
  set_options fd [] = return none
  set_options fd (o ∷ opts) = o.set_sock_opt fd o.opt >> set_options fd opts

  abbrev pub restrict_ipv6 : ℤ → SockAddr → Step
  restrict_ipv6 fd found =
      if is_inet6 found.family && found.ipv6only then set_ipv6_only k fd (pos 1) else return none

  module _ (net : Net) (platform : Platform) (backlog : ℤ) where
    -- `if …, err = Get…SockAddr(proto, addr); err != nil { return }`; the address that is returned with
    -- this error is left out.
    abbrev pub if_found : Result SockAddr → (SockAddr → Log → Created × Log) → Log → Created × Log
    if_found (error e) make log = (record { fd = pos 0; net_addr = none; err = some e }, log)
    if_found (ok found) make log = make found log

    -- `if passive`, in tcpSocket and udsSocket
    abbrev pub listen_or_connect : Bool → ℤ → Sockaddr → Step
    listen_or_connect true fd sa =
        syscall k "bind" (bind fd sa) >> syscall k "listen" (listen fd backlog)
    listen_or_connect false fd sa = syscall k "connect" (connect fd sa)

    abbrev pub tcp_body : Bool → List SocketOption → SockAddr → ℤ → Step
    tcp_body passive opts found fd =
        restrict_ipv6 fd found >> set_options fd opts >> listen_or_connect passive fd found.sa

    unfoldable pub tcp_socket : String → String → Bool → List SocketOption → Log → Created × Log
    tcp_socket proto addr passive opts log =
        if_found (get_tcp_sock_addr net proto addr)
          (λ found. create platform sock_stream ipproto_tcp found (tcp_body passive opts found)) log

    abbrev pub connect_or_bind : Bool → ℤ → Sockaddr → Step
    connect_or_bind true fd sa = syscall k "connect" (connect fd sa)
    connect_or_bind false fd sa = syscall k "bind" (bind fd sa)

    abbrev pub udp_body : Bool → List SocketOption → SockAddr → ℤ → Step
    udp_body connected opts found fd =
        restrict_ipv6 fd found
        >> syscall k "setsockopt" (setsockopt fd so_broadcast (int (pos 1)))
        >> set_options fd opts
        >> connect_or_bind connected fd found.sa

    unfoldable pub udp_socket : String → String → Bool → List SocketOption → Log → Created × Log
    udp_socket proto addr connected opts log =
        if_found (get_udp_sock_addr net proto addr)
          (λ found. create platform sock_dgram ipproto_udp found (udp_body connected opts found))
          log

    abbrev pub unix_body : Bool → List SocketOption → SockAddr → ℤ → Step
    unix_body passive opts found fd = set_options fd opts >> listen_or_connect passive fd found.sa

    unfoldable pub unix_socket : String → String → Bool → List SocketOption → Log → Created × Log
    unix_socket proto addr passive opts log =
        if_found (get_unix_sock_addr net proto addr)
          (λ found. create platform sock_stream ipproto_none found (unix_body passive opts found))
          log
