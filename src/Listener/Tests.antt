-- ===== src/Listener/Tests.antt =====
-- A listener on small inputs.
use gtcp.Prelude.{◌≡◌, refl, true, false, Option, none, some, [], ◌∷◌, if◌then◌else◌}
use gtcp.Prelude.Int.{ℤ, pos, ltb_ℤ}
use gtcp.Options.{Options, new_options}
use gtcp.Socket.{
  IpAddr, inet4, tcp_addr, af_inet, sock_stream, ipproto_tcp, Kernel, Log, Reply, done, failed,
  Call, SockError, socket, bind, done-ne-failed, einprogress,
}
use gtcp.Socket.Ip.{
  Net, SockAddr, get_tcp_sock_addr, to4, determine_tcp_proto, tcp_sock_addr, ip_to_sockaddr_inet4,
}
use gtcp.Socket.Options.{InterfaceAddrs, no_interface}
use gtcp.Socket.Create.{cloexec, darwin, tcp_socket, create, sys_socket}
use gtcp.Socket.Descriptors.{open_fds, Leaves}
use gtcp.Socket.Calls.{calls, recorded, tcp_calls}
use gtcp.Listener.{Listener, close_listener, init_listener, normalize, listener_options}
use gtcp.Listener.Close.{made, init_listener_lem, listener_close_lem}
use gtcp.Listener.Calls.{option_calls, init_listener_calls}

abbrev granted : Log → Call → Reply
granted log c = done 3

-- Everything is granted, and the new descriptor is 3.
abbrev grants : Kernel
grants = record {
  answer = granted;
  answer-socket = λ log f t flags p. done-ne-failed 3 einprogress;
  answer-set_nonblock = λ log fd. done-ne-failed 3 einprogress;
}

-- The address is in use.
abbrev in_use : Log → Call → Reply
in_use log (bind fd sa) = failed 98
in_use log c = done 3

abbrev refuses : Kernel
refuses = record {
  answer = in_use;
  answer-socket = λ log f t flags p. done-ne-failed 3 einprogress;
  answer-set_nonblock = λ log fd. done-ne-failed 3 einprogress;
}

abbrev local : IpAddr
local = record { ip = 127 ∷ 0 ∷ 0 ∷ 1 ∷ []; port = pos 80; zone = [] }

abbrev host : Net
host = record {
  resolve_tcp_addr = λ proto addr. some local;
  resolve_udp_addr = λ proto addr. some local;
  resolve_unix_addr = λ proto addr. none;
  interface_by_name = λ name. none;
  interface_by_index = λ index. none;
}

abbrev interfaces : ℤ → InterfaceAddrs
interfaces index = no_interface

abbrev options : Options
options = record new_options { reuse_port = true; socket_recv_buffer = pos 4096 }

init_listener_lem_example :
    Leaves [] (
      made (init_listener refuses host darwin (pos 128) interfaces "tcp" "localhost:80" options []))
init_listener_lem_example =
    init_listener_lem refuses host darwin (pos 128) interfaces "tcp" "localhost:80" options []

-- The descriptor that could not be bound is closed.
refused_closed :
    open_fds
      (init_listener refuses host darwin (pos 128) interfaces "tcp" "localhost:80" options []).2
    ≡ []
unfolding init_listener normalize listener_options tcp_socket get_tcp_sock_addr determine_tcp_proto
    to4 tcp_sock_addr ip_to_sockaddr_inet4 create sys_socket
refused_closed = refl

abbrev at_80 : Listener × Option SockError × Log
at_80 = init_listener grants host cloexec (pos 128) interfaces "tcp" "localhost:80" options []

listener_close_lem_example :
    (open_fds (close_listener grants at_80.0 at_80.2).1
      ≡ (if ltb_ℤ (pos 0) at_80.0.fd then open_fds [] else at_80.0.fd ∷ open_fds []))
    × (close_listener grants (close_listener grants at_80.0 at_80.2).0 []
        ≡ ((close_listener grants at_80.0 at_80.2).0, []))
unfolding init_listener normalize listener_options tcp_socket get_tcp_sock_addr determine_tcp_proto
    to4 tcp_sock_addr ip_to_sockaddr_inet4 create sys_socket
listener_close_lem_example =
    listener_close_lem grants host cloexec (pos 128) interfaces "tcp" "localhost:80" options [] []
      refl

abbrev found : SockAddr
found = record {
  sa = inet4 local.ip (pos 80);
  family = af_inet;
  addr = tcp_addr local;
  ipv6only = false;
}

init_listener_calls_example :
    calls at_80.2
    ≡ recorded
        (socket af_inet sock_stream true ipproto_tcp
          ∷ tcp_calls (pos 128) found (option_calls options at_80.0.fd) at_80.0.fd)
        []
unfolding init_listener normalize listener_options tcp_socket get_tcp_sock_addr determine_tcp_proto
    to4 tcp_sock_addr ip_to_sockaddr_inet4 create sys_socket
init_listener_calls_example =
    init_listener_calls grants host (pos 128) interfaces "tcp" "localhost:80" options [] found
      (record { known = refl; tcp_prefix = refl; udp_prefix = refl }) refl refl
