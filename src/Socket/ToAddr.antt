-- ===== src/Socket/ToAddr.antt =====
-- socktoaddr.go of internal/socket: a `Sockaddr` as an address of package net.
use gtcp.Prelude.{ℕ, ◌==◌, Option, none, some, List, [], if◌then◌else◌}
use gtcp.Prelude.Int.{ℤ}
use gtcp.Alloc.{Alloc}
use gtcp.Socket.{Sockaddr, inet4, inet6, unix_name, IpAddr, Addr, tcp_addr, udp_addr, unix_addr}
use gtcp.Socket.Ip.{Net}
use gtcp.Socket.Decimal.{uint2decimal_str}

module _ (net : Net) (alloc : Alloc) where
  -- `none` is a panic, as in `uint2decimal_str`.
  unfoldable pub ip6_zone_to_string : ℕ → Option (List ℕ)
  ip6_zone_to_string zone =
      let decimal = uint2decimal_str alloc zone in
      if zone == 0
      then some []
      else elim (net.interface_by_index zone) [ some name ↦ some name | none ↦ decimal ]

  abbrev zoned : (IpAddr → Addr) → List ℕ → ℤ → Option (List ℕ) → Option (Option Addr)
  zoned make ip port none = none
  zoned make ip port (some zone) = some (some (make (record { ip = ip; port = port; zone = zone })))

  -- In these two `some none` is nil, and `none` a panic.
  abbrev pub sockaddr_to_tcp_or_unix_addr : Sockaddr → Option (Option Addr)
  sockaddr_to_tcp_or_unix_addr (inet4 addr port) = zoned tcp_addr addr port (some [])
  sockaddr_to_tcp_or_unix_addr (inet6 addr port zone_id) =
      zoned tcp_addr addr port (ip6_zone_to_string zone_id)
  sockaddr_to_tcp_or_unix_addr (unix_name name) = some (some (unix_addr name))

  abbrev pub sockaddr_to_udp_addr : Sockaddr → Option (Option Addr)
  sockaddr_to_udp_addr (inet4 addr port) = zoned udp_addr addr port (some [])
  sockaddr_to_udp_addr (inet6 addr port zone_id) =
      zoned udp_addr addr port (ip6_zone_to_string zone_id)
  sockaddr_to_udp_addr (unix_name name) = some none
