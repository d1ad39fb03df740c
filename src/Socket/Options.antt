-- ===== src/Socket/Options.antt =====
-- The setters of sockopts_posix.go, sockopts_unix.go and sockopts_darwin.go in internal/socket.
use gtcp.Prelude.{
  ℕ, ◌%◌, ◌^◌, ◌==◌, Bool, true, false, Option, none, some, List, [], ◌∷◌, if◌then◌else◌,
}
use gtcp.Prelude.Int.{ℤ, pos, negsuc, ltb_ℤ, leb_ℤ}
use gtcp.Prelude.Text.{String, same}
use gtcp.Framing.{pattern32_of, int32_of}
use gtcp.Socket.{
  IpAddr, SockOpt, so_reuseport, so_reuseaddr, so_rcvbuf, so_sndbuf, so_keepalive, so_linger,
  tcp_nodelay, tcp_keepintvl, tcp_keepidle, tcp_keepalive, ipv6_v6only, ip_multicast_if,
  ip_multicast_loop, ip_add_membership, ipv6_multicast_if, ipv6_multicast_loop, ipv6_join_group,
  OptValue, int, linger, inet4_addr, ip_mreq, ipv6_mreq, setsockopt, SockError,
  no_ipv4_address_on_interface, invalid_time_duration, net_error, errno, Result, ok, error, Kernel,
  Step, ◌>>◌, return, raw, syscall,
}
use gtcp.Socket.Ip.{to4, to16, zeros4, zeros16, copied, determine_udp_proto}

-- `func(int, int) error`: a descriptor and a value.
abbrev pub Setter : Type 0
Setter = ℤ → ℤ → Step

pub record SocketOption : Type 0 where
  pub set_sock_opt : Setter
  pub opt : ℤ

-- What package net knows of the interfaces, by index: nothing, an error for the addresses, or the
-- addresses as `net.ParseCIDR` reads them, which may fail.
pub data InterfaceAddrs : Type 0 where
  no_interface no_addrs : InterfaceAddrs
  addrs : List (Option (List ℕ)) → InterfaceAddrs

abbrev first_ipv4 : List (Option (List ℕ)) → Result (List ℕ)
first_ipv4 [] = error no_ipv4_address_on_interface
first_ipv4 (none ∷ rest) = error net_error
first_ipv4 (some ip ∷ rest) =
    let found = first_ipv4 rest in elim (to4 ip) [ some ip4 ↦ ok ip | none ↦ found ]

abbrev is_zero : ℤ → Bool
is_zero (pos n) = n == 0
is_zero (negsuc n) = false

abbrev on_linger : ℤ → OptValue
on_linger (pos sec) = linger 1 (int32_of (sec % 2 ^ 32))
on_linger (negsuc n) = linger 0 (pos 0)

abbrev pub ipv4_group : List ℕ → List ℕ → List (SockOpt × OptValue)
ipv4_group mcast ip =
    (ip_multicast_if, inet4_addr (copied zeros4 (to4 ip)))
    ∷ (ip_multicast_loop, int (pos 0))
    ∷ (ip_add_membership, ip_mreq (copied zeros4 (to4 mcast)) (copied zeros4 (to4 ip)))
    ∷ []

abbrev pub ipv6_group : List ℕ → ℤ → List (SockOpt × OptValue)
ipv6_group mcast if_index =
    (ipv6_multicast_if, int if_index)
    ∷ (ipv6_multicast_loop, int (pos 0))
    ∷ (ipv6_join_group, ipv6_mreq (copied zeros16 (to16 mcast)) (pattern32_of if_index))
    ∷ []

-- `unix.ENOPROTOOPT` of Darwin
abbrev pub enoprotoopt : ℕ
enoprotoopt = 42

-- `err == unix.ENOPROTOOPT` for n
abbrev is_errno : ℕ → SockError → Bool
is_errno n (errno m) = m == n
is_errno n err = false

module _ (k : Kernel) where
  abbrev pub set_no_delay : Setter
  set_no_delay fd no_delay = syscall k "setsockopt" (setsockopt fd tcp_nodelay (int no_delay))

  abbrev pub set_recv_buffer : Setter
  set_recv_buffer fd size = raw k (setsockopt fd so_rcvbuf (int size))

  abbrev pub set_send_buffer : Setter
  set_send_buffer fd size = raw k (setsockopt fd so_sndbuf (int size))

  abbrev pub set_reuseport : Setter
  set_reuseport fd reuse_port = syscall k "setsockopt" (setsockopt fd so_reuseport (int reuse_port))

  abbrev pub set_reuse_addr : Setter
  set_reuse_addr fd reuse_addr =
      syscall k "setsockopt" (setsockopt fd so_reuseaddr (int reuse_addr))

  abbrev pub set_ipv6_only : Setter
  set_ipv6_only fd ipv6only = raw k (setsockopt fd ipv6_v6only (int ipv6only))

  abbrev pub set_linger : Setter
  set_linger fd sec = raw k (setsockopt fd so_linger (on_linger sec))

  unfoldable pub set_keep_alive_period : Setter
  set_keep_alive_period fd secs =
      if leb_ℤ secs (pos 0)
      then return (some invalid_time_duration)
      else syscall k "setsockopt" (setsockopt fd so_keepalive (int (pos 1)))
        >> syscall k "setsockopt" (setsockopt fd tcp_keepintvl (int secs))
        >> syscall k "setsockopt" (setsockopt fd tcp_keepidle (int secs))

  -- On Darwin: `switch err := os.NewSyscallError(…); err { case nil, unix.ENOPROTOOPT: … }`
  abbrev pub unless_unsupported : Step → Step → Step
  unless_unsupported first second log =
      let (err, log') = first log in
      elim err [
        | none ↦ second log'
        | some e ↦ if is_errno enoprotoopt e then second log' else (some e, log')
      ]

  unfoldable pub set_keep_alive_period_darwin : Setter
  set_keep_alive_period_darwin fd secs =
      if leb_ℤ secs (pos 0)
      then return (some invalid_time_duration)
      else syscall k "setsockopt" (setsockopt fd so_keepalive (int (pos 1)))
        >> unless_unsupported (syscall k "setsockopt" (setsockopt fd tcp_keepintvl (int secs)))
            (syscall k "setsockopt" (setsockopt fd tcp_keepalive (int secs)))

  -- The options of a membership: the interface, if one is asked for, the loop and the group.
  abbrev pub join_group : Bool → ℤ → List (SockOpt × OptValue) → Step
  join_group asked fd [] = return none
  join_group asked fd ((opt, value) ∷ opts) =
      if asked
      then syscall k "setsockopt" (setsockopt fd opt value) >> join_group true fd opts
      else join_group true fd opts

  module _ (interfaces : ℤ → InterfaceAddrs) where
    unfoldable pub interface_first_ipv4_addr : ℤ → Result (List ℕ)
    interface_first_ipv4_addr if_index =
        if is_zero if_index then ok zeros4 else elim (interfaces if_index) [
          | no_interface ↦ error net_error
          | no_addrs ↦ error net_error
          | addrs list ↦ first_ipv4 list
        ]

    -- With the interface's address found.
    unfoldable pub join_ipv4 : ℤ → List ℕ → ℤ → List ℕ → Step
    join_ipv4 fd mcast if_index ip = join_group (ltb_ℤ (pos 0) if_index) fd (ipv4_group mcast ip)

    abbrev pub join_ipv4_if : ℤ → List ℕ → ℤ → Result (List ℕ) → Step
    join_ipv4_if fd mcast if_index (error e) = return (some e)
    join_ipv4_if fd mcast if_index (ok ip) = join_ipv4 fd mcast if_index ip

    unfoldable pub set_ipv4_multicast_membership : ℤ → List ℕ → ℤ → Step
    set_ipv4_multicast_membership fd mcast if_index =
        join_ipv4_if fd mcast if_index (interface_first_ipv4_addr if_index)

    unfoldable pub set_ipv6_multicast_membership : ℤ → List ℕ → ℤ → Step
    set_ipv6_multicast_membership fd mcast if_index =
        join_group (ltb_ℤ (pos 0) if_index) fd (ipv6_group mcast if_index)

    -- The switch on the version; `none` for nil.
    abbrev pub membership : List ℕ → Result String → Option Setter
    membership ip (error e) = none
    membership ip (ok version) =
        if same version "udp4"
        then some (λ fd if_index. set_ipv4_multicast_membership fd ip if_index)
        else if same version "udp6"
        then some (λ fd if_index. set_ipv6_multicast_membership fd ip if_index)
        else none

    unfoldable pub set_multicast_membership : String → IpAddr → Option Setter
    set_multicast_membership proto addr = membership addr.ip (determine_udp_proto proto addr)
