-- ===== src/Socket.antt =====
-- internal/socket: the system calls behind a socket, and the errors. What the kernel has been asked so
-- far, and what it answered, is the state; its next answer may depend on all of it.
pub mod Ip
pub mod ToAddr
pub mod Decimal
pub mod Options
pub mod Create
pub mod Descriptors
pub mod Leaks
pub mod Keeps
pub mod KeepAlive
pub mod Calls
mod Tests
use gtcp.Prelude.{ℕ, ◌≢◌, Bool, false, ◌==◌, Option, none, some, List, [], ◌∷◌}
use gtcp.Prelude.Int.{ℤ, pos, negsuc}
use gtcp.Prelude.Text.{String}

pub data Family : Type 0 where
  af_inet af_inet6 af_unix : Family

pub data SockType : Type 0 where
  sock_stream sock_dgram : SockType

pub data Proto : Type 0 where
  ipproto_none ipproto_tcp ipproto_udp : Proto

-- `unix.SockaddrInet4`, `unix.SockaddrInet6` and `unix.SockaddrUnix`.
pub data Sockaddr : Type 0 where
  inet4 : (addr : List ℕ) (port : ℤ) → Sockaddr
  inet6 : (addr : List ℕ) (port : ℤ) (zone_id : ℕ) → Sockaddr
  unix_name : String → Sockaddr

-- `net.TCPAddr` and `net.UDPAddr`; an IP is a slice of bytes, nil is [].
-- The zone is the bytes of a string.
pub record IpAddr : Type 0 where
  pub ip : List ℕ
  pub port : ℤ
  pub zone : List ℕ

-- `net.Addr`
pub data Addr : Type 0 where
  tcp_addr udp_addr : IpAddr → Addr
  unix_addr : String → Addr

pub data SockOpt : Type 0 where
  so_reuseport so_reuseaddr so_rcvbuf so_sndbuf so_broadcast so_keepalive so_linger : SockOpt
  tcp_nodelay tcp_keepintvl tcp_keepidle tcp_keepalive ipv6_v6only : SockOpt
  ip_multicast_if ip_multicast_loop ip_add_membership : SockOpt
  ipv6_multicast_if ipv6_multicast_loop ipv6_join_group : SockOpt

pub data OptValue : Type 0 where
  int : ℤ → OptValue
  linger : (onoff : ℕ) (sec : ℤ) → OptValue
  inet4_addr : List ℕ → OptValue
  ip_mreq : (multiaddr : List ℕ) (interface : List ℕ) → OptValue
  ipv6_mreq : (multiaddr : List ℕ) (interface : ℕ) → OptValue

-- `nonblock_cloexec` stands for the flags SOCK_NONBLOCK and SOCK_CLOEXEC.
pub data Call : Type 0 where
  socket : Family → SockType → (nonblock_cloexec : Bool) → Proto → Call
  setsockopt : (fd : ℤ) → SockOpt → OptValue → Call
  bind connect : (fd : ℤ) → Sockaddr → Call
  listen : (fd : ℤ) (backlog : ℤ) → Call
  close_on_exec set_nonblock close : (fd : ℤ) → Call
  remove_all : String → Call

-- `done n` is success; of its n only that of socket(2) is used.
pub data Reply : Type 0 where
  done failed : ℕ → Reply

pub done-ne-failed : (n e : ℕ) → done n ≢ failed e
done-ne-failed n e h = cc

-- The last call first.
abbrev pub Log : Type 0
Log = List (Call × Reply)

pub data SockError : Type 0 where
  unsupported_protocol unsupported_tcp_protocol unsupported_udp_protocol : SockError
  unsupported_uds_protocol no_ipv4_address_on_interface invalid_time_duration : SockError
  -- what package net returns
  net_error : SockError
  -- `net.AddrError`
  addr_error : String → SockError
  -- `os.SyscallError`
  syscall_error : String → ℕ → SockError
  errno : ℕ → SockError

pub data Result {ℓ} (A : Type ℓ) : Type ℓ where
  ok : A → Result A
  error : SockError → Result A

infixl 5 ◌>>=◌
abbrev pub ◌>>=◌ {ℓ κ} : {A : Type ℓ} {B : Type κ} → Result A → (A → Result B) → Result B
ok a >>= f = f a
error e >>= f = error e

-- The number of Linux, which stands for that of each platform.
abbrev pub einprogress : ℕ
einprogress = 115

-- `err, ok := err.(*os.SyscallError); ok && err.Err == unix.EINPROGRESS`
abbrev pub in_progress : SockError → Bool
in_progress (syscall_error name n) = n == einprogress
in_progress err = false

-- socket(2) and fcntl(2) never fail with EINPROGRESS.
pub record Kernel : Type 0 where
  pub answer : Log → Call → Reply
  pub answer-socket :
      (log : Log) (f : Family) (t : SockType) (flags : Bool) (p : Proto)
      → answer log (socket f t flags p) ≢ failed einprogress
  pub answer-set_nonblock : (log : Log) (fd : ℤ) → answer log (set_nonblock fd) ≢ failed einprogress

-- A step makes calls and ends with an error, or with none for nil.
abbrev pub Step : Type 0
Step = Log → Option SockError × Log

-- `if err = first; err != nil { return }`, then `second`
infixr 5 ◌>>◌
abbrev pub ◌>>◌ : Step → Step → Step
(first >> second) log =
    let (err, log') = first log in elim err [ none ↦ second log' | some e ↦ (some e, log') ]

abbrev pub return : Option SockError → Step
return err log = (err, log)

abbrev pub errno_of : Reply → Option SockError
errno_of (done n) = none
errno_of (failed n) = some (errno n)

-- `os.NewSyscallError(name, err)`, which is nil if err is nil
abbrev pub syscall_error_of : String → Reply → Option SockError
syscall_error_of name (done n) = none
syscall_error_of name (failed n) = some (syscall_error name n)

module _ (k : Kernel) where
  abbrev pub perform : Call → Log → Reply × Log
  perform c log = let r = k.answer log c in (r, (c, r) ∷ log)

  -- A call whose error is returned as it is.
  abbrev pub raw : Call → Step
  raw c log = let (r, log') = perform c log in (errno_of r, log')

  abbrev pub syscall : String → Call → Step
  syscall name c log = let (r, log') = perform c log in (syscall_error_of name r, log')
