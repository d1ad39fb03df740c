-- ===== src/Socket/Tests.antt =====
-- Addresses and options on small inputs.
use gtcp.Prelude.{
  ℕ, ◌-◌, ◌^◌, ◌==◌, ◌≡◌, refl, none, some, List, [], ◌∷◌, if◌then◌else◌, replicate,
  length-replicate, arith,
}
use gtcp.Prelude.Int.{pos}
use gtcp.Alloc.{Alloc}
use gtcp.Socket.{
  IpAddr, tcp_addr, Kernel, Log, Reply, done, failed, Call, setsockopt, ok, tcp_keepintvl,
  done-ne-failed, einprogress,
}
use gtcp.Socket.Ip.{Net, SockAddr, get_tcp_sock_addr, to4, to16}
use gtcp.Socket.ToAddr.{sockaddr_to_tcp_or_unix_addr}
use gtcp.Socket.Ip.Laws.{v6, interface, tcp_addr_round_trip}
use gtcp.Socket.Decimal.{decimal_loop, uint2decimal_str, Prints, uint2decimal_str_lem}
use gtcp.Socket.Options.{set_keep_alive_period_darwin, enoprotoopt}
use gtcp.Socket.KeepAlive.{strict_keep_alive, keep_alive_darwin_lem}

abbrev zeros : Alloc
zeros = record { get = λ n. replicate n 0; length-get = λ n. length-replicate n 0 }

abbrev max_zone : ℕ
max_zone = 2 ^ 32 - 1

uint2decimal_str_lem_example :
    (text : List ℕ) × (uint2decimal_str zeros max_zone ≡ some text) × Prints max_zone text
uint2decimal_str_lem_example = uint2decimal_str_lem zeros max_zone (omega arith)

prints_1056 : uint2decimal_str zeros 1056 ≡ some (49 ∷ 48 ∷ 53 ∷ 54 ∷ [])
unfolding uint2decimal_str decimal_loop
prints_1056 = refl

-- fe80::1%eth0, port 80; eth0 is the interface 2.
abbrev link_local : IpAddr
link_local = record {
  ip = 254 ∷ 128 ∷ 0 ∷ 0 ∷ 0 ∷ 0 ∷ 0 ∷ 0 ∷ 0 ∷ 0 ∷ 0 ∷ 0 ∷ 0 ∷ 0 ∷ 0 ∷ 1 ∷ [];
  port = pos 80;
  zone = 101 ∷ 116 ∷ 104 ∷ 48 ∷ [];
}

abbrev host : Net
host = record {
  resolve_tcp_addr = λ proto addr. some link_local;
  resolve_udp_addr = λ proto addr. none;
  resolve_unix_addr = λ proto addr. none;
  interface_by_name = λ name. some 2;
  interface_by_index = λ index. if index == 2 then some link_local.zone else none;
}

tcp_addr_round_trip_example :
    (found : SockAddr) × (get_tcp_sock_addr host "tcp" "[fe80::1%eth0]:80" ≡ ok found)
    × (found.addr ≡ tcp_addr link_local)
    × (sockaddr_to_tcp_or_unix_addr host zeros found.sa ≡ some (some (tcp_addr link_local)))
unfolding to4 to16
tcp_addr_round_trip_example =
    tcp_addr_round_trip host zeros "tcp" "[fe80::1%eth0]:80" link_local link_local refl
      (v6 refl refl (interface 2 refl refl (omega arith) (omega arith)))

-- A Darwin that does not support TCP_KEEPINTVL.
abbrev old_answer : Log → Call → Reply
old_answer log (setsockopt fd tcp_keepintvl value) = failed enoprotoopt
old_answer log c = done 3

abbrev old_darwin : Kernel
old_darwin = record {
  answer = old_answer;
  answer-socket = λ log f t flags p. done-ne-failed 3 einprogress;
  answer-set_nonblock = λ log fd. done-ne-failed 3 einprogress;
}

keep_alive_darwin_lem_example :
    set_keep_alive_period_darwin old_darwin (pos 3) (pos 60) []
    ≡ strict_keep_alive old_darwin (pos 3) (pos 60) []
keep_alive_darwin_lem_example = keep_alive_darwin_lem old_darwin (pos 3) (pos 60) []
