-- ===== src/Socket/Ip/Laws.antt =====
-- Reading an address back from the `Sockaddr` that was made of it.
use gtcp.Prelude.{
  ℕ, ◌%◌, ◌^◌, ◌<◌, ◌≡◌, ◌≢◌, refl, sym, ap, ap₂, ◌∙◌, true, false, ◌==◌, inl, inr, Bool-cases,
  none, some, List, [], ◌∷◌, ◌++◌, append-nil, arith, length, length-drop,
}
use gtcp.Prelude.Slices.{copy, take_all, drop_all}
use gtcp.Prelude.Text.{String}
use gtcp.Alloc.{Alloc}
use gtcp.Socket.{af_inet, af_inet6, inet4, inet6, IpAddr, tcp_addr, ok}
use gtcp.Socket.Ip.{
  Net, SockAddr, to4, to16, ip_equal, equal_bytes, zeros4, zeros16, ipv4_zero, determine_tcp_proto,
  ip_to_sockaddr_inet4, ip_to_sockaddr_inet6, tcp_sock_addr, get_tcp_sock_addr, is_nil,
}
use gtcp.Socket.ToAddr.{ip6_zone_to_string, sockaddr_to_tcp_or_unix_addr}

-- The zone of an IPv6 address is empty, or names an interface whose index fits 32 bits.
pub data KnownZone (net : Net) (zone : List ℕ) : Type 0 where
  no_zone : zone ≡ [] → net.interface_by_name zone ≡ none → KnownZone net zone
  interface :
      (index : ℕ)
      → net.interface_by_name zone ≡ some index
      → net.interface_by_index index ≡ some zone
      → 0 < index
      → index < 2 ^ 32
      → KnownZone net zone

-- `b` is what is left of `a` in a `Sockaddr`: of an IPv4 address the 4 bytes and the port.
pub data Shows (net : Net) (a : IpAddr) : IpAddr → Type 0 where
  v4 :
      (ip4 : List ℕ)
      → to4 a.ip ≡ some ip4
      → Shows net a (record { ip = ip4; port = a.port; zone = [] })
  v6 : to4 a.ip ≡ none → to16 a.ip ≡ some a.ip → KnownZone net a.zone → Shows net a a

copy_whole : (dst src : List ℕ) → length src ≡ length dst → copy dst src ≡ src
copy_whole dst src same_size =
    ap₂ (λ xs ys. xs ++ ys) (take_all (length dst) src (omega arith))
      (drop_all (length src) dst (omega arith))
    ∙ append-nil src

equal_bytes_lem : (xs ys : List ℕ) → equal_bytes xs ys ≡ true → xs ≡ ys
equal_bytes_lem [] [] h = refl
equal_bytes_lem [] (y ∷ ys) h = absurd (cc)
equal_bytes_lem (x ∷ xs) [] h = absurd (cc)
equal_bytes_lem (x ∷ xs) (y ∷ ys) h =
    let tail = equal_bytes_lem xs ys in
    let here : x ≡ y = ground arith in
    let rest : equal_bytes xs ys ≡ true = ground arith in ap₂ (λ z zs. z ∷ zs) here (tail rest)

length-to4 : (ip ip4 : List ℕ) → to4 ip ≡ some ip4 → length ip4 ≡ 4
unfolding to4
length-to4 ip ip4 h = ground (arith, length-drop 12 ip)

zero_is_ipv4 : to4 ipv4_zero ≢ none
unfolding to4
zero_is_ipv4 = λ h. cc

size_not_nil : (ip : List ℕ) → length ip ≡ 16 → is_nil ip ≡ false
size_not_nil [] h = absurd (omega arith)
size_not_nil (b ∷ bs) h = refl

some_not_nil : (ip ip4 : List ℕ) → to4 ip ≡ some ip4 → is_nil ip ≡ false
unfolding to4
some_not_nil [] ip4 h = absurd (cc)
some_not_nil (b ∷ bs) ip4 h = refl

-- Only the IPv4 address 0.0.0.0 is equal to `net.IPv4zero`, and it is not nil.
module _ (ip : List ℕ) (not4 : to4 ip ≡ none) (is16 : to16 ip ≡ some ip) where
  length16 : length ip ≡ 16
  unfolding to4 to16
  length16 = ground arith

  not_zero : ip_equal ip ipv4_zero ≡ false
  unfolding ip_equal
  not_zero = elim (Bool-cases (equal_bytes ip ipv4_zero)) [
    | inr differs ↦ rw (length16, differs) refl
    | inl same_bytes ↦
        absurd (zero_is_ipv4 (sym (ap to4 (equal_bytes_lem ip ipv4_zero same_bytes)) ∙ not4))
  ]

  not_nil : is_nil ip ≡ false
  not_nil = size_not_nil ip length16

-- The zone id, and that it is read back.
record ReadsZone (net : Net) (alloc : Alloc) (a : IpAddr) : Type 0 where
  zone_id : ℕ
  result : ip_to_sockaddr_inet6 net a.ip a.port a.zone ≡ ok (inet6 a.ip a.port zone_id)
  read_back : ip6_zone_to_string net alloc zone_id ≡ some a.zone

inet6-ReadsZone :
    (net : Net) (alloc : Alloc) (a : IpAddr)
    → to4 a.ip ≡ none
    → to16 a.ip ≡ some a.ip
    → KnownZone net a.zone
    → ReadsZone net alloc a
unfolding ip_to_sockaddr_inet6 ip6_zone_to_string
inet6-ReadsZone net alloc a not4 is16 (no_zone empty unknown) = record {
  zone_id = 0;
  result =
      rw
        (
          not_nil a.ip not4 is16,
          not_zero a.ip not4 is16,
          is16,
          unknown,
          copy_whole zeros16 a.ip (length16 a.ip not4 is16),
          ip_to_sockaddr_inet6,
        )
        refl;
  read_back = ap some (sym empty);
}
inet6-ReadsZone net alloc a not4 is16 (interface index by_name by_index positive small) =
    let whole : index % 2 ^ 32 ≡ index = omega arith in
    let not_0 : (index == 0) ≡ false = ground arith in
    record {
      zone_id = index;
      result =
          rw
            (
              not_nil a.ip not4 is16,
              not_zero a.ip not4 is16,
              is16,
              by_name,
              copy_whole zeros16 a.ip (length16 a.ip not4 is16),
              whole,
              ip_to_sockaddr_inet6,
            )
            refl;
      read_back = rw (not_0, by_index, ip6_zone_to_string) refl;
    }

module _ (proto : String) (a : IpAddr) where
  tcp4_lem : (ip4 : List ℕ) → to4 a.ip ≡ some ip4 → determine_tcp_proto proto a ≡ ok "tcp4"
  unfolding determine_tcp_proto
  tcp4_lem ip4 is4 = rw (is4, determine_tcp_proto) refl

  tcp6_lem : to4 a.ip ≡ none → to16 a.ip ≡ some a.ip → determine_tcp_proto proto a ≡ ok "tcp6"
  unfolding determine_tcp_proto
  tcp6_lem not4 is16 = rw (not4, is16, determine_tcp_proto) refl

module _ (net : Net) (a : IpAddr) where
  tcp4_sa :
      (ip4 : List ℕ)
      → to4 a.ip ≡ some ip4
      → tcp_sock_addr net "tcp4" a
        ≡ ok (record {
          sa = inet4 ip4 a.port;
          family = af_inet;
          addr = tcp_addr a;
          ipv6only = false;
        })
  unfolding tcp_sock_addr ip_to_sockaddr_inet4
  tcp4_sa ip4 is4 =
      let has_4 : is_nil a.ip ≡ false = some_not_nil a.ip ip4 is4 in
      rw (has_4, is4, copy_whole zeros4 ip4 (length-to4 a.ip ip4 is4), ip_to_sockaddr_inet4) refl

  tcp6_sa :
      (zone_id : ℕ)
      → ip_to_sockaddr_inet6 net a.ip a.port a.zone ≡ ok (inet6 a.ip a.port zone_id)
      → tcp_sock_addr net "tcp6" a
        ≡ ok (record {
          sa = inet6 a.ip a.port zone_id;
          family = af_inet6;
          addr = tcp_addr a;
          ipv6only = true;
        })
  unfolding tcp_sock_addr
  tcp6_sa zone_id h = rw h refl

-- For a resolved address that is an IPv4 address, or an IPv6 address of 16 bytes whose zone is
-- empty, which names no interface, or names one with an index above 0 and below 2 ^ 32 that
-- leads back to the name: whatever the TCP network, `GetTCPSockAddr` succeeds, and
-- `SockaddrToTCPOrUnixAddr` reads the same address and port back from the `Sockaddr`, an IPv4
-- address in its 4 bytes and without a zone.
pub tcp_addr_round_trip :
    (net : Net) (alloc : Alloc) (proto addr : String) (a b : IpAddr)
    → net.resolve_tcp_addr proto addr ≡ some a
    → Shows net a b
    → (found : SockAddr) × (get_tcp_sock_addr net proto addr ≡ ok found)
      × (found.addr ≡ tcp_addr a)
      × (sockaddr_to_tcp_or_unix_addr net alloc found.sa ≡ some (some (tcp_addr b)))
unfolding get_tcp_sock_addr
tcp_addr_round_trip net alloc proto addr a b e (v4 ip4 is4) = (
  record { sa = inet4 ip4 a.port; family = af_inet; addr = tcp_addr a; ipv6only = false },
  rw (e, tcp4_lem proto a ip4 is4, tcp4_sa net a ip4 is4) refl,
  refl,
  refl,
)
tcp_addr_round_trip net alloc proto addr a b e (v6 not4 is16 zone) =
    let run = inet6-ReadsZone net alloc a not4 is16 zone in
    (
      record {
        sa = inet6 a.ip a.port run.zone_id;
        family = af_inet6;
        addr = tcp_addr a;
        ipv6only = true;
      },
      rw (e, tcp6_lem proto a not4 is16, tcp6_sa net a run.zone_id run.result) refl,
      refl,
      rw (run.read_back, sockaddr_to_tcp_or_unix_addr) refl,
    )
