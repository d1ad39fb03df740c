-- ===== src/Socket/Keeps.antt =====
-- The setters and the open descriptors.
use gtcp.Prelude.{ℕ, refl, Bool, true, false, Option, none, some, List, [], ◌∷◌, if_lem}
use gtcp.Prelude.Int.{ℤ, pos, ltb_ℤ}
use gtcp.Prelude.Text.{String, same}
use gtcp.Socket.{IpAddr, SockOpt, OptValue, setsockopt, Result, ok, error, Kernel, syscall}
use gtcp.Socket.Ip.{determine_udp_proto}
use gtcp.Socket.Options.{
  Setter, InterfaceAddrs, join_ipv4, join_ipv4_if, interface_first_ipv4_addr,
  set_ipv4_multicast_membership, set_ipv6_multicast_membership, set_multicast_membership,
  membership, join_group, ipv4_group, ipv6_group,
}
use gtcp.Socket.Descriptors.{Keeps, first-Keeps}

-- nil is no setter.
abbrev pub SetterKeeps : Option Setter → Type 0
SetterKeeps none = Unit
SetterKeeps (some set) = (fd value : ℤ) → Keeps (set fd value)

join_group-Keeps :
    (k : Kernel) (asked : Bool) (fd : ℤ) (opts : List (SockOpt × OptValue))
    → Keeps (join_group k asked fd opts)
join_group-Keeps k asked fd [] log = refl
join_group-Keeps k true fd ((opt, value) ∷ opts) log =
    first-Keeps (syscall k "setsockopt" (setsockopt fd opt value)) (join_group k true fd opts)
      (λ log. refl) (join_group-Keeps k true fd opts) log
join_group-Keeps k false fd ((opt, value) ∷ opts) log = join_group-Keeps k true fd opts log

module _ (k : Kernel) (interfaces : ℤ → InterfaceAddrs) where
  join_ipv4-Keeps :
      (mcast : List ℕ) (fd if_index : ℤ) (ip : Result (List ℕ))
      → Keeps (join_ipv4_if k interfaces fd mcast if_index ip)
  unfolding join_ipv4
  join_ipv4-Keeps mcast fd if_index (error e) = λ log. refl
  join_ipv4-Keeps mcast fd if_index (ok ip) =
      join_group-Keeps k (ltb_ℤ (pos 0) if_index) fd (ipv4_group mcast ip)

  membership-SetterKeeps :
      (ip : List ℕ) (version : Result String) → SetterKeeps (membership k interfaces ip version)
  unfolding set_ipv4_multicast_membership set_ipv6_multicast_membership
  membership-SetterKeeps ip (error e) = tt
  membership-SetterKeeps ip (ok version) =
      let four : SetterKeeps
          (some (λ fd if_index. set_ipv4_multicast_membership k interfaces fd ip if_index)) =
        λ fd if_index.
          join_ipv4-Keeps ip fd if_index (interface_first_ipv4_addr k interfaces if_index) in
      let six : SetterKeeps
          (some (λ fd if_index. set_ipv6_multicast_membership k interfaces fd ip if_index)) =
        λ fd if_index. join_group-Keeps k (ltb_ℤ (pos 0) if_index) fd (ipv6_group ip if_index) in
      if_lem SetterKeeps (same version "udp4") _ _ four
        (if_lem SetterKeeps (same version "udp6") _ none six tt)

  pub set_multicast_membership-SetterKeeps :
      (proto : String) (addr : IpAddr)
      → SetterKeeps (set_multicast_membership k interfaces proto addr)
  unfolding set_multicast_membership
  set_multicast_membership-SetterKeeps proto addr =
      membership-SetterKeeps addr.ip (determine_udp_proto proto addr)
