-- ===== src/Socket/KeepAlive.antt =====
-- `SetKeepAlivePeriod` on Darwin (sockopts_darwin.go).
use gtcp.Prelude.{◌≡◌, refl, ap, ◌∷◌, some, if◌then◌else◌}
use gtcp.Prelude.Int.{ℤ, pos, leb_ℤ}
use gtcp.Socket.{
  Kernel, Step, Log, Reply, done, failed, Call, ◌>>◌, return, syscall, syscall_error_of, setsockopt,
  int, so_keepalive, tcp_keepintvl, tcp_keepalive, invalid_time_duration,
}
use gtcp.Socket.Options.{set_keep_alive_period_darwin, unless_unsupported}

-- The three calls, each of which must succeed.
abbrev pub strict_keep_alive : Kernel → ℤ → ℤ → Step
strict_keep_alive k fd secs =
    if leb_ℤ secs (pos 0)
    then return (some invalid_time_duration)
    else syscall k "setsockopt" (setsockopt fd so_keepalive (int (pos 1)))
      >> syscall k "setsockopt" (setsockopt fd tcp_keepintvl (int secs))
      >> syscall k "setsockopt" (setsockopt fd tcp_keepalive (int secs))

never_unsupported :
    (k : Kernel) (c : Call) (second : Step) (log : Log) (r : Reply)
    → unless_unsupported k (λ l. (syscall_error_of "setsockopt" r, (c, r) ∷ log)) second log
      ≡ ((λ l. (syscall_error_of "setsockopt" r, (c, r) ∷ log)) >> second) log
never_unsupported k c second log (done n) = refl
never_unsupported k c second log (failed e) = refl

-- On Darwin `SetKeepAlivePeriod` does what it would without the case for ENOPROTOOPT: it
-- returns the error of the first of the three setsockopt calls that fails, whatever this error
-- is.
pub keep_alive_darwin_lem :
    (k : Kernel) (fd secs : ℤ) (log : Log)
    → set_keep_alive_period_darwin k fd secs log ≡ strict_keep_alive k fd secs log
unfolding set_keep_alive_period_darwin
keep_alive_darwin_lem k fd secs log =
    let on : Call = setsockopt fd so_keepalive (int (pos 1)) in
    let interval : Call = setsockopt fd tcp_keepintvl (int secs) in
    let last : Step = syscall k "setsockopt" (setsockopt fd tcp_keepalive (int secs)) in
    let every : unless_unsupported k (syscall k "setsockopt" interval) last
        ≡ (syscall k "setsockopt" interval >> last) =
      λ i l. never_unsupported k interval last l (k.answer l interval) i in
    ap
      (λ rest.
        (if leb_ℤ secs (pos 0)
            then return (some invalid_time_duration)
            else syscall k "setsockopt" on >> rest)
          log)
      every
