-- ===== src/Socket/Descriptors.antt =====
-- Which descriptors are open after some calls, and what the socket functions leave open.
use gtcp.Prelude.{
  ℕ, ◌≡◌, ◌≢◌, ◌==◌, arith, refl, ap, ◌∙◌, Bool, true, false, Option, none, some, List, [], ◌∷◌,
  if◌then◌else◌,
}
use gtcp.Prelude.Int.{ℤ, pos}
use gtcp.ConnMatrix.{same_fd}
use gtcp.ConnMatrix.Lookup.{same_fd_self}
use gtcp.Socket.{
  Family, SockType, Proto, Addr, Call, socket, close_on_exec, set_nonblock, close, Reply, done,
  failed, Log, SockError, einprogress, in_progress, Kernel, Step, ◌>>◌, perform,
}
use gtcp.Socket.Ip.{SockAddr}
use gtcp.Socket.Options.{SocketOption}
use gtcp.Socket.Create.{
  Platform, cloexec, darwin, Created, sys_socket, create, opened, unblocked, unblock, use_socket,
  close_unless_in_progress, set_options,
}

abbrev pub without : ℤ → List ℤ → List ℤ
without fd [] = []
without fd (x ∷ xs) = if same_fd x fd then xs else x ∷ without fd xs

-- close(2) frees the number, whatever it returns.
abbrev pub open_fds : Log → List ℤ
open_fds [] = []
open_fds ((socket f t flags p, done n) ∷ log) = pos n ∷ open_fds log
open_fds ((close fd, r) ∷ log) = without fd (open_fds log)
open_fds (e ∷ log) = open_fds log

-- What is open when a socket function has returned `c`, if `before` was open when it was called.
abbrev pub held : Created → List ℤ → List ℤ
held c before = elim c.err [
  | none ↦ c.fd ∷ before
  | some e ↦ if in_progress e then c.fd ∷ before else before
]

abbrev pub Leaves : Log → Created × Log → Type 0
Leaves old out = open_fds out.1 ≡ held out.0 (open_fds old)

abbrev pub Keeps : Step → Type 0
Keeps s = (log : Log) → open_fds (s log).1 ≡ open_fds log

abbrev pub KeepAll : List SocketOption → Type 0
KeepAll [] = Unit
KeepAll (o ∷ opts) = ((fd : ℤ) → Keeps (o.set_sock_opt fd o.opt)) × KeepAll opts

pub first-Keeps : (first second : Step) → Keeps first → Keeps second → Keeps (first >> second)
first-Keeps first second one two log =
    elim (first log).0
      as (λ e.
        open_fds
          (elim e as (λ x. Option SockError × Log) [
            | none ↦ second (first log).1
            | some e ↦ (some e, (first log).1)
          ]).1
        ≡ open_fds log) [ none ↦ two (first log).1 ∙ one log | some e ↦ one log ]

pub set_options-Keeps :
    (k : Kernel) (fd : ℤ) (opts : List SocketOption) → KeepAll opts → Keeps (set_options k fd opts)
set_options-Keeps k fd [] all log = refl
set_options-Keeps k fd (o ∷ opts) (one, all) log =
    first-Keeps (o.set_sock_opt fd o.opt) (set_options k fd opts) (one fd)
      (set_options-Keeps k fd opts all) log

pub without_self : (fd : ℤ) (xs : List ℤ) → without fd (fd ∷ xs) ≡ xs
without_self fd xs = rw (same_fd_self fd) refl

-- What `sysSocket` returns, and what it leaves open.
abbrev Socketed : Log → ℤ × Option ℕ × Log → Type 0
Socketed old (fd, none, log) = open_fds log ≡ fd ∷ open_fds old
Socketed old (fd, some e, log) = (open_fds log ≡ open_fds old) × (e ≢ einprogress)

opened-Socketed :
    (k : Kernel) (old : Log) (f : Family) (t : SockType) (flags : Bool) (p : Proto) (r : Reply)
    → r ≢ failed einprogress
    → Socketed old (opened k r ((socket f t flags p, r) ∷ old))
opened-Socketed k old f t flags p (done n) other = refl
opened-Socketed k old f t flags p (failed e) other = (refl, λ same. other (ap failed same))

unblocked-Socketed :
    (k : Kernel) (old log : Log) (fd : ℤ) (r : Reply)
    → open_fds log ≡ fd ∷ open_fds old
    → r ≢ failed einprogress
    → Socketed old (unblocked k fd r ((set_nonblock fd, r) ∷ log))
unblocked-Socketed k old log fd (done n) was_open other = was_open
unblocked-Socketed k old log fd (failed e) was_open other =
    (ap (without fd) was_open ∙ without_self fd (open_fds old), λ same. other (ap failed same))

unblock-Socketed :
    (k : Kernel) (old : Log) (out : ℤ × Option ℕ × Log)
    → Socketed old out
    → Socketed old (unblock k out)
unblock-Socketed k old (fd, some e, log) out = out
unblock-Socketed k old (fd, none, log) was_open =
    let log₁ : Log = (close_on_exec fd, k.answer log (close_on_exec fd)) ∷ log in
    unblocked-Socketed k old log₁ fd (k.answer log₁ (set_nonblock fd)) was_open
      (k.answer-set_nonblock log₁ fd)

sys_socket-Socketed :
    (k : Kernel) (platform : Platform) (f : Family) (t : SockType) (p : Proto) (old : Log)
    → Socketed old (sys_socket k platform f t p old)
unfolding sys_socket
sys_socket-Socketed k cloexec f t p old =
    opened-Socketed k old f t true p (k.answer old (socket f t true p))
      (k.answer-socket old f t true p)
sys_socket-Socketed k darwin f t p old =
    let call : Call = socket f t false p in
    let log : Log = (call, k.answer old call) ∷ old in
    unblock-Socketed k old (opened k (k.answer old call) log)
      (opened-Socketed k old f t false p (k.answer old call) (k.answer-socket old f t false p))

closed_lem :
    (k : Kernel) (fd : ℤ) (addr : Option Addr) (err : Option SockError) (log : Log)
    (before : List ℤ)
    → open_fds log ≡ fd ∷ before
    → open_fds (close_unless_in_progress k fd err log)
      ≡ held (record { fd = fd; net_addr = addr; err = err }) before
closed_lem k fd addr none log before was_open = was_open
closed_lem k fd addr (some e) log before was_open =
    elim (in_progress e)
      as (λ b.
        open_fds (if b then log else (perform k (close fd) log).1)
        ≡ (if b then fd ∷ before else before)) [
          | true ↦ was_open
          | false ↦ ap (without fd) was_open ∙ without_self fd before
        ]

use_socket_lem :
    (k : Kernel) (found : SockAddr) (body : ℤ → Step) (old : Log) (out : ℤ × Option ℕ × Log)
    → Socketed old out
    → ((fd : ℤ) → Keeps (body fd))
    → open_fds (use_socket k found body out).1 ≡ held (use_socket k found body out).0 (open_fds old)
use_socket_lem k found body old (fd, some e, log) (same, other) keeps =
    let no : e == einprogress ≡ false = ground arith in rw no same
use_socket_lem k found body old (fd, none, log) was_open keeps =
    closed_lem k fd (some found.addr) (body fd log).0 (body fd log).1 (open_fds old)
      (keeps fd log ∙ was_open)

-- For any step after the socket has been made that keeps the descriptors.
pub create_lem :
    (k : Kernel) (platform : Platform) (t : SockType) (p : Proto) (found : SockAddr)
    (body : ℤ → Step) (log : Log)
    → ((fd : ℤ) → Keeps (body fd))
    → open_fds (create k platform t p found body log).1
      ≡ held (create k platform t p found body log).0 (open_fds log)
unfolding create
create_lem k platform t p found body log keeps =
    use_socket_lem k found body log (sys_socket k platform found.family t p log)
      (sys_socket-Socketed k platform found.family t p log) keeps
