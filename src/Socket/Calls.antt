-- ===== src/Socket/Calls.antt =====
-- The calls that a step makes when it ends without an error.
use gtcp.Prelude.{
  ◌≡◌, refl, sym, ap, ◌∙◌, Bool, true, false, Option, none, some, List, [], ◌∷◌, ◌++◌,
  if◌then◌else◌, ◌&&◌,
}
use gtcp.Prelude.Int.{ℤ, pos}
use gtcp.Prelude.Text.{String}
use gtcp.Socket.{
  ipv6_v6only, int, Call, setsockopt, bind, listen, Reply, done, failed, Log, SockError, Kernel,
  Step, ◌>>◌, return, raw, syscall,
}
use gtcp.Socket.Ip.{SockAddr, Net}
use gtcp.Socket.Options.{SocketOption, set_ipv6_only}
use gtcp.Socket.Create.{
  Platform, use_socket, opened, close_unless_in_progress, set_options, tcp_body, is_inet6,
  restrict_ipv6,
}

-- The calls, the last one first.
abbrev pub calls : Log → List Call
calls [] = []
calls ((c, r) ∷ log) = c ∷ calls log

-- With `cs`, in the order in which they are made, behind the calls before.
abbrev pub recorded : List Call → List Call → List Call
recorded [] before = before
recorded (c ∷ cs) before = recorded cs (c ∷ before)

abbrev pub call_if : Bool → Call → List Call
call_if wanted c = if wanted then c ∷ [] else []

recorded-append :
    (xs ys before : List Call) → recorded (xs ++ ys) before ≡ recorded ys (recorded xs before)
recorded-append [] ys before = refl
recorded-append (x ∷ xs) ys before = recorded-append xs ys (x ∷ before)

abbrev pub Makes : Step → List Call → Type 0
Makes s cs = (log : Log) → (s log).0 ≡ none → calls (s log).1 ≡ recorded cs (calls log)

pub syscall-Makes : (k : Kernel) (name : String) (c : Call) → Makes (syscall k name c) (c ∷ [])
syscall-Makes k name c log went = refl

pub raw-Makes : (k : Kernel) (c : Call) → Makes (raw k c) (c ∷ [])
raw-Makes k c log went = refl

pub return-Makes : Makes (return none) []
return-Makes log went = refl

then-Makes :
    (xs ys : List Call) (second : Step) (before : List Call) (out : Option SockError × Log)
    → (out.0 ≡ none → calls out.1 ≡ recorded xs before)
    → Makes second ys
    → ((return out.0 >> second) out.1).0 ≡ none
    → calls ((return out.0 >> second) out.1).1 ≡ recorded (xs ++ ys) before
then-Makes xs ys second before (none, log) one two went =
    two log went ∙ ap (recorded ys) (one refl) ∙ sym (recorded-append xs ys before)
then-Makes xs ys second before (some e, log) one two went = absurd (cc)

pub first-Makes :
    (first second : Step) (xs ys : List Call)
    → Makes first xs
    → Makes second ys
    → Makes (first >> second) (xs ++ ys)
first-Makes first second xs ys one two log =
    then-Makes xs ys second (calls log) (first log) (one log) two

>>_assoc : (a b c : Step) (log : Log) → ((a >> b) >> c) log ≡ (a >> (b >> c)) log
>>_assoc a b c log =
    elim (a log).0
      as (λ e. ((λ _. (return e >> b) (a log).1) >> c) log ≡ (return e >> (b >> c)) (a log).1) [
        | none ↦ refl
        | some e ↦ refl
      ]

set_options-append :
    (k : Kernel) (fd : ℤ) (xs ys : List SocketOption)
    → set_options k fd (xs ++ ys) ≡ set_options k fd xs >> set_options k fd ys
set_options-append k fd [] ys = refl
set_options-append k fd (x ∷ xs) ys =
    ap (λ s. x.set_sock_opt fd x.opt >> s) (set_options-append k fd xs ys) ∙ λ i log.
    sym (>>_assoc (x.set_sock_opt fd x.opt) (set_options k fd xs) (set_options k fd ys) log) i

pub append-Makes :
    (k : Kernel) (fd : ℤ) (xs ys : List SocketOption) (cs ds : List Call)
    → Makes (set_options k fd xs) cs
    → Makes (set_options k fd ys) ds
    → Makes (set_options k fd (xs ++ ys)) (cs ++ ds)
append-Makes k fd xs ys cs ds one two =
    rw (set_options-append k fd xs ys)
      (first-Makes (set_options k fd xs) (set_options k fd ys) cs ds one two)

pub one-Makes :
    (k : Kernel) (fd : ℤ) (o : SocketOption) (c : Call)
    → Makes (o.set_sock_opt fd o.opt) (c ∷ [])
    → Makes (set_options k fd (o ∷ [])) (c ∷ [])
one-Makes k fd o c one =
    first-Makes (o.set_sock_opt fd o.opt) (return none) (c ∷ []) [] one return-Makes

abbrev v6only_calls : ℤ → SockAddr → List Call
v6only_calls fd found =
    call_if (is_inet6 found.family && found.ipv6only) (setsockopt fd ipv6_v6only (int (pos 1)))

-- What the body of tcpSocket does to a passive socket.
abbrev pub tcp_calls : ℤ → SockAddr → List Call → ℤ → List Call
tcp_calls backlog found option_calls fd =
    v6only_calls fd found ++ (option_calls ++ (bind fd found.sa ∷ listen fd backlog ∷ []))

pub restrict_ipv6-Makes :
    (k : Kernel) (fd : ℤ) (found : SockAddr)
    → Makes (restrict_ipv6 k fd found) (v6only_calls fd found)
restrict_ipv6-Makes k fd found =
    elim (is_inet6 found.family && found.ipv6only)
      as (λ b.
        Makes (if b then set_ipv6_only k fd (pos 1) else return none)
          (call_if b (setsockopt fd ipv6_v6only (int (pos 1))))) [
            | true ↦ raw-Makes k (setsockopt fd ipv6_v6only (int (pos 1)))
            | false ↦ return-Makes
          ]

module _ (k : Kernel) (net : Net) (platform : Platform) (backlog : ℤ) where
  pub tcp_body-Makes :
      (opts : List SocketOption) (cs : List Call) (found : SockAddr) (fd : ℤ)
      → Makes (set_options k fd opts) cs
      → Makes (tcp_body k net platform backlog true opts found fd) (tcp_calls backlog found cs fd)
  tcp_body-Makes opts cs found fd sets =
      let b : Call = bind fd found.sa in
      let l : Call = listen fd backlog in
      let last : Step = syscall k "bind" b >> syscall k "listen" l in
      first-Makes (restrict_ipv6 k fd found) (set_options k fd opts >> last) (v6only_calls fd found)
        (cs ++ (b ∷ l ∷ [])) (restrict_ipv6-Makes k fd found)
        (first-Makes (set_options k fd opts) last cs (b ∷ l ∷ []) sets (
          first-Makes (syscall k "bind" b) (syscall k "listen" l) (b ∷ []) (l ∷ [])
            (syscall-Makes k "bind" b) (syscall-Makes k "listen" l)))

  closed_none :
      (fd : ℤ) (err : Option SockError) (log : Log)
      → err ≡ none
      → close_unless_in_progress k fd err log ≡ log
  closed_none fd none log went = refl
  closed_none fd (some e) log went = absurd (cc)

  pub use_socket_calls :
      (found : SockAddr) (body : ℤ → Step) (cs : ℤ → List Call) (c : Call) (old : Log) (r : Reply)
      → ((fd : ℤ) → Makes (body fd) (cs fd))
      → (use_socket k found body (opened k r ((c, r) ∷ old))).0.err ≡ none
      → calls (use_socket k found body (opened k r ((c, r) ∷ old))).1
        ≡ recorded (c ∷ cs (use_socket k found body (opened k r ((c, r) ∷ old))).0.fd) (calls old)
  use_socket_calls found body cs c old (failed e) makes went = absurd (cc)
  use_socket_calls found body cs c old (done n) makes went =
      let out : Option SockError × Log = body (pos n) ((c, done n) ∷ old) in
      ap calls (closed_none (pos n) out.0 out.1 went) ∙ makes (pos n) ((c, done n) ∷ old) went
