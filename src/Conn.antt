-- ===== src/Conn.antt =====
-- connection_unix.go: a connection, with the bytes that it has received and not read (inbound) and that it
-- has accepted and not sent (outbound). The addresses are left out. `locked` is `writeMtx`, a lock
-- that its holder cannot take again. A method that changes the connection returns it.
pub mod Invariant
pub mod Call
pub mod Attempt
pub mod Write
pub mod Leftover
pub mod Front
pub mod Writev
pub mod Flush
pub mod Drain
pub mod Close
pub mod EventRead
mod Tests
use gtcp.Prelude.{
  ℕ, zero, suc, ◌-◌, Bool, true, false, Option, none, some, List, [], ◌∷◌, ◌++◌, ltb, ◌==◌, not,
  if◌then◌else◌, length, take, drop,
}
use gtcp.Prelude.Int.{ℤ, pos, negsuc, leb_ℤ}
use gtcp.Prelude.Slices.{flatten}
use gtcp.Alloc.{Alloc}
use gtcp.RingPool.{RingPool}
use gtcp.Errors.{Error, errno}
use gtcp.Run.{Run, returns, deadlock, panics, spins, ◌>>=◌}
use gtcp.Sys.{Sys, eagain, econnreset, is_errno}
use gtcp.Netpoll.{PollAttachment, mod_read, mod_read_write, delete}
use gtcp.Elastic
use gtcp.Elastic.RingBuffer
use gtcp.Inbound

pub record Conn : Type 0 where
  pub sysfd : ℤ
  pub locked : Bool
  pub inbound : RingBuffer.RingBuffer
  pub outbound : Elastic.Buffer
  pub poll : PollAttachment

-- `newTCPConn`: `Reset` on the zero buffer sets its limit.
unfoldable pub new_tcp_conn : ℤ → ℤ → ℤ → Conn
new_tcp_conn poll_fd fd write_buffer_cap = record {
  sysfd = fd;
  locked = false;
  inbound = RingBuffer.reset none;
  outbound =
      Elastic.reset
        (record {
          max_static_bytes = 0;
          ring_buffer = none;
          list_buffer = record { nodes = []; size = 0; bytes = 0 };
        })
        write_buffer_cap;
  poll = record { fd = fd; poll_fd = poll_fd };
}

unfoldable pub read : Conn → List ℕ → ℕ × Option Error × List ℕ × Conn
read c p =
    let (n, err, p', b) = RingBuffer.read c.inbound p in (n, err, p', record c { inbound = b })

unfoldable pub next : Conn → ℤ → List ℕ × Option Error × Conn
next c n = let (buf, err, b) = Inbound.next c.inbound n in (buf, err, record c { inbound = b })

unfoldable pub peek : Conn → ℤ → List ℕ × Option Error
peek c n = Inbound.peek c.inbound n

unfoldable pub discard : Conn → ℤ → ℕ × Option Error × Conn
discard c n = let (m, err, b) = Inbound.discard c.inbound n in (m, err, record c { inbound = b })

unfoldable pub lock : Conn → Run Conn
lock c = if c.locked then deadlock else returns (record c { locked = true })

unfoldable pub unlock : Conn → Conn
unlock c = record c { locked = false }

-- `release`, which takes the lock for the outbound buffer.
unfoldable pub release : Conn → Run Conn
release c = lock (record c { inbound = RingBuffer.release c.inbound }) >>= λ c'.
    returns (record c' { outbound = Elastic.release c'.outbound; sysfd = negsuc 0; locked = false })

-- `ConnInfo`, without what it prints: whether the connection is to be kept. It takes the lock, and
-- gives it back.
unfoldable pub conn_info : Conn → Run Bool
conn_info c = if leb_ℤ c.sysfd (pos 0) then returns false else lock c >>= λ c'. returns true

-- `resetBuffer`
unfoldable pub reset_buffer : Conn → Conn
reset_buffer c = record c { inbound = RingBuffer.reset c.inbound }

abbrev pub iov_max : ℕ
iov_max = 1024

-- `if sent < 0 { … } else if sent == 0 { … } else { … }`
pub data Sent : Type 0 where
  failed nothing : Sent
  took : ℕ → Sent

abbrev pub sent_of : ℤ → Sent
sent_of (negsuc n) = failed
sent_of (pos zero) = nothing
sent_of (pos (suc n)) = took (suc n)

-- The loop of `writev` over slices of which `sent` bytes went out: the rest, from the first slice that
-- did not go out whole; `none` if all did.
unfoldable pub leftover : List (List ℕ) → ℕ → Option (List (List ℕ))
leftover [] sent = none
leftover (b ∷ bs) sent =
    let rest = leftover bs (sent - length b) in
    if ltb sent (length b) then some (drop sent b ∷ bs) else rest

module _ (sys : Sys) where
  open sys use {Net}

  -- The loop of `Close` that sends what is left. Discarding changes nothing else.
  unfoldable pub drain : ℕ → ℤ → Elastic.Buffer → Net → Run (Elastic.Buffer × Net)
  drain zero fd out net = spins
  drain (suc fuel) fd out net =
      let iov = take iov_max (Elastic.peek out (pos 0)) in
      let (n, e, net') = sys.writev net fd iov in
      let rest = drain fuel fd (Elastic.discard out n).2 net' in
      if Elastic.is_empty out
      then returns (out, net)
      else elim e [ some e' ↦ returns (out, net') | none ↦ rest ]

  unfoldable pub close : ℕ → Conn → Net → Run (Option Error × Conn × Net)
  close fuel c net = lock c >>= λ c'. drain fuel c'.sysfd c'.outbound net >>= λ (out, net').
      let (err, net'') = delete sys c'.poll net' in
      let (err', net''') = sys.close net'' c'.sysfd in
      release (unlock (record c' { outbound = out })) >>= λ c''. returns (err', c'', net''')

  -- What `WriteFlush` sends: one slice, or up to 1024 of them.
  unfoldable pub send : Conn → Net → ℤ × Option Error × Net
  send c net =
      let iov = Elastic.peek c.outbound (negsuc 0) in
      if ltb 1 (length iov)
      then sys.writev net c.sysfd (take iov_max iov)
      else sys.write net c.sysfd (elim iov [ [] ↦ [] | b ∷ bs ↦ b ])

  -- What follows the send: the error is nil if the kernel is to be asked again.
  unfoldable pub flushed : Conn → ℤ × Option Error × Net → Option Error × Conn × Net
  flushed c (n, err, net) = elim (sent_of n) [
    | failed ↦ (if is_errno 11 err then none else err, c, net)
    | nothing ↦ (some econnreset, c, net)
    | took k ↦
        let c' = record c { outbound = (Elastic.discard c.outbound n).2 } in
        if Elastic.is_empty c'.outbound
        then (none, c', (mod_read sys c'.poll net).1)
        else (none, c', net)
  ]

  unfoldable pub write_flush : Conn → Net → Run (Option Error × Conn × Net)
  write_flush c net = lock c >>= λ c'.
      let (err, c'', net') = flushed c' (send c' net) in returns (err, unlock c'', net')

  module _ (alloc : Alloc) (pool : RingPool) where
    -- `_, _ = c.outboundBuffer.Write(data)`
    unfoldable pub queue : Conn → List ℕ → Run Conn
    queue c bytes = elim (Elastic.write alloc pool c.outbound bytes) [
      | none ↦ panics
      | some (n, out) ↦ returns (record c { outbound = out })
    ]

    unfoldable pub queue_all : Conn → List (List ℕ) → Run Conn
    queue_all c bs = elim (Elastic.writev alloc pool c.outbound bs) [
      | none ↦ panics
      | some (n, out) ↦ returns (record c { outbound = out })
    ]

    abbrev pub Outcome : Type 0
    Outcome = Run (ℤ × Option Error × Conn × Net)

    -- `netpoll.ModReadWrite`, and the return.
    abbrev pub watch : ℤ → Net → Conn → Outcome
    watch n net c = let (err, net') = mod_read_write sys c.poll net in returns (n, err, c, net')

    -- `c.Close()`, and the return.
    abbrev pub closing : ℕ → ℤ → Option Error → Conn → Net → Outcome
    closing fuel n err c net = close fuel c net >>= λ (e, c', net'). returns (n, err, c', net')

    -- What follows the system call for `n` bytes; `whole` puts all of them into the outbound buffer,
    -- and `rest` those that did not go out, given how many did.
    unfoldable pub after_call :
        ℕ → ℕ → Run Conn → (ℕ → Run Conn) → Conn → ℤ × Option Error × Net → Outcome
    after_call fuel n whole rest c (sent, err, net) = elim (sent_of sent) [
      | failed ↦ if is_errno 11 err then whole >>= watch sent net else closing fuel sent err c net
      | nothing ↦ closing fuel (pos 0) (some econnreset) c net
      | took k ↦ elim err [
        | some e ↦ closing fuel (negsuc 0) (some e) c net
        | none ↦ if ltb k n then rest k >>= watch (pos n) net else returns (pos n, none, c, net)
      ]
    ]

    abbrev pub unlocked : ℤ × Option Error × Conn × Net → Outcome
    unlocked (n, err, c, net) = returns (n, err, unlock c, net)

    unfoldable pub write : ℕ → Conn → List ℕ → Net → Outcome
    write fuel c bytes net = lock c >>= λ c'.
        (if not (Elastic.is_empty c'.outbound)
          then (queue c' bytes >>= λ c''. returns (pos (length bytes), none, c'', net))
          else after_call fuel (length bytes) (queue c' bytes) (λ sent. queue c' (drop sent bytes))
              c' (sys.write net c'.sysfd bytes))
        >>= unlocked

    unfoldable pub writev : ℕ → Conn → List (List ℕ) → Net → Outcome
    writev fuel c bs net = lock c >>= λ c'.
        (if not (Elastic.is_empty c'.outbound)
          then (queue_all c' bs >>= λ c''. returns (pos (length (flatten bs)), none, c'', net))
          else after_call fuel (length (flatten bs)) (queue_all c' bs)
              (λ sent. queue_all c' (elim (leftover bs sent) [ none ↦ bs | some rest ↦ rest ])) c'
              (sys.writev net c'.sysfd bs))
        >>= unlocked

-- `unix.Read` into a slice of 1024 bytes, as its result: the bytes, or an error; no bytes mean that
-- the peer has closed its side.
pub data ReadResult : Type 0 where
  got : List ℕ → ReadResult
  read_failed : Error → ReadResult

module _ (alloc : Alloc) (pool : RingPool) where
  -- The results of the calls that `eventRead` makes, and those that are left; EAGAIN behind them all,
  -- since the descriptor does not block. A call that fails with EINTR is made again
  -- (`ignoringEINTRIO`).
  unfoldable pub event_read : List ReadResult → Conn → Run (Option Error × Conn × List ReadResult)
  event_read [] c = returns (none, c, [])
  event_read (read_failed e ∷ rs) c =
      let again = event_read rs c in
      if is_errno 4 (some e)
      then again
      else returns (if is_errno 11 (some e) then none else some e, c, rs)
  event_read (got [] ∷ rs) c = returns (some econnreset, c, rs)
  event_read (got (b ∷ bs) ∷ rs) c = elim (RingBuffer.write alloc pool c.inbound (b ∷ bs)) [
    | none ↦ panics
    | some (n, ring) ↦ event_read rs (record c { inbound = ring })
  ]
