-- ===== src/Conn/Write.antt =====
-- `Write`: the bytes go to the kernel or wait behind the others, in order; or the connection is closed
-- under its own lock.
use gtcp.Prelude.{ℕ, ◌^◌, ◌≤◌, ◌≡◌, ◌⊎◌, true, false, List, length, drop}
use gtcp.Prelude.Slices.{byte_lengths}
use gtcp.Alloc.{Alloc}
use gtcp.RingPool.{RingPool}
use gtcp.Run.{deadlock}
use gtcp.Sys.{Sys}
use gtcp.Elastic
use gtcp.Elastic.RingBuffer
use gtcp.Conn.{Conn, lock, queue, write}
use gtcp.Conn.Call.{Accepts, Breaks, Keeps, Queues, queue-Queues}
use gtcp.Conn.Attempt.{attempt-Keeps, attempt-deadlock}
use gtcp.Conn.Invariant.{IsValid, lock_free}

module _ (sys : Sys) (alloc : Alloc) (pool : RingPool) where
  open sys use {Net}

  module _ (c : Conn) (v : IsValid c) (net : Net) (p : List ℕ)
      (small : RingBuffer.capacity c.outbound.ring_buffer ≤ 2 ^ 61) (short : length p ≤ 2 ^ 61)
      (free : c.locked ≡ false) (fuel : ℕ) where
    queueing :
        (q : List ℕ)
        → length q ≤ 2 ^ 61
        → Queues
            (record c { locked = true })
            q
            (queue sys alloc pool (record c { locked = true }) q)
    queueing q h =
        queue-Queues sys alloc pool (record c { locked = true }) q
          (record { inbound_valid = v.inbound_valid; outbound_valid = v.outbound_valid }) small h

    -- On a valid connection that nobody has locked, with an outbound ring of at most 2 ^ 61,
    -- for p of at most 2 ^ 61 bytes: if bytes are waiting already, or the system call takes
    -- some without an error or fails with EAGAIN, `Write(p)` returns, and the bytes that the
    -- kernel has taken and then those that wait are what they were before, and then p, in
    -- order; the connection stays valid and is unlocked again, and the count returned is the
    -- length of p or negative.
    pub conn_write_lem :
        (Elastic.is_empty c.outbound ≡ false)
          ⊎ Accepts (sys.write net c.sysfd p).0 (sys.write net c.sysfd p).1
        → Keeps sys c net p (write sys alloc pool fuel c p net)
    unfolding write
    conn_write_lem goes =
        rw (write, lock_free c free)
          (attempt-Keeps sys alloc pool c v net p free fuel
            (queue sys alloc pool (record c { locked = true }) p)
            (λ sent. queue sys alloc pool (record c { locked = true }) (drop sent p))
            (queueing p short) (λ k l. queueing (drop k p) (omega byte_lengths))
            (sys.write net c.sysfd p) (sys.write_takes net c.sysfd p) (sys.write_fits net c.sysfd p)
            goes)

    -- On a valid connection that nobody has locked and with nothing to send, `Write` waits for
    -- ever for its own lock, if the system call fails with another error than EAGAIN, takes no
    -- byte, or takes some and reports an error: it calls `Close` while it holds the lock.
    pub conn_write_deadlock :
        Elastic.is_empty c.outbound ≡ true
        → Breaks (sys.write net c.sysfd p).0 (sys.write net c.sysfd p).1
        → write sys alloc pool fuel c p net ≡ deadlock
    unfolding write lock
    conn_write_deadlock empty broken = rw (
      write,
      free,
      attempt-deadlock sys alloc pool c v net p free fuel
          (queue sys alloc pool (record c { locked = true }) p)
          (λ sent. queue sys alloc pool (record c { locked = true }) (drop sent p))
          (queueing p short) (λ k l. queueing (drop k p) (omega byte_lengths))
          (sys.write net c.sysfd p) (sys.write_takes net c.sysfd p) (sys.write_fits net c.sysfd p)
          empty broken,
    )
