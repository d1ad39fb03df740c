-- ===== src/Conn/Writev.antt =====
-- `writev`: as `Write`, for slices one behind the other; what the kernel leaves of them waits.
use mathlib.Core.Path.{subst}
use gtcp.Prelude.{ℕ, ◌^◌, ◌≤◌, ◌<◌, ◌≡◌, ◌⊎◌, ap, true, false, none, some, List, length, drop}
use gtcp.Prelude.Slices.{flatten, byte_lengths}
use gtcp.Alloc.{Alloc}
use gtcp.RingPool.{RingPool}
use gtcp.Run.{deadlock}
use gtcp.Sys.{Sys}
use gtcp.Elastic
use gtcp.Elastic.RingBuffer
use gtcp.Elastic.Writev.{elastic_writev_lem}
use gtcp.Conn.{Conn, queue_all, leftover, writev}
use gtcp.Conn.Invariant.{IsValid, lock_free}
use gtcp.Conn.Leftover.{leftover_lem}
use gtcp.Conn.Call.{Accepts, Breaks, Keeps, Queues}
use gtcp.Conn.Attempt.{attempt-Keeps, attempt-deadlock}

abbrev unsent : List (List ℕ) → ℕ → List (List ℕ)
unsent bs sent = elim (leftover bs sent) [ none ↦ bs | some rest ↦ rest ]

module _ (sys : Sys) (alloc : Alloc) (pool : RingPool) where
  open sys use {Net}

  module _ (c : Conn) (v : IsValid c) (small : RingBuffer.capacity c.outbound.ring_buffer ≤ 2 ^ 60)
      (limit : c.outbound.max_static_bytes ≤ 2 ^ 60) where
    queue_all-Queues :
        (bs : List (List ℕ))
        → length (flatten bs) ≤ 2 ^ 61
        → Queues c (flatten bs) (queue_all sys alloc pool c bs)
    unfolding queue_all
    queue_all-Queues bs short =
        let r = elastic_writev_lem alloc pool c.outbound bs v.outbound_valid small limit short in
        record {
          queued = r.result;
          returned = rw (queue_all, r.returned);
          appended = r.appended;
          valid = r.valid;
        }

    queue_rest-Queues :
        (bs : List (List ℕ)) (k : ℕ)
        → k < length (flatten bs)
        → length (flatten bs) ≤ 2 ^ 61
        → Queues c (drop k (flatten bs)) (queue_all sys alloc pool c (unsent bs k))
    queue_rest-Queues bs k h short =
        let l = leftover_lem bs k h in
        rw (unsent, l.found)
          (subst (λ (p : List ℕ). Queues c p (queue_all sys alloc pool c l.rest)) l.unsent
            (queue_all-Queues l.rest (omega (byte_lengths, ap length l.unsent))))

  module _ (c : Conn) (v : IsValid c) (net : Net) (bs : List (List ℕ))
      (small : RingBuffer.capacity c.outbound.ring_buffer ≤ 2 ^ 60)
      (limit : c.outbound.max_static_bytes ≤ 2 ^ 60) (short : length (flatten bs) ≤ 2 ^ 61)
      (free : c.locked ≡ false) (fuel : ℕ) where
    abbrev held : Conn
    held = record c { locked = true }

    held-IsValid : IsValid held
    held-IsValid = record { inbound_valid = v.inbound_valid; outbound_valid = v.outbound_valid }

    -- On a valid connection that nobody has locked, with an outbound ring and a limit of at
    -- most 2 ^ 60, for slices of at most 2 ^ 61 bytes in all: if bytes are waiting already, or
    -- the system call takes some without an error or fails with EAGAIN, `writev` returns, and
    -- the bytes that the kernel has taken and then those that wait are what they were before,
    -- and then those of the slices, in order, also when the call stops in the middle of a
    -- slice; the connection stays valid and is unlocked again.
    pub conn_writev_lem :
        (Elastic.is_empty c.outbound ≡ false)
          ⊎ Accepts (sys.writev net c.sysfd bs).0 (sys.writev net c.sysfd bs).1
        → Keeps sys c net (flatten bs) (writev sys alloc pool fuel c bs net)
    unfolding writev
    conn_writev_lem goes =
        rw (writev, lock_free c free)
          (attempt-Keeps sys alloc pool c v net (flatten bs) free fuel
            (queue_all sys alloc pool held bs) (λ k. queue_all sys alloc pool held (unsent bs k))
            (queue_all-Queues held held-IsValid small limit bs short)
            (λ k l. queue_rest-Queues held held-IsValid small limit bs k l short)
            (sys.writev net c.sysfd bs) (sys.writev_takes net c.sysfd bs)
            (sys.writev_fits net c.sysfd bs) goes)

    pub conn_writev_deadlock :
        Elastic.is_empty c.outbound ≡ true
        → Breaks (sys.writev net c.sysfd bs).0 (sys.writev net c.sysfd bs).1
        → writev sys alloc pool fuel c bs net ≡ deadlock
    unfolding writev
    conn_writev_deadlock empty broken = rw (
      writev,
      lock_free c free,
      attempt-deadlock sys alloc pool c v net (flatten bs) free fuel
          (queue_all sys alloc pool held bs) (λ k. queue_all sys alloc pool held (unsent bs k))
          (queue_all-Queues held held-IsValid small limit bs short)
          (λ k l. queue_rest-Queues held held-IsValid small limit bs k l short)
          (sys.writev net c.sysfd bs) (sys.writev_takes net c.sysfd bs)
          (sys.writev_fits net c.sysfd bs) empty broken,
    )
