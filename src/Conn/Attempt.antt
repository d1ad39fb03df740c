-- ===== src/Conn/Attempt.antt =====
-- The lock around what `Write` and `writev` do.
use gtcp.Prelude.{
  ℕ, ◌≤◌, ◌<◌, ◌≡◌, ◌⊎◌, refl, sym, inl, inr, true, false, Option, none, List, ◌++◌, arith, length,
  take, drop, not, if◌then◌else◌, Bool-cases,
}
use gtcp.Prelude.Int.{ℤ, pos, pos_part}
use gtcp.Alloc.{Alloc}
use gtcp.RingPool.{RingPool}
use gtcp.Errors.{Error}
use gtcp.Run.{Run, returns, deadlock, ◌>>=◌}
use gtcp.Sys.{Sys}
use gtcp.Elastic
use gtcp.Elastic.Contents as Outbound
use gtcp.Conn.{Conn, unlock, after_call, Outcome, unlocked}
use gtcp.Conn.Call.{
  Queues, Accepts, Breaks, Keeps, queued-Keeps, after_call-Keeps, after_call-deadlock,
}
use gtcp.Conn.Invariant.{IsValid}

module _ (sys : Sys) (alloc : Alloc) (pool : RingPool) where
  open sys use {Net}

  -- The lock is given back.
  unlocked-Keeps :
      (c : Conn) (net : Net) (p : List ℕ) {out : Run (ℤ × Option Error × Conn × Net)}
      → c.locked ≡ false
      → Keeps sys (record c { locked = true }) net p out
      → Keeps sys c net p (out >>= unlocked sys alloc pool)
  unfolding unlock
  unlocked-Keeps c net p free r = rw r.returned (record {
    count = r.count;
    error = r.error;
    conn = unlock r.conn;
    net' = r.net';
    returned = refl;
    in_order = r.in_order;
    valid = record {
      inbound_valid = r.valid.inbound_valid;
      outbound_valid = r.valid.outbound_valid;
    };
    lock_kept = sym free;
    same_fd = r.same_fd;
    told = r.told;
  })

  -- `Write` and `writev` of the bytes `p`, once their system call and their queueing are known.
  module _ (c : Conn) (v : IsValid c) (net : Net) (p : List ℕ) (free : c.locked ≡ false) (fuel : ℕ)
      (whole : Run Conn) (rest : ℕ → Run Conn)
      (queue_whole : Queues (record c { locked = true }) p whole)
      (queue_rest : (k : ℕ)
        → k < length p
        → Queues (record c { locked = true }) (drop k p) (rest k))
      (call : ℤ × Option Error × Net)
      (taken : sys.delivered call.2 ≡ sys.delivered net ++ take (pos_part call.0) p)
      (fits : pos_part call.0 ≤ length p) where
    abbrev holding : Conn
    holding = record c { locked = true }

    holding-IsValid : IsValid holding
    holding-IsValid = record { inbound_valid = v.inbound_valid; outbound_valid = v.outbound_valid }

    abbrev pub attempt : Outcome sys alloc pool
    attempt =
        if not (Elastic.is_empty c.outbound)
        then (whole >>= λ c''. returns (pos (length p), none, c'', net))
        else after_call sys alloc pool fuel (length p) whole rest holding call

    pub attempt-Keeps :
        (Elastic.is_empty c.outbound ≡ false) ⊎ Accepts call.0 call.1
        → Keeps sys c net p (attempt >>= unlocked sys alloc pool)
    attempt-Keeps goes = elim (Bool-cases (Elastic.is_empty c.outbound)) [
      | inr waiting ↦ rw waiting (
          unlocked-Keeps c net p free
            (queued-Keeps sys alloc pool holding holding-IsValid net p queue_whole))
      | inl empty ↦ rw empty (
          unlocked-Keeps c net p free (
            after_call-Keeps sys alloc pool holding holding-IsValid net p
              (Outbound.is_empty_lem c.outbound v.outbound_valid empty) fuel whole rest queue_whole
              queue_rest call.0 call.1 call.2 taken fits (asked goes empty)))
    ]
      where
        asked :
            (Elastic.is_empty c.outbound ≡ false) ⊎ Accepts call.0 call.1
            → Elastic.is_empty c.outbound ≡ true
            → Accepts call.0 call.1
        asked (inl waiting) empty = absurd (ground (arith, waiting, empty))
        asked (inr a) empty = a

    pub attempt-deadlock :
        Elastic.is_empty c.outbound ≡ true → Breaks call.0 call.1 → attempt ≡ deadlock
    attempt-deadlock empty broken = rw empty (
        after_call-deadlock sys alloc pool holding holding-IsValid net p
          (Outbound.is_empty_lem c.outbound v.outbound_valid empty) fuel whole rest queue_whole
          queue_rest call.0 call.1 call.2 taken fits refl broken)
