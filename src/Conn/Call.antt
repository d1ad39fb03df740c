-- ===== src/Conn/Call.antt =====
-- What `Write` and `writev` share: what follows their system call, and the lock around it.
use gtcp.Prelude.{
  ℕ, ◌^◌, ◌≤◌, ◌<◌, ◌≡◌, ◌⊎◌, refl, sym, ap, ap₂, ◌∙◌, inl, inr, true, false, Option, none, some,
  List, [], ◌++◌, arith, ltb, length, take, drop, Bool-cases, append-nil, append_assoc,
  take-append-drop,
}
use gtcp.Prelude.Int.{ℤ, pos, pos_part}
use gtcp.Prelude.Slices.{take_all}
use gtcp.Alloc.{Alloc}
use gtcp.RingPool.{RingPool}
use gtcp.Errors.{Error}
use gtcp.Run.{Run, returns, deadlock, ◌>>=◌}
use gtcp.Sys.{Sys, is_errno, ctl_mod}
use gtcp.Netpoll.{mod_read_write, read_write_events}
use gtcp.Elastic
use gtcp.Elastic.RingBuffer
use gtcp.Elastic.Contents as Outbound
use gtcp.Elastic.Write.{elastic_write_lem}
use gtcp.Conn.{Conn, sent_of, took, failed, nothing, lock, close, queue, after_call, watch}
use gtcp.Conn.Invariant.{IsValid, stream, took-pos_part, failed-pos_part}

-- What putting `p` into the outbound buffer does.
pub record Queues (c : Conn) (p : List ℕ) (out : Run Conn) : Type 0 where
  pub queued : Elastic.Buffer
  pub returned : out ≡ returns (record c { outbound = queued })
  pub appended : Outbound.contents queued ≡ Outbound.contents c.outbound ++ p
  pub valid : Outbound.IsValid queued

-- A call that took some bytes, or that may be made again later.
pub data Accepts (n : ℤ) (err : Option Error) : Type 0 where
  some_taken : (k : ℕ) → sent_of n ≡ took k → err ≡ none → Accepts n err
  not_now : sent_of n ≡ failed → is_errno 11 err ≡ true → Accepts n err

-- A call after which the connection is closed.
pub data Breaks (n : ℤ) (err : Option Error) : Type 0 where
  hard_error : sent_of n ≡ failed → is_errno 11 err ≡ false → Breaks n err
  none_taken : sent_of n ≡ nothing → Breaks n err
  both : (k : ℕ) (e : Error) → sent_of n ≡ took k → err ≡ some e → Breaks n err

joined_again : (d p : List ℕ) (k : ℕ) → (d ++ take k p) ++ drop k p ≡ d ++ p
joined_again d p k =
    append_assoc d (take k p) (drop k p) ∙ ap (λ (x : List ℕ). d ++ x) (take-append-drop k p)

module _ (sys : Sys) where
  open sys use {Net, delivered, epoll_ctl_takes_none}

  -- All of `p` was accepted: the kernel has it, or it waits in the outbound buffer.
  pub record Keeps (c : Conn) (net : Net) (p : List ℕ) (out : Run (ℤ × Option Error × Conn × Net))
      : Type 0 where
    pub count : ℤ
    pub error : Option Error
    pub conn : Conn
    pub net' : Net
    pub returned : out ≡ returns (count, error, conn, net')
    pub in_order : stream sys conn net' ≡ stream sys c net ++ p
    pub valid : IsValid conn
    pub lock_kept : conn.locked ≡ c.locked
    pub same_fd : conn.sysfd ≡ c.sysfd
    pub told : (count ≡ pos (length p)) ⊎ (sent_of count ≡ failed)

  module _ (alloc : Alloc) (pool : RingPool) where
    pub queue-Queues :
        (c : Conn) (p : List ℕ)
        → IsValid c
        → RingBuffer.capacity c.outbound.ring_buffer ≤ 2 ^ 61
        → length p ≤ 2 ^ 61
        → Queues c p (queue sys alloc pool c p)
    unfolding queue
    queue-Queues c p v small short =
        let r = elastic_write_lem alloc pool c.outbound p v.outbound_valid small short in
        record {
          queued = r.result;
          returned = rw (queue, r.returned);
          appended = r.appended;
          valid = r.valid;
        }

    module _ (c : Conn) (v : IsValid c) (net : Net) (p : List ℕ) where
      -- The bytes wait while the kernel is not asked.
      pub queued-Keeps :
          {out : Run Conn}
          → Queues c p out
          → Keeps c net p (out >>= λ c'. returns (pos (length p), none, c', net))
      queued-Keeps q = rw q.returned (record {
        count = pos (length p);
        error = none;
        conn = record c { outbound = q.queued };
        net' = net;
        returned = refl;
        in_order =
            ap (λ (x : List ℕ). delivered net ++ x) q.appended
            ∙ sym (append_assoc (delivered net) (Outbound.contents c.outbound) p);
        valid = record { inbound_valid = v.inbound_valid; outbound_valid = q.valid };
        lock_kept = refl;
        same_fd = refl;
        told = inl refl;
      })

      registering_takes_none : (s : Net) → delivered (mod_read_write sys c.poll s).1 ≡ delivered s
      unfolding mod_read_write
      registering_takes_none s =
          epoll_ctl_takes_none s c.poll.poll_fd ctl_mod c.poll.fd read_write_events

      -- After a call that took the first `k` bytes of `p`, with nothing waiting before it.
      module _ (alone : Outbound.contents c.outbound ≡ []) (net' : Net) (k : ℕ)
          (taken : delivered net' ≡ delivered net ++ take k p) where
        nothing_waits : stream sys c net ++ p ≡ delivered net ++ p
        nothing_waits =
            ap (λ (x : List ℕ). (delivered net ++ x) ++ p) alone
            ∙ ap (λ (x : List ℕ). x ++ p) (append-nil (delivered net))

        rest-Keeps :
            {out : Run Conn} (n : ℤ)
            → Queues c (drop k p) out
            → (n ≡ pos (length p)) ⊎ (sent_of n ≡ failed)
            → Keeps c net p (out >>= watch sys alloc pool n net')
        rest-Keeps n q told = rw q.returned (record {
          count = n;
          error = (mod_read_write sys c.poll net').0;
          conn = record c { outbound = q.queued };
          net' = (mod_read_write sys c.poll net').1;
          returned = refl;
          in_order =
              ap₂ (λ (x y : List ℕ). x ++ y) (registering_takes_none net' ∙ taken)
                (q.appended ∙ ap (λ (x : List ℕ). x ++ drop k p) alone)
              ∙ joined_again (delivered net) p k
              ∙ sym nothing_waits;
          valid = record { inbound_valid = v.inbound_valid; outbound_valid = q.valid };
          lock_kept = refl;
          same_fd = refl;
          told = told;
        })

        all_taken : k ≡ length p → Keeps c net p (returns (pos (length p), none, c, net'))
        all_taken h = record {
          count = pos (length p);
          error = none;
          conn = c;
          net' = net';
          returned = refl;
          in_order =
              ap₂ (λ (x y : List ℕ). x ++ y)
                (taken ∙ ap (λ (x : List ℕ). delivered net ++ x) (take_all k p (omega arith))) alone
              ∙ append-nil (delivered net ++ p)
              ∙ sym nothing_waits;
          valid = v;
          lock_kept = refl;
          same_fd = refl;
          told = inl refl;
        }

      module _ (alone : Outbound.contents c.outbound ≡ []) (fuel : ℕ) (whole : Run Conn)
          (rest : ℕ → Run Conn) (queue_whole : Queues c p whole)
          (queue_rest : (k : ℕ) → k < length p → Queues c (drop k p) (rest k)) (sent : ℤ)
          (err : Option Error) (net' : Net)
          (taken : delivered net' ≡ delivered net ++ take (pos_part sent) p)
          (fits : pos_part sent ≤ length p) where
        pub after_call-Keeps :
            Accepts sent err
            → Keeps c net p
                (after_call sys alloc pool fuel (length p) whole rest c (sent, err, net'))
        unfolding after_call
        after_call-Keeps (not_now f again) =
            rw (after_call, f, again)
              (rest-Keeps alone net' 0
                (taken ∙ ap (λ n. delivered net ++ take n p) (failed-pos_part sent f)) sent
                queue_whole (inr f))
        after_call-Keeps (some_taken k t ok) =
            let count = took-pos_part sent k t in
            let taken' = taken ∙ ap (λ n. delivered net ++ take n p) count in
            rw (after_call, t, ok)
              (elim (Bool-cases (ltb k (length p))) [
                | inl short ↦ rw short (
                    rest-Keeps alone net' k taken' (pos (length p)) (queue_rest k (ground arith))
                      (inl refl))
                | inr all ↦ rw all (all_taken alone net' k taken' (ground (arith, fits, count)))
              ])

        pub after_call-deadlock :
            c.locked ≡ true
            → Breaks sent err
            → after_call sys alloc pool fuel (length p) whole rest c (sent, err, net') ≡ deadlock
        unfolding after_call close lock
        after_call-deadlock held (hard_error f e) = rw (after_call, f, e, held)
        after_call-deadlock held (none_taken n) = rw (after_call, n, held)
        after_call-deadlock held (both k e t h) = rw (after_call, t, h, held)
