-- ===== src/Conn/Flush.antt =====
-- `WriteFlush`: what the kernel takes is what leaves the outbound buffer, so the stream stays as it was.
use gtcp.Prelude.{
  ℕ, zero, suc, ◌≤◌, ◌≡◌, refl, sym, ap, ◌∙◌, inl, inr, true, false, Option, none, some, List, [],
  ◌∷◌, ◌++◌, ltb, length, take, drop, if◌then◌else◌, Bool-cases,
}
use gtcp.Prelude.Int.{ℤ, pos, negsuc, pos_part}
use gtcp.Prelude.Slices.{flatten, drop-zero}
use gtcp.Errors.{Error}
use gtcp.Run.{Run, returns}
use gtcp.Sys.{Sys, is_errno, ctl_mod, econnreset}
use gtcp.Netpoll.{mod_read, read_events}
use gtcp.Elastic
use gtcp.Elastic.Contents as Outbound
use gtcp.Elastic.Read.{elastic_discard_lem}
use gtcp.Conn.{Conn, sent_of, took, failed, nothing, unlock, send, flushed, write_flush, iov_max}
use gtcp.Conn.Invariant.{IsValid, stream, lock_free, failed-pos_part, nothing-pos_part}
use gtcp.Conn.Front.{
  IsFront, append-IsFront, IsFront-trans, peeked-IsFront, slices-IsFront, taken_front, moved,
}

-- What `WriteFlush` returns: nil when some bytes went out or when none could for now.
abbrev pub report : ℤ → Option Error → Option Error
report n err = elim (sent_of n) [
  | failed ↦ if is_errno 11 err then none else err
  | nothing ↦ some econnreset
  | took k ↦ none
]

first_slice-IsFront :
    (iov : List (List ℕ)) → IsFront (elim iov [ [] ↦ [] | b ∷ bs ↦ b ]) (flatten iov)
first_slice-IsFront [] = refl
first_slice-IsFront (b ∷ bs) = append-IsFront b (flatten bs)

data SentCases (n : ℤ) : Type 0 where
  was_failed : sent_of n ≡ failed → SentCases n
  was_nothing : sent_of n ≡ nothing → SentCases n
  was_taken : (k : ℕ) → sent_of n ≡ took k → SentCases n

sent_cases : (n : ℤ) → SentCases n
sent_cases (pos zero) = was_nothing refl
sent_cases (pos (suc n)) = was_taken (suc n) refl
sent_cases (negsuc n) = was_failed refl

module _ (sys : Sys) where
  open sys use {Net, delivered, epoll_ctl_takes_none}

  -- A system call that was offered a front part of the bytes that wait.
  record Offers (c : Conn) (net : Net) (call : ℤ × Option Error × Net) : Type 0 where
    offered : List ℕ
    front : IsFront offered (Outbound.contents c.outbound)
    taken : delivered call.2 ≡ delivered net ++ take (pos_part call.0) offered
    fits : pos_part call.0 ≤ length offered

  send-Offers : (c : Conn) (net : Net) → IsValid c → Offers c net (send sys c net)
  unfolding send
  send-Offers c net v =
      let iov = Elastic.peek c.outbound (negsuc 0) in
      elim (Bool-cases (ltb 1 (length iov))) [
        | inl many ↦ rw many (record {
          offered = flatten (take iov_max iov);
          front = slices-IsFront c.outbound (negsuc 0) iov_max v.outbound_valid;
          taken = sys.writev_takes net c.sysfd (take iov_max iov);
          fits = sys.writev_fits net c.sysfd (take iov_max iov);
        })
        | inr one ↦
            let b : List ℕ = elim iov [ [] ↦ [] | b ∷ bs ↦ b ] in
            rw one (record {
              offered = b;
              front =
                  IsFront-trans b (flatten iov) (Outbound.contents c.outbound)
                    (first_slice-IsFront iov)
                    (peeked-IsFront c.outbound (negsuc 0) v.outbound_valid);
              taken = sys.write_takes net c.sysfd b;
              fits = sys.write_fits net c.sysfd b;
            })
      ]

  -- What flushing does, after a call that returned `n` and `err`.
  pub record Flushes (c : Conn) (net : Net) (n : ℤ) (err : Option Error)
      (out : Option Error × Conn × Net) : Type 0 where
    pub error : out.0 ≡ report n err
    pub taken : delivered out.2 ≡ delivered net ++ take (pos_part n) (Outbound.contents c.outbound)
    pub left : Outbound.contents out.1.outbound ≡ drop (pos_part n) (Outbound.contents c.outbound)
    pub in_order : stream sys out.1 out.2 ≡ stream sys c net
    pub valid : IsValid out.1

  module _ (c : Conn) (net : Net) (v : IsValid c) (n : ℤ) (err : Option Error) (net' : Net)
      (o : Offers c net (n, err, net')) where
    waiting : List ℕ
    waiting = Outbound.contents c.outbound

    all_in_order :
        (after : List ℕ)
        → after ≡ delivered net'
        → after ++ drop (pos_part n) (Outbound.contents c.outbound) ≡ stream sys c net
    all_in_order after e =
        moved (Outbound.contents c.outbound) o.offered o.front (pos_part n) o.fits (delivered net)
          after (e ∙ o.taken)

    front_taken : delivered net' ≡ delivered net ++ take (pos_part n) (Outbound.contents c.outbound)
    front_taken =
        o.taken
        ∙ ap (λ (x : List ℕ). delivered net ++ x)
            (taken_front (Outbound.contents c.outbound) o.offered o.front (pos_part n) o.fits)

    none_left :
        pos_part n ≡ 0
        → Outbound.contents c.outbound ≡ drop (pos_part n) (Outbound.contents c.outbound)
    none_left z = sym (drop-zero (pos_part n) (Outbound.contents c.outbound) z)

    untouched :
        (e : Option Error) → pos_part n ≡ 0 → e ≡ report n err → Flushes c net n err (e, c, net')
    untouched e z told = record {
      error = told;
      taken = front_taken;
      left = none_left z;
      in_order =
          ap (λ (x : List ℕ). delivered net' ++ x) (none_left z)
          ∙ all_in_order (delivered net') refl;
      valid = v;
    }

    discarded :
        (net'' : Net)
        → delivered net'' ≡ delivered net'
        → none ≡ report n err
        → Flushes c net n err
            (none, record c { outbound = (Elastic.discard c.outbound n).2 }, net'')
    discarded net'' same told =
        let d = elastic_discard_lem c.outbound n v.outbound_valid in
        record {
          error = told;
          taken = same ∙ front_taken;
          left = d.rest;
          in_order =
              ap (λ (x : List ℕ). delivered net'' ++ x) d.rest
              ∙ all_in_order (delivered net'') same;
          valid = record { inbound_valid = v.inbound_valid; outbound_valid = d.valid };
        }

    flushed-Flushes : Flushes c net n err (flushed sys c (n, err, net'))
    unfolding flushed mod_read
    flushed-Flushes = elim (sent_cases n) [
      | was_failed f ↦
          rw (flushed, f)
            (untouched (if is_errno 11 err then none else err) (failed-pos_part n f)
              (rw (report, f) refl))
      | was_nothing z ↦
          rw (flushed, z) (untouched (some econnreset) (nothing-pos_part n z) (rw (report, z) refl))
      | was_taken k t ↦
          rw (flushed, t)
            (elim (Bool-cases (Elastic.is_empty (Elastic.discard c.outbound n).2)) [
              | inl all ↦ rw all (
                  discarded (mod_read sys c.poll net').1
                    (epoll_ctl_takes_none net' c.poll.poll_fd ctl_mod c.poll.fd read_events)
                    (rw (report, t) refl))
              | inr some_left ↦ rw some_left (discarded net' refl (rw (report, t) refl))
            ])
    ]

  pub record Returns (c : Conn) (net : Net) (out : Run (Option Error × Conn × Net)) : Type 0 where
    pub result : Option Error × Conn × Net
    pub returned : out ≡ returns result
    pub flushes :
        let call = send sys (record c { locked = true }) net in Flushes c net call.0 call.1 result
    pub unlocked : result.1.locked ≡ false

  -- On a valid connection that nobody has locked `WriteFlush` returns: what leaves the outbound
  -- buffer is what the kernel took, so the bytes taken and then those that wait stay the same
  -- sequence; the error is nil if some bytes went out or the call failed with EAGAIN,
  -- ECONNRESET for a count of 0, and the call's error otherwise; the connection stays valid and
  -- is unlocked again.
  pub write_flush_lem :
      (c : Conn) (net : Net) → IsValid c → c.locked ≡ false → Returns c net (write_flush sys c net)
  unfolding write_flush unlock
  write_flush_lem c net v free =
      let c' : Conn = record c { locked = true } in
      let v' : IsValid c' = record {
        inbound_valid = v.inbound_valid;
        outbound_valid = v.outbound_valid;
      } in
      let call = send sys c' net in
      let f = flushed-Flushes c' net v' call.0 call.1 call.2 (send-Offers c' net v') in
      let out = flushed sys c' call in
      rw (write_flush, lock_free c free)
        (record {
          result = (out.0, unlock out.1, out.2);
          returned = refl;
          flushes = record {
            error = f.error;
            taken = f.taken;
            left = f.left;
            in_order = f.in_order;
            valid = record {
              inbound_valid = f.valid.inbound_valid;
              outbound_valid = f.valid.outbound_valid;
            };
          };
          unlocked = refl;
        })
