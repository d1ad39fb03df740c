-- ===== src/Ring/WriteTo/Laws.antt =====
-- `WriteTo` of a ring, for every buffer.
use gtcp.Prelude.{
  ℕ, ◌+◌, ◌-◌, ◌≤◌, ◌<◌, ◌≡◌, ◌≢◌, ◌⊎◌, inl, inr, refl, sym, ap, ◌∙◌, true, false, Option, none,
  some, List, [], arith, ltb, leb, if◌then◌else◌, not, length, append-nil, Bool-cases,
}
use gtcp.Prelude.Slices.{slice}
use gtcp.Errors.{Error, ring_is_empty, short_write}
use gtcp.Io.{Writer}
use gtcp.Ring.{Buffer, buffered, reset}
use gtcp.Ring.View.{contents, IsValid, buffered_nonempty, buffered_round}
use gtcp.Ring.Advance.{contents-reset, advanced}
use gtcp.Ring.WriteTo.{Outcome, finish, write_to_flat, write_to_one, write_to_two, write_to}
use gtcp.Ring.WriteTo.Taken.{advanced_meets}
use gtcp.Ring.WriteTo.Parts.{WritesTo, slice-contents, flat-WritesTo, one-WritesTo}
use gtcp.Ring.WriteTo.Rounds.{two-WritesTo}

module _ (writer : Writer) where
  open writer use {Sink, write, accepted, takes_prefix, count_fits}

  abbrev nonempty : Buffer → Sink → Outcome writer
  nonempty rb sink =
      if ltb rb.r rb.w
      then write_to_flat writer rb sink
      else let n = rb.size - rb.r + rb.w in
        if leb (rb.r + n) rb.size
        then write_to_one writer rb n sink
        else write_to_two writer rb n sink

  write_to_nothing :
      (rb : Buffer) (sink : Sink)
      → rb.is_empty ≡ true
      → write_to writer rb sink ≡ some (0, some ring_is_empty, rb, sink)
  unfolding write_to
  write_to_nothing rb sink e =
      λ i. if e i then some (0, some ring_is_empty, rb, sink) else nonempty rb sink

  write_to_front :
      (rb : Buffer) (sink : Sink) → rb.is_empty ≡ false → write_to writer rb sink ≡ nonempty rb sink
  unfolding write_to
  write_to_front rb sink e =
      λ i. if e i then some (0, some ring_is_empty, rb, sink) else nonempty rb sink

  -- On a valid ring, for a writer that takes at least one byte of each slice that has one, or a
  -- ring whose positions r and w differ, `WriteTo` returns: the bytes that the writer took are
  -- the first `count` bytes of the contents, in order, the ring keeps exactly the bytes behind
  -- them, and it is valid, whatever error the writer returns.
  pub write_to_lem :
      (rb : Buffer) (sink : Sink)
      → IsValid rb
      → ((q : List ℕ) → 0 < length q → 0 < (write sink q).0) ⊎ (rb.r ≢ rb.w)
      → WritesTo writer rb sink (write_to writer rb sink)
  write_to_lem rb sink v moves = elim (Bool-cases rb.is_empty) [
    | inl e ↦ rw (write_to_nothing rb sink e) (record {
      count = 0;
      error = some ring_is_empty;
      buffer = rb;
      sink' = sink;
      returned = refl;
      taken = sym (append-nil (accepted sink));
      rest = refl;
      valid = v;
    })
    | inr e ↦ rw (write_to_front rb sink e) (elim (Bool-cases (ltb rb.r rb.w)) [
      | inl flat ↦ rw flat (flat-WritesTo writer rb v e sink flat)
      | inr round ↦ elim (Bool-cases (leb (rb.r + (rb.size - rb.r + rb.w)) rb.size)) [
        | inl fits ↦ rw (round, fits) (one-WritesTo writer rb v e sink round (ground arith) moves)
        | inr over ↦ rw (round, over) (two-WritesTo writer rb v e sink round (ground arith))
      ]
    ])
  ]

  finish_cases :
      (m : ℕ) (err : Option Error) (rb : Buffer) (sink : Sink)
      → (e : Option Error) × (finish writer m err rb sink ≡ some (m, e, rb, sink))
  unfolding finish
  finish_cases m (some e) rb sink = (some e, refl)
  finish_cases m none rb sink = (if not rb.is_empty then some short_write else none, refl)

  -- A write of one slice whose count is valid.
  one_eq :
      (rb : Buffer) (sink : Sink) (n : ℕ)
      → let out = write sink (slice rb.buf rb.r (rb.r + n)) in
        out.0 ≤ n
        → write_to_one writer rb n sink ≡ finish writer out.0 out.1 (advanced rb out.0) out.2
  unfolding write_to_one
  one_eq rb sink n h =
      let test : ltb n (write sink (slice rb.buf rb.r (rb.r + n))).0 ≡ false = ground arith in
      rw test

  -- On a valid ring that is not empty with both positions at 0, and a writer that takes no byte
  -- of the contents, `WriteTo` returns the count 0 and a ring with no contents, although there
  -- were some.
  pub write_to_drops :
      (rb : Buffer) (sink : Sink)
      → IsValid rb
      → rb.is_empty ≡ false
      → rb.r ≡ 0
      → rb.w ≡ 0
      → (write sink (contents rb)).0 ≡ 0
      → (buffer : Buffer) × (err : Option Error) × (sink' : Sink) × (write_to writer rb sink
          ≡ some (0, err, buffer, sink'))
        × (contents buffer ≡ [])
        × (0 < buffered rb)
  write_to_drops rb sink v e start end none_taken =
      let flat : ltb rb.r rb.w ≡ false = ground arith in
      let fits : leb (rb.r + (rb.size - rb.r + rb.w)) rb.size ≡ true = ground arith in
      let n = rb.size - rb.r + rb.w in
      let p = slice rb.buf rb.r (rb.r + n) in
      let q =
        slice-contents writer rb v e sink n (sym (buffered_round rb v e flat)) (ground arith) in
      let m : (write sink p).0 ≡ 0 = ap (λ (x : List ℕ). (write sink x).0) q ∙ none_taken in
      let (err, done) =
        finish_cases (write sink p).0 (write sink p).1 (advanced rb (write sink p).0)
          (write sink p).2 in
      let drained : advanced rb 0 ≡ reset rb = advanced_meets rb v e (start ∙ sym end) in
      (
        advanced rb 0,
        err,
        (write sink p).2,
        write_to_front rb sink e
            ∙ rw (flat, fits) (one_eq rb sink n (ground arith))
            ∙ done
            ∙ ap (λ k. some (k, err, advanced rb k, (write sink p).2)) m,
        ap contents drained ∙ contents-reset rb,
        buffered_nonempty rb v e,
      )
