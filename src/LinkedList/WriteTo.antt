-- ===== src/LinkedList/WriteTo.antt =====
-- `WriteTo` of pkg/buffer/linkedlist: each node goes to the writer whole. `none` is the panic on an
-- invalid count.
use gtcp.Prelude.{
  ℕ, zero, suc, ◌+◌, ◌-◌, ◌≤◌, ◌<◌, ◌≡◌, ◌⊎◌, refl, sym, ap, ◌∙◌, inl, inr, false, Option, none,
  some, List, [], ◌∷◌, ◌++◌, arith, length, take, drop, ltb, if◌then◌else◌, Bool-cases, append-nil,
  append_assoc,
}
use gtcp.Prelude.Slices.{
  length_nil, flatten, byte_lengths, take_all, take-append_le, take-append_ge, drop-append_le,
  drop-append_ge,
}
use gtcp.Errors.{Error, short_write}
use gtcp.Io.{Writer}
use gtcp.LinkedList.{Buffer, pop, push_front}
use gtcp.LinkedList.Queue.{
  contents, IsValid, Pops, pop-Pops, push_front-IsValid, contents-push_front,
}

module _ (writer : Writer) where
  open writer use {Sink, write, accepted, takes_prefix, count_fits}

  abbrev pub Outcome : Type 0
  Outcome = Option (ℕ × Option Error × Buffer × Sink)

  -- What follows the write of one node, with `total` bytes written before it; `next` is the rest of
  -- the loop.
  abbrev pub written : List ℕ → Buffer → ℕ → ℕ × Option Error × Sink → Outcome → Outcome
  written b rest total (m, err, sink) next = if ltb (length b) m then none else elim err [
    | some e ↦ some (total + m, some e, rest, sink)
    | none ↦
        if ltb m (length b)
        then some (total + m, some short_write, push_front (drop m b) rest, sink)
        else next
  ]

  -- The fuel is the number of nodes.
  unfoldable pub write_to_loop : ℕ → Buffer → Sink → ℕ → Outcome
  write_to_loop zero llb sink total = some (total, none, llb, sink)
  write_to_loop (suc fuel) llb sink total = elim (pop llb) [
    | none ↦ some (total, none, llb, sink)
    | some (b, rest) ↦
        let out = write sink b in
        written b rest total out (write_to_loop fuel rest out.2 (total + out.0))
  ]

  unfoldable pub list_write_to : Buffer → Sink → Outcome
  list_write_to llb sink = write_to_loop (length llb.nodes) llb sink 0

  -- The bytes that the writer took came off the front, after `total` bytes.
  pub record WritesTo (llb : Buffer) (sink : Sink) (total : ℕ) (out : Outcome) : Type 0 where
    pub count : ℕ
    pub error : Option Error
    pub buffer : Buffer
    pub sink' : Sink
    pub returned : out ≡ some (total + count, error, buffer, sink')
    pub taken : accepted sink' ≡ accepted sink ++ take count (contents llb)
    pub rest : contents buffer ≡ drop count (contents llb)
    pub valid : IsValid buffer
    pub ended : (contents buffer ≡ []) ⊎ (error ≡ some short_write)

  written_nothing :
      (llb : Buffer) (sink : Sink) (total : ℕ)
      → IsValid llb
      → llb.nodes ≡ []
      → WritesTo llb sink total (some (total, none, llb, sink))
  written_nothing llb sink total v e = record {
    count = 0;
    error = none;
    buffer = llb;
    sink' = sink;
    returned = ap (λ n. some (n, none, llb, sink)) (omega arith);
    taken = sym (append-nil (accepted sink));
    rest = refl;
    valid = v;
    ended = inl (ap flatten e);
  }

  module _ (llb : Buffer) (sink : Sink) (total : ℕ) (b : List ℕ) (rest : Buffer)
      (front : llb.nodes ≡ b ∷ rest.nodes) (v : IsValid rest) where
    parts : contents llb ≡ b ++ contents rest
    parts = ap flatten front

    took : accepted (write sink b).2 ≡ accepted sink ++ take (write sink b).0 b
    took = takes_prefix sink b

    -- The writer took only a part of the node.
    part_taken :
        (write sink b).0 < length b
        → WritesTo llb sink total (
            some (
              total + (write sink b).0,
              some short_write,
              push_front (drop (write sink b).0 b) rest,
              (write sink b).2,
            ))
    part_taken h =
        let m = (write sink b).0 in
        record {
          count = m;
          error = some short_write;
          buffer = push_front (drop m b) rest;
          sink' = (write sink b).2;
          returned = refl;
          taken = took ∙ rw (parts, take-append_le m b (contents rest) (omega arith));
          rest =
              contents-push_front (drop m b) rest
              ∙ rw (parts, drop-append_le m b (contents rest) (omega arith));
          valid = push_front-IsValid (drop m b) rest v;
          ended = inr refl;
        }

    -- The writer took the node, and the loop goes on.
    all_taken :
        (out : Outcome)
        → (write sink b).0 ≡ length b
        → WritesTo rest (write sink b).2 (total + (write sink b).0) out
        → WritesTo llb sink total out
    all_taken out h r =
        let m = (write sink b).0 in
        let behind : m + r.count - length b ≡ r.count = omega arith in
        record {
          count = m + r.count;
          error = r.error;
          buffer = r.buffer;
          sink' = r.sink';
          returned = r.returned ∙ ap (λ n. some (n, r.error, r.buffer, r.sink')) (omega arith);
          taken =
              r.taken
              ∙ ap (λ (x : List ℕ). x ++ take r.count (contents rest))
                  (took ∙ ap (λ (x : List ℕ). accepted sink ++ x) (take_all m b (omega arith)))
              ∙ append_assoc (accepted sink) b (take r.count (contents rest))
              ∙ ap (λ (x : List ℕ). accepted sink ++ x)
                  (rw
                    (parts, take-append_ge (m + r.count) b (contents rest) (omega arith), behind));
          rest =
              r.rest
              ∙ rw (parts, drop-append_ge (m + r.count) b (contents rest) (omega arith), behind);
          valid = r.valid;
          ended = r.ended;
        }

    written-WritesTo :
        (next : Outcome)
        → (write sink b).1 ≡ none
        → WritesTo rest (write sink b).2 (total + (write sink b).0) next
        → WritesTo llb sink total (written b rest total (write sink b) next)
    written-WritesTo next no_error r =
        let test : ltb (length b) (write sink b).0 ≡ false = ground (arith, count_fits sink b) in
        elim (Bool-cases (ltb (write sink b).0 (length b))) [
          | inl short ↦ rw (test, no_error, short) (part_taken (ground arith))
          | inr full ↦
              rw (test, no_error, full) (all_taken next (ground (arith, count_fits sink b)) r)
        ]

  module _ (no_errors : (s : Sink) (p : List ℕ) → (write s p).1 ≡ none) where
    popped-WritesTo :
        (fuel : ℕ)
        → ((llb : Buffer) (sink : Sink) (total : ℕ)
            → IsValid llb
            → length llb.nodes ≤ fuel
            → WritesTo llb sink total (write_to_loop fuel llb sink total))
        → (llb : Buffer) (sink : Sink) (total : ℕ) → IsValid llb
        → length llb.nodes ≤ suc fuel
        → (popped : Option (List ℕ × Buffer)) → Pops llb popped
        → WritesTo llb sink total (elim popped [
          | none ↦ some (total, none, llb, sink)
          | some (b, rest) ↦
              let out = write sink b in
              written b rest total out (write_to_loop fuel rest out.2 (total + out.0))
        ])
    popped-WritesTo fuel rec llb sink total v h none (Pops.nil e) =
        written_nothing llb sink total v e
    popped-WritesTo fuel rec llb sink total v h (some _) (Pops.took b rest front w) =
        written-WritesTo llb sink total b rest front w
          (write_to_loop fuel rest (write sink b).2 (total + (write sink b).0)) (no_errors sink b)
          (rec rest (write sink b).2 (total + (write sink b).0) w (omega (arith, ap length front)))

    loop-WritesTo :
        (fuel : ℕ) (llb : Buffer) (sink : Sink) (total : ℕ)
        → IsValid llb
        → length llb.nodes ≤ fuel
        → WritesTo llb sink total (write_to_loop fuel llb sink total)
    unfolding write_to_loop
    loop-WritesTo zero llb sink total v h =
        written_nothing llb sink total v (length_nil llb.nodes (omega arith))
    loop-WritesTo (suc fuel) llb sink total v h =
        popped-WritesTo fuel (loop-WritesTo fuel) llb sink total v h (pop llb) (pop-Pops llb v)

    -- For a writer that returns no error and a valid linked buffer, `WriteTo` ends and returns:
    -- the bytes that the writer took are the first `count` bytes of the contents, in order,
    -- also when it takes only a part of a node, the list keeps exactly the bytes behind them,
    -- nothing is left or the error is `io.ErrShortWrite`, and the counters are right.
    pub list_write_to_lem :
        (llb : Buffer) (sink : Sink) → IsValid llb → WritesTo llb sink 0 (list_write_to llb sink)
    unfolding list_write_to
    list_write_to_lem llb sink v = loop-WritesTo (length llb.nodes) llb sink 0 v (omega arith)

  -- On a linked buffer whose first node is b and whose other nodes form a valid list, and a
  -- writer that takes fewer bytes than b has and returns an error, `WriteTo` returns that count
  -- and error, and count and remaining contents together are fewer bytes than there were: bytes
  -- are lost.
  pub list_write_to_loses :
      (b : List ℕ) (rest : Buffer) (sink : Sink) (e : Error)
      → IsValid rest
      → (write sink b).1 ≡ some e
      → (write sink b).0 < length b
      → (buffer : Buffer) × (list_write_to (push_front b rest) sink
          ≡ some ((write sink b).0, some e, buffer, (write sink b).2))
        × ((write sink b).0 + length (contents buffer) < length (contents (push_front b rest)))
  unfolding list_write_to write_to_loop pop push_front
  list_write_to_loses b rest sink e v failed few =
      let test : ltb (length b) (write sink b).0 ≡ false = ground (arith, count_fits sink b) in
      let start : 0 + (write sink b).0 ≡ (write sink b).0 = omega arith in
      (
        record {
          nodes = rest.nodes;
          size = rest.size + 1 - 1;
          bytes = rest.bytes + length b - length b;
        },
        rw (test, failed, start),
        omega byte_lengths,
      )
