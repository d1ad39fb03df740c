-- ===== src/Ring/WriteTo/Parts.antt =====
-- `WriteTo` of a ring whose contents lie in one piece.
use gtcp.Prelude.{
  ℕ, ◌+◌, ◌-◌, ◌≤◌, ◌<◌, ◌≡◌, ◌≢◌, ◌⊎◌, inl, inr, refl, sym, ap, ◌∙◌, true, false, Option, none,
  some, List, ◌++◌, arith, ltb, if◌then◌else◌, not, length, take, drop,
}
use gtcp.Prelude.Slices.{slice, byte_lengths, take-take, take_all}
use gtcp.Errors.{Error, short_write}
use gtcp.Io.{Writer}
use gtcp.Ring.{Buffer, buffered, reset_if_drained}
use gtcp.Ring.Window.{window_flat}
use gtcp.Ring.View.{
  contents, IsValid, buffered_nonempty, buffered_flat, buffered_round, length-contents,
}
use gtcp.Ring.Advance.{mod_cases, advanced}
use gtcp.Ring.WriteTo.{Outcome, finish, write_to_flat, write_to_one}
use gtcp.Ring.WriteTo.Taken.{taken_cases}

module _ (writer : Writer) where
  open writer use {Sink, write, accepted, takes_prefix, count_fits}

  -- The bytes that the writer took came off the front of the contents.
  pub record WritesTo (rb : Buffer) (sink : Sink) (out : Outcome writer) : Type 0 where
    pub count : ℕ
    pub error : Option Error
    pub buffer : Buffer
    pub sink' : Sink
    pub returned : out ≡ some (count, error, buffer, sink')
    pub taken : accepted sink' ≡ accepted sink ++ take count (contents rb)
    pub rest : contents buffer ≡ drop count (contents rb)
    pub valid : IsValid buffer

  pub finish-WritesTo :
      (rb rb' : Buffer) (sink sink' : Sink) (m : ℕ) (err : Option Error)
      → accepted sink' ≡ accepted sink ++ take m (contents rb)
      → contents rb' ≡ drop m (contents rb)
      → IsValid rb'
      → WritesTo rb sink (finish writer m err rb' sink')
  unfolding finish
  finish-WritesTo rb rb' sink sink' m (some e) a b c = record {
    count = m;
    error = some e;
    buffer = rb';
    sink' = sink';
    returned = refl;
    taken = a;
    rest = b;
    valid = c;
  }
  finish-WritesTo rb rb' sink sink' m none a b c = record {
    count = m;
    error = if not rb'.is_empty then some short_write else none;
    buffer = rb';
    sink' = sink';
    returned = refl;
    taken = a;
    rest = b;
    valid = c;
  }

  module _ (rb : Buffer) (v : IsValid rb) (e : rb.is_empty ≡ false) (sink : Sink) where
    -- One write of the first `n` bytes of the contents.
    pub taken_prefix :
        (p : List ℕ) (n : ℕ)
        → n ≤ buffered rb
        → p ≡ take n (contents rb)
        → let out = write sink p in
          (out.0 ≤ n) × (accepted out.2 ≡ accepted sink ++ take out.0 (contents rb))
    taken_prefix p n h q =
        let m = (write sink p).0 in
        let fits : m ≤ n = omega (byte_lengths, count_fits sink p, ap length q) in
        (
          fits,
          takes_prefix sink p
              ∙ ap (λ (x : List ℕ). accepted sink ++ x)
                  (ap (take m) q ∙ take-take m n (contents rb) fits),
        )

    -- The first and the second way to write, once the slice is known to be the contents.
    pub one_write :
        (p : List ℕ) (n : ℕ) (rb' : Buffer)
        → n ≡ buffered rb
        → p ≡ contents rb
        → rb' ≡ advanced rb (write sink p).0
        → (0 < (write sink p).0) ⊎ (rb.r ≢ rb.w)
        → let out = write sink p in
          WritesTo rb sink (if ltb n out.0 then none else finish writer out.0 out.1 rb' out.2)
    one_write p n rb' h q eq moves =
        let (fits, took) =
          taken_prefix p n (omega arith)
            (q ∙ sym (take_all n (contents rb) (omega (arith, length-contents rb v)))) in
        let test : ltb n (write sink p).0 ≡ false = ground arith in
        let (rest, valid) = taken_cases rb v e (write sink p).0 (omega arith) moves in
        rw (test, eq)
          (finish-WritesTo rb (advanced rb (write sink p).0) sink (write sink p).2 (write sink p).0
            (write sink p).1 took rest valid)

    pub slice-contents :
        (n : ℕ) → n ≡ buffered rb → rb.r + n ≤ rb.size → slice rb.buf rb.r (rb.r + n) ≡ contents rb
    slice-contents n h k =
        let back : rb.r + n - rb.r ≡ n = omega arith in
        rw (back, h) (sym (window_flat rb.buf rb.r (buffered rb) (omega (arith, h, v.sized))))

    pub flat-WritesTo : ltb rb.r rb.w ≡ true → WritesTo rb sink (write_to_flat writer rb sink)
    unfolding write_to_flat
    flat-WritesTo flat =
        let n = rb.w - rb.r in
        let p = slice rb.buf rb.r (rb.r + n) in
        let m = (write sink p).0 in
        let q = slice-contents n (sym (buffered_flat rb v flat)) (ground arith) in
        let few : m ≤ n =
          omega (
            arith,
            count_fits sink p,
            ap length q,
            length-contents rb v,
            buffered_flat rb v flat,
          ) in
        one_write p n (reset_if_drained (record rb { r = rb.r + m }))
          (sym (buffered_flat rb v flat)) q
          (ap (λ k. reset_if_drained (record rb { r = k }))
            (ground (arith, mod_cases (rb.r + m) rb.size)))
          (inr (ground arith))

    pub one-WritesTo :
        ltb rb.r rb.w ≡ false
        → rb.r + (rb.size - rb.r + rb.w) ≤ rb.size
        → ((q : List ℕ) → 0 < length q → 0 < (write sink q).0) ⊎ (rb.r ≢ rb.w)
        → WritesTo rb sink (write_to_one writer rb (rb.size - rb.r + rb.w) sink)
    unfolding write_to_one
    one-WritesTo round fits moves =
        let n = rb.size - rb.r + rb.w in
        let p = slice rb.buf rb.r (rb.r + n) in
        let all = sym (buffered_round rb v e round) in
        let q = slice-contents n all fits in
        one_write p n (advanced rb (write sink p).0) all q refl (
          progress p (omega (arith, ap length q, length-contents rb v, buffered_nonempty rb v e))
            moves)
      where
        progress :
            (p : List ℕ)
            → 0 < length p
            → ((q : List ℕ) → 0 < length q → 0 < (write sink q).0) ⊎ (rb.r ≢ rb.w)
            → (0 < (write sink p).0) ⊎ (rb.r ≢ rb.w)
        progress p some_bytes (inl f) = inl (f p some_bytes)
        progress p some_bytes (inr ne) = inr ne
