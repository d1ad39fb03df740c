-- ===== src/Ring/WriteTo/Rounds.antt =====
-- `WriteTo` of a ring whose contents go round the end of its slice.
use gtcp.Prelude.{
  ℕ, ◌+◌, ◌-◌, ◌%◌, ◌≤◌, ◌<◌, ◌≡◌, inl, inr, refl, sym, ap, ◌∙◌, false, Option, none, some, ◌++◌,
  arith, ltb, if◌then◌else◌, length, take, drop, append_assoc, Bool-cases,
}
use gtcp.Prelude.Slices.{byte_lengths, take-add, drop-drop, take_all}
use gtcp.Errors.{Error, short_write}
use gtcp.Io.{Writer}
use gtcp.Ring.{Buffer, buffered, reset_if_drained}
use gtcp.Ring.Window.{window, window_flat, take-window}
use gtcp.Ring.View.{contents, IsValid, r-ne-w, buffered_round, length-contents}
use gtcp.Ring.Advance.{mod_cases, advanced}
use gtcp.Ring.WriteTo.{write_to_two, write_to_second}
use gtcp.Ring.WriteTo.Taken.{shifted, taken_cases, moved_cases}
use gtcp.Ring.WriteTo.Parts.{WritesTo, finish-WritesTo, taken_prefix}

module _ (writer : Writer) where
  open writer use {Sink, write, accepted, takes_prefix, count_fits}

  -- The second write of a buffer that goes round the end, after `k` bytes.
  second-WritesTo :
      (rb rb' : Buffer) (sink sink' : Sink) (k c2 : ℕ)
      → IsValid rb'
      → rb'.is_empty ≡ false
      → rb'.r ≡ 0
      → c2 ≡ buffered rb'
      → c2 < rb'.size
      → accepted sink' ≡ accepted sink ++ take k (contents rb)
      → contents rb' ≡ drop k (contents rb)
      → WritesTo writer rb sink (write_to_second writer rb' k c2 sink')
  unfolding write_to_second
  second-WritesTo rb rb' sink sink' k c2 v e start all small took left =
      let p = take c2 rb'.buf in
      let m = (write sink' p).0 in
      let q : p ≡ contents rb' =
        ap (λ (n : ℕ). take n rb'.buf) all
        ∙ sym (window_flat rb'.buf 0 (buffered rb') (omega (arith, v.sized)))
        ∙ ap (λ n. window rb'.buf n (buffered rb')) (sym start) in
      let (fits, more) =
        taken_prefix writer rb' v e sink' p c2 (omega arith)
          (q ∙ sym (take_all c2 (contents rb') (omega (arith, length-contents rb' v)))) in
      let test : ltb c2 m ≡ false = ground arith in
      let (rest, valid) =
        taken_cases rb' v e m (omega arith) (inr (r-ne-w rb' v e (omega arith))) in
      let at : m ≡ (rb'.r + m) % rb'.size = ground (arith, mod_cases (rb'.r + m) rb'.size) in
      rw (test, ap (λ n. reset_if_drained (record rb' { r = n })) at)
        (finish-WritesTo writer rb (advanced rb' m) sink (write sink' p).2 (k + m) (write sink' p).1
          (more
            ∙ rw (took, left, take-add k m (contents rb))
                (append_assoc (accepted sink) (take k (contents rb))
                  (take m (drop k (contents rb)))))
          (rest ∙ ap (drop m) left ∙ drop-drop m k (contents rb)) valid)

  module _ (rb : Buffer) (v : IsValid rb) (e : rb.is_empty ≡ false) (sink : Sink)
      (round : ltb rb.r rb.w ≡ false) (over : rb.size < rb.r + (rb.size - rb.r + rb.w)) where
    abbrev c1 : ℕ
    c1 = rb.size - rb.r

    inside : (rb.r < rb.size) × (rb.w < rb.size)
    inside = ground arith

    c1-lt : c1 < buffered rb
    c1-lt = omega (arith, inside, buffered_round rb v e round)

    first_part : drop rb.r rb.buf ≡ take c1 (contents rb)
    first_part = sym (
        take-window rb.buf rb.r (buffered rb) c1 (omega (arith, c1-lt))
        ∙ window_flat rb.buf rb.r c1 (omega (arith, inside, v.sized))
        ∙ take_all c1 (drop rb.r rb.buf) (omega (byte_lengths, v.sized)))

    all_first :
        (sink' : Sink)
        → accepted sink' ≡ accepted sink ++ take c1 (contents rb)
        → WritesTo writer rb sink
            (write_to_second writer (shifted rb c1) c1 (rb.size - rb.r + rb.w - c1) sink')
    all_first sink' took =
        let (left, valid) = moved_cases rb v e c1 c1-lt in
        second-WritesTo rb (shifted rb c1) sink sink' c1 (rb.size - rb.r + rb.w - c1) valid e
          (ground (arith, inside, mod_cases (rb.r + c1) rb.size))
          (omega (
            byte_lengths,
            length-contents (shifted rb c1) valid,
            ap length left,
            length-contents rb v,
            buffered_round rb v e round,
          ))
          (omega (arith, inside)) took left

    after_first :
        (m : ℕ) (err : Option Error) (sink' : Sink)
        → m ≤ c1
        → accepted sink' ≡ accepted sink ++ take m (contents rb)
        → WritesTo writer rb sink (elim err [
          | some e ↦ some (m, some e, shifted rb m, sink')
          | none ↦
              if ltb m c1
              then some (m, some short_write, shifted rb m, sink')
              else write_to_second writer (shifted rb m) m (rb.size - rb.r + rb.w - c1) sink'
        ])
    after_first m (some err) sink' h took =
        let (left, valid) = moved_cases rb v e m (omega (arith, c1-lt)) in
        record {
          count = m;
          error = some err;
          buffer = shifted rb m;
          sink' = sink';
          returned = refl;
          taken = took;
          rest = left;
          valid = valid;
        }
    after_first m none sink' h took = elim (Bool-cases (ltb m c1)) [
      | inl short ↦
          let (left, valid) = moved_cases rb v e m (omega (arith, c1-lt)) in
          rw short (record {
            count = m;
            error = some short_write;
            buffer = shifted rb m;
            sink' = sink';
            returned = refl;
            taken = took;
            rest = left;
            valid = valid;
          })
      | inr full ↦
          let same : m ≡ c1 = ground arith in
          rw (full, same)
            (all_first sink' (took ∙ ap (λ n. accepted sink ++ take n (contents rb)) same))
    ]

    pub two-WritesTo : WritesTo writer rb sink (write_to_two writer rb (rb.size - rb.r + rb.w) sink)
    unfolding write_to_two
    two-WritesTo =
        let p = drop rb.r rb.buf in
        let (fits, took) = taken_prefix writer rb v e sink p c1 (omega (arith, c1-lt)) first_part in
        let test : ltb c1 (write sink p).0 ≡ false = ground arith in
        rw test (after_first (write sink p).0 (write sink p).1 (write sink p).2 fits took)
