-- ===== src/Ring/WriteTo.antt =====
-- `WriteTo` of pkg/buffer/ring/ring_buffer.go. `none` is its panic on an invalid count.
pub mod Taken
pub mod Parts
pub mod Rounds
pub mod Laws
use gtcp.Prelude.{
  ℕ, ◌+◌, ◌-◌, ◌%◌, Bool, true, false, Option, none, some, List, ltb, leb, ◌==◌, if◌then◌else◌, not,
  take, drop,
}
use gtcp.Prelude.Slices.{slice}
use gtcp.Errors.{Error, ring_is_empty, short_write}
use gtcp.Io.{Writer}
use gtcp.Ring.{Buffer, reset_if_drained}

module _ (writer : Writer) where
  open writer use {Sink, write}

  abbrev pub Outcome : Type 0
  Outcome = Option (ℕ × Option Error × Buffer × Sink)

  -- `if err != nil { … }; if !rb.isEmpty { … io.ErrShortWrite }; … nil`
  unfoldable pub finish : ℕ → Option Error → Buffer → Sink → Outcome
  finish count (some e) rb sink = some (count, some e, rb, sink)
  finish count none rb sink =
      some (count, if not rb.is_empty then some short_write else none, rb, sink)

  -- Lines 401 to 418.
  unfoldable pub write_to_flat : Buffer → Sink → Outcome
  write_to_flat rb sink =
      let n = rb.w - rb.r in
      let (m, err, sink') = write sink (slice rb.buf rb.r (rb.r + n)) in
      if ltb n m then none else finish m err (reset_if_drained (record rb { r = rb.r + m })) sink'

  -- Lines 421 to 437.
  unfoldable pub write_to_one : Buffer → ℕ → Sink → Outcome
  write_to_one rb n sink =
      let (m, err, sink') = write sink (slice rb.buf rb.r (rb.r + n)) in
      if ltb n m
      then none
      else finish m err (reset_if_drained (record rb { r = (rb.r + m) % rb.size })) sink'

  -- Lines 453 to 469: the second write, of the `c2` bytes at the start of the slice.
  unfoldable pub write_to_second : Buffer → ℕ → ℕ → Sink → Outcome
  write_to_second rb c1 c2 sink =
      let (m, err, sink') = write sink (take c2 rb.buf) in
      if ltb c2 m then none else finish (c1 + m) err (reset_if_drained (record rb { r = m })) sink'

  -- Lines 439 to 470.
  unfoldable pub write_to_two : Buffer → ℕ → Sink → Outcome
  write_to_two rb n sink =
      let c1 = rb.size - rb.r in
      let (m, err, sink') = write sink (drop rb.r rb.buf) in
      let rb' = record rb { r = (rb.r + m) % rb.size } in
      if ltb c1 m then none else elim err [
        | some e ↦ some (m, some e, rb', sink')
        | none ↦
            if ltb m c1
            then some (m, some short_write, rb', sink')
            else write_to_second rb' m (n - c1) sink'
      ]

  unfoldable pub write_to : Buffer → Sink → Outcome
  write_to rb sink =
      if rb.is_empty
      then some (0, some ring_is_empty, rb, sink)
      else if ltb rb.r rb.w
      then write_to_flat rb sink
      else let n = rb.size - rb.r + rb.w in
        if leb (rb.r + n) rb.size then write_to_one rb n sink else write_to_two rb n sink
