-- ===== src/Elastic/WriteTo.antt =====
-- `WriteTo` of the elastic buffer: the ring, then the list. `none` is a panic of either.
use gtcp.Prelude.{
  ℕ, ◌+◌, ◌<◌, ◌≡◌, refl, ap, ◌∙◌, true, Option, none, some, List, [], arith, length, ◌==◌,
  if◌then◌else◌,
}
use gtcp.Prelude.Slices.{drop_all}
use gtcp.Errors.{Error, ring_is_empty}
use gtcp.Io.{Writer}
use gtcp.Ring
use gtcp.Ring.View
use gtcp.Ring.Read.{read_lem}
use gtcp.LinkedList.Queue
use gtcp.LinkedList.WriteTo.{list_write_to}
use gtcp.Elastic.RingBuffer
use gtcp.Elastic.RingBuffer.Contents
use gtcp.Elastic.{Buffer, read}
use gtcp.Elastic.Contents.{contents, IsValid}

module _ (writer : Writer) where
  unfoldable pub elastic_write_to :
      Buffer → writer.Sink → Option (ℕ × Option Error × Buffer × writer.Sink)
  elastic_write_to mb sink = elim (RingBuffer.write_to writer mb.ring_buffer sink) [
    | none ↦ none
    | some (n, some e, ring, sink') ↦ some (n, some e, record mb { ring_buffer = ring }, sink')
    | some (n, none, ring, sink') ↦ elim (list_write_to writer mb.list_buffer sink') [
      | none ↦ none
      | some (m, err, list, sink'') ↦
          some (n + m, err, record mb { ring_buffer = ring; list_buffer = list }, sink'')
    ]
  ]

-- A ring that holds nothing is given back.
given_back :
    (rb : Ring.Buffer) → View.IsValid rb → View.contents rb ≡ [] → RingBuffer.done (some rb) ≡ none
unfolding RingBuffer.done
given_back rb v h =
    let e : rb.is_empty ≡ true =
      ground (arith, ap length h, View.length-contents rb v, View.buffered_nonempty rb v) in
    ap (λ drained. if drained then none else some rb) e

-- A read of all its bytes leaves no ring.
read_drains :
    (b : RingBuffer.RingBuffer) (p : List ℕ)
    → Contents.IsValid b
    → 0 < length p
    → length p ≡ length (Contents.contents b)
    → (RingBuffer.read b p).3 ≡ none
unfolding RingBuffer.read
read_drains none p v h k = refl
read_drains (some rb) p v h k =
    let r = read_lem rb v p in
    given_back (Ring.read rb p).3 r.valid
      (r.rest ∙ drop_all (length p) (View.contents rb) (omega arith))

module _ (writer : Writer) where
  no_ring :
      (mb : Buffer) (sink : writer.Sink)
      → let mb' = record mb { ring_buffer = none } in
        elastic_write_to writer mb' sink ≡ some (0, some ring_is_empty, mb', sink)
  unfolding elastic_write_to RingBuffer.write_to
  no_ring mb sink = refl

  -- On a valid elastic buffer, after a `Read` of exactly the bytes of the ring, which has some,
  -- `WriteTo` returns the count 0 and `ErrIsEmpty` and changes neither the buffer nor the
  -- writer, although the buffer still holds all the bytes of the list.
  pub elastic_write_to_stuck :
      (mb : Buffer) (p : List ℕ) (sink : writer.Sink)
      → IsValid mb
      → 0 < length p
      → length p ≡ length (Contents.contents mb.ring_buffer)
      → let mb' = (read mb p).3 in
        (elastic_write_to writer mb' sink ≡ some (0, some ring_is_empty, mb', sink))
        × (contents mb' ≡ Queue.contents mb.list_buffer)
  unfolding read
  elastic_write_to_stuck mb p sink v h k =
      let r = Contents.ring_buffer_read_lem mb.ring_buffer p v.ring_valid in
      let all : (RingBuffer.read mb.ring_buffer p).0 == length p ≡ true = ground (arith, r.count) in
      let gone = read_drains mb.ring_buffer p v.ring_valid h k in
      rw (all, gone) (no_ring mb sink, refl)
