-- ===== src/Elastic.antt =====
-- pkg/buffer/elastic/elastic_ring_list_buffer.go: a ring comes first, and a linked list behind it.
-- `none` is a panic of the ring.
pub mod RingBuffer
pub mod Contents
pub mod Read
pub mod Write
pub mod Writev
pub mod Look
pub mod NoEmpty
pub mod WriteTo
pub mod ReadFrom
pub mod Samples
mod Tests
use gtcp.Prelude.{
  ℕ, ◌+◌, ◌-◌, Bool, true, false, ◌&&◌, ◌||◌, not, Option, none, some, List, [], ◌∷◌, ◌++◌, ltb,
  leb, ◌==◌, if◌then◌else◌, length, take, drop,
}
use gtcp.Prelude.Int.{ℤ, pos, pos_part, ◌-ℤ◌, leb_ℤ}
use gtcp.Alloc.{Alloc}
use gtcp.RingPool.{RingPool}
use gtcp.Errors.{Error, negative_size}
use gtcp.LinkedList
use RingBuffer

pub record Buffer : Type 0 where
  pub max_static_bytes : ℕ
  pub ring_buffer : RingBuffer.RingBuffer
  pub list_buffer : LinkedList.Buffer

-- `New`: the buffer, or the error.
unfoldable pub new : ℤ → Option Buffer × Option Error
new max_static_bytes = if leb_ℤ max_static_bytes (pos 0) then (none, some negative_size) else (
  some (record {
    max_static_bytes = pos_part max_static_bytes;
    ring_buffer = none;
    list_buffer = LinkedList.empty;
  }),
  none,
)

-- The count, the error, the new contents of `p` and the new buffer.
unfoldable pub read : Buffer → List ℕ → ℕ × Option Error × List ℕ × Buffer
read mb p =
    let (n, err, p', ring) = RingBuffer.read mb.ring_buffer p in
    if n == length p
    then (n, err, p', record mb { ring_buffer = ring })
    else let (m, tail, list) = LinkedList.read mb.list_buffer (drop n p') in
      (n + m, none, take n p' ++ tail, record mb { ring_buffer = ring; list_buffer = list })

unfoldable pub peek : Buffer → ℤ → List (List ℕ)
peek mb k =
    let n = LinkedList.limit_of k in
    let (head, tail) = RingBuffer.peek mb.ring_buffer (pos n) in
    if leb n (RingBuffer.buffered mb.ring_buffer)
    then head ∷ tail ∷ []
    else LinkedList.peek_with_bytes mb.list_buffer (pos n) (head ∷ tail ∷ [])

unfoldable pub discard : Buffer → ℤ → ℕ × Option Error × Buffer
discard mb n =
    let (discarded, err, ring) = RingBuffer.discard mb.ring_buffer n in
    if leb_ℤ n (pos discarded)
    then (discarded, err, record mb { ring_buffer = ring })
    else let (m, list) = LinkedList.discard mb.list_buffer (n -ℤ pos discarded) in
      (discarded + m, none, record mb { ring_buffer = ring; list_buffer = list })

-- Whether the bytes go to the list: it has some, or the ring has reached its limit.
unfoldable pub listed : Buffer → Bool
listed mb =
    not (LinkedList.is_empty mb.list_buffer)
    || leb mb.max_static_bytes (RingBuffer.buffered mb.ring_buffer)

unfoldable pub buffered : Buffer → ℕ
buffered mb = RingBuffer.buffered mb.ring_buffer + LinkedList.buffered mb.list_buffer

unfoldable pub is_empty : Buffer → Bool
is_empty mb = RingBuffer.is_empty mb.ring_buffer && LinkedList.is_empty mb.list_buffer

unfoldable pub reset : Buffer → ℤ → Buffer
reset mb max_static_bytes = record {
  max_static_bytes =
      if leb_ℤ max_static_bytes (pos 0) then mb.max_static_bytes else pos_part max_static_bytes;
  ring_buffer = RingBuffer.reset mb.ring_buffer;
  list_buffer = LinkedList.reset mb.list_buffer;
}

unfoldable pub release : Buffer → Buffer
release mb = record mb {
  ring_buffer = RingBuffer.release mb.ring_buffer;
  list_buffer = LinkedList.reset mb.list_buffer;
}

module _ (alloc : Alloc) (pool : RingPool) where
  -- `_, _ = mb.ringBuffer.Write(p[:writable]); mb.listBuffer.PushBack(p[writable:])`
  unfoldable pub write_both : Buffer → List ℕ → ℕ → Option Buffer
  write_both mb p writable = elim (RingBuffer.write alloc pool mb.ring_buffer (take writable p)) [
    | none ↦ none
    | some (n, ring) ↦ some (record mb {
      ring_buffer = ring;
      list_buffer = LinkedList.push_back_copy alloc (drop writable p) mb.list_buffer;
    })
  ]

  unfoldable pub write_ring : Buffer → List ℕ → Option (ℕ × Buffer)
  write_ring mb p = elim (RingBuffer.write alloc pool mb.ring_buffer p) [
    | none ↦ none
    | some (n, ring) ↦ some (n, record mb { ring_buffer = ring })
  ]

  unfoldable pub write : Buffer → List ℕ → Option (ℕ × Buffer)
  write mb p =
      let writable = RingBuffer.available mb.ring_buffer in
      if listed mb
      then some
          (length p, record mb { list_buffer = LinkedList.push_back_copy alloc p mb.list_buffer })
      else if leb mb.max_static_bytes (RingBuffer.len mb.ring_buffer) && ltb writable (length p)
      then elim (write_both mb p writable) [ none ↦ none | some mb' ↦ some (length p, mb') ]
      else write_ring mb p

  -- The loops of `Writev` that only push, with `cum` bytes so far.
  unfoldable pub push_all : List (List ℕ) → ℕ → Buffer → ℕ × Buffer
  push_all [] cum mb = (cum, mb)
  push_all (b ∷ bs) cum mb =
      push_all bs (cum + length b)
        (record mb { list_buffer = LinkedList.push_back_copy alloc b mb.list_buffer })

  -- The loop that writes to the ring what is writable, and the loop behind its `break`.
  unfoldable pub fill : List (List ℕ) → ℕ → ℕ → Buffer → Option (ℕ × Buffer)
  fill [] writable cum mb = some (cum, mb)
  fill (b ∷ bs) writable cum mb =
      if ltb writable (length b)
      then elim (write_both mb b writable) [
        | none ↦ none
        | some mb' ↦ some (push_all bs (cum + length b) mb')
      ]
      else elim (write_ring mb b) [
        | none ↦ none
        | some (n, mb') ↦ fill bs (writable - n) (cum + length b) mb'
      ]

  unfoldable pub writev : Buffer → List (List ℕ) → Option (ℕ × Buffer)
  writev mb bs =
      if listed mb
      then some (push_all bs 0 mb)
      else let writable =
          if ltb (RingBuffer.len mb.ring_buffer) mb.max_static_bytes
          then mb.max_static_bytes - RingBuffer.buffered mb.ring_buffer
          else RingBuffer.available mb.ring_buffer in
        fill bs writable 0 mb
