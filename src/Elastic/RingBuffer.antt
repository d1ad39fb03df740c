-- ===== src/Elastic/RingBuffer.antt =====
-- pkg/buffer/elastic/elastic_ring_buffer.go: a ring that is taken from a pool when it is needed, and
-- given back when it is empty. `none` is the nil pointer; a ring given back is out of reach.
pub mod Contents
use gtcp.Prelude.{ℕ, Bool, true, false, Option, none, some, List, [], length, ◌==◌, if◌then◌else◌}
use gtcp.Prelude.Int.{ℤ}
use gtcp.Alloc.{Alloc}
use gtcp.RingPool.{RingPool}
use gtcp.Errors.{Error, ring_is_empty}
use gtcp.Io.{Writer}
use gtcp.Ring
use gtcp.Ring.WriteTo

abbrev pub RingBuffer : Type 0
RingBuffer = Option Ring.Buffer

-- `Done`
unfoldable pub release : RingBuffer → RingBuffer
release b = none

unfoldable pub done : RingBuffer → RingBuffer
done none = none
done (some rb) = if rb.is_empty then none else some rb

unfoldable pub peek : RingBuffer → ℤ → List ℕ × List ℕ
peek none n = ([], [])
peek (some rb) n = Ring.peek rb n

unfoldable pub discard : RingBuffer → ℤ → ℕ × Option Error × RingBuffer
discard none n = (0, some ring_is_empty, none)
discard (some rb) n = let (discarded, rb') = Ring.discard rb n in (discarded, none, done (some rb'))

unfoldable pub read : RingBuffer → List ℕ → ℕ × Option Error × List ℕ × RingBuffer
read none p = (0, some ring_is_empty, p, none)
read (some rb) p = let (n, err, p', rb') = Ring.read rb p in (n, err, p', done (some rb'))

unfoldable pub read_byte : RingBuffer → ℕ × Option Error × RingBuffer
read_byte none = (0, some ring_is_empty, none)
read_byte (some rb) = let (c, err, rb') = Ring.read_byte rb in (c, err, done (some rb'))

unfoldable pub buffered : RingBuffer → ℕ
buffered none = 0
buffered (some rb) = Ring.buffered rb

unfoldable pub len : RingBuffer → ℕ
len none = 0
len (some rb) = Ring.len rb

unfoldable pub capacity : RingBuffer → ℕ
capacity none = 0
capacity (some rb) = Ring.capacity rb

unfoldable pub available : RingBuffer → ℕ
available none = 0
available (some rb) = Ring.available rb

unfoldable pub bytes : RingBuffer → List ℕ
bytes none = []
bytes (some rb) = Ring.bytes rb

unfoldable pub is_full : RingBuffer → Bool
is_full none = false
is_full (some rb) = Ring.is_full rb

unfoldable pub is_empty : RingBuffer → Bool
is_empty none = true
is_empty (some rb) = rb.is_empty

unfoldable pub reset : RingBuffer → RingBuffer
reset none = none
reset (some rb) = some (Ring.reset rb)

-- `none` is the panic of the ring.
unfoldable pub write_to :
    (writer : Writer)
    → RingBuffer
    → writer.Sink
    → Option (ℕ × Option Error × RingBuffer × writer.Sink)
write_to writer none sink = some (0, some ring_is_empty, none, sink)
write_to writer (some rb) sink = elim (WriteTo.write_to writer rb sink) [
  | none ↦ none
  | some (n, err, rb', sink') ↦ some (n, err, done (some rb'), sink')
]

module _ (alloc : Alloc) (pool : RingPool) where
  -- `instance`
  unfoldable pub taken : RingBuffer → Ring.Buffer
  taken none = pool.get
  taken (some rb) = rb

  unfoldable pub write : RingBuffer → List ℕ → Option (ℕ × RingBuffer)
  write b p =
      if length p == 0
      then some (0, b)
      else elim (Ring.write alloc (taken b) p) [ none ↦ none | some (n, rb) ↦ some (n, some rb) ]

  -- A string is its bytes.
  unfoldable pub write_string : RingBuffer → List ℕ → Option (ℕ × RingBuffer)
  write_string b s =
      if length s == 0 then some (0, b) else elim (Ring.write_string alloc (taken b) s) [
        | none ↦ none
        | some (n, rb) ↦ some (n, some rb)
      ]

  unfoldable pub write_byte : RingBuffer → ℕ → Option RingBuffer
  write_byte b c = elim (Ring.write_byte alloc (taken b) c) [
    | none ↦ none
    | some rb ↦ some (some rb)
  ]
