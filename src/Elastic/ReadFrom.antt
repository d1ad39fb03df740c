-- ===== src/Elastic/ReadFrom.antt =====
-- `ReadFrom` of the two elastic buffers (elastic_ring_buffer.go and elastic_ring_list_buffer.go), with
-- the reader as a parameter and a bound on the rounds of the loop as fuel.
use gtcp.Prelude.{ℕ, zero, suc, ◌||◌, not, Option, none, some, List, [], ◌∷◌, leb, if◌then◌else◌}
use gtcp.Alloc.{Alloc}
use gtcp.Errors.{Error}
use gtcp.Io.{Reader}
use gtcp.Run.{Run, returns, spins, ◌>>=◌}
use gtcp.RingPool.{RingPool}
use gtcp.Ring.Growth.{min_read}
use gtcp.Ring.ReadFrom.{read_from}
use gtcp.LinkedList
use gtcp.LinkedList.ReadFrom
use gtcp.Elastic.RingBuffer
use gtcp.Elastic.{Buffer}

module _ (reader : Reader) where
  open reader use {Source, read}

  -- The calls that the loop of the linked list makes: slices of 512 bytes, up to the first error.
  list_calls : ℕ → Source → List ReadFrom.Call × Source
  list_calls zero src = ([], src)
  list_calls (suc fuel) src =
      let (p, err, src') = read src min_read in
      let (cs, last) = list_calls fuel src' in
      let c : ReadFrom.Call = record { bytes = p; err = err } in
      elim err [ some e ↦ (c ∷ [], src') | none ↦ (c ∷ cs, last) ]

module _ (alloc : Alloc) (pool : RingPool) (reader : Reader) where
  open reader use {Source, read}

  unfoldable pub elastic_ring_read_from :
      ℕ → RingBuffer.RingBuffer → Source → Run (ℕ × Option Error × RingBuffer.RingBuffer × Source)
  elastic_ring_read_from fuel b src =
      read_from alloc reader fuel (RingBuffer.taken alloc pool b) 0 src >>= λ (n, err, rb, src').
      returns (n, err, some rb, src')

  unfoldable pub elastic_read_from : ℕ → Buffer → Source → Run (ℕ × Option Error × Buffer × Source)
  unfolding list_calls
  elastic_read_from fuel mb src =
      let (cs, last) = list_calls reader fuel src in
      if not (LinkedList.is_empty mb.list_buffer)
        || leb mb.max_static_bytes (RingBuffer.buffered mb.ring_buffer)
      then elim (ReadFrom.read_from cs mb.list_buffer 0) [
        | none ↦ spins
        | some (n, err, list) ↦ returns (n, err, record mb { list_buffer = list }, last)
      ]
      else elastic_ring_read_from fuel mb.ring_buffer src >>= λ (n, err, ring, src').
          returns (n, err, record mb { ring_buffer = ring }, src')
