-- ===== src/Elastic/Tests.antt =====
-- The elastic buffer on small inputs, and its theorems at concrete ones.
use gtcp.Prelude.{
  sym, ap, length, ◌++◌, none, ℕ, List, ◌≡◌, ◌≤◌, ◌^◌, refl, false, some, [], ◌∷◌, arith, length,
}
use gtcp.Prelude.Slices.{take_all}
use gtcp.Io.{Writer}
use gtcp.Elastic.RingBuffer.Contents
use gtcp.Ring
use gtcp.Elastic.RingBuffer
use gtcp.Elastic.{Buffer, read, write, writev}
use gtcp.Elastic.Contents.{IsValid}
use gtcp.Elastic.Read.{Reads, elastic_read_lem}
use gtcp.Elastic.Write.{Writes, elastic_write_lem}
use gtcp.Elastic.Writev.{elastic_writev_lem}
use gtcp.Elastic.Samples.{zeros, new_rings}

-- Two bytes in a ring of four, two in the list.
abbrev both : Buffer
both = record {
  max_static_bytes = 4;
  ring_buffer =
      some (record { buf = 0 ∷ 1 ∷ 2 ∷ 0 ∷ []; size = 4; r = 1; w = 3; is_empty = false });
  list_buffer = record { nodes = (3 ∷ 4 ∷ []) ∷ []; size = 1; bytes = 2 };
}

both-IsValid : IsValid both
both-IsValid = record {
  ring_valid = record { sized = refl; positions = (omega arith, omega arith) };
  list_valid = record { size_counts = refl; bytes_counts = refl };
}

-- The ring alone.
abbrev ring_only : Buffer
ring_only = record both { list_buffer = record { nodes = []; size = 0; bytes = 0 } }

ring_only-IsValid : IsValid ring_only
ring_only-IsValid = record {
  ring_valid = record { sized = refl; positions = (omega arith, omega arith) };
  list_valid = record { size_counts = refl; bytes_counts = refl };
}

elastic_read_lem_example : Reads both (0 ∷ 0 ∷ 0 ∷ []) (read both (0 ∷ 0 ∷ 0 ∷ []))
elastic_read_lem_example = elastic_read_lem both (0 ∷ 0 ∷ 0 ∷ []) both-IsValid

small : RingBuffer.capacity ring_only.ring_buffer ≤ 2 ^ 61
unfolding RingBuffer.capacity Ring.capacity
small = omega arith

smaller : RingBuffer.capacity ring_only.ring_buffer ≤ 2 ^ 60
unfolding RingBuffer.capacity Ring.capacity
smaller = omega arith

elastic_write_lem_example :
    Writes ring_only (5 ∷ 6 ∷ 7 ∷ []) (write zeros new_rings ring_only (5 ∷ 6 ∷ 7 ∷ []))
elastic_write_lem_example =
    elastic_write_lem zeros new_rings ring_only (5 ∷ 6 ∷ 7 ∷ []) ring_only-IsValid small
      (omega arith)

elastic_writev_lem_example :
    Writes ring_only
      (5 ∷ 6 ∷ 7 ∷ 8 ∷ [])
      (writev zeros new_rings ring_only ((5 ∷ []) ∷ (6 ∷ 7 ∷ []) ∷ (8 ∷ []) ∷ []))
elastic_writev_lem_example =
    elastic_writev_lem zeros new_rings ring_only ((5 ∷ []) ∷ (6 ∷ 7 ∷ []) ∷ (8 ∷ []) ∷ [])
      ring_only-IsValid smaller (omega arith) (omega arith)

-- A writer that keeps all that it is given.
abbrev keeps_all : Writer
keeps_all = record {
  Sink = List ℕ;
  write = λ s p. (length p, none, s ++ p);
  accepted = λ s. s;
  takes_prefix = λ s p. ap (λ (x : List ℕ). s ++ x) (sym (take_all (length p) p (omega arith)));
  count_fits = λ s p. omega arith;
}

two_in_ring : 2 ≡ length (Contents.contents both.ring_buffer)
unfolding Ring.buffered
two_in_ring = refl
