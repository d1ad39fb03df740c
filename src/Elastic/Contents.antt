-- ===== src/Elastic/Contents.antt =====
-- The elastic buffer as one queue of bytes: those of the ring, then those of the list.
use gtcp.Prelude.{ℕ, ◌≡◌, refl, ap, true, false, List, [], ◌∷◌, ◌++◌, arith, length}
use gtcp.Prelude.Int.{ℤ}
use gtcp.Prelude.Slices.{flatten, byte_lengths}
use gtcp.LinkedList
use gtcp.LinkedList.Queue
use gtcp.Elastic.RingBuffer
use gtcp.Elastic.RingBuffer.Contents
use gtcp.Elastic.{Buffer, buffered, is_empty, reset, release}

abbrev pub contents : Buffer → List ℕ
contents mb = Contents.contents mb.ring_buffer ++ Queue.contents mb.list_buffer

pub record IsValid (mb : Buffer) : Type 0 where
  pub ring_valid : Contents.IsValid mb.ring_buffer
  pub list_valid : Queue.IsValid mb.list_buffer

-- A list without nodes holds nothing.
pub no_bytes :
    (nodes : List (List ℕ)) → (elim nodes [ [] ↦ true | _ ↦ false ]) ≡ true → flatten nodes ≡ []
no_bytes [] h = refl
no_bytes (b ∷ nodes) h = absurd (ground arith)

module _ (mb : Buffer) (v : IsValid mb) where
  -- On a valid elastic buffer `Buffered` is the number of bytes of the contents.
  pub buffered_lem : buffered mb ≡ length (contents mb)
  unfolding buffered LinkedList.buffered
  buffered_lem = omega (
    byte_lengths,
    Contents.length-contents mb.ring_buffer v.ring_valid,
    v.list_valid.bytes_counts,
  )

  pub is_empty_lem : is_empty mb ≡ true → contents mb ≡ []
  unfolding is_empty LinkedList.is_empty
  is_empty_lem h = rw (
    Contents.contents_nil mb.ring_buffer v.ring_valid (ground arith),
    no_bytes mb.list_buffer.nodes (ground arith),
  )

  -- On a valid elastic buffer `Reset` and `Release` each leave a valid buffer with no contents.
  pub reset_lem :
      (k : ℤ)
      → (contents (reset mb k) ≡ [])
        × IsValid (reset mb k)
        × (contents (release mb) ≡ [])
        × IsValid (release mb)
  unfolding reset release LinkedList.reset RingBuffer.release
  reset_lem k = (
    ap (λ (x : List ℕ). x ++ []) (Contents.contents-reset mb.ring_buffer v.ring_valid),
    record {
      ring_valid = Contents.reset-IsValid mb.ring_buffer v.ring_valid;
      list_valid = record { size_counts = refl; bytes_counts = refl };
    },
    refl,
    record { ring_valid = _; list_valid = record { size_counts = refl; bytes_counts = refl } },
  )
