-- ===== src/Elastic/NoEmpty.antt =====
-- An elastic buffer without an empty node shows a byte when it holds one, also in its first slices.

use gtcp.Prelude.{
  ℕ, Bool, suc, ◌<◌, ◌≡◌, inl, inr, true, false, List, [], ◌∷◌, arith, leb, length, take,
  if◌then◌else◌, Bool-cases,
}
use gtcp.Prelude.Int.{ℤ, pos, ◌-ℤ◌, leb_ℤ}
use gtcp.Prelude.Slices.{flatten, byte_lengths, take-nil}
use gtcp.LinkedList
use gtcp.LinkedList.{limit_of, peek_with, peek_with_bytes}
use gtcp.LinkedList.NoEmpty as Nodes
use gtcp.LinkedList.NoEmpty.{NoEmpty}
use gtcp.Elastic.RingBuffer
use gtcp.Elastic.RingBuffer.Contents
use gtcp.Elastic.{Buffer, peek, is_empty, discard}
use gtcp.Elastic.Contents.{contents, IsValid}
use gtcp.Elastic.Look.{elastic_peek_lem}

-- Two slices, or some without an empty one.
first_of_either :
    (m : ℕ) (head tail : List ℕ) (shown : List (List ℕ))
    → NoEmpty shown
    → (test : Bool) → 0 < length (flatten (if test then head ∷ tail ∷ [] else shown))
    → 0 < length (flatten (take (suc (suc m)) (if test then head ∷ tail ∷ [] else shown)))
first_of_either m head tail shown s true h = rw (take-nil m) h
first_of_either m head tail shown s false h = Nodes.first_byte (suc m) shown s h

module _ (mb : Buffer) (v : IsValid mb) (s : NoEmpty mb.list_buffer.nodes) where
  pub discard-NoEmpty : (k : ℤ) → NoEmpty (discard mb k).2.list_buffer.nodes
  unfolding discard
  discard-NoEmpty k = elim (Bool-cases (leb_ℤ k (pos (RingBuffer.discard mb.ring_buffer k).0))) [
    | inl all ↦ rw all s
    | inr more ↦ rw more (
        Nodes.discard-NoEmpty mb.list_buffer (k -ℤ pos (RingBuffer.discard mb.ring_buffer k).0)
          v.list_valid s)
  ]

  pub holds_bytes : is_empty mb ≡ false → 0 < length (contents mb)
  unfolding is_empty LinkedList.is_empty
  holds_bytes h = elim (Bool-cases (RingBuffer.is_empty mb.ring_buffer)) [
    | inr ring ↦ omega (byte_lengths, Contents.is_empty_false mb.ring_buffer v.ring_valid ring)
    | inl none ↦
        omega (byte_lengths, Nodes.some_bytes mb.list_buffer.nodes s (ground (arith, none, h)))
  ]

  first_byte :
      (m : ℕ)
      → 0 < length (flatten (peek mb (pos 0)))
      → 0 < length (flatten (take (suc (suc m)) (peek mb (pos 0))))
  unfolding peek peek_with_bytes
  first_byte m h =
      let n = limit_of (pos 0) in
      let (head, tail) = RingBuffer.peek mb.ring_buffer (pos n) in
      first_of_either m head tail (peek_with (head ∷ tail ∷ []) mb.list_buffer.nodes n 0)
        (Nodes.peek_with-NoEmpty (head ∷ tail ∷ []) mb.list_buffer.nodes n 0 s)
        (leb n (RingBuffer.buffered mb.ring_buffer)) h

  pub shows_bytes :
      (m : ℕ) → is_empty mb ≡ false → 0 < length (flatten (take (suc (suc m)) (peek mb (pos 0))))
  shows_bytes m h =
      first_byte m (omega (arith, (elastic_peek_lem mb (pos 0) v).enough, holds_bytes h))
