-- ===== src/Elastic/Look.antt =====
-- `Peek` of the elastic buffer shows a front part of the bytes, of the ring and then of the list.
use mathlib.Core.Path.{subst}
use gtcp.Prelude.{
  ℕ, ◌≤◌, ◌<◌, ◌≡◌, sym, ap, ◌∙◌, inl, inr, List, [], ◌∷◌, ◌++◌, arith, length, take, leb,
  Bool-cases, append-nil,
}
use gtcp.Prelude.Int.{ℤ, pos}
use gtcp.Prelude.Slices.{flatten, byte_lengths, take_all, take-append_le}
use gtcp.LinkedList.{limit_of, peek_with_bytes}
use gtcp.LinkedList.Queue
use gtcp.LinkedList.Look.{Looks, peek_with_bytes_lem}
use gtcp.Elastic.RingBuffer
use gtcp.Elastic.RingBuffer.Contents
use gtcp.Elastic.{Buffer, peek}
use gtcp.Elastic.Contents.{contents, IsValid}

limit_positive : (k : ℤ) → 0 < limit_of k
limit_positive k = ground arith

limit_of_limit : (n : ℕ) → 0 < n → limit_of (pos n) ≡ n
limit_of_limit n h = ground arith

module _ (mb : Buffer) (v : IsValid mb) (n : ℕ) (some_bytes : 0 < n) where
  abbrev ring_bytes : List ℕ
  ring_bytes = Contents.contents mb.ring_buffer

  parts_of_ring :
      (head tail : List ℕ)
      → head ++ tail ≡ take n ring_bytes
      → n ≤ length ring_bytes
      → Looks (contents mb) n 0 (head ∷ tail ∷ [])
  parts_of_ring head tail h enough =
      let all : flatten (head ∷ tail ∷ []) ≡ take n ring_bytes =
        ap (λ (x : List ℕ). head ++ x) (append-nil tail) ∙ h in
      let size : length (take n ring_bytes) ≡ n = omega byte_lengths in
      record {
        front =
            rw (all, size)
              (sym (take-append_le n ring_bytes (Queue.contents mb.list_buffer) enough));
        enough = omega (byte_lengths, ap length all);
      }

  parts_and_list :
      (head tail : List ℕ)
      → head ++ tail ≡ take n ring_bytes
      → length ring_bytes ≤ n
      → flatten (head ∷ tail ∷ []) ++ Queue.contents mb.list_buffer ≡ contents mb
  parts_and_list head tail h few =
      ap (λ (x : List ℕ). x ++ Queue.contents mb.list_buffer)
        (ap (λ (x : List ℕ). head ++ x) (append-nil tail) ∙ h ∙ take_all n ring_bytes few)

-- On a valid elastic buffer the slices that `Peek(k)` returns are a front part of the contents,
-- of at least the limit's bytes or all of them; the limit is k, or math.MaxInt32 for k ≤ 0.
pub elastic_peek_lem :
    (mb : Buffer) (k : ℤ) → IsValid mb → Looks (contents mb) (limit_of k) 0 (peek mb k)
unfolding peek
elastic_peek_lem mb k v =
    let n = limit_of k in
    let h = limit_positive k in
    let b = mb.ring_buffer in
    let parts = Contents.peek_parts b n v.ring_valid h in
    let head = (RingBuffer.peek b (pos n)).0 in
    let tail = (RingBuffer.peek b (pos n)).1 in
    let size = Contents.length-contents b v.ring_valid in
    elim (Bool-cases (leb n (RingBuffer.buffered b))) [
      | inl enough ↦ rw enough (parts_of_ring mb v n h head tail parts (ground (arith, size)))
      | inr few ↦ rw few (
          rw⁻¹ (parts_and_list mb v n h head tail parts (ground (arith, size))) (
            subst
              (λ m.
                Looks (flatten (head ∷ tail ∷ []) ++ Queue.contents mb.list_buffer) m 0
                  (peek_with_bytes mb.list_buffer (pos n) (head ∷ tail ∷ [])))
              (limit_of_limit n h) (peek_with_bytes_lem mb.list_buffer (pos n) (head ∷ tail ∷ []))))
    ]
