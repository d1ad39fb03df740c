-- ===== src/Elastic/Read.antt =====
-- `Read` and `Discard` of the elastic buffer take bytes off the ring, and then off the list.
use mathlib.Core.Path.{subst}
use gtcp.Prelude.{
  ℕ, ◌+◌, ◌-◌, ◌≤◌, ◌<◌, ◌≡◌, min, sym, ap, ◌∙◌, inl, inr, true, false, Option, none, List, ◌++◌,
  arith, length, take, drop, ◌==◌, Bool-cases,
}
use gtcp.Prelude.Int.{ℤ, pos, negsuc, pos_part, ◌-ℤ◌, leb_ℤ}
use gtcp.Prelude.Slices.{
  copy, byte_lengths, drop_all, drop-append_le, drop-append_ge, copy_at-copy, copy_at_full,
  length-copy,
}
use gtcp.Errors.{Error}
use gtcp.LinkedList
use gtcp.LinkedList.Queue
use gtcp.LinkedList.Read
use gtcp.LinkedList.Discard
use gtcp.LinkedList.Read.{list_read_lem}
use gtcp.LinkedList.Discard.{list_discard_lem}
use gtcp.Elastic.RingBuffer
use gtcp.Elastic.RingBuffer.Contents
use gtcp.Elastic.RingBuffer.Contents.{ring_buffer_read_lem, ring_buffer_discard_lem}
use gtcp.Elastic.{Buffer, read, discard}
use gtcp.Elastic.Contents.{contents, IsValid}

pub record Reads (mb : Buffer) (p : List ℕ) (out : ℕ × Option Error × List ℕ × Buffer)
    : Type 0 where
  pub count : out.0 ≡ min (length p) (length (contents mb))
  pub filled : out.2 ≡ copy p (contents mb)
  pub rest : contents out.3 ≡ drop (length p) (contents mb)
  pub valid : IsValid out.3

module _ (mb : Buffer) (v : IsValid mb) (p : List ℕ) where
  abbrev front : List ℕ
  front = Contents.contents mb.ring_buffer

  abbrev back : List ℕ
  back = Queue.contents mb.list_buffer

  -- The bytes of the ring are enough.
  enough :
      (q : List ℕ) (ring : RingBuffer.RingBuffer) (err : Option Error) (n : ℕ)
      → n ≡ length p
      → Contents.Reads mb.ring_buffer p (n, err, q, ring)
      → Reads mb p (n, err, q, record mb { ring_buffer = ring })
  enough q ring err n h r =
      let fits : length p ≤ length front = omega (arith, r.count) in
      record {
        count = omega (byte_lengths, r.count);
        filled = r.filled ∙ sym (copy_at_full p 0 (omega arith) front back (omega arith));
        rest =
            ap (λ (x : List ℕ). x ++ back) r.rest ∙ sym (drop-append_le (length p) front back fits);
        valid = record { ring_valid = r.valid; list_valid = v.list_valid };
      }

  -- The ring is drained, and the list goes on behind its bytes.
  further :
      (q q' : List ℕ) (ring : RingBuffer.RingBuffer) (list : LinkedList.Buffer) (err : Option Error)
      (n m : ℕ)
      → n < length p
      → Contents.Reads mb.ring_buffer p (n, err, q, ring)
      → Read.Reads mb.list_buffer (drop n q) 0 (m, q', list)
      → Reads mb p
          (n + m, none, take n q ++ q', record mb { ring_buffer = ring; list_buffer = list })
  further q q' ring list err n m h r s =
      let all : n ≡ length front = omega (arith, r.count) in
      let q_length : length q ≡ length p = ap length r.filled ∙ length-copy p front in
      record {
        count = omega (byte_lengths, s.count);
        filled =
            ap (λ (x : List ℕ). take n q ++ x) s.filled
            ∙ rw (r.filled, all) (copy_at-copy p front back (omega arith));
        rest =
            rw
              (
                r.rest,
                s.rest,
                drop_all (length p) front (omega arith),
                drop-append_ge (length p) front back (omega arith),
              )
              (ap (λ k. drop k back) (omega byte_lengths));
        valid = record { ring_valid = r.valid; list_valid = s.valid };
      }

-- On a valid elastic buffer `Read(p)` returns the smaller of len p and the number of buffered
-- bytes; p then starts with the front of the contents, those of the ring and then of the list,
-- and is unchanged behind it, the rest of the contents stays, and the buffer stays valid.
pub elastic_read_lem : (mb : Buffer) (p : List ℕ) → IsValid mb → Reads mb p (read mb p)
unfolding read
elastic_read_lem mb p v =
    let r = ring_buffer_read_lem mb.ring_buffer p v.ring_valid in
    let (n, err, q, ring) = RingBuffer.read mb.ring_buffer p in
    let (m, q', list) = LinkedList.read mb.list_buffer (drop n q) in
    elim (Bool-cases (n == length p)) [
      | inl done ↦ rw done (enough mb v p q ring err n (ground arith) r)
      | inr more ↦ rw more (
          further mb v p q q' ring list err n m (ground (arith, r.count)) r
            (list_read_lem mb.list_buffer (drop n q) v.list_valid))
    ]

pub record Discards (mb : Buffer) (n : ℕ) (out : ℕ × Option Error × Buffer) : Type 0 where
  pub count : out.0 ≡ min n (length (contents mb))
  pub rest : contents out.2 ≡ drop n (contents mb)
  pub valid : IsValid out.2

module _ (mb : Buffer) (v : IsValid mb) (n : ℕ) where
  -- The ring has more bytes than are to go, or as many.
  ring_alone :
      (ring : RingBuffer.RingBuffer) (err : Option Error) (d : ℕ)
      → n ≤ d
      → Contents.Discards mb.ring_buffer n (d, err, ring)
      → Discards mb n (d, err, record mb { ring_buffer = ring })
  ring_alone ring err d h r =
      let ring_bytes = Contents.contents mb.ring_buffer in
      let list_bytes = Queue.contents mb.list_buffer in
      let fits : n ≤ length ring_bytes = omega (arith, r.count) in
      record {
        count = omega (byte_lengths, r.count);
        rest =
            ap (λ (x : List ℕ). x ++ list_bytes) r.rest
            ∙ sym (drop-append_le n ring_bytes list_bytes fits);
        valid = record { ring_valid = r.valid; list_valid = v.list_valid };
      }

  ring_and_list :
      (ring : RingBuffer.RingBuffer) (list : LinkedList.Buffer) (err : Option Error) (d m : ℕ)
      → d < n
      → Contents.Discards mb.ring_buffer n (d, err, ring)
      → Discard.Discards mb.list_buffer (n - d) 0 (m, list)
      → Discards mb n (d + m, none, record mb { ring_buffer = ring; list_buffer = list })
  ring_and_list ring list err d m h r s =
      let ring_bytes = Contents.contents mb.ring_buffer in
      let list_bytes = Queue.contents mb.list_buffer in
      let all : d ≡ length ring_bytes = omega (arith, r.count) in
      record {
        count = omega (byte_lengths, s.count);
        rest =
            rw
              (
                r.rest,
                s.rest,
                drop_all n ring_bytes (omega arith),
                drop-append_ge n ring_bytes list_bytes (omega arith),
              )
              (ap (λ k. drop k list_bytes) (omega arith));
        valid = record { ring_valid = r.valid; list_valid = s.valid };
      }

-- What is left to discard after `d` bytes.
left_to_go : (k : ℤ) (d : ℕ) → leb_ℤ k (pos d) ≡ false → pos_part (k -ℤ pos d) ≡ pos_part k - d
left_to_go (pos n) d h = ground arith
left_to_go (negsuc n) d h = absurd (ground arith)

-- On a valid elastic buffer `Discard(k)` returns the smaller of k and the number of buffered
-- bytes, 0 for k ≤ 0, takes that many bytes off the front of the contents, and the buffer stays
-- valid.
pub elastic_discard_lem :
    (mb : Buffer) (k : ℤ) → IsValid mb → Discards mb (pos_part k) (discard mb k)
unfolding discard
elastic_discard_lem mb k v =
    let r = ring_buffer_discard_lem mb.ring_buffer k v.ring_valid in
    let (d, err, ring) = RingBuffer.discard mb.ring_buffer k in
    let s = list_discard_lem mb.list_buffer (k -ℤ pos d) v.list_valid in
    let (m, list) = LinkedList.discard mb.list_buffer (k -ℤ pos d) in
    elim (Bool-cases (leb_ℤ k (pos d))) [
      | inl done ↦ rw done (ring_alone mb v (pos_part k) ring err d (enough_gone k d done) r)
      | inr more ↦ rw more (
          ring_and_list mb v (pos_part k) ring list err d m (more_to_go k d more) r
            (subst (λ n. Discard.Discards mb.list_buffer n 0 (m, list)) (left_to_go k d more) s))
    ]
  where
    enough_gone : (k : ℤ) (d : ℕ) → leb_ℤ k (pos d) ≡ true → pos_part k ≤ d
    enough_gone (pos n) d h = ground arith
    enough_gone (negsuc n) d h = omega arith

    more_to_go : (k : ℤ) (d : ℕ) → leb_ℤ k (pos d) ≡ false → d < pos_part k
    more_to_go (pos n) d h = ground arith
    more_to_go (negsuc n) d h = absurd (ground arith)
