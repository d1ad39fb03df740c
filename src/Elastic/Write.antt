-- ===== src/Elastic/Write.antt =====
-- `Write` of the elastic buffer puts all the bytes behind the others, in the ring, the list or both.
use gtcp.Prelude.{
  ℕ, ◌^◌, ◌≤◌, ◌<◌, ◌≡◌, refl, sym, ap, ◌∙◌, inl, inr, false, Option, some, List, [], ◌++◌, arith,
  length, take, drop, ltb, leb, ◌&&◌, Bool-cases, append-nil, append_assoc, take-append-drop,
}
use gtcp.Prelude.Slices.{byte_lengths}
use gtcp.Alloc.{Alloc}
use gtcp.RingPool.{RingPool}
use gtcp.LinkedList
use gtcp.LinkedList.Queue
use gtcp.LinkedList.Queue.{push_back_copy_lem}
use gtcp.Elastic.RingBuffer
use gtcp.Elastic.RingBuffer.Contents
use gtcp.Elastic.RingBuffer.Contents.{ring_buffer_write_lem}
use gtcp.Elastic.{Buffer, listed, write, write_both, write_ring}
use gtcp.Elastic.Contents.{contents, IsValid, no_bytes}

-- What writing `p` does: all of it goes behind the contents.
pub record Writes (mb : Buffer) (p : List ℕ) (out : Option (ℕ × Buffer)) : Type 0 where
  pub result : Buffer
  pub returned : out ≡ some (length p, result)
  pub appended : contents result ≡ contents mb ++ p
  pub valid : IsValid result

-- The ring is written to while the list holds nothing and the ring is below its limit.
pub list_holds_nothing : (mb : Buffer) → listed mb ≡ false → Queue.contents mb.list_buffer ≡ []
unfolding listed LinkedList.is_empty
list_holds_nothing mb h = no_bytes mb.list_buffer.nodes (ground arith)

pub below_limit :
    (mb : Buffer) → listed mb ≡ false → RingBuffer.buffered mb.ring_buffer < mb.max_static_bytes
unfolding listed
below_limit mb h = ground arith

module _ (alloc : Alloc) (pool : RingPool) where
  abbrev pub pushed : Buffer → List ℕ → Buffer
  pushed mb p = record mb { list_buffer = LinkedList.push_back_copy alloc p mb.list_buffer }

  -- A push to the list.
  pub contents-pushed :
      (mb : Buffer) (p : List ℕ) → IsValid mb → contents (pushed mb p) ≡ contents mb ++ p
  contents-pushed mb p v =
      let (appended, valid) = push_back_copy_lem alloc p mb.list_buffer v.list_valid in
      ap (λ (x : List ℕ). Contents.contents mb.ring_buffer ++ x) appended
      ∙ sym (append_assoc (Contents.contents mb.ring_buffer) (Queue.contents mb.list_buffer) p)

  pub pushed-IsValid : (mb : Buffer) (p : List ℕ) → IsValid mb → IsValid (pushed mb p)
  pushed-IsValid mb p v =
      let (appended, valid) = push_back_copy_lem alloc p mb.list_buffer v.list_valid in
      record { ring_valid = v.ring_valid; list_valid = valid }

  module _ (mb : Buffer) (v : IsValid mb) (alone : Queue.contents mb.list_buffer ≡ [])
      (small : RingBuffer.capacity mb.ring_buffer ≤ 2 ^ 61) where
    abbrev with_ring : RingBuffer.RingBuffer → Buffer
    with_ring ring = record mb { ring_buffer = ring }

    appended_alone :
        (ring : RingBuffer.RingBuffer) (p : List ℕ)
        → Contents.contents ring ≡ Contents.contents mb.ring_buffer ++ p
        → contents (with_ring ring) ≡ contents mb ++ p
    appended_alone ring p h =
        rw (h, alone, append-nil (Contents.contents mb.ring_buffer))
          (append-nil (Contents.contents mb.ring_buffer ++ p))

    -- A write to the ring.
    pub ring_write :
        (p : List ℕ)
        → length p ≤ 2 ^ 61
        → Contents.Writes mb.ring_buffer p (RingBuffer.write alloc pool mb.ring_buffer p)
    ring_write p short = ring_buffer_write_lem alloc pool mb.ring_buffer p v.ring_valid small short

    pub write_ring-Writes :
        (p : List ℕ) → length p ≤ 2 ^ 61 → Writes mb p (write_ring alloc pool mb p)
    unfolding write_ring
    write_ring-Writes p short =
        let r = ring_write p short in
        rw (write_ring, r.returned)
          (record {
            result = with_ring r.result;
            returned = refl;
            appended = appended_alone r.result p r.appended;
            valid = record { ring_valid = r.valid; list_valid = v.list_valid };
          })

    -- A write to the ring of what fits there, and a push of the rest.
    pub write_both_lem :
        (p : List ℕ) (writable : ℕ)
        → length p ≤ 2 ^ 61
        → (result : Buffer) × (write_both alloc pool mb p writable ≡ some result)
          × (contents result ≡ contents mb ++ p)
          × IsValid result
    unfolding write_both
    write_both_lem p writable short =
        let r = ring_write (take writable p) (omega byte_lengths) in
        let between : IsValid (with_ring r.result) = record {
          ring_valid = r.valid;
          list_valid = v.list_valid;
        } in
        (
          pushed (with_ring r.result) (drop writable p),
          rw (write_both, r.returned),
          contents-pushed (with_ring r.result) (drop writable p) between
              ∙ ap (λ (x : List ℕ). x ++ drop writable p)
                  (appended_alone r.result (take writable p) r.appended)
              ∙ append_assoc (contents mb) (take writable p) (drop writable p)
              ∙ ap (λ (x : List ℕ). contents mb ++ x) (take-append-drop writable p),
          pushed-IsValid (with_ring r.result) (drop writable p) between,
        )

  -- On a valid elastic buffer whose ring has a size of at most 2 ^ 61, `Write(p)` of at most 2
  -- ^ 61 bytes does not panic and returns the length of p: the contents, those of the ring and
  -- then of the list, become the old contents and then p, whichever of the two takes which
  -- part, and the buffer stays valid.
  pub elastic_write_lem :
      (mb : Buffer) (p : List ℕ)
      → IsValid mb
      → RingBuffer.capacity mb.ring_buffer ≤ 2 ^ 61
      → length p ≤ 2 ^ 61
      → Writes mb p (write alloc pool mb p)
  unfolding write
  elastic_write_lem mb p v small short = elim (Bool-cases (listed mb)) [
    | inl to_list ↦ rw to_list (record {
      result = pushed mb p;
      returned = refl;
      appended = contents-pushed mb p v;
      valid = pushed-IsValid mb p v;
    })
    | inr to_ring ↦
        let writable = RingBuffer.available mb.ring_buffer in
        let alone = list_holds_nothing mb to_ring in
        elim (Bool-cases
          (leb mb.max_static_bytes (RingBuffer.len mb.ring_buffer) && ltb writable (length p))) [
            | inl split ↦
                let (result, returned, appended, valid) =
                  write_both_lem mb v alone small p writable short in
                rw (to_ring, split, returned)
                  (record { result = result; returned = refl; appended = appended; valid = valid })
            | inr whole ↦ rw (to_ring, whole) (write_ring-Writes mb v alone small p short)
          ]
  ]
