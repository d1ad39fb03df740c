-- ===== src/Elastic/Writev.antt =====
-- `Writev` of the elastic buffer is a `Write` of all the slices, one behind the other.
use gtcp.Prelude.{
  ℕ, ◌+◌, ◌-◌, ◌^◌, ◌≤◌, ◌<◌, ◌≡◌, sym, ap, ◌∙◌, inl, inr, Option, some, List, [], ◌∷◌, ◌++◌, arith,
  length, ltb, if◌then◌else◌, Bool-cases, append-nil, append_assoc,
}
use gtcp.Prelude.Slices.{flatten, byte_lengths}
use gtcp.Alloc.{Alloc}
use gtcp.RingPool.{RingPool}
use gtcp.LinkedList.Queue
use gtcp.Elastic.RingBuffer
use gtcp.Elastic.RingBuffer.Contents
use gtcp.Elastic.{Buffer, listed, write_ring, push_all, fill, writev}
use gtcp.Elastic.Contents.{contents, IsValid}
use gtcp.Elastic.Write.{
  Writes, list_holds_nothing, below_limit, pushed, contents-pushed, pushed-IsValid, ring_write,
  write_both_lem,
}

-- What the loops do after `cum` bytes: the rest goes behind the contents.
record Fills (mb : Buffer) (bs : List (List ℕ)) (cum : ℕ) (out : Option (ℕ × Buffer)) : Type 0 where
  result : Buffer
  returned : out ≡ some (cum + length (flatten bs), result)
  appended : contents result ≡ contents mb ++ flatten bs
  valid : IsValid result

-- What may go to the ring is less than its limit or its size.
writable_fits :
    (mb : Buffer)
    → IsValid mb
    → RingBuffer.capacity mb.ring_buffer ≤ 2 ^ 60
    → mb.max_static_bytes ≤ 2 ^ 60
    → RingBuffer.buffered mb.ring_buffer < mb.max_static_bytes
    → length (Contents.contents mb.ring_buffer)
        + (if ltb (RingBuffer.len mb.ring_buffer) mb.max_static_bytes
            then mb.max_static_bytes - RingBuffer.buffered mb.ring_buffer
            else RingBuffer.available mb.ring_buffer)
      ≤ 2 ^ 60
writable_fits mb v small limit below = ground (
  arith,
  Contents.length-contents mb.ring_buffer v.ring_valid,
  Contents.buffered-add-available mb.ring_buffer v.ring_valid,
)

module _ (alloc : Alloc) (pool : RingPool) where
  -- One slice went behind the contents, and the loop goes on.
  fill_on :
      (mb mb' : Buffer) (b : List ℕ) (bs : List (List ℕ)) (cum : ℕ) (out : Option (ℕ × Buffer))
      → contents mb' ≡ contents mb ++ b
      → Fills mb' bs (cum + length b) out
      → Fills mb (b ∷ bs) cum out
  fill_on mb mb' b bs cum out h f = record {
    result = f.result;
    returned = f.returned ∙ ap (λ n. some (n, f.result)) (omega byte_lengths);
    appended =
        f.appended
        ∙ ap (λ (x : List ℕ). x ++ flatten bs) h
        ∙ append_assoc (contents mb) b (flatten bs);
    valid = f.valid;
  }

  push_all-Fills :
      (bs : List (List ℕ)) (cum : ℕ) (mb : Buffer)
      → IsValid mb
      → Fills mb bs cum (some (push_all alloc pool bs cum mb))
  unfolding push_all
  push_all-Fills [] cum mb v = record {
    result = mb;
    returned = ap (λ n. some (n, mb)) (omega arith);
    appended = sym (append-nil (contents mb));
    valid = v;
  }
  push_all-Fills (b ∷ bs) cum mb v =
      fill_on mb (pushed alloc pool mb b) b bs cum (some (push_all alloc pool (b ∷ bs) cum mb))
        (contents-pushed alloc pool mb b v)
        (push_all-Fills bs (cum + length b) (pushed alloc pool mb b)
          (pushed-IsValid alloc pool mb b v))

  -- The loop over slices that fit in the ring, then one that does not, then the rest.
  fill-Fills :
      (bs : List (List ℕ)) (writable cum : ℕ) (mb : Buffer)
      → IsValid mb
      → Queue.contents mb.list_buffer ≡ []
      → RingBuffer.capacity mb.ring_buffer ≤ 2 ^ 61
      → length (Contents.contents mb.ring_buffer) + writable ≤ 2 ^ 60
      → length (flatten bs) ≤ 2 ^ 61
      → Fills mb bs cum (fill alloc pool bs writable cum mb)
  unfolding fill write_ring
  fill-Fills [] writable cum mb v alone small room short = record {
    result = mb;
    returned = ap (λ n. some (n, mb)) (omega arith);
    appended = sym (append-nil (contents mb));
    valid = v;
  }
  fill-Fills (b ∷ bs) writable cum mb v alone small room short =
      elim (Bool-cases (ltb writable (length b))) [
        | inl over ↦
            let (mb', returned, appended, valid) =
              write_both_lem alloc pool mb v alone small b writable (omega byte_lengths) in
            rw (over, returned)
              (fill_on mb mb' b bs cum (some (push_all alloc pool bs (cum + length b) mb')) appended
                (push_all-Fills bs (cum + length b) mb' valid))
        | inr fits ↦
            let r = ring_write alloc pool mb v alone small b (omega byte_lengths) in
            let l : length b ≤ writable = ground arith in
            let mb' : Buffer = record mb { ring_buffer = r.result } in
            let rest =
              fill-Fills bs (writable - length b) (cum + length b) mb'
                (record { ring_valid = r.valid; list_valid = v.list_valid }) alone
                (omega (arith, r.bounded)) (omega (byte_lengths, ap length r.appended))
                (omega byte_lengths) in
            rw (fits, r.returned)
              (fill_on mb mb' b bs cum
                (fill alloc pool bs (writable - length b) (cum + length b) mb')
                (rw (r.appended, alone, append-nil (Contents.contents mb.ring_buffer))
                  (append-nil (Contents.contents mb.ring_buffer ++ b)))
                rest)
      ]

  -- On a valid elastic buffer whose ring has a size of at most 2 ^ 60 and whose limit is at
  -- most 2 ^ 60, `Writev(bs)` of at most 2 ^ 61 bytes in all does not panic, returns their
  -- number: their bytes go behind the contents in order, wherever the ring has no more room,
  -- and the buffer stays valid.
  pub elastic_writev_lem :
      (mb : Buffer) (bs : List (List ℕ))
      → IsValid mb
      → RingBuffer.capacity mb.ring_buffer ≤ 2 ^ 60
      → mb.max_static_bytes ≤ 2 ^ 60
      → length (flatten bs) ≤ 2 ^ 61
      → Writes mb (flatten bs) (writev alloc pool mb bs)
  unfolding writev
  elastic_writev_lem mb bs v small limit short = elim (Bool-cases (listed mb)) [
    | inl to_list ↦ rw to_list (finished mb bs _ (push_all-Fills bs 0 mb v))
    | inr to_ring ↦
        let writable =
          if ltb (RingBuffer.len mb.ring_buffer) mb.max_static_bytes
          then mb.max_static_bytes - RingBuffer.buffered mb.ring_buffer
          else RingBuffer.available mb.ring_buffer in
        rw to_ring (
          finished mb bs (fill alloc pool bs writable 0 mb) (
            fill-Fills bs writable 0 mb v (list_holds_nothing mb to_ring) (omega arith)
              (writable_fits mb v small limit (below_limit mb to_ring)) short))
  ]
    where
      finished :
          (mb : Buffer) (bs : List (List ℕ)) (out : Option (ℕ × Buffer))
          → Fills mb bs 0 out
          → Writes mb (flatten bs) out
      finished mb bs out f = record {
        result = f.result;
        returned = f.returned ∙ ap (λ n. some (n, f.result)) (omega arith);
        appended = f.appended;
        valid = f.valid;
      }
