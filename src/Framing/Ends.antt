-- ===== src/Framing/Ends.antt =====
-- The loop around `Decode` ends whatever the bytes are: every message that it takes makes the buffer
-- shorter.
use gtcp.Prelude.{
  ℕ, zero, suc, ◌≤◌, ◌<◌, ◌≡◌, refl, sym, ap, ◌∙◌, inl, inr, true, false, Option, none, some, List,
  [], ◌∷◌, arith, length, drop, Bool-cases, Option-cases,
}
use gtcp.Prelude.Int.{ℤ, pos, negsuc, ltb_ℤ, ◌+ℤ◌, wrap64}
use gtcp.Prelude.Slices.{byte_lengths}
use gtcp.Errors.{Error, short_buffer}
use gtcp.Elastic.RingBuffer
use gtcp.Elastic.RingBuffer.{RingBuffer}
use gtcp.Elastic.RingBuffer.Contents
use gtcp.Inbound.{peek, discard, wanted}
use gtcp.Inbound.Laws.{fails, shown, inbound_peek_lem, inbound_discard_lem}
use gtcp.Framing.Size.{capacity-discard}
use gtcp.Framing.{Header, Decoded, refused, take_body, decode, decode_loop}

-- What is left after a message, or an error.
pub record Shrinks (b : RingBuffer) (out : Decoded) : Type 0 where
  pub valid : Contents.IsValid out.3
  pub not_larger : RingBuffer.capacity out.3 ≤ RingBuffer.capacity b
  pub shorter : out.2 ≡ none → length (Contents.contents out.3) < length (Contents.contents b)

refused-Shrinks :
    (b b' : RingBuffer) (e : Error)
    → Contents.IsValid b'
    → RingBuffer.capacity b' ≤ RingBuffer.capacity b
    → Shrinks b (refused e b')
refused-Shrinks b b' e v l = record {
  valid = v;
  not_larger = l;
  shorter = λ h. absurd (ground arith);
}

-- How many bytes a request that is met asks for.
wanted_some : (len : ℕ) (n : ℤ) → 0 < len → 0 < wanted len n
wanted_some len (pos n) h = ground arith
wanted_some len (negsuc n) h = ground arith

module _ (b : RingBuffer) (v : Contents.IsValid b) where
  -- A discard where `Peek` found something takes at least a byte off.
  discard_some :
      (n : ℤ)
      → fails (Contents.contents b) n ≡ false
      → length (Contents.contents (discard b n).2) < length (Contents.contents b)
  discard_some n h =
      let d = inbound_discard_lem b v n in
      let some_bytes : 0 < length (Contents.contents b) = ground arith in
      let left : Contents.contents (discard b n).2
          ≡ drop (wanted (length (Contents.contents b)) n) (Contents.contents b) =
        d.rest ∙ rw h refl in
      omega (byte_lengths, ap length left, wanted_some (length (Contents.contents b)) n some_bytes)

  discard_any : (n : ℤ) → length (Contents.contents (discard b n).2) ≤ length (Contents.contents b)
  discard_any n =
      let d = inbound_discard_lem b v n in
      elim (Bool-cases (fails (Contents.contents b) n)) [
        | inl over ↦
            let left : Contents.contents (discard b n).2 ≡ [] = d.rest ∙ rw over refl in
            omega (arith, ap length left)
        | inr fits ↦ omega (arith, discard_some n fits)
      ]

  found : (n : ℤ) → (peek b n).1 ≡ none → fails (Contents.contents b) n ≡ false
  found n h = elim (Bool-cases (fails (Contents.contents b) n)) [
    | inr fits ↦ fits
    | inl over ↦ absurd (some_not_none over)
  ]
    where
      some_not_none : fails (Contents.contents b) n ≡ true → ⊥
      some_not_none over =
          let failed : shown (Contents.contents b) n ≡ ([], some short_buffer) = rw over refl in
          let e : some short_buffer ≡ none =
            sym (ap (λ (x : List ℕ × Option Error). x.1) (inbound_peek_lem b v n ∙ failed)) ∙ h in
          ground (arith, e)

taken-Shrinks :
    (b : RingBuffer) (v : Contents.IsValid b) (head_data : List ℕ) (head_len body_len : ℤ)
    → (peek b head_len).1 ≡ none
    → Shrinks b (take_body head_data head_len body_len b)
unfolding take_body
taken-Shrinks b v head_data head_len body_len h =
    let d = inbound_discard_lem b v head_len in
    let less = discard_some b v head_len (found b v head_len h) in
    let b' = (discard b head_len).2 in
    elim (Option-cases (peek b' body_len).1) [
      | inr (e, failed) ↦
          rw (take_body, d.no_error, failed)
            (refused-Shrinks b b' e d.valid (capacity-discard b head_len v))
      | inl ok ↦
          let d' = inbound_discard_lem b' d.valid body_len in
          rw (take_body, d.no_error, ok, d'.no_error)
            (record {
              valid = d'.valid;
              not_larger =
                  omega
                    (arith, capacity-discard b head_len v, capacity-discard b' body_len d.valid);
              shorter = λ _. omega (arith, less, discard_any b' d.valid body_len);
            })
    ]

pub decode-Shrinks :
    (head : Header) (b : RingBuffer) → Contents.IsValid b → Shrinks b (decode head b)
unfolding decode
decode-Shrinks head b v = elim (Bool-cases (ltb_ℤ (pos (RingBuffer.buffered b)) head.get_len)) [
  | inl few ↦ rw (decode, few) (refused-Shrinks b b short_buffer v (omega arith))
  | inr enough ↦ elim (Option-cases (peek b head.get_len).1) [
    | inr (e, failed) ↦ rw (decode, enough, failed) (refused-Shrinks b b e v (omega arith))
    | inl ok ↦
        let head_data = (peek b head.get_len).0 in
        let body_len = head.get_body_len head_data in
        elim (Bool-cases
          (ltb_ℤ (pos (RingBuffer.buffered b)) (wrap64 (head.get_len +ℤ body_len)))) [
            | inl few ↦
                rw (decode, enough, ok, few) (refused-Shrinks b b short_buffer v (omega arith))
            | inr all ↦
                rw (decode, enough, ok, all) (taken-Shrinks b v head_data head.get_len body_len ok)
          ]
  ]
]

-- For any kind of head and any bytes in a valid ring, the loop around `Decode` ends before more
-- rounds than there are bytes: any two fuels above that number give the same messages and the
-- same rest.
pub decode_loop_ends :
    (head : Header) (fuel fuel' : ℕ) (b : RingBuffer)
    → Contents.IsValid b
    → length (Contents.contents b) < fuel
    → length (Contents.contents b) < fuel'
    → decode_loop fuel head b ≡ decode_loop fuel' head b
unfolding decode_loop
decode_loop_ends head zero fuel' b v h h' = absurd (omega arith)
decode_loop_ends head (suc fuel) zero b v h h' = absurd (omega arith)
decode_loop_ends head (suc fuel) (suc fuel') b v h h' =
    let s = decode-Shrinks head b v in
    elim (Option-cases (decode head b).2) [
      | inr (e, failed) ↦ rw (decode_loop, failed) refl
      | inl ok ↦
          let ih =
            decode_loop_ends head fuel fuel' (decode head b).3 s.valid (omega (arith, s.shorter ok))
              (omega (arith, s.shorter ok)) in
          rw (decode_loop, ok)
            (ap
              (λ (out : List (List ℕ × List ℕ) × RingBuffer).
                (((decode head b).0, (decode head b).1) ∷ out.0, out.1))
              ih)
    ]

pub capacity-decode_loop :
    (head : Header) (fuel : ℕ) (b : RingBuffer)
    → Contents.IsValid b
    → RingBuffer.capacity (decode_loop fuel head b).1 ≤ RingBuffer.capacity b
unfolding decode_loop
capacity-decode_loop head zero b v = omega arith
capacity-decode_loop head (suc fuel) b v =
    let s = decode-Shrinks head b v in
    elim (Option-cases (decode head b).2) [
      | inr (e, failed) ↦ rw (decode_loop, failed) s.not_larger
      | inl ok ↦
          rw (decode_loop, ok)
            (omega (arith, s.not_larger, capacity-decode_loop head fuel (decode head b).3 s.valid))
    ]
