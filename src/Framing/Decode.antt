-- ===== src/Framing/Decode.antt =====
-- One call of `Decode`, in terms of the bytes that the inbound buffer holds.
use mathlib.Core.Path.{subst}
use gtcp.Prelude.{
  ℕ, suc, ◌+◌, ◌-◌, ◌^◌, ◌≤◌, ◌<◌, ◌≡◌, leb, refl, sym, ap, ◌∙◌, inl, inr, true, false, Option,
  none, some, List, [], arith, ◌==◌, if◌then◌else◌, length, take, drop, length-drop, Bool-cases,
}
use gtcp.Prelude.Int.{
  ℤ, pos, negsuc, ltb_ℤ, leb_ℤ, ◌+ℤ◌, IsInt64, wrap64, wrap64_below, wrap64_small, wrap64_negative,
}
use gtcp.Prelude.Slices.{byte_lengths, take_all, drop_all, drop-drop}
use gtcp.Errors.{Error, short_buffer}
use gtcp.Elastic.RingBuffer
use gtcp.Elastic.RingBuffer.{RingBuffer}
use gtcp.Elastic.RingBuffer.Contents
use gtcp.Inbound.{discard}
use gtcp.Inbound.Laws.{fails, shown, Discards, inbound_peek_lem, inbound_discard_lem}
use gtcp.Framing.{Header, Decoded, refused, take_body, decode}

-- A request for some of the bytes is met.
shown_some :
    (bytes : List ℕ) (n : ℕ)
    → 0 < n
    → n ≤ length bytes
    → (fails bytes (pos n) ≡ false) × (shown bytes (pos n) ≡ (take n bytes, none))
shown_some bytes n p fits =
    let test : fails bytes (pos n) ≡ false = ground arith in
    let more : leb_ℤ (pos n) (pos 0) ≡ false = ground arith in (test, rw (test, more))

nothing_shown :
    (bytes : List ℕ) (k : ℤ) → length bytes ≡ 0 → shown bytes k ≡ ([], some short_buffer)
nothing_shown bytes k h = let test : fails bytes k ≡ true = ground arith in rw test

-- A request for no bytes, or fewer, gets all of them.
all_shown :
    (bytes : List ℕ) (k : ℤ)
    → leb_ℤ k (pos 0) ≡ true
    → 0 < length bytes
    → (fails bytes k ≡ false) × (shown bytes k ≡ (bytes, none))
all_shown bytes k least p =
    let test : fails bytes k ≡ false = not_failing k least in
    (test, rw (test, least, take_all (length bytes) bytes (omega arith)))
  where
    not_failing : (k : ℤ) → leb_ℤ k (pos 0) ≡ true → fails bytes k ≡ false
    not_failing (pos n) h = ground arith
    not_failing (negsuc n) h = ground arith

-- The bytes of a whole message, and what is left behind it.
pub record Message (b : RingBuffer) (hl bl : ℕ) (out : Decoded) : Type 0 where
  pub head_data : out.0 ≡ take hl (Contents.contents b)
  pub body_data : out.1 ≡ take bl (drop hl (Contents.contents b))
  pub no_error : out.2 ≡ none
  pub rest : Contents.contents out.3 ≡ drop (hl + bl) (Contents.contents b)
  pub valid : Contents.IsValid out.3

module _ (head : Header) (b : RingBuffer) (v : Contents.IsValid b) (hl : ℕ)
    (fixed : head.get_len ≡ pos hl) (p : 0 < hl) where
  abbrev bytes : List ℕ
  bytes = Contents.contents b

  size : RingBuffer.buffered b ≡ length bytes
  size = sym (Contents.length-contents b v)

  -- Not even the head is there.
  pub decode_no_head : length bytes < hl → decode head b ≡ refused short_buffer b
  unfolding decode
  decode_no_head few =
      let test : ltb_ℤ (pos (length bytes)) (pos hl) ≡ true = ground arith in rw (fixed, size, test)

  -- The head is there, and the body is still to be looked for.
  decode_head :
      hl ≤ length bytes
      → decode head b ≡ (
          if ltb_ℤ (pos (length bytes)) (wrap64 (pos hl +ℤ head.get_body_len (take hl bytes)))
          then refused short_buffer b
          else take_body (take hl bytes) (pos hl) (head.get_body_len (take hl bytes)) b)
  unfolding decode
  decode_head fits =
      let test : ltb_ℤ (pos (length bytes)) (pos hl) ≡ false = ground arith in
      let peeked = inbound_peek_lem b v (pos hl) ∙ (shown_some bytes hl p fits).1 in
      rw (fixed, size, test, peeked, fixed, size, peeked)

  -- The head is discarded.
  behind_head :
      hl ≤ length bytes
      → Discards b v (pos hl) (discard b (pos hl))
        × (Contents.contents (discard b (pos hl)).2 ≡ drop hl bytes)
  behind_head fits =
      let d = inbound_discard_lem b v (pos hl) in
      let (ok, looked) = shown_some bytes hl p fits in
      let more : leb_ℤ (pos hl) (pos 0) ≡ false = ground arith in (d, d.rest ∙ rw (ok, more))

  take_body-Message :
      (bl : ℕ)
      → 0 < bl
      → hl + bl ≤ length bytes
      → Message b hl bl (take_body (take hl bytes) (pos hl) (pos bl) b)
  unfolding take_body
  take_body-Message bl q fits =
      let (d, left) = behind_head (omega arith) in
      let seen : bl ≤ length (Contents.contents (discard b (pos hl)).2) =
        omega (byte_lengths, ap length left) in
      let d' = inbound_discard_lem (discard b (pos hl)).2 d.valid (pos bl) in
      let (ok, looked) = shown_some (Contents.contents (discard b (pos hl)).2) bl q seen in
      let more : leb_ℤ (pos bl) (pos 0) ≡ false = ground arith in
      rw
        (
          take_body,
          d.no_error,
          inbound_peek_lem (discard b (pos hl)).2 d.valid (pos bl) ∙ looked,
          d'.no_error,
          inbound_peek_lem (discard b (pos hl)).2 d.valid (pos bl) ∙ looked,
        )
        (record {
          head_data = refl;
          body_data = ap (take bl) left;
          no_error = refl;
          rest = d'.rest ∙ rw (ok, more) (ap (drop bl) left ∙ drop-drop bl hl bytes);
          valid = d'.valid;
        })

  -- A message with a body: it is handed out once all of it is there.
  pub decode-Message :
      (bl : ℕ)
      → head.get_body_len (take hl bytes) ≡ pos bl
      → 0 < bl
      → hl + bl ≤ length bytes
      → Message b hl bl (decode head b)
  decode-Message bl e q fits =
      let sum : pos hl +ℤ pos bl ≡ pos (hl + bl) = ground arith in
      rw (decode_head (omega arith), e, sum, wrap64_below (length bytes) (hl + bl) fits)
        (take_body-Message bl q fits)

  pub decode_no_body :
      (bl : ℕ)
      → head.get_body_len (take hl bytes) ≡ pos bl
      → hl ≤ length bytes
      → length bytes < hl + bl
      → hl + bl < 2 ^ 63
      → decode head b ≡ refused short_buffer b
  decode_no_body bl e fits few small =
      let sum : pos hl +ℤ pos bl ≡ pos (hl + bl) = ground arith in
      let test : ltb_ℤ (pos (length bytes)) (pos (hl + bl)) ≡ true = ground arith in
      rw (decode_head fits, e, sum, wrap64_small (hl + bl) small, test)

  no_test :
      (k : ℤ)
      → leb_ℤ k (pos 0) ≡ true
      → IsInt64 k
      → hl ≤ length bytes
      → ltb_ℤ (pos (length bytes)) (wrap64 (pos hl +ℤ k)) ≡ false
  no_test (pos n) h int fits =
      let sum : pos hl +ℤ pos n ≡ pos (hl + n) = ground arith in
      let none_more : n ≡ 0 = ground arith in
      rw (sum, wrap64_below (length bytes) (hl + n) (omega arith)) refl
  no_test (negsuc n) h int fits = elim (Bool-cases (leb (suc n) hl)) [
    | inl above ↦
        let sum : pos hl +ℤ negsuc n ≡ pos (hl - suc n) = ground arith in
        rw (sum, wrap64_below (length bytes) (hl - suc n) (omega arith)) refl
    | inr below ↦
        let sum : pos hl +ℤ negsuc n ≡ negsuc (suc n - hl - 1) = ground arith in
        rw (sum, wrap64_negative (suc n - hl - 1) (omega arith)) (ground arith)
  ]

  take_body_overrun :
      (k : ℤ)
      → leb_ℤ k (pos 0) ≡ true
      → hl ≤ length bytes
      → let (head_data, body_data, err, b') = take_body (take hl bytes) (pos hl) k b in
        (Contents.contents b' ≡ [])
        × ◌≡◌ {A = List ℕ × Option Error}
            (body_data, err)
            (if length bytes == hl then ([], some short_buffer) else (drop hl bytes, none))
  unfolding take_body
  take_body_overrun k least fits =
      let (d, left) = behind_head fits in
      let b' = (discard b (pos hl)).2 in
      let peeked = inbound_peek_lem b' d.valid k in
      let d' = inbound_discard_lem b' d.valid k in
      elim (Bool-cases (length bytes == hl)) [
        | inl only ↦
            let gone : Contents.contents b' ≡ [] = left ∙ drop_all hl bytes (ground arith) in
            rw
              (
                take_body,
                d.no_error,
                peeked ∙ nothing_shown (Contents.contents b') k (ap length gone),
              )
              (gone, rw only)
        | inr more ↦
            let (ok, looked) =
              all_shown (Contents.contents b') k least
                (ground (arith, ap length left, length-drop hl bytes)) in
            rw (take_body, d.no_error, peeked ∙ looked, d'.no_error, peeked ∙ looked)
              (
                d'.rest
                    ∙ rw (ok, least)
                        (drop_all (length (Contents.contents b')) (Contents.contents b')
                          (omega arith)),
                rw (more, left),
              )
      ]

  -- For a head of a positive fixed length that tells a body length of 0 or less, in a valid
  -- ring that holds at least the head, `Decode` leaves the ring empty, and returns all the
  -- bytes behind the head as the body, or `ErrShortBuffer` if there are none.
  pub decode_overrun :
      (k : ℤ)
      → head.get_body_len (take hl bytes) ≡ k
      → leb_ℤ k (pos 0) ≡ true
      → hl ≤ length bytes
      → let (head_data, body_data, err, b') = decode head b in
        (Contents.contents b' ≡ [])
        × ◌≡◌ {A = List ℕ × Option Error}
            (body_data, err)
            (if length bytes == hl then ([], some short_buffer) else (drop hl bytes, none))
  decode_overrun k e least fits =
      rw
        (
          decode_head fits,
          e,
          no_test k least (subst IsInt64 e (head.body_len_is_int (take hl bytes))) fits,
        )
        (take_body_overrun k least fits)
