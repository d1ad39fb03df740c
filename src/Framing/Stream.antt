-- ===== src/Framing/Stream.antt =====
-- The loop around `Decode` on a stream of messages with the default head.
use mathlib.Core.Path.{subst}
use gtcp.Prelude.{
  ℕ, zero, suc, ◌+◌, ◌^◌, ◌≤◌, ◌<◌, ◌≡◌, refl, sym, ap, ap₂, ◌∙◌, List, [], ◌∷◌, ◌++◌, map, arith,
  length, take, drop, append_assoc,
}
use gtcp.Prelude.Int.{ℤ, pos}
use gtcp.Prelude.Slices.{byte_lengths, drop-drop}
use gtcp.Prelude.Splits.{take-append_self, drop-append_self}
use gtcp.Errors.{short_buffer}
use gtcp.Elastic.RingBuffer.{RingBuffer}
use gtcp.Elastic.RingBuffer.Contents
use gtcp.Framing.{
  DefaultHead, refused, head_encode, default_header, head_decode, decode, decode_loop,
}
use gtcp.Framing.Heads.{IsInt32, read_int32-IsInt32, head_decode-head_encode}
use gtcp.Framing.Decode.{Message, decode-Message, decode_no_head, decode_no_body}

-- A message as its sender has it.
pub record Frame : Type 0 where
  pub msg_id : ℤ
  pub body : List ℕ

abbrev pub head_of : Frame → List ℕ
head_of f = head_encode (record { body_len = pos (length f.body); msg_id = f.msg_id })

abbrev pub sent : List Frame → List ℕ
sent [] = []
sent (f ∷ fs) = head_of f ++ (f.body ++ sent fs)

abbrev pub received : Frame → List ℕ × List ℕ
received f = (head_of f, f.body)

-- A body that is not empty, and fits an `int32`.
abbrev pub AllFrames : List Frame → Type 0
AllFrames [] = Unit
AllFrames (f ∷ fs) =
    (0 < length f.body) × (length f.body < 2 ^ 31) × IsInt32 f.msg_id × AllFrames fs

-- The start of a message of which more is to come.
pub data IsPending (rest : List ℕ) : Type 0 where
  in_head : length rest < 8 → IsPending rest
  in_body :
      (bl : ℕ)
      → 8 ≤ length rest
      → default_header.get_body_len (take 8 rest) ≡ pos bl
      → length rest < 8 + bl
      → IsPending rest

head_length : default_header.get_len ≡ pos 8
unfolding default_header
head_length = refl

pub length-head_of : (f : Frame) → length (head_of f) ≡ 8
unfolding head_encode
length-head_of f = refl

pub length-sent : (fs : List Frame) → length fs ≤ length (sent fs)
length-sent [] = omega arith
length-sent (f ∷ fs) = omega (byte_lengths, length-sent fs, length-head_of f)

-- The length that a receiver reads in a head.
pub told :
    (f : Frame) (rest : List ℕ)
    → length f.body < 2 ^ 31
    → IsInt32 f.msg_id
    → default_header.get_body_len (take 8 (head_of f ++ rest)) ≡ pos (length f.body)
unfolding default_header head_encode
told f rest h q =
    ap (λ (h : DefaultHead). h.body_len)
      (head_decode-head_encode (record { body_len = pos 0; msg_id = pos 0 })
        (record { body_len = pos (length f.body); msg_id = f.msg_id }) [] h q)

body_len-IsInt32 : (bytes : List ℕ) → IsInt32 (default_header.get_body_len bytes)
unfolding default_header head_decode
body_len-IsInt32 bytes = read_int32-IsInt32 bytes (pos 0) (omega arith)

-- An incomplete message is left alone.
decode_pending :
    (b : RingBuffer)
    → Contents.IsValid b
    → IsPending (Contents.contents b)
    → decode default_header b ≡ refused short_buffer b
decode_pending b v (in_head few) = decode_no_head default_header b v 8 head_length (omega arith) few
decode_pending b v (in_body bl fits told few) =
    let small : bl < 2 ^ 31 =
      subst IsInt32 told (body_len-IsInt32 (take 8 (Contents.contents b))) in
    decode_no_body default_header b v 8 head_length (omega arith) bl told fits few (omega arith)

-- What the loop does with the messages `fs` and the bytes `rest` behind them.
pub record Receives (fs : List Frame) (rest : List ℕ) (out : List (List ℕ × List ℕ) × RingBuffer)
    : Type 0 where
  pub handed_out : out.0 ≡ map received fs
  pub left : Contents.contents out.1 ≡ rest
  pub valid : Contents.IsValid out.1

pub sent_parts :
    (f : Frame) (fs : List Frame) (rest : List ℕ)
    → sent (f ∷ fs) ++ rest ≡ head_of f ++ (f.body ++ (sent fs ++ rest))
sent_parts f fs rest =
    append_assoc (head_of f) (f.body ++ sent fs) rest
    ∙ ap (λ (x : List ℕ). head_of f ++ x) (append_assoc f.body (sent fs) rest)

module _ (b : RingBuffer) (f : Frame) (fs : List Frame) (rest : List ℕ) (v : Contents.IsValid b)
    (all : AllFrames (f ∷ fs)) (e : Contents.contents b ≡ sent (f ∷ fs) ++ rest) where
  parts : Contents.contents b ≡ head_of f ++ (f.body ++ (sent fs ++ rest))
  parts = e ∙ sent_parts f fs rest

  decode_first : Message b 8 (length f.body) (decode default_header b)
  decode_first =
      decode-Message default_header b v 8 head_length (omega arith) (length f.body)
        (ap (λ (x : List ℕ). default_header.get_body_len (take 8 x)) parts
          ∙ told f (f.body ++ (sent fs ++ rest)) all.1 all.2)
        all.0 (omega (byte_lengths, ap length parts, length-head_of f))

  first_head : (decode default_header b).0 ≡ head_of f
  first_head =
      decode_first.head_data
      ∙ ap (take 8) parts
      ∙ take-append_self 8 (head_of f) (f.body ++ (sent fs ++ rest)) (sym (length-head_of f))

  behind_head : drop 8 (Contents.contents b) ≡ f.body ++ (sent fs ++ rest)
  behind_head =
      ap (drop 8) parts
      ∙ drop-append_self 8 (head_of f) (f.body ++ (sent fs ++ rest)) (sym (length-head_of f))

  first_body : (decode default_header b).1 ≡ f.body
  first_body =
      decode_first.body_data
      ∙ ap (take (length f.body)) behind_head
      ∙ take-append_self (length f.body) f.body (sent fs ++ rest) refl

  behind_first : Contents.contents (decode default_header b).3 ≡ sent fs ++ rest
  behind_first =
      decode_first.rest
      ∙ sym (drop-drop (length f.body) 8 (Contents.contents b))
      ∙ ap (drop (length f.body)) behind_head
      ∙ drop-append_self (length f.body) f.body (sent fs ++ rest) refl

-- On a valid ring that holds the messages fs and then the start of another one, the loop around
-- `Decode` with the default head and more rounds than messages hands out exactly the heads and
-- bodies of fs, in order, and leaves the start of the other one.
pub decode_stream_lem :
    (fs : List Frame) (rest : List ℕ) (fuel : ℕ) (b : RingBuffer)
    → Contents.IsValid b
    → AllFrames fs
    → IsPending rest
    → Contents.contents b ≡ sent fs ++ rest
    → length fs < fuel
    → Receives fs rest (decode_loop fuel default_header b)
unfolding decode_loop
decode_stream_lem fs rest zero b v all pending e enough = absurd (omega arith)
decode_stream_lem [] rest (suc fuel) b v all pending e enough =
    let stop = decode_pending b v (subst IsPending (sym e) pending) in
    rw (decode_loop, stop, stop) (record { handed_out = refl; left = e; valid = v })
decode_stream_lem (f ∷ fs) rest (suc fuel) b v all pending e enough =
    let m = decode_first b f fs rest v all e in
    let r =
      decode_stream_lem fs rest fuel (decode default_header b).3 m.valid all.3 pending
        (behind_first b f fs rest v all e) (omega arith) in
    rw (decode_loop, m.no_error)
      (record {
        handed_out =
            ap₂ (λ (x : List ℕ × List ℕ) (xs : List (List ℕ × List ℕ)). x ∷ xs)
              (rw (first_head b f fs rest v all e, first_body b f fs rest v all e)) r.handed_out;
        left = r.left;
        valid = r.valid;
      })
