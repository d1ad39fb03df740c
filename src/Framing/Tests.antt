-- ===== src/Framing/Tests.antt =====
-- Messages of the default head in a small ring.
use gtcp.Prelude.{
  ℕ, ◌≤◌, ◌<◌, ◌≡◌, refl, false, Option, none, some, List, [], ◌∷◌, ◌++◌, arith, length, take, drop,
  ◌==◌, if◌then◌else◌,
}
use gtcp.Prelude.Int.{pos, negsuc}
use gtcp.Errors.{Error, short_buffer}
use gtcp.Ring
use gtcp.Elastic.RingBuffer.{RingBuffer}
use gtcp.Elastic.RingBuffer.Contents
use gtcp.Framing.{DefaultHead, default_header, head_decode, head_encode, decode, decode_loop}
use gtcp.Framing.Heads.{head_decode-head_encode}
use gtcp.Framing.Decode.{decode_overrun}
use gtcp.Framing.Stream.{Frame, sent}
use gtcp.Framing.Ends.{decode_loop_ends}

abbrev some_head : DefaultHead
some_head = record { body_len = pos 300; msg_id = negsuc 1 }

abbrev zero_head : DefaultHead
zero_head = record { body_len = pos 0; msg_id = pos 0 }

head_decode-head_encode_example :
    head_decode zero_head (head_encode some_head ++ 9 ∷ []) ≡ some_head
head_decode-head_encode_example =
    head_decode-head_encode zero_head some_head (9 ∷ []) (omega arith) (omega arith)

-- A message with the body 9, and the first byte of the next.
abbrev stream : List ℕ
stream = 1 ∷ 0 ∷ 0 ∷ 0 ∷ 5 ∷ 0 ∷ 0 ∷ 0 ∷ 9 ∷ 2 ∷ []

abbrev arrived : RingBuffer
arrived = some (record { buf = stream; size = 10; r = 0; w = 0; is_empty = false })

arrived-IsValid : Contents.IsValid arrived
arrived-IsValid = record { sized = refl; positions = (omega arith, omega arith) }

abbrev five : Frame
five = record { msg_id = pos 5; body = 9 ∷ [] }

arrived_stream : Contents.contents arrived ≡ sent (five ∷ []) ++ 2 ∷ []
unfolding Ring.buffered head_encode
arrived_stream = refl

few_arrived : length (Contents.contents arrived) < 11
unfolding Ring.buffered
few_arrived = omega arith

many_more : length (Contents.contents arrived) < 30
unfolding Ring.buffered
many_more = omega arith

decode_loop_ends_example :
    decode_loop 11 default_header arrived ≡ decode_loop 30 default_header arrived
decode_loop_ends_example =
    decode_loop_ends default_header 11 30 arrived arrived-IsValid few_arrived many_more

-- A head that tells no body, and two bytes behind it.
abbrev no_body : RingBuffer
no_body = some (record {
  buf = 0 ∷ 0 ∷ 0 ∷ 0 ∷ 5 ∷ 0 ∷ 0 ∷ 0 ∷ 9 ∷ 2 ∷ [];
  size = 10;
  r = 0;
  w = 0;
  is_empty = false;
})

no_body-IsValid : Contents.IsValid no_body
no_body-IsValid = record { sized = refl; positions = (omega arith, omega arith) }

eight : default_header.get_len ≡ pos 8
unfolding default_header
eight = refl

abbrev no_body_bytes : List ℕ
no_body_bytes = Contents.contents no_body

enough : 8 ≤ length no_body_bytes
unfolding Ring.buffered
enough = omega arith

no_body_told : default_header.get_body_len (take 8 no_body_bytes) ≡ pos 0
unfolding Ring.buffered default_header head_decode
no_body_told = refl

decode_overrun_example :
    let (head_data, body_data, err, b') = decode default_header no_body in
    (Contents.contents b' ≡ [])
    × ◌≡◌ {A = List ℕ × Option Error}
        (body_data, err)
        (if length no_body_bytes == 8
          then ([], some short_buffer)
          else (drop 8 no_body_bytes, none))
decode_overrun_example =
    decode_overrun default_header no_body no_body-IsValid 8 eight (omega arith) (pos 0) no_body_told
      refl enough
