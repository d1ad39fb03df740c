-- ===== src/Framing.antt =====
-- The headers and the decoder of glibevent.go, and the equal `Decode` of client.go: a message is a head
-- of a fixed length that tells the length of the body behind it. An `int32` is a ℤ.
pub mod Heads
pub mod Decode
pub mod Stream
pub mod Ends
pub mod Size
pub mod Chunks
mod Tests
use gtcp.Prelude.{
  ℕ, zero, suc, ◌+◌, ◌-◌, ◌*◌, ◌/◌, ◌%◌, ◌^◌, Option, none, some, List, [], ◌∷◌, ◌++◌, ltb,
  if◌then◌else◌, length, take, drop, inl, inr, Bool-cases, arith,
}
use gtcp.Prelude.Int.{ℤ, pos, negsuc, ◌+ℤ◌, ltb_ℤ, IsInt64, wrap64}
use gtcp.Errors.{Error, short_buffer}
use gtcp.Elastic.RingBuffer
use gtcp.Elastic.RingBuffer.{RingBuffer}
use gtcp.Inbound.{peek, discard}

-- `binary.LittleEndian`: the low `k` bytes of a number, and the number of some bytes.
abbrev pub le_bytes : ℕ → ℕ → List ℕ
le_bytes zero v = []
le_bytes (suc k) v = v % 256 ∷ le_bytes k (v / 256)

abbrev pub le_value : List ℕ → ℕ
le_value [] = 0
le_value (b ∷ bs) = b + 256 * le_value bs

abbrev pub int32_of : ℕ → ℤ
int32_of v = if ltb v (2 ^ 31) then pos v else negsuc (2 ^ 32 - 1 - v)

abbrev pub pattern32_of : ℤ → ℕ
pattern32_of (pos n) = n % 2 ^ 32
pattern32_of (negsuc n) = 2 ^ 32 - 1 - n % 2 ^ 32

abbrev pub max_header_len : ℤ
max_header_len = pos 8

pub record DefaultHead : Type 0 where
  pub body_len : ℤ
  pub msg_id : ℤ

-- `binary.Read` into a field, which keeps its value if there are not enough bytes.
abbrev pub read_int32 : List ℕ → ℤ → ℤ
read_int32 bytes old = if ltb (length bytes) 4 then old else int32_of (le_value (take 4 bytes))

unfoldable pub head_decode : DefaultHead → List ℕ → DefaultHead
head_decode h bytes = record {
  body_len = read_int32 bytes h.body_len;
  msg_id = read_int32 (drop 4 bytes) h.msg_id;
}

unfoldable pub head_encode : DefaultHead → List ℕ
head_encode h = le_bytes 4 (pattern32_of h.body_len) ++ le_bytes 4 (pattern32_of h.msg_id)

int32_of-IsInt64 : (v : ℕ) → IsInt64 (int32_of v)
int32_of-IsInt64 v = elim (Bool-cases (ltb v (2 ^ 31))) [
  | inl low ↦ rw low (ground arith)
  | inr high ↦ rw high (omega arith)
]

pub read_int32-IsInt64 : (bytes : List ℕ) (old : ℤ) → IsInt64 old → IsInt64 (read_int32 bytes old)
read_int32-IsInt64 bytes old h = elim (Bool-cases (ltb (length bytes) 4)) [
  | inl few ↦ rw few h
  | inr enough ↦ rw enough (int32_of-IsInt64 (le_value (take 4 bytes)))
]

-- The interface `Header`: `GetLen`, and `GetBodyLen` once `Decode` has read some bytes. Both are of
-- the type `int`.
pub record Header : Type 0 where
  pub get_len : ℤ
  pub get_body_len : List ℕ → ℤ
  pub len_is_int : IsInt64 get_len
  pub body_len_is_int : (bytes : List ℕ) → IsInt64 (get_body_len bytes)

-- `NewHead`, a head of zeros, as a `Header`.
unfoldable pub default_header : Header
unfolding head_decode
default_header = record {
  get_len = max_header_len;
  get_body_len =
      λ bytes. (head_decode (record { body_len = pos 0; msg_id = pos 0 }) bytes).body_len;
  len_is_int = omega arith;
  body_len_is_int = λ bytes. read_int32-IsInt64 bytes (pos 0) (omega arith);
}

-- The head, the body, the error and what is left in the buffer.
abbrev pub Decoded : Type 0
Decoded = List ℕ × List ℕ × Option Error × RingBuffer

abbrev pub refused : Error → RingBuffer → Decoded
refused e b = ([], [], some e, b)

-- What follows the two tests of the length: the head is discarded, and the body is taken.
unfoldable pub take_body : List ℕ → ℤ → ℤ → RingBuffer → Decoded
take_body head_data head_len body_len b =
    let (discarded, err, b') = discard b head_len in
    elim err [
      | some e ↦ refused e b'
      | none ↦
          let (body_data, err') = peek b' body_len in
          elim err' [
            | some e ↦ refused e b'
            | none ↦
                let (discarded', err'', b'') = discard b' body_len in
                elim err'' [ some e ↦ refused e b'' | none ↦ (head_data, body_data, none, b'') ]
          ]
    ]

unfoldable pub decode : Header → RingBuffer → Decoded
decode head b =
    let buff_len = RingBuffer.buffered b in
    if ltb_ℤ (pos buff_len) head.get_len
    then refused short_buffer b
    else let (head_data, err) = peek b head.get_len in
      elim err [
        | some e ↦ refused e b
        | none ↦
            let body_len = head.get_body_len head_data in
            if ltb_ℤ (pos buff_len) (wrap64 (head.get_len +ℤ body_len))
            then refused short_buffer b
            else take_body head_data head.get_len body_len b
      ]

-- The loop around `Decode` in `eventRead` and `process`: the messages that `OnTraffic` gets, until an
-- error. The fuel bounds the number of messages.
unfoldable pub decode_loop : ℕ → Header → RingBuffer → List (List ℕ × List ℕ) × RingBuffer
decode_loop zero head b = ([], b)
decode_loop (suc fuel) head b =
    let (head_data, body_data, err, b') = decode head b in
    elim err [
      | some e ↦ ([], b')
      | none ↦ let (more, b'') = decode_loop fuel head b' in ((head_data, body_data) ∷ more, b'')
    ]
