-- ===== src/Inbound.antt =====
-- `Peek`, `Next` and `Discard` of connection_unix.go, and the same `Peek` and `Discard` of client.go, on
-- the inbound buffer. That a slice which `Peek` returns shares its memory with the ring is not
-- modelled.
pub mod Laws
use gtcp.Prelude.{
  ℕ, Bool, ◌||◌, Option, none, some, List, [], ◌++◌, leb, ltb, if◌then◌else◌, length, take,
}
use gtcp.Prelude.Int.{ℤ, pos, pos_part, ltb_ℤ, leb_ℤ}
use gtcp.Errors.{Error, short_buffer}
use gtcp.Elastic.RingBuffer
use gtcp.Elastic.RingBuffer.{RingBuffer}

-- `if n <= 0 { n = inBufferLen }`
abbrev pub wanted : ℕ → ℤ → ℕ
wanted in_buffer_len n = if leb_ℤ n (pos 0) then in_buffer_len else pos_part n

-- The bytes that `Peek` and `Next` hand out: from the head alone, or a copy of both slices.
abbrev pub joined : ℕ → List ℕ × List ℕ → List ℕ
joined n (head, tail) = if leb n (length head) then take n head else head ++ tail

unfoldable pub peek : RingBuffer → ℤ → List ℕ × Option Error
peek b n =
    if ltb_ℤ (pos (RingBuffer.buffered b)) n
    then ([], some short_buffer)
    else if RingBuffer.is_empty b
    then ([], some short_buffer)
    else let m = wanted (RingBuffer.buffered b) n in (joined m (RingBuffer.peek b (pos m)), none)

-- `Next` also discards what it returns, after it has looked.
unfoldable pub next : RingBuffer → ℤ → List ℕ × Option Error × RingBuffer
next b n =
    if ltb_ℤ (pos (RingBuffer.buffered b)) n
    then ([], some short_buffer, b)
    else if RingBuffer.is_empty b
    then ([], some short_buffer, b)
    else let m = wanted (RingBuffer.buffered b) n in
      let (discarded, err, b') = RingBuffer.discard b (pos m) in
      (joined m (RingBuffer.peek b (pos m)), none, b')

unfoldable pub discard : RingBuffer → ℤ → ℕ × Option Error × RingBuffer
discard b n =
    let in_buffer_len = RingBuffer.buffered b in
    if ltb_ℤ (pos in_buffer_len) n || leb_ℤ n (pos 0)
    then (in_buffer_len, none, RingBuffer.reset b)
    else if RingBuffer.is_empty b
    then (0, some short_buffer, b)
    else let (discarded, err, b') = RingBuffer.discard b n in
      if ltb discarded in_buffer_len then (discarded, none, b') else (pos_part n, none, b')
