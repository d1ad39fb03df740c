-- ===== src/Ring/ReadFrom.antt =====
-- `ReadFrom` of pkg/buffer/ring/ring_buffer.go. The panic on a negative count is left out: a reader
-- gives a list of bytes.
pub mod Placed
pub mod Laws
pub mod FromStart
pub mod Faults
mod Tests
use gtcp.Prelude.{
  ℕ, zero, suc, ◌+◌, ◌-◌, ◌%◌, false, Option, none, some, List, ltb, leb, if◌then◌else◌, length,
}
use gtcp.Prelude.Slices.{copy_at}
use gtcp.Alloc.{Alloc}
use gtcp.Errors.{Error}
use gtcp.Io.{Reader, unless_eof}
use gtcp.Run.{Run, returns, panics, spins}
use gtcp.Ring.{Buffer, buffered, available, grow}
use gtcp.Ring.Growth.{min_read}

-- The reader has put `p` into the slice at `off`, and `rb.w = (rb.w + m) % rb.size`.
abbrev pub placed : Buffer → ℕ → List ℕ → Buffer
placed rb off p = record rb {
  buf = copy_at rb.buf off p;
  w = (rb.w + length p) % rb.size;
  is_empty = false;
}

module _ (alloc : Alloc) where
  unfoldable pub room_to_read : Buffer → Option Buffer
  room_to_read rb =
      if ltb (available rb) min_read then grow alloc rb (buffered rb + min_read) else some rb

module _ (reader : Reader) where
  open reader use {Source, read}

  abbrev pub Outcome : Type 0
  Outcome = Run (ℕ × Option Error × Buffer × Source)

  -- `n += int64(m)`, the tests on the error, and what follows when there is none.
  abbrev pub after_read : Option Error → ℕ → Buffer → Source → Outcome → Outcome
  after_read (some e) n rb src more = returns (n, unless_eof e, rb, src)
  after_read none n rb src more = more

  -- Lines 351 to 376: the reads behind `w` and then in front of `r`.
  unfoldable pub fill_twice : (Buffer → ℕ → Source → Outcome) → Buffer → ℕ → Source → Outcome
  fill_twice again rb n src =
      let (p, err, src') = read src (length rb.buf - rb.w) in
      let rb' = placed rb rb.w p in
      let n' = n + length p in
      let (q, err', src'') = read src' rb.r in
      let rb'' = placed rb' 0 q in
      let n'' = n' + length q in
      after_read err n' rb' src' (after_read err' n'' rb'' src'' (again rb'' n'' src''))

  -- Lines 377 to 391: the read between `w` and `r`.
  unfoldable pub fill_gap : (Buffer → ℕ → Source → Outcome) → Buffer → ℕ → Source → Outcome
  fill_gap again rb n src =
      let (p, err, src') = read src (rb.r - rb.w) in
      let rb' = placed rb rb.w p in
      after_read err (n + length p) rb' src' (again rb' (n + length p) src')

module _ (alloc : Alloc) (reader : Reader) where
  open reader use {Source, read}

  unfoldable pub read_from : ℕ → Buffer → ℕ → Source → Outcome reader
  read_from zero rb n src = spins
  read_from (suc fuel) rb n src = elim (room_to_read alloc rb) [
    | none ↦ panics
    | some rb' ↦
        if leb rb'.r rb'.w
        then fill_twice reader (read_from fuel) rb' n src
        else fill_gap reader (read_from fuel) rb' n src
  ]
