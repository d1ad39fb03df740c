-- ===== src/Ring.antt =====
-- pkg/buffer/ring/ring_buffer.go: the circular byte buffer. A byte is a number that is only moved.
-- The field `bs` of the source is scratch space that no method reads, and is left out. Positions and
-- lengths are those of one Go slice, far below 2 ^ 63, so their sums are exact; the sums of `grow`,
-- which guards against overflow, wrap (Ring/Growth). `none` is a panic. A slice expression out of
-- range, which would panic in Go, is cut off here; the equations of Ring/Read, Ring/Store and
-- Ring/WriteTo hold for every byte, which a slice cut short would break.
pub mod Growth
pub mod GrowthBounds
pub mod Window
pub mod View
pub mod New
pub mod Peek
pub mod Advance
pub mod Read
pub mod Discard
pub mod Store
pub mod Grow
pub mod Write
pub mod WriteByte
pub mod WriteTo
pub mod ReadFrom
mod Tests
use gtcp.Prelude.{
  ℕ, ◌+◌, ◌-◌, ◌%◌, Bool, true, false, ◌&&◌, not, Option, none, some, List, [], ◌∷◌, ◌++◌, ltb, leb,
  ◌==◌, ◌!=◌, if◌then◌else◌, length, take, drop, get_or, set, replicate,
}
use gtcp.Prelude.Int.{ℤ, pos, pos_part}
use gtcp.Prelude.Slices.{slice, copy, copy_at}
use gtcp.Alloc.{Alloc}
use gtcp.Errors.{Error, ring_is_empty}
use gtcp.PowerOfTwo.{ceil_to_power_of_two}
use Growth.{grow_capacity}

pub record Buffer : Type 0 where
  pub buf : List ℕ
  pub size : ℕ
  pub r : ℕ
  pub w : ℕ
  pub is_empty : Bool

-- `&Buffer{isEmpty: true}` with a zeroed slice.
abbrev pub fresh : ℕ → Buffer
fresh size = record { buf = replicate size 0; size = size; r = 0; w = 0; is_empty = true }

unfoldable pub new : ℕ → Option Buffer
new size =
    if size == 0
    then some (fresh 0)
    else elim (ceil_to_power_of_two (pos size)) [ none ↦ none | some n ↦ some (fresh n) ]

-- `if m > n { m = n }`
abbrev pub at_most : ℕ → ℕ → ℕ
at_most n m = if ltb n m then n else m

unfoldable pub reset : Buffer → Buffer
reset rb = record rb { r = 0; w = 0; is_empty = true }

unfoldable pub buffered : Buffer → ℕ
buffered rb =
    if rb.r == rb.w
    then (if rb.is_empty then 0 else rb.size)
    else if ltb rb.r rb.w
    then rb.w - rb.r
    else rb.size - rb.r + rb.w

unfoldable pub available : Buffer → ℕ
available rb =
    if rb.r == rb.w
    then (if rb.is_empty then rb.size else 0)
    else if ltb rb.w rb.r
    then rb.r - rb.w
    else rb.size - rb.w + rb.r

unfoldable pub len : Buffer → ℕ
len rb = length rb.buf

unfoldable pub capacity : Buffer → ℕ
capacity rb = rb.size

unfoldable pub is_full : Buffer → Bool
is_full rb = rb.r == rb.w && not rb.is_empty

unfoldable pub peek_all : Buffer → List ℕ × List ℕ
peek_all rb =
    if rb.is_empty
    then ([], [])
    else if ltb rb.r rb.w
    then (slice rb.buf rb.r rb.w, [])
    else if rb.w != 0
    then (drop rb.r rb.buf, take rb.w rb.buf)
    else (drop rb.r rb.buf, [])

unfoldable pub peek : Buffer → ℤ → List ℕ × List ℕ
peek rb k =
    let n = pos_part k in
    if rb.is_empty
    then ([], [])
    else if n == 0
    then peek_all rb
    else if ltb rb.r rb.w
    then (slice rb.buf rb.r (rb.r + at_most n (rb.w - rb.r)), [])
    else let m = at_most n (rb.size - rb.r + rb.w) in
      if leb (rb.r + m) rb.size
      then (slice rb.buf rb.r (rb.r + m), [])
      else (drop rb.r rb.buf, take (m - (rb.size - rb.r)) rb.buf)

-- The count and the new buffer. The error is nil on every path.
unfoldable pub discard : Buffer → ℤ → ℕ × Buffer
discard rb k =
    let n = pos_part k in
    if n == 0
    then (0, rb)
    else if ltb n (buffered rb)
    then (n, record rb { r = (rb.r + n) % rb.size })
    else (buffered rb, reset rb)

-- `if rb.r == rb.w { rb.Reset() }`
unfoldable pub reset_if_drained : Buffer → Buffer
reset_if_drained rb = if rb.r == rb.w then reset rb else rb

-- The bytes that `Read` copies out, for `n` bytes from `r` on in a buffer that may wrap around.
abbrev pub read_wrapped : Buffer → ℕ → List ℕ → List ℕ
read_wrapped rb n p =
    if leb (rb.r + n) rb.size
    then copy p (slice rb.buf rb.r (rb.r + n))
    else let c1 = rb.size - rb.r in copy_at (copy p (drop rb.r rb.buf)) c1 (take (n - c1) rb.buf)

-- `Read` of a buffer that is not empty, lines 161 to 192.
unfoldable pub read_front : Buffer → List ℕ → ℕ × Option Error × List ℕ × Buffer
read_front rb p =
    if ltb rb.r rb.w
    then (let n = at_most (length p) (rb.w - rb.r) in
        (
          n,
          none,
          copy p (slice rb.buf rb.r (rb.r + n)),
          reset_if_drained (record rb { r = rb.r + n }),
        ))
    else let n = at_most (length p) (rb.size - rb.r + rb.w) in
      (n, none, read_wrapped rb n p, reset_if_drained (record rb { r = (rb.r + n) % rb.size }))

-- The count, the error, the new contents of `p`, the new buffer.
unfoldable pub read : Buffer → List ℕ → ℕ × Option Error × List ℕ × Buffer
read rb p =
    if length p == 0
    then (0, none, p, rb)
    else if rb.is_empty
    then (0, some ring_is_empty, p, rb)
    else read_front rb p

-- `if x == rb.size { x = 0 }`
abbrev pub wrap_at : ℕ → ℕ → ℕ
wrap_at size x = if x == size then 0 else x

unfoldable pub read_byte : Buffer → ℕ × Option Error × Buffer
read_byte rb = if rb.is_empty then (0, some ring_is_empty, rb) else (
  get_or rb.buf rb.r 0,
  none,
  reset_if_drained (record rb { r = wrap_at rb.size (rb.r + 1) }),
)

unfoldable pub bytes : Buffer → List ℕ
bytes rb =
    if rb.is_empty
    then []
    else if rb.w == rb.r
    then drop rb.r rb.buf ++ take rb.w rb.buf
    else if ltb rb.r rb.w
    then slice rb.buf rb.r rb.w
    else if rb.w != 0
    then drop rb.r rb.buf ++ take rb.w rb.buf
    else drop rb.r rb.buf

-- `rb.isEmpty = false` if `w > 0`, at the end of `grow`.
abbrev pub regrown : Buffer → List ℕ → ℕ → ℕ → Buffer
regrown rb new_buf new_cap old_len = record {
  buf = new_buf;
  size = new_cap;
  r = 0;
  w = old_len;
  is_empty = if ltb 0 old_len then false else rb.is_empty;
}

-- `copy(rb.buf[rb.w:], p); rb.w += n`, and lines 245 to 249 of `Write`.
abbrev pub store_flat : Buffer → List ℕ → Buffer
store_flat rb p = record rb {
  buf = copy_at rb.buf rb.w p;
  w = wrap_at rb.size (rb.w + length p);
  is_empty = false;
}

-- The same where `p` goes round the end of the slice: `p[:c1]` at `w`, and `p[c1:]` at 0.
abbrev pub store_wrapped : Buffer → List ℕ → Buffer
store_wrapped rb p =
    let c1 = rb.size - rb.w in
    record rb {
      buf = copy (copy_at rb.buf rb.w (take c1 p)) (drop c1 p);
      w = wrap_at rb.size (length p - c1);
      is_empty = false;
    }

-- Lines 229 to 249 of `Write`: the bytes of `p` are stored where they are known to fit.
unfoldable pub store : Buffer → List ℕ → Buffer
store rb p =
    if leb rb.r rb.w
    then (if leb (length p) (rb.size - rb.w) then store_flat rb p else store_wrapped rb p)
    else store_flat rb p

-- `rb.buf[rb.w] = c; rb.w++` and what follows it; `none` is the panic of an index out of range.
unfoldable pub store_byte : Buffer → ℕ → Option Buffer
store_byte rb c =
    if ltb rb.w (length rb.buf)
    then some
        (record rb { buf = set rb.buf rb.w c; w = wrap_at rb.size (rb.w + 1); is_empty = false })
    else none

module _ (alloc : Alloc) where
  unfoldable pub grow : Buffer → ℕ → Option Buffer
  grow rb new_cap = elim (grow_capacity rb.size new_cap) [
    | none ↦ none
    | some cap ↦
        let old_len = buffered rb in
        let (n, err, new_buf, rb') = read rb (alloc.get cap) in
        some (regrown rb' new_buf cap old_len)
  ]

  unfoldable pub write : Buffer → List ℕ → Option (ℕ × Buffer)
  write rb p =
      let n = length p in
      let free = available rb in
      if n == 0
      then some (0, rb)
      else if ltb free n
      then elim (grow rb (rb.size + n - free)) [
        | none ↦ none
        | some grown ↦ some (n, store grown p)
      ]
      else some (n, store rb p)

  -- A string is its bytes.
  abbrev pub write_string : Buffer → List ℕ → Option (ℕ × Buffer)
  write_string rb s = write rb s

  unfoldable pub write_byte : Buffer → ℕ → Option Buffer
  write_byte rb c =
      if ltb (available rb) 1
      then elim (grow rb 1) [ none ↦ none | some grown ↦ store_byte grown c ]
      else store_byte rb c
