-- ===== src/Elastic/RingBuffer/Contents.antt =====
-- The elastic ring as a queue of bytes: a nil ring holds none.
use gtcp.Prelude.{
  ℕ, ◌+◌, ◌^◌, ◌≤◌, ◌<◌, ◌≡◌, max, ◌*◌, min, refl, sym, ap, ◌∙◌, inl, inr, Bool, true, false,
  Option, none, some, List, [], ◌++◌, arith, length, take, drop, append-nil, ◌==◌, if◌then◌else◌,
  Bool-cases,
}
use gtcp.Prelude.Int.{ℤ, pos, pos_part}
use gtcp.Prelude.Slices.{copy, drop-nil, take-nil, length_nil}
use gtcp.Alloc.{Alloc}
use gtcp.RingPool.{RingPool}
use gtcp.Errors.{Error}
use gtcp.Ring
use gtcp.Ring.View
use gtcp.Ring.Read.{read_lem}
use gtcp.Ring.Discard.{discard_lem}
use gtcp.Ring.Write
use gtcp.Ring.Write.{write_lem}
use gtcp.Ring.Advance
use gtcp.Ring.Peek.{peek_lem}
use gtcp.Ring.Advance.{contents_empty}
use gtcp.Elastic.RingBuffer.{
  RingBuffer, done, read, discard, write, taken, buffered, capacity, is_empty, available, reset,
  peek,
}

abbrev pub contents : RingBuffer → List ℕ
contents none = []
contents (some rb) = View.contents rb

abbrev pub IsValid : RingBuffer → Type 0
IsValid none = Unit
IsValid (some rb) = View.IsValid rb

pub length-contents : (b : RingBuffer) → IsValid b → length (contents b) ≡ buffered b
unfolding buffered
length-contents none v = refl
length-contents (some rb) v = View.length-contents rb v

pub buffered-add-available : (b : RingBuffer) → IsValid b → buffered b + available b ≡ capacity b
unfolding buffered available capacity Ring.capacity
buffered-add-available none v = omega arith
buffered-add-available (some rb) v = View.buffered-add-available rb v

pub contents_nil : (b : RingBuffer) → IsValid b → is_empty b ≡ true → contents b ≡ []
unfolding is_empty
contents_nil none v h = refl
contents_nil (some rb) v h = contents_empty rb v h

pub is_empty_false : (b : RingBuffer) → IsValid b → is_empty b ≡ false → 0 < length (contents b)
unfolding is_empty
is_empty_false none v h = absurd (ground arith)
is_empty_false (some rb) v h =
    ground (arith, View.length-contents rb v, View.buffered_nonempty rb v)

-- A ring that is given back holds nothing.
contents_kept :
    (rb : Ring.Buffer) (drained : Bool)
    → (drained ≡ true → View.contents rb ≡ [])
    → contents (if drained then none else some rb) ≡ View.contents rb
contents_kept rb true h = sym (h refl)
contents_kept rb false h = refl

kept-IsValid :
    (rb : Ring.Buffer) (drained : Bool)
    → View.IsValid rb
    → IsValid (if drained then none else some rb)
kept-IsValid rb true v = _
kept-IsValid rb false v = v

pub contents-done :
    (rb : Ring.Buffer) → View.IsValid rb → contents (done (some rb)) ≡ View.contents rb
unfolding done
contents-done rb v = contents_kept rb rb.is_empty (contents_empty rb v)

pub done-IsValid : (rb : Ring.Buffer) → View.IsValid rb → IsValid (done (some rb))
unfolding done
done-IsValid rb v = kept-IsValid rb rb.is_empty v

-- What `Read(p)` does.
pub record Reads (b : RingBuffer) (p : List ℕ) (out : ℕ × Option Error × List ℕ × RingBuffer)
    : Type 0 where
  pub count : out.0 ≡ min (length p) (length (contents b))
  pub filled : out.2 ≡ copy p (contents b)
  pub rest : contents out.3 ≡ drop (length p) (contents b)
  pub valid : IsValid out.3

pub ring_buffer_read_lem : (b : RingBuffer) (p : List ℕ) → IsValid b → Reads b p (read b p)
unfolding read
ring_buffer_read_lem none p v = record {
  count = omega arith;
  filled = rw (take-nil (length p)) refl;
  rest = sym (drop-nil (length p));
  valid = v;
}
ring_buffer_read_lem (some rb) p v =
    let r = read_lem rb v p in
    record {
      count = omega (arith, r.count, View.length-contents rb v);
      filled = r.filled;
      rest = contents-done (Ring.read rb p).3 r.valid ∙ r.rest;
      valid = done-IsValid (Ring.read rb p).3 r.valid;
    }

-- What `Discard(n)` does.
pub record Discards (b : RingBuffer) (n : ℕ) (out : ℕ × Option Error × RingBuffer) : Type 0 where
  pub count : out.0 ≡ min n (length (contents b))
  pub rest : contents out.2 ≡ drop n (contents b)
  pub valid : IsValid out.2

pub ring_buffer_discard_lem :
    (b : RingBuffer) (k : ℤ) → IsValid b → Discards b (pos_part k) (discard b k)
unfolding discard
ring_buffer_discard_lem none k v = record {
  count = omega arith;
  rest = sym (drop-nil (pos_part k));
  valid = v;
}
ring_buffer_discard_lem (some rb) k v =
    let r = discard_lem rb v k in
    record {
      count = omega (arith, r.count, View.length-contents rb v);
      rest = contents-done (Ring.discard rb k).1 r.valid ∙ r.rest;
      valid = done-IsValid (Ring.discard rb k).1 r.valid;
    }

-- What `Write(p)` does.
pub record Writes (b : RingBuffer) (p : List ℕ) (out : Option (ℕ × RingBuffer)) : Type 0 where
  pub result : RingBuffer
  pub returned : out ≡ some (length p, result)
  pub appended : contents result ≡ contents b ++ p
  pub valid : IsValid result
  pub bounded : capacity result ≤ max (2 ^ 61) (2 * (length (contents b) + length p))

module _ (alloc : Alloc) (pool : RingPool) where
  contents-taken : (b : RingBuffer) → View.contents (taken alloc pool b) ≡ contents b
  unfolding taken
  contents-taken none = pool.get_holds_nothing
  contents-taken (some rb) = refl

  taken-IsValid : (b : RingBuffer) → IsValid b → View.IsValid (taken alloc pool b)
  unfolding taken
  taken-IsValid none v = pool.get-IsValid
  taken-IsValid (some rb) v = v

  size-taken : (b : RingBuffer) → capacity b ≤ 2 ^ 61 → (taken alloc pool b).size ≤ 2 ^ 61
  unfolding taken capacity Ring.capacity
  size-taken none h = pool.get_size
  size-taken (some rb) h = h

  grown_size :
      (b : RingBuffer) (p : List ℕ) (v : IsValid b) (small : capacity b ≤ 2 ^ 61)
      (r : Write.Writes (taken alloc pool b) p (Ring.write alloc (taken alloc pool b) p))
      → r.result.size ≤ max (2 ^ 61) (2 * (length (contents b) + length p))
  grown_size b p v small r = omega (
    arith,
    r.bounded,
    size-taken b small,
    ap length (contents-taken b),
    View.length-contents (taken alloc pool b) (taken-IsValid b v),
  )

  pub ring_buffer_write_lem :
      (b : RingBuffer) (p : List ℕ)
      → IsValid b
      → capacity b ≤ 2 ^ 61
      → length p ≤ 2 ^ 61
      → Writes b p (write alloc pool b p)
  unfolding write capacity Ring.capacity
  ring_buffer_write_lem b p v small short = elim (Bool-cases (length p == 0)) [
    | inl z ↦ rw z (record {
      result = b;
      returned = ground arith;
      appended = rw (length_nil p (ground arith)) (sym (append-nil (contents b)));
      valid = v;
      bounded = omega arith;
    })
    | inr more ↦
        let r =
          write_lem alloc (taken alloc pool b) (taken-IsValid b v) p (size-taken b small) short in
        rw (more, r.returned)
          (record {
            result = some r.result;
            returned = refl;
            appended = r.appended ∙ ap (λ (x : List ℕ). x ++ p) (contents-taken b);
            valid = r.valid;
            bounded = grown_size b p v small r;
          })
  ]

pub contents-reset : (b : RingBuffer) → IsValid b → contents (reset b) ≡ []
unfolding reset
contents-reset none v = refl
contents-reset (some rb) v = Advance.contents-reset rb

pub reset-IsValid : (b : RingBuffer) → IsValid b → IsValid (reset b)
unfolding reset
reset-IsValid none v = v
reset-IsValid (some rb) v = Advance.reset-IsValid rb v.sized

-- The two slices that `Peek(n)` returns for a positive count.
pub peek_parts :
    (b : RingBuffer) (n : ℕ)
    → IsValid b
    → 0 < n
    → (peek b (pos n)).0 ++ (peek b (pos n)).1 ≡ take n (contents b)
unfolding peek
peek_parts none n v h = sym (take-nil n)
peek_parts (some rb) n v h =
    let test : n == 0 ≡ false = ground arith in peek_lem rb v (pos n) ∙ rw test
