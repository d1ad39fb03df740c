-- ===== src/Inbound/Laws.antt =====
-- What a reader of the inbound buffer gets, in terms of the bytes that it holds.
use gtcp.Prelude.{
  ℕ, ◌≤◌, ◌<◌, ◌≡◌, refl, sym, ap, ◌∙◌, inl, inr, Bool, true, false, ◌||◌, Option, none, some, List,
  [], ◌++◌, arith, leb, ltb, ◌==◌, if◌then◌else◌, length, take, drop, Bool-cases,
}
use gtcp.Prelude.Int.{ℤ, pos, negsuc, pos_part, ltb_ℤ, leb_ℤ}
use gtcp.Prelude.Slices.{drop_all, take-take, take-append_le}
use gtcp.Errors.{Error, short_buffer}
use gtcp.Elastic.RingBuffer
use gtcp.Elastic.RingBuffer.{RingBuffer}
use gtcp.Elastic.RingBuffer.Contents
use gtcp.Inbound.{peek, next, discard, joined, wanted}

-- A request for more bytes than there are, or for any when there are none, fails; one for `n ≤ 0`
-- bytes gets all of them.
abbrev pub fails : List ℕ → ℤ → Bool
fails bytes n = ltb_ℤ (pos (length bytes)) n || (length bytes == 0)

abbrev pub shown : List ℕ → ℤ → List ℕ × Option Error
shown bytes n =
    if fails bytes n then ([], some short_buffer) else (take (wanted (length bytes) n) bytes, none)

module _ (b : RingBuffer) (v : Contents.IsValid b) where
  abbrev bytes : List ℕ
  bytes = Contents.contents b

  no_length : RingBuffer.is_empty b ≡ true → length bytes ≡ 0
  no_length e = ap length (Contents.contents_nil b v e)

  joined-take :
      (head tail : List ℕ) (m : ℕ)
      → m ≤ length bytes
      → head ++ tail ≡ take m bytes
      → joined m (head, tail) ≡ take m bytes
  joined-take head tail m fits h = elim (Bool-cases (leb m (length head))) [
    | inl short ↦ rw short (
        sym (take-append_le m head tail (ground arith))
        ∙ ap (take m) h
        ∙ take-take m m bytes (omega arith))
    | inr long ↦ rw long h
  ]

  joined_lem :
      (m : ℕ) → 0 < m → m ≤ length bytes → joined m (RingBuffer.peek b (pos m)) ≡ take m bytes
  joined_lem m p fits =
      joined-take (RingBuffer.peek b (pos m)).0 (RingBuffer.peek b (pos m)).1 m fits
        (Contents.peek_parts b m v p)

  size : length bytes ≡ RingBuffer.buffered b
  size = Contents.length-contents b v

  wanted_bounds :
      (n : ℤ)
      → ltb_ℤ (pos (RingBuffer.buffered b)) n ≡ false
      → RingBuffer.is_empty b ≡ false
      → let m = wanted (RingBuffer.buffered b) n in (0 < m) × (m ≤ length bytes)
  wanted_bounds (pos n) t e = ground (arith, size, Contents.is_empty_false b v e)
  wanted_bounds (negsuc n) t e = ground (arith, size, Contents.is_empty_false b v e)

  -- The two ways to fail, and the one to succeed.
  data Cases (n : ℤ) : Type 0 where
    too_many : ltb_ℤ (pos (RingBuffer.buffered b)) n ≡ true → Cases n
    nothing :
        ltb_ℤ (pos (RingBuffer.buffered b)) n ≡ false
        → RingBuffer.is_empty b ≡ true
        → RingBuffer.buffered b == 0 ≡ true
        → Cases n
    enough :
        ltb_ℤ (pos (RingBuffer.buffered b)) n ≡ false
        → RingBuffer.is_empty b ≡ false
        → RingBuffer.buffered b == 0 ≡ false
        → Cases n

  cases : (n : ℤ) → Cases n
  cases n = elim (Bool-cases (ltb_ℤ (pos (RingBuffer.buffered b)) n)) [
    | inl t ↦ too_many t
    | inr t ↦ elim (Bool-cases (RingBuffer.is_empty b)) [
      | inl e ↦ nothing t e (ground (arith, no_length e, size))
      | inr e ↦ enough t e (ground (arith, size, Contents.is_empty_false b v e))
    ]
  ]

  handed_out :
      (n : ℤ)
      → ltb_ℤ (pos (RingBuffer.buffered b)) n ≡ false
      → RingBuffer.is_empty b ≡ false
      → let m = wanted (RingBuffer.buffered b) n in
        joined m (RingBuffer.peek b (pos m)) ≡ take m bytes
  handed_out n t e =
      let (p, fits) = wanted_bounds n t e in joined_lem (wanted (RingBuffer.buffered b) n) p fits

  pub inbound_peek_lem : (n : ℤ) → peek b n ≡ shown bytes n
  unfolding peek
  inbound_peek_lem n = elim (cases n) [
    | too_many t ↦ rw (size, t)
    | nothing t e z ↦ rw (size, t, e, z)
    | enough t e z ↦ rw (size, t, e, z, handed_out n t e)
  ]

  -- What `Next(n)` does: it hands out what `Peek(n)` would, and takes that off.
  pub record Takes (n : ℤ) (out : List ℕ × Option Error × RingBuffer) : Type 0 where
    pub returned : ◌≡◌ {A = List ℕ × Option Error} (out.0, out.1) (shown bytes n)
    pub rest :
        Contents.contents out.2
        ≡ (if fails bytes n then bytes else drop (wanted (length bytes) n) bytes)
    pub valid : Contents.IsValid out.2

  -- On a valid inbound ring `Next(n)` fails with `ErrShortBuffer` and changes nothing if n is
  -- more than there are bytes or there are none; otherwise it hands out the first n bytes, all
  -- for n ≤ 0, and takes them off; the ring stays valid.
  pub inbound_next_lem : (n : ℤ) → Takes n (next b n)
  unfolding next
  inbound_next_lem n = elim (cases n) [
    | too_many t ↦ rw t (record { returned = rw (size, t); rest = rw (size, t); valid = v })
    | nothing t e z ↦
        rw (t, e) (record { returned = rw (size, t, z); rest = rw (size, t, z); valid = v })
    | enough t e z ↦
        let m = wanted (RingBuffer.buffered b) n in
        let d = Contents.ring_buffer_discard_lem b (pos m) v in
        rw (t, e)
          (record {
            returned = rw (size, t, z, handed_out n t e);
            rest = rw (size, t, z, d.rest);
            valid = d.valid;
          })
  ]

  -- What `Discard(n)` does: for `0 < n ≤ Buffered` it takes `n` bytes off, otherwise all.
  pub record Discards (n : ℤ) (out : ℕ × Option Error × RingBuffer) : Type 0 where
    pub count : out.0 ≡ (if fails bytes n then length bytes else wanted (length bytes) n)
    pub no_error : out.1 ≡ none
    pub rest :
        Contents.contents out.2
        ≡ (if fails bytes n then [] else drop (wanted (length bytes) n) bytes)
    pub valid : Contents.IsValid out.2

  -- On a valid inbound ring `Discard(n)` takes the first n bytes off and returns n, for n above
  -- 0 and not above the number of bytes; for any other n it empties the ring and returns the
  -- number of bytes that there were. It reports no error, and the ring stays valid.
  pub inbound_discard_lem : (n : ℤ) → Discards n (discard b n)
  unfolding discard
  inbound_discard_lem n = elim (cases n) [
    | too_many t ↦ rw t (record {
      count = rw (size, t);
      no_error = refl;
      rest = rw (size, t) (Contents.contents-reset b v);
      valid = Contents.reset-IsValid b v;
    })
    | nothing t e z ↦
        let least : leb_ℤ n (pos 0) ≡ true = none_wanted n t z in
        rw (t, least)
          (record {
            count = rw (size, t, z);
            no_error = refl;
            rest = rw (size, t, z) (Contents.contents-reset b v);
            valid = Contents.reset-IsValid b v;
          })
    | enough t e z ↦ elim (Bool-cases (leb_ℤ n (pos 0))) [
      | inl least ↦
          rw (t, least)
            (record {
              count = rw (size, t, z, least);
              no_error = refl;
              rest =
                  rw (size, t, z, least)
                    (Contents.contents-reset b v
                      ∙ sym (drop_all (RingBuffer.buffered b) bytes (omega (arith, size))));
              valid = Contents.reset-IsValid b v;
            })
      | inr more ↦
          let d = Contents.ring_buffer_discard_lem b n v in
          let all : (RingBuffer.discard b n).0 ≡ pos_part n =
            omega (arith, d.count, size, in_buffer n t) in
          let test = ltb (RingBuffer.discard b n).0 (RingBuffer.buffered b) in
          rw (t, more, e)
            (elim (Bool-cases test) [
              | inl some_left ↦ rw some_left (record {
                count = rw (size, t, z, more) all;
                no_error = refl;
                rest = rw (size, t, z, more) d.rest;
                valid = d.valid;
              })
              | inr none_left ↦ rw none_left (record {
                count = rw (size, t, z, more);
                no_error = refl;
                rest = rw (size, t, z, more) d.rest;
                valid = d.valid;
              })
            ])
    ]
  ]
    where
      none_wanted :
          (n : ℤ)
          → ltb_ℤ (pos (RingBuffer.buffered b)) n ≡ false
          → RingBuffer.buffered b == 0 ≡ true
          → leb_ℤ n (pos 0) ≡ true
      none_wanted (pos n) t z = ground arith
      none_wanted (negsuc n) t z = ground arith

      in_buffer :
          (n : ℤ)
          → ltb_ℤ (pos (RingBuffer.buffered b)) n ≡ false
          → pos_part n ≤ RingBuffer.buffered b
      in_buffer (pos n) t = ground arith
      in_buffer (negsuc n) t = omega arith
