-- ===== src/Ring/Discard.antt =====
-- `Discard` and `ReadByte`: what they skip or hand out comes off the front of the contents.

use gtcp.Prelude.{
  zero, suc, sym, ◌∙◌, ℕ, ◌+◌, ◌%◌, ◌<◌, min, ◌≡◌, refl, inl, inr, true, false, Option, none, some,
  List, [], ◌∷◌, arith, length, drop, if◌then◌else◌, ◌==◌, ltb, Bool-cases, get_or, ap,
}
use gtcp.Prelude.Int.{ℤ, pos_part}
use gtcp.Prelude.Slices.{drop_all, drop-zero, drop-append_le}
use gtcp.Errors.{Error, ring_is_empty}
use gtcp.Ring.{Buffer, buffered, reset_if_drained, read_byte, discard, wrap_at}
use gtcp.Ring.Window.{window}
use gtcp.Ring.View.{contents, IsValid, length-contents, buffered_empty, buffered_nonempty}
use gtcp.Ring.Advance.{
  mod_cases, reset-IsValid, contents-reset, size-reset, contents_empty, advanced, advanced-IsValid,
  contents-advanced, moved-IsValid, contents-moved,
}

-- What `Discard(n)` does; `n ≤ 0` discards nothing.
pub record Discards (rb : Buffer) (n : ℕ) (out : ℕ × Buffer) : Type 0 where
  pub count : out.0 ≡ min n (buffered rb)
  pub rest : contents out.1 ≡ drop n (contents rb)
  pub valid : IsValid out.1
  pub size_kept : out.1.size ≡ rb.size

nonempty_of_lt : (rb : Buffer) → IsValid rb → {n : ℕ} → n < buffered rb → rb.is_empty ≡ false
nonempty_of_lt rb v h = ground (arith, buffered_empty rb v)

-- On a valid ring `Discard(k)` returns the smaller of k and Buffered, 0 for k ≤ 0, and takes
-- that many bytes off the front of the contents; the ring stays valid and keeps its size.
pub discard_lem : (rb : Buffer) → IsValid rb → (k : ℤ) → Discards rb (pos_part k) (discard rb k)
unfolding discard
discard_lem rb v k = elim (Bool-cases (pos_part k == 0)) [
  | inl z ↦ rw z (record {
    count = ground arith;
    rest = sym (drop-zero (pos_part k) (contents rb) (ground arith));
    valid = v;
    size_kept = refl;
  })
  | inr p ↦ elim (Bool-cases (ltb (pos_part k) (buffered rb))) [
    | inl few ↦
        let l : pos_part k < buffered rb = ground arith in
        let e = nonempty_of_lt rb v l in
        rw (p, few)
          (record {
            count = ground arith;
            rest = contents-moved rb v e (pos_part k) (ground arith) (ground arith) l;
            valid = moved-IsValid rb v e (pos_part k) (ground arith) (ground arith);
            size_kept = refl;
          })
    | inr all ↦
        rw (p, all)
          (record {
            count = ground arith;
            rest = ground (
              arith,
              contents-reset rb,
              drop_all (pos_part k) (contents rb),
              length-contents rb v,
            );
            valid = reset-IsValid rb v.sized;
            size_kept = size-reset rb;
          })
  ]
]

-- `ReadByte` fails on an empty buffer and changes nothing; otherwise it takes the oldest byte off.
pub data ReadsByte (rb : Buffer) (out : ℕ × Option Error × Buffer) : Type 0 where
  failed : contents rb ≡ [] → out ≡ (0, some ring_is_empty, rb) → ReadsByte rb out
  took : contents rb ≡ out.0 ∷ contents out.2 → out.1 ≡ none → IsValid out.2 → ReadsByte rb out

drop-get_or : (xs : List ℕ) (i : ℕ) → i < length xs → drop i xs ≡ get_or xs i 0 ∷ drop (i + 1) xs
drop-get_or [] i h = absurd (omega arith)
drop-get_or (x ∷ xs) zero h = refl
drop-get_or (x ∷ xs) (suc i) h =
    let e : suc i + 1 ≡ suc (i + 1) = omega arith in rw e (drop-get_or xs i (omega arith))

-- The first byte of a window.
window-get_or :
    (buf : List ℕ) (r n : ℕ)
    → r < length buf
    → 0 < n
    → window buf r n ≡ get_or buf r 0 ∷ drop 1 (window buf r n)
window-get_or buf r zero h k = absurd (omega arith)
window-get_or buf r (suc n) h k = rw (drop-append_le r buf buf (omega arith), drop-get_or buf r h)

module _ (rb : Buffer) (v : IsValid rb) where
  read_byte_empty : rb.is_empty ≡ true → read_byte rb ≡ (0, some ring_is_empty, rb)
  unfolding read_byte
  read_byte_empty h = λ i. if h i then (0, some ring_is_empty, rb) else (
    get_or rb.buf rb.r 0,
    none,
    reset_if_drained (record rb { r = wrap_at rb.size (rb.r + 1) }),
  )

  read_byte_front : rb.is_empty ≡ false → read_byte rb ≡ (get_or rb.buf rb.r 0, none, advanced rb 1)
  unfolding read_byte
  read_byte_front h =
      let e : wrap_at rb.size (rb.r + 1) ≡ (rb.r + 1) % rb.size =
        ground (arith, mod_cases (rb.r + 1) rb.size) in
      rw (← e) λ i. if h i then (0, some ring_is_empty, rb) else (
        get_or rb.buf rb.r 0,
        none,
        reset_if_drained (record rb { r = wrap_at rb.size (rb.r + 1) }),
      )

  -- On a valid ring `ReadByte` either finds no contents, returns `ErrIsEmpty` and leaves the
  -- ring as it is, or returns the oldest byte without an error and leaves a valid ring with the
  -- rest.
  pub read_byte_lem : ReadsByte rb (read_byte rb)
  read_byte_lem = elim (Bool-cases rb.is_empty) [
    | inl h ↦ failed (contents_empty rb v h) (read_byte_empty h)
    | inr h ↦
        let some_left = buffered_nonempty rb v h in
        rw (read_byte_front h) (
          took
            (window-get_or rb.buf rb.r (buffered rb) (ground arith) some_left
              ∙ ap (◌∷◌ (get_or rb.buf rb.r 0))
                  (sym (contents-advanced rb v h 1 (omega arith) some_left)))
            refl (advanced-IsValid rb v h 1 (omega arith) some_left))
  ]
