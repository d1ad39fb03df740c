-- ===== src/Ring/Read.antt =====
-- `Read`: what it copies out comes off the front of the contents.

use gtcp.Prelude.{
  ap₂, sym, ◌∙◌, ℕ, ◌+◌, ◌-◌, ◌%◌, ◌≤◌, ◌<◌, min, ◌≡◌, refl, inl, inr, true, false, Option, none,
  some, List, [], arith, length, take, drop, if◌then◌else◌, ◌==◌, ltb, Bool-cases, leb, ap,
  length-drop, length-take,
}
use gtcp.Prelude.Slices.{
  length_nil, slice, copy, copy_at, drop_all, drop-zero, drop-nil, take-nil, copy-take,
  copy_at-copy,
}
use gtcp.Errors.{Error, ring_is_empty}
use gtcp.Ring.{Buffer, buffered, at_most, reset_if_drained, read, read_front, read_wrapped}
use gtcp.Ring.Window.{window, window_flat, window_wrapped, take-window}
use gtcp.Ring.View.{
  contents, IsValid, buffered-le, buffered_flat, buffered_round, r-le, length-contents,
  buffered_empty, buffered_nonempty,
}
use gtcp.Ring.Advance.{
  mod_cases, contents_empty, advanced, size-advanced, advanced-IsValid, contents-advanced,
}

copy_nil : {p : List ℕ} (src : List ℕ) → p ≡ [] → p ≡ copy p src
copy_nil src e = rw (e, drop-nil (length src))

copy_from_nil : (p : List ℕ) → copy p [] ≡ p
copy_from_nil p = rw (take-nil (length p))

-- What `Read(p)` does: it copies the front of the contents over `p`, and takes it off.
pub record Reads (rb : Buffer) (p : List ℕ) (out : ℕ × Option Error × List ℕ × Buffer)
    : Type 0 where
  pub count : out.0 ≡ min (length p) (buffered rb)
  pub error :
      out.1 ≡ (if length p == 0 then none else if rb.is_empty then some ring_is_empty else none)
  pub filled : out.2 ≡ copy p (contents rb)
  pub rest : contents out.3 ≡ drop (length p) (contents rb)
  pub valid : IsValid out.3
  pub size_kept : out.3.size ≡ rb.size

module _ (rb : Buffer) (v : IsValid rb) (p : List ℕ) where
  -- Reading over `p` needs no more of the contents than `p` has room for.
  copy-window :
      (n : ℕ)
      → n ≡ at_most (length p) (buffered rb)
      → copy p (window rb.buf rb.r n) ≡ copy p (contents rb)
  copy-window n e =
      ap (copy p) (sym (take-window rb.buf rb.r (buffered rb) n (ground arith)))
      ∙ copy-take p n (contents rb) (ground (arith, length-contents rb v))

  slice-window : (n : ℕ) → rb.r + n ≤ rb.size → slice rb.buf rb.r (rb.r + n) ≡ window rb.buf rb.r n
  slice-window n h =
      let e : rb.r + n - rb.r ≡ n = omega arith in rw (window_flat rb.buf rb.r n (ground arith), e)

  read_wrapped-window :
      (n : ℕ) → n ≤ length p → n ≤ rb.size → read_wrapped rb n p ≡ copy p (window rb.buf rb.r n)
  read_wrapped-window n h k = elim (Bool-cases (leb (rb.r + n) rb.size)) [
    | inl fits ↦ rw fits (ap (copy p) (slice-window n (ground arith)))
    | inr over ↦
        let rest = take (n - (length rb.buf - rb.r)) rb.buf in
        rw
          (
            over,
            window_wrapped rb.buf rb.r n (ground (arith, r-le rb v)) (ground arith) (ground arith),
          )
          (ap₂ (λ (a b : ℕ). copy_at (copy p (drop rb.r rb.buf)) a (take (n - b) rb.buf))
              (ground (arith, length-drop rb.r rb.buf)) (ground arith)
            ∙ copy_at-copy p (drop rb.r rb.buf) rest (
                ground (
                  arith,
                  length-drop rb.r rb.buf,
                  r-le rb v,
                  length-take (n - (length rb.buf - rb.r)) rb.buf,
                )))
  ]

  read_front_eq :
      (n : ℕ)
      → n ≡ at_most (length p) (buffered rb)
      → rb.is_empty ≡ false
      → read_front rb p ≡ (n, none, copy p (contents rb), advanced rb n)
  unfolding read_front
  read_front_eq n e h = elim (Bool-cases (ltb rb.r rb.w)) [
    | inl flat ↦
        let m : at_most (length p) (rb.w - rb.r) ≡ n = ground (arith, buffered_flat rb v) in
        let e' : rb.r + n ≡ (rb.r + n) % rb.size =
          ground (arith, mod_cases (rb.r + n) rb.size, buffered_flat rb v) in
        rw (flat, m)
          (tuple
            (ap (copy p) (slice-window n (ground (arith, buffered_flat rb v))) ∙ copy-window n e)
            (ap (λ k. reset_if_drained (record rb { r = k })) e'))
    | inr round ↦
        let m : at_most (length p) (rb.size - rb.r + rb.w) ≡ n =
          ground (arith, buffered_round rb v) in
        rw (round, m)
          (tuple
            (read_wrapped-window n (ground arith) (ground (arith, buffered-le rb v))
              ∙ copy-window n e)
            refl)
  ]
    where
      tuple :
          {c d : List ℕ} {a b : Buffer}
          → c ≡ d
          → a ≡ b
          → ◌≡◌ {A = ℕ × Option Error × List ℕ × Buffer} (n, none, c, a) (n, none, d, b)
      tuple q s = λ i. (n, none, q i, s i)

  read_front-Reads : 0 < length p → rb.is_empty ≡ false → Reads rb p (read_front rb p)
  read_front-Reads l h =
      let n = at_most (length p) (buffered rb) in
      rw (read_front_eq n refl h) (record {
        count = ground arith;
        error = ground arith;
        filled = refl;
        rest = rest n refl;
        valid = advanced-IsValid rb v h n (ground (arith, buffered_nonempty rb v)) (ground arith);
        size_kept = size-advanced rb v h n (ground (arith, buffered_nonempty rb v)) (ground arith);
      })
    where
      rest :
          (n : ℕ)
          → n ≡ at_most (length p) (buffered rb)
          → contents (advanced rb n) ≡ drop (length p) (contents rb)
      rest n e = ground (
        arith,
        contents-advanced rb v h n,
        buffered_nonempty rb v,
        drop_all n (contents rb),
        drop_all (length p) (contents rb),
        length-contents rb v,
      )

  read_empty_eq :
      length p == 0 ≡ false → rb.is_empty ≡ true → read rb p ≡ (0, some ring_is_empty, p, rb)
  unfolding read
  read_empty_eq l h =
      rw l (ap (λ b. if b then (0, some ring_is_empty, p, rb) else read_front rb p) h)

  read_front_only : length p == 0 ≡ false → rb.is_empty ≡ false → read rb p ≡ read_front rb p
  unfolding read
  read_front_only l h =
      rw l (ap (λ b. if b then (0, some ring_is_empty, p, rb) else read_front rb p) h)

  -- On a valid ring `Read(p)` returns min(len p, Buffered); its error is `ErrIsEmpty` when p is
  -- not empty and the ring is, and none otherwise; p then starts with the front of the contents
  -- and is unchanged behind it, the ring keeps the rest of the contents, is valid and has its
  -- old size.
  pub read_lem : Reads rb p (read rb p)
  unfolding read
  read_lem = elim (Bool-cases (length p == 0)) [
    | inl z ↦ rw z (record {
      count = ground arith;
      error = rw z;
      filled = copy_nil (contents rb) (length_nil p (ground arith));
      rest = sym (drop-zero (length p) (contents rb) (ground arith));
      valid = v;
      size_kept = refl;
    })
    | inr l ↦ elim (Bool-cases rb.is_empty) [
      | inl h ↦ rw (read_empty_eq l h) (record {
        count = ground (arith, buffered_empty rb v);
        error = rw l (ap (λ b. if b then some ring_is_empty else none) (sym h));
        filled = rw (contents_empty rb v h) (sym (copy_from_nil p));
        rest = rw (contents_empty rb v h) (sym (drop-nil (length p)));
        valid = v;
        size_kept = refl;
      })
      | inr h ↦ rw (read_front_only l h) (read_front-Reads (ground arith) h)
    ]
  ]
