-- ===== src/Ring/WriteByte.antt =====
-- `WriteByte` of pkg/buffer/ring/ring_buffer.go, and the full buffer on which it panics.
use native.Mathlib.Decide.{dec_lt}
use gtcp.Prelude.{
  ℕ, zero, suc, ◌-◌, ◌^◌, ◌≤◌, ◌<◌, ◌≡◌, ap, ◌∙◌, inl, inr, ◌⊎◌, true, false, Option, none, some,
  List, [], ◌∷◌, ◌++◌, arith, length, set, ltb, leb, Bool-cases,
}
use gtcp.Prelude.Slices.{length-copy, take-nil, copy_at}
use gtcp.Alloc.{Alloc}
use gtcp.Ring.{
  Buffer, buffered, available, read, regrown, grow, store, store_flat, store_byte, write_byte,
}
use gtcp.Ring.GrowthBounds.{grow_capacity_one, grow_capacity_one_small}
use gtcp.Ring.View.{contents, IsValid, buffered-le, buffered-add-available}
use gtcp.Ring.Grow.{grow_lem, grow_returns, buffered-Grown}
use gtcp.Ring.Read.{read_lem}
use gtcp.Ring.Store.{store_lem}

-- `rb.buf[rb.w] = c` is a copy of one byte.
set-copy_at : (xs : List ℕ) (i c : ℕ) → i < length xs → copy_at xs i (c ∷ []) ≡ set xs i c
set-copy_at [] i c h = absurd (omega arith)
set-copy_at (x ∷ xs) zero c h = rw (take-nil (length xs))
set-copy_at (x ∷ xs) (suc i) c h = ap (◌∷◌ x) (set-copy_at xs i c (omega arith))

-- What `WriteByte` does when it does not panic.
pub record WritesByte (rb : Buffer) (c : ℕ) (out : Option Buffer) : Type 0 where
  pub result : Buffer
  pub returned : out ≡ some result
  pub appended : contents result ≡ contents rb ++ c ∷ []
  pub valid : IsValid result
  pub sized : rb.size ≤ result.size

module _ (rb : Buffer) (v : IsValid rb) (c : ℕ) (room : 0 < available rb) where
  w-lt : rb.w < rb.size
  unfolding available
  w-lt = ground arith

  store-store_flat : store rb (c ∷ []) ≡ store_flat rb (c ∷ [])
  unfolding store
  store-store_flat =
      let fits : leb 1 (rb.size - rb.w) ≡ true = ground (arith, w-lt) in
      elim (Bool-cases (leb rb.r rb.w)) [ inl h ↦ rw (h, fits) | inr h ↦ rw h ]

  store_byte-eq : store_byte rb c ≡ some (store rb (c ∷ []))
  unfolding store_byte
  store_byte-eq =
      let inside : rb.w < length rb.buf = omega (arith, w-lt, v.sized) in
      let test : ltb rb.w (length rb.buf) ≡ true = ground arith in
      let bytes = set-copy_at rb.buf rb.w c inside in rw (store-store_flat, test, bytes)

  store_byte-WritesByte : WritesByte rb c (store_byte rb c)
  store_byte-WritesByte =
      let s = store_lem rb v (c ∷ []) (omega arith) (omega arith) in
      record {
        result = store rb (c ∷ []);
        returned = store_byte-eq;
        appended = s.appended;
        valid = s.valid;
        sized = omega (arith, s.size_kept);
      }

-- A write position at the end of the slice is out of range.
store_byte_outside : (g : Buffer) (c : ℕ) → length g.buf ≤ g.w → store_byte g c ≡ none
unfolding store_byte
store_byte_outside g c h = ground arith

module _ (alloc : Alloc) (rb : Buffer) (v : IsValid rb) (c : ℕ) where
  grown_returns :
      (g : Buffer)
      → available rb ≡ 0
      → grow alloc rb 1 ≡ some g
      → write_byte alloc rb c ≡ store_byte g c
  unfolding write_byte
  grown_returns g h e =
      let test : ltb (available rb) 1 ≡ true = ground arith in rw (test, e, write_byte)

  grown : available rb ≡ 0 → rb.size < 4096 → WritesByte rb c (write_byte alloc rb c)
  grown full small =
      let (cap', chosen, more) = grow_capacity_one_small rb.size small in
      let r = grow_lem alloc rb v 1 cap' chosen (omega (arith, buffered-le rb v)) in
      let b = store_byte-WritesByte r.result r.valid c (
        omega (
          arith,
          r.sized,
          buffered-Grown alloc rb v r,
          buffered-le rb v,
          buffered-add-available r.result r.valid,
        )) in
      rw (grown_returns r.result full r.returned) (record {
        result = b.result;
        returned = b.returned;
        appended = b.appended ∙ ap (λ (x : List ℕ). x ++ c ∷ []) r.same;
        valid = b.valid;
        sized = omega (arith, b.sized, r.sized);
      })

  -- On a valid ring that has room for a byte or a size below 4096, `WriteByte(c)` does not
  -- panic: the contents become the old contents and then c, the result is valid, and its size
  -- is not smaller.
  pub write_byte_lem :
      (0 < available rb) ⊎ (rb.size < 4096) → WritesByte rb c (write_byte alloc rb c)
  unfolding write_byte
  write_byte_lem small = elim (dec_lt 0 (available rb)) [
    | yes room ↦
        let test : ltb (available rb) 1 ≡ false = ground arith in
        rw test (store_byte-WritesByte rb v c room)
    | no full ↦ grown (omega arith) (omega arith)
  ]

  -- On a valid ring with no room whose size is at least 4096 and at most 2 ^ 61, `WriteByte`
  -- panics: grow(1) keeps the size, and the write position is out of range.
  pub write_byte_panics :
      available rb ≡ 0 → 4096 ≤ rb.size → rb.size ≤ 2 ^ 61 → write_byte alloc rb c ≡ none
  write_byte_panics full large small =
      let nb = alloc.get rb.size in
      let out = read rb nb in
      rw
        (grown_returns (regrown out.3 out.2 rb.size (buffered rb)) full
          (grow_returns alloc rb v 1 rb.size (grow_capacity_one rb.size large small)))
        (store_byte_outside (regrown out.3 out.2 rb.size (buffered rb)) c (
          omega (
            arith,
            ap length (read_lem rb v nb).filled,
            length-copy nb (contents rb),
            alloc.length-get rb.size,
            buffered-add-available rb v,
          )))
