-- ===== src/Ring/Write.antt =====
-- `Write` of pkg/buffer/ring/ring_buffer.go: what is written goes behind the contents, whether or not
-- the buffer has to grow.
use native.Mathlib.Decide.{dec_lt}
use gtcp.Prelude.{
  append-nil, ℕ, ◌+◌, ◌-◌, ◌^◌, ◌≤◌, ◌<◌, ◌≡◌, max, ◌*◌, sym, ap, true, false, Option, some, List,
  ◌++◌, arith, length, ltb, ◌==◌,
}
use gtcp.Prelude.Slices.{length_nil}
use gtcp.Alloc.{Alloc}
use gtcp.Ring.{Buffer, buffered, available, grow, store, write}
use gtcp.Ring.GrowthBounds.{grow_capacity-Grows}
use gtcp.Ring.View.{contents, IsValid, buffered-add-available}
use gtcp.Ring.Grow.{grow_lem, buffered-Grown}
use gtcp.Ring.Store.{store_lem}

-- What `Write(p)` does: all of `p` goes behind the contents, in a buffer that may have grown.
pub record Writes (rb : Buffer) (p : List ℕ) (out : Option (ℕ × Buffer)) : Type 0 where
  pub result : Buffer
  pub returned : out ≡ some (length p, result)
  pub appended : contents result ≡ contents rb ++ p
  pub valid : IsValid result
  pub sized : rb.size ≤ result.size
  pub bounded : result.size ≤ max rb.size (max 1024 (2 * (buffered rb + length p)))

module _ (alloc : Alloc) (rb : Buffer) (v : IsValid rb) (p : List ℕ) (small : rb.size ≤ 2 ^ 61)
    (short : length p ≤ 2 ^ 61) where
  write_none : length p ≡ 0 → Writes rb p (write alloc rb p)
  unfolding write
  write_none h = record {
    result = rb;
    returned = ground arith;
    appended = rw (length_nil p h) (sym (append-nil (contents rb)));
    valid = v;
    sized = omega arith;
    bounded = omega arith;
  }

  write_in_place : 0 < length p → length p ≤ available rb → Writes rb p (write alloc rb p)
  unfolding write
  write_in_place h k =
      let s = store_lem rb v p h k in
      record {
        result = store rb p;
        returned = ground arith;
        appended = s.appended;
        valid = s.valid;
        sized = omega (arith, s.size_kept);
        bounded = omega (arith, s.size_kept);
      }

  grown_returns :
      (g : Buffer)
      → available rb < length p
      → grow alloc rb (rb.size + length p - available rb) ≡ some g
      → write alloc rb p ≡ some (length p, store g p)
  unfolding write
  grown_returns g h e =
      let a : length p == 0 ≡ false = ground arith in
      let b : ltb (available rb) (length p) ≡ true = ground arith in rw (a, b, e, write)

  write_grown : available rb < length p → Writes rb p (write alloc rb p)
  write_grown h =
      let g = grow_capacity-Grows rb.size (rb.size + length p - available rb) small (omega arith) in
      let r =
        grow_lem alloc rb v (rb.size + length p - available rb) g.result g.chosen
          (omega (arith, g.enough, buffered-add-available rb v)) in
      let s = store_lem r.result r.valid p (omega arith) (
        omega (
          arith,
          g.enough,
          r.sized,
          buffered-add-available rb v,
          buffered-add-available r.result r.valid,
          buffered-Grown alloc rb v r,
        )) in
      record {
        result = store r.result p;
        returned = grown_returns r.result h r.returned;
        appended = rw s.appended (ap (λ (x : List ℕ). x ++ p) r.same);
        valid = s.valid;
        sized = omega (arith, s.size_kept, r.sized, g.enough);
        bounded = omega (arith, s.size_kept, r.sized, g.tight, buffered-add-available rb v);
      }

  -- On a valid ring whose size is at most 2 ^ 61, `Write(p)` of at most 2 ^ 61 bytes returns
  -- the length of p and no panic: the contents become the old contents and then p, whether or
  -- not the buffer grew, the result is valid, and its size is not smaller.
  pub write_lem : Writes rb p (write alloc rb p)
  write_lem = elim (dec_lt (available rb) (length p)) [
    | yes h ↦ write_grown h
    | no h ↦ elim (dec_lt 0 (length p)) [
      | yes k ↦ write_in_place k (omega arith)
      | no k ↦ write_none (omega arith)
    ]
  ]
