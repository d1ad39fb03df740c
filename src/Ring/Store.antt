-- ===== src/Ring/Store.antt =====
-- Storing bytes that fit, as `Write` of pkg/buffer/ring/ring_buffer.go does once there is room.
use gtcp.Prelude.{
  ℕ, ◌+◌, ◌-◌, ◌≤◌, ◌<◌, ◌≡◌, refl, sym, ap, ◌∙◌, inl, inr, false, List, ◌++◌, arith, length, take,
  drop, leb, Bool-cases,
}
use gtcp.Prelude.Slices.{copy, copy_at, length-copy, length-copy_at}
use gtcp.Ring.{Buffer, buffered, available, store, store_flat, store_wrapped, wrap_at}
use gtcp.Ring.Window.{window, window-store_flat, window-store_gap, window-store_wrapped}
use gtcp.Ring.View.{contents, IsValid}

-- The bytes of `p` stand behind those that were there, in a buffer of the same size.
pub record Stores (rb : Buffer) (p : List ℕ) (out : Buffer) : Type 0 where
  pub appended : contents out ≡ contents rb ++ p
  pub valid : IsValid out
  pub size_kept : out.size ≡ rb.size

module _ (rb : Buffer) (b : List ℕ) (x : ℕ) where
  -- `rb` with other bytes, and the write position moved on to `x`.
  abbrev placed : Buffer
  placed = record rb { buf = b; w = wrap_at rb.size x; is_empty = false }

  buffered-placed_flat : rb.r < x → x ≤ rb.size → buffered placed ≡ x - rb.r
  unfolding buffered
  buffered-placed_flat h k = ground arith

  buffered-placed_gap : x ≤ rb.r → rb.r < rb.size → buffered placed ≡ rb.size - rb.r + x
  unfolding buffered
  buffered-placed_gap h k = ground arith

  placed-IsValid : length b ≡ rb.size → rb.r < rb.size → x ≤ rb.size → IsValid placed
  placed-IsValid e h k = record { sized = e; positions = ground arith }

module _ (rb : Buffer) (v : IsValid rb) (p : List ℕ) (some_bytes : 0 < length p)
    (fits : length p ≤ available rb) where
  r-lt : rb.r < rb.size
  unfolding available
  r-lt = ground arith

  w-le : rb.w ≤ rb.size
  w-le = ground arith

  -- The window does not end at `r` again, since there is room.
  buffered_flat : rb.r ≤ rb.w → buffered rb ≡ rb.w - rb.r
  unfolding buffered available
  buffered_flat h = ground arith

  buffered_gap : rb.w < rb.r → buffered rb ≡ rb.size - rb.r + rb.w
  unfolding buffered
  buffered_gap h = ground arith

  room_flat : rb.r ≤ rb.w → rb.w - rb.r + length p ≤ rb.size
  unfolding available
  room_flat h = ground arith

  room_gap : rb.w < rb.r → rb.w + length p ≤ rb.r
  unfolding available
  room_gap h = ground arith

  pub flat-Stores : rb.r ≤ rb.w → rb.w + length p ≤ rb.size → Stores rb p (store_flat rb p)
  flat-Stores h k = record {
    appended =
        ap (window (copy_at rb.buf rb.w p) rb.r) (
          buffered-placed_flat rb (copy_at rb.buf rb.w p) (rb.w + length p) (omega arith) k ∙ shift)
        ∙ window-store_flat rb.buf p rb.r rb.w h (ground arith)
        ∙ ap (λ n. window rb.buf rb.r n ++ p) (sym (buffered_flat h));
    valid = placed-IsValid rb (copy_at rb.buf rb.w p) (rb.w + length p) same (r-lt) k;
    size_kept = refl;
  }
    where
      shift : rb.w + length p - rb.r ≡ rb.w - rb.r + length p
      shift = omega arith

      same : length (copy_at rb.buf rb.w p) ≡ rb.size
      same = ground (arith, length-copy_at rb.buf rb.w p)

  gap-Stores : rb.w < rb.r → Stores rb p (store_flat rb p)
  gap-Stores h = record {
    appended =
        ap (window (copy_at rb.buf rb.w p) rb.r) (
          buffered-placed_gap rb (copy_at rb.buf rb.w p) (rb.w + length p) (room_gap h) r-lt
          ∙ shift)
        ∙ window-store_gap rb.buf p rb.r rb.w (omega arith) (ground (arith, r-lt)) (room_gap h)
        ∙ ap (λ n. window rb.buf rb.r n ++ p) back;
    valid =
        placed-IsValid rb (copy_at rb.buf rb.w p) (rb.w + length p) same r-lt
          (omega (arith, room_gap h, r-lt));
    size_kept = refl;
  }
    where
      shift : rb.size - rb.r + (rb.w + length p) ≡ length rb.buf - rb.r + rb.w + length p
      shift = ground arith

      back : length rb.buf - rb.r + rb.w ≡ buffered rb
      back = ground (arith, buffered_gap)

      same : length (copy_at rb.buf rb.w p) ≡ rb.size
      same = ground (arith, length-copy_at rb.buf rb.w p)

  wrapped-Stores : rb.r ≤ rb.w → rb.size - rb.w < length p → Stores rb p (store_wrapped rb p)
  wrapped-Stores h k = record {
    appended =
        ap (window wrapped rb.r) (
          buffered-placed_gap rb wrapped (length p - (rb.size - rb.w))
            (omega (arith, room_flat h, w-le)) r-lt
          ∙ shift)
        ∙ ap
            (λ (n : ℕ).
              window (copy (copy_at rb.buf rb.w (take (n - rb.w) p)) (drop (n - rb.w) p)) rb.r
                (rb.w - rb.r + length p))
            (sym v.sized)
        ∙ window-store_wrapped rb.buf p rb.r rb.w h (ground (arith, w-le)) (ground arith)
            (ground (arith, room_flat h))
        ∙ ap (λ n. window rb.buf rb.r n ++ p) (sym (buffered_flat h));
    valid =
        placed-IsValid rb wrapped (length p - (rb.size - rb.w)) same r-lt
          (omega (arith, room_flat h, w-le, r-lt));
    size_kept = refl;
  }
    where
      wrapped : List ℕ
      wrapped = copy (copy_at rb.buf rb.w (take (rb.size - rb.w) p)) (drop (rb.size - rb.w) p)

      shift : rb.size - rb.r + (length p - (rb.size - rb.w)) ≡ rb.w - rb.r + length p
      shift = omega (arith, w-le, r-lt)

      same : length wrapped ≡ rb.size
      same =
          length-copy (copy_at rb.buf rb.w (take (rb.size - rb.w) p)) (drop (rb.size - rb.w) p)
          ∙ ground (arith, length-copy_at rb.buf rb.w (take (rb.size - rb.w) p))

  pub store_lem : Stores rb p (store rb p)
  unfolding store
  store_lem = elim (Bool-cases (leb rb.r rb.w)) [
    | inl h ↦ rw h (elim (Bool-cases (leb (length p) (rb.size - rb.w))) [
      | inl k ↦ rw k (flat-Stores (ground arith) (ground (arith, w-le)))
      | inr k ↦ rw k (wrapped-Stores (ground arith) (ground arith))
    ])
    | inr h ↦ rw h (gap-Stores (ground arith))
  ]
