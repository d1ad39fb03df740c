-- ===== src/Ring/Window.antt =====
-- A window of a circular slice: the bytes from an index on, in the slice laid out twice. The lemmas
-- read such a window piece by piece, and extend it the ways the ring buffer's methods store bytes.
use gtcp.Prelude.{
  ℕ, ◌+◌, ◌-◌, ◌%◌, ◌≤◌, ◌<◌, ◌≡◌, sym, ap, List, ◌++◌, arith, length, take, drop, length-append,
  length-take, length-drop, append_assoc, append-nil, take-append-drop, ◌∙◌,
}
use gtcp.Prelude.Slices.{
  copy, copy_at, take_all, drop_all, take-append_le, take-append_ge, drop-append_le, drop-append_ge,
  drop-drop, take-take, drop-take, copy_at_fits, byte_lengths,
}
use native.Mathlib.Decide.{dec_lt}
use native.Mathlib.Nat.{mod-eq_of_lt, mod-eq-sub-mod}

-- The `n` bytes from index `r` on, going round at the end of `buf`.
abbrev pub window : List ℕ → ℕ → ℕ → List ℕ
window buf r n = take n (drop r (buf ++ buf))

module _ (buf : List ℕ) (r n : ℕ) where
  pub window_flat : r + n ≤ length buf → window buf r n ≡ take n (drop r buf)
  window_flat h = rw (
    drop-append_le r buf buf (omega arith),
    take-append_le n (drop r buf) buf (omega (arith, length-drop r buf)),
  )

  pub window_wrapped :
      r ≤ length buf
      → length buf ≤ r + n
      → n ≤ length buf
      → window buf r n ≡ drop r buf ++ take (n - (length buf - r)) buf
  window_wrapped h k m = rw (
    drop-append_le r buf buf h,
    take-append_ge n (drop r buf) buf (omega (arith, length-drop r buf)),
    length-drop r buf,
  )

  pub length-window : r ≤ length buf → n ≤ length buf → length (window buf r n) ≡ n
  length-window h k = omega (
    arith,
    length-take n (drop r (buf ++ buf)),
    length-drop r (buf ++ buf),
    length-append buf buf,
  )

-- The bytes behind the first `m` are the window that starts `m` further on.
pub drop-window :
    (buf : List ℕ) (r n m : ℕ)
    → r < length buf
    → m ≤ n
    → n ≤ length buf
    → drop m (window buf r n) ≡ window buf ((r + m) % length buf) (n - m)
drop-window buf r n m h k l =
    rw (drop-take m n (drop r (buf ++ buf)), drop-drop m r (buf ++ buf))
      (elim (dec_lt (r + m) (length buf)) [
        | yes p ↦ rw (mod-eq_of_lt p)
        | no p ↦ rw (
          mod-eq-sub-mod {n = r + m} {m = length buf} (omega arith),
          mod-eq_of_lt {n = r + m - length buf} {m = length buf} (omega arith),
          drop-append_ge (r + m) buf buf (omega arith),
          window_flat buf (r + m - length buf) (n - m) (omega arith),
        )
      ])

pub take-window : (buf : List ℕ) (r n m : ℕ) → m ≤ n → take m (window buf r n) ≡ window buf r m
take-window buf r n m h = take-take m n (drop r (buf ++ buf)) h

-- A window over a slice that is laid out in three parts.
window_middle :
    (a p d : List ℕ) (r : ℕ)
    → r ≤ length a
    → window (a ++ p ++ d) r (length a - r + length p) ≡ drop r a ++ p
window_middle a p d r h = rw (
  window_flat (a ++ p ++ d) r (length a - r + length p) (omega byte_lengths),
  drop-append_le r (a ++ p) d (omega byte_lengths),
  drop-append_le r a p h,
  take-append_le (length a - r + length p) (drop r a ++ p) d (omega byte_lengths),
  take_all (length a - r + length p) (drop r a ++ p) (omega byte_lengths),
)

window_gap :
    (a p d : List ℕ) (r : ℕ)
    → length a + length p ≤ r
    → r ≤ length a + length p + length d
    → window (a ++ p ++ d) r (length a + length p + length d - r + length a + length p)
      ≡ drop (r - (length a + length p)) d ++ a ++ p
window_gap a p d r h k =
    let n = length a + length p + length d - r + length a + length p in
    rw
      (
        window_wrapped (a ++ p ++ d) r n (omega byte_lengths) (omega byte_lengths)
            (omega byte_lengths),
        drop-append_ge r (a ++ p) d (omega byte_lengths),
        take-append_le (n - (length (a ++ p ++ d) - r)) (a ++ p) d (omega byte_lengths),
        take_all (n - (length (a ++ p ++ d) - r)) (a ++ p) (omega byte_lengths),
        length-append a p,
      )
      (sym (append_assoc (drop (r - (length a + length p)) d) a p))

window_round :
    (a q s : List ℕ) (r : ℕ)
    → length s ≤ r
    → r ≤ length a
    → window (s ++ (drop (length s) a ++ q)) r (length a - r + length q + length s)
      ≡ drop r a ++ q ++ s
window_round a q s r h k =
    let n = length a - r + length q + length s in
    let b = s ++ (drop (length s) a ++ q) in
    rw
      (
        window_wrapped b r n (omega byte_lengths) (omega byte_lengths) (omega byte_lengths),
        drop-append_ge r s (drop (length s) a ++ q) h,
        drop-append_le (r - length s) (drop (length s) a) q (omega byte_lengths),
        drop-drop (r - length s) (length s) a,
        take-append_le (n - (length b - r)) s (drop (length s) a ++ q) (omega byte_lengths),
        take_all (n - (length b - r)) s (omega byte_lengths),
      )
      (ap (λ k. drop k a ++ q ++ s) (omega arith))

module _ (buf p : List ℕ) (r w : ℕ) where
  -- What a window that ends at `w` holds.
  window_upto : r ≤ w → w ≤ length buf → window buf r (w - r) ≡ drop r (take w buf)
  window_upto h k = rw (window_flat buf r (w - r) (omega arith), drop-take r w buf)

  -- Storing behind the window, with room up to the end of the slice.
  pub window-store_flat :
      r ≤ w
      → w + length p ≤ length buf
      → window (copy_at buf w p) r (w - r + length p) ≡ window buf r (w - r) ++ p
  window-store_flat h k =
      let e : w ≡ length (take w buf) = omega byte_lengths in
      rw (copy_at_fits buf w p k, window_upto h (omega arith))
        (ap (λ k. window (take w buf ++ p ++ drop (w + length p) buf) r (k - r + length p)) e
          ∙ window_middle (take w buf) p (drop (w + length p) buf) r (omega byte_lengths))

  -- Storing in the gap below `r`.
  pub window-store_gap :
      w ≤ r
      → r ≤ length buf
      → w + length p ≤ r
      → window (copy_at buf w p) r (length buf - r + w + length p)
        ≡ window buf r (length buf - r + w) ++ p
  window-store_gap g h k =
      let a = take w buf in
      let d = drop (w + length p) buf in
      rw
        (
          copy_at_fits buf w p (omega arith),
          window_wrapped buf r (length buf - r + w) h (omega arith) (omega arith),
        )
        (ap (window (a ++ p ++ d) r) (omega byte_lengths)
          ∙ window_gap a p d r (omega byte_lengths) (omega byte_lengths)
          ∙ rw (drop-drop (r - (length a + length p)) (w + length p) buf) (
              rest (w + length p + (r - (length a + length p)))
                (length buf - r + w - (length buf - r)) (omega byte_lengths) (omega arith)))
    where
      rest :
          (i j : ℕ) → i ≡ r → j ≡ w → drop i buf ++ take w buf ++ p ≡ drop r buf ++ take j buf ++ p
      rest i j e f = rw (e, f)

  pub window-store_wrapped :
      r ≤ w
      → w ≤ length buf
      → length buf - w ≤ length p
      → w - r + length p ≤ length buf
      → let c1 = length buf - w in
        window (copy (copy_at buf w (take c1 p)) (drop c1 p)) r (w - r + length p)
        ≡ window buf r (w - r) ++ p
  window-store_wrapped h k l m =
      let c1 = length buf - w in
      let a = take w buf in
      let q = take c1 p in
      let s = drop c1 p in
      rw
        (
          copy_at_fits buf w q (omega byte_lengths),
          drop_all (w + length q) buf (omega byte_lengths),
          append-nil (a ++ q),
          take_all (length (a ++ q)) s (omega byte_lengths),
          drop-append_le (length s) a q (omega byte_lengths),
          window_upto h k,
        )
        (ap (window (s ++ (drop (length s) a ++ q)) r) (omega byte_lengths)
          ∙ window_round a q s r (omega byte_lengths) (omega byte_lengths)
          ∙ append_assoc (drop r a) q s
          ∙ ap (λ (x : List ℕ). drop r a ++ x) (take-append-drop c1 p))
