-- ===== src/Ring/WriteTo/Taken.antt =====
-- What the front of a ring loses when a writer takes some of it, which may be nothing.
use gtcp.Prelude.{
  zero, suc, ℕ, ◌+◌, ◌%◌, ◌≤◌, ◌<◌, ◌≡◌, ◌≢◌, ◌⊎◌, inl, inr, refl, true, false, arith, ◌==◌, drop,
}
use gtcp.Ring.{Buffer, buffered, reset, reset_if_drained}
use gtcp.Ring.View.{contents, IsValid}
use gtcp.Ring.Advance.{
  mod_cases, advanced, advanced-IsValid, contents-advanced, moved-IsValid, contents-moved,
}

-- Taking no byte off leaves the buffer, unless its positions meet.
advanced_zero : (rb : Buffer) → IsValid rb → rb.is_empty ≡ false → rb.r ≢ rb.w → advanced rb 0 ≡ rb
unfolding reset_if_drained
advanced_zero rb v e ne =
    let back : (rb.r + 0) % rb.size ≡ rb.r = ground (arith, mod_cases (rb.r + 0) rb.size) in
    let test : rb.r == rb.w ≡ false = ground arith in rw (back, test)

pub advanced_meets :
    (rb : Buffer) → IsValid rb → rb.is_empty ≡ false → rb.r ≡ rb.w → advanced rb 0 ≡ reset rb
unfolding reset_if_drained reset
advanced_meets rb v e h =
    let back : (rb.r + 0) % rb.size ≡ rb.r = ground (arith, mod_cases (rb.r + 0) rb.size) in
    let test : rb.r == rb.w ≡ true = ground arith in rw (back, test)

-- A full buffer that starts at 0 is the exception: there `r` meets `w` before a byte is taken.
pub taken_cases :
    (rb : Buffer)
    → IsValid rb
    → rb.is_empty ≡ false
    → (m : ℕ) → m ≤ buffered rb
    → (0 < m) ⊎ (rb.r ≢ rb.w)
    → (contents (advanced rb m) ≡ drop m (contents rb)) × IsValid (advanced rb m)
taken_cases rb v e zero fits (inl moves) = absurd (omega arith)
taken_cases rb v e zero fits (inr moves) = rw (advanced_zero rb v e moves) (refl, v)
taken_cases rb v e (suc m) fits moves = (
  contents-advanced rb v e (suc m) (omega arith) fits,
  advanced-IsValid rb v e (suc m) (omega arith) fits,
)

abbrev pub shifted : Buffer → ℕ → Buffer
shifted rb m = record rb { r = (rb.r + m) % rb.size }

-- Moving `r` on by less than the contents, which may be nothing.
pub moved_cases :
    (rb : Buffer)
    → IsValid rb
    → rb.is_empty ≡ false
    → (m : ℕ) → m < buffered rb
    → (contents (shifted rb m) ≡ drop m (contents rb)) × IsValid (shifted rb m)
moved_cases rb v e zero l =
    let back : (rb.r + 0) % rb.size ≡ rb.r = ground (arith, mod_cases (rb.r + 0) rb.size) in
    rw back (refl, v)
moved_cases rb v e (suc m) l = (
  contents-moved rb v e (suc m) (omega arith) (omega arith) l,
  moved-IsValid rb v e (suc m) (omega arith) (omega arith),
)
