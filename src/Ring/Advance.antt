-- ===== src/Ring/Advance.antt =====
-- Moving the read position of pkg/buffer/ring/ring_buffer.go: what is left behind it.
use native.Mathlib.Decide.{dec_lt}
use native.Mathlib.Nat.{mod-eq_of_lt, mod-eq-sub-mod}
use gtcp.Prelude.{
  ap₂, sym, ◌∙◌, ℕ, ◌+◌, ◌-◌, ◌%◌, ◌≤◌, ◌<◌, ◌≡◌, refl, ◌⊎◌, inl, inr, true, false, [], ◌++◌, arith,
  length, drop, if◌then◌else◌, ◌==◌,
}
use gtcp.Prelude.Slices.{drop_all, take-zero}
use gtcp.Ring.{Buffer, buffered, reset, reset_if_drained}
use gtcp.Ring.Window.{window, drop-window}
use gtcp.Ring.View.{
  contents, IsValid, buffered-le, length-contents, buffered_empty, buffered_nonempty,
}

-- One subtraction takes a sum of two positions back into the slice.
pub mod_cases : (a s : ℕ) → a < s + s → ((a < s) × (a % s ≡ a)) ⊎ ((s ≤ a) × (a % s ≡ a - s))
mod_cases a s h = elim (dec_lt a s) [
  | yes p ↦ inl (p, mod-eq_of_lt p)
  | no p ↦ inr (
    omega arith,
    rw (mod-eq-sub-mod {n = a} {m = s} (omega arith))
        (mod-eq_of_lt {n = a - s} {m = s} (omega arith)),
  )
]

pub reset-IsValid : (rb : Buffer) → length rb.buf ≡ rb.size → IsValid (reset rb)
unfolding reset
reset-IsValid rb e = record { sized = e; positions = (refl, refl) }

pub size-reset : (rb : Buffer) → (reset rb).size ≡ rb.size
unfolding reset
size-reset rb = refl

pub contents-reset : (rb : Buffer) → contents (reset rb) ≡ []
unfolding reset buffered
contents-reset rb = refl

pub contents_empty : (rb : Buffer) → IsValid rb → rb.is_empty ≡ true → contents rb ≡ []
contents_empty rb v h =
    take-zero (buffered rb) (drop rb.r (rb.buf ++ rb.buf)) (buffered_empty rb v h)

-- The buffer after `n` bytes were taken: `rb.r = (rb.r + n) % rb.size`, reset when drained.
abbrev pub advanced : Buffer → ℕ → Buffer
advanced rb n = reset_if_drained (record rb { r = (rb.r + n) % rb.size })

module _ (rb : Buffer) (v : IsValid rb) (e : rb.is_empty ≡ false) (n : ℕ) (h : 0 < n)
    (k : n ≤ buffered rb) where
  drained_cases : if (rb.r + n) % rb.size == rb.w then n ≡ buffered rb else (n < buffered rb)
  unfolding buffered
  drained_cases = ground (arith, mod_cases (rb.r + n) rb.size)

  abbrev pub moved : Buffer
  moved = record rb { r = (rb.r + n) % rb.size }

  moved-buffered : n < buffered rb → buffered moved ≡ buffered rb - n
  unfolding buffered
  moved-buffered l = ground (arith, mod_cases (rb.r + n) rb.size)

  pub moved-IsValid : IsValid moved
  moved-IsValid = ground (arith, mod_cases (rb.r + n) rb.size, buffered-le rb v)

  pub contents-moved : n < buffered rb → contents moved ≡ drop n (contents rb)
  contents-moved l =
      ap₂ (λ a b. window rb.buf ((rb.r + n) % a) b) (sym v.sized) (moved-buffered l)
      ∙ sym (
          drop-window rb.buf rb.r (buffered rb) n (ground (arith, buffered_nonempty rb v)) k
            (ground (arith, buffered-le rb v)))

  pub size-advanced : (advanced rb n).size ≡ rb.size
  unfolding reset_if_drained reset
  size-advanced = ground arith

  pub advanced-IsValid : IsValid (advanced rb n)
  unfolding reset_if_drained
  advanced-IsValid = ground (arith, moved-IsValid, reset-IsValid moved v.sized)

  pub contents-advanced : contents (advanced rb n) ≡ drop n (contents rb)
  unfolding reset_if_drained
  contents-advanced = ground (
    arith,
    drained_cases,
    contents-moved,
    contents-reset moved,
    drop_all n (contents rb),
    length-contents rb v,
  )
