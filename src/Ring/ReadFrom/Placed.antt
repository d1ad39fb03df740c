-- ===== src/Ring/ReadFrom/Placed.antt =====
-- What one read of `ReadFrom` leaves in the ring.
use native.Mathlib.Nat.{mod-eq_of_lt}
use gtcp.Prelude.{
  ℕ, ◌+◌, ◌-◌, ◌%◌, ◌≤◌, ◌<◌, ◌≡◌, refl, sym, ap, ap₂, ◌∙◌, inl, inr, ◌⊎◌, false, List, [], ◌++◌,
  arith, length, take, drop, append-nil, take-append-drop,
}
use native.Mathlib.Decide.{dec_lt}
use mathlib.Core.Path.{subst}
use gtcp.Prelude.Slices.{copy_at, copy_at_fits, length_nil}
use gtcp.Ring.{Buffer, available, store_flat, wrap_at}
use gtcp.Ring.View.{contents, IsValid}
use gtcp.Ring.Advance.{mod_cases}
use gtcp.Ring.Store.{Stores, flat-Stores}
use gtcp.Ring.ReadFrom.{placed}

copy_at_nothing : (buf : List ℕ) (off : ℕ) → off ≤ length buf → copy_at buf off [] ≡ buf
copy_at_nothing buf off h =
    let none_more : off + length {A = ℕ} [] ≡ off = omega arith in
    copy_at_fits buf off [] (omega arith)
    ∙ ap₂ ◌++◌ (append-nil (take off buf)) (ap (λ n. drop n buf) none_more)
    ∙ take-append-drop off buf

-- Bytes at the end of the slice move `w` as `Write` does.
mod-wrap : (a s : ℕ) → 0 < s → a ≤ s → a % s ≡ wrap_at s a
mod-wrap a s pos le = ground (arith, mod_cases a s)

module _ (rb : Buffer) (v : IsValid rb) where
  pub placed-nothing : rb.is_empty ≡ false → (off : ℕ) → off ≤ length rb.buf → placed rb off [] ≡ rb
  placed-nothing e off le =
      ap₂ (λ b w. record rb { buf = b; w = w; is_empty = false }) (copy_at_nothing rb.buf off le)
        same_w
      ∙ ap (λ b. record rb { is_empty = b }) (sym e)
    where
      no_more : rb.w + 0 ≡ rb.w
      no_more = omega arith

      same_w : (rb.w + 0) % rb.size ≡ rb.w
      same_w = mod-eq_of_lt {n = rb.w + 0} {m = rb.size} (ground arith) ∙ no_more

  placed-store :
      (p : List ℕ) → 0 < rb.size → rb.w + length p ≤ rb.size → placed rb rb.w p ≡ store_flat rb p
  placed-store p pos le =
      ap (λ w. record rb { buf = copy_at rb.buf rb.w p; w = w; is_empty = false })
        (mod-wrap (rb.w + length p) rb.size pos le)

  -- The bytes go behind the contents, unless there are none in an empty ring.
  pub placed-Stores :
      (p : List ℕ)
      → (rb.is_empty ≡ false) ⊎ (0 < length p)
      → rb.r ≤ rb.w
      → length p ≤ length rb.buf - rb.w
      → length p ≤ available rb
      → Stores rb p (placed rb rb.w p)
  placed-Stores p some_bytes le fits room = elim (dec_lt 0 (length p)) [
    | yes pos ↦
        subst (Stores rb p) (sym (placed-store p (ground arith) (ground arith)))
          (flat-Stores rb v p pos room le (ground arith))
    | no none_left ↦
        let e : rb.is_empty ≡ false = elim some_bytes [
          | inl h ↦ h
          | inr h ↦ absurd (none_left h)
        ] in
        let no_bytes : p ≡ [] = length_nil p (omega arith) in
        record {
          appended =
              ap contents (same e no_bytes)
              ∙ sym (append-nil (contents rb))
              ∙ ap (λ (x : List ℕ). contents rb ++ x) (sym no_bytes);
          valid = subst IsValid (sym (same e no_bytes)) v;
          size_kept = refl;
        }
  ]
    where
      same : rb.is_empty ≡ false → p ≡ [] → placed rb rb.w p ≡ rb
      same e no_bytes = ap (placed rb rb.w) no_bytes ∙ placed-nothing e rb.w (ground arith)
