-- ===== src/Prelude/Splits.antt =====
-- A list that is cut where two lists were joined.
use gtcp.Prelude.{ℕ, ◌-◌, ◌≡◌, ◌∙◌, List, ◌++◌, arith, length, take, drop}
use gtcp.Prelude.Slices.{take_all, take-append_le, drop-append_ge, drop-zero}

module _ {ℓ} {A : Type ℓ} (n : ℕ) (xs ys : List A) (cut : n ≡ length xs) where
  pub take-append_self : take n (xs ++ ys) ≡ xs
  take-append_self = take-append_le n xs ys (omega arith) ∙ take_all n xs (omega arith)

  pub drop-append_self : drop n (xs ++ ys) ≡ ys
  drop-append_self =
      drop-append_ge n xs ys (omega arith) ∙ drop-zero (n - length xs) ys (omega arith)
