-- ===== src/Prelude/Slices.antt =====
-- Go slices as lists: `xs[a:b]`, the builtin `copy`, and how `take` and `drop` meet `++`.
use native.Mathlib.Decide.{dec_le}
use gtcp.Prelude.{
  ◌∙◌, append-nil, ℕ, zero, suc, ◌+◌, ◌-◌, ◌≤◌, min, ◌≡◌, refl, ap, List, [], ◌∷◌, ◌++◌, arith,
  length, take, drop, length-append, length-take, length-drop, append_assoc, sym,
}

module _ {ℓ} {A : Type ℓ} where
  -- `xs[a:b]`
  abbrev pub slice : List A → ℕ → ℕ → List A
  slice xs a b = take (b - a) (drop a xs)

  -- `copy(dst, src)`: the new contents of `dst`. The number of elements copied is
  -- `min (length dst) (length src)`.
  abbrev pub copy : List A → List A → List A
  copy dst src = take (length dst) src ++ drop (length src) dst

  -- `copy(dst[off:], src)`: the new contents of `dst`.
  abbrev pub copy_at : List A → ℕ → List A → List A
  copy_at dst off src = take off dst ++ copy (drop off dst) src

  pub take_all : (n : ℕ) (xs : List A) → length xs ≤ n → take n xs ≡ xs
  take_all zero [] h = refl
  take_all zero (x ∷ xs) h = absurd (omega arith)
  take_all (suc n) [] h = refl
  take_all (suc n) (x ∷ xs) h = ap (◌∷◌ x) (take_all n xs (omega arith))

  pub drop_all : (n : ℕ) (xs : List A) → length xs ≤ n → drop n xs ≡ []
  drop_all zero [] h = refl
  drop_all zero (x ∷ xs) h = absurd (omega arith)
  drop_all (suc n) [] h = refl
  drop_all (suc n) (x ∷ xs) h = drop_all n xs (omega arith)

  pub take-zero : (n : ℕ) (xs : List A) → n ≡ 0 → take n xs ≡ []
  take-zero zero xs h = refl
  take-zero (suc n) xs h = absurd (omega arith)

  pub drop-zero : (n : ℕ) (xs : List A) → n ≡ 0 → drop n xs ≡ xs
  drop-zero zero xs h = refl
  drop-zero (suc n) xs h = absurd (omega arith)

  pub take-append_le : (n : ℕ) (xs ys : List A) → n ≤ length xs → take n (xs ++ ys) ≡ take n xs
  take-append_le zero xs ys h = refl
  take-append_le (suc n) [] ys h = absurd (omega arith)
  take-append_le (suc n) (x ∷ xs) ys h = ap (◌∷◌ x) (take-append_le n xs ys (omega arith))

  pub take-append_ge :
      (n : ℕ) (xs ys : List A) → length xs ≤ n → take n (xs ++ ys) ≡ xs ++ take (n - length xs) ys
  take-append_ge n [] ys h = ap (λ k. take k ys) (omega arith)
  take-append_ge zero (x ∷ xs) ys h = absurd (omega arith)
  take-append_ge (suc n) (x ∷ xs) ys h =
      ap (◌∷◌ x)
        (rw (take-append_ge n xs ys (omega arith)) (ap (λ k. xs ++ take k ys) (omega arith)))

  pub drop-append_le :
      (n : ℕ) (xs ys : List A) → n ≤ length xs → drop n (xs ++ ys) ≡ drop n xs ++ ys
  drop-append_le zero xs ys h = refl
  drop-append_le (suc n) [] ys h = absurd (omega arith)
  drop-append_le (suc n) (x ∷ xs) ys h = drop-append_le n xs ys (omega arith)

  pub drop-append_ge :
      (n : ℕ) (xs ys : List A) → length xs ≤ n → drop n (xs ++ ys) ≡ drop (n - length xs) ys
  drop-append_ge n [] ys h = ap (λ k. drop k ys) (omega arith)
  drop-append_ge zero (x ∷ xs) ys h = absurd (omega arith)
  drop-append_ge (suc n) (x ∷ xs) ys h =
      rw (drop-append_ge n xs ys (omega arith)) (ap (λ k. drop k ys) (omega arith))

  pub drop-nil : (n : ℕ) → ◌≡◌ {A = List A} (drop n []) []
  drop-nil zero = refl
  drop-nil (suc n) = refl

  pub take-nil : (n : ℕ) → ◌≡◌ {A = List A} (take n []) []
  take-nil zero = refl
  take-nil (suc n) = refl

  pub drop-drop : (m n : ℕ) (xs : List A) → drop m (drop n xs) ≡ drop (n + m) xs
  drop-drop m zero xs = ap (λ k. drop k xs) (omega arith)
  drop-drop m (suc n) [] = rw (drop-nil m, drop-nil (suc n + m))
  drop-drop m (suc n) (x ∷ xs) =
      let e : suc (n + m) ≡ suc n + m = omega arith in
      rw (drop-drop m n xs) (ap (λ k. drop k (x ∷ xs)) e)

  pub take-take : (m n : ℕ) (xs : List A) → m ≤ n → take m (take n xs) ≡ take m xs
  take-take zero n xs h = refl
  take-take (suc m) zero xs h = absurd (omega arith)
  take-take (suc m) (suc n) [] h = refl
  take-take (suc m) (suc n) (x ∷ xs) h = ap (◌∷◌ x) (take-take m n xs (omega arith))

  pub drop-take : (m n : ℕ) (xs : List A) → drop m (take n xs) ≡ take (n - m) (drop m xs)
  drop-take zero n xs = ap (λ k. take k xs) (omega arith)
  drop-take (suc m) zero xs = sym (take-zero (0 - suc m) (drop (suc m) xs) (omega arith))
  drop-take (suc m) (suc n) [] = sym (take-nil (suc n - suc m))
  drop-take (suc m) (suc n) (x ∷ xs) =
      rw (drop-take m n xs) (ap (λ k. take k (drop m xs)) (omega arith))

  pub length_nil : (xs : List A) → length xs ≡ 0 → xs ≡ []
  length_nil [] h = refl
  length_nil (x ∷ xs) h = absurd (omega arith)

  pub take-add : (m n : ℕ) (xs : List A) → take (m + n) xs ≡ take m xs ++ take n (drop m xs)
  take-add zero n xs = ap (λ k. take k xs) (omega arith)
  take-add (suc m) n [] = rw (take-nil n) (take-nil (suc m + n))
  take-add (suc m) n (x ∷ xs) =
      let e : suc m + n ≡ suc (m + n) = omega arith in rw e (ap (◌∷◌ x) (take-add m n xs))

  -- A copy that fits.
  pub copy_at_fits :
      (dst : List A) (off : ℕ) (src : List A)
      → off + length src ≤ length dst
      → copy_at dst off src ≡ take off dst ++ src ++ drop (off + length src) dst
  copy_at_fits dst off src h =
      rw
        (
          take_all (length (drop off dst)) src (omega (arith, length-drop off dst)),
          drop-drop (length src) off dst,
        )
        (sym (append_assoc (take off dst) src (drop (off + length src) dst)))

  pub length-copy_at :
      (dst : List A) (off : ℕ) (src : List A)
      → off ≤ length dst
      → length (copy_at dst off src) ≡ length dst
  length-copy_at dst off src h = omega (
    arith,
    length-append (take off dst) (copy (drop off dst) src),
    length-append (take (length (drop off dst)) src) (drop (length src) (drop off dst)),
    length-take off dst,
    length-drop off dst,
    length-take (length (drop off dst)) src,
    length-drop (length src) (drop off dst),
  )

  pub length-copy : (dst src : List A) → length (copy dst src) ≡ length dst
  length-copy dst src = length-copy_at dst 0 src (omega arith)

  abbrev pub flatten : List (List A) → List A
  flatten [] = []
  flatten (xs ∷ xss) = xs ++ flatten xss

  pub flatten-append : (xss yss : List (List A)) → flatten (xss ++ yss) ≡ flatten xss ++ flatten yss
  flatten-append [] yss = refl
  flatten-append (xs ∷ xss) yss =
      rw (flatten-append xss yss) (sym (append_assoc xs (flatten xss) (flatten yss)))

-- The lengths of byte strings, in the form that `omega` takes from a set.
pub append_bytes : (xs ys : List ℕ) → length (xs ++ ys) ≡ length xs + length ys
append_bytes xs ys = length-append xs ys

pub take_bytes : (n : ℕ) (xs : List ℕ) → length (take n xs) ≡ min n (length xs)
take_bytes n xs = length-take n xs

pub drop_bytes : (n : ℕ) (xs : List ℕ) → length (drop n xs) ≡ length xs - n
drop_bytes n xs = length-drop n xs

pub ruleset byte_lengths = (arith, append_bytes, take_bytes, drop_bytes)

module _ (dst : List ℕ) where
  -- `copy` takes no more of its source than fits.
  pub copy-take :
      (n : ℕ) (src : List ℕ)
      → n ≡ min (length dst) (length src)
      → copy dst (take n src) ≡ copy dst src
  copy-take n src h = elim (dec_le (length src) (length dst)) [
    | yes p ↦ rw (take_all n src (omega arith))
    | no p ↦
        rw
          (
            take_all (length dst) (take n src) (omega byte_lengths),
            drop_all (length (take n src)) dst (omega byte_lengths),
            drop_all (length src) dst (omega arith),
            append-nil (take n src),
            append-nil (take (length dst) src),
          )
          (ap (λ k. take k src) (omega arith))
  ]

  pub copy_fits :
      (src : List ℕ) → length src ≤ length dst → copy dst src ≡ src ++ drop (length src) dst
  copy_fits src h = rw (take_all (length dst) src h)

  -- Two copies, the second where the first ended.
  pub copy_at-copy :
      (xs ys : List ℕ)
      → length xs ≤ length dst
      → copy_at (copy dst xs) (length xs) ys ≡ copy dst (xs ++ ys)
  copy_at-copy xs ys h =
      rw
        (
          copy_fits xs h,
          take-append_le (length xs) xs (drop (length xs) dst) (omega arith),
          take_all (length xs) xs (omega arith),
          drop-append_ge (length xs) xs (drop (length xs) dst) (omega arith),
          drop-zero (length xs - length xs) (drop (length xs) dst) (omega arith),
          take-append_ge (length dst) xs ys h,
          drop-drop (length ys) (length xs) dst,
          length-append xs ys,
          length-drop (length xs) dst,
        )
        (sym
          (append_assoc xs (take (length dst - length xs) ys) (drop (length xs + length ys) dst)))

module _ (dst : List ℕ) (n : ℕ) (inside : n ≤ length dst) where
  -- A copy past a prefix.
  copy_at-append :
      (xs ys : List ℕ) (k : ℕ)
      → copy_at (take n dst ++ xs) (n + k) ys ≡ take n dst ++ copy_at xs k ys
  copy_at-append xs ys k =
      let all : n + k - length (take n dst) ≡ k = omega byte_lengths in
      rw
        (
          take-append_ge (n + k) (take n dst) xs (omega byte_lengths),
          drop-append_ge (n + k) (take n dst) xs (omega byte_lengths),
          all,
        )
        (append_assoc (take n dst) (take k xs) (copy (drop k xs) ys))

  -- Two copies into one slice, the second where the first ended.
  pub copy_at-copy_at :
      (xs ys : List ℕ)
      → n + length xs ≤ length dst
      → copy_at (copy_at dst n xs) (n + length xs) ys ≡ copy_at dst n (xs ++ ys)
  copy_at-copy_at xs ys h =
      copy_at-append (copy (drop n dst) xs) ys (length xs)
      ∙ ap (λ (x : List ℕ). take n dst ++ x) (copy_at-copy (drop n dst) xs ys (omega byte_lengths))

  -- What does not fit changes nothing.
  pub copy_at_full :
      (xs ys : List ℕ) → length dst ≤ n + length xs → copy_at dst n (xs ++ ys) ≡ copy_at dst n xs
  copy_at_full xs ys h = rw (
    take-append_le (length (drop n dst)) xs ys (omega byte_lengths),
    drop_all (length (xs ++ ys)) (drop n dst) (omega byte_lengths),
    drop_all (length xs) (drop n dst) (omega byte_lengths),
  )
