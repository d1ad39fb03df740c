-- ===== src/ConnMatrix/Lookup.antt =====
-- The operations of the map in terms of what a lookup finds.
use gtcp.Prelude.{
  ◌≡◌, refl, sym, ap, ◌∙◌, inl, inr, Bool, true, false, Option, none, some, [], ◌∷◌, arith,
  if◌then◌else◌, Bool-cases,
}
use gtcp.Prelude.Int.{ℤ, pos, negsuc}
use gtcp.ConnMatrix.{ConnMatrix, same_fd, get_conn, add_conn, del_conn}

pub same_fd_lem : (a b : ℤ) → same_fd a b ≡ true → a ≡ b
same_fd_lem (pos a) (pos b) h = ap pos (ground arith)
same_fd_lem (negsuc a) (negsuc b) h = ap negsuc (ground arith)
same_fd_lem (pos a) (negsuc b) h = absurd (ground arith)
same_fd_lem (negsuc a) (pos b) h = absurd (ground arith)

pub same_fd_self : (a : ℤ) → same_fd a a ≡ true
same_fd_self (pos a) = ground arith
same_fd_self (negsuc a) = ground arith

no_both : (b : Bool) → b ≡ false → b ≡ true → ⊥
no_both true f t = ground arith
no_both false f t = ground arith

-- Two tests for different descriptors may be made in either order.
module _ {A : Type 0} where
  swapped :
      (fd' fd k : ℤ) (x y rest : Option A)
      → same_fd fd' fd ≡ false
      → (if same_fd fd' k then x else (if same_fd fd k then y else rest))
        ≡ (if same_fd fd k then y else (if same_fd fd' k then x else rest))
  swapped fd' fd k x y rest other = elim (Bool-cases (same_fd fd' k)) [
    | inr apart ↦ rw apart refl
    | inl here ↦ elim (Bool-cases (same_fd fd k)) [
      | inr apart ↦ rw (here, apart) refl
      | inl too ↦
          let e : fd' ≡ fd = same_fd_lem fd' k here ∙ sym (same_fd_lem fd k too) in
          absurd (no_both (same_fd fd' fd) other (rw e (same_fd_self fd)))
    ]
  ]

  hidden :
      (test : Bool) (x y rest : Option A)
      → (if test then x else rest) ≡ (if test then x else (if test then y else rest))
  hidden true x y rest = refl
  hidden false x y rest = refl

  -- No descriptor has two entries.
  abbrev pub IsMap : ConnMatrix A → Type 0
  IsMap [] = Unit
  IsMap ((k, c) ∷ cm) = (get_conn cm k ≡ none) × IsMap cm

  pub get_conn-add_conn :
      (cm : ConnMatrix A) (fd k : ℤ) (c : A)
      → get_conn (add_conn cm fd c) k ≡ (if same_fd fd k then some c else get_conn cm k)
  unfolding get_conn add_conn
  get_conn-add_conn [] fd k c = refl
  get_conn-add_conn ((fd', c') ∷ cm) fd k c = elim (Bool-cases (same_fd fd' fd)) [
    | inl same ↦
        rw (same, same_fd_lem fd' fd same)
          (hidden (same_fd fd k) (some c) (some c') (get_conn cm k))
    | inr other ↦
        rw (other, get_conn-add_conn cm fd k c)
          (swapped fd' fd k (some c') (some c) (get_conn cm k) other)
  ]

  -- At the descriptor that is removed nothing is left, since it had no second entry.
  pub get_conn-del_conn :
      (cm : ConnMatrix A) (fd k : ℤ)
      → IsMap cm
      → get_conn (del_conn cm fd) k ≡ (if same_fd fd k then none else get_conn cm k)
  unfolding get_conn del_conn
  get_conn-del_conn [] fd k m = elim (Bool-cases (same_fd fd k)) [
    | inl here ↦ rw here refl
    | inr apart ↦ rw apart refl
  ]
  get_conn-del_conn ((fd', c') ∷ cm) fd k m = elim (Bool-cases (same_fd fd' fd)) [
    | inr other ↦
        rw (other, get_conn-del_conn cm fd k m.1)
          (swapped fd' fd k (some c') none (get_conn cm k) other)
    | inl same ↦ elim (Bool-cases (same_fd fd k)) [
      | inr apart ↦ rw (same, apart, same_fd_lem fd' fd same, apart) refl
      | inl here ↦
          let e : k ≡ fd' = sym (same_fd_lem fd' fd same ∙ same_fd_lem fd k here) in
          rw (same, here) (ap (get_conn cm) e ∙ m.0)
    ]
  ]
