-- ===== src/BytePool/Sizes.antt =====
-- The pools keep in each class only arrays that are large enough for it, so that no slice of the pool
-- reaches past its array.
use native.Mathlib.Decide.{dec_lt}
use mathlib.Core.Path.{subst}
use gtcp.Prelude.{
  ℕ, zero, suc, ◌+◌, ◌*◌, ◌-◌, ◌/◌, ◌^◌, ◌≤◌, ◌<◌, ◌≡◌, ◌≢◌, refl, sym, ap, ◌∙◌, inl, inr, false,
  ◌||◌, some, List, [], ◌∷◌, arith, ltb, ◌==◌, get_elem?, get_or, set, Bool-cases, Option-cases,
}
use gtcp.BytePool.{Pool, Slice, len32, index, max_int32, remove, get, put}

len32_zero : (fuel : ℕ) → len32 fuel 0 ≡ 0
unfolding len32
len32_zero zero = refl
len32_zero (suc fuel) = refl

len32_none : (n : ℕ) → len32 0 n ≡ 0
unfolding len32
len32_none n = refl

len32_more : (fuel n : ℕ) → 0 < n → len32 (suc fuel) n ≡ suc (len32 fuel (n / 2))
unfolding len32
len32_more fuel n p = let more : n == 0 ≡ false = ground arith in rw (len32, more) refl

-- A number and the least power of two above it.
len32_upper : (fuel n : ℕ) → n < 2 ^ fuel → n < 2 ^ len32 fuel n
len32_upper zero n h = rw (len32_none n) (omega arith)
len32_upper (suc fuel) n h = elim (dec_lt 0 n) [
  | no z ↦ let e : n ≡ 0 = omega arith in rw (e, len32_zero (suc fuel)) (omega arith)
  | yes p ↦
      let ih = len32_upper fuel (n / 2) (omega arith) in
      rw (len32_more fuel n p) (omega (arith, ih))
]

len32_lower : (fuel n : ℕ) → 0 < n → n < 2 ^ fuel → 2 ^ len32 fuel n ≤ 2 * n
len32_lower zero n p h = rw (len32_none n) (omega arith)
len32_lower (suc fuel) n p h = elim (dec_lt 0 (n / 2)) [
  | no z ↦
      let e : n / 2 ≡ 0 = omega arith in rw (len32_more fuel n p, e, len32_zero fuel) (omega arith)
  | yes q ↦
      let ih = len32_lower fuel (n / 2) q (omega arith) in
      rw (len32_more fuel n p) (omega (arith, ih))
]

-- The class of a size is large enough for it, and not more than twice as large.
index_enough : (n : ℕ) → 0 < n → n ≤ max_int32 → n ≤ 2 ^ index n
unfolding index
index_enough n p h = omega (arith, len32_upper 32 (n - 1) (omega arith))

index_close : (n : ℕ) → 1 < n → n ≤ max_int32 → 2 ^ index n < 2 * n
unfolding index
index_close n p h = omega (arith, len32_lower 32 (n - 1) (omega arith) (omega arith))

-- In each class the arrays are large enough.
abbrev pub AllLarge : ℕ → List ℕ → Type 0
AllLarge size [] = Unit
AllLarge size (array ∷ arrays) = (size ≤ array) × AllLarge size arrays

abbrev pub AllFrom : ℕ → Pool → Type 0
AllFrom idx [] = Unit
AllFrom idx (free ∷ pools) = AllLarge (2 ^ idx) free × AllFrom (suc idx) pools

class_of :
    (pools : Pool) (first idx : ℕ)
    → AllFrom first pools
    → AllLarge (2 ^ (first + idx)) (get_or pools idx [])
class_of [] first idx v = _
class_of (free ∷ pools) first zero v = rw (first_zero first) v.0
  where
    first_zero : (first : ℕ) → first + 0 ≡ first
    first_zero first = omega arith
class_of (free ∷ pools) first (suc idx) v =
    let e : first + suc idx ≡ suc first + idx = omega arith in
    rw e (class_of pools (suc first) idx v.1)

set-AllFrom :
    (pools : Pool) (first idx : ℕ) (free : List ℕ)
    → AllFrom first pools
    → AllLarge (2 ^ (first + idx)) free
    → AllFrom first (set pools idx free)
set-AllFrom [] first idx free v l = _
set-AllFrom (free' ∷ pools) first zero free v l =
    let e : first ≡ first + 0 = omega arith in (subst (λ n. AllLarge (2 ^ n) free) (sym e) l, v.1)
set-AllFrom (free' ∷ pools) first (suc idx) free v l =
    let e : first + suc idx ≡ suc first + idx = omega arith in
    (v.0, set-AllFrom pools (suc first) idx free v.1 (subst (λ n. AllLarge (2 ^ n) free) e l))

remove-AllLarge :
    (size : ℕ) (arrays : List ℕ) (i : ℕ) → AllLarge size arrays → AllLarge size (remove arrays i)
remove-AllLarge size [] i v = _
remove-AllLarge size (array ∷ arrays) zero v = v.1
remove-AllLarge size (array ∷ arrays) (suc i) v = (v.0, remove-AllLarge size arrays i v.1)

picked :
    (size : ℕ) (arrays : List ℕ) (i array : ℕ)
    → AllLarge size arrays
    → get_elem? arrays i ≡ some array
    → size ≤ array
picked size [] i array v h = absurd (ground arith)
picked size (a ∷ arrays) zero array v h = ground (arith, h, v.0)
picked size (a ∷ arrays) (suc i) array v h = picked size arrays i array v.1 h

-- From the first class on.
class_at : (pools : Pool) (idx : ℕ) → AllFrom 0 pools → AllLarge (2 ^ idx) (get_or pools idx [])
class_at pools idx v =
    let e : 0 + idx ≡ idx = omega arith in
    subst (λ n. AllLarge (2 ^ n) (get_or pools idx [])) e (class_of pools 0 idx v)

set_at :
    (pools : Pool) (idx : ℕ) (free : List ℕ)
    → AllFrom 0 pools
    → AllLarge (2 ^ idx) free
    → AllFrom 0 (set pools idx free)
set_at pools idx free v l =
    let e : idx ≡ 0 + idx = omega arith in
    set-AllFrom pools 0 idx free v (subst (λ n. AllLarge (2 ^ n) free) e l)

twice_power : (f : ℕ) → 0 < f → 2 * 2 ^ (f - 1) ≡ 2 ^ f
twice_power zero h = absurd (omega arith)
twice_power (suc f) h = let e : suc f - 1 ≡ f = omega arith in rw e (omega arith)

index_one : index 1 ≡ 0
unfolding index len32
index_one = refl

-- A slice that was not made by `Get` goes one class lower.
lower_class : (n : ℕ) → 0 < n → n ≤ max_int32 → n ≢ 2 ^ index n → 2 ^ (index n - 1) ≤ n
lower_class n p h other = elim (dec_lt 1 n) [
  | yes more ↦
      let fits = index_enough n p h in
      let close = index_close n more h in
      let some_class : 0 < index n = not_zero n (index n) more fits in
      omega (arith, close, twice_power (index n) some_class)
  | no one ↦
      let e : n ≡ 1 = omega arith in
      absurd (other (e ∙ sym (ap (λ k. 2 ^ k) (ap index e ∙ index_one))))
]
  where
    not_zero : (n k : ℕ) → 1 < n → n ≤ 2 ^ k → 0 < k
    not_zero n zero h l = absurd (omega arith)
    not_zero n (suc k) h l = omega arith

-- A slice that stays inside its array.
abbrev pub IsInside : Slice → Type 0
IsInside s = (s.len ≤ s.cap) × (s.cap ≤ s.array)

pub record Gets (size : ℕ) (out : Slice × Pool) : Type 0 where
  pub length_asked : out.0.len ≡ size
  pub inside : IsInside out.0
  pub valid : AllFrom 0 out.1

byte_pool_get_lem :
    (pools : Pool) (pick size : ℕ) → AllFrom 0 pools → Gets size (get pick pools size)
unfolding get
byte_pool_get_lem pools pick size v = elim (Bool-cases (size == 0)) [
  | inl z ↦
      rw z (record { length_asked = ground arith; inside = (omega arith, omega arith); valid = v })
  | inr some_size ↦ elim (Bool-cases (ltb max_int32 size)) [
    | inl large ↦
        rw (some_size, large)
          (record { length_asked = refl; inside = (omega arith, omega arith); valid = v })
    | inr small ↦
        let free = get_or pools (index size) [] in
        let fits = index_enough size (ground arith) (ground arith) in
        elim (Option-cases (get_elem? free pick)) [
          | inl nil ↦
              rw (some_size, small, nil)
                (record { length_asked = refl; inside = (fits, omega arith); valid = v })
          | inr (array, found) ↦
              let all = class_at pools (index size) v in
              rw (some_size, small, found)
                (record {
                  length_asked = refl;
                  inside = (fits, picked (2 ^ index size) free pick array all found);
                  valid =
                      set_at pools (index size) (remove free pick) v
                        (remove-AllLarge (2 ^ index size) free pick all);
                })
        ]
  ]
]

byte_pool_put :
    (pools : Pool) (s : Slice) → AllFrom 0 pools → s.cap ≤ s.array → AllFrom 0 (put pools s)
unfolding put
byte_pool_put pools s v fits = elim (Bool-cases ((s.cap == 0) || ltb max_int32 s.cap)) [
  | inl ignored ↦ rw ignored v
  | inr taken ↦
      let full = index s.cap in
      elim (Bool-cases (s.cap == 2 ^ full)) [
        | inl exact ↦
            rw (taken, exact)
              (set_at pools full (s.array ∷ get_or pools full []) v
                (ground (arith, exact, fits), class_at pools full v))
        | inr other ↦
            rw (taken, other)
              (set_at pools (full - 1) (s.array ∷ get_or pools (full - 1) []) v (
                omega (arith, lower_class s.cap (ground arith) (ground arith) (ground arith), fits),
                class_at pools (full - 1) v,
              ))
      ]
]

-- On a pool in whose every class the arrays have at least the class's size, for a slice that
-- stays inside its array: `Put` keeps the pool so, and a `Get` of any size afterwards,
-- whichever array it picks, returns a slice of that length which stays inside its array, and
-- keeps the pool so too.
pub byte_pool_lem :
    (pools : Pool) (pick size : ℕ) (s : Slice)
    → AllFrom 0 pools
    → s.cap ≤ s.array
    → AllFrom 0 (put pools s) × Gets size (get pick (put pools s) size)
byte_pool_lem pools pick size s v fits =
    let kept = byte_pool_put pools s v fits in
    (kept, byte_pool_get_lem (put pools s) pick size kept)
