-- ===== src/PowerOfTwo/Ceil.antt =====
-- `CeilToPowerOfTwo` of internal/math/math.go.
use Prim.Native.Nat.{bit_or}
use native.Mathlib.Decide.{dec_lt}
use native.Mathlib.Nat.{le_trans, pow-suc}
use gtcp.Prelude.{ℕ, zero, suc, ◌+◌, ◌-◌, ◌/◌, ◌^◌, ◌≤◌, ◌<◌, ◌≡◌, max, some, arith}
use gtcp.Prelude.Int.{pos}
use gtcp.PowerOfTwo.{smear, ceil_to_power_of_two}
use gtcp.PowerOfTwo.Bits.{
  digit, digit-bit_or, digit-shift, digit-le, le-bit_or, bit_or-lt, all_ones,
}

-- One line `n |= n >> s`.
abbrev fold : ℕ → ℕ → ℕ
fold s x = bit_or x (x / 2 ^ s)

le-fold : (s x : ℕ) → x ≤ fold s x
le-fold s x = le-bit_or x x (x / 2 ^ s) (omega arith)

fold-lt : (k s x : ℕ) → x < 2 ^ k → fold s x < 2 ^ k
fold-lt k s x h = bit_or-lt k x (x / 2 ^ s) h (omega arith)

pub le-smear : (x : ℕ) → x ≤ smear x
unfolding smear
le-smear x =
    le_trans (le-fold 1 x)
      (le_trans (le-fold 2 _) (le_trans (le-fold 4 _) (le_trans (le-fold 8 _) (le-fold 16 _))))

pub smear-lt : (k x : ℕ) → x < 2 ^ k → smear x < 2 ^ k
unfolding smear
smear-lt k x h = fold-lt k 16 _ (fold-lt k 8 _ (fold-lt k 4 _ (fold-lt k 2 _ (fold-lt k 1 x h))))

-- The `j` digits from digit `k` downwards are ones.
abbrev Covers : ℕ → ℕ → ℕ → Type 0
Covers k j x = (i : ℕ) → i ≤ k → k < i + j → digit i x ≡ 1

-- A line doubles the number of leading ones.
fold-Covers : (k j x : ℕ) → Covers k j x → Covers k (j + j) (fold j x)
fold-Covers k j x c i h l = elim (dec_lt k (i + j)) [
  | yes near ↦ omega (arith, digit-bit_or i x (x / 2 ^ j), c i h near, digit-le i (x / 2 ^ j))
  | no far ↦ omega (
    arith,
    digit-bit_or i x (x / 2 ^ j),
    digit-shift j i x,
    c (j + i) (omega arith) (omega arith),
    digit-le i x,
  )
]

smear-Covers : (k x : ℕ) → digit k x ≡ 1 → Covers k 32 (smear x)
unfolding smear
smear-Covers k x top =
    fold-Covers k 16 _
      (fold-Covers k 8 _ (fold-Covers k 4 _ (fold-Covers k 2 _ (fold-Covers k 1 x first))))
  where
    first : Covers k 1 x
    first i h l = let e : i ≡ k = omega arith in rw e top

digit_top : (k x : ℕ) → 2 ^ k ≤ x → x < 2 ^ suc k → digit k x ≡ 1
unfolding digit
digit_top zero x h l = omega arith
digit_top (suc k) x h l =
    digit_top k (x / 2) (omega (arith, pow-suc 2 k)) (omega (arith, pow-suc 2 (suc k)))

-- Between which powers of two a number lies.
log_bounds : (m x : ℕ) → 0 < x → x < 2 ^ m → (k : ℕ) × (k < m) × (2 ^ k ≤ x) × (x < 2 ^ suc k)
log_bounds zero x p h = absurd (omega arith)
log_bounds (suc m) x p h = elim (dec_lt x (2 ^ m)) [
  | yes l ↦ let (k, a, b, c) = log_bounds m x p l in (k, omega arith, b, c)
  | no l ↦ (m, omega arith, omega arith, h)
]

pub smear_lem : (k x : ℕ) → k < 32 → 2 ^ k ≤ x → x < 2 ^ suc k → smear x + 1 ≡ 2 ^ suc k
smear_lem k x small h l =
    all_ones (suc k) (smear x) (smear-lt (suc k) x l)
      λ i m. smear-Covers k x (digit_top k x h l) i (omega arith) (omega arith)

ceil_eq : (n : ℕ) → 2 < n → n ≤ 2 ^ 62 → ceil_to_power_of_two (pos n) ≡ some (smear (n - 1) + 1)
unfolding ceil_to_power_of_two
ceil_eq n h k = ground arith

-- For n above 2 and at most 2 ^ 32 `CeilToPowerOfTwo(n)` is the least power of two that is at
-- least n.
pub ceil_least :
    (n : ℕ)
    → 2 < n
    → n ≤ 2 ^ 32
    → (k : ℕ) × (ceil_to_power_of_two (pos n) ≡ some (2 ^ suc k)) × (n ≤ 2 ^ suc k) × (2 ^ k < n)
ceil_least n h k =
    let (e, small, low, high) = log_bounds 32 (n - 1) (omega arith) (omega arith) in
    (
      e,
      rw (ceil_eq n h (omega arith), smear_lem e (n - 1) small low high),
      omega arith,
      omega arith,
    )

ceil_small : (n : ℕ) → n ≤ 2 → ceil_to_power_of_two (pos n) ≡ some 2
unfolding ceil_to_power_of_two
ceil_small n h = ground arith

-- Up to 2 ^ 62 the result is there, at least `n`, and less than twice that.
pub ceil_enough :
    (n : ℕ)
    → n ≤ 2 ^ 62
    → (m : ℕ) × (ceil_to_power_of_two (pos n) ≡ some m)
      × (n ≤ m)
      × (2 ≤ m)
      × (m ≤ 2 ^ 62)
      × (m ≤ max 2 (n + n))
ceil_enough n h = elim (dec_lt 2 n) [
  | yes l ↦
      let (e, small, low, high) = log_bounds 62 (n - 1) (omega arith) (omega arith) in
      (
        smear (n - 1) + 1,
        ceil_eq n l h,
        omega (arith, le-smear (n - 1)),
        omega (arith, le-smear (n - 1)),
        omega (arith, smear-lt 62 (n - 1) (omega arith)),
        omega (arith, smear-lt (suc e) (n - 1) high),
      )
  | no l ↦ (2, ceil_small n (omega arith), omega arith, omega arith, omega arith, omega arith)
]
