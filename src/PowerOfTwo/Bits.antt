-- ===== src/PowerOfTwo/Bits.antt =====
-- The binary digits of `|` and `>>`, as arithmetic, for the laws of internal/math/math.go.
use Prim.Native.Nat.{bit_or, digits, bit_or-bitwise}
use native.Mathlib.Nat.{pow-suc, pow-succ', div-div-eq-div-mul}
use gtcp.Prelude.{ℕ, zero, suc, ◌+◌, ◌*◌, ◌/◌, ◌%◌, ◌^◌, ◌≤◌, ◌<◌, max, ◌≡◌, refl, sym, ◌∙◌, arith}

-- `|` is a recursion on the digits with fuel, of which any that covers the first number will do.
abbrev or_fueled : ℕ → ℕ → ℕ → ℕ
or_fueled fuel a b = digits (λ rest. rest) max fuel a b

or_fueled-zero : (f b : ℕ) → or_fueled f 0 b ≡ b
or_fueled-zero zero b = refl
or_fueled-zero (suc f) b = refl

or_fueled-any : (f g a b : ℕ) → a ≤ f → a ≤ g → or_fueled f a b ≡ or_fueled g a b
or_fueled-any f g zero b p q = or_fueled-zero f b ∙ sym (or_fueled-zero g b)
or_fueled-any zero g (suc a) b p q = absurd (omega arith)
or_fueled-any (suc f) zero (suc a) b p q = absurd (omega arith)
or_fueled-any (suc f) (suc g) (suc a) b p q =
    omega (arith, or_fueled-any f g (suc a / 2) (b / 2) (omega arith) (omega arith))

-- The lowest digit of `|`, and the others.
pub bit_or-halves : (a b : ℕ) → bit_or a b ≡ bit_or (a / 2) (b / 2) * 2 + max (a % 2) (b % 2)
bit_or-halves zero b = omega (arith, bit_or-bitwise 0 b, bit_or-bitwise 0 (b / 2))
bit_or-halves (suc a) b = omega (
  arith,
  bit_or-bitwise (suc a) b,
  bit_or-bitwise (suc a / 2) (b / 2),
  or_fueled-any a (suc a / 2) (suc a / 2) (b / 2) (omega arith) (omega arith),
)

-- Digit `i` of a number.
unfoldable pub digit : ℕ → ℕ → ℕ
digit zero x = x % 2
digit (suc i) x = digit i (x / 2)

pub digit-bit_or : (i a b : ℕ) → digit i (bit_or a b) ≡ max (digit i a) (digit i b)
unfolding digit
digit-bit_or zero a b = omega (arith, bit_or-halves a b)
digit-bit_or (suc i) a b =
    let e : bit_or a b / 2 ≡ bit_or (a / 2) (b / 2) = omega (arith, bit_or-halves a b) in
    rw e (digit-bit_or i (a / 2) (b / 2))

-- `>>` moves the digits down.
pub digit-shift : (s i x : ℕ) → digit i (x / 2 ^ s) ≡ digit (s + i) x
unfolding digit
digit-shift zero i x =
    let e : x / 2 ^ 0 ≡ x = omega arith in let f : 0 + i ≡ i = omega arith in rw (e, f)
digit-shift (suc s) i x =
    let e : x / 2 ^ suc s ≡ x / 2 / 2 ^ s = halves in
    let f : suc s + i ≡ suc (s + i) = omega arith in rw (e, f) (digit-shift s i (x / 2))
  where
    halves : x / 2 ^ suc s ≡ x / 2 / 2 ^ s
    halves = rw (pow-succ', div-div-eq-div-mul)

pub digit-le : (i x : ℕ) → digit i x ≤ 1
unfolding digit
digit-le zero x = omega arith
digit-le (suc i) x = digit-le i (x / 2)

pub le-bit_or : (n a b : ℕ) → a ≤ n → a ≤ bit_or a b
le-bit_or zero a b h = omega arith
le-bit_or (suc n) a b h =
    omega (arith, bit_or-halves a b, le-bit_or n (a / 2) (b / 2) (omega arith))

-- `|` needs no more digits than its arguments.
pub bit_or-lt : (k a b : ℕ) → a < 2 ^ k → b < 2 ^ k → bit_or a b < 2 ^ k
bit_or-lt zero a b p q =
    let e : a ≡ 0 = omega arith in let f : b ≡ 0 = omega arith in rw (e, f) (omega arith)
bit_or-lt (suc k) a b p q = omega (
  arith,
  pow-suc 2 k,
  bit_or-halves a b,
  bit_or-lt k (a / 2) (b / 2) (omega (arith, pow-suc 2 k)) (omega (arith, pow-suc 2 k)),
)

-- A number all of whose `k` digits are ones.
pub all_ones : (k x : ℕ) → x < 2 ^ k → ((i : ℕ) → i < k → digit i x ≡ 1) → x + 1 ≡ 2 ^ k
unfolding digit
all_ones zero x h ones = omega arith
all_ones (suc k) x h ones = omega (
  arith,
  pow-suc 2 k,
  ones 0 (omega arith),
  all_ones k (x / 2) (omega (arith, pow-suc 2 k)) (λ i l. ones (suc i) (omega arith)),
)
