-- ===== src/PowerOfTwo.antt =====
-- internal/math/math.go: rounding to powers of two, on a 64-bit `int`.
pub mod Bits
pub mod Ceil
mod Tests
use Prim.Native.Nat.{bit_and, bit_or}
use gtcp.Prelude.{
  ℕ, ◌+◌, ◌-◌, ◌/◌, ◌%◌, ◌^◌, Bool, ◌&&◌, not, Option, none, some, ltb, leb, ◌==◌, if◌then◌else◌,
}
use gtcp.Prelude.Int.{ℤ, pos, negsuc}

-- `1 << (bitSize - 2)`
abbrev pub max_int_head_bit : ℕ
max_int_head_bit = 2 ^ 62

-- The 64-bit pattern of an int.
abbrev pub pattern_of : ℤ → ℕ
pattern_of (pos n) = n
pattern_of (negsuc n) = 2 ^ 64 - 1 - n

-- `n & (n - 1) == 0`, on the bit patterns.
unfoldable pub is_power_of_two : ℤ → Bool
is_power_of_two n = bit_and (pattern_of n) ((pattern_of n + (2 ^ 64 - 1)) % 2 ^ 64) == 0

-- `n |= n >> 1; n |= n >> 2; n |= n >> 4; n |= n >> 8; n |= n >> 16`
unfoldable pub smear : ℕ → ℕ
smear n =
    let a = bit_or n (n / 2 ^ 1) in
    let b = bit_or a (a / 2 ^ 2) in
    let c = bit_or b (b / 2 ^ 4) in let d = bit_or c (c / 2 ^ 8) in bit_or d (d / 2 ^ 16)

-- `none` is the panic. The bit 62 of an int that is above 2 ^ 62 is set, and of a negative one the
-- second test fails.
unfoldable pub ceil_to_power_of_two : ℤ → Option ℕ
unfolding smear
ceil_to_power_of_two (negsuc n) = some 2
ceil_to_power_of_two (pos n) =
    if not (bit_and n max_int_head_bit == 0) && ltb max_int_head_bit n
    then none
    else if leb n 2
    then some 2
    else some (smear (n - 1) + 1)

unfoldable pub floor_to_power_of_two : ℤ → ℤ
unfolding smear
floor_to_power_of_two (negsuc n) = negsuc n
floor_to_power_of_two (pos n) = if leb n 2 then pos n else pos (smear n - smear n / 2)
