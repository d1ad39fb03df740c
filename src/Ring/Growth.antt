-- ===== src/Ring/Growth.antt =====
-- The capacity that `grow` of pkg/buffer/ring/ring_buffer.go chooses. An `int` is its 64-bit pattern.
use gtcp.Prelude.{
  ℕ, zero, suc, ◌+◌, ◌*◌, ◌/◌, ◌%◌, ◌^◌, Bool, ◌&&◌, Option, none, some, ltb, leb, ◌==◌,
  if◌then◌else◌,
}
use gtcp.Prelude.Int.{pos}
use gtcp.PowerOfTwo.{ceil_to_power_of_two}

abbrev pub min_read : ℕ
min_read = 512

abbrev pub default_buffer_size : ℕ
default_buffer_size = 1024

abbrev pub buffer_grow_threshold : ℕ
buffer_grow_threshold = 4 * 1024

-- A pattern that stands for an int above 0.
abbrev pub is_positive : ℕ → Bool
is_positive n = ltb 0 n && ltb n (2 ^ 63)

-- `for 0 < n && n < newCap { n += n / 4 }`. `none`: the fuel ran out.
unfoldable pub grow_loop : ℕ → ℕ → ℕ → Option ℕ
grow_loop zero n new_cap = none
grow_loop (suc fuel) n new_cap =
    let rest = grow_loop fuel ((n + n / 4) % 2 ^ 64) new_cap in
    if is_positive n && ltb n new_cap then rest else some n

-- The branch of a buffer that has a size, lines 496 to 510.
unfoldable pub grow_sized : ℕ → ℕ → Option ℕ
grow_sized n new_cap =
    let double_cap = (n + n) % 2 ^ 64 in
    if ltb double_cap (2 ^ 63) && leb new_cap double_cap
    then (if ltb n buffer_grow_threshold then some double_cap else elim (grow_loop 5 n new_cap) [
      | none ↦ none
      | some m ↦ some (if is_positive m then m else new_cap)
    ])
    else some new_cap

-- The new capacity; `none` is the panic of `CeilToPowerOfTwo`.
unfoldable pub grow_capacity : ℕ → ℕ → Option ℕ
unfolding grow_sized
grow_capacity n new_cap =
    if n == 0
    then (if leb new_cap default_buffer_size
        then some default_buffer_size
        else ceil_to_power_of_two (pos new_cap))
    else grow_sized n new_cap
