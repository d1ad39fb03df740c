-- ===== src/BytePool.antt =====
-- pkg/pool/byteslice/byteslice.go: 32 pools of arrays, by size in powers of two. A sync.Pool is the list of what
-- was put in and not taken; which of them `Get` gets, or that it gets nil, is an argument (`pick`),
-- and so is covered when it has dropped some. An array is its number of bytes, from where the slice starts.
pub mod Sizes
mod Tests
use gtcp.Prelude.{
  ℕ, zero, suc, ◌+◌, ◌-◌, ◌/◌, ◌^◌, ◌||◌, Option, none, some, List, [], ◌∷◌, ltb, ◌==◌,
  if◌then◌else◌, get_elem?, set, get_or, replicate,
}

abbrev pub Pool : Type 0
Pool = List (List ℕ)

abbrev pub empty_pool : Pool
empty_pool = replicate 32 []

-- A slice of `len` bytes and room for `cap`, on an array of `array` bytes.
pub record Slice : Type 0 where
  pub len : ℕ
  pub cap : ℕ
  pub array : ℕ

-- `bits.Len32`
unfoldable pub len32 : ℕ → ℕ → ℕ
len32 zero n = 0
len32 (suc fuel) n = let rest = len32 fuel (n / 2) in if n == 0 then 0 else suc rest

unfoldable pub index : ℕ → ℕ
index n = len32 32 (n - 1)

abbrev pub max_int32 : ℕ
max_int32 = 2 ^ 31 - 1

abbrev pub remove : List ℕ → ℕ → List ℕ
remove [] i = []
remove (x ∷ xs) zero = xs
remove (x ∷ xs) (suc i) = x ∷ remove xs i

-- nil for a size of 0; callers pass lengths, which are not negative.
unfoldable pub get : ℕ → Pool → ℕ → Slice × Pool
get pick pools size =
    if size == 0
    then (record { len = 0; cap = 0; array = 0 }, pools)
    else if ltb max_int32 size
    then (record { len = size; cap = size; array = size }, pools)
    else let idx = index size in
      let free = get_or pools idx [] in
      elim (get_elem? free pick) [
        | none ↦ (record { len = size; cap = 2 ^ idx; array = 2 ^ idx }, pools)
        | some array ↦
            (record { len = size; cap = 2 ^ idx; array = array }, set pools idx (remove free pick))
      ]

unfoldable pub put : Pool → Slice → Pool
put pools buf =
    let size = buf.cap in
    if (size == 0) || ltb max_int32 size
    then pools
    else let full = index size in
      let idx = if size == 2 ^ full then full else full - 1 in
      set pools idx (buf.array ∷ get_or pools idx [])
