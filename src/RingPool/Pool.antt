-- ===== src/RingPool/Pool.antt =====
-- pkg/pool/ringbuffer/ringbuffer.go: rings for reuse, with a limit on their size that follows the
-- sizes put back. One goroutine at a time: the atomic accesses are plain ones. A sync.Pool is the list
-- of what was put in and not taken, of which any, or none, is got. sort.Sort and the product with a
-- float are arguments.
use mathlib.Core.List.{Permᴰ}
use gtcp.Prelude.{
  ℕ, zero, suc, ◌+◌, ◌-◌, ◌*◌, ◌/◌, ◌%◌, ◌^◌, ◌≤◌, ◌||◌, Option, none, some, List, [], ◌∷◌, ltb,
  leb, ◌==◌, if◌then◌else◌, get_elem?, set, get_or, replicate,
}
use gtcp.BytePool.{len32}
use gtcp.Ring.{Buffer, new, len, capacity, reset}

abbrev pub steps : ℕ
steps = 20

abbrev pub min_size : ℕ
min_size = 2 ^ 6

abbrev pub calibrate_calls_threshold : ℕ
calibrate_calls_threshold = 42000

pub record CallSize : Type 0 where
  pub calls : ℕ
  pub size : ℕ

pub record Pool : Type 0 where
  pub calls : List ℕ
  pub calibrating : ℕ
  pub default_size : ℕ
  pub max_size : ℕ
  pub pool : List Buffer

abbrev pub empty_pool : Pool
empty_pool = record {
  calls = replicate steps 0;
  calibrating = 0;
  default_size = 0;
  max_size = 0;
  pool = [];
}

-- `bits.Len` of a uint; for a length of 0 the shift of -1 gives -1, and the index is 0 as it is here.
unfoldable pub index : ℕ → ℕ
index n =
    let m = (n - 1) / min_size in
    let idx = if ltb 0 m then len32 64 m else 0 in if leb steps idx then steps - 1 else idx

-- No entry has more than `n`, by what `w` counts.
abbrev pub Below : (CallSize → ℕ) → ℕ → List CallSize → Type 0
Below w n [] = Unit
Below w n (c ∷ cs) = (w c ≤ n) × Below w n cs

-- In the order of `Less`.
abbrev pub Descends : List CallSize → Type 0
Descends [] = Unit
Descends (c ∷ cs) = Below (λ d. d.calls) c.calls cs × Descends cs

-- `sort.Sort`, and `uint64(float64(n) * maxPercentile)`.
pub record Library : Type 0 where
  pub sort : List CallSize → List CallSize
  pub sort-Perm : (a : List CallSize) → Permᴰ (sort a) a
  pub sort-Descends : (a : List CallSize) → Descends (sort a)
  pub percentile : ℕ → ℕ

-- The entries from class `i` on.
abbrev pub call_sizes : ℕ → List ℕ → List CallSize
call_sizes i [] = []
call_sizes i (calls ∷ rest) =
    record { calls = calls; size = min_size * 2 ^ i } ∷ call_sizes (suc i) rest

abbrev pub calls_sum : ℕ → List ℕ → ℕ
calls_sum sum [] = sum
calls_sum sum (calls ∷ rest) = calls_sum ((sum + calls) % 2 ^ 64) rest

-- The second loop of `calibrate`.
unfoldable pub largest : ℕ → ℕ → ℕ → List CallSize → ℕ
largest max_sum sum max_size [] = max_size
largest max_sum sum max_size (c ∷ cs) =
    let rest =
      largest max_sum ((sum + c.calls) % 2 ^ 64) (if ltb max_size c.size then c.size else max_size)
        cs in
    if ltb max_sum sum then max_size else rest

abbrev pub remove_ring : List Buffer → ℕ → List Buffer
remove_ring [] i = []
remove_ring (b ∷ bs) zero = bs
remove_ring (b ∷ bs) (suc i) = b ∷ remove_ring bs i

-- `none` is the panic of `ring.New`.
unfoldable pub get : ℕ → Pool → Option (Buffer × Pool)
get pick p = elim (get_elem? p.pool pick) [
  | some b ↦ some (b, record p { pool = remove_ring p.pool pick })
  | none ↦ elim (new p.default_size) [ none ↦ none | some b ↦ some (b, p) ]
]

module _ (lib : Library) where
  -- The sizes, from the sorted entries; there are always `steps` of them.
  abbrev pub resized : Pool → ℕ → List CallSize → Pool
  resized p sum [] = p
  resized p sum (c ∷ cs) = record p {
    default_size = c.size;
    max_size = largest (lib.percentile sum) 0 c.size (c ∷ cs);
  }

  -- Another `calibrate` that is running makes this one return at once.
  unfoldable pub calibrate : Pool → Pool
  calibrate p =
      if p.calibrating == 0
      then resized (record p { calls = replicate steps 0; calibrating = 0 }) (calls_sum 0 p.calls)
          (lib.sort (call_sizes 0 p.calls))
      else p

  unfoldable pub put : Pool → Buffer → Pool
  put p b =
      let idx = index (len b) in
      let count = (get_or p.calls idx 0 + 1) % 2 ^ 64 in
      let counted = record p { calls = set p.calls idx count } in
      let p' = if ltb calibrate_calls_threshold count then calibrate counted else counted in
      if (p'.max_size == 0) || leb (capacity b) p'.max_size
      then record p' { pool = reset b ∷ p'.pool }
      else p'
