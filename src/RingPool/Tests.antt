-- ===== src/RingPool/Tests.antt =====
-- A pool over an insertion sort.
use mathlib.Core.List.{Permᴰ}
use mathlib.Core.List.Permᴰ
use gtcp.Prelude.{
  ℕ, ◌*◌, ◌/◌, ◌≤◌, ◌≡◌, refl, inl, inr, false, List, [], ◌∷◌, leb, if◌then◌else◌, arith,
  Bool-cases, replicate,
}
use gtcp.Ring.{Buffer}
use gtcp.Ring.View.{IsValid}
use gtcp.RingPool.Pool.{
  Pool, CallSize, Library, Below, Descends, steps, call_sizes, empty_pool, get, put, calibrate,
}
use gtcp.RingPool.Calibrate.{Calibrated, calibrate_lem}
use gtcp.RingPool.Kept.{IsGood, Gets, ring_pool_lem}

abbrev insert : CallSize → List CallSize → List CallSize
insert c [] = c ∷ []
insert c (d ∷ ds) = let rest = insert c ds in if leb d.calls c.calls then c ∷ d ∷ ds else d ∷ rest

abbrev sort : List CallSize → List CallSize
sort [] = []
sort (c ∷ cs) = insert c (sort cs)

insert-Permᴰ : (c : CallSize) (ds : List CallSize) → Permᴰ (insert c ds) (c ∷ ds)
insert-Permᴰ c [] = Permᴰ.refl (c ∷ [])
insert-Permᴰ c (d ∷ ds) = elim (Bool-cases (leb d.calls c.calls)) [
  | inl h ↦ rw h (Permᴰ.refl (c ∷ d ∷ ds))
  | inr h ↦ rw h (Permᴰ.trans (Permᴰ.cons refl (insert-Permᴰ c ds)) (Permᴰ.swap refl refl))
]

sort-Permᴰ : (cs : List CallSize) → Permᴰ (sort cs) cs
sort-Permᴰ [] = Permᴰ.nil
sort-Permᴰ (c ∷ cs) = Permᴰ.trans (insert-Permᴰ c (sort cs)) (Permᴰ.cons refl (sort-Permᴰ cs))

insert-Below :
    (n : ℕ) (c : CallSize) (ds : List CallSize)
    → c.calls ≤ n
    → Below (λ d. d.calls) n ds
    → Below (λ d. d.calls) n (insert c ds)
insert-Below n c [] le h = (le, tt)
insert-Below n c (d ∷ ds) le h = elim (Bool-cases (leb d.calls c.calls)) [
  | inl k ↦ rw k (le, h)
  | inr k ↦ rw k (h.0, insert-Below n c ds le h.1)
]

Below-weaken :
    (n k : ℕ) → n ≤ k → (cs : List CallSize) → Below (λ d. d.calls) n cs → Below (λ d. d.calls) k cs
Below-weaken n k le [] h = tt
Below-weaken n k le (c ∷ cs) h = (omega (arith, h.0), Below-weaken n k le cs h.1)

insert-Descends : (c : CallSize) (ds : List CallSize) → Descends ds → Descends (insert c ds)
insert-Descends c [] h = (tt, tt)
insert-Descends c (d ∷ ds) h = elim (Bool-cases (leb d.calls c.calls)) [
  | inl k ↦
      let le : d.calls ≤ c.calls = ground arith in
      rw k ((le, Below-weaken d.calls c.calls le ds h.0), h)
  | inr k ↦ rw k (insert-Below d.calls c ds (ground arith) h.0, insert-Descends c ds h.1)
]

sort-Descends : (cs : List CallSize) → Descends (sort cs)
sort-Descends [] = tt
sort-Descends (c ∷ cs) = insert-Descends c (sort cs) (sort-Descends cs)

abbrev library : Library
library = record {
  sort = sort;
  sort-Perm = sort-Permᴰ;
  sort-Descends = sort-Descends;
  percentile = λ n. n * 95 / 100;
}

-- Two classes in use.
abbrev used : Pool
used = record empty_pool { calls = 3 ∷ 7 ∷ replicate 18 0 }

calibrate_lem_example : Calibrated library used (calibrate library used)
calibrate_lem_example = calibrate_lem library used refl (omega arith) refl

calibrated_sizes :
    ((calibrate library used).default_size ≡ 128) × ((calibrate library used).max_size ≡ 128)
unfolding calibrate gtcp.RingPool.Pool.largest
calibrated_sizes = (refl, refl)

abbrev ring : Buffer
ring = record { buf = 5 ∷ 6 ∷ []; size = 2; r = 0; w = 0; is_empty = false }

ring-IsValid : IsValid ring
ring-IsValid = record { sized = refl; positions = (omega arith, omega arith) }

empty_pool-IsGood : IsGood empty_pool
empty_pool-IsGood = record {
  counters = refl;
  low = ground arith;
  free = refl;
  small = omega arith;
  shelved = tt;
}

ring_pool_lem_example :
    IsGood (put library empty_pool ring)
    × Gets (get 0 empty_pool)
    × Gets (get 0 (put library empty_pool ring))
ring_pool_lem_example =
    ring_pool_lem library empty_pool ring 0 empty_pool-IsGood ring-IsValid (omega arith)
