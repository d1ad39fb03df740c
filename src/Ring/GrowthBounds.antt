-- ===== src/Ring/GrowthBounds.antt =====
-- `grow` picks a capacity that is large enough, its loop ends, and below 2 ^ 61 no sum overflows.
use native.Mathlib.Decide.{dec_lt}
use gtcp.Prelude.{
  ℕ, zero, suc, ◌+◌, ◌/◌, ◌%◌, ◌^◌, ◌≤◌, ◌<◌, ◌≡◌, max, refl, inl, inr, ◌⊎◌, Option, some, arith,
  ltb, leb, ◌==◌, Bool-cases,
}
use gtcp.PowerOfTwo.Ceil.{ceil_enough}
use gtcp.Ring.Growth.{grow_loop, grow_sized, grow_capacity}

-- How far the loop gets in so many rounds.
reach : ℕ → ℕ → ℕ
reach zero n = n
reach (suc f) n = reach f (n + n / 4)

-- The loop stops at the first size that is large enough.
record Ends (n new_cap : ℕ) (out : Option ℕ) : Type 0 where
  result : ℕ
  found : out ≡ some result
  enough : new_cap ≤ result
  grown : n ≤ result
  bounded : (result ≡ n) ⊎ (result ≤ new_cap + new_cap / 4)

-- One test of the loop, where the sum does not overflow.
pub loop_done : (f n new_cap : ℕ) → new_cap ≤ n → grow_loop (suc f) n new_cap ≡ some n
unfolding grow_loop
loop_done f n new_cap h = ground arith

loop_more :
    (f n new_cap : ℕ)
    → 0 < n
    → n < new_cap
    → new_cap ≤ 2 ^ 62
    → grow_loop (suc f) n new_cap ≡ grow_loop f (n + n / 4) new_cap
unfolding grow_loop
loop_more f n new_cap p h k =
    let e : (n + n / 4) % 2 ^ 64 ≡ n + n / 4 = omega arith in rw e (ground arith)

stops : (f n new_cap : ℕ) → new_cap ≤ n → Ends n new_cap (grow_loop (suc f) n new_cap)
stops f n new_cap h = record {
  result = n;
  found = loop_done f n new_cap h;
  enough = h;
  grown = omega arith;
  bounded = inl refl;
}

grow_loop-Ends :
    (f n new_cap : ℕ)
    → 0 < n
    → new_cap ≤ 2 ^ 62
    → new_cap ≤ reach f n
    → Ends n new_cap (grow_loop (suc f) n new_cap)
unfolding reach
grow_loop-Ends zero n new_cap p k l = stops zero n new_cap l
grow_loop-Ends (suc f) n new_cap p k l = elim (dec_lt n new_cap) [
  | no done ↦ stops (suc f) n new_cap (omega arith)
  | yes more ↦
      let rest = grow_loop-Ends f (n + n / 4) new_cap (omega arith) k l in
      rw (loop_more (suc f) n new_cap p more k) (record {
        result = rest.result;
        found = rest.found;
        enough = rest.enough;
        grown = omega (arith, rest.grown);
        bounded = inr (omega (arith, rest.bounded));
      })
]

reach_double : (n : ℕ) → 4096 ≤ n → n + n ≤ reach 4 n
unfolding reach
reach_double n h = omega arith

-- The capacity that `grow` chooses: at least what was asked for, and an int.
pub record Grows (n new_cap : ℕ) (out : Option ℕ) : Type 0 where
  pub result : ℕ
  pub chosen : out ≡ some result
  pub enough : new_cap ≤ result
  pub bounded : result < 2 ^ 63
  pub tight : result ≤ max 1024 (max (n + n) (new_cap + new_cap))

pub grow_sized-Grows :
    (n new_cap : ℕ) → n ≤ 2 ^ 61 → new_cap ≤ 2 ^ 62 → Grows n new_cap (grow_sized n new_cap)
unfolding grow_sized
grow_sized-Grows n new_cap h k =
    let e : (n + n) % 2 ^ 64 ≡ n + n = omega arith in
    rw e (elim (Bool-cases (leb new_cap (n + n))) [
      | inr large ↦ record {
        result = new_cap;
        chosen = ground arith;
        enough = omega arith;
        bounded = omega arith;
        tight = omega arith;
      }
      | inl small ↦ elim (Bool-cases (ltb n 4096)) [
        | inl few ↦ record {
          result = n + n;
          chosen = ground arith;
          enough = ground arith;
          bounded = omega arith;
          tight = omega arith;
        }
        | inr many ↦
            let rest =
              grow_loop-Ends 4 n new_cap (ground arith) k (ground (arith, reach_double n)) in
            record {
              result = rest.result;
              chosen = ground (arith, rest.found, rest.bounded, rest.grown);
              enough = rest.enough;
              bounded = omega (arith, rest.bounded);
              tight = omega (arith, rest.bounded);
            }
      ]
    ])

-- For a size of at most 2 ^ 61 and a request of at most 2 ^ 62, on every branch of `grow` its
-- loop ends within the fuel and the capacity chosen is at least the request and below 2 ^ 63.
pub grow_capacity-Grows :
    (n new_cap : ℕ) → n ≤ 2 ^ 61 → new_cap ≤ 2 ^ 62 → Grows n new_cap (grow_capacity n new_cap)
unfolding grow_capacity
grow_capacity-Grows n new_cap h k = elim (Bool-cases (n == 0)) [
  | inr sized ↦ rw sized (grow_sized-Grows n new_cap h k)
  | inl z ↦ rw z (elim (Bool-cases (leb new_cap 1024)) [
    | inl small ↦ rw small (record {
      result = 1024;
      chosen = refl;
      enough = ground arith;
      bounded = omega arith;
      tight = omega arith;
    })
    | inr large ↦
        let (m, found, enough, two, top, twice) = ceil_enough new_cap k in
        rw large (record {
          result = m;
          chosen = found;
          enough = enough;
          bounded = omega arith;
          tight = omega arith;
        })
  ])
]

-- A request of one byte leaves a size of 4096 or more as it is.
pub grow_capacity_one : (n : ℕ) → 4096 ≤ n → n ≤ 2 ^ 61 → grow_capacity n 1 ≡ some n
unfolding grow_capacity grow_sized
grow_capacity_one n h k =
    let e : (n + n) % 2 ^ 64 ≡ n + n = omega arith in
    rw (e, loop_done 4 n 1 (omega arith)) (ground arith)

-- Below 4096 the request of one byte doubles the size, or makes it 1024.
pub grow_capacity_one_small : (n : ℕ) → n < 4096 → (m : ℕ) × (grow_capacity n 1 ≡ some m) × (n < m)
unfolding grow_capacity grow_sized
grow_capacity_one_small n h =
    let e : (n + n) % 2 ^ 64 ≡ n + n = omega arith in
    elim (Bool-cases (n == 0)) [
      | inl z ↦ (1024, rw z, ground arith)
      | inr p ↦ (n + n, rw (e, p) (ground arith), ground arith)
    ]
