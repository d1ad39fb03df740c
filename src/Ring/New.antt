-- ===== src/Ring/New.antt =====
-- `New` of pkg/buffer/ring/ring_buffer.go.
use gtcp.Prelude.{
  ℕ, ◌+◌, ◌^◌, ◌≤◌, ◌≡◌, refl, max, inl, inr, Option, some, [], arith, ◌==◌, Bool-cases,
  length-replicate,
}
use gtcp.PowerOfTwo.Ceil.{ceil_enough}
use gtcp.Ring.{Buffer, fresh, new, buffered}
use gtcp.Ring.View.{contents, IsValid}

-- A ring with room for `n` bytes that holds none.
pub record MakesRoom (n : ℕ) (out : Option Buffer) : Type 0 where
  pub result : Buffer
  pub returned : out ≡ some result
  pub holds_nothing : contents result ≡ []
  pub valid : IsValid result
  pub room : n ≤ result.size
  pub bounded : result.size ≤ max 2 (n + n)

fresh-IsValid : (n : ℕ) → IsValid (fresh n)
fresh-IsValid n = record { sized = length-replicate n 0; positions = (refl, refl) }

contents-fresh : (n : ℕ) → contents (fresh n) ≡ []
unfolding buffered
contents-fresh n = refl

-- For n of at most 2 ^ 62 `New(n)` does not panic and returns a valid ring that holds nothing,
-- with room for n bytes and a size of at most twice n, or 2.
pub new_lem : (n : ℕ) → n ≤ 2 ^ 62 → MakesRoom n (new n)
unfolding new
new_lem n h = elim (Bool-cases (n == 0)) [
  | inl z ↦ rw z (record {
    result = fresh 0;
    returned = refl;
    holds_nothing = contents-fresh 0;
    valid = fresh-IsValid 0;
    room = ground arith;
    bounded = omega arith;
  })
  | inr some_size ↦
      let (m, found, enough, two, top, twice) = ceil_enough n h in
      rw (some_size, found)
        (record {
          result = fresh m;
          returned = refl;
          holds_nothing = contents-fresh m;
          valid = fresh-IsValid m;
          room = enough;
          bounded = twice;
        })
]
