-- ===== src/RingPool/Calibrate.antt =====
-- `calibrate` of pkg/pool/ringbuffer/ringbuffer.go.
use mathlib.Core.List.{Permᴰ}
use mathlib.Core.List.Permᴰ
use native.Mathlib.Nat.{pow-le-pow_right}
use mathlib.Core.Path.{subst}
use gtcp.Prelude.{
  ℕ, suc, ◌+◌, ◌-◌, ◌*◌, ◌%◌, ◌^◌, ◌≤◌, ◌<◌, ◌≡◌, refl, ap, ap₂, ◌∙◌, ◌⊎◌, inl, inr, List, [], ◌∷◌,
  ltb, leb, true, ◌==◌, if◌then◌else◌, arith, replicate, Bool-cases, length,
}
use gtcp.RingPool.Pool.{
  Pool, CallSize, Library, Below, Descends, steps, min_size, call_sizes, calls_sum, largest,
  resized, calibrate,
}

abbrev pub sum_by : (CallSize → ℕ) → List CallSize → ℕ
sum_by w [] = 0
sum_by w (c ∷ cs) = w c + sum_by w cs

abbrev pub total : List CallSize → ℕ
total = sum_by (λ c. c.calls)

-- The calls with a size of at most `m`.
abbrev pub covered : ℕ → List CallSize → ℕ
covered m = sum_by (λ c. if leb c.size m then c.calls else 0)

-- The calls with the size `m`.
abbrev pub calls_of : ℕ → List CallSize → ℕ
calls_of m = sum_by (λ c. if c.size == m then c.calls else 0)

module _ (w : CallSize → ℕ) where
  sum_by-Permᴰ : {a b : List CallSize} → Permᴰ a b → sum_by w a ≡ sum_by w b
  sum_by-Permᴰ Permᴰ.nil = refl
  sum_by-Permᴰ (Permᴰ.cons e d) = ap₂ ◌+◌ (ap w e) (sum_by-Permᴰ d)
  sum_by-Permᴰ (Permᴰ.swap e f) = omega (arith, ap w e, ap w f)
  sum_by-Permᴰ (Permᴰ.trans d d') = sum_by-Permᴰ d ∙ sum_by-Permᴰ d'

  Below-Permᴰ : {a b : List CallSize} (n : ℕ) → Permᴰ a b → Below w n a → Below w n b
  Below-Permᴰ n Permᴰ.nil h = h
  Below-Permᴰ n (Permᴰ.cons e d) h = (omega (arith, ap w e, h.0), Below-Permᴰ n d h.1)
  Below-Permᴰ n (Permᴰ.swap e f) h =
      (omega (arith, ap w f, h.1.0), (omega (arith, ap w e, h.0), h.1.1))
  Below-Permᴰ n (Permᴰ.trans d d') h = Below-Permᴰ n d' (Below-Permᴰ n d h)

  Below-weaken : (n k : ℕ) → n ≤ k → (cs : List CallSize) → Below w n cs → Below w k cs
  Below-weaken n k le [] h = h
  Below-weaken n k le (c ∷ cs) h = (omega (arith, h.0), Below-weaken n k le cs h.1)

-- What the loop gets to from `m`: enough of the calls are covered, or all.
record Largest (max_sum sum m : ℕ) (cs : List CallSize) (out : ℕ) : Type 0 where
  grows : m ≤ out
  bounded : (top : ℕ) → m ≤ top → Below (λ c. c.size) top cs → out ≤ top
  enough : (max_sum < sum + covered out cs) ⊎ (covered out cs ≡ total cs)

-- One more entry in front.
front-Largest :
    {max_sum sum m : ℕ} {cs : List CallSize} {out : ℕ} (c : CallSize)
    → Largest max_sum (sum + c.calls) (if ltb m c.size then c.size else m) cs out
    → Largest max_sum sum m (c ∷ cs) out
front-Largest {max_sum} {sum} {m} {cs} {out} c r = record {
  grows = grows;
  bounded = λ top le h. r.bounded top (ground (arith, h.0)) h.1;
  enough = elim r.enough [
    | inl over ↦ inl (ground (arith, counts))
    | inr all ↦ inr (omega (arith, counts, all))
  ];
}
  where
    grows : m ≤ out
    grows = ground (arith, r.grows)

    fits : c.size ≤ out
    fits = ground (arith, r.grows)

    counts : covered out (c ∷ cs) ≡ c.calls + covered out cs
    counts = ground (arith, fits)

largest-Largest :
    (max_sum sum m : ℕ) (cs : List CallSize)
    → sum + total cs < 2 ^ 64
    → Largest max_sum sum m cs (largest max_sum sum m cs)
unfolding largest
largest-Largest max_sum sum m [] fits = record {
  grows = omega arith;
  bounded = λ top le h. le;
  enough = inr refl;
}
largest-Largest max_sum sum m (c ∷ cs) fits = elim (Bool-cases (ltb max_sum sum)) [
  | inl over ↦
      rw over
        (record { grows = omega arith; bounded = λ top le h. le; enough = inl (ground arith) })
  | inr under ↦ rw under (
      front-Largest c (
        subst (λ k. Largest max_sum k m' cs (largest max_sum ((sum + c.calls) % 2 ^ 64) m' cs))
          no_wrap (largest-Largest max_sum ((sum + c.calls) % 2 ^ 64) m' cs (omega arith))))
]
  where
    m' : ℕ
    m' = if ltb m c.size then c.size else m

    no_wrap : (sum + c.calls) % 2 ^ 64 ≡ sum + c.calls
    no_wrap = omega arith

-- What `calibrate` leaves: no counts; as the size of new rings a class that no other class has more
-- puts than; and as the limit one under which more than the percentile of the puts are, or all.
pub record Calibrated (lib : Library) (p : Pool) (out : Pool) : Type 0 where
  pub counts : out.calls ≡ replicate steps 0
  pub rings : out.pool ≡ p.pool
  pub open_again : out.calibrating ≡ 0
  pub ordered : out.default_size ≤ out.max_size
  pub bounded : out.max_size ≤ min_size * 2 ^ (steps - 1)
  pub most :
      Below (λ c. c.calls) (calls_of out.default_size (call_sizes 0 p.calls)) (call_sizes 0 p.calls)
  pub enough :
      (lib.percentile (total (call_sizes 0 p.calls)) < covered out.max_size (call_sizes 0 p.calls))
      ⊎ (covered out.max_size (call_sizes 0 p.calls) ≡ total (call_sizes 0 p.calls))

some_entry : (i : ℕ) (calls : List ℕ) → 0 < length calls → 0 < sum_by (λ _. 1) (call_sizes i calls)
some_entry i [] pos = pos
some_entry i (c ∷ calls) pos = omega arith

calls_sum-total :
    (sum i : ℕ) (calls : List ℕ)
    → sum + total (call_sizes i calls) < 2 ^ 64
    → calls_sum sum calls ≡ sum + total (call_sizes i calls)
calls_sum-total sum i [] fits = omega arith
calls_sum-total sum i (c ∷ calls) fits =
    calls_sum-total ((sum + c) % 2 ^ 64) (suc i) calls (omega arith) ∙ omega arith

size_le : (i : ℕ) → i < steps → min_size * 2 ^ i ≤ min_size * 2 ^ (steps - 1)
size_le i lt =
    omega (arith, pow-le-pow_right {n = 2} (omega arith) {i = i} {j = steps - 1} (omega arith))

call_sizes-Below :
    (i : ℕ) (calls : List ℕ)
    → i + length calls ≤ steps
    → Below (λ c. c.size) (min_size * 2 ^ (steps - 1)) (call_sizes i calls)
call_sizes-Below i [] le = tt
call_sizes-Below i (c ∷ calls) le =
    (size_le i (omega arith), call_sizes-Below (suc i) calls (omega arith))

head-calls : (c : CallSize) (cs : List CallSize) → c.calls ≤ calls_of c.size (c ∷ cs)
head-calls c cs = ground arith

module _ (lib : Library) (p : Pool) (size : length p.calls ≡ steps)
    (fits : total (call_sizes 0 p.calls) < 2 ^ 64) where
  -- By the sorted entries.
  resized-Calibrated :
      (sorted : List CallSize)
      → Permᴰ sorted (call_sizes 0 p.calls)
      → Descends sorted
      → Calibrated lib p (
          resized lib
            (record p { calls = replicate steps 0; calibrating = 0 })
            (total (call_sizes 0 p.calls))
            sorted)
  resized-Calibrated [] perm desc =
      absurd (omega (arith, sum_by-Permᴰ (λ _. 1) perm, some_entry 0 p.calls (omega arith)))
  resized-Calibrated (c ∷ cs) perm desc =
      let same : total (c ∷ cs) ≡ total (call_sizes 0 p.calls) = sum_by-Permᴰ (λ d. d.calls) perm in
      let r =
        largest-Largest (lib.percentile (total (call_sizes 0 p.calls))) 0 c.size (c ∷ cs)
          (omega arith) in
      let out = largest (lib.percentile (total (call_sizes 0 p.calls))) 0 c.size (c ∷ cs) in
      let covers : covered out (c ∷ cs) ≡ covered out (call_sizes 0 p.calls) =
        sum_by-Permᴰ (λ d. if leb d.size out then d.calls else 0) perm in
      let top = min_size * 2 ^ (steps - 1) in
      let sized : Below (λ d. d.size) top (c ∷ cs) =
        Below-Permᴰ (λ d. d.size) top (Permᴰ.symm perm)
          (call_sizes-Below 0 p.calls (omega arith)) in
      record {
        counts = refl;
        rings = refl;
        open_again = refl;
        ordered = r.grows;
        bounded = r.bounded top sized.0 sized;
        most =
            Below-Permᴰ (λ d. d.calls) _ perm
              (Below-weaken (λ d. d.calls) c.calls _
                (omega (
                  arith,
                  head-calls c cs,
                  sum_by-Permᴰ (λ d. if d.size == c.size then d.calls else 0) perm,
                ))
                (c ∷ cs) (omega arith, desc.0));
        enough = elim r.enough [
          | inl over ↦ inl (omega (arith, over, covers))
          | inr all ↦ inr (omega (arith, all, same, covers))
        ];
      }

  -- On a pool with 20 counters whose sum is below 2 ^ 64, and no `calibrate` that runs,
  -- `calibrate` resets the counters; it makes the size of new rings that of a class which no
  -- other class has more puts than, and the limit a size, not below it and at most 2 ^ 25, that
  -- covers more than the percentile of the puts, or all.
  pub calibrate_lem : p.calibrating ≡ 0 → Calibrated lib p (calibrate lib p)
  unfolding calibrate
  calibrate_lem free =
      let idle : (p.calibrating == 0) ≡ true = ground arith in
      rw (idle, calls_sum-total 0 0 p.calls (omega (arith, fits)), zero_plus)
        (resized-Calibrated (lib.sort (call_sizes 0 p.calls)) (lib.sort-Perm (call_sizes 0 p.calls))
          (lib.sort-Descends (call_sizes 0 p.calls)))
    where
      zero_plus : 0 + total (call_sizes 0 p.calls) ≡ total (call_sizes 0 p.calls)
      zero_plus = omega arith
