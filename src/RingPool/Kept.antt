-- ===== src/RingPool/Kept.antt =====
-- Whatever is put back, the pool hands out rings that hold nothing: it is the pool that the elastic
-- buffers ask for.
use mathlib.Core.Option.{some-injective}
use mathlib.Core.Path.{subst}
use gtcp.Prelude.{
  ℕ, zero, suc, ◌+◌, ◌*◌, ◌%◌, ◌^◌, ◌≤◌, ◌<◌, ◌≡◌, refl, sym, ap, ◌∙◌, inl, inr, Option, some, List,
  [], ◌∷◌, ltb, leb, ◌==◌, ◌||◌, if◌then◌else◌, arith, replicate, Bool-cases, Option-cases, length,
  set, get_or, get_elem?, length-set, length-replicate,
}
use gtcp.Ring.{Buffer, reset, capacity, len}
use gtcp.Ring.View.{contents, IsValid}
use gtcp.Ring.New.{new_lem}
use gtcp.Ring.Advance.{reset-IsValid, contents-reset, size-reset}
use gtcp.RingPool.{RingPool}
use gtcp.RingPool.Pool.{
  Pool, Library, steps, calibrate_calls_threshold, call_sizes, index, remove_ring, get, put,
  calibrate,
}
use gtcp.RingPool.Calibrate.{total, Calibrated, calibrate_lem}

abbrev pub AllLe : ℕ → List ℕ → Type 0
AllLe n [] = Unit
AllLe n (c ∷ cs) = (c ≤ n) × AllLe n cs

-- A ring that can be handed out.
pub record IsShelved (b : Buffer) : Type 0 where
  pub valid : IsValid b
  pub holds_nothing : contents b ≡ []
  pub bounded : b.size ≤ 2 ^ 61

abbrev pub AllShelved : List Buffer → Type 0
AllShelved [] = Unit
AllShelved (b ∷ bs) = IsShelved b × AllShelved bs

-- Twenty counters that have not passed the threshold, no `calibrate` that runs, and rings to hand out.
pub record IsGood (p : Pool) : Type 0 where
  pub counters : length p.calls ≡ steps
  pub low : AllLe calibrate_calls_threshold p.calls
  pub free : p.calibrating ≡ 0
  pub small : p.default_size ≤ 2 ^ 25
  pub shelved : AllShelved p.pool

index_lt : (n : ℕ) → index n < steps
unfolding index
index_lt n = ground arith

AllLe-set : (n c : ℕ) (cs : List ℕ) (i : ℕ) → AllLe n cs → c ≤ n → AllLe n (set cs i c)
AllLe-set n c [] i h le = tt
AllLe-set n c (d ∷ cs) zero h le = (le, h.1)
AllLe-set n c (d ∷ cs) (suc i) h le = (h.0, AllLe-set n c cs i h.1 le)

AllLe-weaken : (n k : ℕ) → n ≤ k → (cs : List ℕ) → AllLe n cs → AllLe k cs
AllLe-weaken n k le [] h = tt
AllLe-weaken n k le (c ∷ cs) h = (omega (arith, h.0), AllLe-weaken n k le cs h.1)

AllLe-zeros : (n k : ℕ) → AllLe n (replicate k 0)
AllLe-zeros n zero = tt
AllLe-zeros n (suc k) = (omega arith, AllLe-zeros n k)

get_or-le : (n : ℕ) (cs : List ℕ) (i : ℕ) → AllLe n cs → get_or cs i 0 ≤ n
get_or-le n [] i h = omega arith
get_or-le n (c ∷ cs) zero h = h.0
get_or-le n (c ∷ cs) (suc i) h = get_or-le n cs i h.1

total-le : (i : ℕ) (cs : List ℕ) → AllLe 42001 cs → total (call_sizes i cs) ≤ length cs * 42001
total-le i [] h = omega arith
total-le i (c ∷ cs) h = omega (arith, h.0, total-le (suc i) cs h.1)

AllShelved-remove : (bs : List Buffer) (i : ℕ) → AllShelved bs → AllShelved (remove_ring bs i)
AllShelved-remove [] i h = tt
AllShelved-remove (b ∷ bs) zero h = h.1
AllShelved-remove (b ∷ bs) (suc i) h = (h.0, AllShelved-remove bs i h.1)

IsShelved-at :
    (bs : List Buffer) (i : ℕ) (b : Buffer) → AllShelved bs → get_elem? bs i ≡ some b → IsShelved b
IsShelved-at [] i b h e = cc
IsShelved-at (c ∷ bs) zero b h e = subst IsShelved (some-injective _ _ e) h.0
IsShelved-at (c ∷ bs) (suc i) b h e = IsShelved-at bs i b h.1 e

reset-IsShelved : (b : Buffer) → IsValid b → b.size ≤ 2 ^ 61 → IsShelved (reset b)
reset-IsShelved b v le = record {
  valid = reset-IsValid b v.sized;
  holds_nothing = contents-reset b;
  bounded = omega (arith, size-reset b);
}

-- What `Get` hands out serves the elastic buffers.
pub record Gets (out : Option (Buffer × Pool)) : Type 0 where
  pub ring : Buffer
  pub rest : Pool
  pub returned : out ≡ some (ring, rest)
  pub serves : RingPool
  pub is_it : serves.get ≡ ring
  pub good : IsGood rest

handed-Gets : (b : Buffer) (p : Pool) → IsShelved b → IsGood p → Gets (some (b, p))
handed-Gets b p s good = record {
  ring = b;
  rest = p;
  returned = refl;
  serves = record {
    get = b;
    get-IsValid = s.valid;
    get_holds_nothing = s.holds_nothing;
    get_size = s.bounded;
  };
  is_it = refl;
  good = good;
}

get-Gets : (pick : ℕ) (p : Pool) → IsGood p → Gets (get pick p)
unfolding get
get-Gets pick p g = elim (Option-cases (get_elem? p.pool pick)) [
  | inl none_there ↦
      let r = new_lem p.default_size (omega (arith, g.small)) in
      rw (none_there, r.returned, get)
        (handed-Gets r.result p
          (record {
            valid = r.valid;
            holds_nothing = r.holds_nothing;
            bounded = omega (arith, r.bounded, g.small);
          })
          g)
  | inr (b, there) ↦
      rw (there, get)
        (handed-Gets b (record p { pool = remove_ring p.pool pick })
          (IsShelved-at p.pool pick b g.shelved there)
          (record {
            counters = g.counters;
            low = g.low;
            free = g.free;
            small = g.small;
            shelved = AllShelved-remove p.pool pick g.shelved;
          }))
]

-- A ring goes to the others, or is dropped.
shelve-IsGood :
    (p : Pool) (b : Buffer)
    → IsGood p
    → IsShelved (reset b)
    → IsGood (
        if (p.max_size == 0) || leb (capacity b) p.max_size
        then record p { pool = reset b ∷ p.pool }
        else p)
shelve-IsGood p b g s = elim (Bool-cases ((p.max_size == 0) || leb (capacity b) p.max_size)) [
  | inl kept ↦ rw kept (record {
    counters = g.counters;
    low = g.low;
    free = g.free;
    small = g.small;
    shelved = (s, g.shelved);
  })
  | inr dropped ↦ rw dropped g
]

module _ (lib : Library) (p : Pool) (g : IsGood p) (idx : ℕ) where
  abbrev counted : ℕ → Pool
  counted count = record p { calls = set p.calls idx count }

  length-counted : (count : ℕ) → length (counted count).calls ≡ steps
  length-counted count = length-set p.calls idx count ∙ g.counters

  calibrated-IsGood : (count : ℕ) → count ≤ 42001 → IsGood (calibrate lib (counted count))
  calibrated-IsGood count le = record {
    counters = ap length r.counts ∙ length-replicate {A = ℕ} steps 0;
    low =
        subst (AllLe calibrate_calls_threshold) (sym r.counts)
          (AllLe-zeros calibrate_calls_threshold steps);
    free = r.open_again;
    small = omega (arith, r.ordered, r.bounded);
    shelved = subst AllShelved (sym r.rings) g.shelved;
  }
    where
      low : AllLe 42001 (counted count).calls
      low =
          AllLe-set 42001 count p.calls idx
            (AllLe-weaken calibrate_calls_threshold 42001 (omega arith) p.calls g.low) le

      r : Calibrated lib (counted count) (calibrate lib (counted count))
      r =
          calibrate_lem lib (counted count) (length-counted count)
            (omega (arith, total-le 0 (counted count).calls low, length-counted count)) g.free

  counted-IsGood : (count : ℕ) → count ≤ calibrate_calls_threshold → IsGood (counted count)
  counted-IsGood count le = record {
    counters = length-counted count;
    low = AllLe-set calibrate_calls_threshold count p.calls idx g.low le;
    free = g.free;
    small = g.small;
    shelved = g.shelved;
  }

put-IsGood :
    (lib : Library) (p : Pool) (b : Buffer)
    → IsGood p
    → IsValid b
    → b.size ≤ 2 ^ 61
    → IsGood (put lib p b)
unfolding put
put-IsGood lib p b g v small = elim (Bool-cases (ltb calibrate_calls_threshold count)) [
  | inl over ↦ rw over (
      shelve-IsGood (calibrate lib (counted lib p g idx count)) b
        (calibrated-IsGood lib p g idx count
          (omega (arith, get_or-le calibrate_calls_threshold p.calls idx g.low)))
        (reset-IsShelved b v small))
  | inr under ↦ rw under (
      shelve-IsGood (counted lib p g idx count) b (counted-IsGood lib p g idx count (ground arith))
        (reset-IsShelved b v small))
]
  where
    idx : ℕ
    idx = index (len b)

    count : ℕ
    count = (get_or p.calls idx 0 + 1) % 2 ^ 64

-- For a pool with 20 counters up to the threshold, rings that are valid and hold nothing, and a
-- default size of at most 2 ^ 25, and a valid ring of a size of at most 2 ^ 61: `Put` keeps the
-- pool so, calibrating or not, and before and after it `Get`, whichever ring it picks, hands
-- out a ring as the elastic buffers ask for, one that is valid and holds nothing.
pub ring_pool_lem :
    (lib : Library) (p : Pool) (b : Buffer) (pick : ℕ)
    → IsGood p
    → IsValid b
    → b.size ≤ 2 ^ 61
    → IsGood (put lib p b) × Gets (get pick p) × Gets (get pick (put lib p b))
ring_pool_lem lib p b pick g v small =
    let kept = put-IsGood lib p b g v small in
    (kept, get-Gets pick p g, get-Gets pick (put lib p b) kept)
