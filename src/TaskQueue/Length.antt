-- ===== src/TaskQueue/Length.antt =====
-- `length` counts the tasks in the queue, but for the goroutines that have linked or unlinked a node
-- and not counted it yet.
use gtcp.Prelude.{
  ℕ, zero, suc, ◌+◌, ◌%◌, ◌^◌, ◌≤◌, ◌<◌, ◌≡◌, ◌≢◌, ◌↔◌, ◌⊎◌, inl, inr, Option, none, some, List, [],
  ◌∷◌, ◌++◌, true, ==_iff, arith, refl, sym, ap, ◌∙◌,
}
use native.Mathlib.Decide.{dec_lt, ℕ_discrete}
use gtcp.TaskQueue.{Queue, is_empty, Pc, Event, Move, TaskPointer, load_event}
use gtcp.TaskQueue.Threads.{update}
use gtcp.TaskQueue.System.{System, pick, Reach, start, later}
use gtcp.TaskQueue.Contents.{Contents, Applies, Holds-unique}
use gtcp.TaskQueue.Fifo.{Step-Applies}

abbrev pub linked_uncounted : Pc → ℕ
linked_uncounted (Pc.enq_linked x t) = 1
linked_uncounted Pc.enq_count = 1
linked_uncounted _ = 0

abbrev pub unlinked_uncounted : Pc → ℕ
unlinked_uncounted (Pc.deq_count v) = 1
unlinked_uncounted _ = 0

abbrev pub size : List TaskPointer → ℕ
size [] = 0
size (_ ∷ ts) = suc (size ts)

size-append : (ts us : List TaskPointer) → size (ts ++ us) ≡ size ts + size us
size-append [] us = omega arith
size-append (t ∷ ts) us = omega (arith, size-append ts us)

-- Over the goroutines below `n`.
module _ (w : Pc → ℕ) where
  pub tally : ℕ → (ℕ → Pc) → ℕ
  tally zero pc = 0
  tally (suc n) pc = w (pc n) + tally n pc

  tally_past : (n i : ℕ) (pc : ℕ → Pc) (p : Pc) → n ≤ i → tally n (update pc i p) ≡ tally n pc
  unfolding tally
  tally_past zero i pc p le = refl
  tally_past (suc n) i pc p le = ground (arith, tally_past n i pc p)

  tally-update :
      (n i : ℕ) (pc : ℕ → Pc) (p : Pc)
      → i < n
      → tally n (update pc i p) + w (pc i) ≡ tally n pc + w p
  unfolding tally
  tally-update zero i pc p lt = absurd (omega arith)
  tally-update (suc n) i pc p lt = elim (dec_lt i n) [
    | yes below ↦ ground (arith, tally-update n i pc p below)
    | no last ↦ ground (arith, tally_past n i pc p)
  ]

  tally_zero : (n : ℕ) (pc : ℕ → Pc) → ((i : ℕ) → w (pc i) ≡ 0) → tally n pc ≡ 0
  unfolding tally
  tally_zero zero pc quiet = refl
  tally_zero (suc n) pc quiet = omega (arith, quiet n, tally_zero n pc quiet)

  tally_more :
      (n d : ℕ) (pc : ℕ → Pc) → ((i : ℕ) → n ≤ i → w (pc i) ≡ 0) → tally (d + n) pc ≡ tally n pc
  unfolding tally
  tally_more n zero pc quiet = ap (λ k. tally k pc) n_plus
    where
      n_plus : 0 + n ≡ n
      n_plus = omega arith
  tally_more n (suc d) pc quiet =
      omega (arith, one_more, quiet (d + n) (omega arith), tally_more n d pc quiet)
    where
      n_plus : suc d + n ≡ suc (d + n)
      n_plus = omega arith

      one_more : tally (suc d + n) pc ≡ w (pc (d + n)) + tally (d + n) pc
      one_more = ap (λ k. tally k pc) n_plus

size-load :
    (nx : Option ℕ) (ts ts' : List TaskPointer)
    → Applies (load_event nx) ts ts'
    → size ts' ≡ size ts
size-load none ts ts' (e, f) = ap size f ∙ sym (ap size e)
size-load (some y) ts ts' e = ap size e

-- The goroutines that move keep the count, those that do not are in `up` and `down`.
move_counts :
    {m m' : Queue} {p p' : Pc} {e : Event} (ts ts' : List TaskPointer) (up down : ℕ)
    → Move m p e m' p'
    → Applies e ts ts'
    → (m.length + (linked_uncounted p + up)) % 2 ^ 32
      ≡ (size ts + (unlinked_uncounted p + down)) % 2 ^ 32
    → (m'.length + (linked_uncounted p' + up)) % 2 ^ 32
      ≡ (size ts' + (unlinked_uncounted p' + down)) % 2 ^ 32
move_counts ts ts' up down (Move.link {task} _) a k =
    omega (arith, ap size a, size-append ts (task ∷ []), k)
move_counts ts ts' up down (Move.unlink _) a k = omega (arith, ap size a, k)
move_counts ts ts' up down (Move.deq_load_next {h}) a k = omega (arith, size-load _ ts ts' a, k)
move_counts ts ts' up down mv a k = omega (arith, ap size a, k)

move_fits :
    {m m' : Queue} {p p' : Pc} {e : Event}
    → Move m p e m' p'
    → m.length < 2 ^ 32
    → m'.length < 2 ^ 32
move_fits Move.count_up lt = omega arith
move_fits Move.count_down lt = omega arith
move_fits mv lt = lt

-- From `bound` on, no goroutine has started.
pub record Counted (s : System) (ts : List TaskPointer) : Type 0 where
  pub bound : ℕ
  pub unstarted : (i : ℕ) → bound ≤ i → s.pc i ≡ Pc.idle
  pub fits : s.mem.length < 2 ^ 32
  pub counts :
      (s.mem.length + tally linked_uncounted bound s.pc) % 2 ^ 32
      ≡ (size ts + tally unlinked_uncounted bound s.pc) % 2 ^ 32

-- The bound can be any larger number.
raise : {s : System} {ts : List TaskPointer} → Counted s ts → ℕ → Counted s ts
raise {s} {ts} k d = record {
  bound = d + k.bound;
  unstarted = λ i le. k.unstarted i (omega arith);
  fits = k.fits;
  counts = omega (
    arith,
    k.counts,
    tally_more linked_uncounted k.bound d s.pc (λ i le. ap linked_uncounted (k.unstarted i le)),
    tally_more unlinked_uncounted k.bound d s.pc (λ i le. ap unlinked_uncounted (k.unstarted i le)),
  );
}

step-Counted :
    {s : System} {m : Queue} {p : Pc} {e : Event} {ts ts' : List TaskPointer} (k : Counted s ts)
    (i : ℕ)
    → i < k.bound
    → Move s.mem (s.pc i) e m p
    → Applies e ts ts'
    → Counted (record { mem = m; pc = update s.pc i p }) ts'
step-Counted {s} {m} {p} {ts} {ts'} k i lt mv a = record {
  bound = k.bound;
  unstarted = λ j le. ground (arith, k.unstarted j le);
  fits = move_fits mv k.fits;
  counts = omega (
    arith,
    move_counts ts ts' (tally linked_uncounted k.bound (update s.pc i Pc.idle))
        (tally unlinked_uncounted k.bound (update s.pc i Pc.idle)) mv a
        (omega (
          arith,
          k.counts,
          tally-update linked_uncounted k.bound i s.pc Pc.idle lt,
          tally-update unlinked_uncounted k.bound i s.pc Pc.idle lt,
        )),
    tally-update linked_uncounted k.bound i s.pc Pc.idle lt,
    tally-update unlinked_uncounted k.bound i s.pc Pc.idle lt,
    tally-update linked_uncounted k.bound i s.pc p lt,
    tally-update unlinked_uncounted k.bound i s.pc p lt,
  );
}

counted :
    {es : List Event} {s : System}
    → Reach es s
    → (ts : List TaskPointer) × Contents s.mem ts × Counted s ts
unfolding tally raise
counted start = (
  [],
  refl,
  record { bound = 0; unstarted = λ _ _. refl; fits = omega arith; counts = omega arith },
)
counted (later {s} r (pick i {m} {p} mv)) =
    let (ts, k, n) = counted r in
    let (ts', a, k') = Step-Applies ts r k (pick i mv) in
    (ts', k', step-Counted (raise n (suc i)) i (omega arith) mv a)

size-empty : (ts : List TaskPointer) → size ts ≡ 0 → ts ≡ []
size-empty [] e = refl
size-empty (t ∷ ts) e = absurd (omega arith)

-- In a reachable state in which no goroutine is inside the queue, and which holds fewer than 2
-- ^ 32 tasks, `IsEmpty` says that the queue is empty exactly if it holds no task.
pub is_empty-exact :
    {es : List Event} {s : System} {ts : List TaskPointer}
    → Reach es s
    → ((i : ℕ) → s.pc i ≡ Pc.idle)
    → Contents s.mem ts
    → size ts < 2 ^ 32
    → (is_empty s.mem ≡ true) ↔ (ts ≡ [])
is_empty-exact {s} {ts} r quiet k small =
    let (us, k', n) = counted r in
    let same : ts ≡ us = Holds-unique s.mem.heap ts us s.mem.head k k' in
    let sizes : s.mem.length ≡ size ts = omega (
      arith,
      n.counts,
      n.fits,
      ap size same,
      tally_zero linked_uncounted n.bound s.pc (λ i. ap linked_uncounted (quiet i)),
      tally_zero unlinked_uncounted n.bound s.pc (λ i. ap unlinked_uncounted (quiet i)),
    ) in
    (
      λ e. size-empty ts (omega (arith, sizes, (==_iff s.mem.length 0).0 e)),
      λ e. (==_iff s.mem.length 0).1 (sizes ∙ ap size e),
    )

some_weight : (w : Pc → ℕ) (n : ℕ) (pc : ℕ → Pc) → (tally w n pc ≡ 0) ⊎ ((i : ℕ) × (w (pc i) ≢ 0))
unfolding tally
some_weight w zero pc = inl refl
some_weight w (suc n) pc = elim (ℕ_discrete (w (pc n)) 0) [
  | no ne ↦ inr (n, ne)
  | yes e ↦ elim (some_weight w n pc) [ inl rest ↦ inl (omega arith) | inr found ↦ inr found ]
]

-- While nobody has unlinked a node without counting it, `IsEmpty` says yes only if the queue holds
-- none of fewer than 2 ^ 32 tasks, or somebody has linked a node and not counted it.
pub is_empty_sound :
    {es : List Event} {s : System} {ts : List TaskPointer}
    → Reach es s
    → ((i : ℕ) → unlinked_uncounted (s.pc i) ≡ 0)
    → Contents s.mem ts
    → size ts < 2 ^ 32
    → is_empty s.mem ≡ true
    → (ts ≡ []) ⊎ ((i : ℕ) × (linked_uncounted (s.pc i) ≢ 0))
is_empty_sound {s} {ts} r quiet k small says =
    let (us, k', n) = counted r in
    let same : ts ≡ us = Holds-unique s.mem.heap ts us s.mem.head k k' in
    elim (some_weight linked_uncounted n.bound s.pc) [
      | inr found ↦ inr found
      | inl none_linked ↦ inl (
          size-empty ts (
            omega (
              arith,
              n.counts,
              ap size same,
              none_linked,
              tally_zero unlinked_uncounted n.bound s.pc quiet,
              (==_iff s.mem.length 0).0 says,
            )))
    ]
