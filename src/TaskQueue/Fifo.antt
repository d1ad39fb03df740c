-- ===== src/TaskQueue/Fifo.antt =====
-- What the queue promises to all the goroutines that use it: first in, first out.
use gtcp.Prelude.{
  ℕ, suc, ◌≤◌, ◌<◌, ◌≡◌, ◌≢◌, ◌⊎◌, inl, inr, Option, none, some, List, [], ◌∷◌, ◌++◌, append-nil,
  append_assoc, arith, refl, ap,
}
use mathlib.Core.Path.{subst}
use gtcp.TaskQueue.{Queue, next_of, Pc, Event, TaskPointer}
use gtcp.TaskQueue.System.{System, Step, pick, Reach, start, later, arrivals, departures}
use gtcp.TaskQueue.Order.{Ghost, Follows, Local, Chain}
use gtcp.TaskQueue.Invariant.{Reach-Inv}
use gtcp.TaskQueue.Contents.{Contents, Applies, Move-Applies}

-- On a reachable state that holds the tasks ts, one access of any goroutine does to them what
-- its event says: a link puts its task behind them, moving the head takes the first one off,
-- which is the one that will be returned; a nil `next` loaded from the head is seen only when
-- there are none; and all other accesses leave them alone.
pub Step-Applies :
    {es : List Event} {e : Event} {s t : System} (ts : List TaskPointer)
    → Reach es s
    → Contents s.mem ts
    → Step s e t
    → (ts' : List TaskPointer) × Applies e ts ts' × Contents t.mem ts'
Step-Applies ts r k (pick i mv) =
    let (g, inv) = Reach-Inv r in Move-Applies inv.chain ts mv (inv.local i) k

arrivals-append : (es fs : List Event) → arrivals (es ++ fs) ≡ arrivals es ++ arrivals fs
arrivals-append [] fs = refl
arrivals-append (Event.enqueued task ∷ es) fs = ap (λ ts. task ∷ ts) (arrivals-append es fs)
arrivals-append (_ ∷ es) fs = arrivals-append es fs

departures-append : (es fs : List Event) → departures (es ++ fs) ≡ departures es ++ departures fs
departures-append [] fs = refl
departures-append (Event.dequeued task ∷ es) fs = ap (λ ts. task ∷ ts) (departures-append es fs)
departures-append (_ ∷ es) fs = departures-append es fs

-- One more event, on lists that add up before it.
one-more :
    (e : Event) (ins outs ts ts' : List TaskPointer)
    → Applies e ts ts'
    → ins ≡ outs ++ ts
    → ins ++ arrivals (e ∷ []) ≡ (outs ++ departures (e ∷ [])) ++ ts'
one-more Event.internal ins outs ts ts' same sum = rw (append-nil ins, append-nil outs, same, sum)
one-more (Event.enqueued task) ins outs ts ts' more sum =
    rw (append-nil outs, more, sum, append_assoc outs ts (task ∷ []))
one-more (Event.dequeued task) ins outs ts ts' less sum =
    rw (append-nil ins, sum, less, append_assoc outs (task ∷ []) ts')
one-more Event.saw_empty ins outs ts ts' (e, e') sum =
    rw (append-nil ins, append-nil outs, sum, e, e')

-- In every state that any number of goroutines in `Enqueue` and `Dequeue` can reach, in any
-- order of their accesses to memory: the tasks put in so far, in the order of the links, are
-- the tasks taken out so far, in that order, and then those that the queue holds.
pub Reach-Fifo :
    {es : List Event} {s : System}
    → Reach es s
    → (ts : List TaskPointer) × Contents s.mem ts × (arrivals es ≡ departures es ++ ts)
Reach-Fifo start = ([], refl, refl)
Reach-Fifo (later {es} {e} r st) =
    let (ts, k, sum) = Reach-Fifo r in
    let (ts', a, k') = Step-Applies ts r k st in
    (
      ts',
      k',
      rw (
        arrivals-append es (e ∷ []),
        departures-append es (e ∷ []),
        one-more e (arrivals es) (departures es) ts ts' a sum,
      ),
    )

-- In no reachable state has a goroutine dereferenced a nil `next` in `Dequeue`.
pub never_panics : {es : List Event} {s : System} → Reach es s → (i : ℕ) → s.pc i ≢ Pc.panicked
never_panics {s} r i e = let (g, inv) = Reach-Inv r in subst (Local g s.mem) e (inv.local i)

-- The tail is the last node, or the one before it.
pub tail_lags :
    {es : List Event} {s : System}
    → Reach es s
    → (next_of s.mem s.mem.tail ≡ none)
      ⊎ ((y : ℕ) × (next_of s.mem s.mem.tail ≡ some y) × (next_of s.mem y ≡ none))
tail_lags {s} r = let (g, inv) = Reach-Inv r in by_next inv.chain (next_of s.mem s.mem.tail) refl
  where
    last-next :
        {g : Ghost} {m : Queue} (c : Chain g m) (y : ℕ)
        → 0 < g.position y
        → g.count ≤ g.position y
        → (nx : Option ℕ) → next_of m y ≡ nx
        → nx ≡ none
    last-next c y linked end none e = refl
    last-next {g} c y linked end (some z) e =
        absurd (omega (arith, subst (Follows g (g.position y)) e (c.follows y linked), c.bounded z))

    by_next :
        {g : Ghost} (c : Chain g s.mem) (nx : Option ℕ)
        → next_of s.mem s.mem.tail ≡ nx
        → (next_of s.mem s.mem.tail ≡ none)
          ⊎ ((y : ℕ) × (next_of s.mem s.mem.tail ≡ some y) × (next_of s.mem y ≡ none))
    by_next c none e = inl e
    by_next {g} c (some y) e =
        inr (y, e, last-next c y (omega (arith, one_on)) (omega (arith, one_on, c.lag)) _ refl)
      where
        one_on : g.position y ≡ suc (g.position s.mem.tail)
        one_on =
            subst (Follows g (g.position s.mem.tail)) e
              (c.follows s.mem.tail (omega (arith, c.starts, c.head_le)))
