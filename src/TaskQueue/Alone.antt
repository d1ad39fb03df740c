-- ===== src/TaskQueue/Alone.antt =====
-- A goroutine that the others leave alone, in any state that they can leave behind: it finishes.
use gtcp.Prelude.{
  ℕ, suc, ◌≡◌, ◌≢◌, inl, inr, Option, none, some, List, [], ◌∷◌, arith, refl, sym, ap,
}
use mathlib.Core.Path.{subst}
use native.Mathlib.Decide.{ℕ_discrete}
use gtcp.TaskQueue.{Queue, next_of, value_of, Pc, Event, Move, TaskPointer, load_event}
use gtcp.TaskQueue.System.{System, Reach, arrivals, departures}
use gtcp.TaskQueue.Order.{Ghost, Follows, Chain}
use gtcp.TaskQueue.Invariant.{Reach-Inv}
use gtcp.TaskQueue.Contents.{Contents}
use gtcp.TaskQueue.Fifo.{tail_lags}

-- The steps of one goroutine, with their events.
pub data Alone : Queue → Pc → List Event → Queue → Pc → Type 0 where
  stop : {m : Queue} {p : Pc} → Alone m p [] m p
  then :
      {m m' m'' : Queue} {p p' p'' : Pc} {e : Event} {es : List Event}
      → Move m p e m' p'
      → Alone m' p' es m'' p''
      → Alone m p (e ∷ es) m'' p''

-- From `p` to `p'`, putting `ins` in and taking `outs` out.
abbrev pub Finishes : Queue → Pc → List TaskPointer → List TaskPointer → Pc → Type 0
Finishes m p ins outs p' =
    (m' : Queue) × (es : List Event) × Alone m p es m' p'
    × (arrivals es ≡ ins)
    × (departures es ≡ outs)

links :
    (m : Queue) (task : TaskPointer) (x : ℕ)
    → next_of m m.tail ≡ none
    → Finishes m (Pc.enq task x) (task ∷ []) [] Pc.idle
links m task x e = (
  _,
  _,
  then Move.enq_load_tail (
      then load (
        then (Move.enq_check refl)
          (then (Move.link e) (then (Move.swing refl) (then Move.count_up stop))))),
  refl,
  refl,
)
  where
    load : Move m (Pc.enq_tail task x m.tail) Event.internal m (Pc.enq_next task x m.tail none)
    load =
        subst
          (λ nx. Move m (Pc.enq_tail task x m.tail) Event.internal m (Pc.enq_next task x m.tail nx))
          e Move.enq_load_next

helps :
    (m : Queue) (task : TaskPointer) (x y : ℕ)
    → next_of m m.tail ≡ some y
    → next_of m y ≡ none
    → Finishes m (Pc.enq task x) (task ∷ []) [] Pc.idle
helps m task x y e last =
    let (m', es, run, ins, outs) = links (record m { tail = y }) task x last in
    (
      m',
      _,
      then Move.enq_load_tail
          (then load (then (Move.enq_check refl) (then (Move.enq_help refl) run))),
      ins,
      outs,
    )
  where
    load : Move m (Pc.enq_tail task x m.tail) Event.internal m (Pc.enq_next task x m.tail (some y))
    load =
        subst
          (λ nx. Move m (Pc.enq_tail task x m.tail) Event.internal m (Pc.enq_next task x m.tail nx))
          e Move.enq_load_next

-- In every reachable state a goroutine at the retry label of `Enqueue` that runs alone from
-- there finishes, also where another one has left the tail one node behind: it puts its task
-- in, once, and takes nothing out.
pub enqueue-Finishes :
    {es : List Event} {s : System} {i x : ℕ} {task : TaskPointer}
    → Reach es s
    → s.pc i ≡ Pc.enq task x
    → Finishes s.mem (s.pc i) (task ∷ []) [] Pc.idle
enqueue-Finishes {s} {x} {task} r at_retry =
    subst (λ p. Finishes s.mem p (task ∷ []) [] Pc.idle) (sym at_retry)
      (elim (tail_lags r) [
        | inl e ↦ links s.mem task x e
        | inr (y, e, last) ↦ helps s.mem task x y e last
      ])

-- What `Dequeue` finds at the front.
abbrev pub first_task : List TaskPointer → TaskPointer
first_task [] = none
first_task (t ∷ _) = t

abbrev pub front : List TaskPointer → List TaskPointer
front [] = []
front (t ∷ _) = t ∷ []

module _ (m : Queue) where
  load_next :
      {h t : ℕ} (nx : Option ℕ)
      → next_of m h ≡ nx
      → Move m (Pc.deq_tail h t) (load_event nx) m (Pc.deq_next h t nx)
  load_next {h} {t} nx e =
      subst (λ n. Move m (Pc.deq_tail h t) (load_event n) m (Pc.deq_next h t n)) e
        Move.deq_load_next

  finds_nothing :
      next_of m m.head ≡ none → m.head ≡ m.tail → Finishes m Pc.deq [] [] (Pc.returned none)
  finds_nothing e same = (
    _,
    _,
    then Move.deq_load_head (
        then Move.deq_load_tail (
          then (load_next none e) (then (Move.deq_check refl) (then (Move.return_nil same) stop)))),
    refl,
    refl,
  )

  takes :
      (y : ℕ)
      → next_of m m.head ≡ some y
      → m.head ≢ m.tail
      → Finishes m Pc.deq [] (value_of m y ∷ []) (Pc.returned (value_of m y))
  takes y e ne = (
    _,
    _,
    then Move.deq_load_head (
        then Move.deq_load_tail (
          then (load_next (some y) e) (
            then (Move.deq_check refl)
              (then (Move.read_value ne) (then (Move.unlink refl) (then Move.count_down stop)))))),
    refl,
    refl,
  )

takes_after_help :
    (m : Queue) (y : ℕ)
    → next_of m m.head ≡ some y
    → m.head ≡ m.tail
    → m.head ≢ y
    → Finishes m Pc.deq [] (value_of m y ∷ []) (Pc.returned (value_of m y))
takes_after_help m y e same ne =
    let (m', es, run, ins, outs) = takes (record m { tail = y }) y e ne in
    (
      m',
      _,
      then Move.deq_load_head (
          then Move.deq_load_tail (
            then (load_next m (some y) e)
              (then (Move.deq_check refl) (then (Move.deq_help same refl) run)))),
      ins,
      outs,
    )

takes_first :
    {g : Ghost} {m : Queue} (c : Chain g m) (y : ℕ)
    → next_of m m.head ≡ some y
    → Finishes m Pc.deq [] (value_of m y ∷ []) (Pc.returned (value_of m y))
takes_first {g} {m} c y e = elim (ℕ_discrete m.head m.tail) [
  | yes same ↦ takes_after_help m y e same (λ s. omega (arith, ap g.position s, one_on))
  | no ne ↦ takes m y e ne
]
  where
    one_on : g.position y ≡ suc (g.position m.head)
    one_on = subst (Follows g (g.position m.head)) e (c.follows m.head c.starts)

-- In every reachable state a goroutine at the start of `Dequeue` that runs alone finishes: it
-- returns the first task that the queue holds and takes just this one out, or returns nil and
-- takes nothing out if the queue holds none.
pub dequeue-Finishes :
    {es : List Event} {s : System} (ts : List TaskPointer)
    → Reach es s
    → Contents s.mem ts
    → Finishes s.mem Pc.deq [] (front ts) (Pc.returned (first_task ts))
dequeue-Finishes {s} [] r e =
    let (g, inv) = Reach-Inv r in
    let c : Chain g s.mem = inv.chain in
    let last : g.position s.mem.head ≡ g.count =
      subst (Follows g (g.position s.mem.head)) e (c.follows s.mem.head c.starts) in
    finds_nothing s.mem e
      (c.apart s.mem.head s.mem.tail c.starts (omega (arith, last, c.head_le, c.tail_le)))
dequeue-Finishes {s} (t ∷ ts) r (y, e, f, rest) =
    let (g, inv) = Reach-Inv r in
    subst (λ v. Finishes s.mem Pc.deq [] (v ∷ []) (Pc.returned v)) f (takes_first inv.chain y e)
