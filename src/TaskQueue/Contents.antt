-- ===== src/TaskQueue/Contents.antt =====
-- The tasks in the queue: the values of the nodes behind `head`. Each step does to them what its
-- event says, and otherwise nothing.
use gtcp.Prelude.{
  ℕ, suc, ◌<◌, ◌≡◌, ◌≢◌, Option, none, some, List, [], ◌∷◌, ◌++◌, arith, refl, sym, ap, ap₂, ◌∙◌,
}
use mathlib.Core.Path.{subst}
use gtcp.TaskQueue.{
  Queue, Node, next_of, value_of, alloc, set_next, Pc, Event, Move, TaskPointer, load_event,
}
use gtcp.TaskQueue.Threads.{update_other}
use gtcp.TaskQueue.Order.{Ghost, Follows, Owned, WasTail, WasHead, Taking, Local, Chain}
use gtcp.TaskQueue.Moves.Link.{new_next, other_next, link_keeps_value, tail-last}

-- The values of the nodes after node `a`, to the last.
abbrev pub Holds : (ℕ → Node) → ℕ → List TaskPointer → Type 0
Holds heap a [] = (heap a).next ≡ none
Holds heap a (v ∷ vs) = (y : ℕ) × ((heap a).next ≡ some y) × ((heap y).value ≡ v) × Holds heap y vs

abbrev pub Contents : Queue → List TaskPointer → Type 0
Contents m ts = Holds m.heap m.head ts

none-some : {y : ℕ} → none ≢ some y
none-some e = cc

some_inj : {y z : ℕ} → some y ≡ some z → y ≡ z
some_inj e = cc

-- There is one such list.
pub Holds-unique :
    (heap : ℕ → Node) (ts us : List TaskPointer) (a : ℕ)
    → Holds heap a ts
    → Holds heap a us
    → ts ≡ us
Holds-unique heap [] [] a k l = refl
Holds-unique heap [] (u ∷ us) a k (z, e, f, rest) = absurd (none-some (sym k ∙ e))
Holds-unique heap (t ∷ ts) [] a (y, e, f, rest) l = absurd (none-some (sym l ∙ e))
Holds-unique heap (t ∷ ts) (u ∷ us) a (y, e, f, rest) (z, e', f', rest') =
    let same : y ≡ z = some_inj (sym e ∙ e') in
    ap₂ ◌∷◌ (sym f ∙ ap (λ n. (heap n).value) same ∙ f')
      (Holds-unique heap ts us z (subst (λ n. Holds heap n ts) same rest) rest')

-- A queue of tasks, as its users see it.
abbrev pub Applies : Event → List TaskPointer → List TaskPointer → Type 0
Applies Event.internal ts ts' = ts' ≡ ts
Applies (Event.enqueued task) ts ts' = ts' ≡ ts ++ task ∷ []
Applies (Event.dequeued task) ts ts' = ts ≡ task ∷ ts'
Applies Event.saw_empty ts ts' = (ts ≡ []) × (ts' ≡ [])

module _ {g : Ghost} {m : Queue} (c : Chain g m) where
  next_position :
      (a y : ℕ) → 0 < g.position a → next_of m a ≡ some y → g.position y ≡ suc (g.position a)
  next_position a y linked e = subst (Follows g (g.position a)) e (c.follows a linked)

  alloc-Holds :
      (task : TaskPointer) (ts : List TaskPointer) (a : ℕ)
      → 0 < g.position a
      → Holds m.heap a ts
      → Holds (alloc m task).heap a ts
  alloc-Holds task [] a linked e =
      ap (λ n. n.next) (update_other m.heap m.fresh _ a (omega (arith, c.used a linked))) ∙ e
  alloc-Holds task (v ∷ vs) a linked (y, e, f, rest) = (
    y,
    ap (λ n. n.next) (update_other m.heap m.fresh _ a (omega (arith, c.used a linked))) ∙ e,
    ap (λ n. n.value) (update_other m.heap m.fresh _ y (omega (arith, c.used y y_linked))) ∙ f,
    alloc-Holds task vs y y_linked rest,
  )
    where
      y_linked : 0 < g.position y
      y_linked = omega (arith, next_position a y linked e)

  module _ {task : TaskPointer} {x t : ℕ} (o : Owned g m task x) (w : WasTail g m t)
      (last : next_of m t ≡ none) where
    link-Holds :
        (ts : List TaskPointer) (a : ℕ)
        → 0 < g.position a
        → Holds m.heap a ts
        → Holds (set_next m t x).heap a (ts ++ task ∷ [])
    link-Holds [] a linked e = (
      x,
      subst (λ b. next_of (set_next m t x) b ≡ some x) t_is_a (new_next c o w last),
      link_keeps_value c o w last x ∙ o.holds,
      other_next c o w last x (λ s. omega (arith, ap g.position s, o.unlinked, w.linked)) ∙ o.ends,
    )
      where
        a_last : g.position a ≡ g.count
        a_last = subst (Follows g (g.position a)) e (c.follows a linked)

        t_is_a : t ≡ a
        t_is_a = c.apart t a w.linked (tail-last c o w last ∙ sym a_last)
    link-Holds (v ∷ vs) a linked (y, e, f, rest) = (
      y,
      other_next c o w last a (λ s. none-some (sym last ∙ ap (next_of m) s ∙ e)) ∙ e,
      link_keeps_value c o w last y ∙ f,
      link-Holds vs y (omega (arith, next_position a y linked e)) rest,
    )

  unlink-Holds :
      {h y : ℕ} {v : TaskPointer} (ts : List TaskPointer)
      → WasHead g m h
      → Taking g m h y v
      → Holds m.heap h ts
      → (rest : List TaskPointer) × (ts ≡ v ∷ rest) × Holds m.heap y rest
  unlink-Holds {h} {y} [] a k e = absurd (omega (arith, h_last, k.after, c.bounded y))
    where
      h_last : g.position h ≡ g.count
      h_last = subst (Follows g (g.position h)) e (c.follows h a.linked)
  unlink-Holds {h} {y} {v} (u ∷ us) a k (z, e, f, rest) = (
    us,
    ap (λ w. w ∷ us) (sym f ∙ ap (value_of m) z_is_y ∙ k.holds),
    subst (λ b. Holds m.heap b us) z_is_y rest,
  )
    where
      z_is_y : z ≡ y
      z_is_y =
          c.apart z y (omega (arith, next_position h z a.linked e))
            (next_position h z a.linked e ∙ sym k.after)

  -- A head whose `next` is nil is the last node: the queue is empty.
  load-Applies :
      {h : ℕ} (nx : Option ℕ) (ts : List TaskPointer)
      → WasHead g m h
      → next_of m h ≡ nx
      → Contents m ts
      → Applies (load_event nx) ts ts
  load-Applies none [] a e k = (refl, refl)
  load-Applies {h} none (u ∷ us) a e (z, f, _, _) =
      absurd (omega (arith, h_last, a.behind, c.bounded z, next_position m.head z c.starts f))
    where
      h_last : g.position h ≡ g.count
      h_last = subst (Follows g (g.position h)) e (c.follows h a.linked)
  load-Applies (some y) ts a e k = refl

  abbrev pub After : Event → List TaskPointer → Queue → Type 0
  After e ts m' = (ts' : List TaskPointer) × Applies e ts ts' × Contents m' ts'

  pub Move-Applies :
      {m' : Queue} {p p' : Pc} {e : Event} (ts : List TaskPointer)
      → Move m p e m' p'
      → Local g m p
      → Contents m ts
      → After e ts m'
  Move-Applies ts (Move.call_enqueue task) l k = (ts, refl, alloc-Holds task ts m.head c.starts k)
  Move-Applies ts Move.enq_load_tail l k = (ts, refl, k)
  Move-Applies ts Move.enq_load_next l k = (ts, refl, k)
  Move-Applies ts (Move.enq_check _) l k = (ts, refl, k)
  Move-Applies ts (Move.enq_stale _) l k = (ts, refl, k)
  Move-Applies ts (Move.link {task} last) (o, w, n) k =
      (ts ++ task ∷ [], refl, link-Holds o w last ts m.head c.starts k)
  Move-Applies ts (Move.link_lost _) l k = (ts, refl, k)
  Move-Applies ts (Move.enq_help _) l k = (ts, refl, k)
  Move-Applies ts (Move.enq_help_lost _) l k = (ts, refl, k)
  Move-Applies ts (Move.swing _) l k = (ts, refl, k)
  Move-Applies ts (Move.swing_lost _) l k = (ts, refl, k)
  Move-Applies ts Move.count_up l k = (ts, refl, k)
  Move-Applies ts Move.call_dequeue l k = (ts, refl, k)
  Move-Applies ts Move.deq_load_head l k = (ts, refl, k)
  Move-Applies ts Move.deq_load_tail l k = (ts, refl, k)
  Move-Applies ts (Move.deq_load_next {h} {t}) (a, b, le) k =
      (ts, load-Applies (next_of m h) ts a refl k, k)
  Move-Applies ts (Move.deq_check _) l k = (ts, refl, k)
  Move-Applies ts (Move.deq_stale _) l k = (ts, refl, k)
  Move-Applies ts (Move.return_nil _) l k = (ts, refl, k)
  Move-Applies ts (Move.deq_help _ _) l k = (ts, refl, k)
  Move-Applies ts (Move.deq_help_lost _ _) l k = (ts, refl, k)
  Move-Applies ts (Move.read_value _) l k = (ts, refl, k)
  Move-Applies ts (Move.nil_dereference _) l k = (ts, refl, k)
  Move-Applies ts (Move.unlink here) (a, t) k =
      unlink-Holds ts a t (subst (λ b. Holds m.heap b ts) here k)
  Move-Applies ts (Move.unlink_lost _) l k = (ts, refl, k)
  Move-Applies ts Move.count_down l k = (ts, refl, k)
  Move-Applies ts Move.done l k = (ts, refl, k)
