-- ===== src/TaskQueue/Invariant.antt =====
-- In every state that goroutines can reach: the nodes in one list, and what each goroutine knows.
use gtcp.Prelude.{ℕ, ◌<◌, ◌≡◌, ◌≢◌, inl, inr, some, List, arith, sym}
use mathlib.Core.Path.{subst}
use native.Mathlib.Decide.{ℕ_discrete}
use gtcp.TaskQueue.{Queue, Pc, Event, Move}
use gtcp.TaskQueue.Threads.{update, update_same, update_other}
use gtcp.TaskQueue.System.{System, Step, pick, Reach, start, later, init}
use gtcp.TaskQueue.Order.{Ghost, Local, owns, Inv}
use gtcp.TaskQueue.Stable.{Local-Later}
use gtcp.TaskQueue.Moves.{Moved, ghost_after, move}

-- Only the first node is linked.
abbrev pub ghost_init : Ghost
ghost_init = record { position = update (λ _. 0) 0 1; count = 1 }

init-Inv : Inv ghost_init init.mem init.pc
unfolding ℕ_discrete
init-Inv = record {
  chain = record {
    starts = omega arith;
    head_le = omega arith;
    tail_le = omega arith;
    lag = omega arith;
    follows = λ a linked. ground arith;
    bounded = λ a. ground arith;
    apart = λ a b linked e. ground arith;
    used = λ a linked. ground arith;
  };
  local = λ _. tt;
  own_apart = λ i j x e f. cc;
}

owned-used : (g : Ghost) (m : Queue) (p : Pc) {x : ℕ} → owns p ≡ some x → Local g m p → x < m.fresh
owned-used g m (Pc.enq task y) e o = ground (arith, o.used)
owned-used g m (Pc.enq_tail task y t) e (o, w) = ground (arith, o.used)
owned-used g m (Pc.enq_next task y t nx) e (o, w, n) = ground (arith, o.used)
owned-used g m (Pc.enq_same task y t nx) e (o, w, n) = ground (arith, o.used)
owned-used g m p e k = cc

module _ {g : Ghost} {m : Queue} {pc : ℕ → Pc} (inv : Inv g m pc) (i : ℕ) where
  -- A node that another goroutine owns is neither the mover's nor a new one.
  not_the_movers :
      {g' : Ghost} {m' : Queue} {p' : Pc}
      → Moved g m (pc i) g' m' p'
      → (j x : ℕ) → i ≢ j
      → owns (pc j) ≡ some x
      → owns p' ≢ some x
  not_the_movers moved j x ne e f = elim (moved.own x f) [
    | inl mine ↦ ne (inv.own_apart i j x mine e)
    | inr new ↦ omega (arith, owned-used g m (pc j) e (inv.local j))
  ]

  step-Inv :
      {m' : Queue} {p' : Pc} {e : Event} (mv : Move m (pc i) e m' p')
      → Inv (ghost_after g mv) m' (update pc i p')
  step-Inv {m'} {p'} mv = record { chain = moved.grown.chain; local = local; own_apart = own_apart }
    where
      moved : Moved g m (pc i) (ghost_after g mv) m' p'
      moved = move inv.chain mv (inv.local i)

      local : (j : ℕ) → Local (ghost_after g mv) m' (update pc i p' j)
      local j = elim (ℕ_discrete i j) as (λ _. Local (ghost_after g mv) m' (update pc i p' j)) [
        | yes e ↦
            subst (λ k. Local (ghost_after g mv) m' (update pc i p' k)) e
              (subst (Local (ghost_after g mv) m') (sym (update_same pc i p')) moved.local)
        | no ne ↦ subst (Local (ghost_after g mv) m') (sym (update_other pc i p' j ne)) (
            Local-Later inv.chain moved.grown.later (pc j)
              (λ x e f. ne (inv.own_apart i j x (sym f) e)) (inv.local j))
      ]

      own_apart :
          (j k x : ℕ) → owns (update pc i p' j) ≡ some x → owns (update pc i p' k) ≡ some x → j ≡ k
      own_apart j k x e f =
          ground (arith, inv.own_apart j k x, not_the_movers moved j x, not_the_movers moved k x)

pub Step-Inv :
    {g : Ghost} {s t : System} {e : Event}
    → Inv g s.mem s.pc
    → Step s e t
    → (g' : Ghost) × Inv g' t.mem t.pc
Step-Inv {g} inv (pick i mv) = (ghost_after g mv, step-Inv inv i mv)

pub Reach-Inv : {es : List Event} {s : System} → Reach es s → (g : Ghost) × Inv g s.mem s.pc
Reach-Inv start = (ghost_init, init-Inv)
Reach-Inv (later r st) = let (g, inv) = Reach-Inv r in Step-Inv inv st
