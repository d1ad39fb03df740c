-- ===== src/TaskQueue/Moves.antt =====
-- Every step keeps the invariant.
pub mod Chains
pub mod Link
use gtcp.Prelude.{
  ℕ, suc, ◌+◌, ◌≤◌, ◌<◌, ◌≡◌, ◌≢◌, ◌⊎◌, inl, inr, Option, none, some, arith, refl, sym, ap, ◌∙◌,
}
use mathlib.Core.Path.{subst}
use native.Mathlib.Decide.{ℕ_discrete}
use gtcp.TaskQueue.{
  Queue, next_of, value_of, alloc, set_next, add_int32, TaskPointer, Pc, Event, Move,
}
use gtcp.TaskQueue.Threads.{update, update_same, update_other}
use gtcp.TaskQueue.Order.{
  Ghost, Follows, WasNext, WasAhead, Owned, WasTail, WasHead, Taking, Local, owns, Chain, Inv,
}
use gtcp.TaskQueue.Stable.{Later, Local-Later}
use gtcp.TaskQueue.Moves.Chains.{
  Grown, same-Grown, count-Grown, tail-Grown, head-Grown, alloc-Grown, alloc-Owned,
}
use gtcp.TaskQueue.Moves.Link.{grow, tail-last, link-Grown, link_follows_tail, WasTail-link}

-- The order of the nodes after a step: only a link changes it.
abbrev pub ghost_after : {m m' : Queue} {p p' : Pc} {e : Event} → Ghost → Move m p e m' p' → Ghost
ghost_after g (Move.link {x} _) = grow g x
ghost_after g _ = g

pub record Moved (g : Ghost) (m : Queue) (p : Pc) (g' : Ghost) (m' : Queue) (p' : Pc) : Type 0 where
  pub grown : Grown (owns p) g m g' m'
  pub local : Local g' m' p'
  pub own : (x : ℕ) → owns p' ≡ some x → (owns p ≡ some x) ⊎ (x ≡ m.fresh)

module _ {g : Ghost} {m : Queue} (c : Chain g m) where
  head-WasHead : WasHead g m m.head
  head-WasHead = record { linked = c.starts; behind = omega arith }

  tail-WasTail : WasTail g m m.tail
  tail-WasTail = record { linked = omega (arith, c.starts, c.head_le); behind = omega arith }

  load-WasNext : (t : ℕ) (nx : Option ℕ) → Follows g (g.position t) nx → WasNext g t nx
  load-WasNext t none k = tt
  load-WasNext t (some y) k = k

  load-WasAhead :
      (h t : ℕ) (nx : Option ℕ)
      → g.position h ≤ g.position t
      → Follows g (g.position h) nx
      → WasAhead g h t nx
  load-WasAhead h t none le k = omega (arith, c.bounded t)
  load-WasAhead h t (some y) le k = k

  -- The loaded head and tail differ, so the tail was further.
  tail-further :
      {h t : ℕ} → WasHead g m h → g.position h ≤ g.position t → h ≢ t → g.position h < g.position t
  tail-further {h} {t} a le ne = ground (arith, c.apart h t a.linked)

  still :
      {p p' : Pc}
      → Local g m p'
      → ((x : ℕ) → owns p' ≡ some x → owns p ≡ some x)
      → Moved g m p g m p'
  still k own = record { grown = same-Grown c; local = k; own = λ x e. inl (own x e) }

  pub move :
      {m' : Queue} {p p' : Pc} {e : Event} (mv : Move m p e m' p')
      → Local g m p
      → Moved g m p (ghost_after g mv) m' p'
  move (Move.call_enqueue task) k = record {
    grown = alloc-Grown c task;
    local = alloc-Owned c task;
    own = λ x e. inr (ground arith);
  }
  move Move.enq_load_tail o = still (o, tail-WasTail) (λ x e. e)
  move (Move.enq_load_next {x} {t}) (o, w) =
      still (o, w, load-WasNext t (next_of m t) (c.follows t w.linked)) (λ x e. e)
  move (Move.enq_check _) k = still k (λ x e. e)
  move (Move.enq_stale _) (o, w, n) = still o (λ x e. e)
  move (Move.link last) (o, w, n) = record {
    grown = link-Grown c o w last;
    local = (WasTail-link c o w last, link_follows_tail c o w last);
    own = λ x e. cc;
  }
  move (Move.link_lost _) (o, w, n) = still o (λ x e. e)
  move (Move.enq_help {t} {y} here) (o, w, n) = record {
    grown = tail-Grown c (subst (λ a. g.position y ≡ suc (g.position a)) (sym here) n);
    local = record { used = o.used; unlinked = o.unlinked; ends = o.ends; holds = o.holds };
    own = λ x e. inl e;
  }
  move (Move.enq_help_lost _) (o, w, n) = still o (λ x e. e)
  move (Move.swing {x} here) (w, n) = record {
    grown = tail-Grown c (subst (λ a. g.position x ≡ suc (g.position a)) (sym here) n);
    local = tt;
    own = λ x e. cc;
  }
  move (Move.swing_lost _) k = still tt (λ x e. cc)
  move Move.count_up k = record { grown = count-Grown c 1; local = tt; own = λ x e. cc }
  move Move.call_dequeue k = still tt (λ x e. cc)
  move Move.deq_load_head k = still head-WasHead (λ x e. cc)
  move (Move.deq_load_tail {h}) w =
      still (w, tail-WasTail, omega (arith, w.behind, c.head_le)) (λ x e. cc)
  move (Move.deq_load_next {h} {t}) (a, b, le) =
      still (a, b, le, load-WasAhead h t (next_of m h) le (c.follows h a.linked)) (λ x e. cc)
  move (Move.deq_check _) k = still k (λ x e. cc)
  move (Move.deq_stale _) k = still tt (λ x e. cc)
  move (Move.return_nil _) k = still tt (λ x e. cc)
  move (Move.deq_help {h} {t} {y} same here) (a, b, le, n) = record {
    grown = tail-Grown c (subst (λ z. g.position y ≡ suc (g.position z)) (same ∙ sym here) n);
    local = tt;
    own = λ x e. cc;
  }
  move (Move.deq_help_lost _ _) k = still tt (λ x e. cc)
  move (Move.read_value {y} ne) (a, b, le, n) =
      still
        (
          a,
          record {
            after = n;
            reached = omega (arith, b.behind, tail-further a le ne);
            holds = refl;
          },
        )
        (λ x e. cc)
  move (Move.nil_dereference ne) (a, b, le, n) = absurd (omega (arith, tail-further a le ne))
  move (Move.unlink {y} here) (a, k) = record {
    grown =
        head-Grown c (subst (λ z. g.position y ≡ suc (g.position z)) (sym here) k.after) k.reached;
    local = tt;
    own = λ x e. cc;
  }
  move (Move.unlink_lost _) k = still tt (λ x e. cc)
  move Move.count_down k = record { grown = count-Grown c _; local = tt; own = λ x e. cc }
  move Move.done k = still tt (λ x e. cc)
