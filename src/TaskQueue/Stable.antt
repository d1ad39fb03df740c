-- ===== src/TaskQueue/Stable.antt =====
-- What one goroutine knows stays true when another moves.
use gtcp.Prelude.{ℕ, suc, ◌≤◌, ◌<◌, ◌≡◌, ◌≢◌, Option, none, some, arith, refl, ◌∙◌}
use gtcp.TaskQueue.{Queue, next_of, value_of, Pc, TaskPointer}
use gtcp.TaskQueue.Order.{
  Ghost, WasNext, WasAhead, Owned, WasTail, WasHead, Taking, Local, owns, Chain,
}

-- From one state to a later one; `mine` is the node that the mover owned.
pub record Later (mine : Option ℕ) (g : Ghost) (m : Queue) (g' : Ghost) (m' : Queue) : Type 0 where
  pub keeps_position : (a : ℕ) → 0 < g.position a → g'.position a ≡ g.position a
  pub head_le : g.position m.head ≤ g'.position m'.head
  pub tail_le : g.position m.tail ≤ g'.position m'.tail
  pub fresh_le : m.fresh ≤ m'.fresh
  pub keeps_value : (a : ℕ) → a < m.fresh → value_of m' a ≡ value_of m a
  pub keeps_unlinked : (a : ℕ) → a < m.fresh → some a ≢ mine → g.position a ≡ 0 → g'.position a ≡ 0
  pub keeps_end :
      (a : ℕ) → a < m.fresh → g.position a ≡ 0 → next_of m a ≡ none → next_of m' a ≡ none

module _ {mine : Option ℕ} {g : Ghost} {m : Queue} {g' : Ghost} {m' : Queue} (chain : Chain g m)
    (l : Later mine g m g' m') where
  open chain use {used}

  Owned-Later : {task : TaskPointer} {x : ℕ} → some x ≢ mine → Owned g m task x → Owned g' m' task x
  Owned-Later {x} other o = record {
    used = omega (arith, o.used, l.fresh_le);
    unlinked = l.keeps_unlinked x o.used other o.unlinked;
    ends = l.keeps_end x o.used o.unlinked o.ends;
    holds = l.keeps_value x o.used ∙ o.holds;
  }

  WasTail-Later : {t : ℕ} → WasTail g m t → WasTail g' m' t
  WasTail-Later {t} w = record {
    linked = omega (arith, l.keeps_position t w.linked, w.linked);
    behind = omega (arith, l.keeps_position t w.linked, w.behind, l.tail_le);
  }

  WasHead-Later : {h : ℕ} → WasHead g m h → WasHead g' m' h
  WasHead-Later {h} w = record {
    linked = omega (arith, l.keeps_position h w.linked, w.linked);
    behind = omega (arith, l.keeps_position h w.linked, w.behind, l.head_le);
  }

  later-next :
      {t y : ℕ}
      → 0 < g.position t
      → g.position y ≡ suc (g.position t)
      → g'.position y ≡ suc (g'.position t)
  later-next {t} {y} linked e =
      omega (arith, l.keeps_position t linked, l.keeps_position y (omega arith))

  WasNext-Later : {t : ℕ} (nx : Option ℕ) → WasTail g m t → WasNext g t nx → WasNext g' t nx
  WasNext-Later none w e = tt
  WasNext-Later (some y) w e = later-next w.linked e

  WasAhead-Later :
      {h t : ℕ} (nx : Option ℕ)
      → WasHead g m h
      → WasTail g m t
      → WasAhead g h t nx
      → WasAhead g' h t nx
  WasAhead-Later {h} {t} none a b e =
      omega (arith, l.keeps_position h a.linked, l.keeps_position t b.linked)
  WasAhead-Later (some y) a b e = later-next a.linked e

  Taking-Later : {h y : ℕ} {v : TaskPointer} → WasHead g m h → Taking g m h y v → Taking g' m' h y v
  Taking-Later {h} {y} a k = record {
    after = later-next a.linked k.after;
    reached = omega (arith, k.reached, l.tail_le, l.keeps_position y y_linked);
    holds = l.keeps_value y (used y y_linked) ∙ k.holds;
  }
    where
      y_linked : 0 < g.position y
      y_linked = omega (arith, k.after)

  later-le :
      {h t : ℕ}
      → WasHead g m h
      → WasTail g m t
      → g.position h ≤ g.position t
      → g'.position h ≤ g'.position t
  later-le {h} {t} a b le = omega (arith, l.keeps_position h a.linked, l.keeps_position t b.linked)

  -- A goroutine that does not own the mover's node keeps what it knows.
  pub Local-Later :
      (p : Pc) → ((x : ℕ) → owns p ≡ some x → some x ≢ mine) → Local g m p → Local g' m' p
  Local-Later Pc.idle other k = tt
  Local-Later (Pc.enq task x) other k = Owned-Later (other x refl) k
  Local-Later (Pc.enq_tail task x t) other (o, w) = (Owned-Later (other x refl) o, WasTail-Later w)
  Local-Later (Pc.enq_next task x t nx) other (o, w, n) =
      (Owned-Later (other x refl) o, WasTail-Later w, WasNext-Later nx w n)
  Local-Later (Pc.enq_same task x t nx) other (o, w, n) =
      (Owned-Later (other x refl) o, WasTail-Later w, WasNext-Later nx w n)
  Local-Later (Pc.enq_linked x t) other (w, e) = (WasTail-Later w, later-next w.linked e)
  Local-Later Pc.enq_count other k = tt
  Local-Later Pc.deq other k = tt
  Local-Later (Pc.deq_head h) other k = WasHead-Later k
  Local-Later (Pc.deq_tail h t) other (a, b, le) =
      (WasHead-Later a, WasTail-Later b, later-le a b le)
  Local-Later (Pc.deq_next h t nx) other (a, b, le, n) =
      (WasHead-Later a, WasTail-Later b, later-le a b le, WasAhead-Later nx a b n)
  Local-Later (Pc.deq_same h t nx) other (a, b, le, n) =
      (WasHead-Later a, WasTail-Later b, later-le a b le, WasAhead-Later nx a b n)
  Local-Later (Pc.deq_value h y v) other (a, k) = (WasHead-Later a, Taking-Later a k)
  Local-Later (Pc.deq_count v) other k = tt
  Local-Later (Pc.returned v) other k = tt
  Local-Later Pc.panicked other k = k
