-- ===== src/TaskQueue/Moves/Link.antt =====
-- The step that links a node: the only one that changes the list of nodes.
use gtcp.Prelude.{ℕ, suc, ◌<◌, ◌≡◌, ◌≢◌, Option, none, some, arith, refl, sym, ap, ◌∙◌}
use mathlib.Core.Path.{subst}
use native.Mathlib.Decide.{ℕ_discrete}
use gtcp.TaskQueue.{Queue, next_of, value_of, set_next, TaskPointer}
use gtcp.TaskQueue.Threads.{update, update_same, update_other}
use gtcp.TaskQueue.Order.{Ghost, Follows, Owned, WasTail, Chain}
use gtcp.TaskQueue.Stable.{Later}
use gtcp.TaskQueue.Moves.Chains.{Grown}

abbrev pub grow : Ghost → ℕ → Ghost
grow g x = record { position = update g.position x (suc g.count); count = suc g.count }

module _ {g : Ghost} {m : Queue} (c : Chain g m) {task : TaskPointer} {x t : ℕ}
    (o : Owned g m task x) (w : WasTail g m t) (last : next_of m t ≡ none) where
  abbrev g' : Ghost
  g' = grow g x

  abbrev m' : Queue
  m' = set_next m t x

  pub tail-last : g.position t ≡ g.count
  tail-last = subst (Follows g (g.position t)) last (c.follows t w.linked)

  new_position : g'.position x ≡ suc g.count
  new_position = update_same g.position x (suc g.count)

  old_position : (a : ℕ) → 0 < g.position a → g'.position a ≡ g.position a
  old_position a linked = ground (arith, o.unlinked)

  pub new_next : next_of m' t ≡ some x
  new_next = ap (λ n. n.next) (update_same m.heap t _)

  pub other_next : (a : ℕ) → t ≢ a → next_of m' a ≡ next_of m a
  other_next a ne = ap (λ n. n.next) (update_other m.heap t _ a ne)

  pub link_keeps_value : (a : ℕ) → value_of m' a ≡ value_of m a
  link_keeps_value a = ground arith

  unlinked-other : (a : ℕ) → g.position a ≡ 0 → t ≢ a
  unlinked-other a e same = ground (arith, w.linked)

  old-Follows :
      (a : ℕ) (nx : Option ℕ)
      → 0 < g.position a
      → t ≢ a
      → Follows g (g.position a) nx
      → Follows g' (g.position a) nx
  old-Follows a none linked ne e = absurd (ne (c.apart t a w.linked (omega (arith, tail-last))))
  old-Follows a (some y) linked ne e = old_position y (omega arith) ∙ e

  -- At a position and a `next` known by equations.
  at-Follows :
      (a : ℕ) {p : ℕ} {nx : Option ℕ}
      → g'.position a ≡ p
      → next_of m' a ≡ nx
      → Follows g' p nx
      → Follows g' (g'.position a) (next_of m' a)
  at-Follows a {p} {nx} e f k =
      subst (λ q. Follows g' q (next_of m' a)) (sym e) (subst (Follows g' p) (sym f) k)

  new-Follows : Follows g' (g'.position x) (next_of m' x)
  new-Follows = at-Follows x new_position (other_next x (unlinked-other x o.unlinked) ∙ o.ends) refl

  last-Follows : Follows g' (g'.position t) (next_of m' t)
  last-Follows =
      at-Follows t (old_position t w.linked) new_next (new_position ∙ ap suc (sym tail-last))

  link-Follows : (a : ℕ) → 0 < g'.position a → Follows g' (g'.position a) (next_of m' a)
  link-Follows a linked =
      elim (ℕ_discrete x a) as (λ _. Follows g' (g'.position a) (next_of m' a)) [
        | yes e ↦ subst (λ b. Follows g' (g'.position b) (next_of m' b)) e new-Follows
        | no ne ↦ elim (ℕ_discrete t a) as (λ _. Follows g' (g'.position a) (next_of m' a)) [
          | yes e ↦ subst (λ b. Follows g' (g'.position b) (next_of m' b)) e last-Follows
          | no other ↦
              let was : 0 < g.position a = ground arith in
              at-Follows a (old_position a was) (other_next a other)
                (old-Follows a (next_of m a) was other (c.follows a was))
        ]
      ]

  link-apart : (a b : ℕ) → 0 < g'.position a → g'.position a ≡ g'.position b → a ≡ b
  link-apart a b linked e = ground (arith, c.apart a b, c.bounded a, c.bounded b)

  link-Chain : Chain g' m'
  link-Chain = record {
    starts = omega (arith, old_position m.head c.starts, c.starts);
    head_le =
        omega (arith, old_position m.head c.starts, old_position m.tail tail_linked, c.head_le);
    tail_le = omega (arith, old_position m.tail tail_linked, c.tail_le);
    lag = omega (arith, old_position m.tail tail_linked, tail-last, w.behind);
    follows = link-Follows;
    bounded = λ a. ground (arith, c.bounded a);
    apart = link-apart;
    used = λ a linked. ground (arith, c.used a, o.used);
  }
    where
      tail_linked : 0 < g.position m.tail
      tail_linked = omega (arith, c.starts, c.head_le)

  link-Later : Later (some x) g m g' m'
  link-Later = record {
    keeps_position = old_position;
    head_le = omega (arith, old_position m.head c.starts);
    tail_le = omega (arith, old_position m.tail (omega (arith, c.starts, c.head_le)));
    fresh_le = omega arith;
    keeps_value = λ a _. link_keeps_value a;
    keeps_unlinked = λ a _ ne e. ground arith;
    keeps_end = λ a _ e f. other_next a (unlinked-other a e) ∙ f;
  }

  pub link-Grown : Grown (some x) g m g' m'
  link-Grown = record { chain = link-Chain; later = link-Later }

  pub link_follows_tail : g'.position x ≡ suc (g'.position t)
  link_follows_tail = omega (arith, new_position, old_position t w.linked, tail-last)

  pub WasTail-link : WasTail g' m' t
  WasTail-link = record {
    linked = omega (arith, old_position t w.linked, w.linked);
    behind = omega (arith, old_position t w.linked, w.behind, link-Later.tail_le);
  }
