-- ===== src/TaskQueue/Moves/Chains.antt =====
-- What a step does to the list of nodes: nothing, a new node beside it, one more node at its end,
-- or the head or the tail one node further.
use gtcp.Prelude.{ℕ, suc, ◌≤◌, ◌<◌, ◌≡◌, Option, arith, refl, sym, ap, ◌∙◌}
use mathlib.Core.Path.{subst}
use gtcp.TaskQueue.{Queue, new_node, alloc, add_int32, TaskPointer}
use gtcp.TaskQueue.Threads.{update_same, update_other}
use gtcp.TaskQueue.Order.{Ghost, Follows, Owned, Chain}
use gtcp.TaskQueue.Stable.{Later}

pub record Grown (mine : Option ℕ) (g : Ghost) (m : Queue) (g' : Ghost) (m' : Queue) : Type 0 where
  pub chain : Chain g' m'
  pub later : Later mine g m g' m'

module _ {g : Ghost} {m : Queue} (c : Chain g m) where
  -- Head and tail at nodes that are as far or further, in an order that the list allows.
  pointers-Grown :
      {mine : Option ℕ} (h t d : ℕ)
      → g.position m.head ≤ g.position h
      → g.position m.tail ≤ g.position t
      → g.position h ≤ g.position t
      → Grown mine g m g (record m { head = h; tail = t; length = d })
  pointers-Grown h t d head_le tail_le le = record {
    chain = record {
      starts = omega (arith, c.starts);
      head_le = le;
      tail_le = c.bounded t;
      lag = omega (arith, c.lag);
      follows = c.follows;
      bounded = c.bounded;
      apart = c.apart;
      used = c.used;
    };
    later = record {
      keeps_position = λ a _. refl;
      head_le = head_le;
      tail_le = tail_le;
      fresh_le = omega arith;
      keeps_value = λ a _. refl;
      keeps_unlinked = λ a _ _ e. e;
      keeps_end = λ a _ _ e. e;
    };
  }

  pub count-Grown : {mine : Option ℕ} (d : ℕ) → Grown mine g m g (add_int32 m d)
  count-Grown d = pointers-Grown m.head m.tail _ (omega arith) (omega arith) c.head_le

  pub same-Grown : {mine : Option ℕ} → Grown mine g m g m
  same-Grown = pointers-Grown m.head m.tail m.length (omega arith) (omega arith) c.head_le

  pub tail-Grown :
      {mine : Option ℕ} {y : ℕ}
      → g.position y ≡ suc (g.position m.tail)
      → Grown mine g m g (record m { tail = y })
  tail-Grown {y} e =
      pointers-Grown m.head y m.length (omega arith) (omega arith) (omega (arith, c.head_le))

  pub head-Grown :
      {mine : Option ℕ} {y : ℕ}
      → g.position y ≡ suc (g.position m.head)
      → g.position y ≤ g.position m.tail
      → Grown mine g m g (record m { head = y })
  head-Grown {y} e le = pointers-Grown y m.tail m.length (omega arith) (omega arith) le

  alloc_other : (task : TaskPointer) (a : ℕ) → a < m.fresh → (alloc m task).heap a ≡ m.heap a
  alloc_other task a lt = update_other m.heap m.fresh (new_node task) a (omega arith)

  pub alloc-Grown : {mine : Option ℕ} (task : TaskPointer) → Grown mine g m g (alloc m task)
  alloc-Grown task = record {
    chain = record {
      starts = c.starts;
      head_le = c.head_le;
      tail_le = c.tail_le;
      lag = c.lag;
      follows = λ a linked.
          subst (λ n. Follows g (g.position a) (n.next))
            (sym (alloc_other task a (c.used a linked))) (c.follows a linked);
      bounded = c.bounded;
      apart = c.apart;
      used = λ a linked. omega (arith, c.used a linked);
    };
    later = record {
      keeps_position = λ a _. refl;
      head_le = omega arith;
      tail_le = omega arith;
      fresh_le = omega arith;
      keeps_value = λ a lt. ap (λ n. n.value) (alloc_other task a lt);
      keeps_unlinked = λ a _ _ e. e;
      keeps_end = λ a lt _ e. ap (λ n. n.next) (alloc_other task a lt) ∙ e;
    };
  }

  pub alloc-Owned : (task : TaskPointer) → Owned g (alloc m task) task m.fresh
  alloc-Owned task = record {
    used = omega arith;
    unlinked = ground (arith, c.used m.fresh);
    ends = ap (λ n. n.next) (update_same m.heap m.fresh (new_node task));
    holds = ap (λ n. n.value) (update_same m.heap m.fresh (new_node task));
  }
