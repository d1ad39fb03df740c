-- ===== src/TaskQueue/Order.antt =====
-- The order of the nodes: a linked node has a position, from 1, that never changes.
use gtcp.Prelude.{ℕ, suc, ◌≤◌, ◌<◌, ◌≡◌, Option, none, some}
use gtcp.TaskQueue.{Queue, next_of, value_of, Pc, TaskPointer}

-- `position` is 0 for what is not linked; `count` is the position of the last node.
pub record Ghost : Type 0 where
  pub position : ℕ → ℕ
  pub count : ℕ

abbrev pub Follows : Ghost → ℕ → Option ℕ → Type 0
Follows g p none = p ≡ g.count
Follows g p (some y) = g.position y ≡ suc p

-- What a loaded `next` still says later: nil says nothing.
abbrev pub WasNext : Ghost → ℕ → Option ℕ → Type 0
WasNext g t none = Unit
WasNext g t (some y) = g.position y ≡ suc (g.position t)

-- The same in `Dequeue`: a nil `next` of the loaded head says it was the loaded tail's node.
abbrev pub WasAhead : Ghost → ℕ → ℕ → Option ℕ → Type 0
WasAhead g h t none = g.position h ≡ g.position t
WasAhead g h t (some y) = g.position y ≡ suc (g.position h)

-- The node a goroutine has made and not linked.
pub record Owned (g : Ghost) (m : Queue) (task : TaskPointer) (x : ℕ) : Type 0 where
  pub used : x < m.fresh
  pub unlinked : g.position x ≡ 0
  pub ends : next_of m x ≡ none
  pub holds : value_of m x ≡ task

pub record WasTail (g : Ghost) (m : Queue) (t : ℕ) : Type 0 where
  pub linked : 0 < g.position t
  pub behind : g.position t ≤ g.position m.tail

pub record WasHead (g : Ghost) (m : Queue) (h : ℕ) : Type 0 where
  pub linked : 0 < g.position h
  pub behind : g.position h ≤ g.position m.head

pub record Taking (g : Ghost) (m : Queue) (h y : ℕ) (v : TaskPointer) : Type 0 where
  pub after : g.position y ≡ suc (g.position h)
  pub reached : g.position y ≤ g.position m.tail
  pub holds : value_of m y ≡ v

-- What the variables of a goroutine say about shared memory.
abbrev pub Local : Ghost → Queue → Pc → Type 0
Local g m (Pc.enq task x) = Owned g m task x
Local g m (Pc.enq_tail task x t) = Owned g m task x × WasTail g m t
Local g m (Pc.enq_next task x t nx) = Owned g m task x × WasTail g m t × WasNext g t nx
Local g m (Pc.enq_same task x t nx) = Owned g m task x × WasTail g m t × WasNext g t nx
Local g m (Pc.enq_linked x t) = WasTail g m t × (g.position x ≡ suc (g.position t))
Local g m (Pc.deq_head h) = WasHead g m h
Local g m (Pc.deq_tail h t) = WasHead g m h × WasTail g m t × (g.position h ≤ g.position t)
Local g m (Pc.deq_next h t nx) =
    WasHead g m h × WasTail g m t × (g.position h ≤ g.position t) × WasAhead g h t nx
Local g m (Pc.deq_same h t nx) =
    WasHead g m h × WasTail g m t × (g.position h ≤ g.position t) × WasAhead g h t nx
Local g m (Pc.deq_value h y v) = WasHead g m h × Taking g m h y v
Local g m Pc.panicked = ⊥
Local g m _ = Unit

abbrev pub owns : Pc → Option ℕ
owns (Pc.enq task x) = some x
owns (Pc.enq_tail task x t) = some x
owns (Pc.enq_next task x t nx) = some x
owns (Pc.enq_same task x t nx) = some x
owns _ = none

-- The nodes stand in one list, from before `head` through `tail`, which is last or last but one.
pub record Chain (g : Ghost) (m : Queue) : Type 0 where
  pub starts : 0 < g.position m.head
  pub head_le : g.position m.head ≤ g.position m.tail
  pub tail_le : g.position m.tail ≤ g.count
  pub lag : g.count ≤ suc (g.position m.tail)
  pub follows : (a : ℕ) → 0 < g.position a → Follows g (g.position a) (next_of m a)
  pub bounded : (a : ℕ) → g.position a ≤ g.count
  pub apart : (a b : ℕ) → 0 < g.position a → g.position a ≡ g.position b → a ≡ b
  pub used : (a : ℕ) → 0 < g.position a → a < m.fresh

pub record Inv (g : Ghost) (m : Queue) (pc : ℕ → Pc) : Type 0 where
  pub chain : Chain g m
  pub local : (i : ℕ) → Local g m (pc i)
  pub own_apart : (i j x : ℕ) → owns (pc i) ≡ some x → owns (pc j) ≡ some x → i ≡ j
