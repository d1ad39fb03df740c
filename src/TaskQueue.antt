-- ===== src/TaskQueue.antt =====
-- internal/queue: the queue of Michael and Scott through which any goroutine hands tasks to an event
-- loop. Memory is nodes by address, never reused, as nobody frees a node that a goroutine can still
-- reach. `Move` is one access to shared memory by one goroutine, with what it does to the queue.
pub mod Threads
pub mod System
pub mod Order
mod Stable
mod Moves
pub mod Invariant
pub mod Contents
pub mod Fifo
pub mod Length
pub mod Alone
mod Tests
use gtcp.Prelude.{ℕ, ◌+◌, ◌-◌, ◌%◌, ◌^◌, ◌≡◌, ◌≢◌, Option, none, some, Bool, ◌==◌}
use gtcp.TaskQueue.Threads.{update}

-- A `*Task`, by address: the queue never looks inside.
abbrev pub TaskPointer : Type 0
TaskPointer = Option ℕ

pub record Node : Type 0 where
  pub value : TaskPointer
  pub next : Option ℕ

-- `lockFreeQueue` with the heap it points into; addresses from `fresh` on are not in use. `length`
-- is the word of an int32.
pub record Queue : Type 0 where
  pub heap : ℕ → Node
  pub fresh : ℕ
  pub head : ℕ
  pub tail : ℕ
  pub length : ℕ

-- `&node{value: task}`
abbrev pub new_node : TaskPointer → Node
new_node task = record { value = task; next = none }

abbrev pub new_lock_free_queue : Queue
new_lock_free_queue = record {
  heap = λ _. new_node none;
  fresh = 1;
  head = 0;
  tail = 0;
  length = 0;
}

abbrev pub next_of : Queue → ℕ → Option ℕ
next_of m a = (m.heap a).next

abbrev pub value_of : Queue → ℕ → TaskPointer
value_of m a = (m.heap a).value

abbrev pub alloc : Queue → TaskPointer → Queue
alloc m task = record m { heap = update m.heap m.fresh (new_node task); fresh = m.fresh + 1 }

abbrev pub set_next : Queue → ℕ → ℕ → Queue
set_next m a n = record m {
  heap = update m.heap a (record { value = value_of m a; next = some n });
}

-- `atomic.AddInt32`, on the word; -1 is the word 2 ^ 32 - 1.
abbrev pub add_int32 : Queue → ℕ → Queue
add_int32 m d = record m { length = (m.length + d) % 2 ^ 32 }

abbrev pub is_empty : Queue → Bool
is_empty m = m.length == 0

-- Where a goroutine stands in `Enqueue` or `Dequeue`, with the variables that are live there:
-- `x` the new node, `t` and `h` the loaded tail and head, `nx` the loaded next.
pub data Pc : Type 0 where
  idle : Pc
  enq : (task : TaskPointer) (x : ℕ) → Pc  -- `retry` of `Enqueue`
  enq_tail : (task : TaskPointer) (x t : ℕ) → Pc
  enq_next : (task : TaskPointer) (x t : ℕ) (nx : Option ℕ) → Pc
  enq_same : (task : TaskPointer) (x t : ℕ) (nx : Option ℕ) → Pc
  enq_linked : (x t : ℕ) → Pc
  enq_count : Pc
  deq : Pc  -- `retry` of `Dequeue`
  deq_head : (h : ℕ) → Pc
  deq_tail : (h t : ℕ) → Pc
  deq_next : (h t : ℕ) (nx : Option ℕ) → Pc
  deq_same : (h t : ℕ) (nx : Option ℕ) → Pc
  deq_value : (h y : ℕ) (v : TaskPointer) → Pc
  deq_count : (v : TaskPointer) → Pc
  returned : (v : TaskPointer) → Pc
  panicked : Pc

-- What a step does to the queue that its users see.
pub data Event : Type 0 where
  internal : Event
  enqueued : (task : TaskPointer) → Event
  dequeued : (task : TaskPointer) → Event
  saw_empty : Event

-- `Dequeue` sees an empty queue when it loads a nil `next`.
abbrev pub load_event : Option ℕ → Event
load_event none = saw_empty
load_event (some _) = internal

pub data Move (m : Queue) : Pc → Event → Queue → Pc → Type 0 where
  call_enqueue : (task : TaskPointer) → Move m idle internal (alloc m task) (enq task m.fresh)
  enq_load_tail :
      {task : TaskPointer} {x : ℕ} → Move m (enq task x) internal m (enq_tail task x m.tail)
  enq_load_next :
      {task : TaskPointer} {x t : ℕ}
      → Move m (enq_tail task x t) internal m (enq_next task x t (next_of m t))
  enq_check :
      {task : TaskPointer} {x t : ℕ} {nx : Option ℕ}
      → m.tail ≡ t
      → Move m (enq_next task x t nx) internal m (enq_same task x t nx)
  enq_stale :
      {task : TaskPointer} {x t : ℕ} {nx : Option ℕ}
      → m.tail ≢ t
      → Move m (enq_next task x t nx) internal m (enq task x)
  link :
      {task : TaskPointer} {x t : ℕ}
      → next_of m t ≡ none
      → Move m (enq_same task x t none) (enqueued task) (set_next m t x) (enq_linked x t)
  link_lost :
      {task : TaskPointer} {x t : ℕ}
      → next_of m t ≢ none
      → Move m (enq_same task x t none) internal m (enq task x)
  enq_help :
      {task : TaskPointer} {x t y : ℕ}
      → m.tail ≡ t
      → Move m (enq_same task x t (some y)) internal (record m { tail = y }) (enq task x)
  enq_help_lost :
      {task : TaskPointer} {x t y : ℕ}
      → m.tail ≢ t
      → Move m (enq_same task x t (some y)) internal m (enq task x)
  swing :
      {x t : ℕ} → m.tail ≡ t → Move m (enq_linked x t) internal (record m { tail = x }) enq_count
  swing_lost : {x t : ℕ} → m.tail ≢ t → Move m (enq_linked x t) internal m enq_count
  count_up : Move m enq_count internal (add_int32 m 1) idle
  call_dequeue : Move m idle internal m deq
  deq_load_head : Move m deq internal m (deq_head m.head)
  deq_load_tail : {h : ℕ} → Move m (deq_head h) internal m (deq_tail h m.tail)
  deq_load_next :
      {h t : ℕ} → Move m (deq_tail h t) (load_event (next_of m h)) m (deq_next h t (next_of m h))
  deq_check :
      {h t : ℕ} {nx : Option ℕ} → m.head ≡ h → Move m (deq_next h t nx) internal m (deq_same h t nx)
  deq_stale : {h t : ℕ} {nx : Option ℕ} → m.head ≢ h → Move m (deq_next h t nx) internal m deq
  return_nil : {h t : ℕ} → h ≡ t → Move m (deq_same h t none) internal m (returned none)
  deq_help :
      {h t y : ℕ}
      → h ≡ t
      → m.tail ≡ t
      → Move m (deq_same h t (some y)) internal (record m { tail = y }) deq
  deq_help_lost : {h t y : ℕ} → h ≡ t → m.tail ≢ t → Move m (deq_same h t (some y)) internal m deq
  read_value :
      {h t y : ℕ} → h ≢ t → Move m (deq_same h t (some y)) internal m (deq_value h y (value_of m y))
  nil_dereference : {h t : ℕ} → h ≢ t → Move m (deq_same h t none) internal m panicked
  unlink :
      {h y : ℕ} {v : TaskPointer}
      → m.head ≡ h
      → Move m (deq_value h y v) (dequeued v) (record m { head = y }) (deq_count v)
  unlink_lost : {h y : ℕ} {v : TaskPointer} → m.head ≢ h → Move m (deq_value h y v) internal m deq
  count_down :
      {v : TaskPointer} → Move m (deq_count v) internal (add_int32 m (2 ^ 32 - 1)) (returned v)
  done : {v : TaskPointer} → Move m (returned v) internal m idle
