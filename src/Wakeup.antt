-- ===== src/Wakeup.antt =====
-- internal/netpoll/epoll_optimized_poller.go: how goroutines hand tasks to the event loop and wake it.
-- The queues are first in, first out (TaskQueue/Fifo), one step is one change of what is shared: a
-- queue, the flag `wakeupCall`, the counter of the eventfd.
pub mod System
pub mod Signal
pub mod NoLostWakeup
pub mod Stranded
mod Tests
use gtcp.Prelude.{
  length, ◌^◌, ◌≤◌, ℕ, suc, ◌+◌, ◌<◌, ◌≡◌, ◌≢◌, ◌⊎◌, Bool, true, false, List, [], ◌∷◌, ◌++◌,
}
use gtcp.TaskQueue.{TaskPointer}

abbrev pub max_async_tasks_at_one_time : ℕ
max_async_tasks_at_one_time = 256

-- `efd` is the counter of the eventfd, which is readable above 0. `write_failed` says that a write to
-- it has failed with another error than EAGAIN, which it gives when the counter is at its greatest,
-- `overflowed` that `IsEmpty` has called a queue empty whose int32 counter had come round to 0.
pub record Poller : Type 0 where
  pub urgent_async_task_queue : List TaskPointer
  pub async_task_queue : List TaskPointer
  pub wakeup_call : ℕ
  pub efd : ℕ
  pub write_failed : Bool
  pub overflowed : Bool

abbrev pub new_poller : Poller
new_poller = record {
  urgent_async_task_queue = [];
  async_task_queue = [];
  wakeup_call = 0;
  efd = 0;
  write_failed = false;
  overflowed = false;
}

-- Where a goroutine stands in `Trigger` or `UrgentTrigger`.
pub data TriggerPc : Type 0 where
  outside : TriggerPc
  linked : TriggerPc  -- in `Enqueue`, before its task is counted
  counted : TriggerPc  -- before the compare-and-swap
  won : TriggerPc  -- before the write

pub data Trigger (m : Poller) : TriggerPc → Poller → TriggerPc → Type 0 where
  enqueue_urgent :
      (task : TaskPointer)
      → Trigger m outside
          (record m { urgent_async_task_queue = m.urgent_async_task_queue ++ task ∷ [] })
          linked
  enqueue :
      (task : TaskPointer)
      → Trigger m outside (record m { async_task_queue = m.async_task_queue ++ task ∷ [] }) linked
  count : Trigger m linked m counted
  cas_win : m.wakeup_call ≡ 0 → Trigger m counted (record m { wakeup_call = 1 }) won
  cas_lose : m.wakeup_call ≢ 0 → Trigger m counted m outside
  write : Trigger m won (record m { efd = m.efd + 1 }) outside
  write_again : 0 < m.efd → Trigger m won m outside
  write_fails : Trigger m won (record m { write_failed = true }) outside

-- Where the event loop stands in `Polling`, with `doChores`.
pub data PollingPc : Type 0 where
  waiting : (do_chores : Bool) → PollingPc
  handling : (do_chores : Bool) → PollingPc  -- the events of one wait
  run_urgent : PollingPc
  run_tasks : (i : ℕ) → PollingPc
  storing : PollingPc
  checking : PollingPc  -- `!p.asyncTaskQueue.IsEmpty()`
  checking_urgent : PollingPc
  rearming : PollingPc
  writing : PollingPc
  stopped : PollingPc

-- When `IsEmpty` says yes of a queue of fewer than 2 ^ 32 tasks, the queue is empty or a task is
-- linked and not counted, as it does for the queue of TaskQueue (`is_empty_sound` of
-- TaskQueue/Length). Its counter is an int32: of a longer queue it may say yes at any time, which
-- is a step of its own.
abbrev pub LooksEmpty : List TaskPointer → (ℕ → TriggerPc) → Type 0
LooksEmpty ts pc = (ts ≡ []) ⊎ ((i : ℕ) × (pc i ≡ linked))

-- The steps of the event loop. Tasks and callbacks may trigger tasks, as goroutines of their own.
pub data Polling (m : Poller) (pc : ℕ → TriggerPc) : PollingPc → Poller → PollingPc → Type 0 where
  wakes : {d : Bool} → Polling m pc (waiting d) m (handling d)
  wait_error : {d : Bool} → Polling m pc (waiting d) m stopped
  read_efd :
      {d : Bool} → 0 < m.efd → Polling m pc (handling d) (record m { efd = 0 }) (handling true)
  callback_stops : {d : Bool} → Polling m pc (handling d) m stopped
  no_chores : Polling m pc (handling false) m (waiting false)
  chores : Polling m pc (handling true) m run_urgent
  urgent_task :
      {task : TaskPointer} {ts : List TaskPointer}
      → m.urgent_async_task_queue ≡ task ∷ ts
      → Polling m pc run_urgent (record m { urgent_async_task_queue = ts }) run_urgent
  urgent_stops :
      {task : TaskPointer} {ts : List TaskPointer}
      → m.urgent_async_task_queue ≡ task ∷ ts
      → Polling m pc run_urgent (record m { urgent_async_task_queue = ts }) stopped
  urgent_done : m.urgent_async_task_queue ≡ [] → Polling m pc run_urgent m (run_tasks 0)
  task :
      {i : ℕ} {task : TaskPointer} {ts : List TaskPointer}
      → i < max_async_tasks_at_one_time
      → m.async_task_queue ≡ task ∷ ts
      → Polling m pc (run_tasks i) (record m { async_task_queue = ts }) (run_tasks (suc i))
  task_stops :
      {i : ℕ} {task : TaskPointer} {ts : List TaskPointer}
      → i < max_async_tasks_at_one_time
      → m.async_task_queue ≡ task ∷ ts
      → Polling m pc (run_tasks i) (record m { async_task_queue = ts }) stopped
  no_task :
      {i : ℕ}
      → i < max_async_tasks_at_one_time
      → m.async_task_queue ≡ []
      → Polling m pc (run_tasks i) m storing
  enough_tasks : Polling m pc (run_tasks max_async_tasks_at_one_time) m storing
  store : Polling m pc storing (record m { wakeup_call = 0 }) checking
  tasks_left : Polling m pc checking m rearming
  tasks_done : LooksEmpty m.async_task_queue pc → Polling m pc checking m checking_urgent
  tasks_overflow :
      2 ^ 32 ≤ length m.async_task_queue
      → Polling m pc checking (record m { overflowed = true }) checking_urgent
  urgent_left : Polling m pc checking_urgent m rearming
  all_done :
      LooksEmpty m.urgent_async_task_queue pc → Polling m pc checking_urgent m (waiting false)
  urgent_overflow :
      2 ^ 32 ≤ length m.urgent_async_task_queue
      → Polling m pc checking_urgent (record m { overflowed = true }) (waiting false)
  rearm : m.wakeup_call ≡ 0 → Polling m pc rearming (record m { wakeup_call = 1 }) writing
  armed : m.wakeup_call ≢ 0 → Polling m pc rearming m (waiting false)
  rewrite_efd : Polling m pc writing (record m { efd = m.efd + 1 }) (waiting false)
  rewrite_again : 0 < m.efd → Polling m pc writing m (waiting false)
  rewrite_fails : Polling m pc writing (record m { write_failed = true }) (waiting true)
