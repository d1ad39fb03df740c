-- ===== src/Wakeup/NoLostWakeup.antt =====
-- No wakeup is lost: while a task is in a queue, something will bring the loop to it.

use gtcp.Prelude.{
  ℕ, ◌≤◌, ◌<◌, ◌≡◌, ◌≢◌, ◌⊎◌, inl, inr, Bool, true, false, List, [], arith, refl, sym, ap, ◌∙◌,
}
use gtcp.TaskQueue.{TaskPointer}
use gtcp.TaskQueue.Threads.{update}
use gtcp.Wakeup.{
  Poller, TriggerPc, outside, linked, counted, won, Trigger, PollingPc, waiting, LooksEmpty,
  Polling,
}
use gtcp.Wakeup.System.{System, trigger, poll, Reach, start, later}
use gtcp.Wakeup.Signal.{
  Signal, has_won, is_pending, resets, serves, serves_urgent, trigger-Signal, mover-Signal,
  poll-Signal, won-Signal,
}

clash : true ≡ false → ⊥
clash q = cc

-- No write to the eventfd has failed, and no counter of a queue has come round.
abbrev IsSound : Poller → Type 0
IsSound m = (m.write_failed ≡ false) × (m.overflowed ≡ false)

-- While the run is sound: a flag that is set, and a queue with a task, each have their signal.
record Inv (m : Poller) (pc : ℕ → TriggerPc) (l : PollingPc) : Type 0 where
  flag : m.wakeup_call ≢ 0 → Signal has_won resets m pc l
  tasks : m.async_task_queue ≢ [] → Signal is_pending serves m pc l
  urgent : m.urgent_async_task_queue ≢ [] → Signal is_pending serves_urgent m pc l

-- The loop is where it looks at both queues and resets the flag.
busy-Inv :
    {m : Poller} {pc : ℕ → TriggerPc} {l : PollingPc}
    → resets l ≡ true
    → serves l ≡ true
    → serves_urgent l ≡ true
    → Inv m pc l
busy-Inv a b c = record {
  flag = λ _. Signal.by_loop a;
  tasks = λ _. Signal.by_loop b;
  urgent = λ _. Signal.by_loop c;
}

readable_efd-Inv : {m : Poller} {pc : ℕ → TriggerPc} {l : PollingPc} → 0 < m.efd → Inv m pc l
readable_efd-Inv pos = record {
  flag = λ _. Signal.readable pos;
  tasks = λ _. Signal.readable pos;
  urgent = λ _. Signal.readable pos;
}

module _ {m : Poller} {pc : ℕ → TriggerPc} {l : PollingPc} (inv : Inv m pc l) (i : ℕ) where
  -- The mover has not won the flag.
  flag-Signal :
      {m' : Poller} (p p' : TriggerPc)
      → pc i ≡ p
      → has_won p ≡ false
      → m.efd ≤ m'.efd
      → Signal has_won resets m pc l
      → Signal has_won resets m' (update pc i p') l
  flag-Signal p p' e no_win le =
      trigger-Signal pc i p' le (λ h. absurd (clash (sym h ∙ ap has_won e ∙ no_win)))

  -- The mover stays inside.
  pending-Signal :
      {b : PollingPc → Bool} {m' : Poller} (p' : TriggerPc)
      → is_pending p' ≡ true
      → m.efd ≤ m'.efd
      → Signal is_pending b m pc l
      → Signal is_pending b m' (update pc i p') l
  pending-Signal p' inside le = trigger-Signal pc i p' le (λ _. mover-Signal pc i p' inside)

  trigger-Inv :
      {m' : Poller} {p p' : TriggerPc}
      → Trigger m p m' p'
      → pc i ≡ p
      → IsSound m'
      → Inv m' (update pc i p') l
  trigger-Inv (Trigger.enqueue_urgent task) e ok = record {
    flag = λ set. flag-Signal outside linked e refl (omega arith) (inv.flag set);
    tasks = λ some_task. pending-Signal linked refl (omega arith) (inv.tasks some_task);
    urgent = λ _. mover-Signal pc i linked refl;
  }
  trigger-Inv (Trigger.enqueue task) e ok = record {
    flag = λ set. flag-Signal outside linked e refl (omega arith) (inv.flag set);
    tasks = λ _. mover-Signal pc i linked refl;
    urgent = λ some_task. pending-Signal linked refl (omega arith) (inv.urgent some_task);
  }
  trigger-Inv Trigger.count e ok = record {
    flag = λ set. flag-Signal linked counted e refl (omega arith) (inv.flag set);
    tasks = λ some_task. pending-Signal counted refl (omega arith) (inv.tasks some_task);
    urgent = λ some_task. pending-Signal counted refl (omega arith) (inv.urgent some_task);
  }
  trigger-Inv (Trigger.cas_win _) e ok = record {
    flag = λ _. mover-Signal pc i won refl;
    tasks = λ some_task. pending-Signal won refl (omega arith) (inv.tasks some_task);
    urgent = λ some_task. pending-Signal won refl (omega arith) (inv.urgent some_task);
  }
  trigger-Inv (Trigger.cas_lose set) e ok =
      let s = flag-Signal counted outside e refl (omega arith) (inv.flag set) in
      record { flag = λ _. s; tasks = λ _. (won-Signal s).0; urgent = λ _. (won-Signal s).1 }
  trigger-Inv Trigger.write e ok = readable_efd-Inv (omega arith)
  trigger-Inv (Trigger.write_again pos) e ok = readable_efd-Inv pos
  trigger-Inv Trigger.write_fails e ok = absurd (clash ok.0)

module _ {m : Poller} {pc : ℕ → TriggerPc} where
  -- The loop moves on from a place where it promised nothing.
  on-Signal :
      {f : TriggerPc → Bool} {b : PollingPc → Bool} {l l' : PollingPc}
      → b l ≡ false
      → Signal f b m pc l
      → Signal f b m pc l'
  on-Signal e = poll-Signal pc Signal.readable (λ h. absurd (clash (sym h ∙ e)))

  -- A queue that looks empty is, or its signal is the goroutine that has not counted its task.
  LooksEmpty-Signal :
      {b : PollingPc → Bool} {l : PollingPc} (ts : List TaskPointer)
      → LooksEmpty ts pc
      → ts ≢ []
      → Signal is_pending b m pc l
  LooksEmpty-Signal ts (inl e) ne = absurd (ne e)
  LooksEmpty-Signal ts (inr (i, e)) ne = Signal.by_goroutine i (ap is_pending e)

  poll-Inv :
      {m' : Poller} {l l' : PollingPc}
      → Polling m pc l m' l'
      → IsSound m'
      → Inv m pc l
      → Inv m' pc l'
  poll-Inv Polling.wakes ok inv = record {
    flag = λ set. on-Signal refl (inv.flag set);
    tasks = λ q. on-Signal refl (inv.tasks q);
    urgent = λ q. on-Signal refl (inv.urgent q);
  }
  poll-Inv Polling.no_chores ok inv = record {
    flag = λ set. on-Signal refl (inv.flag set);
    tasks = λ q. on-Signal refl (inv.tasks q);
    urgent = λ q. on-Signal refl (inv.urgent q);
  }
  poll-Inv Polling.store ok inv = record {
    flag = λ set. absurd (set refl);
    tasks = λ _. Signal.by_loop refl;
    urgent = λ _. Signal.by_loop refl;
  }
  poll-Inv Polling.tasks_left ok inv = record {
    flag = λ set. on-Signal refl (inv.flag set);
    tasks = λ _. Signal.by_loop refl;
    urgent = λ _. Signal.by_loop refl;
  }
  poll-Inv (Polling.tasks_done empty) ok inv = record {
    flag = λ set. on-Signal refl (inv.flag set);
    tasks = LooksEmpty-Signal m.async_task_queue empty;
    urgent = λ _. Signal.by_loop refl;
  }
  poll-Inv Polling.urgent_left ok inv = record {
    flag = λ set. on-Signal refl (inv.flag set);
    tasks = λ _. Signal.by_loop refl;
    urgent = λ _. Signal.by_loop refl;
  }
  poll-Inv (Polling.all_done empty) ok inv = record {
    flag = λ set. on-Signal refl (inv.flag set);
    tasks = λ q. on-Signal refl (inv.tasks q);
    urgent = LooksEmpty-Signal m.urgent_async_task_queue empty;
  }
  poll-Inv (Polling.armed set) ok inv =
      let s = on-Signal {l' = waiting false} refl (inv.flag set) in
      record { flag = λ _. s; tasks = λ _. (won-Signal s).0; urgent = λ _. (won-Signal s).1 }
  poll-Inv Polling.rewrite_efd ok inv = readable_efd-Inv (omega arith)
  poll-Inv (Polling.rewrite_again pos) ok inv = readable_efd-Inv pos
  poll-Inv Polling.rewrite_fails ok inv = absurd (clash ok.0)
  poll-Inv (Polling.tasks_overflow _) ok inv = absurd (clash ok.1)
  poll-Inv (Polling.urgent_overflow _) ok inv = absurd (clash ok.1)
  poll-Inv mv ok inv = busy-Inv refl refl refl

-- What has gone wrong is remembered.
trigger_remembers : {m m' : Poller} {p p' : TriggerPc} → Trigger m p m' p' → IsSound m' → IsSound m
trigger_remembers Trigger.write_fails ok = absurd (clash ok.0)
trigger_remembers mv ok = ok

poll_remembers :
    {m m' : Poller} {pc : ℕ → TriggerPc} {l l' : PollingPc}
    → Polling m pc l m' l'
    → IsSound m'
    → IsSound m
poll_remembers Polling.rewrite_fails ok = absurd (clash ok.0)
poll_remembers (Polling.tasks_overflow _) ok = absurd (clash ok.1)
poll_remembers (Polling.urgent_overflow _) ok = absurd (clash ok.1)
poll_remembers mv ok = ok

Reach-Inv : {s : System} → Reach s → IsSound s.mem → Inv s.mem s.pc s.loop
Reach-Inv start ok = record {
  flag = λ set. absurd (set refl);
  tasks = λ some_task. absurd (some_task refl);
  urgent = λ some_task. absurd (some_task refl);
}
Reach-Inv (later r (trigger i mv)) ok =
    trigger-Inv (Reach-Inv r (trigger_remembers mv ok)) i mv refl ok
Reach-Inv (later r (poll mv)) ok = poll-Inv mv ok (Reach-Inv r (poll_remembers mv ok))

-- In every state that the event loop and any number of goroutines in `Trigger` and
-- `UrgentTrigger` can reach, in any order of their steps, if no write to the eventfd has failed
-- with another error than EAGAIN, and `IsEmpty` has not called a queue of 2 ^ 32 tasks or more
-- empty, whose counter had come round: while the loop waits and a task is in one of the two
-- queues, the eventfd is readable or some goroutine is not done with its call.
pub no_lost_wakeup :
    {s : System} {d : Bool}
    → Reach s
    → s.mem.write_failed ≡ false
    → s.mem.overflowed ≡ false
    → s.loop ≡ waiting d
    → (s.mem.async_task_queue ≢ []) ⊎ (s.mem.urgent_async_task_queue ≢ [])
    → (0 < s.mem.efd) ⊎ ((i : ℕ) × (s.pc i ≢ outside))
no_lost_wakeup {s} r ok fits waits task =
    let inv = Reach-Inv r (ok, fits) in
    elim task [
      | inl some_task ↦ outcome serves (ap serves waits) (inv.tasks some_task)
      | inr some_task ↦ outcome serves_urgent (ap serves_urgent waits) (inv.urgent some_task)
    ]
  where
    outcome :
        (b : PollingPc → Bool)
        → b s.loop ≡ false
        → Signal is_pending b s.mem s.pc s.loop
        → (0 < s.mem.efd) ⊎ ((i : ℕ) × (s.pc i ≢ outside))
    outcome b idle (Signal.readable pos) = inl pos
    outcome b idle (Signal.by_goroutine i e) = inr (i, λ out. clash (sym e ∙ ap is_pending out))
    outcome b idle (Signal.by_loop e) = absurd (clash (sym e ∙ idle))
