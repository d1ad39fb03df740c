-- ===== src/Wakeup/Signal.antt =====
-- What will bring the event loop to its tasks: a readable eventfd, a goroutine that is not done with
-- `Trigger`, or the loop itself before the end of its chores.

use native.Mathlib.Decide.{ℕ_discrete}
use gtcp.Prelude.{ℕ, ◌≤◌, ◌<◌, ◌≡◌, Bool, true, false, arith, refl, ap, ◌∙◌}
use gtcp.TaskQueue.Threads.{update, update_same, update_other}
use gtcp.Wakeup.{
  Poller, TriggerPc, outside, won, PollingPc, handling, run_urgent, run_tasks, storing, checking,
  checking_urgent, rearming, writing, stopped,
}

abbrev pub has_won : TriggerPc → Bool
has_won won = true
has_won _ = false

abbrev pub is_pending : TriggerPc → Bool
is_pending outside = false
is_pending _ = true

-- The loop will store 0 in `wakeupCall`, or write to the eventfd. One that has stopped owes nothing.
abbrev pub resets : PollingPc → Bool
resets (handling true) = true
resets run_urgent = true
resets (run_tasks _) = true
resets storing = true
resets writing = true
resets stopped = true
resets _ = false

-- The loop will look at the queue of tasks again.
abbrev pub serves : PollingPc → Bool
serves checking = true
serves rearming = true
serves l = resets l

-- The same for the urgent tasks, which it looks at last.
abbrev pub serves_urgent : PollingPc → Bool
serves_urgent checking_urgent = true
serves_urgent l = serves l

pub data Signal (f : TriggerPc → Bool) (b : PollingPc → Bool) (m : Poller) (pc : ℕ → TriggerPc)
    (l : PollingPc) : Type 0 where
  readable : 0 < m.efd → Signal f b m pc l
  by_goroutine : (i : ℕ) → f (pc i) ≡ true → Signal f b m pc l
  by_loop : b l ≡ true → Signal f b m pc l

module _ {f : TriggerPc → Bool} {b : PollingPc → Bool} (pc : ℕ → TriggerPc) where
  pub trigger-Signal :
      {m m' : Poller} {l : PollingPc} (i : ℕ) (p' : TriggerPc)
      → m.efd ≤ m'.efd
      → (f (pc i) ≡ true → Signal f b m' (update pc i p') l)
      → Signal f b m pc l
      → Signal f b m' (update pc i p') l
  trigger-Signal i p' le mine (Signal.readable pos) = Signal.readable (omega arith)
  trigger-Signal i p' le mine (Signal.by_goroutine j e) = elim (ℕ_discrete i j) [
    | yes same ↦ mine (ap (λ k. f (pc k)) same ∙ e)
    | no other ↦ Signal.by_goroutine j (ap f (update_other pc i p' j other) ∙ e)
  ]
  trigger-Signal i p' le mine (Signal.by_loop e) = Signal.by_loop e

  pub mover-Signal :
      {m : Poller} {l : PollingPc} (i : ℕ) (p' : TriggerPc)
      → f p' ≡ true
      → Signal f b m (update pc i p') l
  mover-Signal i p' e = Signal.by_goroutine i (ap f (update_same pc i p') ∙ e)

  pub poll-Signal :
      {m m' : Poller} {l l' : PollingPc}
      → (0 < m.efd → Signal f b m' pc l')
      → (b l ≡ true → Signal f b m' pc l')
      → Signal f b m pc l
      → Signal f b m' pc l'
  poll-Signal efd loop (Signal.readable pos) = efd pos
  poll-Signal efd loop (Signal.by_goroutine i e) = Signal.by_goroutine i e
  poll-Signal efd loop (Signal.by_loop e) = loop e

-- Who has won the flag is not done; who resets it comes back to both queues.
pub won-Signal :
    {m : Poller} {pc : ℕ → TriggerPc} {l : PollingPc}
    → Signal has_won resets m pc l
    → Signal is_pending serves m pc l × Signal is_pending serves_urgent m pc l
won-Signal (Signal.readable pos) = (Signal.readable pos, Signal.readable pos)
won-Signal {pc} (Signal.by_goroutine i e) =
    (Signal.by_goroutine i (pending (pc i) e), Signal.by_goroutine i (pending (pc i) e))
  where
    pending : (p : TriggerPc) → has_won p ≡ true → is_pending p ≡ true
    pending won e = refl
    pending _ e = cc
won-Signal {l} (Signal.by_loop e) =
    (Signal.by_loop (serving l e), Signal.by_loop (serving_urgent l e))
  where
    serving : (l : PollingPc) → resets l ≡ true → serves l ≡ true
    serving checking e = refl
    serving rearming e = refl
    serving l e = e

    serving_urgent : (l : PollingPc) → resets l ≡ true → serves_urgent l ≡ true
    serving_urgent checking e = refl
    serving_urgent rearming e = refl
    serving_urgent checking_urgent e = refl
    serving_urgent l e = e
