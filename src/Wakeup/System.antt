-- ===== src/Wakeup/System.antt =====
-- The event loop and any number of goroutines that trigger tasks, interleaved in any order.
use gtcp.Prelude.{ℕ}
use gtcp.TaskQueue.Threads.{update}
use gtcp.Wakeup.{Poller, new_poller, TriggerPc, outside, Trigger, PollingPc, waiting, Polling}
use gtcp.Prelude.{false}

pub record System : Type 0 where
  pub mem : Poller
  pub pc : ℕ → TriggerPc
  pub loop : PollingPc

abbrev pub init : System
init = record { mem = new_poller; pc = λ _. outside; loop = waiting false }

pub data Step (s : System) : System → Type 0 where
  trigger :
      (i : ℕ) {m : Poller} {p : TriggerPc}
      → Trigger s.mem (s.pc i) m p
      → Step s (record { mem = m; pc = update s.pc i p; loop = s.loop })
  poll :
      {m : Poller} {l : PollingPc}
      → Polling s.mem s.pc s.loop m l
      → Step s (record { mem = m; pc = s.pc; loop = l })

pub data Reach : System → Type 0 where
  start : Reach init
  later : {s t : System} → Reach s → Step s t → Reach t
