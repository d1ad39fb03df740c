-- ===== src/TaskQueue/System.antt =====
-- Goroutines over one queue, interleaved in any order, with the events of the run so far.
use gtcp.Prelude.{ℕ, List, [], ◌∷◌, ◌++◌}
use gtcp.TaskQueue.{Queue, new_lock_free_queue, Pc, Event, Move, TaskPointer}
use gtcp.TaskQueue.Threads.{update}

pub record System : Type 0 where
  pub mem : Queue
  pub pc : ℕ → Pc

abbrev pub init : System
init = record { mem = new_lock_free_queue; pc = λ _. Pc.idle }

pub data Step (s : System) : Event → System → Type 0 where
  pick :
      (i : ℕ) {e : Event} {m : Queue} {p : Pc}
      → Move s.mem (s.pc i) e m p
      → Step s e (record { mem = m; pc = update s.pc i p })

-- Events in the order they happened.
pub data Reach : List Event → System → Type 0 where
  start : Reach [] init
  later :
      {es : List Event} {e : Event} {s t : System}
      → Reach es s
      → Step s e t
      → Reach (es ++ e ∷ []) t

-- The tasks put in, and the tasks taken out, in order.
abbrev pub arrivals : List Event → List TaskPointer
arrivals [] = []
arrivals (Event.enqueued task ∷ es) = task ∷ arrivals es
arrivals (_ ∷ es) = arrivals es

abbrev pub departures : List Event → List TaskPointer
departures [] = []
departures (Event.dequeued task ∷ es) = task ∷ departures es
departures (_ ∷ es) = departures es
