-- ===== src/TaskQueue/Tests.antt =====
-- Two goroutines at one queue, step by step.
use gtcp.Prelude.{ℕ, ◌≡◌, ◌≢◌, ◌↔◌, ◌⊎◌, none, some, List, [], ◌∷◌, ◌++◌, true, arith, refl}
use native.Mathlib.Decide.{ℕ_discrete}
use gtcp.TaskQueue.{Queue, next_of, is_empty, Pc, Event, Move, TaskPointer}
use gtcp.TaskQueue.System.{System, Step, pick, Reach, start, later, arrivals, departures}
use gtcp.TaskQueue.Contents.{Contents}
use gtcp.TaskQueue.Fifo.{Reach-Fifo, never_panics, tail_lags}
use gtcp.TaskQueue.Length.{is_empty-exact}
use gtcp.TaskQueue.Alone.{Finishes, enqueue-Finishes, dequeue-Finishes}

record Run : Type 0 where
  events : List Event
  last : System
  reach : Reach events last

abbrev then :
    (r : Run) (i : ℕ) {e : Event} {m : Queue} {p : Pc} → Move r.last.mem (r.last.pc i) e m p → Run
then r i mv = record { events = _; last = _; reach = later r.reach (pick i mv) }

abbrev nothing : Run
nothing = record { events = _; last = _; reach = start }

-- Goroutine 0 is about to link task 7.
abbrev checked : Run
unfolding ℕ_discrete
checked =
    then
      (then (then (then nothing 0 (Move.call_enqueue (some 7))) 0 Move.enq_load_tail) 0
        Move.enq_load_next)
      0 (Move.enq_check refl)

-- It has, and the tail is one node behind.
abbrev linked : Run
unfolding ℕ_discrete
linked = then checked 0 (Move.link refl)

abbrev counted : Run
unfolding ℕ_discrete
counted = then (then linked 0 (Move.swing refl)) 0 Move.count_up

-- Goroutine 1 has a node for task 9.
abbrev second : Run
unfolding ℕ_discrete
second = then linked 1 (Move.call_enqueue (some 9))

linked_holds : Contents linked.last.mem (some 7 ∷ [])
unfolding ℕ_discrete
linked_holds = (1, refl, refl, refl)

counted_holds : Contents counted.last.mem (some 7 ∷ [])
unfolding ℕ_discrete
counted_holds = (1, refl, refl, refl)

counted_idle : (i : ℕ) → counted.last.pc i ≡ Pc.idle
unfolding ℕ_discrete
counted_idle i = ground arith

linking : Step checked.last (Event.enqueued (some 7)) linked.last
unfolding ℕ_discrete
linking = pick 0 {p = Pc.enq_linked 1 0} (Move.link {task = some 7} {x = 1} {t = 0} refl)

Reach-Fifo_example :
    (ts : List TaskPointer) × Contents linked.last.mem ts
    × (arrivals linked.events ≡ departures linked.events ++ ts)
Reach-Fifo_example = Reach-Fifo linked.reach

never_panics_example : linked.last.pc 0 ≢ Pc.panicked
never_panics_example = never_panics linked.reach 0

tail_lags_example :
    (next_of linked.last.mem linked.last.mem.tail ≡ none)
    ⊎ ((y : ℕ) × (next_of linked.last.mem linked.last.mem.tail ≡ some y)
        × (next_of linked.last.mem y ≡ none))
tail_lags_example = tail_lags linked.reach

is_empty-exact_example :
    (is_empty counted.last.mem ≡ true) ↔ (◌≡◌ {A = List TaskPointer} (some 7 ∷ []) [])
is_empty-exact_example = is_empty-exact counted.reach counted_idle counted_holds (omega arith)

enqueue-Finishes_example : Finishes second.last.mem (second.last.pc 1) (some 9 ∷ []) [] Pc.idle
unfolding ℕ_discrete
enqueue-Finishes_example = enqueue-Finishes {i = 1} second.reach refl

dequeue-Finishes_example : Finishes linked.last.mem Pc.deq [] (some 7 ∷ []) (Pc.returned (some 7))
dequeue-Finishes_example = dequeue-Finishes (some 7 ∷ []) linked.reach linked_holds
