-- ===== src/Wakeup/Tests.antt =====
-- One goroutine that triggers task 7.
use native.Mathlib.Decide.{ℕ_discrete}
use gtcp.Prelude.{ℕ, ◌<◌, ◌≢◌, ◌⊎◌, inl, false, Option, some, List, [], ◌∷◌, arith, refl}
use gtcp.Wakeup.{Poller, TriggerPc, outside, Trigger}
use gtcp.Wakeup.System.{System, trigger, Reach, start, later, init}
use gtcp.Wakeup.NoLostWakeup.{no_lost_wakeup}
use gtcp.Wakeup.Stranded.{Steps, none_yet, then, IsStranded, Piles, stranded_lem}

record Run : Type 0 where
  last : System
  reach : Reach last

abbrev triggered :
    (r : Run) (i : ℕ) {m : Poller} {p : TriggerPc} → Trigger r.last.mem (r.last.pc i) m p → Run
triggered r i mv = record { last = _; reach = later r.reach (trigger i mv) }

abbrev about_to_write : Run
unfolding ℕ_discrete
about_to_write =
    triggered
      (triggered (triggered (record { last = init; reach = start }) 0 (Trigger.enqueue (some 7))) 0
        Trigger.count)
      0 (Trigger.cas_win refl)

abbrev written : Run
unfolding ℕ_discrete
written = triggered about_to_write 0 Trigger.write

abbrev failed : Run
unfolding ℕ_discrete
failed = triggered about_to_write 0 Trigger.write_fails

cons-nil : {x : Option ℕ} {xs : List (Option ℕ)} → x ∷ xs ≢ []
cons-nil e = cc

no_lost_wakeup_example : (0 < written.last.mem.efd) ⊎ ((i : ℕ) × (written.last.pc i ≢ outside))
unfolding written
no_lost_wakeup_example = no_lost_wakeup {d = false} written.reach refl refl refl (inl cons-nil)

failed-IsStranded : IsStranded failed.last
unfolding ℕ_discrete
failed-IsStranded = record {
  flag = λ e. omega arith;
  unreadable = refl;
  nobody = λ i. ground arith;
  loop = refl;
}

abbrev later_task : System
unfolding ℕ_discrete
later_task = (triggered failed 1 (Trigger.enqueue (some 8))).last

triggering : Steps failed.last later_task
unfolding ℕ_discrete
triggering = then none_yet (trigger 1 (Trigger.enqueue (some 8)))

stranded_lem_example : IsStranded later_task × Piles failed.last.mem later_task.mem
stranded_lem_example = stranded_lem failed-IsStranded triggering
