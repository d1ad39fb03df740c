-- ===== src/Wakeup/Stranded.antt =====
-- After a write to the eventfd has failed, other than with EAGAIN, `wakeupCall` stays set.

use gtcp.Prelude.{
  ℕ, ◌≡◌, ◌≢◌, Bool, true, false, List, [], ◌∷◌, ◌++◌, arith, refl, sym, ap, ◌∙◌, append-nil,
  append_assoc,
}
use gtcp.TaskQueue.{TaskPointer}
use gtcp.TaskQueue.Threads.{update}
use gtcp.Wakeup.{Poller, TriggerPc, Trigger, PollingPc, waiting, handling, stopped, Polling}
use gtcp.Wakeup.System.{System, Step, trigger, poll}
use gtcp.Wakeup.Signal.{has_won}

pub data Steps (s : System) : System → Type 0 where
  none_yet : Steps s s
  then : {t u : System} → Steps s t → Step t u → Steps s u

-- The loop has no chores to do.
abbrev pub has_chores : PollingPc → Bool
has_chores (waiting false) = false
has_chores (handling false) = false
has_chores stopped = false
has_chores _ = true

-- The flag is set, and nobody is left who would write to the eventfd or reset it.
pub record IsStranded (s : System) : Type 0 where
  pub flag : s.mem.wakeup_call ≢ 0
  pub unreadable : s.mem.efd ≡ 0
  pub nobody : (i : ℕ) → has_won (s.pc i) ≡ false
  pub loop : has_chores s.loop ≡ false

-- More tasks in the queues, and none taken out.
pub record Piles (m m' : Poller) : Type 0 where
  pub tasks : List TaskPointer
  pub urgent : List TaskPointer
  pub async : m'.async_task_queue ≡ m.async_task_queue ++ tasks
  pub urgent_async : m'.urgent_async_task_queue ≡ m.urgent_async_task_queue ++ urgent

same-Piles :
    (m m' : Poller)
    → m'.async_task_queue ≡ m.async_task_queue
    → m'.urgent_async_task_queue ≡ m.urgent_async_task_queue
    → Piles m m'
same-Piles m m' e f = record {
  tasks = [];
  urgent = [];
  async = e ∙ sym (append-nil m.async_task_queue);
  urgent_async = f ∙ sym (append-nil m.urgent_async_task_queue);
}

Piles-trans : {m m' m'' : Poller} → Piles m m' → Piles m' m'' → Piles m m''
Piles-trans {m} a b = record {
  tasks = a.tasks ++ b.tasks;
  urgent = a.urgent ++ b.urgent;
  async =
      b.async ∙ ap (λ ts. ts ++ b.tasks) a.async ∙ append_assoc m.async_task_queue a.tasks b.tasks;
  urgent_async =
      b.urgent_async
      ∙ ap (λ ts. ts ++ b.urgent) a.urgent_async
      ∙ append_assoc m.urgent_async_task_queue a.urgent b.urgent;
}

-- What a step of a goroutine leaves, in a stranded poller.
record Stays (m m' : Poller) (p' : TriggerPc) : Type 0 where
  flag : m'.wakeup_call ≢ 0
  unreadable : m'.efd ≡ 0
  not_me : has_won p' ≡ false
  piles : Piles m m'

trigger-Stays :
    {m m' : Poller} {p p' : TriggerPc}
    → Trigger m p m' p'
    → m.wakeup_call ≢ 0
    → m.efd ≡ 0
    → has_won p ≡ false
    → Stays m m' p'
trigger-Stays {m} (Trigger.enqueue_urgent task) set zero_efd me = record {
  flag = set;
  unreadable = zero_efd;
  not_me = refl;
  piles = record {
    tasks = [];
    urgent = task ∷ [];
    async = sym (append-nil m.async_task_queue);
    urgent_async = refl;
  };
}
trigger-Stays {m} (Trigger.enqueue task) set zero_efd me = record {
  flag = set;
  unreadable = zero_efd;
  not_me = refl;
  piles = record {
    tasks = task ∷ [];
    urgent = [];
    async = refl;
    urgent_async = sym (append-nil m.urgent_async_task_queue);
  };
}
trigger-Stays {m} Trigger.count set zero_efd me = record {
  flag = set;
  unreadable = zero_efd;
  not_me = refl;
  piles = same-Piles m m refl refl;
}
trigger-Stays (Trigger.cas_win unset) set zero_efd me = absurd (set unset)
trigger-Stays {m} (Trigger.cas_lose _) set zero_efd me = record {
  flag = set;
  unreadable = zero_efd;
  not_me = refl;
  piles = same-Piles m m refl refl;
}
trigger-Stays mv set zero_efd me = cc

record Idles (m m' : Poller) (l' : PollingPc) : Type 0 where
  same : m' ≡ m
  loop : has_chores l' ≡ false

poll-Idles :
    {m m' : Poller} {pc : ℕ → TriggerPc} {l l' : PollingPc}
    → Polling m pc l m' l'
    → m.efd ≡ 0
    → has_chores l ≡ false
    → Idles m m' l'
poll-Idles (Polling.wakes {d = true}) zero_efd idle = cc
poll-Idles (Polling.wakes {d = false}) zero_efd idle = record { same = refl; loop = refl }
poll-Idles Polling.wait_error zero_efd idle = record { same = refl; loop = refl }
poll-Idles (Polling.read_efd pos) zero_efd idle = absurd (omega arith)
poll-Idles Polling.callback_stops zero_efd idle = record { same = refl; loop = refl }
poll-Idles Polling.no_chores zero_efd idle = record { same = refl; loop = refl }
poll-Idles mv zero_efd idle = cc

Step-IsStranded : {s t : System} → Step s t → IsStranded s → IsStranded t × Piles s.mem t.mem
Step-IsStranded {s} (trigger i {m} {p} mv) h =
    let r = trigger-Stays mv h.flag h.unreadable (h.nobody i) in
    (
      record { flag = r.flag; unreadable = r.unreadable; nobody = nobody r.not_me; loop = h.loop },
      r.piles,
    )
  where
    nobody : has_won p ≡ false → (j : ℕ) → has_won (update s.pc i p j) ≡ false
    nobody not_me j = ground (arith, h.nobody j)
Step-IsStranded {s} (poll {m} {l} mv) h =
    let r = poll-Idles mv h.unreadable h.loop in
    (
      record {
        flag = λ e. h.flag (ap (λ n. n.wakeup_call) (sym r.same) ∙ e);
        unreadable = ap (λ n. n.efd) r.same ∙ h.unreadable;
        nobody = h.nobody;
        loop = r.loop;
      },
      same-Piles s.mem m (ap (λ n. n.async_task_queue) r.same)
          (ap (λ n. n.urgent_async_task_queue) r.same),
    )

-- When `wakeupCall` is set, the eventfd is not readable, no goroutine is about to write to it
-- and the loop has no chores, as after a `Trigger` whose write failed, this stays so whatever
-- happens: the loop never takes a task out of a queue again, and `Trigger` only adds to them.
pub stranded_lem : {s t : System} → IsStranded s → Steps s t → IsStranded t × Piles s.mem t.mem
stranded_lem {s} h none_yet = (h, same-Piles s.mem s.mem refl refl)
stranded_lem h (then run st) =
    let (h', piled) = stranded_lem h run in
    let (h'', more) = Step-IsStranded st h' in (h'', Piles-trans piled more)
