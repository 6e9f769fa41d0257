-- ===== src/Os/Queues.antt =====
-- The queues of sched.c under everything that the threads of os.c do to them.
use hcmut_os_ossim_sierra.Prelude.{ℕ, ◌≡◌, some, List}
use hcmut_os_ossim_sierra.Prelude.Partial.{Whenever-some}
use hcmut_os_ossim_sierra.Sched.{Sched, init_scheduler, get_proc, put_proc, add_proc, update_slot}
use hcmut_os_ossim_sierra.Sched.Ready.{
  IsReady, init_scheduler-IsReady, get_proc-IsReady, put_proc-IsReady, add_proc-IsReady,
  update_slot-IsReady,
}
use hcmut_os_ossim_sierra.Sched.Members.{SchedHolds}
use hcmut_os_ossim_sierra.Mm.{VmRg}
use hcmut_os_ossim_sierra.Killall.Members.{KeepsSched}
use hcmut_os_ossim_sierra.Syscall.{Env}
use hcmut_os_ossim_sierra.Cpu.{Process, run}
use hcmut_os_ossim_sierra.Cpu.Queues.{run-KeepsSched}

-- The calls of sched.c, and an instruction of a process, which may be a `killall`.
pub data Step (s : Sched) (t : Sched) : Type 0 where
  gets : (p : ℕ) → get_proc s ≡ some (p, t) → Step s t
  puts : (p prio : ℕ) → put_proc s p prio ≡ some t → Step s t
  adds : (p prio : ℕ) → add_proc s p prio ≡ some t → Step s t
  updates : (prio used_time : ℕ) → update_slot s prio used_time ≡ some t → Step s t
  runs :
      (env : Env) (stale_rg : List VmRg) (stat : ℕ) (proc proc' : Process) (freed : List ℕ)
      → run env stale_rg s proc ≡ some (stat, t, proc', freed)
      → Step s t

pub data Reach (raw : Sched) : Sched → Type 0 where
  start : Reach raw (init_scheduler raw)
  later : {s t : Sched} → Reach raw s → Step s t → Reach raw t

abbrev Anywhere : ℕ → ℕ → Type 0
Anywhere prio p = Unit

to_SchedHolds : {s : Sched} → IsReady s → SchedHolds Anywhere s
to_SchedHolds v = record {
  running = v.running;
  ready = λ i h. record { valid = v.ready i h; only = λ p m. tt };
}

of_SchedHolds : {s : Sched} → SchedHolds Anywhere s → IsReady s
of_SchedHolds v = record { running = v.running; ready = λ i h. (v.ready i h).valid }

Step-IsReady : (s t : Sched) → Step s t → IsReady s → IsReady t
Step-IsReady s t (gets p e) v = get_proc-IsReady s p e v
Step-IsReady s t (puts p prio e) v = put_proc-IsReady s p prio e v
Step-IsReady s t (adds p prio e) v = add_proc-IsReady s p prio e v
Step-IsReady s t (updates prio used e) v = update_slot-IsReady s prio used e v
Step-IsReady s t (runs env stale_rg stat proc proc' freed e) v =
    of_SchedHolds
      (Whenever-some (KeepsSched Anywhere s) _ e
        (run-KeepsSched Anywhere s (to_SchedHolds v) env stale_rg proc)).0

-- From `init_scheduler` on and whatever memory held before, after any calls of `get_proc`,
-- `put_proc`, `add_proc` and `update_slot` and any instructions of processes, `killall` among them,
-- no ready queue of the policy and no running list has more than MAX_QUEUE_SIZE processes, a process
-- twice, or a NULL.
pub Reach-IsReady : {raw s : Sched} → Reach raw s → IsReady s
Reach-IsReady {raw} start = init_scheduler-IsReady raw
Reach-IsReady (later {s} {t} r st) = Step-IsReady s t st (Reach-IsReady r)
