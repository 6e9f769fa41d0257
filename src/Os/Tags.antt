-- ===== src/Os/Tags.antt =====
-- What the functions of the scheduler keep for the processors: every ready process stands in the
-- queue of its priority, and no priority has more slots than it is dealt, or less than none.
use hcmut_os_ossim_sierra.Prelude.{ℕ, ◌≡◌, sym, ◌∙◌, Option, some}
use hcmut_os_ossim_sierra.Sched.{Sched}
use hcmut_os_ossim_sierra.Sched.Members.{SchedHolds}
use hcmut_os_ossim_sierra.Sched.Members.{SchedHolds}
use hcmut_os_ossim_sierra.Os.{Pcb}
use hcmut_os_ossim_sierra.Os.Running.{Older}

-- A process that is there has this priority.
abbrev pub Tag : (ℕ → Option Pcb) → ℕ → ℕ → Type 0
Tag pcb i p = (d : Pcb) → pcb p ≡ some d → d.prio ≡ i

pub Tag-Older :
    (now was : ℕ → Option Pcb) (s : Sched)
    → Older now was
    → SchedHolds (Tag was) s
    → SchedHolds (Tag now) s
Tag-Older now was s older v = record {
  running = v.running;
  ready = λ i h. record {
    valid = (v.ready i h).valid;
    only = λ p m d e. let (d', e', same) = older p d e in sym same ∙ (v.ready i h).only p m d' e';
  };
}
