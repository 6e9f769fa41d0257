-- ===== src/Os/Stopping.antt =====
-- When a processor leaves its loop.
use hcmut_os_ossim_sierra.Prelude.{
  ℕ, ◌<◌, ◌≡◌, refl, Bool, true, false, none, some, List, ◌==◌, if◌then◌else◌, update, arith,
  length,
}
use hcmut_os_ossim_sierra.Prelude.Partial.{Whenever, Whenever-bind, Whenever-some, if_cases}
use hcmut_os_ossim_sierra.Sched.{max_prio, update_slot, put_proc, get_slot}
use hcmut_os_ossim_sierra.Sched.Pick.{pick, occupied}
use hcmut_os_ossim_sierra.Sched.Ready.{get_proc-eq-pick}
use hcmut_os_ossim_sierra.Sched.Members.{
  SchedHolds, pick-zero, put_proc-SchedHolds, update_slot-SchedHolds,
}
use hcmut_os_ossim_sierra.Mm.{VmRg}
use hcmut_os_ossim_sierra.Os.{
  Machine, CpuState, Outcome, next_slot, stops, run_proc, pick_up, run_slot, recheck, from_idle,
  from_finished, from_expired, go_on_with, cpu_round,
}

abbrev NoneReady : Machine → Type 0
NoneReady m = (i : ℕ) → i < max_prio → occupied m.sched i ≡ false

-- What a processor that stops has seen.
abbrev Idle : Bool → Outcome → Type 0
Idle done (next_slot m c) = Unit
Idle done (stops m) = (done ≡ true) × NoneReady m

-- The queues hold valid processes, of whatever kind.
abbrev pub Valid : Machine → Type 0
Valid m = SchedHolds (λ _ _. Unit) m.sched

module _ (stale : List ℕ) (junk : ℕ) (stale_rg : List VmRg) where
  pick_up-Idle :
      (m : Machine) (c : CpuState)
      → Valid m
      → Whenever (λ r. r.1.proc ≡ 0 → NoneReady r.0) (pick_up stale junk stale_rg m c)
  unfolding pick_up
  pick_up-Idle m c v = rw (get_proc-eq-pick m.sched) (
      if_cases (Whenever (λ (r : Machine × CpuState). r.1.proc ≡ 0 → NoneReady r.0))
        ((pick m.sched).0 == 0) _ _ (λ e z. pick-zero _ m.sched v (ground arith))
        λ e.
          Whenever-bind (λ (r : Machine × CpuState). r.1.proc ≡ 0 → NoneReady r.0)
            (m.pcb (pick m.sched).0) _
            λ d o.
              Whenever-bind (λ (r : Machine × CpuState). r.1.proc ≡ 0 → NoneReady r.0)
                (get_slot (pick m.sched).1 d.prio) _ λ slot o' z. absurd (ground (arith, e)))

  module _ (time_slot : ℕ) (done : Bool) where
    stops_if_done :
        (m : Machine) (c : CpuState) (b : Bool)
        → done ≡ b
        → NoneReady m
        → Idle done (if b then stops m else next_slot m c)
    stops_if_done m c true e h = (e, h)
    stops_if_done m c false e h = tt

    recheck-Idle :
        (m : Machine) (c : CpuState)
        → (c.proc ≡ 0 → NoneReady m)
        → Whenever (Idle done) (recheck stale junk stale_rg time_slot done m c)
    unfolding recheck run_slot
    recheck-Idle m c h =
        if_cases (Whenever (Idle done)) (c.proc == 0) _ _
          (λ e. stops_if_done m c done refl (h (ground arith)))
          λ e.
            if_cases (Whenever (Idle done)) (c.time_left == 0) _ _
              (λ z. Whenever-bind (Idle done) (run_proc stale junk stale_rg m _) _ λ m' o. tt)
              (λ z. Whenever-bind (Idle done) (run_proc stale junk stale_rg m _) _ λ m' o. tt)

    from_idle-Idle :
        (m : Machine) (c : CpuState)
        → Valid m
        → Whenever (Idle done) (from_idle stale junk stale_rg time_slot done m c)
    unfolding from_idle
    from_idle-Idle m c v = Whenever-bind (Idle done) (pick_up stale junk stale_rg m c) _ λ r o.
        let h = Whenever-some _ _ o (pick_up-Idle m c v) in
        if_cases (Whenever (Idle done)) (r.1.proc == 0) _ _
          (λ e. stops_if_done r.0 r.1 done refl (h (ground arith))) (λ e. recheck-Idle r.0 r.1 h)

    from_finished-Idle :
        (m : Machine) (c : CpuState) (prio : ℕ)
        → Valid m
        → Whenever (Idle done) (from_finished stale junk stale_rg time_slot done m c prio)
    unfolding from_finished
    from_finished-Idle m c prio v =
        Whenever-bind (Idle done) (update_slot m.sched prio c.use_time) _ λ s o.
          let m1 = record m { sched = s; pcb = update m.pcb c.proc none } in
          Whenever-bind (Idle done) (pick_up stale junk stale_rg m1 c) _ λ r o'.
            recheck-Idle r.0 (record r.1 { time_left = 0; use_time = 0 })
              (Whenever-some _ _ o'
                (pick_up-Idle m1 c (update_slot-SchedHolds _ m.sched v prio c.use_time o)))

    from_expired-Idle :
        (m : Machine) (c : CpuState) (prio : ℕ)
        → Valid m
        → Whenever (Idle done) (from_expired stale junk stale_rg time_slot done m c prio)
    unfolding from_expired
    from_expired-Idle m c prio v = Whenever-bind (Idle done) (put_proc m.sched c.proc prio) _ λ s o.
        Whenever-bind (Idle done) (update_slot s prio c.use_time) _ λ s' o'.
          let m1 = record m { sched = s' } in
          Whenever-bind (Idle done) (pick_up stale junk stale_rg m1 c) _ λ r o''.
            recheck-Idle r.0 r.1 (
              Whenever-some _ _ o'' (
                pick_up-Idle m1 c (
                  update_slot-SchedHolds _ s (put_proc-SchedHolds _ m.sched v c.proc prio tt o).0
                    prio c.use_time o')))

    round-Idle :
        (m : Machine) (c : CpuState)
        → Valid m
        → Whenever (Idle done) (cpu_round stale junk stale_rg time_slot done m c)
    unfolding cpu_round go_on_with
    round-Idle m c v =
        if_cases (Whenever (Idle done)) (c.proc == 0) _ _ (λ e. from_idle-Idle m c v)
          λ e. Whenever-bind (Idle done) (m.pcb c.proc) _ λ d o.
            if_cases (Whenever (Idle done)) (d.pc == length d.code) _ _
              (λ f. from_finished-Idle m c d.prio v)
              λ f.
                if_cases (Whenever (Idle done)) (c.time_left == 0) _ _
                  (λ z. from_expired-Idle m c d.prio v)
                  (λ z. recheck-Idle m c (λ q. absurd (ground arith)))

    -- A processor leaves its loop only if the loader has set `done` and no queue of the scheduler
    -- holds a process any more, while the queues are valid.
    pub cpu_round-stops :
        (m : Machine) (c : CpuState) {m' : Machine}
        → Valid m
        → cpu_round stale junk stale_rg time_slot done m c ≡ some (stops m')
        → (done ≡ true) × ((i : ℕ) → i < max_prio → occupied m'.sched i ≡ false)
    cpu_round-stops m c v e = Whenever-some (Idle done) _ e (round-Idle m c v)
