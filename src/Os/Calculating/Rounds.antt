-- ===== src/Os/Calculating/Rounds.antt =====
-- The rounds of the processor on processes that only calculate.
use hcmut_os_ossim_sierra.Prelude.{
  ℕ, zero, suc, ◌+◌, ◌<◌, ◌≡◌, ◌≢◌, refl, ◌∙◌, subst, Bool, true, false, Option, none, some, List,
  [], ◌∷◌, ◌==◌, if◌then◌else◌, All, length, get_elem?, update, update_self, update_ne, arith, ◌⊎◌,
  inl, inr, ◌>>=◌,
}
use native.Mathlib.Decide.{dec_lt}
use hcmut_os_ossim_sierra.Prelude.Partial.{Gives, Gives-bind, if_cases}
use hcmut_os_ossim_sierra.Sched.{Sched, max_prio, get_slot}
use hcmut_os_ossim_sierra.Sched.Pick.{pick}
use hcmut_os_ossim_sierra.Sched.Ready.{get_proc-eq-pick}
use hcmut_os_ossim_sierra.Sched.Members.{
  SchedHolds, put_proc-SchedHolds, update_slot-SchedHolds, put_proc-some, update_slot-some,
  get_slot-some,
}
use hcmut_os_ossim_sierra.Mm.{VmRg}
use hcmut_os_ossim_sierra.Cpu.{Inst, calc_op, Process, run}
use hcmut_os_ossim_sierra.Cpu.Progress.{run-calc, run-end}
use hcmut_os_ossim_sierra.Syscall.{Env}
use hcmut_os_ossim_sierra.Os.{
  Pcb, Machine, CpuState, Outcome, next_slot, stops, run_proc, pick_up, dispatch, run_slot, recheck,
  from_idle, from_finished, from_expired, go_on_with, cpu_round, free_all, process_of, env_of,
  is_killall,
}
use hcmut_os_ossim_sierra.Os.Calculating.{Calculates, Present, Waiting, Waiting-Present, pick-Taken}

abbrev OnCpu : Machine → ℕ → Type 0
OnCpu m p = (d : Pcb) × (m.pcb p ≡ some d) × Calculates d

-- The ready processes, and the one on the processor if there is one, calculate.
abbrev pub Live : Machine → CpuState → Type 0
Live m c =
    SchedHolds (Waiting m.pcb c.proc) m.sched × ((c.proc ≡ 0) ⊎ ((c.proc ≢ 0) × OnCpu m c.proc))

abbrev pub GoesOn : Outcome → Type 0
GoesOn (next_slot m c) = Live m c
GoesOn (stops m) = Unit

get_elem?-All :
    (xs : List Inst) (i : ℕ)
    → i < length xs
    → All (λ (x : Inst). x.opcode ≡ calc_op) xs
    → (x : Inst) × (get_elem? xs i ≡ some x) × (x.opcode ≡ calc_op)
get_elem?-All [] i h a = absurd (omega arith)
get_elem?-All (x ∷ xs) zero h a = (x, refl, a.0)
get_elem?-All (x ∷ xs) (suc i) h a = get_elem?-All xs i (omega (arith, h)) a.1

no_killall :
    (xs : List Inst) (i : ℕ)
    → All (λ (x : Inst). x.opcode ≡ calc_op) xs
    → is_killall (get_elem? xs i) ≡ false
no_killall [] i a = refl
no_killall (x ∷ xs) zero a = rw a.0
no_killall (x ∷ xs) (suc i) a = no_killall xs i a.1

-- `run` on such a program leaves the scheduler, the code and the memory, and frees no process.
run-calculates :
    (env : Env) (stale_rg : List VmRg) (s : Sched) (proc : Process)
    → All (λ (x : Inst). x.opcode ≡ calc_op) proc.code
    → (stat k : ℕ) × (run env stale_rg s proc ≡ some (stat, s, record proc { pc = k }, []))
run-calculates env stale_rg s proc a = elim (dec_lt proc.pc (length proc.code)) [
  | yes lt ↦
      let (ins, e, o) = get_elem?-All proc.code proc.pc lt a in
      (0, proc.pc + 1, run-calc env stale_rg s proc ins lt e o)
  | no ge ↦ (1, proc.pc, run-end env stale_rg s proc (omega arith))
]

-- Setting the process at `p` to one that calculates.
set-Waiting :
    (pcb : ℕ → Option Pcb) (p : ℕ) (o : Option Pcb) (s : Sched)
    → SchedHolds (Waiting pcb p) s
    → SchedHolds (Waiting (update pcb p o) p) s
set-Waiting pcb p o s v = record {
  running = v.running;
  ready = λ i h. record {
    valid = (v.ready i h).valid;
    only = λ q m.
        let ((d, e, prio, calc), ne) = (v.ready i h).only q m in
        ((d, update_ne pcb p q o ne ∙ e, prio, calc), ne);
  };
}

module _ (stale : List ℕ) (junk : ℕ) (stale_rg : List VmRg) where
  run_proc-Gives :
      (m : Machine) (p : ℕ)
      → SchedHolds (Waiting m.pcb p) m.sched
      → OnCpu m p
      → Gives
          (λ (m' : Machine). SchedHolds (Waiting m'.pcb p) m'.sched × OnCpu m' p)
          (run_proc stale junk stale_rg m p)
  unfolding run_proc
  run_proc-Gives m p v (d, e, calc) =
      let (stat, k, ran) =
        run-calculates (env_of stale junk stale_rg m) stale_rg m.sched (process_of m d) calc.1 in
      let d' : Pcb = record d { pc = k } in
      (
        record m { pcb = free_all [] (update m.pcb p (some d')) },
        rw (e, no_killall d.code d.pc calc.1, ran),
        (set-Waiting m.pcb p (some d') m.sched v, (d', update_self m.pcb p (some d'), calc)),
      )

  run_slot-Gives :
      (m : Machine) (c : CpuState)
      → SchedHolds (Waiting m.pcb c.proc) m.sched
      → c.proc ≢ 0
      → OnCpu m c.proc
      → Gives GoesOn (run_slot stale junk stale_rg m c)
  unfolding run_slot
  run_slot-Gives m c v ne on =
      Gives-bind _ GoesOn (run_proc stale junk stale_rg m c.proc) _ (run_proc-Gives m c.proc v on)
        λ m' (v', on'). (_, refl, (v', inr (ne, on')))

  module _ (time_slot : ℕ) (done : Bool) where
    idle :
        (m : Machine) (c : CpuState) (b : Bool)
        → Live m c
        → GoesOn (if b then stops m else next_slot m c)
    idle m c true v = tt
    idle m c false v = v

    recheck-Gives :
        (m : Machine) (c : CpuState)
        → Live m c
        → Gives GoesOn (recheck stale junk stale_rg time_slot done m c)
    unfolding recheck dispatch
    recheck-Gives m c (v, place) =
        if_cases Q (c.proc == 0) _ _ (λ e. (_, refl, idle m c done (v, place)))
          λ e.
            if_cases Q (c.time_left == 0) _ _
              (λ z.
                run_slot-Gives m (dispatch stale junk stale_rg time_slot c) v (ground arith)
                  (on place e))
              (λ z. run_slot-Gives m c v (ground arith) (on place e))
      where
        Q : Option Outcome → Type 0
        Q = Gives GoesOn

        on :
            ((c.proc ≡ 0) ⊎ ((c.proc ≢ 0) × OnCpu m c.proc))
            → (c.proc == 0) ≡ false
            → OnCpu m c.proc
        on (inl z) e = absurd (ground arith)
        on (inr (ne, here)) e = here

    -- What `pick_up` gives, from any state in which the ready processes calculate.
    pick_up-Gives :
        (m : Machine) (c : CpuState)
        → SchedHolds (Present m.pcb) m.sched
        → Gives (λ (r : Machine × CpuState). Live r.0 r.1) (pick_up stale junk stale_rg m c)
    unfolding pick_up
    pick_up-Gives m c v =
        let (queues, place) = pick-Taken m.pcb m.sched v in
        rw (get_proc-eq-pick m.sched) (
          if_cases (Gives (λ (r : Machine × CpuState). Live r.0 r.1)) ((pick m.sched).0 == 0) _ _
            (λ e.
              let z : (pick m.sched).0 ≡ 0 = ground arith in
              (
                _,
                refl,
                (subst (λ p. SchedHolds (Waiting m.pcb p) (pick m.sched).1) z queues, inl refl),
              ))
            (λ e. found (pick m.sched) queues place (ground arith)))
      where
        found :
            (r : ℕ × Sched)
            → SchedHolds (Waiting m.pcb r.0) r.1
            → ((r.0 ≡ 0) ⊎ ((i : ℕ) × (i < max_prio) × Present m.pcb i r.0))
            → r.0 ≢ 0
            → Gives
                (λ (r : Machine × CpuState). Live r.0 r.1)
                (m.pcb r.0 >>= λ d. get_slot r.1 d.prio >>= λ slot.
                  some (record m { sched = r.1 }, record c { proc = r.0; remaining_slot = slot }))
        found r queues (inl z) ne = absurd (ne z)
        found r queues (inr (i, lt, (d, e, prio, calc))) ne =
            rw (e, get_slot-some r.1 d.prio calc.0) (_, refl, (queues, inr (ne, (d, e, calc))))

    from_idle-Gives :
        (m : Machine) (c : CpuState)
        → SchedHolds (Present m.pcb) m.sched
        → Gives GoesOn (from_idle stale junk stale_rg time_slot done m c)
    unfolding from_idle
    from_idle-Gives m c v =
        Gives-bind _ GoesOn (pick_up stale junk stale_rg m c) _ (pick_up-Gives m c v) λ r live.
          if_cases (Gives GoesOn) (r.1.proc == 0) _ _ (λ e. (_, refl, idle r.0 r.1 done live))
            (λ e. recheck-Gives r.0 r.1 live)

    from_finished-Gives :
        (m : Machine) (c : CpuState) (d : Pcb)
        → SchedHolds (Waiting m.pcb c.proc) m.sched
        → Calculates d
        → Gives GoesOn (from_finished stale junk stale_rg time_slot done m c d.prio)
    unfolding from_finished
    from_finished-Gives m c d v calc =
        let (s, o) = update_slot-some m.sched d.prio c.use_time calc.0 in
        let freed : ℕ → Option Pcb = update m.pcb c.proc none in
        let m1 = record m { sched = s; pcb = freed } in
        let v1 : SchedHolds (Waiting freed c.proc) s =
          set-Waiting m.pcb c.proc none s
            (update_slot-SchedHolds _ m.sched v d.prio c.use_time o) in
        rw o (
          Gives-bind _ GoesOn (pick_up stale junk stale_rg m1 c) _
            (pick_up-Gives m1 c (Waiting-Present freed c.proc s v1))
            λ r live. recheck-Gives r.0 (record r.1 { time_left = 0; use_time = 0 }) live)

    from_expired-Gives :
        (m : Machine) (c : CpuState) (d : Pcb)
        → SchedHolds (Waiting m.pcb c.proc) m.sched
        → m.pcb c.proc ≡ some d
        → Calculates d
        → Gives GoesOn (from_expired stale junk stale_rg time_slot done m c d.prio)
    unfolding from_expired
    from_expired-Gives m c d v e calc =
        let (s, o) = put_proc-some m.sched c.proc d.prio calc.0 in
        let (s', o') = update_slot-some s d.prio c.use_time calc.0 in
        let m1 = record m { sched = s' } in
        let put =
          (put_proc-SchedHolds (Present m.pcb) m.sched (Waiting-Present m.pcb c.proc m.sched v)
            c.proc d.prio (d, e, refl, calc) o).0 in
        rw (o, o')
          (Gives-bind _ GoesOn (pick_up stale junk stale_rg m1 c) _
            (pick_up-Gives m1 c (update_slot-SchedHolds _ s put d.prio c.use_time o'))
            λ r live. recheck-Gives r.0 r.1 live)

    -- While the ready processes and the one on the processor do nothing but CALC, with priorities in
    -- range, a round meets no undefined behaviour, whatever the times and slots are: it ends, and if
    -- the processor goes on, the same holds again, so that every further round is defined too.
    pub cpu_round-Gives :
        (m : Machine) (c : CpuState)
        → Live m c
        → Gives GoesOn (cpu_round stale junk stale_rg time_slot done m c)
    unfolding cpu_round go_on_with
    cpu_round-Gives m c (v, inl z) =
        if_cases (Gives GoesOn) (c.proc == 0) _ _
          (λ e. from_idle-Gives m c (Waiting-Present m.pcb c.proc m.sched v))
          (λ e. absurd (ground (arith, z)))
    cpu_round-Gives m c (v, inr (ne, (d, o, calc))) =
        if_cases (Gives GoesOn) (c.proc == 0) _ _
          (λ e. from_idle-Gives m c (Waiting-Present m.pcb c.proc m.sched v))
          λ e. rw o (
            if_cases (Gives GoesOn) (d.pc == length d.code) _ _
              (λ f. from_finished-Gives m c d v calc)
              λ f.
                if_cases (Gives GoesOn) (c.time_left == 0) _ _
                  (λ z. from_expired-Gives m c d v o calc)
                  (λ z. recheck-Gives m c (v, inr (ne, (d, o, calc)))))
