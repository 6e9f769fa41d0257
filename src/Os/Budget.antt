-- ===== src/Os/Budget.antt =====
-- With one processor: the slots of a priority are never overdrawn.
pub mod Rounds
use hcmut_os_ossim_sierra.Prelude.{
  ℕ, suc, ◌+◌, ◌-◌, ◌≤◌, ◌<◌, ◌≡◌, ◌≢◌, refl, sym, ap, ◌∙◌, subst, Bool, true, false, Option, none,
  some, List, ◌==◌, if◌then◌else◌, ltb, update, mem, Bool-cases, inl, inr, of_some, arith,
  require-eq-some, ltb→lt, Option-cases, ◌>>=◌, length,
}
use hcmut_os_ossim_sierra.Prelude.Partial.{Whenever, Whenever-bind, Whenever-some, if_cases}
use hcmut_os_ossim_sierra.Word.{add32, sub32, lt_int}
use hcmut_os_ossim_sierra.Sched.{
  Sched, max_prio, init_scheduler, update_slot, get_slot, get_proc, put_proc, add_proc,
}
use hcmut_os_ossim_sierra.Sched.Pick.{pick}
use hcmut_os_ossim_sierra.Sched.Ready.{get_proc-eq-pick}
use hcmut_os_ossim_sierra.Sched.Members.{Holds, SchedHolds, get_slot-eq-some, update_slot-lt}
use hcmut_os_ossim_sierra.Sched.Dealt.{Dealt, Chosen, pick-Dealt, put_proc-Dealt, update_slot-Dealt}
use hcmut_os_ossim_sierra.Mm.{VmRg}
use hcmut_os_ossim_sierra.Os.{
  Pcb, Machine, CpuState, Outcome, next_slot, stops, run_proc, pick_up, dispatch, run_slot, recheck,
  from_idle, from_finished, from_expired, go_on_with, cpu_round,
}
use hcmut_os_ossim_sierra.Os.Running.{Older, RunKeeps, run_proc_lem, freed-Older}
use hcmut_os_ossim_sierra.Os.Tags.{Tag, Tag-Older}

-- A running process has used, and may still use, no more than its priority has left.
abbrev pub Charge : Machine → CpuState → Type 0
Charge m c =
    (c.proc ≡ 0 → c.time_left ≡ 0)
    × ((d : Pcb)
        → c.proc ≢ 0
        → m.pcb c.proc ≡ some d
        → (d.prio < max_prio) × (c.time_left + c.use_time ≤ m.sched.slot d.prio))

pub record Within (m : Machine) (c : CpuState) : Type 0 where
  pub dealt : Dealt (Tag m.pcb) m.sched
  pub charge : Charge m c

-- Before a process is run: its time is within its slots, or it is to be dispatched, with the slots
-- of its priority at hand.
abbrev pub Ready : Machine → CpuState → Type 0
Ready m c =
    (c.proc ≡ 0 → c.time_left ≡ 0)
    × ((d : Pcb)
        → c.proc ≢ 0
        → m.pcb c.proc ≡ some d
        → (d.prio < max_prio)
          × (c.time_left ≡ 0 → (0 < c.remaining_slot) × (c.remaining_slot ≤ m.sched.slot d.prio))
          × (c.time_left ≢ 0 → c.time_left + c.use_time ≤ m.sched.slot d.prio))

abbrev pub Good : Outcome → Type 0
Good (next_slot m c) = Within m c
Good (stops m) = Dealt (Tag m.pcb) m.sched

-- What `pick_up` leaves: the times as they were, and the slots of the priority of what it has found.
pub record Picked (m : Machine) (c : CpuState) (r : Machine × CpuState) : Type 0 where
  pub same_pcb : r.0.pcb ≡ m.pcb
  pub dealt : Dealt (Tag m.pcb) r.0.sched
  pub times : (r.1.time_left ≡ c.time_left) × (r.1.use_time ≡ c.use_time)
  pub found :
      (d : Pcb)
      → r.1.proc ≢ 0
      → m.pcb r.1.proc ≡ some d
      → (d.prio < max_prio)
        × (0 < r.1.remaining_slot)
        × (r.1.remaining_slot ≡ r.0.sched.slot d.prio)

module _ (stale : List ℕ) (junk : ℕ) (stale_rg : List VmRg) where
  Chosen-found :
      (m : Machine) (r : ℕ × Sched) (d d' : Pcb) (slot : ℕ)
      → Chosen (Tag m.pcb) r
      → r.0 ≢ 0
      → m.pcb r.0 ≡ some d
      → m.pcb r.0 ≡ some d'
      → get_slot r.1 d.prio ≡ some slot
      → (d'.prio < max_prio) × (0 < slot) × (slot ≡ r.1.slot d'.prio)
  Chosen-found m r d d' slot (inl z) h e e' g = absurd (h z)
  Chosen-found m r d d' slot (inr (i, lt, tag, pos)) h e e' g =
      let (b, g') = get_slot-eq-some r.1 d.prio g in
      let same : d ≡ d' = of_some (sym e ∙ e') in
      let prio' : d'.prio ≡ i = tag d' e' in
      let prio : d.prio ≡ i = tag d e in
      let slot' : slot ≡ r.1.slot i = sym g' ∙ ap r.1.slot prio in
      let slot'' : slot ≡ r.1.slot d'.prio = slot' ∙ ap r.1.slot (sym prio') in
      (omega arith, omega arith, slot'')

  pub pick_up-Picked :
      (m : Machine) (c : CpuState)
      → Dealt (Tag m.pcb) m.sched
      → Whenever (Picked m c) (pick_up stale junk stale_rg m c)
  unfolding pick_up
  pick_up-Picked m c v =
      let (dealt, chosen) = pick-Dealt (Tag m.pcb) m.sched v in
      rw (get_proc-eq-pick m.sched) (elim (Bool-cases ((pick m.sched).0 == 0)) [
        | inl e ↦ rw e (record {
          same_pcb = refl;
          dealt = dealt;
          times = (refl, refl);
          found = λ d h. absurd (h refl);
        })
        | inr e ↦ rw e (
            Whenever-bind (Picked m c) (m.pcb (pick m.sched).0) _ λ d o.
              Whenever-bind (Picked m c) (get_slot (pick m.sched).1 d.prio) _ λ slot o'. record {
                same_pcb = refl;
                dealt = dealt;
                times = (refl, refl);
                found = λ d' h e'. Chosen-found m (pick m.sched) d d' slot chosen h o e' o';
              })
      ])

  -- The process runs for one slot that is its own.
  run_slot-Good :
      (m : Machine) (c : CpuState)
      → Dealt (Tag m.pcb) m.sched
      → ((d : Pcb)
          → m.pcb c.proc ≡ some d
          → (d.prio < max_prio)
            × (0 < c.time_left)
            × (c.time_left + c.use_time ≤ m.sched.slot d.prio))
      → c.proc ≢ 0
      → Whenever Good (run_slot stale junk stale_rg m c)
  unfolding run_slot
  run_slot-Good m c v h p = Whenever-bind Good (run_proc stale junk stale_rg m c.proc) _ λ m' o.
      let (queues, slot, older) =
        Whenever-some (RunKeeps (Tag m.pcb) m) _ o
          (run_proc_lem (Tag m.pcb) stale junk stale_rg m c.proc v.queues) in
      record {
        dealt = record {
          queues = Tag-Older m'.pcb m.pcb m'.sched older queues;
          slots = λ i hi. rw slot (v.slots i hi);
        };
        charge = (
          λ z. absurd (p z),
          λ d q e.
              let (d', e', same) = older c.proc d e in
              let (lt', pos, le) = h d' e' in
              let now : m'.sched.slot d.prio ≡ m.sched.slot d'.prio =
                ap (λ f. f d.prio) slot ∙ ap m.sched.slot (sym same) in
              (omega (arith, same), omega (arith, now, v.slots d'.prio lt')),
        );
      }

  -- `time_left = (time_slot < remaining_slot) ? time_slot : remaining_slot;`
  pub time_left-dispatch :
      (time_slot : ℕ) (c : CpuState)
      → 0 < time_slot
      → time_slot < 2147483648
      → 0 < c.remaining_slot
      → c.remaining_slot < 2147483648
      → (0 < (dispatch stale junk stale_rg time_slot c).time_left)
        × ((dispatch stale junk stale_rg time_slot c).time_left ≤ c.remaining_slot)
        × ((dispatch stale junk stale_rg time_slot c).time_left ≤ time_slot)
  unfolding dispatch
  time_left-dispatch time_slot c h h' k k' = ground arith

  pub recheck-Good :
      (time_slot : ℕ) (done : Bool) (m : Machine) (c : CpuState)
      → 0 < time_slot
      → time_slot < 2147483648
      → Dealt (Tag m.pcb) m.sched
      → Ready m c
      → Whenever Good (recheck stale junk stale_rg time_slot done m c)
  unfolding recheck dispatch
  recheck-Good time_slot done m c h h' v r =
      if_cases Q (c.proc == 0) _ _ (λ e. idle done (ground arith))
        λ e.
          if_cases Q (c.time_left == 0) _ _
            (λ z.
              run_slot-Good m (dispatch stale junk stale_rg time_slot c) v
                (λ d o.
                  let (lt, fresh, _) = r.1 d (ground arith) o in
                  let (pos, le) = fresh (ground arith) in
                  let small = v.slots d.prio lt in
                  let (quota, rest, _) = time_left-dispatch time_slot c h h' pos (omega arith) in
                  (lt, quota, omega arith))
                (ground arith))
            (λ z.
              run_slot-Good m c v
                (λ d o.
                  let (lt, _, le) = r.1 d (ground arith) o in (lt, ground arith, le (ground arith)))
                (ground arith))
    where
      Q : Option Outcome → Type 0
      Q = Whenever Good

      idle : (b : Bool) → c.proc ≡ 0 → Good (if b then stops m else next_slot m c)
      idle true z = v
      idle false z = record { dealt = v; charge = (r.0, λ d q. absurd (q z)) }
