-- ===== src/Os/Threads/Exclusion.antt =====
-- No two processors ever have the same process.
use hcmut_os_ossim_sierra.Prelude.{
  ℕ, suc, ◌-◌, ◌<◌, ◌≡◌, ◌≢◌, refl, sym, ap, ◌∙◌, some, none, List, update, arith,
}
use hcmut_os_ossim_sierra.Prelude.Partial.{Whenever-some}
use hcmut_os_ossim_sierra.Sched.Dealt.{init_scheduler-Dealt}
use hcmut_os_ossim_sierra.Sched.Apart.{Apart}
use hcmut_os_ossim_sierra.Mm.{VmRg}
use hcmut_os_ossim_sierra.Loader.{Loaded}
use hcmut_os_ossim_sierra.Timer.{
  Device, System, running, testing, called, returned, detached, detach_event,
}
use hcmut_os_ossim_sierra.Timer
use hcmut_os_ossim_sierra.Timer.Kept.{
  Kept, other-Kept, TimerRoutine-Kept, Unasked-Kept, stays, returns, NextSlot-Inside,
}
use hcmut_os_ossim_sierra.Os.{Machine, LdProcess, LdOutcome, waits, loads, all_done}
use hcmut_os_ossim_sierra.Os.Threads.{
  head, leaving, Cpu, at, work, Simulator, boot, enter, ld_device, after_ld, Step, Reach, works,
  yields, detaches, loader, loader_yields, loader_detaches, in_next_slot, timer, unasked,
  stop_timer, start, later,
}
use hcmut_os_ossim_sierra.Os.Threads.Timing.{Placed, Reach-Placed}
use hcmut_os_ossim_sierra.Os.Threads.Timing.Clock.{Reach-timed}
use hcmut_os_ossim_sierra.Os.Threads.Effects.{owned, owned_at, lent, lent_at, NoKillall, Effect}
use hcmut_os_ossim_sierra.Os.Threads.Effects.Work.{work-Effect}
use hcmut_os_ossim_sierra.Os.Threads.Owners.{Live, Usable, Owners, Programs}
use hcmut_os_ossim_sierra.Os.Threads.Owners.Moves.{Effect-Owners, kept-Owners}
use hcmut_os_ossim_sierra.Os.Threads.Loads.{ld_round_lem, Round, add-Owners}
use hcmut_os_ossim_sierra.Os.Threads.Lending.{
  Lending, Late-Kept, Lending-Kept, Effect-Lending, yield-Lending, return-Lending,
}

pub works-Effect :
    (stale : List ℕ) (junk : ℕ) (stale_rg : List VmRg) (time_slot : ℕ) (s : Simulator) (k : ℕ)
    {m : Machine} {c : Cpu}
    → Programs s.machine.pcb
    → work stale junk stale_rg time_slot s.done s.machine (s.cpu k).pc (s.cpu k).vars ≡ some (m, c)
    → Effect s.machine (s.cpu k) m c
works-Effect stale junk stale_rg time_slot s k programs e =
    Whenever-some (λ (r : Machine × Cpu). Effect s.machine (s.cpu k) r.0 r.1) _ e
      (work-Effect stale junk stale_rg time_slot s.done s.machine (s.cpu k).vars (s.cpu k).pc
        (programs (s.cpu k).vars.proc))

-- A processor that detaches has no process, and has lent none.
detach-Lending :
    {n : ℕ} (s : Simulator) (k : ℕ)
    → k < n
    → (s.cpu k).pc ≡ leaving
    → Lending n s.timer.device s.cpu
    → Lending n (update s.timer.device (n - k) (detached (s.timer.device (n - k)))) s.cpu
detach-Lending {n} s k lt e l j i lt' lt'' ne q =
    Late-Kept (s.cpu j).pc _ _ _ _
      (kept j lt' (λ same. ne (sym q ∙ ap (λ x. owned (s.cpu x)) same ∙ nothing)))
      (kept i lt'' (λ same. ne (ap (λ x. lent (s.cpu x)) same ∙ none_lent))).slots
      (l j i lt' lt'' ne q)
  where
    nothing : owned (s.cpu k) ≡ 0
    nothing = ap (λ pc. owned_at pc (s.cpu k).vars.proc) e

    none_lent : lent (s.cpu k) ≡ 0
    none_lent = ap (λ pc. lent_at pc (s.cpu k).vars.proc) e

    kept :
        (j : ℕ)
        → j < n
        → j ≢ k
        → Kept
            (s.timer.device (n - j))
            (update s.timer.device (n - k) (detached (s.timer.device (n - k))) (n - j))
    kept j lt' h = other-Kept s.timer.device (n - k) (n - j) _ (omega arith)

module _ {stale : List ℕ} {junk : ℕ} {stale_rg : List VmRg} {time_slot n : ℕ}
    {processes : List LdProcess} {program : ℕ → Loaded}
    (calm : (i : ℕ) → NoKillall (program i).code) where
  Step-Owners :
      {s t : Simulator}
      → Step stale junk stale_rg time_slot n processes program s t
      → Owners n s.machine.pcb s.machine.sched s.cpu
      → Lending n s.timer.device s.cpu
      → Owners n t.machine.pcb t.machine.sched t.cpu
  Step-Owners {s} (works {m} {c} k lt run e) v l =
      Effect-Owners v k lt
        (λ late j lt' ne q.
          late (s.timer.device (n - k)) (s.timer.device (n - j)).slots (l k j lt lt' ne (sym q)))
        (works-Effect stale junk stale_rg time_slot s k v.programs e)
  Step-Owners {s} (yields k lt run e) v l =
      kept-Owners v k lt (at head (s.cpu k).vars)
        (ap (λ pc. owned_at pc (s.cpu k).vars.proc) (sym e)) refl
  Step-Owners (detaches k lt run e) v l = v
  Step-Owners {s} (loader {o} raw stale_list raw_mm unset_id address run e ne free r) v l = ran o (
      Whenever-some (Round processes address (program s.i) s.machine s.i) _ r (
        ld_round_lem raw stale_list raw_mm unset_id processes _ address (program s.i) s.machine
          s.i))
    where
      ran :
          (o : LdOutcome)
          → Round processes address (program s.i) s.machine s.i o
          → Owners n (after_ld s o).machine.pcb (after_ld s o).machine.sched (after_ld s o).cpu
      ran waits h = v
      ran (loads m i) h = add-Owners free (calm s.i) h v
      ran all_done h = v
  Step-Owners (loader_yields run e) v l = v
  Step-Owners (loader_detaches run e) v l = v
  Step-Owners (in_next_slot i lt away m) v l = v
  Step-Owners (timer m) v l = v
  Step-Owners (stop_timer all) v l = v

  Step-Lending :
      {s t : Simulator}
      → Step stale junk stale_rg time_slot n processes program s t
      → Placed n s
      → Timer.Reach (suc n) s.timer
      → Owners n s.machine.pcb s.machine.sched s.cpu
      → Lending n s.timer.device s.cpu
      → Lending n t.timer.device t.cpu
  Step-Lending {s} (works {m} {c} k lt run e) places timed v l =
      Effect-Lending s.cpu c s.timer.device k lt run v
        (works-Effect stale junk stale_rg time_slot s k v.programs e) l
  Step-Lending {s} (yields k lt run e) places timed v l = yield-Lending k lt run e places timed l
  Step-Lending {s} (detaches k lt run e) places timed v l = detach-Lending s k lt e l
  Step-Lending {s} (loader {o} raw stale_list raw_mm unset_id address run e ne free r) places timed
        v l =
      ran o
    where
      ran : (o : LdOutcome) → Lending n (after_ld s o).timer.device (after_ld s o).cpu
      ran waits = l
      ran (loads m i) = l
      ran all_done = l
  Step-Lending {s} (loader_yields run e) places timed v l =
      Lending-Kept n s.timer.device (enter s.timer ld_device).device s.cpu
        (λ j h.
          other-Kept s.timer.device ld_device (n - j) (called (s.timer.device ld_device))
            (omega arith))
        l
  Step-Lending {s} (loader_detaches run e) places timed v l =
      Lending-Kept n s.timer.device (detach_event s.timer ld_device).device s.cpu
        (λ j h.
          other-Kept s.timer.device ld_device (n - j) (detached (s.timer.device ld_device))
            (omega arith))
        l
  Step-Lending {s} (in_next_slot {t} i lt away m) places timed v l = elim (NextSlot-Inside away m) [
    | stays k ↦ Lending-Kept n s.timer.device t.device s.cpu (λ j _. k (n - j)) l
    | returns pc done e ↦ return-Lending t i away pc done e lt places timed l
  ]
  Step-Lending {s} (timer {t} m) places timed v l =
      Lending-Kept n s.timer.device t.device s.cpu (λ j _. TimerRoutine-Kept m (n - j)) l
  Step-Lending (stop_timer all) places timed v l = l

  module _ {stale_mem : List ℕ} {raw : Machine} {memramsz : ℕ} {memswpsz : ℕ → ℕ} where
    pub Reach-Owners :
        {s : Simulator}
        → Reach stale junk stale_rg time_slot n processes program stale_mem raw memramsz memswpsz s
        → Owners n s.machine.pcb s.machine.sched s.cpu × Lending n s.timer.device s.cpu
    unfolding boot
    Reach-Owners start = (
      record {
        ready = (init_scheduler-Dealt (Live (λ _. none)) raw.sched).queues;
        held = λ k lt ne. absurd (ne refl);
        loan = λ k lt ne. absurd (ne refl);
        apart = λ j k lt lt' ne h. absurd (h refl);
        programs = λ p d e. absurd (cc);
      },
      λ j k lt lt' ne q. absurd (ne refl),
    )
    Reach-Owners (later r step) =
        let (v, l) = Reach-Owners r in
        (Step-Owners step v l, Step-Lending step (Reach-Placed r) (Reach-timed r) v l)
    Reach-Owners (unasked {s} {t} r m) =
        let (v, l) = Reach-Owners r in
        (v, Lending-Kept n s.timer.device t.device s.cpu (λ j _. Unasked-Kept m (n - j)) l)

    -- With any number of processors, in every reachable state, if no program calls `killall`: a
    -- process that a processor has is there, with a priority in range; no ready queue holds it, and no
    -- other processor has it.
    pub one_owner :
        {s : Simulator} (k : ℕ)
        → Reach stale junk stale_rg time_slot n processes program stale_mem raw memramsz memswpsz s
        → k < n
        → owned (s.cpu k) ≢ 0
        → Usable s.machine.pcb (owned (s.cpu k))
          × Apart s.machine.sched (owned (s.cpu k))
          × ((j : ℕ) → j < n → j ≢ k → owned (s.cpu j) ≢ owned (s.cpu k))
    one_owner k r lt some_one =
        let v = (Reach-Owners r).0 in
        let (usable, apart) = v.held k lt some_one in
        (usable, apart, λ j lt' ne q. v.apart k j lt lt' (λ e. ne (sym e)) some_one (sym q))

    -- With any number of processors, in every reachable state, if no program calls `killall`: the
    -- process that a processor has put back, and whose priority it has yet to read for `update_slot`,
    -- has not been freed meanwhile, and its priority is in range.
    pub lent_stays :
        {s : Simulator} (k : ℕ)
        → Reach stale junk stale_rg time_slot n processes program stale_mem raw memramsz memswpsz s
        → k < n
        → lent (s.cpu k) ≢ 0
        → Usable s.machine.pcb (lent (s.cpu k))
    lent_stays k r lt some_one = (Reach-Owners r).0.loan k lt some_one
