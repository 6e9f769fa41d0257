-- ===== src/Os/Threads/Progress/NoDeadlock.antt =====
-- Some thread can always go on.
use hcmut_os_ossim_sierra.Prelude.{
  ℕ, suc, ◌-◌, ◌%◌, ◌<◌, ◌≡◌, ◌≢◌, refl, ◌∙◌, subst, true, Option, none, some, List, [], ◌==◌, ◌⊎◌,
  inl, inr, Bool-cases, arith, get_elem?, ltb,
}
use hcmut_os_ossim_sierra.Sched.{max_prio}
use hcmut_os_ossim_sierra.Sched.Members.{add_proc-eq-put_proc, put_proc-some}
use hcmut_os_ossim_sierra.Mm.{VmRg, Mm}
use hcmut_os_ossim_sierra.Loader.{Loaded}
use hcmut_os_ossim_sierra.Timer.{
  System, running, gone, exited, current_time, slot, detach, NextSlot, call, wait, go_on,
}
use hcmut_os_ossim_sierra.Timer
use hcmut_os_ossim_sierra.Timer.Safety.{no_deadlock}
use hcmut_os_ossim_sierra.Os.{Machine, LdProcess, LdOutcome, ld_round, ld_entry, add_new, run_proc}
use hcmut_os_ossim_sierra.Os.Threads.{
  CpuPc, head, charging, storing, freeing, getting, asking, rechecking, calling, leaving, looping,
  yielding, ending, Simulator, ld_device, Step, Reach, works, yields, detaches, loader,
  loader_yields, loader_detaches, in_next_slot, timer, stop_timer,
}
use hcmut_os_ossim_sierra.Os.Threads.Timing.Clock.{Reach-timed}
use hcmut_os_ossim_sierra.Os.Threads.Effects.{NoKillall}
use hcmut_os_ossim_sierra.Os.Threads.Exclusion.{Reach-Owners}
use hcmut_os_ossim_sierra.Os.Threads.Draining.End.{Reach-Draining}
use hcmut_os_ossim_sierra.Os.Threads.Addresses.{free_address}
use hcmut_os_ossim_sierra.Os.Threads.Progress.{work-Defined}

abbrev pub Priorities : List LdProcess → Type 0
Priorities processes =
    (i : ℕ) (l : LdProcess) → get_elem? processes i ≡ some l → l.prio % 4294967296 < max_prio

-- The loader's round has a result if its priority is in range.
pub ld_round-some :
    (raw : ℕ → ℕ) (stale_list : List VmRg) (raw_mm : Mm) (unset_id : ℕ) (processes : List LdProcess)
    (time address : ℕ) (proc : Loaded) (m : Machine) (i : ℕ)
    → Priorities processes
    → (o : LdOutcome) × (ld_round raw stale_list raw_mm unset_id processes time address proc m i
        ≡ some o)
unfolding ld_round add_new
ld_round-some raw stale_list raw_mm unset_id processes time address proc m i h =
    go (get_elem? processes i) refl
  where
    go :
        (l : Option LdProcess)
        → get_elem? processes i ≡ l
        → (o : LdOutcome) × (ld_entry raw stale_list raw_mm unset_id time address proc m i l
            ≡ some o)
    go none e = (_, refl)
    go (some l) e = elim (Bool-cases (ltb time l.start_time)) [
      | inl f ↦ rw f (_, refl)
      | inr f ↦
          let (s, p) = put_proc-some m.sched address (l.prio % 4294967296) (h i l e) in
          rw f (rw (add_proc-eq-put_proc m.sched address (l.prio % 4294967296) ∙ p) (_, refl))
    ]

-- A processor is at an instruction of its process that is undefined behaviour.
abbrev pub BadInstruction : List ℕ → ℕ → List VmRg → ℕ → Simulator → Type 0
BadInstruction stale junk stale_rg n s =
    (k : ℕ) × (k < n)
    × ((s.cpu k).pc ≡ rechecking)
    × ((s.cpu k).vars.proc ≢ 0)
    × (run_proc stale junk stale_rg s.machine (s.cpu k).vars.proc ≡ none)

abbrev pub GoesOn :
    List ℕ → ℕ → List VmRg → (time_slot n : ℕ) → List LdProcess → (ℕ → Loaded) → Simulator → Type 0
GoesOn stale junk stale_rg time_slot n processes program s =
    ((t : Simulator) × Step stale junk stale_rg time_slot n processes program s t)
    ⊎ BadInstruction stale junk stale_rg n s

abbrev unset_mm : Mm
unset_mm = record {
  pgd = λ _. 0;
  mmap = [];
  symrgtbl = λ _. record { rg_start = 0; rg_end = 0 };
  fifo_pgn = [];
}

module _ {stale : List ℕ} {junk : ℕ} {stale_rg : List VmRg} {time_slot n : ℕ}
    {processes : List LdProcess} {program : ℕ → Loaded} (some_cpu : 0 < n)
    (calm : (i : ℕ) → NoKillall (program i).code) (priorities : Priorities processes)
    {stale_mem : List ℕ} {raw : Machine} {memramsz : ℕ} {memswpsz : ℕ → ℕ} where
  -- A processor outside `next_slot`.
  cpu-Goes :
      {s : Simulator} (k : ℕ)
      → Reach stale junk stale_rg time_slot n processes program stale_mem raw memramsz memswpsz s
      → k < n
      → (s.timer.device (n - k)).pc ≡ running
      → GoesOn stale junk stale_rg time_slot n processes program s
  cpu-Goes {s} k r lt run = go (s.cpu k).pc refl
    where
      working :
          (s.cpu k).pc ≢ calling
          → (s.cpu k).pc ≢ leaving
          → GoesOn stale junk stale_rg time_slot n processes program s
      working h h' =
          let (v, _) = Reach-Owners calm r in
          let d = Reach-Draining some_cpu calm r in
          elim (work-Defined stale junk stale_rg time_slot s.done s.machine (s.cpu k).vars
            (s.cpu k).pc (λ ne. (v.held k lt ne).0) (v.loan k lt) (d.asks k lt) h h') [
              | inl ((m, c), e) ↦ inl (_, works k lt run e)
              | inr (pc, ne, bad) ↦ inr (k, lt, pc, ne, bad)
            ]

      go :
          (pc : CpuPc)
          → (s.cpu k).pc ≡ pc
          → GoesOn stale junk stale_rg time_slot n processes program s
      go calling e = inl (_, yields k lt run e)
      go leaving e = inl (_, detaches k lt run e)
      go head e = working (λ q. cc) (λ q. cc)
      go (charging t) e = working (λ q. cc) (λ q. cc)
      go (storing t prio v) e = working (λ q. cc) (λ q. cc)
      go freeing e = working (λ q. cc) (λ q. cc)
      go (getting b) e = working (λ q. cc) (λ q. cc)
      go asking e = working (λ q. cc) (λ q. cc)
      go rechecking e = working (λ q. cc) (λ q. cc)

  -- The loader outside `next_slot`.
  loader-Goes :
      {s : Simulator}
      → Reach stale junk stale_rg time_slot n processes program stale_mem raw memramsz memswpsz s
      → (s.timer.device ld_device).pc ≡ running
      → GoesOn stale junk stale_rg time_slot n processes program s
  loader-Goes {s} r run =
      elim s.ld_pc
          as (λ pc. s.ld_pc ≡ pc → GoesOn stale junk stale_rg time_slot n processes program s) [
            | looping ↦ λ e.
                let (address, ne, free) = free_address calm r in
                let (o, f) =
                  ld_round-some (λ _. 0) [] unset_mm 0 processes (current_time s.timer) address
                    (program s.i) s.machine s.i priorities in
                inl (_, loader (λ _. 0) [] unset_mm 0 address run e ne free f)
            | yielding ↦ λ e. inl (_, loader_yields run e)
            | ending ↦ λ e. inl (_, loader_detaches run e)
          ]
        refl

  thread-Goes :
      {s : Simulator} (i : ℕ)
      → Reach stale junk stale_rg time_slot n processes program stale_mem raw memramsz memswpsz s
      → i < suc n
      → (s.timer.device i).pc ≡ running
      → GoesOn stale junk stale_rg time_slot n processes program s
  thread-Goes {s} i r lt run = elim (Bool-cases (i == ld_device)) [
    | inl e ↦
        let at_ld : i ≡ ld_device = ground arith in
        loader-Goes r (subst (λ i. (s.timer.device i).pc ≡ running) at_ld run)
    | inr e ↦
        let at_k : i ≡ n - (n - i) = ground arith in
        cpu-Goes (n - i) r (ground arith) (subst (λ i. (s.timer.device i).pc ≡ running) at_k run)
  ]

  -- No deadlock and no lost wake-up: with one processor or more, the priorities of the configuration
  -- in range, and no program that calls `killall`, in every reachable state some thread has a step
  -- that no wait has to return unasked for, until the timer has ended and `main` has told it to stop;
  -- or a processor is at an instruction of its process that is undefined behaviour.
  pub always_goes_on :
      {s : Simulator}
      → Reach stale junk stale_rg time_slot n processes program stale_mem raw memramsz memswpsz s
      → ((s.timer.timer ≡ exited) × (s.timer.timer_stop ≡ true))
        ⊎ ((t : Simulator) × Step stale junk stale_rg time_slot n processes program s t)
        ⊎ BadInstruction stale junk stale_rg n s
  always_goes_on {s} r = elim (no_deadlock (Reach-timed r)) [
    | inl over ↦ inl over
    | inr (t, step) ↦ inr (go step)
  ]
    where
      in_slot :
          (i : ℕ) (t : System)
          → i < suc n
          → NextSlot s.timer i t
          → GoesOn stale junk stale_rg time_slot n processes program s
      in_slot i t lt (call e) = thread-Goes i r lt e
      in_slot i t lt (wait e d) = inl (_, in_next_slot i lt (λ q. cc) (wait e d))
      in_slot i t lt (go_on e d) = inl (_, in_next_slot i lt (λ q. cc) (go_on e d))

      go :
          {t : System}
          → Timer.Step (suc n) s.timer t
          → GoesOn stale junk stale_rg time_slot n processes program s
      go (slot {t} i lt m) = in_slot i t lt m
      go (detach i lt e) = thread-Goes i r lt e
      go (Timer.Step.timer m) = inl (_, timer m)
      go (Timer.Step.stop_timer all) = inl (_, stop_timer all)
