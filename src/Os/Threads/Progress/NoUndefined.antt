-- ===== src/Os/Threads/Progress/NoUndefined.antt =====
-- No undefined behaviour of the simulator outside of the instructions of its processes.
use hcmut_os_ossim_sierra.Prelude.{ℕ, ◌<◌, ◌≡◌, ◌≢◌, none, some, List, ◌⊎◌}
use hcmut_os_ossim_sierra.Mm.{VmRg, Mm}
use hcmut_os_ossim_sierra.Loader.{Loaded}
use hcmut_os_ossim_sierra.Timer.{current_time}
use hcmut_os_ossim_sierra.Os.{Machine, LdProcess, LdOutcome, ld_round, run_proc}
use hcmut_os_ossim_sierra.Os.Threads.{rechecking, calling, leaving, Cpu, work, Simulator, Reach}
use hcmut_os_ossim_sierra.Os.Threads.Effects.{NoKillall}
use hcmut_os_ossim_sierra.Os.Threads.Exclusion.{Reach-Owners}
use hcmut_os_ossim_sierra.Os.Threads.Draining.End.{Reach-Draining}
use hcmut_os_ossim_sierra.Os.Threads.Progress.{work-Defined}
use hcmut_os_ossim_sierra.Os.Threads.Progress.NoDeadlock.{Priorities, ld_round-some}

module _ {stale : List ℕ} {junk : ℕ} {stale_rg : List VmRg} {time_slot n : ℕ}
    {processes : List LdProcess} {program : ℕ → Loaded} (some_cpu : 0 < n)
    (calm : (i : ℕ) → NoKillall (program i).code) (priorities : Priorities processes)
    {stale_mem : List ℕ} {raw : Machine} {memramsz : ℕ} {memswpsz : ℕ → ℕ} where
  -- With one processor or more, the priorities of the configuration in range, and no program that
  -- calls `killall`, in every reachable state: what each processor does next is defined, unless it
  -- is an instruction of its process that is undefined behaviour; and the next round of the loader
  -- is defined, whatever `malloc` gives it.
  pub no_undefined :
      {s : Simulator}
      → Reach stale junk stale_rg time_slot n processes program stale_mem raw memramsz memswpsz s
      → ((k : ℕ)
          → k < n
          → (s.cpu k).pc ≢ calling
          → (s.cpu k).pc ≢ leaving
          → ((r : Machine × Cpu) × (work stale junk stale_rg time_slot s.done s.machine
                  (s.cpu k).pc
                  (s.cpu k).vars
                ≡ some r))
            ⊎ (((s.cpu k).pc ≡ rechecking)
                × ((s.cpu k).vars.proc ≢ 0)
                × (run_proc stale junk stale_rg s.machine (s.cpu k).vars.proc ≡ none)))
        × ((uninit : ℕ → ℕ) (stale_list : List VmRg) (raw_mm : Mm) (unset_id address : ℕ)
            → (o : LdOutcome) × (ld_round uninit stale_list raw_mm unset_id processes
                  (current_time s.timer)
                  address
                  (program s.i)
                  s.machine
                  s.i
                ≡ some o))
  no_undefined {s} r =
      let (v, _) = Reach-Owners calm r in
      let d = Reach-Draining some_cpu calm r in
      (
        λ k lt.
            work-Defined stale junk stale_rg time_slot s.done s.machine (s.cpu k).vars (s.cpu k).pc
              (λ ne. (v.held k lt ne).0) (v.loan k lt) (d.asks k lt),
        λ uninit stale_list raw_mm unset_id address.
            ld_round-some uninit stale_list raw_mm unset_id processes (current_time s.timer) address
              (program s.i) s.machine s.i priorities,
      )
