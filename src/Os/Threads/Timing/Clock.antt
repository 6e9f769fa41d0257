-- ===== src/Os/Threads/Timing/Clock.antt =====
-- The timer sees the threads of the simulator as the devices of `Timer`: what it shows of them there
-- holds of the threads.
use hcmut_os_ossim_sierra.Prelude.{ℕ, suc, ◌-◌, ◌<◌, ◌≡◌, false, List, arith}
use hcmut_os_ossim_sierra.Mm.{VmRg}
use hcmut_os_ossim_sierra.Loader.{Loaded}
use hcmut_os_ossim_sierra.Timer.{running, testing, call, System}
use hcmut_os_ossim_sierra.Timer
use hcmut_os_ossim_sierra.Timer.Moves.{Reach-Inv}
use hcmut_os_ossim_sierra.Timer.Places.{running-Fits, testing-Fits}
use hcmut_os_ossim_sierra.Os.{Machine, LdProcess, LdOutcome, waits, loads, all_done}
use hcmut_os_ossim_sierra.Os.Threads.{
  Simulator, boot, ld_device, after_ld, Step, Reach, works, yields, detaches, loader, loader_yields,
  loader_detaches, in_next_slot, timer, unasked, stop_timer, start, later,
}

module _ {stale : List ℕ} {junk : ℕ} {stale_rg : List VmRg} {time_slot num_cpus : ℕ}
    {processes : List LdProcess} {program : ℕ → Loaded} where
  Step-timed :
      {s t : Simulator}
      → Step stale junk stale_rg time_slot num_cpus processes program s t
      → Timer.Reach (suc num_cpus) s.timer
      → Timer.Reach (suc num_cpus) t.timer
  Step-timed (works k lt e w) r = r
  Step-timed (yields k lt e w) r =
      Timer.Reach.later r (Timer.Step.slot (num_cpus - k) (omega arith) (call e))
  Step-timed (detaches k lt e w) r =
      Timer.Reach.later r (Timer.Step.detach (num_cpus - k) (omega arith) e)
  Step-timed {s} (loader {o} raw stale_list raw_mm unset_id address e w ne free k) r = ran o
    where
      ran : (o : LdOutcome) → Timer.Reach (suc num_cpus) (after_ld s o).timer
      ran waits = r
      ran (loads m i) = r
      ran all_done = r
  Step-timed (loader_yields e w) r =
      Timer.Reach.later r (Timer.Step.slot ld_device (omega arith) (call e))
  Step-timed (loader_detaches e w) r =
      Timer.Reach.later r (Timer.Step.detach ld_device (omega arith) e)
  Step-timed (in_next_slot i lt h m) r = Timer.Reach.later r (Timer.Step.slot i lt m)
  Step-timed (timer m) r = Timer.Reach.later r (Timer.Step.timer m)
  Step-timed (stop_timer h) r = Timer.Reach.later r (Timer.Step.stop_timer h)

  module _ {stale_mem : List ℕ} {raw : Machine} {memramsz : ℕ} {memswpsz : ℕ → ℕ} where
    -- The timer sees the threads of the simulator as the devices of `Timer`.
    pub Reach-timed :
        {s : Simulator}
        → Reach stale junk stale_rg time_slot num_cpus processes program stale_mem raw memramsz
            memswpsz s
        → Timer.Reach (suc num_cpus) s.timer
    unfolding boot
    Reach-timed start = Timer.Reach.start
    Reach-timed (later r m) = Step-timed m (Reach-timed r)
    Reach-timed (unasked r m) = Timer.Reach.spurious (Reach-timed r) m

-- A thread outside `next_slot` has completed as many slots as the clock has ticked.
pub slots-running :
    {n : ℕ} {t : System} (i : ℕ)
    → Timer.Reach n t
    → i < n
    → (t.device i).pc ≡ running
    → (t.device i).slots ≡ t.ticks
slots-running {n} {t} i r lt e = (running-Fits _ _ (t.device i) ((Reach-Inv r).device i lt) e).3

-- One that `next_slot` is about to let go has completed one less.
pub slots-returning :
    {n : ℕ} {t : System} (i : ℕ)
    → Timer.Reach n t
    → i < n
    → (t.device i).pc ≡ testing
    → (t.device i).id.done ≡ false
    → suc (t.device i).slots ≡ t.ticks
slots-returning {n} {t} i r lt e d =
    (testing-Fits _ _ (t.device i) ((Reach-Inv r).device i lt) false e d).2
