-- ===== src/Os/Threads/Draining/End.antt =====
-- When the timer has ended, no process is left.
use hcmut_os_ossim_sierra.Prelude.{
  ℕ, suc, ◌-◌, ◌<◌, ◌≡◌, sym, subst, true, none, List, inl, inr, arith, get_elem?,
}
use hcmut_os_ossim_sierra.Prelude.Partial.{Whenever-some}
use hcmut_os_ossim_sierra.Mm.{VmRg}
use hcmut_os_ossim_sierra.Loader.{Loaded}
use hcmut_os_ossim_sierra.Timer.{
  System, Device, running, testing, gone, called, returned, detached, detach_event, exited,
}
use hcmut_os_ossim_sierra.Timer
use hcmut_os_ossim_sierra.Timer.Safety.{exited-gone}
use hcmut_os_ossim_sierra.Timer.Kept.{
  TimerRoutine-Kept, Unasked-Kept, stays, returns, NextSlot-Inside, same-Kept,
}
use hcmut_os_ossim_sierra.Os.{Machine, LdProcess}
use hcmut_os_ossim_sierra.Os.Threads.{
  Simulator, boot, enter, ld_device, Step, Reach, works, yields, detaches, loader, loader_yields,
  loader_detaches, in_next_slot, timer, unasked, stop_timer, start, later,
}
use hcmut_os_ossim_sierra.Os.Threads.Timing.{Placed, Reach-Placed}
use hcmut_os_ossim_sierra.Os.Threads.Timing.Clock.{Reach-timed}
use hcmut_os_ossim_sierra.Os.Threads.Effects.{NoKillall}
use hcmut_os_ossim_sierra.Os.Threads.Owners.{Owners}
use hcmut_os_ossim_sierra.Os.Threads.Loads.{ld_round_lem, Round}
use hcmut_os_ossim_sierra.Os.Threads.Exclusion.{Reach-Owners}
use hcmut_os_ossim_sierra.Os.Threads.Draining.{NoneReady, Away, Drains, work-Drains}
use hcmut_os_ossim_sierra.Os.Threads.Draining.States.{
  Draining, works-Draining, yields-Draining, devices-Draining, Kept-Draining,
}
use hcmut_os_ossim_sierra.Os.Threads.Draining.Steps.{
  returns-Draining, loader-Draining, loader_yields-Draining,
}

module _ {stale : List ℕ} {junk : ℕ} {stale_rg : List VmRg} {time_slot n : ℕ}
    {processes : List LdProcess} {program : ℕ → Loaded} (some_cpu : 0 < n) where
  Step-Draining :
      {s t : Simulator}
      → Step stale junk stale_rg time_slot n processes program s t
      → Placed n s
      → Timer.Reach (suc n) s.timer
      → Owners n s.machine.pcb s.machine.sched s.cpu
      → Draining n processes s
      → Draining n processes t
  Step-Draining {s} (works {m} {c} k lt run e) places timed o v = works-Draining v m c k lt (
      Whenever-some (Drains s.done s.machine (s.cpu k).pc (s.cpu k).vars) _ e (
        work-Drains stale junk stale_rg time_slot s.done s.machine (s.cpu k).vars (s.cpu k).pc
          o.ready))
  Step-Draining {s} (yields k lt run e) places timed o v =
      yields-Draining v k (enter s.timer (n - k)) lt
  Step-Draining {s} (detaches k lt run e) places timed o v =
      devices-Draining v (detach_event s.timer (n - k))
        (λ a (d, _, _). absurd (cc (d, (v.left k lt e).0)))
  Step-Draining {s} (loader {o = r} raw stale_list raw_mm unset_id address run e ne free f) places
        timed o v =
      loader-Draining v some_cpu places timed address (program s.i) r run e (
        Whenever-some (Round processes address (program s.i) s.machine s.i) _ f (
          ld_round_lem raw stale_list raw_mm unset_id processes _ address (program s.i) s.machine
            s.i))
  Step-Draining {s} (loader_yields run e) places timed o v =
      loader_yields-Draining v some_cpu places timed e
  Step-Draining {s} (loader_detaches run e) places timed o v =
      devices-Draining v (detach_event s.timer ld_device)
        (λ a (d, _, _). absurd (cc (d, (v.ended e).0)))
  Step-Draining {s} (in_next_slot {t} i lt away m) places timed o v =
      elim (NextSlot-Inside away m) [
        | stays k ↦ Kept-Draining v t k
        | returns pc done e ↦ returns-Draining v some_cpu places timed t i lt away pc done e
      ]
  Step-Draining (timer {t} m) places timed o v = Kept-Draining v t (TimerRoutine-Kept m)
  Step-Draining {s} (stop_timer all) places timed o v =
      Kept-Draining v (record s.timer { timer_stop = true }) (λ j. same-Kept (s.timer.device j))

  module _ (calm : (i : ℕ) → NoKillall (program i).code) {stale_mem : List ℕ} {raw : Machine}
      {memramsz : ℕ} {memswpsz : ℕ → ℕ} where
    pub Reach-Draining :
        {s : Simulator}
        → Reach stale junk stale_rg time_slot n processes program stale_mem raw memramsz memswpsz s
        → Draining n processes s
    unfolding boot
    Reach-Draining start = record {
      left = λ k lt e. absurd (cc);
      asks = λ k lt e. absurd e;
      ends = λ e. absurd (cc);
      ended = λ e. absurd (cc);
      drained = λ a. absurd (a 0 some_cpu);
    }
    Reach-Draining (later r step) =
        Step-Draining step (Reach-Placed r) (Reach-timed r) (Reach-Owners calm r).0
          (Reach-Draining r)
    Reach-Draining (unasked {t} r m) = Kept-Draining (Reach-Draining r) t (Unasked-Kept m)

    -- With one processor or more, if no program calls `killall`: when the thread of the timer has
    -- ended, the loader has set `done` and gone through all of the configuration, no processor has a
    -- process, and none is ready.
    pub ended-drained :
        {s : Simulator}
        → Reach stale junk stale_rg time_slot n processes program stale_mem raw memramsz memswpsz s
        → s.timer.timer ≡ exited
        → (s.done ≡ true)
          × (get_elem? processes s.i ≡ none)
          × ((k : ℕ) → k < n → (s.cpu k).vars.proc ≡ 0)
          × NoneReady s.machine
    ended-drained {s} r e =
        let v = Reach-Draining r in
        let places = Reach-Placed r in
        let gone_all = exited-gone (Reach-timed r) e in
        let (done, all) = v.ended (places.ld_left (gone_all ld_device (omega arith))) in
        let left = λ (k : ℕ) (lt : k < n). places.left k lt (gone_all (n - k) (omega arith)) in
        (
          done,
          all,
          λ k lt. (v.left k lt (left k lt)).1,
          elim (v.drained λ k lt.
              subst (λ pc. Away pc (s.cpu k).vars) (sym (left k lt)) (v.left k lt (left k lt)).1) [
                | inl none_ready ↦ none_ready
                | inr (d, _, _) ↦ absurd (cc (d, done))
              ],
        )
