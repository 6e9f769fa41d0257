-- ===== src/Os/Threads/Charging.antt =====
-- `update_slot` reads and stores without the lock: what another processor charges meanwhile is lost.
use hcmut_os_ossim_sierra.Prelude.{
  ℕ, ◌<◌, ◌≡◌, refl, subst, Bool, some, List, arith, update, update_self,
}
use hcmut_os_ossim_sierra.Word.{sub32}
use hcmut_os_ossim_sierra.Sched.{max_prio}
use hcmut_os_ossim_sierra.Sched.Members.{get_slot-some}
use hcmut_os_ossim_sierra.Mm.{VmRg}
use hcmut_os_ossim_sierra.Os.{Pcb, Machine, CpuState}
use hcmut_os_ossim_sierra.Os.Threads.{Turn, charging, storing, after_update, at, store_slot, work}

module _ (stale : List ℕ) (junk : ℕ) (stale_rg : List VmRg) (time_slot : ℕ) (done : Bool)
    (m : Machine) where
  pub reads :
      (t : Turn) (c : CpuState) (d : Pcb)
      → m.pcb c.proc ≡ some d
      → d.prio < max_prio
      → work stale junk stale_rg time_slot done m (charging t) c
        ≡ some (m, at (storing t d.prio (m.sched.slot d.prio)) c)
  unfolding work
  reads t c d e lt = rw e (rw (get_slot-some m.sched d.prio lt) refl)

  -- Two processors give up processes of one priority, and both read its slots before either stores:
  -- all four steps are defined, and at the end the priority has been charged for the second process
  -- alone.
  pub lost_charge :
      (t t' : Turn) (c c' : CpuState) (d d' : Pcb)
      → m.pcb c.proc ≡ some d
      → m.pcb c'.proc ≡ some d'
      → d'.prio ≡ d.prio
      → d.prio < max_prio
      → (slot : ℕ) × (m₁ m₂ : Machine) × (m.sched.slot d.prio ≡ slot)
        × (work stale junk stale_rg time_slot done m (charging t) c
            ≡ some (m, at (storing t d.prio slot) c))
        × (work stale junk stale_rg time_slot done m (charging t') c'
            ≡ some (m, at (storing t' d.prio slot) c'))
        × (work stale junk stale_rg time_slot done m (storing t d.prio slot) c
            ≡ some (m₁, at (after_update t) c))
        × (work stale junk stale_rg time_slot done m₁ (storing t' d.prio slot) c'
            ≡ some (m₂, at (after_update t') c'))
        × (m₂.sched.slot d.prio ≡ sub32 slot c'.use_time)
  unfolding work
  lost_charge t t' c c' d d' e e' same lt =
      let slot = m.sched.slot d.prio in
      (
        slot,
        store_slot m d.prio (sub32 slot c.use_time),
        store_slot (store_slot m d.prio (sub32 slot c.use_time)) d.prio (sub32 slot c'.use_time),
        refl,
        reads t c d e lt,
        subst
            (λ p.
              work stale junk stale_rg time_slot done m (charging t') c'
              ≡ some (m, at (storing t' p (m.sched.slot p)) c'))
            same (reads t' c' d' e' (omega arith)),
        refl,
        refl,
        update_self (update m.sched.slot d.prio (sub32 slot c.use_time)) d.prio
            (sub32 slot c'.use_time),
      )
