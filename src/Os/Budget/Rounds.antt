-- ===== src/Os/Budget/Rounds.antt =====
-- The rounds of the processor's loop, branch by branch.
use hcmut_os_ossim_sierra.Prelude.{
  ℕ, ◌<◌, ◌≡◌, ◌≢◌, refl, sym, ap, ◌∙◌, subst, Bool, true, false, Option, none, some, List, ◌==◌,
  if◌then◌else◌, update, of_some, arith, length,
}
use hcmut_os_ossim_sierra.Prelude.Partial.{Whenever, Whenever-bind, Whenever-some, if_cases}
use hcmut_os_ossim_sierra.Sched.{update_slot, put_proc}
use hcmut_os_ossim_sierra.Sched.Members.{update_slot-lt}
use hcmut_os_ossim_sierra.Sched.Dealt.{Dealt, put_proc-Dealt, update_slot-Dealt}
use hcmut_os_ossim_sierra.Mm.{VmRg}
use hcmut_os_ossim_sierra.Os.{
  Pcb, Machine, CpuState, next_slot, stops, pick_up, recheck, from_idle, from_finished,
  from_expired, go_on_with, cpu_round,
}
use hcmut_os_ossim_sierra.Os.Running.{freed-Older}
use hcmut_os_ossim_sierra.Os.Tags.{Tag, Tag-Older}
use hcmut_os_ossim_sierra.Os.Budget.{Within, Ready, Good, Picked, pick_up-Picked, recheck-Good}

module _ (stale : List ℕ) (junk : ℕ) (stale_rg : List VmRg) where
  Picked-Dealt :
      (m : Machine) (c : CpuState) (r : Machine × CpuState)
      → Picked m c r
      → Dealt (Tag r.0.pcb) r.0.sched
  Picked-Dealt m c r k = subst (λ t. Dealt (Tag t) r.0.sched) (sym k.same_pcb) k.dealt

  -- With no time left, what has been picked up is to be dispatched.
  Picked-Ready :
      (m : Machine) (c : CpuState) (r : Machine × CpuState) (used : ℕ)
      → Picked m c r
      → Ready r.0 (record r.1 { time_left = 0; use_time = used })
  Picked-Ready m c r used k = (
    λ _. refl,
    λ d p e.
        let (lt, pos, is) = k.found d p (sym (ap (λ t. t r.1.proc) k.same_pcb) ∙ e) in
        (lt, λ _. (pos, omega arith), λ q. absurd (q refl)),
  )

  module _ (time_slot : ℕ) (done : Bool) (h : 0 < time_slot) (h' : time_slot < 2147483648) where
    after_pick :
        (m : Machine) (c : CpuState) (r : Machine × CpuState)
        → c.time_left ≡ 0
        → Picked m c r
        → Whenever Good (recheck stale junk stale_rg time_slot done r.0 r.1)
    after_pick m c r z k =
        recheck-Good stale junk stale_rg time_slot done r.0 r.1 h h' (Picked-Dealt m c r k) (
          subst (λ t. Ready r.0 (record r.1 { time_left = t })) (sym z ∙ sym k.times.0)
            (Picked-Ready m c r r.1.use_time k))

    from_idle-Good :
        (m : Machine) (c : CpuState)
        → Within m c
        → c.proc ≡ 0
        → Whenever Good (from_idle stale junk stale_rg time_slot done m c)
    unfolding from_idle
    from_idle-Good m c w p = Whenever-bind Good (pick_up stale junk stale_rg m c) _ λ r o.
        let k = Whenever-some (Picked m c) _ o (pick_up-Picked stale junk stale_rg m c w.dealt) in
        if_cases (Whenever Good) (r.1.proc == 0) _ _ (λ e. idle r k done (ground arith))
          (λ e. after_pick m c r (w.charge.0 p) k)
      where
        idle :
            (r : Machine × CpuState)
            → Picked m c r
            → (b : Bool) → r.1.proc ≡ 0
            → Good (if b then stops r.0 else next_slot r.0 r.1)
        idle r k true z = Picked-Dealt m c r k
        idle r k false z = record {
          dealt = Picked-Dealt m c r k;
          charge = (λ _. k.times.0 ∙ w.charge.0 p, λ d q. absurd (q z));
        }

    from_finished-Good :
        (m : Machine) (c : CpuState) (d : Pcb)
        → Within m c
        → c.proc ≢ 0
        → m.pcb c.proc ≡ some d
        → Whenever Good (from_finished stale junk stale_rg time_slot done m c d.prio)
    unfolding from_finished
    from_finished-Good m c d w p e =
        Whenever-bind Good (update_slot m.sched d.prio c.use_time) _ λ s o.
          let freed : ℕ → Option Pcb = update m.pcb c.proc none in
          let m1 = record m { sched = s; pcb = freed } in
          Whenever-bind Good (pick_up stale junk stale_rg m1 c) _ λ r o'.
            let lt = update_slot-lt m.sched d.prio c.use_time o in
            let kept =
              update_slot-Dealt (Tag m.pcb) m.sched w.dealt d.prio c.use_time
                (omega (arith, (w.charge.1 d p e).1)) o in
            let k = Whenever-some (Picked m1 c) _ o' (
              pick_up-Picked stale junk stale_rg m1 c (record {
                queues = Tag-Older freed m.pcb s (freed-Older m.pcb c.proc) kept.queues;
                slots = kept.slots;
              })) in
            recheck-Good stale junk stale_rg time_slot done r.0
              (record r.1 { time_left = 0; use_time = 0 }) h h' (Picked-Dealt m1 c r k)
              (Picked-Ready m1 c r 0 k)

    from_expired-Good :
        (m : Machine) (c : CpuState) (d : Pcb)
        → Within m c
        → c.proc ≢ 0
        → c.time_left ≡ 0
        → m.pcb c.proc ≡ some d
        → Whenever Good (from_expired stale junk stale_rg time_slot done m c d.prio)
    unfolding from_expired
    from_expired-Good m c d w p z e = Whenever-bind Good (put_proc m.sched c.proc d.prio) _ λ s o.
        Whenever-bind Good (update_slot s d.prio c.use_time) _ λ s' o'.
          let m1 = record m { sched = s' } in
          Whenever-bind Good (pick_up stale junk stale_rg m1 c) _ λ r o''.
            let lt = update_slot-lt s d.prio c.use_time o' in
            let tag : Tag m.pcb d.prio c.proc =
              λ d' e'. ap (λ (x : Pcb). x.prio) (of_some (sym e' ∙ e)) in
            let (put, slot) = put_proc-Dealt (Tag m.pcb) m.sched w.dealt c.proc d.prio tag o in
            let kept =
              update_slot-Dealt (Tag m.pcb) s put d.prio c.use_time
                (omega (arith, (w.charge.1 d p e).1, ap (λ f. f d.prio) slot)) o' in
            let k =
              Whenever-some (Picked m1 c) _ o'' (pick_up-Picked stale junk stale_rg m1 c kept) in
            after_pick m1 c r z k

    go_on_with-Good :
        (m : Machine) (c : CpuState) (d : Pcb)
        → Within m c
        → c.proc ≢ 0
        → m.pcb c.proc ≡ some d
        → Whenever Good (go_on_with stale junk stale_rg time_slot done m c d)
    unfolding go_on_with
    go_on_with-Good m c d w p e =
        if_cases (Whenever Good) (d.pc == length d.code) _ _ (λ f. from_finished-Good m c d w p e)
          λ f.
            if_cases (Whenever Good) (c.time_left == 0) _ _
              (λ z. from_expired-Good m c d w p (ground arith) e)
              (λ z. recheck-Good stale junk stale_rg time_slot done m c h h' w.dealt (
                w.charge.0,
                λ d' q o.
                    let (lt, le) = w.charge.1 d' q o in (lt, λ y. absurd (ground arith), λ _. le),
              ))

    -- A round of a processor that goes on to the next slot, or stops, keeps the slots.
    pub cpu_round-Good :
        (m : Machine) (c : CpuState)
        → Within m c
        → Whenever Good (cpu_round stale junk stale_rg time_slot done m c)
    unfolding cpu_round
    cpu_round-Good m c w =
        if_cases (Whenever Good) (c.proc == 0) _ _ (λ e. from_idle-Good m c w (ground arith))
          λ e. Whenever-bind Good (m.pcb c.proc) _ λ d o. go_on_with-Good m c d w (ground arith) o
