-- ===== src/Os/OneCpu.antt =====
-- The simulator with one processor and the loader: what holds in every state that they reach.
use hcmut_os_ossim_sierra.Prelude.{
  ℕ, ◌<◌, ◌≡◌, ◌≢◌, refl, sym, ap, ◌∙◌, subst, Bool, true, false, Option, none, some, List, update,
  update_self, update_ne, mem, of_some, arith,
}
use hcmut_os_ossim_sierra.Prelude.Partial.{Whenever-bind, Whenever-some}
use hcmut_os_ossim_sierra.Queue.Contents.{contents}
use hcmut_os_ossim_sierra.Sched.{max_prio, init_scheduler, add_proc}
use hcmut_os_ossim_sierra.Sched.Members.{add_proc-eq-put_proc}
use hcmut_os_ossim_sierra.Sched.Dealt.{Dealt, init_scheduler-Dealt, put_proc-Dealt}
use hcmut_os_ossim_sierra.Mm.{VmRg}
use hcmut_os_ossim_sierra.Os.{Pcb, Machine, CpuState, cpu_start, next_slot, cpu_round, add_new}
use hcmut_os_ossim_sierra.Os.Tags.{Tag}
use hcmut_os_ossim_sierra.Os.Budget.{Within, Good}
use hcmut_os_ossim_sierra.Os.Budget.Rounds.{cpu_round-Good}

module _ (stale : List ℕ) (junk : ℕ) (stale_rg : List VmRg) (time_slot : ℕ) where
  -- `main` starts with no process. The processor makes its rounds, whatever `done` is; the loader
  -- adds processes at addresses that no ready queue holds and that are not on the processor.
  pub data Reach (raw : Machine) : Machine → CpuState → Type 0 where
    start : Reach raw (record raw { sched = init_scheduler raw.sched; pcb = λ _. none }) cpu_start
    round :
        {m m' : Machine} {c c' : CpuState} (done : Bool)
        → Reach raw m c
        → cpu_round stale junk stale_rg time_slot done m c ≡ some (next_slot m' c')
        → Reach raw m' c'
    load :
        {m m' : Machine} {c : CpuState} (address : ℕ) (d : Pcb)
        → Reach raw m c
        → address ≢ c.proc
        → ((i : ℕ) → i < max_prio → mem address (contents (m.sched.mlq_ready_queue i)) ≡ false)
        → add_new m address d ≡ some m'
        → Reach raw m' c

  new_process :
      (m : Machine) (c : CpuState) (address : ℕ) (d : Pcb) {m' : Machine}
      → Within m c
      → address ≢ c.proc
      → ((i : ℕ) → i < max_prio → mem address (contents (m.sched.mlq_ready_queue i)) ≡ false)
      → add_new m address d ≡ some m'
      → Within m' c
  unfolding add_new
  new_process m c address d w ne apart e =
      Whenever-some (λ x. Within x c) (add_new m address d) e
        (Whenever-bind (λ x. Within x c) (add_proc m.sched address d.prio) _
          λ s o.
            let pcb' : ℕ → Option Pcb = update m.pcb address (some d) in
            let kept : Dealt (Tag pcb') m.sched = record {
              queues = record {
                running = w.dealt.queues.running;
                ready = λ i h. record {
                  valid = (w.dealt.queues.ready i h).valid;
                  only = λ q at d' e'. (w.dealt.queues.ready i h).only q at d' (
                      old_entry q d'
                        (λ same.
                          let at' : mem address (contents (m.sched.mlq_ready_queue i)) ≡ true =
                            subst (λ x. mem x (contents (m.sched.mlq_ready_queue i)) ≡ true) same
                              at in
                          absurd (cc (apart i h)))
                        e');
                };
              };
              slots = w.dealt.slots;
            } in
            let own : Tag pcb' d.prio address = λ d' e'.
              ap (λ (x : Pcb). x.prio) (of_some (sym e' ∙ update_self m.pcb address (some d))) in
            let (dealt, slot) =
              put_proc-Dealt (Tag pcb') m.sched kept address d.prio own
                (sym (add_proc-eq-put_proc m.sched address d.prio) ∙ o) in
            record {
              dealt = dealt;
              charge = (
                w.charge.0,
                λ d' p e'.
                    let (lt, le) =
                      w.charge.1 d' p (old_entry c.proc d' (λ same. ne (sym same)) e') in
                    (lt, omega (arith, ap (λ f. f d'.prio) slot)),
              );
            })
    where
      old_entry :
          (q : ℕ) (d' : Pcb)
          → q ≢ address
          → update m.pcb address (some d) q ≡ some d'
          → m.pcb q ≡ some d'
      old_entry q d' ne e = sym (update_ne m.pcb address q (some d) ne) ∙ e

  -- With one processor and a positive `time_slot`, every ready process stands in the queue of its
  -- priority, no priority has more slots than it is dealt or less than none, and what the running
  -- process has used and may still use of its turn is within the slots that its priority has left.
  pub Reach-Within :
      {raw m : Machine} {c : CpuState}
      → 0 < time_slot
      → time_slot < 2147483648
      → Reach raw m c
      → Within m c
  Reach-Within {raw} h h' start = record {
    dealt = init_scheduler-Dealt (Tag (λ _. none)) raw.sched;
    charge = (λ _. refl, λ d p. absurd (p refl));
  }
  Reach-Within h h' (round {m} {m'} {c} done r e) =
      Whenever-some Good _ e
        (cpu_round-Good stale junk stale_rg time_slot done h h' m c (Reach-Within h h' r))
  Reach-Within h h' (load {m} {m'} {c} address d r ne apart e) =
      new_process m c address d (Reach-Within h h' r) ne apart e
