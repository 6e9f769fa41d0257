-- ===== src/Os/Threads/Draining/States.antt =====
-- No process is ready once every processor has found none, whatever the loader does meanwhile.
use hcmut_os_ossim_sierra.Prelude.{
  ℕ, ◌-◌, ◌<◌, ◌≡◌, ◌≢◌, refl, sym, ◌∙◌, subst, Bool, true, false, none, some, List, ◌==◌, ◌⊎◌, inl,
  inr, update, update_self, update_ne, Bool-cases, arith, get_elem?, not, if◌then◌else◌,
}
use hcmut_os_ossim_sierra.Queue.{empty}
use hcmut_os_ossim_sierra.Timer.{System, Device, running}
use hcmut_os_ossim_sierra.Timer.Kept.{Kept}
use hcmut_os_ossim_sierra.Os.{Machine, CpuState, LdProcess}
use hcmut_os_ossim_sierra.Os.Threads.{
  CpuPc, head, charging, storing, freeing, getting, asking, rechecking, calling, leaving, Cpu, LdPc,
  yielding, ending, Simulator, at, ld_device,
}
use hcmut_os_ossim_sierra.Os.Threads.Timing.{Busy, Placed}
use hcmut_os_ossim_sierra.Os.Threads.Draining.{NoneReady, Away, Has, Drains}

abbrev pub AllAway : ℕ → (ℕ → Cpu) → Type 0
AllAway n cpu = (k : ℕ) → k < n → Away (cpu k).pc (cpu k).vars

-- The loader has added a process in the slot in which the processors have found none, and has not
-- come back from the `next_slot` after it.
abbrev pub Pending : ℕ → Bool → LdPc → (ℕ → Device) → Type 0
Pending n done ld_pc dev =
    (done ≡ false)
    × ((ld_pc ≡ yielding) ⊎ ((dev ld_device).pc ≢ running))
    × ((k : ℕ) → k < n → (dev (n - k)).slots ≡ (dev ld_device).slots)

pub record Draining (n : ℕ) (processes : List LdProcess) (s : Simulator) : Type 0 where
  pub left : (k : ℕ) → k < n → (s.cpu k).pc ≡ leaving → (s.done ≡ true) × ((s.cpu k).vars.proc ≡ 0)
  pub asks : (k : ℕ) → k < n → Has (s.cpu k).pc → (s.cpu k).vars.proc ≢ 0
  pub ends : s.done ≡ true → s.ld_pc ≡ ending
  pub ended : s.ld_pc ≡ ending → (s.done ≡ true) × (get_elem? processes s.i ≡ none)
  pub drained : AllAway n s.cpu → NoneReady s.machine ⊎ Pending n s.done s.ld_pc s.timer.device

Away-Busy : (pc : CpuPc) (c : CpuState) → Away pc c → pc ≢ leaving → Busy pc
Away-Busy asking c a h = tt
Away-Busy rechecking c a h = tt
Away-Busy leaving c a h = absurd (h refl)
Away-Busy head c a h = absurd a
Away-Busy (charging t) c a h = absurd a
Away-Busy (storing t prio v) c a h = absurd a
Away-Busy freeing c a h = absurd a
Away-Busy (getting b) c a h = absurd a
Away-Busy calling c a h = absurd a

module _ {n : ℕ} {processes : List LdProcess} {s : Simulator} (v : Draining n processes s) where
  -- Until the loader has ended, a processor that is away is in its round.
  pub away-running :
      Placed n s
      → s.done ≡ false
      → AllAway n s.cpu
      → (k : ℕ) → k < n
      → (s.timer.device (n - k)).pc ≡ running
  away-running places d a k lt =
      places.busy k lt
        (Away-Busy (s.cpu k).pc (s.cpu k).vars (a k lt) (λ e. absurd (cc (d, (v.left k lt e).0))))

  -- Processor `k` has worked.
  pub works-Draining :
      (m : Machine) (c : Cpu) (k : ℕ)
      → k < n
      → Drains s.done s.machine (s.cpu k).pc (s.cpu k).vars (m, c)
      → Draining n processes (record s { machine = m; cpu = update s.cpu k c })
  works-Draining m c k lt (away', left', asks') = record {
    left = λ j lt' e. elim (Bool-cases (j == k)) [
      | inl q ↦
          let (x, y) = left' (subst (λ b. (if b then c else s.cpu j).pc ≡ leaving) q e) in
          rw q (x, y)
      | inr q ↦ rw q (v.left j lt' (subst (λ b. (if b then c else s.cpu j).pc ≡ leaving) q e))
    ];
    asks = λ j lt' e. elim (Bool-cases (j == k)) [
      | inl q ↦ rw q (asks' (subst (λ b. Has (if b then c else s.cpu j).pc) q e))
      | inr q ↦ rw q (v.asks j lt' (subst (λ b. Has (if b then c else s.cpu j).pc) q e))
    ];
    ends = v.ends;
    ended = v.ended;
    drained = λ a.
        elim (away' (subst (λ (x : Cpu). Away x.pc x.vars) (update_self s.cpu k c) (a k lt))) [
          | inl (was, same) ↦ elim (v.drained (before a was)) [
            | inl none_ready ↦ inl (λ i lt'.
                subst (λ q. not (empty (some (q i))) ≡ false) (sym same) (none_ready i lt'))
            | inr pending ↦ inr pending
          ]
          | inr none_ready ↦ inl none_ready
        ];
  }
    where
      before : AllAway n (update s.cpu k c) → Away (s.cpu k).pc (s.cpu k).vars → AllAway n s.cpu
      before a was j lt' = elim (Bool-cases (j == k)) [
        | inl q ↦
            let at_k : k ≡ j = ground arith in
            subst (λ j. Away (s.cpu j).pc (s.cpu j).vars) at_k was
        | inr q ↦
            subst (λ (x : Cpu). Away x.pc x.vars) (update_ne s.cpu k j c (ground arith)) (a j lt')
      ]

  -- Processor `k` has called `next_slot`.
  pub yields-Draining :
      (k : ℕ) (t : System)
      → k < n
      → Draining n processes (record s { cpu = update s.cpu k (at head (s.cpu k).vars); timer = t })
  yields-Draining k t lt = record {
    left = λ j lt' e. elim (Bool-cases (j == k)) [
      | inl q ↦
          absurd
            (cc (subst (λ b. (if b then at head (s.cpu k).vars else s.cpu j).pc ≡ leaving) q e))
      | inr q ↦ rw q (
          v.left j lt'
            (subst (λ b. (if b then at head (s.cpu k).vars else s.cpu j).pc ≡ leaving) q e))
    ];
    asks = λ j lt' e. elim (Bool-cases (j == k)) [
      | inl q ↦ absurd (subst (λ b. Has (if b then at head (s.cpu k).vars else s.cpu j).pc) q e)
      | inr q ↦
          rw q
            (v.asks j lt' (subst (λ b. Has (if b then at head (s.cpu k).vars else s.cpu j).pc) q e))
    ];
    ends = v.ends;
    ended = v.ended;
    drained = λ a. absurd (subst (λ (x : Cpu). Away x.pc x.vars) (update_self s.cpu k _) (a k lt));
  }

  -- The devices change, and what is pending stays so, or is not.
  pub devices-Draining :
      (t : System)
      → (AllAway n s.cpu
          → Pending n s.done s.ld_pc s.timer.device
          → Pending n s.done s.ld_pc t.device)
      → Draining n processes (record s { timer = t })
  devices-Draining t h = record {
    left = v.left;
    asks = v.asks;
    ends = v.ends;
    ended = v.ended;
    drained = λ a. elim (v.drained a) [
      | inl none_ready ↦ inl none_ready
      | inr pending ↦ inr (h a pending)
    ];
  }

  pub Kept-Draining :
      (t : System)
      → ((j : ℕ) → Kept (s.timer.device j) (t.device j))
      → Draining n processes (record s { timer = t })
  Kept-Draining t h = devices-Draining t (λ a (d, parked, slots). (
    d,
    elim parked as (λ _. (s.ld_pc ≡ yielding) ⊎ ((t.device ld_device).pc ≢ running)) [
      | inl e ↦ inl e
      | inr e ↦ inr (λ q. e ((h ld_device).ran q))
    ],
    λ k lt. (h (n - k)).slots ∙ slots k lt ∙ sym (h ld_device).slots,
  ))
