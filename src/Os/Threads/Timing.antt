-- ===== src/Os/Threads/Timing.antt =====
-- Where a thread of the simulator stands agrees with where its device stands; the clock is in
-- `Timing.Clock`.
pub mod Clock
use hcmut_os_ossim_sierra.Prelude.{
  ℕ, ◌-◌, ◌<◌, ◌≡◌, ◌≢◌, refl, sym, ap, ◌∙◌, subst, false, List, update, update_self, update_ne,
  Bool-cases, inl, inr, ◌==◌, arith,
}
use hcmut_os_ossim_sierra.Mm.{VmRg}
use hcmut_os_ossim_sierra.Loader.{Loaded}
use hcmut_os_ossim_sierra.Timer.{Device, running, gone, System}
use hcmut_os_ossim_sierra.Timer
use hcmut_os_ossim_sierra.Timer.Kept.{
  Kept, same-Kept, other-Kept, TimerRoutine-Kept, Unasked-Kept, stays, returns, NextSlot-Inside,
}
use hcmut_os_ossim_sierra.Os.{Machine, LdProcess, LdOutcome, waits, loads, all_done}
use hcmut_os_ossim_sierra.Os.Threads.{
  CpuPc, head, charging, storing, freeing, getting, asking, rechecking, calling, leaving, Cpu,
  yielding, ending, Simulator, boot, ld_device, after_ld, Step, Reach, works, yields, detaches,
  loader, loader_yields, loader_detaches, in_next_slot, timer, unasked, stop_timer, start, later,
}

-- The places inside a round, away from both calls of timer.c and the top of the loop.
abbrev pub Busy : CpuPc → Type 0
Busy head = ⊥
Busy leaving = ⊥
Busy (charging t) = Unit
Busy (storing t prio v) = Unit
Busy freeing = Unit
Busy (getting b) = Unit
Busy asking = Unit
Busy rechecking = Unit
Busy calling = Unit

-- A thread that is in a round is not inside `next_slot`, and only one that has left its loop has
-- detached.
pub record Placed (num_cpus : ℕ) (s : Simulator) : Type 0 where
  pub busy :
      (k : ℕ) → k < num_cpus → Busy (s.cpu k).pc → (s.timer.device (num_cpus - k)).pc ≡ running
  pub left :
      (k : ℕ) → k < num_cpus → (s.timer.device (num_cpus - k)).pc ≡ gone → (s.cpu k).pc ≡ leaving
  pub ld_busy : s.ld_pc ≡ yielding → (s.timer.device ld_device).pc ≡ running
  pub ld_left : (s.timer.device ld_device).pc ≡ gone → s.ld_pc ≡ ending

module _ {num_cpus : ℕ} {s : Simulator} (v : Placed num_cpus s) where
  -- A step of the timer that leaves every thread where it is.
  pub Kept-Placed :
      {t : System}
      → ((j : ℕ) → Kept (s.timer.device j) (t.device j))
      → Placed num_cpus (record s { timer = t })
  Kept-Placed h = record {
    busy = λ k lt b. (h (num_cpus - k)).runs (v.busy k lt b);
    left = λ k lt e. v.left k lt ((h (num_cpus - k)).left e);
    ld_busy = λ e. (h ld_device).runs (v.ld_busy e);
    ld_left = λ e. v.ld_left ((h ld_device).left e);
  }

  -- A processor acts, and may change its device.
  acts-Placed :
      {t : Simulator} (k : ℕ)
      → k < num_cpus
      → ((j : ℕ) → j ≢ k → t.cpu j ≡ s.cpu j)
      → ((j : ℕ) → j ≢ num_cpus - k → Kept (s.timer.device j) (t.timer.device j))
      → (Busy (t.cpu k).pc → (t.timer.device (num_cpus - k)).pc ≡ running)
      → ((t.timer.device (num_cpus - k)).pc ≡ gone → (t.cpu k).pc ≡ leaving)
      → t.ld_pc ≡ s.ld_pc
      → Placed num_cpus t
  acts-Placed {t} k lt cpus devices busy' left' ld = record {
    busy = λ j lt' b. elim (Bool-cases (j == k)) [
      | inl e ↦
          let same : k ≡ j = ground arith in
          subst (λ j. Busy (t.cpu j).pc → (t.timer.device (num_cpus - j)).pc ≡ running) same busy' b
      | inr e ↦
          (devices (num_cpus - j) (omega (arith, apart j k lt' lt e))).runs
            (v.busy j lt' (subst (λ (c : Cpu). Busy c.pc) (cpus j (ground arith)) b))
    ];
    left = λ j lt' b. elim (Bool-cases (j == k)) [
      | inl e ↦
          let same : k ≡ j = ground arith in
          subst (λ j. (t.timer.device (num_cpus - j)).pc ≡ gone → (t.cpu j).pc ≡ leaving) same left'
            b
      | inr e ↦
          ap (λ (c : Cpu). c.pc) (cpus j (ground arith))
          ∙ v.left j lt' ((devices (num_cpus - j) (omega (arith, apart j k lt' lt e))).left b)
    ];
    ld_busy = λ e. (devices ld_device (omega arith)).runs (v.ld_busy (sym ld ∙ e));
    ld_left = λ e. ld ∙ v.ld_left ((devices ld_device (omega arith)).left e);
  }
    where
      apart :
          (j k : ℕ) → j < num_cpus → k < num_cpus → (j == k) ≡ false → num_cpus - j ≢ num_cpus - k
      apart j k lt lt' e = ground arith

  -- The loader acts, and may change its device.
  loader-Placed :
      {t : Simulator}
      → t.cpu ≡ s.cpu
      → ((j : ℕ) → j ≢ ld_device → Kept (s.timer.device j) (t.timer.device j))
      → (t.ld_pc ≡ yielding → (t.timer.device ld_device).pc ≡ running)
      → ((t.timer.device ld_device).pc ≡ gone → t.ld_pc ≡ ending)
      → Placed num_cpus t
  loader-Placed {t} cpus devices busy' left' = record {
    busy = λ k lt b.
        (devices (num_cpus - k) (omega arith)).runs
          (v.busy k lt (subst (λ (c : ℕ → Cpu). Busy (c k).pc) cpus b));
    left = λ k lt e.
        ap (λ (c : ℕ → Cpu). (c k).pc) cpus
        ∙ v.left k lt ((devices (num_cpus - k) (omega arith)).left e);
    ld_busy = busy';
    ld_left = left';
  }

-- What a return from `next_slot` leaves of the places.
returned-Placed :
    {num_cpus : ℕ} {s : Simulator} {t : System} (i : ℕ)
    → Placed num_cpus s
    → (s.timer.device i).pc ≢ running
    → t.device ≡ update s.timer.device i (Timer.returned (s.timer.device i))
    → Placed num_cpus (record s { timer = t })
returned-Placed {num_cpus} {s} {t} i v h e = record {
  busy = λ k lt b. runs (num_cpus - k) (v.busy k lt b);
  left = λ k lt b. v.left k lt (was_gone (num_cpus - k) b);
  ld_busy = λ b. runs ld_device (v.ld_busy b);
  ld_left = λ b. v.ld_left (was_gone ld_device b);
}
  where
    runs : (j : ℕ) → (s.timer.device j).pc ≡ running → (t.device j).pc ≡ running
    runs j q =
        rw e (elim (Bool-cases (j == i)) [ inl same ↦ rw same refl | inr other ↦ rw other q ])

    was_gone : (j : ℕ) → (t.device j).pc ≡ gone → (s.timer.device j).pc ≡ gone
    was_gone j q =
        let q' = subst (λ (d : ℕ → Device). (d j).pc ≡ gone) e q in
        elim (Bool-cases (j == i)) [
          | inl same ↦ absurd (ground (arith, q'))
          | inr other ↦ ground (arith, q')
        ]

module _ {stale : List ℕ} {junk : ℕ} {stale_rg : List VmRg} {time_slot num_cpus : ℕ}
    {processes : List LdProcess} {program : ℕ → Loaded} where
  Step-Placed :
      {s t : Simulator}
      → Step stale junk stale_rg time_slot num_cpus processes program s t
      → Placed num_cpus s
      → Placed num_cpus t
  Step-Placed {s} (works {m} {c} k lt e w) v =
      acts-Placed v k lt (λ j h. update_ne s.cpu k j c h) (λ j h. same-Kept (s.timer.device j))
        (λ _. e) (λ q. absurd (cc)) refl
  Step-Placed {s} (yields k lt e w) v =
      acts-Placed v k lt (λ j h. update_ne s.cpu k j _ h)
        (λ j h. other-Kept s.timer.device (num_cpus - k) j _ h)
        (λ b. absurd (subst (λ (c : Cpu). Busy c.pc) (update_self s.cpu k _) b))
        (λ q. absurd (ground (arith, q))) refl
  Step-Placed {s} (detaches k lt e w) v =
      acts-Placed v k lt (λ j h. refl) (λ j h. other-Kept s.timer.device (num_cpus - k) j _ h)
        (λ b. absurd (subst Busy w b)) (λ q. w) refl
  Step-Placed {s} (loader {o} raw stale_list raw_mm unset_id address e w ne free r) v = ran o
    where
      ran : (o : LdOutcome) → Placed num_cpus (after_ld s o)
      ran waits =
          loader-Placed v refl (λ j h. same-Kept (s.timer.device j)) (λ _. e) (λ q. absurd (cc))
      ran (loads m i) =
          loader-Placed v refl (λ j h. same-Kept (s.timer.device j)) (λ _. e) (λ q. absurd (cc))
      ran all_done =
          loader-Placed v refl (λ j h. same-Kept (s.timer.device j)) (λ _. e) (λ q. absurd (cc))
  Step-Placed {s} (loader_yields e w) v =
      loader-Placed v refl (λ j h. other-Kept s.timer.device ld_device j _ h) (λ q. absurd (cc))
        (λ q. absurd (ground (arith, q)))
  Step-Placed {s} (loader_detaches e w) v =
      loader-Placed v refl (λ j h. other-Kept s.timer.device ld_device j _ h) (λ q. absurd (cc))
        (λ q. w)
  Step-Placed {s} (in_next_slot i lt h m) v = elim (NextSlot-Inside h m) [
    | stays k ↦ Kept-Placed v k
    | returns _ _ e ↦ returned-Placed i v h e
  ]
  Step-Placed {s} (timer m) v = Kept-Placed v (TimerRoutine-Kept m)
  Step-Placed {s} (stop_timer h) v = Kept-Placed v (λ j. same-Kept (s.timer.device j))

  module _ {stale_mem : List ℕ} {raw : Machine} {memramsz : ℕ} {memswpsz : ℕ → ℕ} where
    pub Reach-Placed :
        {s : Simulator}
        → Reach stale junk stale_rg time_slot num_cpus processes program stale_mem raw memramsz
            memswpsz s
        → Placed num_cpus s
    unfolding boot
    Reach-Placed start = record {
      busy = λ k lt b. absurd b;
      left = λ k lt e. absurd (cc);
      ld_busy = λ e. absurd (cc);
      ld_left = λ e. absurd (cc);
    }
    Reach-Placed (later r m) = Step-Placed m (Reach-Placed r)
    Reach-Placed (unasked r m) = Kept-Placed (Reach-Placed r) (Unasked-Kept m)
