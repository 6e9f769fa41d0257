-- ===== src/Os/Threads/Draining/Steps.antt =====
-- What the steps of the loader, and the returns from `next_slot`, keep of the draining.
use hcmut_os_ossim_sierra.Prelude.{
  ℕ, suc, ◌-◌, ◌<◌, ◌≡◌, ◌≢◌, refl, sym, ap, ◌∙◌, subst, false, List, ◌==◌, ◌⊎◌, inl, inr, update,
  Bool-cases, arith,
}
use hcmut_os_ossim_sierra.Loader.{Loaded}
use hcmut_os_ossim_sierra.Timer.{
  System, Device, running, testing, gone, called, returned, detached, detach_event, exited,
}
use hcmut_os_ossim_sierra.Timer
use hcmut_os_ossim_sierra.Timer.Kept.{Kept, other-Kept}
use hcmut_os_ossim_sierra.Os.{LdProcess, LdOutcome, waits, loads, all_done}
use hcmut_os_ossim_sierra.Os.Threads.{looping, yielding, Simulator, enter, ld_device, after_ld}
use hcmut_os_ossim_sierra.Os.Threads.Timing.{Placed}
use hcmut_os_ossim_sierra.Os.Threads.Timing.Clock.{slots-running, slots-returning}
use hcmut_os_ossim_sierra.Os.Threads.Loads.{Round}
use hcmut_os_ossim_sierra.Os.Threads.Draining.{NoneReady}
use hcmut_os_ossim_sierra.Os.Threads.Draining.States.{
  Draining, AllAway, away-running, devices-Draining,
}

module _ {n : ℕ} {processes : List LdProcess} {s : Simulator} (v : Draining n processes s)
    (some_cpu : 0 < n) (places : Placed n s) (timed : Timer.Reach (suc n) s.timer) where
  -- While the processors are away, no thread comes back from `next_slot` but to leave things so.
  pub returns-Draining :
      (t : System) (i : ℕ)
      → i < suc n
      → (s.timer.device i).pc ≢ running
      → (s.timer.device i).pc ≡ testing
      → (s.timer.device i).id.done ≡ false
      → t.device ≡ update s.timer.device i (returned (s.timer.device i))
      → Draining n processes (record s { timer = t })
  returns-Draining t i lt away pc done e = devices-Draining v t (λ a (d, parked, slots).
      let run = away-running v places d a in
      let kept = λ (x : ℕ) (h : x ≢ i).
        subst (λ (dev : ℕ → Device). Kept (s.timer.device x) (dev x)) (sym e)
          (other-Kept s.timer.device i x (returned (s.timer.device i)) h) in
      let others = λ (k : ℕ) (lt' : k < n).
        kept (n - k) (λ q. away (subst (λ x. (s.timer.device x).pc ≡ running) q (run k lt'))) in
      elim (Bool-cases (i == ld_device)) [
        | inl same ↦
            let at_ld : i ≡ ld_device = ground arith in
            absurd (
              omega (
                arith,
                slots-returning i timed lt pc done,
                slots-running (n - 0) timed (omega arith) (run 0 some_cpu),
                slots 0 some_cpu,
                ap (λ x. (s.timer.device x).slots) at_ld,
              ))
        | inr other ↦
            let ld_kept = kept ld_device (ground arith) in
            (
              d,
              elim parked as (λ _. (s.ld_pc ≡ yielding) ⊎ ((t.device ld_device).pc ≢ running)) [
                | inl q ↦ inl q
                | inr q ↦ inr (λ r. q (ld_kept.ran r))
              ],
              λ k lt'. (others k lt').slots ∙ slots k lt' ∙ sym ld_kept.slots,
            )
      ])

  -- A round of the loader.
  pub loader-Draining :
      (address : ℕ) (proc : Loaded) (o : LdOutcome)
      → (s.timer.device ld_device).pc ≡ running
      → s.ld_pc ≡ looping
      → Round processes address proc s.machine s.i o
      → Draining n processes (after_ld s o)
  loader-Draining address proc o run pc r = go o r
    where
      going : s.done ≡ false
      going = elim (Bool-cases s.done) [ inl e ↦ absurd (cc (v.ends e, pc)) | inr e ↦ e ]

      settled : AllAway n s.cpu → NoneReady s.machine
      settled a = elim (v.drained a) [
        | inl none_ready ↦ none_ready
        | inr (_, inl e, _) ↦ absurd (cc (e, pc))
        | inr (_, inr e, _) ↦ absurd (e run)
      ]

      go :
          (o : LdOutcome)
          → Round processes address proc s.machine s.i o
          → Draining n processes (after_ld s o)
      go waits r = record {
        left = v.left;
        asks = v.asks;
        ends = λ e. absurd (cc (e, going));
        ended = λ e. absurd (cc);
        drained = λ a. inl (settled a);
      }
      go (loads m i) r = record {
        left = v.left;
        asks = v.asks;
        ends = λ e. absurd (cc (e, going));
        ended = λ e. absurd (cc);
        drained = λ a. inr (
          going,
          inl refl,
          λ k lt.
              slots-running (n - k) timed (omega arith) (away-running v places going a k lt)
              ∙ sym (slots-running ld_device timed (omega arith) run),
        );
      }
      go all_done r = record {
        left = λ k lt e. (refl, (v.left k lt e).1);
        asks = v.asks;
        ends = λ _. refl;
        ended = λ _. (refl, r);
        drained = λ a. inl (settled a);
      }

  -- The loader calls `next_slot`.
  pub loader_yields-Draining :
      s.ld_pc ≡ yielding
      → Draining n processes (record s { ld_pc = looping; timer = enter s.timer ld_device })
  loader_yields-Draining pc = record {
    left = v.left;
    asks = v.asks;
    ends = λ e. absurd (cc (v.ends e, pc));
    ended = λ e. absurd (cc);
    drained = λ a. elim (v.drained a) [
      | inl none_ready ↦ inl none_ready
      | inr (d, _, slots) ↦
          inr (d, inr (λ e. absurd (cc)), λ k lt. (others k lt).slots ∙ slots k lt)
    ];
  }
    where
      others :
          (k : ℕ) → k < n → Kept (s.timer.device (n - k)) ((enter s.timer ld_device).device (n - k))
      others k lt =
          other-Kept s.timer.device ld_device (n - k) (called (s.timer.device ld_device))
            (omega arith)
