-- ===== src/Timer/Moves.antt =====
-- Every step of a device, of the timer and of `stop_timer` keeps the invariant.
use hcmut_os_ossim_sierra.Prelude.{
  ℕ, suc, ◌<◌, ◌≡◌, refl, subst, true, false, arith, ltb, ◌==◌, inl, inr, update, Bool-cases,
  lt→ltb, ltb-false,
}
use hcmut_os_ossim_sierra.Timer.{
  Device, running, testing, asleep, TimerPc, head, checking, sleeping, releasing, exited, System,
  NextSlot, call, wait, go_on, TimerRoutine, stopped, begin, sleep, count, all_finished, tick,
  release, again, Unasked, timer_wakes, device_wakes, Step, slot, detach, timer, stop_timer,
  detach_event, Reach, called, returned, moved, detached, start, later, spurious, wake_timer,
}
use hcmut_os_ossim_sierra.Timer.Places.{
  running-Fits, called-Fits, waits-Fits, returned-Fits, woken-Fits, counted-Fits, due-Fits,
  released-Fits, finished-Fits, gone-finished,
}
use hcmut_os_ossim_sierra.Timer.Invariant.{
  before, counted, stage, DeviceFits, TimerFits, Inv, init-Inv, finished-update, finished-kept,
  finished-full,
}

stage-wake_timer : (i : ℕ) (t : TimerPc) (j : ℕ) → stage (wake_timer i t) j ≡ stage t j
stage-wake_timer i (sleeping k f e) j = ground arith
stage-wake_timer i head j = refl
stage-wake_timer i (checking k f e) j = refl
stage-wake_timer i (releasing k) j = refl
stage-wake_timer i exited j = refl

-- One device is set, the others keep what they had.
device-set :
    (n ticks : ℕ) (dev : ℕ → Device) (t : TimerPc) (i : ℕ) (d : Device)
    → ((j : ℕ) → j < n → DeviceFits (stage t j) ticks (dev j))
    → DeviceFits (stage t i) ticks d
    → (j : ℕ) → j < n
    → DeviceFits (stage t j) ticks (update dev i d j)
device-set n ticks dev t i d old new j h = elim (Bool-cases (j == i)) [
  | inl e ↦ rw e (subst (λ k. DeviceFits (stage t k) ticks d) (ground arith) new)
  | inr e ↦ rw e (old j h)
]

-- A device acts without a signal: its fields stay.
TimerFits-keep :
    (n : ℕ) (dev : ℕ → Device) (i : ℕ) (d : Device) (t : TimerPc)
    → d.id.fsh ≡ (dev i).id.fsh
    → d.id.done ≡ (dev i).id.done
    → TimerFits n dev t
    → TimerFits n (update dev i d) t
TimerFits-keep n dev i d head hf hd v = tt
TimerFits-keep n dev i d (checking k f e) hf hd (a, b, c) =
    ground (arith, finished-kept dev i d k hf)
TimerFits-keep n dev i d (sleeping k f e) hf hd v = ground (arith, finished-kept dev i d k hf)
TimerFits-keep n dev i d (releasing k) hf hd v = v
TimerFits-keep n dev i d exited hf hd v = λ j h. ground (arith, v j h)

-- A device that the timer has yet to count sets a field, and signals.
TimerFits-wake :
    (n : ℕ) (dev : ℕ → Device) (i : ℕ) (d : Device) (t : TimerPc)
    → stage t i ≡ before
    → ((dev i).id.fsh ≡ true → d.id.fsh ≡ true)
    → TimerFits n dev t
    → TimerFits n (update dev i d) (wake_timer i t)
TimerFits-wake n dev i d head hs hf v = tt
TimerFits-wake n dev i d (checking k f e) hs hf v =
    ground (arith, finished-update dev i d k (ground arith))
TimerFits-wake n dev i d (sleeping k f e) hs hf v = elim (Bool-cases (k == i)) [
  | inl e ↦ rw e (ground (arith, finished-update dev i d k (ground arith)))
  | inr e ↦ rw e (ground (arith, finished-update dev i d k (ground arith)))
]
TimerFits-wake n dev i d (releasing k) hs hf v = v
TimerFits-wake n dev i d exited hs hf v = λ j h. ground (arith, v j h, hf)

-- What moves past one device leaves the place of the others.
ltb-suc_ne : (j i : ℕ) → (j == i) ≡ false → ltb j (suc i) ≡ ltb j i
ltb-suc_ne j i h = ground arith

module _ {n : ℕ} {s : System} (inv : Inv n s) where
  pub device-at :
      {t : TimerPc} → s.timer ≡ t → (j : ℕ) → j < n → DeviceFits (stage t j) s.ticks (s.device j)
  device-at e j h = subst (λ t. DeviceFits (stage t j) s.ticks (s.device j)) e (inv.device j h)

  pub timer-at : {t : TimerPc} → s.timer ≡ t → TimerFits n s.device t
  timer-at e = subst (TimerFits n s.device) e inv.timer

  -- A device acts without a signal.
  quiet-Inv :
      (i : ℕ) (d : Device)
      → d.id.fsh ≡ (s.device i).id.fsh
      → d.id.done ≡ (s.device i).id.done
      → (i < n → DeviceFits (stage s.timer i) s.ticks d)
      → Inv n (record s { device = update s.device i d })
  quiet-Inv i d hf hd fit = record {
    device = λ j h. elim (Bool-cases (j == i)) [
      | inl e ↦ let same : j ≡ i = ground arith in rw e (rw same (fit (rw (← same) h)))
      | inr e ↦ rw e (inv.device j h)
    ];
    timer = TimerFits-keep n s.device i d s.timer hf hd inv.timer;
    stop = λ e j h. ground (arith, inv.stop e j h);
  }

  -- A running device sets a field of its own, and signals.
  signal-Inv :
      (i : ℕ) (d : Device)
      → i < n
      → (s.device i).pc ≡ running
      → ((s.device i).id.fsh ≡ true → d.id.fsh ≡ true)
      → DeviceFits (stage s.timer i) s.ticks d
      → Inv n (record s { device = update s.device i d; timer = wake_timer i s.timer })
  signal-Inv i d lt e hf fit = record {
    device =
        device-set n s.ticks s.device (wake_timer i s.timer) i d
          (λ j h. rw (stage-wake_timer i s.timer j) (inv.device j h))
          (rw (stage-wake_timer i s.timer i) fit);
    timer =
        TimerFits-wake n s.device i d s.timer (running-Fits _ _ (s.device i) (inv.device i lt) e).2
          hf inv.timer;
    stop = λ e j h. ground (arith, inv.stop e j h, hf);
  }

  NextSlot-Inv : (i : ℕ) {t : System} → i < n → NextSlot s i t → Inv n t
  NextSlot-Inv i lt (call e) =
      signal-Inv i (called (s.device i)) lt e (λ h. h)
        (called-Fits _ _ (s.device i) (inv.device i lt) e)
  NextSlot-Inv i lt (wait e h) =
      quiet-Inv i (moved asleep (s.device i)) refl refl
        (λ _. waits-Fits _ _ (s.device i) (inv.device i lt) e h)
  NextSlot-Inv i lt (go_on e h) =
      quiet-Inv i (returned (s.device i)) refl refl
        (λ _. returned-Fits _ _ (s.device i) (inv.device i lt) e h)

  detach-Inv : (i : ℕ) → i < n → (s.device i).pc ≡ running → Inv n (detach_event s i)
  detach-Inv i lt e = signal-Inv i (detached (s.device i)) lt e (λ h. refl) refl

  Unasked-Inv : {t : System} → Unasked s t → Inv n t
  Unasked-Inv (timer_wakes e) = record {
    device = λ j h. device-at e j h;
    timer = let v = timer-at e in (omega arith, v.1, v.2);
    stop = inv.stop;
  }
  Unasked-Inv (device_wakes i e) =
      quiet-Inv i (moved testing (s.device i)) refl refl
        (λ lt. woken-Fits _ _ (s.device i) (inv.device i lt) e)

  -- At the end of the count, every device has been counted.
  pub all_counted :
      {f e : ℕ}
      → s.timer ≡ checking n f e
      → (j : ℕ) → j < n
      → DeviceFits counted s.ticks (s.device j)
  all_counted {f} {e} h j lt =
      subst (λ st. DeviceFits st s.ticks (s.device j)) (rw (lt→ltb j n lt)) (device-at h j lt)

  all_fsh :
      {f k : ℕ} → s.timer ≡ checking n f k → f ≡ k → (j : ℕ) → j < n → (s.device j).id.fsh ≡ true
  all_fsh e h = let v = timer-at e in finished-full s.device n (omega arith)

  TimerRoutine-Inv : {t : System} → TimerRoutine n s t → Inv n t
  TimerRoutine-Inv (stopped e h) = record {
    device = λ j lt. device-at e j lt;
    timer = inv.stop h;
    stop = inv.stop;
  }
  TimerRoutine-Inv (begin e h) = record {
    device = λ j lt. rw (ltb-false j 0 (omega arith)) (device-at e j lt);
    timer = (omega arith, refl, refl);
    stop = inv.stop;
  }
  TimerRoutine-Inv (sleep {i} e lt h) = record {
    device = λ j lt. device-at e j lt;
    timer = let v = timer-at e in ground arith;
    stop = inv.stop;
  }
  TimerRoutine-Inv (count {i} e lt h) = record {
    device = λ j hj. elim (Bool-cases (j == i)) [
      | inl q ↦
          let same : j ≡ i = ground arith in
          rw same (
            rw (lt→ltb i (suc i) (omega arith)) (
              counted-Fits s.ticks _ _ _ _ h (
                subst (λ st. DeviceFits st s.ticks (s.device i)) (rw (ltb-false i i (omega arith)))
                  (device-at e i lt))))
      | inr q ↦ rw (ltb-suc_ne j i q) (device-at e j hj)
    ];
    timer = let v = timer-at e in ground arith;
    stop = inv.stop;
  }
  TimerRoutine-Inv (all_finished e h) = record {
    device = λ j lt.
        finished-Fits counted before s.ticks _ _ _ _ (all_fsh e h j lt) (all_counted e j lt);
    timer = all_fsh e h;
    stop = inv.stop;
  }
  TimerRoutine-Inv (tick e h) = record {
    device =
        λ j lt. rw (ltb-false j 0 (omega arith)) (due-Fits s.ticks _ _ _ _ (all_counted e j lt));
    timer = omega arith;
    stop = inv.stop;
  }
  TimerRoutine-Inv (release {i} e lt) = record {
    device = λ j hj. elim (Bool-cases (j == i)) [
      | inl q ↦
          let same : j ≡ i = ground arith in
          rw q (
            rw same (
              rw (lt→ltb i (suc i) (omega arith)) (
                released-Fits s.ticks _ _ _ _ (
                  subst (λ st. DeviceFits st s.ticks (s.device i))
                    (rw (ltb-false i i (omega arith))) (device-at e i lt)))))
      | inr q ↦ rw q (rw (ltb-suc_ne j i q) (device-at e j hj))
    ];
    timer = omega arith;
    stop = λ h j hj. ground (arith, inv.stop h j hj);
  }
  TimerRoutine-Inv (again e) = record {
    device = λ j lt.
        subst (λ st. DeviceFits st s.ticks (s.device j)) (rw (lt→ltb j n lt)) (device-at e j lt);
    timer = tt;
    stop = inv.stop;
  }

pub Step-Inv : {n : ℕ} {s t : System} → Step n s t → Inv n s → Inv n t
Step-Inv (slot i lt m) inv = NextSlot-Inv inv i lt m
Step-Inv (detach i lt e) inv = detach-Inv inv i lt e
Step-Inv (timer m) inv = TimerRoutine-Inv inv m
Step-Inv {s} (stop_timer all) inv = record {
  device = inv.device;
  timer = inv.timer;
  stop = λ _ j lt. gone-finished _ s.ticks _ _ _ _ (all j lt) (inv.device j lt);
}

pub Reach-Inv : {n : ℕ} {s : System} → Reach n s → Inv n s
Reach-Inv {n} start = init-Inv n
Reach-Inv (later r m) = Step-Inv m (Reach-Inv r)
Reach-Inv (spurious r m) = Unasked-Inv (Reach-Inv r) m
