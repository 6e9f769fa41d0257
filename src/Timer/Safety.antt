-- ===== src/Timer/Safety.antt =====
-- What the timer promises to the threads of the simulator.
use hcmut_os_ossim_sierra.Prelude.{
  ℕ, suc, ◌%◌, ◌^◌, ◌≤◌, ◌<◌, ◌≡◌, ◌≢◌, refl, sym, ap, subst, Bool, true, false, arith, ◌⊎◌, inl,
  inr, ◌||◌, Bool-cases, ◌==◌,
}
use native.Mathlib.Decide.{dec_lt}
use hcmut_os_ossim_sierra.Timer.{
  DevicePc, running, testing, asleep, gone, TimerPc, head, checking, sleeping, releasing, exited,
  System, current_time, call, go_on, stopped, begin, sleep, count, all_finished, tick, release,
  again, Step, slot, timer, stop_timer, Reach,
}
use hcmut_os_ossim_sierra.Timer.Invariant.{Stage, before, counted, due, Fits}
use hcmut_os_ossim_sierra.Timer.Places.{running-Fits, asleep-Fits, gone-finished, finished-gone}
use hcmut_os_ossim_sierra.Timer.Moves.{all_counted, device-at, timer-at, Reach-Inv}

near_clock :
    (st : Stage) (ticks : ℕ) (pc : DevicePc) (done fsh : Bool) (slots : ℕ)
    → pc ≢ gone
    → Fits st ticks pc done fsh slots
    → (slots ≤ ticks) × (ticks ≤ suc slots)
near_clock st ticks gone done fsh slots h v = absurd (h refl)
near_clock st ticks running done fsh slots h v = ground arith
near_clock before ticks asleep done fsh slots h v = ground arith
near_clock counted ticks asleep done fsh slots h v = ground arith
near_clock due ticks asleep done fsh slots h v = ground arith
near_clock before ticks testing true fsh slots h v = ground arith
near_clock counted ticks testing true fsh slots h v = ground arith
near_clock due ticks testing true fsh slots h v = ground arith
near_clock st ticks testing false fsh slots h v = ground arith

-- The time that a device `i` reads outside `next_slot` is the number of its own slots, cut to 64
-- bits; every device `j` that has not detached has completed as many slots, or one less.
pub lockstep :
    {n : ℕ} {s : System}
    → Reach n s
    → (i j : ℕ) → i < n
    → j < n
    → (s.device i).pc ≡ running
    → (s.device j).pc ≢ gone
    → (current_time s ≡ (s.device i).slots % 2 ^ 64)
      × ((s.device j).slots ≤ (s.device i).slots)
      × ((s.device i).slots ≤ suc (s.device j).slots)
unfolding current_time
lockstep {n} {s} r i j lt lt' e h =
    let inv = Reach-Inv r in
    let v = running-Fits _ _ (s.device i) (inv.device i lt) e in
    let w = near_clock _ _ _ _ _ _ h (inv.device j lt') in
    (ap (λ k. k % 2 ^ 64) (sym v.3), omega arith, omega arith)

-- No race on `done` and `_time`: while a device is outside `next_slot`, the timer has not counted
-- every device, so it is not about to advance the clock, and if it releases devices it has released
-- this one.
pub timer_waits :
    {n : ℕ} {s : System}
    → Reach n s
    → (f e i j : ℕ) → j < n
    → (s.device j).pc ≡ running
    → (s.timer ≢ checking n f e) × ((s.timer ≢ releasing i) ⊎ (j < i))
timer_waits {n} {s} r f e i j lt h = (
  λ q.
      let v = running-Fits _ _ (s.device j) (all_counted (Reach-Inv r) q j lt) h in absurd (cc v.2),
  elim (dec_lt j i) [
    | yes below ↦ inr below
    | no above ↦ inl (λ q.
        let v = running-Fits _ _ (s.device j) (device-at (Reach-Inv r) q j lt) h in
        absurd (ground (arith, v.2)))
  ],
)

-- The timer leaves its loop only when every device has detached, so no device is left to wait.
pub exited-gone :
    {n : ℕ} {s : System} → Reach n s → s.timer ≡ exited → (j : ℕ) → j < n → (s.device j).pc ≡ gone
exited-gone {n} {s} r h j lt =
    let inv = Reach-Inv r in finished-gone _ s.ticks _ _ _ _ (timer-at inv h j lt) (inv.device j lt)

-- No deadlock and no lost wake-up: until the timer has left its loop and has been told to stop,
-- some thread has a step that no wait has to return unasked for.
pub no_deadlock :
    {n : ℕ} {s : System}
    → Reach n s
    → ((s.timer ≡ exited) × (s.timer_stop ≡ true)) ⊎ ((t : System) × Step n s t)
no_deadlock {n} {s} r = go s.timer refl
  where
    -- A device that the timer sleeps on is outside `next_slot`, or about to leave it.
    slept_on :
        (i : ℕ) (pc : DevicePc)
        → i < n
        → (s.device i).pc ≡ pc
        → (s.device i).id.done ≡ false
        → (s.device i).id.fsh ≡ false
        → (t : System) × Step n s t
    slept_on i running lt e hd hf = (_, slot i lt (call e))
    slept_on i testing lt e hd hf = (_, slot i lt (go_on e hd))
    slept_on i asleep lt e hd hf =
        let v = asleep-Fits _ _ (s.device i) ((Reach-Inv r).device i lt) e in absurd (cc v.1)
    slept_on i gone lt e hd hf =
        let v = gone-finished _ _ _ _ _ _ e ((Reach-Inv r).device i lt) in absurd (cc v)

    go :
        (t : TimerPc)
        → s.timer ≡ t
        → ((s.timer ≡ exited) × (s.timer_stop ≡ true)) ⊎ ((t : System) × Step n s t)
    go head e = elim (Bool-cases s.timer_stop) [
      | inl h ↦ inr (_, timer (stopped e h))
      | inr h ↦ inr (_, timer (begin e h))
    ]
    go (checking i f k) e = elim (dec_lt i n) [
      | yes lt ↦ elim (Bool-cases ((s.device i).id.done || (s.device i).id.fsh)) [
        | inl h ↦ inr (_, timer (count e lt h))
        | inr h ↦ inr (_, timer (sleep e lt h))
      ]
      | no ge ↦
          let v = timer-at (Reach-Inv r) e in
          let last : s.timer ≡ checking n f k =
            subst (λ m. s.timer ≡ checking m f k) (omega arith) e in
          elim (Bool-cases (f == k)) [
            | inl h ↦ inr (_, timer (all_finished last (ground arith)))
            | inr h ↦ inr (_, timer (tick last (ground arith)))
          ]
    ]
    go (sleeping i f k) e = let v = timer-at (Reach-Inv r) e in inr (slept_on i _ v.0 refl v.3 v.4)
    go (releasing i) e = elim (dec_lt i n) [
      | yes lt ↦ inr (_, timer (release e lt))
      | no ge ↦
          let v = timer-at (Reach-Inv r) e in
          inr (_, timer (again (subst (λ m. s.timer ≡ releasing m) (omega arith) e)))
    ]
    go exited e = elim (Bool-cases s.timer_stop) [
      | inl h ↦ inl (e, h)
      | inr h ↦ inr (_, stop_timer (λ j lt. exited-gone r e j lt))
    ]
