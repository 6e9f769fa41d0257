-- ===== src/Tests/Clock.antt =====
-- The timer with two devices, and with one that detaches.
use hcmut_os_ossim_sierra.Prelude.{ℕ, suc, ◌%◌, ◌^◌, ◌≤◌, ◌<◌, ◌≡◌, ◌≢◌, refl, true, arith, ◌⊎◌}
use hcmut_os_ossim_sierra.Timer.{
  System, Reach, start, later, Step, slot, detach, timer, call, go_on, begin, count, sleep, tick,
  release, all_finished, init, current_time, exited, checking, releasing,
}
use hcmut_os_ossim_sierra.Timer.Safety.{lockstep, timer_waits, no_deadlock}

-- A state of `n` devices and how it is reached.
abbrev At : ℕ → Type 0
At n = (s : System) × Reach n s

abbrev at_start : (n : ℕ) → At n
at_start n = (init, start)

abbrev next : (n : ℕ) (a : At n) {t : System} → Step n a.0 t → At n
next n a {t} step = (t, later a.1 step)

-- Device 0 has called `next_slot`, and the timer sleeps on device 1.
abbrev one_called : At 2
one_called = next 2 (at_start 2) (slot 0 (omega arith) (call refl))

abbrev waits_for_1 : At 2
waits_for_1 =
    next 2
      (next 2 (next 2 one_called (timer (begin refl refl))) (timer (count refl (omega arith) refl)))
      (timer (sleep refl (omega arith) refl))

-- Device 1 calls it too; the clock advances, and device 0 is let go.
abbrev both_called : At 2
both_called = next 2 waits_for_1 (slot 1 (omega arith) (call refl))

abbrev ticked : At 2
ticked =
    next 2 (next 2 both_called (timer (count refl (omega arith) refl)))
      (timer (tick refl (omega arith)))

abbrev one_back : At 2
one_back =
    next 2 (next 2 ticked (timer (release refl (omega arith))))
      (slot 0 (omega arith) (go_on refl refl))

lockstep_example : (current_time one_back.0 ≡ 1 % 2 ^ 64) × (0 ≤ 1) × (1 ≤ suc 0)
lockstep_example = lockstep one_back.1 0 1 (omega arith) (omega arith) refl (ground arith)

timer_waits_example :
    (one_back.0.timer ≢ checking 2 0 2) × ((one_back.0.timer ≢ releasing 1) ⊎ (0 < 1))
timer_waits_example = timer_waits one_back.1 0 2 1 0 (omega arith) refl

no_deadlock_example :
    ((waits_for_1.0.timer ≡ exited) × (waits_for_1.0.timer_stop ≡ true))
    ⊎ ((t : System) × Step 2 waits_for_1.0 t)
no_deadlock_example = no_deadlock waits_for_1.1

-- The only device detaches.
abbrev left : At 1
left = next 1 (at_start 1) (detach 0 (omega arith) refl)

abbrev timer_left : At 1
timer_left =
    next 1 (next 1 (next 1 left (timer (begin refl refl))) (timer (count refl (omega arith) refl)))
      (timer (all_finished refl refl))
