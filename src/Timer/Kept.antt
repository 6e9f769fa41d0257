-- ===== src/Timer/Kept.antt =====
-- What a step of timer.c leaves of a device that another thread has.
use hcmut_os_ossim_sierra.Prelude.{
  ℕ, ◌≡◌, ◌≢◌, refl, false, update, arith, ◌==◌, Bool-cases, inl, inr,
}
use hcmut_os_ossim_sierra.Timer.{
  Device, DevicePc, running, testing, asleep, gone, System, released, wake_device, TimerRoutine,
  stopped, begin, sleep, count, all_finished, tick, release, again, Unasked, timer_wakes,
  device_wakes, NextSlot, call, wait, go_on, moved, returned,
}

-- It is outside `next_slot` if it was, it has detached only if it had, and its slots are as many.
pub record Kept (d : Device) (d' : Device) : Type 0 where
  pub runs : d.pc ≡ running → d'.pc ≡ running
  pub ran : d'.pc ≡ running → d.pc ≡ running
  pub left : d'.pc ≡ gone → d.pc ≡ gone
  pub slots : d'.slots ≡ d.slots

pub same-Kept : (d : Device) → Kept d d
same-Kept d = record { runs = λ e. e; ran = λ e. e; left = λ e. e; slots = refl }

-- All but one device are left alone.
pub other-Kept : (dev : ℕ → Device) (i j : ℕ) (d : Device) → j ≢ i → Kept (dev j) (update dev i d j)
other-Kept dev i j d h = elim (Bool-cases (j == i)) [
  | inl e ↦ absurd (h (ground arith))
  | inr e ↦ rw e (same-Kept (dev j))
]

update-Kept :
    (dev : ℕ → Device) (i : ℕ) (d : Device)
    → Kept (dev i) d
    → (j : ℕ) → Kept (dev j) (update dev i d j)
update-Kept dev i d k j = elim (Bool-cases (j == i)) [
  | inl e ↦ let same : j ≡ i = ground arith in rw e (rw same k)
  | inr e ↦ rw e (same-Kept (dev j))
]

wake_device_lem :
    (pc : DevicePc)
    → (pc ≡ running → wake_device pc ≡ running)
      × (wake_device pc ≡ running → pc ≡ running)
      × (wake_device pc ≡ gone → pc ≡ gone)
wake_device_lem running = (λ e. e, λ e. e, λ e. e)
wake_device_lem testing = (λ e. e, λ e. e, λ e. e)
wake_device_lem asleep = (λ e. absurd (cc), λ e. absurd (cc), λ e. absurd (cc))
wake_device_lem gone = (λ e. e, λ e. e, λ e. e)

released-Kept : (d : Device) → Kept d (released d)
released-Kept d =
    let w = wake_device_lem d.pc in record { runs = w.0; ran = w.1; left = w.2; slots = refl }

pub TimerRoutine-Kept :
    {n : ℕ} {s t : System} → TimerRoutine n s t → (j : ℕ) → Kept (s.device j) (t.device j)
TimerRoutine-Kept {s} (stopped _ _) j = same-Kept (s.device j)
TimerRoutine-Kept {s} (begin _ _) j = same-Kept (s.device j)
TimerRoutine-Kept {s} (sleep _ _ _) j = same-Kept (s.device j)
TimerRoutine-Kept {s} (count _ _ _) j = same-Kept (s.device j)
TimerRoutine-Kept {s} (all_finished _ _) j = same-Kept (s.device j)
TimerRoutine-Kept {s} (tick _ _) j = same-Kept (s.device j)
TimerRoutine-Kept {s} (release {i} _ _) j =
    update-Kept s.device i (released (s.device i)) (released-Kept (s.device i)) j
TimerRoutine-Kept {s} (again _) j = same-Kept (s.device j)

-- Between two places inside `next_slot`.
waiting-Kept :
    (d : Device) (pc : DevicePc) → d.pc ≢ running → pc ≢ running → pc ≢ gone → Kept d (moved pc d)
waiting-Kept d pc h h' h'' = record {
  runs = λ e. absurd (h e);
  ran = λ e. absurd (h' e);
  left = λ e. absurd (h'' e);
  slots = refl;
}

pub Unasked-Kept : {s t : System} → Unasked s t → (j : ℕ) → Kept (s.device j) (t.device j)
Unasked-Kept {s} (timer_wakes _) j = same-Kept (s.device j)
Unasked-Kept {s} (device_wakes i e) j =
    update-Kept s.device i (moved testing (s.device i))
      (waiting-Kept (s.device i) testing (λ q. cc) (λ q. cc) (λ q. cc)) j

-- A thread inside `next_slot` stays, or goes on with its next slot.
pub data Inside (s : System) (i : ℕ) (t : System) : Type 0 where
  stays : ((j : ℕ) → Kept (s.device j) (t.device j)) → Inside s i t
  returns :
      (s.device i).pc ≡ testing
      → (s.device i).id.done ≡ false
      → t.device ≡ update s.device i (returned (s.device i))
      → Inside s i t

pub NextSlot-Inside :
    {s : System} {i : ℕ} {t : System} → (s.device i).pc ≢ running → NextSlot s i t → Inside s i t
NextSlot-Inside h (call e) = absurd (h e)
NextSlot-Inside {s} {i} h (wait e _) = stays (
    update-Kept s.device i (moved asleep (s.device i))
      (waiting-Kept (s.device i) asleep (λ q. cc) (λ q. cc) (λ q. cc)))
NextSlot-Inside {s} {i} h (go_on e e') = returns e e' refl
