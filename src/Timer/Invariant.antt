-- ===== src/Timer/Invariant.antt =====
-- What the fields of timer.c say about one another while the threads run.
use hcmut_os_ossim_sierra.Prelude.{
  ℕ, zero, suc, ◌+◌, ◌≤◌, ◌<◌, ◌≡◌, refl, Bool, true, false, arith, ltb, if◌then◌else◌, update,
}
use hcmut_os_ossim_sierra.Timer.{
  Device, DevicePc, running, testing, asleep, gone, TimerPc, head, checking, sleeping, releasing,
  exited, System, init, tally,
}

-- How the timer stands to a device in the present round: it has yet to count it, it has counted it,
-- or it has advanced the clock and has yet to release it.
pub data Stage : Type 0 where
  before : Stage
  counted : Stage
  due : Stage

abbrev pub stage : TimerPc → ℕ → Stage
stage head j = before
stage (checking i f e) j = if ltb j i then counted else before
stage (sleeping i f e) j = if ltb j i then counted else before
stage (releasing i) j = if ltb j i then before else due
stage exited j = before

abbrev pub lag : Stage → ℕ
lag before = 0
lag counted = 0
lag due = 1

-- The device against the clock.
abbrev pub Fits : Stage → ℕ → DevicePc → Bool → Bool → ℕ → Type 0
Fits st ticks gone done fsh slots = fsh ≡ true
Fits st ticks running done fsh slots =
    (fsh ≡ false) × (done ≡ false) × (st ≡ before) × (slots ≡ ticks)
Fits st ticks asleep done fsh slots = (fsh ≡ false) × (done ≡ true) × (slots + lag st ≡ ticks)
Fits st ticks testing true fsh slots = (fsh ≡ false) × (slots + lag st ≡ ticks)
Fits st ticks testing false fsh slots = (fsh ≡ false) × (st ≡ before) × (suc slots ≡ ticks)

abbrev pub DeviceFits : Stage → ℕ → Device → Type 0
DeviceFits st ticks d = Fits st ticks d.pc d.id.done d.id.fsh d.slots

-- The devices before `k` whose `fsh` is set.
abbrev pub finished : (ℕ → Device) → ℕ → ℕ
finished dev zero = 0
finished dev (suc k) = tally (dev k).id.fsh (finished dev k)

-- The locals of `timer_routine` against the devices.
abbrev pub TimerFits : ℕ → (ℕ → Device) → TimerPc → Type 0
TimerFits n dev head = Unit
TimerFits n dev (checking i f e) = (i ≤ n) × (e ≡ i) × (f ≡ finished dev i)
TimerFits n dev (sleeping i f e) =
    (i < n) × (e ≡ i) × (f ≡ finished dev i) × ((dev i).id.done ≡ false) × ((dev i).id.fsh ≡ false)
TimerFits n dev (releasing i) = i ≤ n
TimerFits n dev exited = (j : ℕ) → j < n → (dev j).id.fsh ≡ true

pub record Inv (n : ℕ) (s : System) : Type 0 where
  pub device : (j : ℕ) → j < n → DeviceFits (stage s.timer j) s.ticks (s.device j)
  pub timer : TimerFits n s.device s.timer
  pub stop : s.timer_stop ≡ true → (j : ℕ) → j < n → (s.device j).id.fsh ≡ true

pub init-Inv : (n : ℕ) → Inv n init
init-Inv n = record {
  device = λ j h. (refl, refl, refl, refl);
  timer = tt;
  stop = λ e. absurd (cc);
}

-- Changing a device from `k` on leaves the count of those before it.
pub finished-update :
    (dev : ℕ → Device) (i : ℕ) (d : Device) (k : ℕ)
    → k ≤ i
    → finished (update dev i d) k ≡ finished dev k
finished-update dev i d zero h = refl
finished-update dev i d (suc k) h = ground (arith, finished-update dev i d k (omega arith))

-- Changing a device without its `fsh` leaves every count.
pub finished-kept :
    (dev : ℕ → Device) (i : ℕ) (d : Device) (k : ℕ)
    → d.id.fsh ≡ (dev i).id.fsh
    → finished (update dev i d) k ≡ finished dev k
finished-kept dev i d zero h = refl
finished-kept dev i d (suc k) h = ground (arith, finished-kept dev i d k h)

finished-le : (dev : ℕ → Device) (k : ℕ) → finished dev k ≤ k
finished-le dev zero = omega arith
finished-le dev (suc k) = ground (arith, finished-le dev k)

-- A full count means that every device has finished.
pub finished-full :
    (dev : ℕ → Device) (k : ℕ) → finished dev k ≡ k → (j : ℕ) → j < k → (dev j).id.fsh ≡ true
finished-full dev zero e j h = absurd (omega arith)
finished-full dev (suc k) e j h = ground (arith, finished-le dev k, finished-full dev k _ j)
