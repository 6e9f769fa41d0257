-- ===== src/Timer.antt =====
-- src/timer.c: the thread that advances the clock, and the devices that it keeps in step, as a step
-- relation on their shared fields and on where each thread stands. A step is what a thread does
-- under one lock; `pthread_cond_wait` gives the lock back and may also return unasked.
pub mod Invariant
pub mod Places
pub mod Moves
pub mod Safety
pub mod Kept
pub mod Release
use hcmut_os_ossim_sierra.Prelude.{
  ℕ, zero, suc, ◌+◌, ◌%◌, ◌^◌, ◌<◌, ◌≡◌, ◌≢◌, Bool, true, false, Option, none, some, ◌==◌,
  if◌then◌else◌, ◌||◌, update, List, [], ◌∷◌,
}

-- `struct timer_id_t`. What its locks and conditions do is in the steps below.
pub record TimerId : Type 0 where
  pub done : Bool
  pub fsh : Bool

abbrev pub attached : TimerId
attached = record { done = false; fsh = false }

-- The static `dev_list` and `timer_started`, before the threads run.
pub record Attachable : Type 0 where
  pub dev_list : List TimerId
  pub timer_started : Bool

-- The new device stands first in the list; NULL, which is `none`, once the timer runs.
unfoldable pub attach_event : Attachable → Option TimerId × Attachable
attach_event a =
    if a.timer_started
    then (none, a)
    else (some attached, record a { dev_list = attached ∷ a.dev_list })

-- What `start_timer` does before it creates the thread.
unfoldable pub start_timer : Attachable → Attachable
start_timer a = record a { timer_started = true }

-- Where the thread of a device stands: outside timer.c, before the test of the `while` of
-- `next_slot`, asleep on `timer_cond` there, or past its `detach_event`.
pub data DevicePc : Type 0 where
  running : DevicePc
  testing : DevicePc
  asleep : DevicePc
  gone : DevicePc

-- `slots` counts the returns of `next_slot`; the code does not keep it.
pub record Device : Type 0 where
  pub id : TimerId
  pub pc : DevicePc
  pub slots : ℕ

-- Where `timer_routine` stands, with `temp` as a position in `dev_list`, `fsh` and `event`.
pub data TimerPc : Type 0 where
  head : TimerPc
  checking : (temp fsh event : ℕ) → TimerPc
  sleeping : (temp fsh event : ℕ) → TimerPc
  releasing : (temp : ℕ) → TimerPc
  exited : TimerPc

-- `device` follows `dev_list`. `ticks` is `_time` before it is cut to 64 bits.
pub record System : Type 0 where
  pub device : ℕ → Device
  pub timer : TimerPc
  pub ticks : ℕ
  pub timer_stop : Bool

unfoldable pub current_time : System → ℕ
current_time s = s.ticks % 2 ^ 64

abbrev pub set_device : System → ℕ → Device → System
set_device s i d = record s { device = update s.device i d }

-- `pthread_cond_signal(&event_cond)`: the timer wakes if it sleeps on this device.
abbrev pub wake_timer : ℕ → TimerPc → TimerPc
wake_timer i (sleeping temp fsh event) =
    if temp == i then checking temp fsh event else sleeping temp fsh event
wake_timer i head = head
wake_timer i (checking temp fsh event) = checking temp fsh event
wake_timer i (releasing temp) = releasing temp
wake_timer i exited = exited

-- `pthread_cond_signal(&timer_cond)`
abbrev pub wake_device : DevicePc → DevicePc
wake_device asleep = testing
wake_device running = running
wake_device testing = testing
wake_device gone = gone

abbrev pub set_done : Bool → TimerId → TimerId
set_done b id = record id { done = b }

abbrev pub called : Device → Device
called d = record d { id = set_done true d.id; pc = testing }

abbrev pub returned : Device → Device
returned d = record d { pc = running; slots = suc d.slots }

abbrev pub moved : DevicePc → Device → Device
moved pc d = record d { pc = pc }

pub data NextSlot (s : System) (i : ℕ) : System → Type 0 where
  call :
      (s.device i).pc ≡ running
      → NextSlot s i (record s {
        device = update s.device i (called (s.device i));
        timer = wake_timer i s.timer;
      })
  wait :
      (s.device i).pc ≡ testing
      → (s.device i).id.done ≡ true
      → NextSlot s i (set_device s i (moved asleep (s.device i)))
  go_on :
      (s.device i).pc ≡ testing
      → (s.device i).id.done ≡ false
      → NextSlot s i (set_device s i (returned (s.device i)))

abbrev pub detached : Device → Device
detached d = record d { id = record { done = d.id.done; fsh = true }; pc = gone }

abbrev pub detach_event : System → ℕ → System
detach_event s i = record s {
  device = update s.device i (detached (s.device i));
  timer = wake_timer i s.timer;
}

-- `if (temp->id.fsh) fsh++;`
abbrev pub tally : Bool → ℕ → ℕ
tally b n = if b then suc n else n

abbrev pub released : Device → Device
released d = record d { id = set_done false d.id; pc = wake_device d.pc }

pub data TimerRoutine (n : ℕ) (s : System) : System → Type 0 where
  stopped : s.timer ≡ head → s.timer_stop ≡ true → TimerRoutine n s (record s { timer = exited })
  begin :
      s.timer ≡ head → s.timer_stop ≡ false → TimerRoutine n s (record s { timer = checking 0 0 0 })
  sleep :
      {i f e : ℕ}
      → s.timer ≡ checking i f e
      → i < n
      → ((s.device i).id.done || (s.device i).id.fsh) ≡ false
      → TimerRoutine n s (record s { timer = sleeping i f e })
  count :
      {i f e : ℕ}
      → s.timer ≡ checking i f e
      → i < n
      → ((s.device i).id.done || (s.device i).id.fsh) ≡ true
      → TimerRoutine n s
          (record s { timer = checking (suc i) (tally (s.device i).id.fsh f) (suc e) })
  all_finished :
      {f e : ℕ} → s.timer ≡ checking n f e → f ≡ e → TimerRoutine n s (record s { timer = exited })
  tick :
      {f e : ℕ}
      → s.timer ≡ checking n f e
      → f ≢ e
      → TimerRoutine n s (record s { timer = releasing 0; ticks = suc s.ticks })
  release :
      {i : ℕ}
      → s.timer ≡ releasing i
      → i < n
      → TimerRoutine n s (record s {
        device = update s.device i (released (s.device i));
        timer = releasing (suc i);
      })
  again : s.timer ≡ releasing n → TimerRoutine n s (record s { timer = head })

-- A wait that returns though nobody has signalled.
pub data Unasked (s : System) : System → Type 0 where
  timer_wakes :
      {i f e : ℕ} → s.timer ≡ sleeping i f e → Unasked s (record s { timer = checking i f e })
  device_wakes :
      (i : ℕ) → (s.device i).pc ≡ asleep → Unasked s (set_device s i (moved testing (s.device i)))

-- `stop_timer` is called when the threads of all devices have been joined (`main` of os.c).
pub data Step (n : ℕ) (s : System) : System → Type 0 where
  slot : {t : System} (i : ℕ) → i < n → NextSlot s i t → Step n s t
  detach : (i : ℕ) → i < n → (s.device i).pc ≡ running → Step n s (detach_event s i)
  timer : {t : System} → TimerRoutine n s t → Step n s t
  stop_timer :
      ((i : ℕ) → i < n → (s.device i).pc ≡ gone) → Step n s (record s { timer_stop = true })

abbrev pub init : System
init = record {
  device = λ _. record { id = attached; pc = running; slots = 0 };
  timer = head;
  ticks = 0;
  timer_stop = false;
}

pub data Reach (n : ℕ) : System → Type 0 where
  start : Reach n init
  later : {s t : System} → Reach n s → Step n s t → Reach n t
  spurious : {s t : System} → Reach n s → Unasked s t → Reach n t
