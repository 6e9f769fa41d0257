-- ===== src/Timer/Places.antt =====
-- What each step does to the place of one device against the clock.
use hcmut_os_ossim_sierra.Prelude.{ℕ, suc, ◌≡◌, refl, subst, Bool, true, false, arith, ◌||◌}
use hcmut_os_ossim_sierra.Timer.{
  Device, DevicePc, running, testing, asleep, gone, called, returned, moved, detached, wake_device,
}
use hcmut_os_ossim_sierra.Timer.Invariant.{Stage, before, counted, due, Fits, DeviceFits}

-- What a device that stands at a given place may do, with what it then fits.
module _ (st : Stage) (ticks : ℕ) (d : Device) (v : DeviceFits st ticks d) where
  pub running-Fits :
      d.pc ≡ running → (d.id.fsh ≡ false) × (d.id.done ≡ false) × (st ≡ before) × (d.slots ≡ ticks)
  running-Fits e = subst (λ pc. Fits st ticks pc d.id.done d.id.fsh d.slots) e v

  pub called-Fits : d.pc ≡ running → DeviceFits st ticks (called d)
  called-Fits e = ground (arith, running-Fits e)

  pub detached-Fits : d.pc ≡ running → DeviceFits st ticks (detached d)
  detached-Fits e = refl

  pub testing-Fits :
      (b : Bool) → d.pc ≡ testing → d.id.done ≡ b → Fits st ticks testing b d.id.fsh d.slots
  testing-Fits b e h =
      subst (λ b. Fits st ticks testing b d.id.fsh d.slots) h
        (subst (λ pc. Fits st ticks pc d.id.done d.id.fsh d.slots) e v)

  pub asleep-Fits : d.pc ≡ asleep → Fits st ticks asleep d.id.done d.id.fsh d.slots
  asleep-Fits e = subst (λ pc. Fits st ticks pc d.id.done d.id.fsh d.slots) e v

  pub waits-Fits : d.pc ≡ testing → d.id.done ≡ true → DeviceFits st ticks (moved asleep d)
  waits-Fits e h = ground (arith, testing-Fits true e h)

  pub returned-Fits : d.pc ≡ testing → d.id.done ≡ false → DeviceFits st ticks (returned d)
  returned-Fits e h = ground (arith, testing-Fits false e h)

  pub woken-Fits : d.pc ≡ asleep → DeviceFits st ticks (moved testing d)
  woken-Fits e = ground (arith, asleep-Fits e)

-- The timer counts a device that is done or finished, advances the clock, and releases a device.
pub counted-Fits :
    (ticks : ℕ) (pc : DevicePc) (done fsh : Bool) (slots : ℕ)
    → (done || fsh) ≡ true
    → Fits before ticks pc done fsh slots
    → Fits counted ticks pc done fsh slots
counted-Fits ticks gone done fsh slots h v = v
counted-Fits ticks running done fsh slots h v = ground arith
counted-Fits ticks asleep done fsh slots h v = v
counted-Fits ticks testing true fsh slots h v = v
counted-Fits ticks testing false fsh slots h v = ground arith

pub due-Fits :
    (ticks : ℕ) (pc : DevicePc) (done fsh : Bool) (slots : ℕ)
    → Fits counted ticks pc done fsh slots
    → Fits due (suc ticks) pc done fsh slots
due-Fits ticks gone done fsh slots v = v
due-Fits ticks running done fsh slots v = ground arith
due-Fits ticks asleep done fsh slots v = ground arith
due-Fits ticks testing true fsh slots v = ground arith
due-Fits ticks testing false fsh slots v = ground arith

pub released-Fits :
    (ticks : ℕ) (pc : DevicePc) (done fsh : Bool) (slots : ℕ)
    → Fits due ticks pc done fsh slots
    → Fits before ticks (wake_device pc) false fsh slots
released-Fits ticks gone done fsh slots v = v
released-Fits ticks running done fsh slots v = ground arith
released-Fits ticks asleep done fsh slots v = ground arith
released-Fits ticks testing true fsh slots v = ground arith
released-Fits ticks testing false fsh slots v = ground arith

-- Only a device that is gone has finished, and its stage is nothing to it.
pub finished-Fits :
    (st st' : Stage) (ticks : ℕ) (pc : DevicePc) (done fsh : Bool) (slots : ℕ)
    → fsh ≡ true
    → Fits st ticks pc done fsh slots
    → Fits st' ticks pc done fsh slots
finished-Fits st st' ticks gone done fsh slots h v = v
finished-Fits st st' ticks running done fsh slots h v = ground arith
finished-Fits st st' ticks asleep done fsh slots h v = ground arith
finished-Fits st st' ticks testing true fsh slots h v = ground arith
finished-Fits st st' ticks testing false fsh slots h v = ground arith

pub gone-finished :
    (st : Stage) (ticks : ℕ) (pc : DevicePc) (done fsh : Bool) (slots : ℕ)
    → pc ≡ gone
    → Fits st ticks pc done fsh slots
    → fsh ≡ true
gone-finished st ticks gone done fsh slots h v = v
gone-finished st ticks running done fsh slots h v = absurd (cc)
gone-finished st ticks asleep done fsh slots h v = absurd (cc)
gone-finished st ticks testing done fsh slots h v = absurd (cc)

pub finished-gone :
    (st : Stage) (ticks : ℕ) (pc : DevicePc) (done fsh : Bool) (slots : ℕ)
    → fsh ≡ true
    → Fits st ticks pc done fsh slots
    → pc ≡ gone
finished-gone st ticks gone done fsh slots h v = refl
finished-gone st ticks running done fsh slots h v = absurd (ground arith)
finished-gone st ticks asleep done fsh slots h v = absurd (ground arith)
finished-gone st ticks testing true fsh slots h v = absurd (ground arith)
finished-gone st ticks testing false fsh slots h v = absurd (ground arith)
