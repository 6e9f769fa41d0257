-- ===== src/Timer/Release.antt =====
-- The end of `stop_timer` of src/timer.c: when the thread of the timer has been joined, every device
-- is taken off the list and freed.
use mathlib.Core.List.{append_assoc, append-nil}
use hcmut_os_ossim_sierra.Prelude.{◌≡◌, sym, ap, ◌∙◌, List, [], ◌∷◌, ◌++◌}
use hcmut_os_ossim_sierra.Timer.{TimerId, Attachable}

-- `while (dev_list != NULL)`, with `freed` for what has been freed, in order.
pub free_devices : List TimerId → List TimerId → List TimerId × List TimerId
free_devices [] freed = ([], freed)
free_devices (temp ∷ next) freed = free_devices next (freed ++ temp ∷ [])

-- The timer at the end, and the devices that have been freed.
pub stop_devices : Attachable → Attachable × List TimerId
unfolding free_devices
stop_devices a =
    let (dev_list, freed) = free_devices a.dev_list [] in (record a { dev_list = dev_list }, freed)

free_devices_lem :
    (devices freed : List TimerId) → free_devices devices freed ≡ ([], freed ++ devices)
unfolding free_devices
free_devices_lem [] freed = ap (λ (ds : List TimerId). ([], ds)) (sym (append-nil freed))
free_devices_lem (temp ∷ next) freed =
    free_devices_lem next (freed ++ temp ∷ [])
    ∙ ap (λ (ds : List TimerId). ([], ds)) (append_assoc freed (temp ∷ []) next)

-- The loop ends with an empty list, and has freed each device that was in it, once.
pub stop_devices_lem : (a : Attachable) → stop_devices a ≡ (record a { dev_list = [] }, a.dev_list)
unfolding stop_devices
stop_devices_lem a =
    ap (λ (r : List TimerId × List TimerId). (record a { dev_list = r.0 }, r.1))
      (free_devices_lem a.dev_list [])
