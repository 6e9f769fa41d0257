-- ===== src/Os/Config/Attach.antt =====
-- What `main` finds in the list of the timer when it starts.
use hcmut_os_ossim_sierra.Prelude.{
  ℕ, zero, suc, ◌+◌, ◌<◌, ◌≡◌, refl, false, none, List, [], ◌∷◌, All, length, arith,
}
use hcmut_os_ossim_sierra.Word.{is_negative}
use hcmut_os_ossim_sierra.Timer.{TimerId, Attachable, attached, attach_event, start_timer}
use hcmut_os_ossim_sierra.Os.Config.{attach_all, main_timer}

abbrev pub empty_timer : Attachable
empty_timer = record { dev_list = []; timer_started = false }

abbrev waiting : List TimerId → Attachable
waiting devs = record { dev_list = devs; timer_started = false }

-- Every event is fresh and in the list, while the timer has not been started.
attach_all_lem :
    (n : ℕ) (devs : List TimerId)
    → All (λ d. d ≡ attached) devs
    → (length (attach_all n (waiting devs)).dev_list ≡ n + length devs)
      × ((attach_all n (waiting devs)).timer_started ≡ false)
      × All (λ d. d ≡ attached) (attach_all n (waiting devs)).dev_list
unfolding attach_all attach_event
attach_all_lem zero devs h = (omega arith, refl, h)
attach_all_lem (suc n) devs h =
    let r = attach_all_lem n (attached ∷ devs) (refl, h) in (omega (arith, r.0), r.1, r.2)

-- `main` attaches one event for each processor and one for the loader before it starts the timer:
-- they are all in the list, neither done nor finished; and from then on `attach_event` answers NULL
-- and attaches nothing.
pub main_timer_lem :
    (num_cpus : ℕ)
    → num_cpus < 2147483648
    → (length (main_timer num_cpus empty_timer).dev_list ≡ num_cpus + 1)
      × All (λ d. d ≡ attached) (main_timer num_cpus empty_timer).dev_list
      × (attach_event (main_timer num_cpus empty_timer) ≡ (none, main_timer num_cpus empty_timer))
unfolding main_timer attach_event start_timer
main_timer_lem num_cpus h =
    let positive : is_negative num_cpus ≡ false = ground arith in
    let r = attach_all_lem num_cpus [] tt in
    rw positive (rw r.1 ((omega (arith, r.0), (refl, r.2), refl)))
