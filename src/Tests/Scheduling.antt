-- ===== src/Tests/Scheduling.antt =====
-- Queues and the scheduler.
use hcmut_os_ossim_sierra.Prelude.{
  ℕ, ◌≡◌, ◌≢◌, refl, [], ◌∷◌, Option, none, some, true, arith, update, update_cases,
}
use hcmut_os_ossim_sierra.Queue.{Queue, new_queue, enqueue_in, dequeue, empty}
use hcmut_os_ossim_sierra.Queue.Contents.{contents}
use hcmut_os_ossim_sierra.Queue.Fifo.{
  IsValid, put_op, take_op, run_queue, run_list, run_queue_refines, put, take_front,
  contents-enqueue, contents-dequeue,
}
use hcmut_os_ossim_sierra.Sched.{
  Sched, get_mlq_proc, init_scheduler, get_proc, add_proc, add_mlq_proc,
}
use hcmut_os_ossim_sierra.Sched.Pick.{pick, occupied, runnable, get_mlq_proc-eq-pick}
use hcmut_os_ossim_sierra.Sched.Ready.{IsReady, get_proc-eq-pick, get_proc-ne-null}
use hcmut_os_ossim_sierra.Os.Queues.{gets, adds, Reach, start, later, Reach-IsReady}

-- Process 5 alone, then process 7.
abbrev pub five : Queue
five = record { proc = λ _. 5; size = 1 }

pub five-IsValid : IsValid five
five-IsValid = record { bounded = omega arith; distinct = (refl, tt); nonnull = refl }

run_queue_refines_example :
    (
      (run_queue five (put_op 7 ∷ put_op 5 ∷ take_op ∷ take_op ∷ take_op ∷ [])).0,
      contents (run_queue five (put_op 7 ∷ put_op 5 ∷ take_op ∷ take_op ∷ take_op ∷ [])).1,
    )
    ≡ run_list (contents five) (put_op 7 ∷ put_op 5 ∷ take_op ∷ take_op ∷ take_op ∷ [])
run_queue_refines_example =
    run_queue_refines five (put_op 7 ∷ put_op 5 ∷ take_op ∷ take_op ∷ take_op ∷ [])

contents-enqueue_example : contents (enqueue_in five 7) ≡ put (5 ∷ []) 7
contents-enqueue_example = contents-enqueue five 7

contents-dequeue_example : ((dequeue five).0, contents (dequeue five).1) ≡ take_front (5 ∷ [])
contents-dequeue_example = contents-dequeue five

-- Process 5 is ready at priority 3, with one slot, and nothing else is.
abbrev pub one_ready : Sched
one_ready = record {
  ready_queue = new_queue;
  run_queue = new_queue;
  running_list = five;
  mlq_ready_queue = update (λ _. new_queue) 3 five;
  slot = λ _. 1;
}

pub one_ready-IsReady : IsReady one_ready
one_ready-IsReady = record {
  running = five-IsValid;
  ready = λ i h.
      update_cases IsValid (λ _. new_queue) 3 five i five-IsValid
        (record { bounded = omega arith; distinct = tt; nonnull = refl });
}

one_ready-runnable : runnable one_ready 3 ≡ true
unfolding empty
one_ready-runnable = refl

one_ready-occupied : occupied one_ready 3 ≡ true
unfolding empty
one_ready-occupied = refl

get_mlq_proc_example : get_mlq_proc one_ready ≡ some (pick one_ready)
get_mlq_proc_example = get_mlq_proc-eq-pick one_ready

get_proc-ne-null_example : (p : ℕ) × (t : Sched) × (get_proc one_ready ≡ some (p, t)) × (p ≢ 0)
get_proc-ne-null_example =
    get_proc-ne-null one_ready 3 one_ready-IsReady (omega arith) one_ready-occupied

-- The scheduler started, process 5 added at priority 3, and a process asked for.
abbrev sched_of : Option Sched → Sched
sched_of none = one_ready
sched_of (some s) = s

abbrev added : Sched
added = sched_of (add_proc (init_scheduler one_ready) 5 3)

added-Reach : Reach one_ready added
unfolding add_proc add_mlq_proc
added-Reach = later start (adds 5 3 refl)

Reach-IsReady_example : IsReady (pick added).1
Reach-IsReady_example =
    Reach-IsReady (later added-Reach (gets (pick added).0 (get_proc-eq-pick added)))
