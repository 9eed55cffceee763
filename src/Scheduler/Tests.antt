-- ===== src/Scheduler/Tests.antt =====
-- The scheduler on concrete jobs.
use opendht.Prelude.{
  ℕ, ◌+◌, ◌<◌, ◌≡◌, refl, List, [], ◌∷◌, none, some, arith, ◌==◌, if◌then◌else◌, length,
}
use opendht.Time.{time_max}
use opendht.Scheduler.{
  Job, Timers, Scheduler, insert_timer, add, erase_timer, clear_job, cancel_pending, edit, run,
  next_job_time, sync_time,
}
use opendht.Scheduler.Invariant.{
  IsScheduler, Dated, count_job, Step, add_job, sync_to, apply_step, apply_steps,
  apply_steps-IsScheduler, add-IsScheduler,
}
use opendht.Scheduler.Edits.{edit_lem}
use opendht.Scheduler.Steps.{step_of, run_jobs, take_turns, take_turns-IsScheduler}
use opendht.Scheduler.Runs.{
  due, tasks_of, Later, KeepsUp, LeavesDue, run_ends, run-due, again, run-again,
}

abbrev idle : Scheduler
idle = record { now = 0; jobs = λ k. record { task = none; time = 0 }; next_job = 0; timers = [] }

idle-IsScheduler : IsScheduler idle
idle-IsScheduler = record { ascending = tt; dated = tt; once = λ k. omega arith }

-- Three jobs, of which two are due, and one that was moved.
abbrev calls : List Step
calls =
    Step.add_job 5 1
    ∷ Step.add_job 3 2
    ∷ Step.add_job 20 3
    ∷ Step.edit_job (some 0) 4
    ∷ Step.sync_to 6
    ∷ []

abbrev busy : Scheduler
busy = apply_steps calls idle

busy-IsScheduler : IsScheduler busy
busy-IsScheduler = apply_steps-IsScheduler calls idle idle-IsScheduler

-- Every function schedules itself again for ten ticks later.
abbrev again_in_ten : ℕ → Scheduler → List Step
again_in_ten f s = add_job (s.now + 10) f ∷ []

take_turns-IsScheduler_example :
    IsScheduler (take_turns again_in_ten (run_jobs 3 ∷ step_of (sync_to 20) ∷ run_jobs 9 ∷ []) busy)
take_turns-IsScheduler_example =
    take_turns-IsScheduler again_in_ten (run_jobs 3 ∷ step_of (sync_to 20) ∷ run_jobs 9 ∷ []) busy
      busy-IsScheduler

timers_of_busy : busy.timers ≡ (3, 1) ∷ (4, 3) ∷ (20, 2) ∷ []
unfolding apply_steps apply_step add edit cancel_pending erase_timer clear_job insert_timer
    sync_time
timers_of_busy = refl

edit_lem_example :
    ((edit (some 2) 5 busy).1 ≡ some busy.next_job)
    × (((edit (some 2) 5 busy).0.jobs busy.next_job)
        ≡ record { task = (busy.jobs 2).task; time = 5 })
    × (((edit (some 2) 5 busy).0.jobs 2).task ≡ none)
    × ((k : ℕ)
        → count_job k (edit (some 2) 5 busy).0.timers ≡ (
            if k == 2
            then 0
            else if k == busy.next_job
            then (if 5 == time_max then 0 else 1)
            else count_job k busy.timers))
unfolding apply_steps apply_step add edit cancel_pending erase_timer clear_job insert_timer
    sync_time
edit_lem_example = edit_lem 2 5 busy busy-IsScheduler (omega arith)

-- A job that schedules itself again for ten ticks later.
abbrev in_ten : ℕ → Scheduler → Scheduler
in_ten f s = (add (s.now + 10) (some f) s).0

due-insert_timer :
    (now t j : ℕ) (ts : Timers) → now < t → due now (insert_timer t j ts) ≡ due now ts
unfolding due insert_timer
due-insert_timer now t j [] h = ground arith
due-insert_timer now t j ((u, k) ∷ ts) h = ground (arith, due-insert_timer now t j ts h)

tasks_of_later :
    (jobs jobs' : ℕ → Job) (now n : ℕ) (ts : Timers)
    → ((k : ℕ) → k < n → jobs' k ≡ jobs k)
    → Dated jobs n ts
    → tasks_of jobs' (due now ts) ≡ tasks_of jobs (due now ts)
unfolding due tasks_of
tasks_of_later jobs jobs' now n [] same d = refl
tasks_of_later jobs jobs' now n ((t, j) ∷ ts) same d =
    ground (arith, tasks_of_later jobs jobs' now n ts same d.1, same j d.0.0)

in_ten-due :
    (now f : ℕ) (s : Scheduler) → s.now ≡ now → due now (in_ten f s).timers ≡ due now s.timers
unfolding add
in_ten-due now f s at =
    ground (arith, due-insert_timer now (s.now + 10) s.next_job s.timers (omega (arith, at)))

in_ten-LeavesDue : LeavesDue in_ten 6
unfolding add
in_ten-LeavesDue f s h at = (
  add-IsScheduler (s.now + 10) (some f) s h,
  at,
  in_ten-due 6 f s at,
  tasks_of_later s.jobs (in_ten f s).jobs 6 s.next_job s.timers (λ k lt. ground arith) h.dated,
)

in_ten-KeepsUp : KeepsUp in_ten 6
unfolding add
in_ten-KeepsUp f s h at =
    (add-IsScheduler (s.now + 10) (some f) s h, at, rw (in_ten-due 6 f s at) (omega arith))

busy_now : busy.now ≡ 6
unfolding apply_steps apply_step add edit cancel_pending erase_timer clear_job insert_timer
    sync_time
busy_now = refl

busy_due : length (due 6 busy.timers) < 3
unfolding due
busy_due = rw timers_of_busy (omega arith)

run_ends_example :
    (s' : Scheduler) × (fs : List ℕ) × (run in_ten 3 busy ≡ some (s', fs, next_job_time s'))
    × IsScheduler s'
    × Later 6 s'.timers
run_ends_example = run_ends in_ten 6 in_ten-KeepsUp 3 busy busy-IsScheduler busy_now busy_due

run-due_example :
    (s' : Scheduler) × (run in_ten 3 busy
      ≡ some (s', tasks_of busy.jobs (due 6 busy.timers), next_job_time s'))
run-due_example = run-due in_ten 6 in_ten-LeavesDue 3 busy busy-IsScheduler busy_now busy_due

tasks_of_busy : tasks_of busy.jobs (due 6 busy.timers) ≡ 2 ∷ 1 ∷ []
unfolding tasks_of due apply_steps apply_step add edit cancel_pending erase_timer clear_job
    insert_timer sync_time
tasks_of_busy = refl

abbrev at_five : Scheduler
at_five = record {
  now = 5;
  jobs = λ k. record { task = some 7; time = 5 };
  next_job = 1;
  timers = (5, 0) ∷ [];
}

run-again_example : run again 100 at_five ≡ none
run-again_example = run-again 100 at_five 5 0 7 [] refl (omega arith) refl tt (omega arith)
