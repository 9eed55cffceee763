-- ===== src/Scheduler.antt =====
-- include/opendht/scheduler.h: the queue of jobs by time. A job is shared by the queue and those that
-- hold a pointer to it, so jobs stand in a heap by address. A function is a number, and what a call of
-- it does to the scheduler is the parameter `perform`; an empty function is `none`.
pub mod Invariant
pub mod Edits
pub mod Runs
pub mod Steps
mod Tests
use opendht.Prelude.{
  ℕ, zero, suc, Bool, true, false, ◌&&◌, List, [], ◌∷◌, Option, none, some, ltb, ◌==◌,
  if◌then◌else◌,
}
use opendht.Time.{TimePoint, time_max}

pub record Job : Type 0 where
  pub task : Option ℕ
  pub time : TimePoint

-- std::multimap<time_point, Sp<Job>>: the entries in the order of the times, those of one time in
-- the order they came.
abbrev pub Timers : Type 0
Timers = List (TimePoint × ℕ)

-- `next_job` is the address that the next job gets.
pub record Scheduler : Type 0 where
  pub now : TimePoint
  pub jobs : ℕ → Job
  pub next_job : ℕ
  pub timers : Timers

-- timers.emplace
unfoldable pub insert_timer : TimePoint → ℕ → Timers → Timers
insert_timer t j [] = (t, j) ∷ []
insert_timer t j ((u, k) ∷ ts) =
    if ltb t u then (t, j) ∷ (u, k) ∷ ts else (u, k) ∷ insert_timer t j ts

-- The scheduler, and the address of the job.
unfoldable pub add : TimePoint → Option ℕ → Scheduler → Scheduler × ℕ
unfolding insert_timer
add t f s =
    let job : Job = record { task = f; time = t } in
    (
      record s {
        jobs = λ k. if k == s.next_job then job else s.jobs k;
        next_job = suc s.next_job;
        timers = if t == time_max then s.timers else insert_timer t s.next_job s.timers;
      },
      s.next_job,
    )

-- The loop of `cancel` over the entries at the job's time: without the entry of the job, if it is there.
unfoldable pub erase_timer : TimePoint → ℕ → Timers → Option Timers
erase_timer t j [] = none
erase_timer t j ((u, k) ∷ ts) =
    let rest = erase_timer t j ts in
    if u == t && k == j then some ts else elim rest [ none ↦ none | some ts' ↦ some ((u, k) ∷ ts') ]

-- Job::cancel
unfoldable pub clear_job : ℕ → Scheduler → Scheduler
clear_job j s = record s {
  jobs = λ k. if k == j then record { task = none; time = (s.jobs k).time } else s.jobs k;
}

-- The scheduler, the pointer that was passed by reference, and the answer.
unfoldable pub cancel_pending : Option ℕ → Scheduler → Scheduler × Option ℕ × Bool
unfolding erase_timer clear_job
cancel_pending none s = (s, none, false)
cancel_pending (some j) s = elim (erase_timer (s.jobs j).time j s.timers) [
  | none ↦ (clear_job j s, some j, false)
  | some ts ↦ (record (clear_job j s) { timers = ts }, none, true)
]

-- The scheduler, and the pointer that was passed by reference.
unfoldable pub edit : Option ℕ → TimePoint → Scheduler → Scheduler × Option ℕ
unfolding cancel_pending add
edit none t s = (s, none)
edit (some j) t s =
    let (s', j') = add t (s.jobs j).task (cancel_pending (some j) s).0 in (s', some j')

-- getNextJobTime
unfoldable pub next_job_time : Scheduler → TimePoint
next_job_time s = elim s.timers [ [] ↦ time_max | (t, j) ∷ ts ↦ t ]

-- The loop of `run`, with fuel: the scheduler, and the functions that were called.
unfoldable pub run_loop : (ℕ → Scheduler → Scheduler) → ℕ → Scheduler → Option (Scheduler × List ℕ)
run_loop perform zero s = none
run_loop perform (suc fuel) s = elim s.timers [
  | [] ↦ some (s, [])
  | (t, j) ∷ ts ↦ elim (ltb s.now t) [
    | true ↦ some (s, [])
    | false ↦ elim (s.jobs j).task [
      | none ↦ run_loop perform fuel (record s { timers = ts })
      | some f ↦ elim (run_loop perform fuel (perform f (record s { timers = ts }))) [
        | none ↦ none
        | some (s', fs) ↦ some (s', f ∷ fs)
      ]
    ]
  ]
]

-- `run`: also the time that it returns, or none without enough fuel.
unfoldable pub run :
    (ℕ → Scheduler → Scheduler) → ℕ → Scheduler → Option (Scheduler × List ℕ × TimePoint)
unfolding run_loop next_job_time
run perform fuel s = elim (run_loop perform fuel s) [
  | none ↦ none
  | some (s', fs) ↦ some (s', fs, next_job_time s')
]

-- syncTime
unfoldable pub sync_time : TimePoint → Scheduler → Scheduler
sync_time n s = record s { now = n }
