-- ===== src/Scheduler/Invariant.antt =====
-- What holds of every scheduler, and that its operations keep it.
use opendht.Prelude.{
  ℕ, suc, ◌+◌, ◌<◌, ◌≤◌, ◌≡◌, refl, subst, ◌&&◌, List, [], ◌∷◌, Option, none, some, arith, ltb,
  ◌==◌, if◌then◌else◌, Bool-cases, Option-cases, inl, inr, All,
}
use opendht.Time.{TimePoint, time_max}
use opendht.Scheduler.{
  Job, Timers, Scheduler, insert_timer, add, erase_timer, clear_job, cancel_pending, edit,
  sync_time,
}

-- Times from `lo` on, that do not fall.
abbrev pub Ascends : ℕ → Timers → Type 0
Ascends lo [] = Unit
Ascends lo ((t, j) ∷ ts) = (lo ≤ t) × Ascends t ts

-- How many entries there are for a job.
abbrev pub count_job : ℕ → Timers → ℕ
count_job k [] = 0
count_job k ((t, j) ∷ ts) = (if k == j then 1 else 0) + count_job k ts

-- Every entry is that of a job that was made, at the job's time.
abbrev pub Dated : (ℕ → Job) → ℕ → Timers → Type 0
Dated jobs n ts = All (λ (e : TimePoint × ℕ). (e.1 < n) × ((jobs e.1).time ≡ e.0)) ts

pub record IsScheduler (s : Scheduler) : Type 0 where
  pub ascending : Ascends 0 s.timers
  pub dated : Dated s.jobs s.next_job s.timers
  pub once : (k : ℕ) → count_job k s.timers ≤ 1

pub Ascends-weaken : (lo m : ℕ) (ts : Timers) → m ≤ lo → Ascends lo ts → Ascends m ts
Ascends-weaken lo m [] h p = tt
Ascends-weaken lo m ((t, j) ∷ ts) h p = (omega (arith, p.0), p.1)

insert_timer-Ascends :
    (lo t j : ℕ) (ts : Timers) → lo ≤ t → Ascends lo ts → Ascends lo (insert_timer t j ts)
unfolding insert_timer
insert_timer-Ascends lo t j [] h p = (h, tt)
insert_timer-Ascends lo t j ((u, k) ∷ ts) h p = elim (Bool-cases (ltb t u)) [
  | inl before ↦ rw before (h, (ground arith, p.1))
  | inr behind ↦ rw behind (p.0, insert_timer-Ascends u t j ts (ground arith) p.1)
]

pub count_job-insert_timer :
    (k t j : ℕ) (ts : Timers)
    → count_job k (insert_timer t j ts) ≡ (if k == j then 1 else 0) + count_job k ts
unfolding insert_timer
count_job-insert_timer k t j [] = refl
count_job-insert_timer k t j ((u, i) ∷ ts) = ground (arith, count_job-insert_timer k t j ts)

-- No entry is that of a job to come.
pub count_job-fresh : (jobs : ℕ → Job) (n : ℕ) (ts : Timers) → Dated jobs n ts → count_job n ts ≡ 0
count_job-fresh jobs n [] d = refl
count_job-fresh jobs n ((t, j) ∷ ts) d = ground (arith, count_job-fresh jobs n ts, d.0.0, d.1)

-- A change of the heap keeps dates if it keeps the times of the jobs that were made.
pub Dated-change :
    (jobs jobs' : ℕ → Job) (n n' : ℕ) (ts : Timers)
    → n ≤ n'
    → ((k : ℕ) → k < n → (jobs' k).time ≡ (jobs k).time)
    → Dated jobs n ts
    → Dated jobs' n' ts
Dated-change jobs jobs' n n' [] h same d = tt
Dated-change jobs jobs' n n' ((t, j) ∷ ts) h same d =
    ((omega (arith, d.0.0), rw (same j d.0.0) d.0.1), Dated-change jobs jobs' n n' ts h same d.1)

insert_timer-Dated :
    (jobs : ℕ → Job) (n t j : ℕ) (ts : Timers)
    → j < n
    → (jobs j).time ≡ t
    → Dated jobs n ts
    → Dated jobs n (insert_timer t j ts)
unfolding insert_timer
insert_timer-Dated jobs n t j [] h e d = ((h, e), tt)
insert_timer-Dated jobs n t j ((u, k) ∷ ts) h e d = elim (Bool-cases (ltb t u)) [
  | inl before ↦ rw before ((h, e), d)
  | inr behind ↦ rw behind (d.0, insert_timer-Dated jobs n t j ts h e d.1)
]

-- What `erase_timer` takes out.
pub erase_timer_drops :
    (t j : ℕ) (ts ts' : Timers)
    → erase_timer t j ts ≡ some ts'
    → (k : ℕ) → count_job k ts ≡ (if k == j then 1 else 0) + count_job k ts'
unfolding erase_timer
erase_timer_drops t j [] ts' e k = cc
erase_timer_drops t j ((u, i) ∷ ts) ts' e k = elim (Bool-cases (u == t && i == j)) [
  | inl hit ↦ ground arith
  | inr miss ↦ elim (Option-cases (erase_timer t j ts)) [
    | inl gone ↦ ground arith
    | inr (rest, found) ↦ ground (arith, erase_timer_drops t j ts rest found k)
  ]
]

erase_timer-Ascends :
    (lo t j : ℕ) (ts ts' : Timers) → erase_timer t j ts ≡ some ts' → Ascends lo ts → Ascends lo ts'
unfolding erase_timer
erase_timer-Ascends lo t j [] ts' e p = cc
erase_timer-Ascends lo t j ((u, i) ∷ ts) ts' e p = elim (Bool-cases (u == t && i == j)) [
  | inl hit ↦
      let same : ts ≡ ts' = ground arith in subst (Ascends lo) same (Ascends-weaken u lo ts p.0 p.1)
  | inr miss ↦ elim (Option-cases (erase_timer t j ts)) [
    | inl gone ↦ absurd (ground arith)
    | inr (rest, found) ↦
        let same : (u, i) ∷ rest ≡ ts' = ground arith in
        subst (Ascends lo) same (p.0, erase_timer-Ascends u t j ts rest found p.1)
  ]
]

erase_timer-Dated :
    (jobs : ℕ → Job) (n t j : ℕ) (ts ts' : Timers)
    → erase_timer t j ts ≡ some ts'
    → Dated jobs n ts
    → Dated jobs n ts'
unfolding erase_timer
erase_timer-Dated jobs n t j [] ts' e p = cc
erase_timer-Dated jobs n t j ((u, i) ∷ ts) ts' e p = elim (Bool-cases (u == t && i == j)) [
  | inl hit ↦ let same : ts ≡ ts' = ground arith in subst (Dated jobs n) same p.1
  | inr miss ↦ elim (Option-cases (erase_timer t j ts)) [
    | inl gone ↦ absurd (ground arith)
    | inr (rest, found) ↦
        let same : (u, i) ∷ rest ≡ ts' = ground arith in
        subst (Dated jobs n) same (p.0, erase_timer-Dated jobs n t j ts rest found p.1)
  ]
]

pub add-IsScheduler :
    (t : TimePoint) (f : Option ℕ) (s : Scheduler) → IsScheduler s → IsScheduler (add t f s).0
unfolding add
add-IsScheduler t f s h =
    let jobs' : ℕ → Job = (add t f s).0.jobs in
    let kept : Dated jobs' (suc s.next_job) s.timers =
      Dated-change s.jobs jobs' s.next_job (suc s.next_job) s.timers (omega arith)
        (λ k lt. ground arith) h.dated in
    elim (Bool-cases (t == time_max)) [
      | inl never ↦ rw never (record { ascending = h.ascending; dated = kept; once = h.once })
      | inr timed ↦ rw timed (record {
        ascending = insert_timer-Ascends 0 t s.next_job s.timers (omega arith) h.ascending;
        dated =
            insert_timer-Dated jobs' (suc s.next_job) t s.next_job s.timers (omega arith)
              (ground arith) kept;
        once = λ k. ground (
          arith,
          count_job-insert_timer k t s.next_job s.timers,
          count_job-fresh s.jobs s.next_job s.timers h.dated,
          h.once k,
        );
      })
    ]

clear_job-Dated :
    (j : ℕ) (s : Scheduler) (ts : Timers)
    → Dated s.jobs s.next_job ts
    → Dated (clear_job j s).jobs s.next_job ts
unfolding clear_job
clear_job-Dated j s ts d =
    Dated-change s.jobs (clear_job j s).jobs s.next_job s.next_job ts (omega arith)
      (λ k lt. ground arith) d

pub cancel_pending-IsScheduler :
    (p : Option ℕ) (s : Scheduler) → IsScheduler s → IsScheduler (cancel_pending p s).0
unfolding cancel_pending
cancel_pending-IsScheduler none s h = h
cancel_pending-IsScheduler (some j) s h =
    elim (Option-cases (erase_timer (s.jobs j).time j s.timers)) [
      | inl absent ↦
          rw (absent, cancel_pending)
            (record {
              ascending = h.ascending;
              dated = clear_job-Dated j s s.timers h.dated;
              once = h.once;
            })
      | inr (ts, found) ↦
          rw (found, cancel_pending)
            (record {
              ascending = erase_timer-Ascends 0 (s.jobs j).time j s.timers ts found h.ascending;
              dated =
                  clear_job-Dated j s ts (
                    erase_timer-Dated s.jobs s.next_job (s.jobs j).time j s.timers ts found
                      h.dated);
              once = λ k.
                  ground (arith, erase_timer_drops (s.jobs j).time j s.timers ts found k, h.once k);
            })
    ]

pub edit-IsScheduler :
    (p : Option ℕ) (t : TimePoint) (s : Scheduler) → IsScheduler s → IsScheduler (edit p t s).0
unfolding edit
edit-IsScheduler none t s h = h
edit-IsScheduler (some j) t s h =
    add-IsScheduler t (s.jobs j).task (cancel_pending (some j) s).0
      (cancel_pending-IsScheduler (some j) s h)

-- The calls that others make on a scheduler, but for `run`.
pub data Step : Type 0 where
  add_job : TimePoint → ℕ → Step
  edit_job : Option ℕ → TimePoint → Step
  cancel_job_at : Option ℕ → Step
  sync_to : TimePoint → Step

unfoldable pub apply_step : Step → Scheduler → Scheduler
unfolding add edit cancel_pending sync_time
apply_step (add_job t f) s = (add t (some f) s).0
apply_step (edit_job p t) s = (edit p t s).0
apply_step (cancel_job_at p) s = (cancel_pending p s).0
apply_step (sync_to n) s = sync_time n s

unfoldable pub apply_steps : List Step → Scheduler → Scheduler
unfolding apply_step
apply_steps [] s = s
apply_steps (c ∷ cs) s = apply_steps cs (apply_step c s)

apply_step-IsScheduler : (c : Step) (s : Scheduler) → IsScheduler s → IsScheduler (apply_step c s)
unfolding apply_step sync_time
apply_step-IsScheduler (add_job t f) s h = add-IsScheduler t (some f) s h
apply_step-IsScheduler (edit_job p t) s h = edit-IsScheduler p t s h
apply_step-IsScheduler (cancel_job_at p) s h = cancel_pending-IsScheduler p s h
apply_step-IsScheduler (sync_to n) s h = record {
  ascending = h.ascending;
  dated = h.dated;
  once = h.once;
}

pub apply_steps-IsScheduler :
    (cs : List Step) (s : Scheduler) → IsScheduler s → IsScheduler (apply_steps cs s)
unfolding apply_steps
apply_steps-IsScheduler [] s h = h
apply_steps-IsScheduler (c ∷ cs) s h =
    apply_steps-IsScheduler cs (apply_step c s) (apply_step-IsScheduler c s h)
