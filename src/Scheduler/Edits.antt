-- ===== src/Scheduler/Edits.antt =====
-- What cancelling and rescheduling a job does to the queue.
use opendht.Prelude.{
  ℕ, ◌<◌, ◌≡◌, subst, refl, ◌&&◌, [], ◌∷◌, none, some, arith, ◌==◌, if◌then◌else◌, Bool-cases,
  Option-cases, inl, inr,
}
use opendht.Time.{TimePoint, time_max}
use opendht.Scheduler.{Job, Timers, Scheduler, erase_timer, clear_job, cancel_pending, edit, add}
use opendht.Scheduler.Invariant.{
  IsScheduler, Dated, count_job, erase_timer_drops, count_job-insert_timer, count_job-fresh,
  cancel_pending-IsScheduler,
}

-- A job that has an entry is found at its time.
erase_timer-none :
    (jobs : ℕ → Job) (n j : ℕ) (ts : Timers)
    → Dated jobs n ts
    → erase_timer (jobs j).time j ts ≡ none
    → count_job j ts ≡ 0
unfolding erase_timer
erase_timer-none jobs n j [] d e = refl
erase_timer-none jobs n j ((u, i) ∷ ts) d e = elim (Bool-cases (u == (jobs j).time && i == j)) [
  | inl hit ↦ absurd (ground arith)
  | inr miss ↦ elim (Bool-cases (i == j)) [
    | inl same ↦
        let at : i ≡ j = ground arith in
        let timed : (jobs j).time ≡ u = subst (λ x. (jobs x).time ≡ u) at d.0.1 in
        absurd (ground (arith, timed))
    | inr other ↦ elim (Option-cases (erase_timer (jobs j).time j ts)) [
      | inl gone ↦ ground (arith, erase_timer-none jobs n j ts d.1 gone)
      | inr (rest, found) ↦ absurd (ground arith)
    ]
  ]
]

-- After `cancel` the job has no entry and no function, and the entries of the other jobs are there as
-- they were. It answers whether the job had an entry, and if so takes the pointer away.
pub cancel_pending_lem :
    (j : ℕ) (s : Scheduler)
    → IsScheduler s
    → ((k : ℕ)
        → count_job k (cancel_pending (some j) s).0.timers
          ≡ (if k == j then 0 else count_job k s.timers))
      × ((k : ℕ)
          → ((cancel_pending (some j) s).0.jobs k).task
            ≡ (if k == j then none else (s.jobs k).task))
      × ((cancel_pending (some j) s).2 ≡ (count_job j s.timers == 1))
      × ((cancel_pending (some j) s).1 ≡ (if count_job j s.timers == 1 then none else some j))
unfolding cancel_pending clear_job
cancel_pending_lem j s h = elim (Option-cases (erase_timer (s.jobs j).time j s.timers)) [
  | inl absent ↦
      let none_left : count_job j s.timers ≡ 0 =
        erase_timer-none s.jobs s.next_job j s.timers h.dated absent in
      rw (absent, cancel_pending)
        (
          (λ k. elim (Bool-cases (k == j)) [
            | inl same ↦ let at : k ≡ j = ground arith in rw at (ground (arith, none_left))
            | inr other ↦ rw other refl
          ]),
          (λ k. ground arith),
          rw none_left refl,
          rw none_left refl,
        )
  | inr (ts, found) ↦
      let drops = erase_timer_drops (s.jobs j).time j s.timers ts found in
      let one : count_job j s.timers ≡ 1 = ground (arith, drops j, h.once j) in
      rw (found, cancel_pending)
        (
          (λ k. elim (Bool-cases (k == j)) [
            | inl same ↦ let at : k ≡ j = ground arith in rw at (ground (arith, drops j, h.once j))
            | inr other ↦ ground (arith, drops k)
          ]),
          (λ k. ground arith),
          rw one refl,
          rw one refl,
        )
]

cancel_next : (j : ℕ) (s : Scheduler) → (cancel_pending (some j) s).0.next_job ≡ s.next_job
unfolding cancel_pending clear_job
cancel_next j s = ground arith

-- A job that is rescheduled has no entry and no function any more; the new job, at an address of its
-- own, has the function and the time, and one entry, or none if the time is `time_point::max()`. The
-- entries of the other jobs are there as they were.
pub edit_lem :
    (j : ℕ) (t : TimePoint) (s : Scheduler)
    → IsScheduler s
    → j < s.next_job
    → ((edit (some j) t s).1 ≡ some s.next_job)
      × (((edit (some j) t s).0.jobs s.next_job) ≡ record { task = (s.jobs j).task; time = t })
      × (((edit (some j) t s).0.jobs j).task ≡ none)
      × ((k : ℕ)
          → count_job k (edit (some j) t s).0.timers ≡ (
              if k == j
              then 0
              else if k == s.next_job
              then (if t == time_max then 0 else 1)
              else count_job k s.timers))
unfolding edit add
edit_lem j t s h old =
    let s1 : Scheduler = (cancel_pending (some j) s).0 in
    let (gone, cleared, _, _) = cancel_pending_lem j s h in
    let same_next : s1.next_job ≡ s.next_job = cancel_next j s in
    let h1 = cancel_pending-IsScheduler (some j) s h in
    let fresh : count_job s1.next_job s1.timers ≡ 0 =
      count_job-fresh s1.jobs s1.next_job s1.timers h1.dated in
    (
      rw same_next refl,
      rw same_next (ground arith),
      ground (arith, cleared j, same_next),
      λ k.
          ground
            (arith, gone k, same_next, fresh, count_job-insert_timer k t s1.next_job s1.timers),
    )
