-- ===== src/Scheduler/Runs.antt =====
-- `run`: when it ends, what it calls, and in which order.
use opendht.Prelude.{
  ℕ, zero, suc, ◌<◌, ◌≤◌, ◌≡◌, ◌∙◌, sym, refl, subst, true, false, List, [], ◌∷◌, none, some, arith,
  ltb, Bool-cases, Option-cases, List-cases, inl, inr, All, length,
}
use opendht.Time.{TimePoint, time_max}
use opendht.Scheduler.{Job, Timers, Scheduler, insert_timer, add, run_loop, run, next_job_time}
use opendht.Scheduler.Invariant.{IsScheduler, Ascends, Ascends-weaken, Dated, count_job}

-- The entries whose time has come, at the front of the queue.
unfoldable pub due : TimePoint → Timers → Timers
due now [] = []
due now ((t, j) ∷ ts) = elim (ltb now t) [ true ↦ [] | false ↦ (t, j) ∷ due now ts ]

-- The functions of the jobs of these entries, without the empty ones.
unfoldable pub tasks_of : (ℕ → Job) → Timers → List ℕ
tasks_of jobs [] = []
tasks_of jobs ((t, j) ∷ ts) =
    let rest = tasks_of jobs ts in elim (jobs j).task [ none ↦ rest | some f ↦ f ∷ rest ]

abbrev pub Later : TimePoint → Timers → Type 0
Later now ts = All (λ (e : TimePoint × ℕ). now < e.0) ts

Later-Ascends : (now t : TimePoint) (ts : Timers) → now < t → Ascends t ts → Later now ts
Later-Ascends now t [] h p = tt
Later-Ascends now t ((u, j) ∷ ts) h p =
    (omega (arith, p.0), Later-Ascends now u ts (omega (arith, p.0)) p.1)

pub pop-IsScheduler :
    (t : TimePoint) (j : ℕ) (ts : Timers) (s : Scheduler)
    → s.timers ≡ (t, j) ∷ ts
    → IsScheduler s
    → IsScheduler (record s { timers = ts })
pop-IsScheduler t j ts s e h =
    let ascends : Ascends 0 ((t, j) ∷ ts) = subst (Ascends 0) e h.ascending in
    let dated : Dated s.jobs s.next_job ((t, j) ∷ ts) = subst (Dated s.jobs s.next_job) e h.dated in
    let once : (k : ℕ) → count_job k ((t, j) ∷ ts) ≤ 1 =
      subst (λ l. (k : ℕ) → count_job k l ≤ 1) e h.once in
    record {
      ascending = Ascends-weaken t 0 ts (omega arith) ascends.1;
      dated = dated.1;
      once = λ k. omega (arith, once k);
    }

-- What a round of the loop does, by what stands at the front.
run_loop-idle :
    (perform : ℕ → Scheduler → Scheduler) (fuel : ℕ) (s : Scheduler)
    → s.timers ≡ []
    → run_loop perform (suc fuel) s ≡ some (s, [])
unfolding run_loop
run_loop-idle perform fuel s e = ground arith

run_loop-later :
    (perform : ℕ → Scheduler → Scheduler) (fuel : ℕ) (s : Scheduler) (t : TimePoint) (j : ℕ)
    (ts : Timers)
    → s.timers ≡ (t, j) ∷ ts
    → ltb s.now t ≡ true
    → run_loop perform (suc fuel) s ≡ some (s, [])
unfolding run_loop
run_loop-later perform fuel s t j ts e h = ground arith

run_loop-empty :
    (perform : ℕ → Scheduler → Scheduler) (fuel : ℕ) (s : Scheduler) (t : TimePoint) (j : ℕ)
    (ts : Timers)
    → s.timers ≡ (t, j) ∷ ts
    → ltb s.now t ≡ false
    → (s.jobs j).task ≡ none
    → run_loop perform (suc fuel) s ≡ run_loop perform fuel (record s { timers = ts })
unfolding run_loop
run_loop-empty perform fuel s t j ts e h g = rw (run_loop, e) (rw h (rw g refl))

run_loop-calls :
    (perform : ℕ → Scheduler → Scheduler) (fuel : ℕ) (s : Scheduler) (t : TimePoint) (j : ℕ)
    (ts : Timers) (f : ℕ) (s' : Scheduler) (fs : List ℕ)
    → s.timers ≡ (t, j) ∷ ts
    → ltb s.now t ≡ false
    → (s.jobs j).task ≡ some f
    → run_loop perform fuel (perform f (record s { timers = ts })) ≡ some (s', fs)
    → run_loop perform (suc fuel) s ≡ some (s', f ∷ fs)
unfolding run_loop
run_loop-calls perform fuel s t j ts f s' fs e h g r = rw (run_loop, e) (rw h (rw g (rw r refl)))

-- What a called function may do so that `run` ends: it keeps the queue in order and the time of the
-- scheduler, and does not leave more jobs that are due.
abbrev pub KeepsUp : (ℕ → Scheduler → Scheduler) → TimePoint → Type 0
KeepsUp perform now =
    (f : ℕ) (s : Scheduler)
    → IsScheduler s
    → s.now ≡ now
    → IsScheduler (perform f s)
      × ((perform f s).now ≡ now)
      × (length (due now (perform f s).timers) ≤ length (due now s.timers))

run_loop_ends :
    (perform : ℕ → Scheduler → Scheduler) (now : TimePoint)
    → KeepsUp perform now
    → (fuel : ℕ) (s : Scheduler) → IsScheduler s
    → s.now ≡ now
    → length (due now s.timers) < fuel
    → (s' : Scheduler) × (fs : List ℕ) × (run_loop perform fuel s ≡ some (s', fs))
      × IsScheduler s'
      × Later now s'.timers
unfolding due
run_loop_ends perform now keeps zero s h at enough = absurd (omega (arith, enough))
run_loop_ends perform now keeps (suc fuel) s h at enough = elim (List-cases s.timers) [
  | inl idle ↦ (s, [], run_loop-idle perform fuel s idle, h, subst (Later now) (sym idle) tt)
  | inr ((t, j), ts, e) ↦ elim (Bool-cases (ltb s.now t)) [
    | inl later ↦
        let ascends : Ascends 0 ((t, j) ∷ ts) = subst (Ascends 0) e h.ascending in
        let ahead : now < t = ground arith in
        (
          s,
          [],
          run_loop-later perform fuel s t j ts e later,
          h,
          subst (Later now) (sym e) (ahead, Later-Ascends now t ts ahead ascends.1),
        )
    | inr ready ↦
        let s1 : Scheduler = record s { timers = ts } in
        let h1 : IsScheduler s1 = pop-IsScheduler t j ts s e h in
        let fewer : length (due now ts) < fuel = ground arith in
        elim (Option-cases (s.jobs j).task) [
          | inl empty ↦
              let (s', fs, r, h', rest) = run_loop_ends perform now keeps fuel s1 h1 at fewer in
              (s', fs, run_loop-empty perform fuel s t j ts e ready empty ∙ r, h', rest)
          | inr (f, full) ↦
              let (h2, at2, less) = keeps f s1 h1 at in
              let (s', fs, r, h', rest) =
                run_loop_ends perform now keeps fuel (perform f s1) h2 at2
                  (omega (arith, less, fewer)) in
              (s', f ∷ fs, run_loop-calls perform fuel s t j ts f s' fs e ready full r, h', rest)
        ]
  ]
]

-- `run` ends, after as many rounds as there are jobs that are due and one, if no function that it calls
-- leaves more due jobs than it finds, sets the time or breaks the queue. Then no job in the queue is
-- due, the queue is in order, and the time that it returns is that of the first job in the queue.
pub run_ends :
    (perform : ℕ → Scheduler → Scheduler) (now : TimePoint)
    → KeepsUp perform now
    → (fuel : ℕ) (s : Scheduler) → IsScheduler s
    → s.now ≡ now
    → length (due now s.timers) < fuel
    → (s' : Scheduler) × (fs : List ℕ) × (run perform fuel s ≡ some (s', fs, next_job_time s'))
      × IsScheduler s'
      × Later now s'.timers
unfolding run
run_ends perform now keeps fuel s h at enough =
    let (s', fs, r, h', rest) = run_loop_ends perform now keeps fuel s h at enough in
    (s', fs, rw (run, r) refl, h', rest)

-- A called function that neither adds nor cancels jobs that are due.
abbrev pub LeavesDue : (ℕ → Scheduler → Scheduler) → TimePoint → Type 0
LeavesDue perform now =
    (f : ℕ) (s : Scheduler)
    → IsScheduler s
    → s.now ≡ now
    → IsScheduler (perform f s)
      × ((perform f s).now ≡ now)
      × (due now (perform f s).timers ≡ due now s.timers)
      × (tasks_of (perform f s).jobs (due now s.timers) ≡ tasks_of s.jobs (due now s.timers))

run_loop-due :
    (perform : ℕ → Scheduler → Scheduler) (now : TimePoint)
    → LeavesDue perform now
    → (fuel : ℕ) (s : Scheduler) → IsScheduler s
    → s.now ≡ now
    → length (due now s.timers) < fuel
    → (s' : Scheduler) × (run_loop perform fuel s ≡ some (s', tasks_of s.jobs (due now s.timers)))
unfolding due tasks_of
run_loop-due perform now keeps zero s h at enough = absurd (omega (arith, enough))
run_loop-due perform now keeps (suc fuel) s h at enough = elim (List-cases s.timers) [
  | inl idle ↦ (s, run_loop-idle perform fuel s idle ∙ rw idle refl)
  | inr ((t, j), ts, e) ↦ elim (Bool-cases (ltb s.now t)) [
    | inl later ↦ (s, run_loop-later perform fuel s t j ts e later ∙ ground arith)
    | inr ready ↦
        let s1 : Scheduler = record s { timers = ts } in
        let h1 : IsScheduler s1 = pop-IsScheduler t j ts s e h in
        let fewer : length (due now ts) < fuel = ground arith in
        elim (Option-cases (s.jobs j).task) [
          | inl empty ↦
              let (s', r) = run_loop-due perform now keeps fuel s1 h1 at fewer in
              (s', run_loop-empty perform fuel s t j ts e ready empty ∙ r ∙ ground arith)
          | inr (f, full) ↦
              let (h2, at2, same, tasks) = keeps f s1 h1 at in
              let (s', r) =
                run_loop-due perform now keeps fuel (perform f s1) h2 at2 (rw same fewer) in
              (
                s',
                run_loop-calls perform fuel s t j ts f s' _ e ready full r
                    ∙ ground (arith, same, tasks),
              )
        ]
  ]
]

-- `run` calls the functions of the jobs that are due, each once, in the order of the queue, and no
-- others; a job that was cancelled has none. This is if the functions that it calls neither add nor
-- cancel jobs that are due.
pub run-due :
    (perform : ℕ → Scheduler → Scheduler) (now : TimePoint)
    → LeavesDue perform now
    → (fuel : ℕ) (s : Scheduler) → IsScheduler s
    → s.now ≡ now
    → length (due now s.timers) < fuel
    → (s' : Scheduler) × (run perform fuel s
        ≡ some (s', tasks_of s.jobs (due now s.timers), next_job_time s'))
unfolding run
run-due perform now keeps fuel s h at enough =
    let (s', r) = run_loop-due perform now keeps fuel s h at enough in (s', rw (run, r) refl)

-- A function that schedules itself again for the scheduler's time.
abbrev pub again : ℕ → Scheduler → Scheduler
again f s = (add s.now (some f) s).0

insert_timer_first :
    (t : TimePoint) (j : ℕ) (ts : Timers) → Later t ts → insert_timer t j ts ≡ (t, j) ∷ ts
unfolding insert_timer
insert_timer_first t j [] h = refl
insert_timer_first t j ((u, k) ∷ ts) h = ground (arith, h.0)

run_loop-again :
    (fuel : ℕ) (s : Scheduler) (t : TimePoint) (j f : ℕ) (later : Timers)
    → s.timers ≡ (t, j) ∷ later
    → t ≤ s.now
    → (s.jobs j).task ≡ some f
    → Later s.now later
    → s.now < time_max
    → run_loop again fuel s ≡ none
unfolding run_loop add
run_loop-again zero s t j f later e h g ahead before = refl
run_loop-again (suc fuel) s t j f later e h g ahead before =
    let s1 : Scheduler = again f (record s { timers = later }) in
    let first : s1.timers ≡ (s.now, s.next_job) ∷ later =
      ground (arith, insert_timer_first s.now s.next_job later ahead) in
    let task : (s1.jobs s.next_job).task ≡ some f = ground arith in
    let ih =
      run_loop-again fuel s1 s.now s.next_job f later first (omega arith) task ahead before in
    let ready : ltb s.now t ≡ false = ground arith in
    rw (run_loop, e) (rw ready (rw g (rw ih refl)))

-- A job that is due and schedules itself again for `now` is run again and again: `run` does not
-- return, whatever the fuel, where `now` is before `time_point::max()`.
pub run-again :
    (fuel : ℕ) (s : Scheduler) (t : TimePoint) (j f : ℕ) (later : Timers)
    → s.timers ≡ (t, j) ∷ later
    → t ≤ s.now
    → (s.jobs j).task ≡ some f
    → Later s.now later
    → s.now < time_max
    → run again fuel s ≡ none
unfolding run
run-again fuel s t j f later e h g ahead before =
    rw (run, run_loop-again fuel s t j f later e h g ahead before) refl
