-- ===== src/Scheduler/Steps.antt =====
-- Sequences of calls on a scheduler, of `run` too. `body f s` are the calls that the function f makes when
-- it is called at the scheduler s.
use opendht.Prelude.{
  ℕ, zero, suc, ◌≡◌, subst, List, [], ◌∷◌, none, some, arith, ltb, Bool-cases, Option-cases,
  List-cases, inl, inr,
}
use opendht.Scheduler.{Scheduler, run_loop, run}
use opendht.Scheduler.Invariant.{IsScheduler, Step, apply_steps, apply_steps-IsScheduler}
use opendht.Scheduler.Runs.{pop-IsScheduler}

run_loop-IsScheduler :
    (perform : ℕ → Scheduler → Scheduler)
    → ((f : ℕ) (s : Scheduler) → IsScheduler s → IsScheduler (perform f s))
    → (fuel : ℕ) (s s' : Scheduler) (fs : List ℕ) → run_loop perform fuel s ≡ some (s', fs)
    → IsScheduler s
    → IsScheduler s'
unfolding run_loop
run_loop-IsScheduler perform keeps zero s s' fs e h = cc
run_loop-IsScheduler perform keeps (suc fuel) s s' fs e h = elim (List-cases s.timers) [
  | inl idle ↦ let same : s ≡ s' = ground (arith, e, idle) in subst IsScheduler same h
  | inr ((t, j), ts, there) ↦
      let s1 : Scheduler = record s { timers = ts } in
      let h1 : IsScheduler s1 = pop-IsScheduler t j ts s there h in
      elim (Bool-cases (ltb s.now t)) [
        | inl later ↦
            let same : s ≡ s' = ground (arith, e, there, later) in subst IsScheduler same h
        | inr ready ↦ elim (Option-cases (s.jobs j).task) [
          | inl empty ↦
              run_loop-IsScheduler perform keeps fuel s1 s' fs
                (ground (arith, e, there, ready, empty)) h1
          | inr (f, full) ↦ elim (Option-cases (run_loop perform fuel (perform f s1))) [
            | inl short ↦ absurd (ground (arith, e, there, ready, full, short))
            | inr ((s2, gs), r) ↦
                let same : s2 ≡ s' = ground (arith, e, there, ready, full, r) in
                subst IsScheduler same
                  (run_loop-IsScheduler perform keeps fuel (perform f s1) s2 gs r (keeps f s1 h1))
          ]
        ]
      ]
]

-- A call of another operation, or of `run` with some fuel.
pub data Turn : Type 0 where
  step_of : Step → Turn
  run_jobs : ℕ → Turn

module _ (body : ℕ → Scheduler → List Step) where
  abbrev pub perform_body : ℕ → Scheduler → Scheduler
  perform_body f s = apply_steps (body f s) s

  -- The scheduler after a call; a `run` that does not return within its fuel counts as not made.
  unfoldable pub take_turn : Turn → Scheduler → Scheduler
  unfolding apply_steps run
  take_turn (step_of c) s = apply_steps (c ∷ []) s
  take_turn (run_jobs fuel) s = elim (run perform_body fuel s) [ none ↦ s | some (s', fs, t) ↦ s' ]

  unfoldable pub take_turns : List Turn → Scheduler → Scheduler
  unfolding take_turn
  take_turns [] s = s
  take_turns (c ∷ cs) s = take_turns cs (take_turn c s)

  take_turn-IsScheduler : (c : Turn) (s : Scheduler) → IsScheduler s → IsScheduler (take_turn c s)
  unfolding take_turn run
  take_turn-IsScheduler (step_of c) s h = apply_steps-IsScheduler (c ∷ []) s h
  take_turn-IsScheduler (run_jobs fuel) s h = elim (Option-cases (run_loop perform_body fuel s)) [
    | inl short ↦ rw (take_turn, run, short) h
    | inr ((s', fs), e) ↦
        rw (take_turn, run, e)
          (run_loop-IsScheduler perform_body (λ f s1 h1. apply_steps-IsScheduler (body f s1) s1 h1)
            fuel s s' fs e h)
  ]

  -- After any sequence of calls of `add`, `edit`, `cancel` and `syncTime`, and of calls of `run` that
  -- return, where the functions that `run` calls make such calls but of `run`, the queue is in the order
  -- of the times, each entry stands at the time of its job, and no job has two entries.
  pub take_turns-IsScheduler :
      (cs : List Turn) (s : Scheduler) → IsScheduler s → IsScheduler (take_turns cs s)
  unfolding take_turns
  take_turns-IsScheduler [] s h = h
  take_turns-IsScheduler (c ∷ cs) s h =
      take_turns-IsScheduler cs (take_turn c s) (take_turn-IsScheduler c s h)
