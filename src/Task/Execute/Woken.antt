-- ===== src/Task/Execute/Woken.antt =====
-- No wake-up is lost, and none is made up.
use bark_esp.Base.{
  ℕ, suc, ◌+◌, ◌≤◌, ◌<◌, ◌≡◌, ◌⊎◌, inl, refl, Bool, true, false, List, [], ◌∷◌, if◌then◌else◌,
  arith,
}
use bark_esp.Task.Execute.{
  Pc, polling, waiting, returned, Executor, Event, task_runs, woken, step_task, notify, run,
}

-- A poll was begun after the `n`-th, or the notification is pending.
abbrev pub Heard : ℕ → Executor → Type 0
Heard n s = (s.notified ≡ true) ⊎ (n < s.polls)

abbrev pub wakes : List Event → ℕ
wakes [] = 0
wakes (task_runs ready ∷ es) = wakes es
wakes (woken ∷ es) = suc (wakes es)

abbrev pub pending : Executor → ℕ
pending s = if s.notified then 1 else 0

step-Heard :
    (n : ℕ) (ready : Bool) (p : Pc) (s : Executor)
    → n ≤ s.polls
    → Heard n s
    → Heard n (step_task ready p s)
unfolding step_task
step-Heard n ready polling s le h = h
step-Heard n ready waiting s le h = ground (arith, h, le)
step-Heard n ready returned s le h = h

step-polls :
    (ready : Bool) (p : Pc) (s : Executor)
    → (s.polls ≤ (step_task ready p s).polls)
      × ((step_task ready p s).polls + pending (step_task ready p s) ≤ s.polls + pending s)
unfolding step_task
step-polls ready polling s = (omega arith, omega arith)
step-polls ready waiting s = ground arith
step-polls ready returned s = (omega arith, omega arith)

run-Heard : (es : List Event) (n : ℕ) (s : Executor) → n ≤ s.polls → Heard n s → Heard n (run es s)
unfolding run notify
run-Heard [] n s le h = h
run-Heard (task_runs ready ∷ es) n s le h =
    run-Heard es n (step_task ready s.pc s) (omega (arith, le, (step-polls ready s.pc s).0))
      (step-Heard n ready s.pc s le h)
run-Heard (woken ∷ es) n s le h = run-Heard es n (notify s) le (inl refl)

run-polls :
    (es : List Event) (s : Executor)
    → (run es s).polls + pending (run es s) ≤ s.polls + pending s + wakes es
unfolding run notify
run-polls [] s = omega arith
run-polls (task_runs ready ∷ es) s =
    omega (arith, run-polls es (step_task ready s.pc s), (step-polls ready s.pc s).1)
run-polls (woken ∷ es) s = ground (arith, run-polls es (notify s))

resumes :
    (s : Executor)
    → s.pc ≡ waiting
    → s.notified ≡ true
    → ((step_task false s.pc s).pc ≡ polling) × ((step_task false s.pc s).polls ≡ suc s.polls)
unfolding step_task
resumes s w n = rw (w, n) (refl, refl)

-- Whatever follows a wake-up: it is still pending, or a poll was begun after it; a wait with one
-- pending ends at the next step of the task, which begins a poll; and there are no more polls than
-- the one before, the wake-ups, and one for a notification that was pending.
pub woken-Heard :
    (es : List Event) (s : Executor)
    → let s' = run (woken ∷ es) s in
      Heard s.polls s'
      × (s'.pc ≡ waiting
          → s'.notified ≡ true
          → ((step_task false s'.pc s').pc ≡ polling)
            × ((step_task false s'.pc s').polls ≡ suc s'.polls))
      × (s'.polls ≤ s.polls + pending s + suc (wakes es))
unfolding run notify step_task
woken-Heard es s = (
  run-Heard es s.polls (notify s) (omega arith) (inl refl),
  resumes (run es (notify s)),
  omega (arith, run-polls (woken ∷ es) s),
)
