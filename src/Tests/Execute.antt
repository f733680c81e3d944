-- ===== src/Tests/Execute.antt =====
-- The executor of src/system/task/execute.rs, woken while it polls.
use bark_esp.Base.{suc, ◌+◌, ◌≤◌, ◌≡◌, true, false, List, [], ◌∷◌}
use bark_esp.Task.Execute.{Event, polling, waiting, task_runs, woken, start, step_task, run}
use bark_esp.Task.Execute.Woken.{Heard, pending, wakes, woken-Heard}

-- Its poll was not ready, and it waits.
abbrev after : List Event
after = task_runs false ∷ []

woken-Heard_example :
    let s' = run (woken ∷ after) start in
    Heard start.polls s'
    × (s'.pc ≡ waiting
        → s'.notified ≡ true
        → ((step_task false s'.pc s').pc ≡ polling)
          × ((step_task false s'.pc s').polls ≡ suc s'.polls))
    × (s'.polls ≤ start.polls + pending start + suc (wakes after))
woken-Heard_example = woken-Heard after start
