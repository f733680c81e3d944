-- ===== src/Task/Execute.antt =====
-- `execute` of src/system/task/execute.rs: a task polls its future, and waits for a notification
-- before it polls again. A task has one notification, which is pending or not.
pub mod Woken
use bark_esp.Base.{ℕ, suc, Bool, true, false, List, [], ◌∷◌, if◌then◌else◌}

-- Where the loop stands.
pub data Pc : Type 0 where
  polling : Pc
  waiting : Pc  -- in `xTaskGenericNotifyWait`
  returned : Pc

pub record Executor : Type 0 where
  pub pc : Pc
  pub notified : Bool
  -- the polls that were begun
  pub polls : ℕ

pub data Event : Type 0 where
  -- the task runs; the poll it is in is ready or not
  task_runs : (ready : Bool) → Event
  -- a waker of the task notifies it
  woken : Event

-- Its first poll.
abbrev pub start : Executor
start = record { pc = polling; notified = false; polls = 1 }

-- The wait ends when the notification is pending, and takes it.
unfoldable pub step_task : Bool → Pc → Executor → Executor
step_task ready polling s = record s { pc = if ready then returned else waiting }
step_task ready waiting s =
    if s.notified then record s { pc = polling; notified = false; polls = suc s.polls } else s
step_task ready returned s = s

unfoldable pub notify : Executor → Executor
notify s = record s { notified = true }

unfoldable pub run : List Event → Executor → Executor
run [] s = s
run (task_runs ready ∷ es) s = run es (step_task ready s.pc s)
run (woken ∷ es) s = run es (notify s)
