-- ===== src/Sync/Mutex.antt =====
-- `TaskMutex` of src/sync/mutex.rs between tasks of the executor of src/system/task/execute.rs.
-- A task moves by one access to shared memory at a time, in any order; task `t` is registered
-- under the id `t`, and FreeRTOS knows it by the pointer that `slots` has there.
pub mod Exclusion
pub mod Wakeups
pub mod Guarded
use bark_esp.Base.{ℕ, ◌≡◌, Bool, true, false, List, [], ◌∷◌, if◌then◌else◌}
use bark_esp.Task.Registry.TaskSlot.{Slots, update}
use bark_esp.Task.Waker.{TaskWakerSet, empty_set, add_task, wake_all}

-- Where a task stands.
pub data Pc : Type 0 where
  idle : Pc  -- outside `lock`
  polling : Pc  -- in `poll_lock`, before the swap
  adding : Pc  -- the swap found the flag set; before `add_task`
  parked : Pc  -- `Pending` was returned; in `xTaskGenericNotifyWait`
  holding : Pc  -- with a guard
  waking : Pc  -- in the guard's drop, after the store

pub record System : Type 0 where
  pub flag : Bool
  pub notify : TaskWakerSet
  -- the pending FreeRTOS notifications, by task pointer
  pub notified : ℕ → Bool
  pub pc : ℕ → Pc

abbrev pub start : System
start = record { flag = false; notify = empty_set; notified = λ p. false; pc = λ t. idle }

-- `xTaskGenericNotify` of each task of a list
abbrev pub notify_all : List ℕ → (ℕ → Bool) → ℕ → Bool
notify_all [] f = f
notify_all (p ∷ ps) f = update (notify_all ps f) p true

abbrev pub goto : ℕ → Pc → System → System
goto t p s = record s { pc = update s.pc t p }

module _ (slots : Slots) where
  -- A step of task `t` from its place; a task that waits for a notification has none.
  unfoldable pub act : ℕ → Pc → System → System
  act t idle s = goto t polling s
  act t polling s = if s.flag then goto t adding s else goto t holding (record s { flag = true })
  act t adding s = goto t parked (record s { notify = add_task t s.notify })
  act t parked s =
      if s.notified (slots t)
      then goto t polling (record s { notified = update s.notified (slots t) false })
      else s
  act t holding s = goto t waking (record s { flag = false })
  act t waking s =
      let (woken, notify) = wake_all slots s.notify in
      goto t idle (record s { notify = notify; notified = notify_all woken s.notified })

  unfoldable pub step : ℕ → System → System
  step t s = act t (s.pc t) s

  pub data Reach : System → Type 0 where
    begin : Reach start
    next : {s : System} → Reach s → (t : ℕ) → Reach (step t s)
