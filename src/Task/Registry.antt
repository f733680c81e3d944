-- ===== src/Task/Registry.antt =====
-- Tasks that register, run and leave, src/system/task/registry.rs: an atomic step of one of them
-- at a time, in any order. Task `t` is known to FreeRTOS by the pointer `handle t`.
pub mod TaskSlot
pub mod TaskId
pub mod Invariant
use bark_esp.Base.{ℕ, suc, ◌≡◌, ◌≢◌, Result, ok, err, ltb, if◌then◌else◌}
use TaskSlot.{Slots, update, clear, try_claim, empty}
use TaskId.{max_tasks}

-- Where a task stands in `TaskRegistration::new_for_current_task`, and after.
pub data Pc : Type 0 where
  scanning : (id : ℕ) → Pc
  registered : (id : ℕ) → Pc
  panicked : Pc
  finished : Pc

pub record System : Type 0 where
  pub slots : Slots
  pub pc : ℕ → Pc

-- The result of the compare-exchange sends the loop on, or ends it.
abbrev pub after_claim : ℕ → Result (Unit {0}) (Unit {0}) → Pc
after_claim id (ok _) = registered id
after_claim id (err _) = scanning (suc id)

-- One round of the loop of `new_for_current_task`, or the drop of a registration.
unfoldable pub round : ℕ → ℕ → Slots → Slots × Pc
round task id slots =
    if ltb id max_tasks
    then (let (r, slots') = try_claim slots id task in (slots', after_claim id r))
    else (slots, panicked)

unfoldable pub act : ℕ → Pc → Slots → Slots × Pc
act task (scanning id) slots = round task id slots
act task (registered id) slots = (clear slots id, finished)
act task panicked slots = (slots, panicked)
act task finished slots = (slots, finished)

-- FreeRTOS gives two tasks two handles, and none of them null.
pub record Handles (handle : ℕ → ℕ) : Type 0 where
  pub not_null : (t : ℕ) → handle t ≢ 0
  pub distinct : (t u : ℕ) → handle t ≡ handle u → t ≡ u

abbrev pub start : System
start = record { slots = empty; pc = λ t. scanning 0 }

module _ (handle : ℕ → ℕ) where
  -- A step of task `t`.
  unfoldable pub step : ℕ → System → System
  step t s =
      let (slots, p) = act (handle t) (s.pc t) s.slots in
      record { slots = slots; pc = update s.pc t p }

  pub data Reach : System → Type 0 where
    begin : Reach start
    next : {s : System} → Reach s → (t : ℕ) → Reach (step t s)
