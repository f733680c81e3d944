-- ===== src/System/Top.antt =====
-- The task monitor of src/system/task/top.rs: what it reads of the tasks, and a row of its table.
-- A task's status is the one that FreeRTOS fills in; the texts are those that `print_task` is given.
pub mod Frame
pub mod Table
use bark_esp.Base.{
  ℕ, ◌-◌, ◌*◌, ◌/◌, ◌^◌, ◌≤◌, ◌<◌, ◌≡◌, List, [], ◌∷◌, Option, none, some, ◌==◌, leb, ltb,
  if◌then◌else◌, arith,
}
use native.Mathlib.Nat.{div-le_of_le-mul}

abbrev pub max_top_tasks : ℕ
max_top_tasks = 32

-- `TaskStatus`; `core_id` is the pattern of an `i32`.
pub record TaskStatus : Type 0 where
  pub id : ℕ
  pub state : ℕ
  pub core_id : ℕ
  pub runtime_tick_counter : ℕ
  pub priority : ℕ

pub record SystemState : Type 0 where
  pub elapsed_ticks : ℕ
  pub tasks : List TaskStatus

pub data CoreAffinity : Type 0 where
  any : CoreAffinity
  pinned : (core : ℕ) → CoreAffinity

-- `tskNO_AFFINITY`, a number of FreeRTOS, is `no_affinity`.
unfoldable pub affinity : ℕ → TaskStatus → CoreAffinity
affinity no_affinity t = if t.core_id == no_affinity then any else pinned t.core_id

-- `CoreAffinity::from`, for the pattern of an `i32`
unfoldable pub affinity_of : ℕ → CoreAffinity
affinity_of value = if ltb value (2 ^ 31) then pinned value else any

pub data TaskState : Type 0 where
  ready running blocked suspended deleted invalid : TaskState

-- The numbers that FreeRTOS gives its states.
pub record States : Type 0 where
  pub e_ready : ℕ
  pub e_running : ℕ
  pub e_blocked : ℕ
  pub e_suspended : ℕ
  pub e_deleted : ℕ

-- `TaskState::from`
unfoldable pub state_of : States → ℕ → TaskState
state_of e value =
    if value == e.e_ready
    then ready
    else if value == e.e_running
    then running
    else if value == e.e_blocked
    then blocked
    else if value == e.e_suspended
    then suspended
    else if value == e.e_deleted
    then deleted
    else invalid

-- `get_system_state`, for `uxTaskGetSystemState` with room for so many tasks: it gives the statuses
-- and the ticks, or `none` if there are more tasks, and then `elapsed_ticks` stays 0.
unfoldable pub get_system_state : (ℕ → Option (ℕ × List TaskStatus)) → SystemState
get_system_state ux_task_get_system_state = elim (ux_task_get_system_state max_top_tasks) [
  | some (ticks, tasks) ↦ record { elapsed_ticks = ticks; tasks = tasks }
  | none ↦ record { elapsed_ticks = 0; tasks = [] }
]

-- `find` by the id, and the counter, or 0
unfoldable pub prev_ticks : ℕ → List TaskStatus → ℕ
prev_ticks id [] = 0
prev_ticks id (t ∷ ts) =
    let rest = prev_ticks id ts in if t.id == id then t.runtime_tick_counter else rest

-- `u32` arithmetic, with the overflow checks of the dev profile
abbrev pub sub_u32 : ℕ → ℕ → Option ℕ
sub_u32 a b = if leb b a then some (a - b) else none

abbrev pub mul_u32 : ℕ → ℕ → Option ℕ
mul_u32 a b = if ltb (a * b) (2 ^ 32) then some (a * b) else none

abbrev pub div_u32 : ℕ → ℕ → Option ℕ
div_u32 a b = if b == 0 then none else some (a / b)

-- The percentage of a task; `none` is a panic.
unfoldable pub cpu_pct : SystemState → SystemState → TaskStatus → Option ℕ
cpu_pct prev state t = elim (sub_u32 state.elapsed_ticks prev.elapsed_ticks) [
  | none ↦ none
  | some elapsed ↦ elim (sub_u32 t.runtime_tick_counter (prev_ticks t.id prev.tasks)) [
    | none ↦ none
    | some ran ↦ elim (mul_u32 ran 100) [ none ↦ none | some scaled ↦ div_u32 scaled elapsed ]
  ]
]

-- A task's percentage is computed without a panic if time went by, its counter did not go back, and
-- a hundred times what it ran fits 32 bits; it is at most 100 if the task ran no longer than the
-- time.
cpu_pct-le :
    (prev state : SystemState) (t : TaskStatus)
    → prev.elapsed_ticks < state.elapsed_ticks
    → prev_ticks t.id prev.tasks ≤ t.runtime_tick_counter
    → (t.runtime_tick_counter - prev_ticks t.id prev.tasks) * 100 < 2 ^ 32
    → t.runtime_tick_counter - prev_ticks t.id prev.tasks ≤ state.elapsed_ticks - prev.elapsed_ticks
    → (pct : ℕ) × (cpu_pct prev state t ≡ some pct) × (pct ≤ 100)
unfolding cpu_pct
cpu_pct-le prev state t time counter fits ran = (
  (t.runtime_tick_counter - prev_ticks t.id prev.tasks)
      * 100
      / (state.elapsed_ticks - prev.elapsed_ticks),
  ground arith,
  div-le_of_le-mul (state.elapsed_ticks - prev.elapsed_ticks) (omega arith),
)
