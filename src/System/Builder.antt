-- ===== src/System/Builder.antt =====
-- `TaskBuilder` of src/system/task.rs. Names are their bytes.
pub mod Entry
use bark_esp.Base.{
  ℕ, ◌+◌, ◌%◌, ◌^◌, ◌≤◌, ◌≡◌, List, [], ◌∷◌, ◌++◌, length, take, ◌==◌, if◌then◌else◌, Result, ok,
  err, arith, length-append, length-take,
}

abbrev pub default_stack_size : ℕ
default_stack_size = 8192

abbrev pub default_priority : ℕ
default_priority = 0

pub record TaskBuilder : Type 0 where
  pub name : List ℕ
  pub stack_bytes : ℕ
  pub priority : ℕ
  pub core : ℕ

unfoldable pub new : List ℕ → TaskBuilder
new name = record {
  name = name;
  stack_bytes = default_stack_size;
  priority = default_priority;
  core = 0;
}

unfoldable pub stack_size : ℕ → TaskBuilder → TaskBuilder
stack_size bytes b = record b { stack_bytes = bytes % 2 ^ 32 }

unfoldable pub set_priority : ℕ → TaskBuilder → TaskBuilder
set_priority priority b = record b { priority = priority }

unfoldable pub use_alternate_core : TaskBuilder → TaskBuilder
use_alternate_core b = record b { core = 1 }

pub data SpawnError (MallocError : Type 0) : Type 0 where
  allocate_closure : MallocError → SpawnError MallocError
  task_create_error : SpawnError MallocError

abbrev pub task_name_length : ℕ
task_name_length = 32

-- The name that is passed on: what fits, and a NUL. The vector has room for both.
abbrev pub task_name : List ℕ → List ℕ
task_name name = take task_name_length name ++ (0 ∷ [])

-- What becomes of the closure of a task.
pub data Owner : Type 0 where
  nobody : Owner  -- it was dropped, and its memory freed if it had any
  new_task : Owner

-- `spawn`, for the result of the closure's allocation, the size of its future, and
-- `xTaskCreatePinnedToCore` on the name, the stack size, the priority and the core
unfoldable pub spawn :
    {E : Type 0}
    → Result (Unit {0}) E
    → ℕ
    → (List ℕ → ℕ → ℕ → ℕ → ℕ)
    → TaskBuilder
    → Result (Unit {0}) (SpawnError E) × Owner
spawn (err e) size create b = (err (allocate_closure e), nobody)
spawn (ok _) size create b =
    if create (task_name b.name) ((b.stack_bytes + size) % 2 ^ 32) b.priority b.core == 1
    then (ok tt, new_task)
    else (err task_create_error, nobody)

abbrev pub owner_of : {E : Type 0} → Result (Unit {0}) (SpawnError E) → Owner
owner_of (ok _) = new_task
owner_of (err _) = nobody

-- On every path the closure is passed to a task exactly if `spawn` succeeds, and is dropped
-- otherwise, and the name passed on fits the 33 bytes of its vector.
spawn-owner :
    {E : Type 0} (malloc : Result (Unit {0}) E) (size : ℕ) (create : List ℕ → ℕ → ℕ → ℕ → ℕ)
    (b : TaskBuilder)
    → ((spawn malloc size create b).1 ≡ owner_of (spawn malloc size create b).0)
      × (length (task_name b.name) ≤ task_name_length + 1)
unfolding spawn
spawn-owner malloc size create b =
    (ground arith, omega (arith, length-append (take 32 b.name) (0 ∷ []), length-take 32 b.name))
