-- ===== src/Task/Registry/TaskId.antt =====
-- `TaskId` of src/system/task/registry.rs.
use bark_esp.Base.{
  ℕ, zero, suc, ◌+◌, ◌%◌, ◌^◌, ◌≤◌, ◌<◌, ◌≡◌, ap, Option, none, some, Bool, true, false, ltb,
  if◌then◌else◌, ◌==◌, arith, Bool-cases, inl, inr,
}
use bark_esp.Task.Registry.TaskSlot.{Slots, load}

abbrev pub max_tasks : ℕ
max_tasks = 32

-- `none` is the panic of an argument over `MAX_TASKS`; `as u8` keeps the low byte.
unfoldable pub new : ℕ → Option ℕ
new num = if ltb max_tasks num then none else some (num % 2 ^ 8)

-- `1 << self.0` in `u32`, whose shift goes by the low five bits.
abbrev pub as_bit : ℕ → ℕ
as_bit id = 2 ^ (id % 32)

-- The loop over the ids: the first of the numbers from `from` on that passes the test.
unfoldable pub find : (ℕ → Bool) → ℕ → ℕ → Option ℕ
find test zero from = none
find test (suc count) from =
    let rest = find test count (suc from) in if test from then some from else rest

abbrev pub is_task : ℕ → Option ℕ → Bool
is_task task none = false
is_task task (some p) = p == task

-- `TaskId::current`; `none` is the panic of a task that is not registered.
unfoldable pub current : ℕ → Slots → Option ℕ
current task slots = find (λ id. is_task task (load slots id)) max_tasks 0

-- The loop finds the only number that passes.
pub find_unique :
    (test : ℕ → Bool) (count from id : ℕ)
    → from ≤ id
    → id < from + count
    → test id ≡ true
    → ((j : ℕ) → test j ≡ true → j ≡ id)
    → find test count from ≡ some id
unfolding find
find_unique test zero from id lo hi hit only = absurd (omega arith)
find_unique test (suc count) from id lo hi hit only = elim (Bool-cases (test from)) [
  | inl here ↦ rw here (ap some (only from here))
  | inr miss ↦
      rw miss
        (find_unique test count (suc from) id (ground (arith, only from)) (omega arith) hit only)
]
