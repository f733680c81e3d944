-- ===== src/Task/Waker/Raw.antt =====
-- `waker_impl` of src/system/task/waker.rs: the wakers of this executor among those of others. A
-- vtable is its address.
use bark_esp.Base.{
  ℕ, zero, suc, ◌<◌, ◌≡◌, ◌≢◌, refl, Option, none, some, Bool, [], ◌∷◌, ◌==◌, if◌then◌else◌, arith,
}
use bark_esp.Task.Registry.TaskSlot.{Slots, load}
use bark_esp.Task.Registry.TaskId.{max_tasks, current, find_unique, is_task}
use bark_esp.Task.Registry.TaskId
use bark_esp.Task.Waker.{Context, ours, foreign, from_context, wake}

pub record RawWaker : Type 0 where
  pub data_ptr : ℕ
  pub vtable : ℕ

-- `VTABLE` stands at the given address.
module _ (our_vtable : ℕ) where
  -- `as_opaque_ptr` widens the id.
  unfoldable pub new : ℕ → RawWaker
  new id = record { data_ptr = id; vtable = our_vtable }

  unfoldable pub same_vtable : RawWaker → Bool
  same_vtable w = w.vtable == our_vtable

  -- `task_id`, and in it the panic of `TaskId::new`
  unfoldable pub task_id : RawWaker → Option (Option ℕ)
  task_id w = if same_vtable w then some (TaskId.new w.data_ptr) else none

  unfoldable pub clone : ℕ → RawWaker
  clone data_ptr = record { data_ptr = data_ptr; vtable = our_vtable }

  -- `TaskWaker::to_waker`
  abbrev pub to_waker : ℕ → RawWaker
  to_waker id = new id

  -- A waker that was cloned so often.
  abbrev pub clones : ℕ → RawWaker → RawWaker
  clones zero w = w
  clones (suc n) w = clones n (clone w.data_ptr)

  -- The waker of a context, as `from_context` tells it.
  unfoldable pub context_of : RawWaker → Context
  context_of w = if same_vtable w then ours w.data_ptr else foreign

  clones-same : (n id : ℕ) → clones n (new id) ≡ new id
  unfolding new clone
  clones-same zero id = refl
  clones-same (suc n) id = clones-same n id

  new-id : (id : ℕ) → id < max_tasks → TaskId.new id ≡ some id
  unfolding TaskId.new
  new-id id lt = ground arith

  -- The waker of a task that has the slot of its id, cloned any number of times, gives back the
  -- task's id and wakes just that task; and if no other slot has the task, `from_context` finds the
  -- same id for it in the context of any other waker.
  pub waker_round_trip :
      (slots : Slots) (id task n : ℕ)
      → id < max_tasks
      → 0 < task
      → slots id ≡ task
      → let w = clones n (to_waker id) in
        (task_id w ≡ some (some id))
        × (wake slots w.data_ptr ≡ some (task ∷ []))
        × (from_context task slots (context_of w) ≡ some id)
        × (((j : ℕ) → slots j ≡ task → j ≡ id)
            → (v : RawWaker) → v.vtable ≢ our_vtable
            → from_context task slots (context_of v) ≡ some id)
  unfolding task_id same_vtable context_of new clone wake from_context current
  waker_round_trip slots id task n lt pos here = rw (clones-same n id) (
    ground (arith, new-id id lt),
    ground (arith, new-id id lt, here, pos, lt),
    ground (arith, new-id id lt),
    λ only v other. ground (arith, other, found only),
  )
    where
      found : ((j : ℕ) → slots j ≡ task → j ≡ id) → current task slots ≡ some id
      found only =
          find_unique (λ j. is_task task (load slots j)) max_tasks 0 id (omega arith) (omega arith)
            (ground (arith, here, pos)) (λ j e. only j (ground (arith, e)))
