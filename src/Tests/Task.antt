-- ===== src/Tests/Task.antt =====
-- Tasks, wakers and their sets, with the pointer `t + 1` for task `t`.
use bark_esp.Base.{ℕ, suc, ◌≡◌, ◌≢◌, ◌<◌, [], ◌∷◌, ◌↔◌, refl, some, arith}
use bark_esp.Task.Registry.{
  System, registered, step, act, round, Handles, Reach, begin, next, start,
}
use bark_esp.Task.Registry.TaskSlot.{Slots, update, load, try_claim}
use bark_esp.Task.Registry.TaskId.{max_tasks}
use bark_esp.Task.Registry.Invariant.{registered_unique}
use bark_esp.Task.Waker.{wake_all, empty_set, wake, from_context}
use bark_esp.Task.Waker.Raw.{RawWaker, clones, to_waker, task_id, context_of, waker_round_trip}
use bark_esp.Task.Waker.Wake.{Woken, Waits, wake_all_iff}

abbrev handle : ℕ → ℕ
handle = suc

handles : Handles handle
handles = record { not_null = λ t e. omega arith; distinct = λ t u e. omega arith }

-- task 4 claims id 0; task 2 finds it taken and claims id 1
abbrev two_tasks : System
two_tasks = step handle 2 (step handle 2 (step handle 4 start))

two_tasks-Reach : Reach handle two_tasks
two_tasks-Reach = next (next (next begin 4) 2) 2

second : two_tasks.pc 2 ≡ registered 1
unfolding step act round try_claim
second = refl

registered_unique_example : (t : ℕ) × (t ≡ 2)
registered_unique_example = (2, registered_unique handles two_tasks-Reach 2 2 1 second second)

-- ids 0 and 1 are in slots, and 1 and 3 in the set
abbrev two_slots : Slots
two_slots = update (update (λ id. 0) 0 5) 1 3

wake_all_iff_example :
    (Woken 3 (wake_all two_slots 10).0
      ↔ (id : ℕ) × Waits 10 id × (load two_slots id ≡ some 3) × (id < max_tasks))
    × ((wake_all two_slots 10).1 ≡ empty_set)
wake_all_iff_example = wake_all_iff two_slots 10 3

waker_round_trip_example :
    let w = clones 77 2 (to_waker 77 1) in
    (task_id 77 w ≡ some (some 1))
    × (wake two_slots w.data_ptr ≡ some (3 ∷ []))
    × (from_context 3 two_slots (context_of 77 w) ≡ some 1)
    × (((j : ℕ) → two_slots j ≡ 3 → j ≡ 1)
        → (v : RawWaker) → v.vtable ≢ 77
        → from_context 3 two_slots (context_of 77 v) ≡ some 1)
waker_round_trip_example = waker_round_trip 77 two_slots 1 3 2 (omega arith) (omega arith) refl
