-- ===== src/System/Builder/Entry.antt =====
-- The closure of a task from `spawn` to the end of the task, src/system/task.rs, with the box that
-- carries it from one task to the other.
use bark_esp.Base.{
  ℕ, ◌+◌, ◌%◌, ◌^◌, ◌≡◌, Option, none, some, Bool, true, false, List, [], ◌∷◌, ◌==◌, if◌then◌else◌,
  Result, ok, err,
}
use bark_esp.System.Builder.{
  TaskBuilder, SpawnError, allocate_closure, task_create_error, task_name,
}
use bark_esp.System.HeapBox.{Store, alloc, into_raw, from_raw, into_inner, drop_free}

-- What a task returns, and what it logs of it: the two instances of `TaskReturn`.
pub data TaskReturn (E : Type 0) : Type 0 where
  unit : TaskReturn E
  ok_of : TaskReturn E → TaskReturn E
  err_of : E → TaskReturn E

pub data Message (E : Type 0) : Type 0 where
  exited : (task : List ℕ) → Message E
  failed : (task : List ℕ) → E → Message E

unfoldable pub log : {E : Type 0} → TaskReturn E → List ℕ → Message E
log unit task = exited task
log (ok_of value) task = log value task
log (err_of e) task = failed task e

-- The error that a return value is, however deep in its results, or none.
unfoldable pub error_of : {E : Type 0} → TaskReturn E → Option E
error_of unit = none
error_of (ok_of value) = error_of value
error_of (err_of e) = some e

module _ (A : Type 0) where
  -- What a new task has done.
  pub record Task (E : Type 0) : Type 0 where
    pub store : Store A
    pub logged : List (Message E)
    pub deleted : Bool

  -- `log` and `vTaskDelete`, if `execute` returns
  abbrev pub finish : {E : Type 0} → Option (TaskReturn E) → List ℕ → Store A → Task E
  finish none task s = record { store = s; logged = []; deleted = false }
  finish (some result) task s = record { store = s; logged = log result task ∷ []; deleted = true }

  -- `start`, on its parameter; `execute` gives what the future of a closure comes to, `none` if it
  -- is never ready, and the name is that of the running task. `none` is a fault.
  unfoldable pub start :
      {E : Type 0} → (A → Option (TaskReturn E)) → List ℕ → ℕ → Store A → Option (Task E)
  start execute task param s = elim (into_inner A (from_raw A param) s) [
    | some (main, s') ↦ some (finish (execute main) task s')
    | none ↦ none
  ]

  abbrev pub not_created :
      {E : Type 0} → Option (Store A) → Option (Result (Unit {0}) (SpawnError E) × Store A)
  not_created none = none
  not_created (some s) = some (err task_create_error, s)

  -- `spawn`, for what the allocator returned for the closure, the size of its future, and
  -- `xTaskCreatePinnedToCore` on the name, the stack size, the parameter, the priority and the core
  unfoldable pub spawn :
      {E : Type 0}
      → Result ℕ E
      → ℕ
      → (List ℕ → ℕ → ℕ → ℕ → ℕ → ℕ)
      → TaskBuilder
      → A
      → Store A
      → Option (Result (Unit {0}) (SpawnError E) × Store A)
  spawn malloc size create b main s =
      let (boxed, s') = alloc A malloc main s in
      elim boxed [
        | err e ↦ some (err (allocate_closure e), s')
        | ok ptr ↦
            let raw = into_raw A ptr in
            if create (task_name b.name) ((b.stack_bytes + size) % 2 ^ 32) raw b.priority b.core
              == 1
            then some (ok tt, s')
            else not_created (drop_free A (from_raw A raw) s')
      ]

  module _ (E F : Type 0) (size : ℕ) (create : List ℕ → ℕ → ℕ → ℕ → ℕ → ℕ) (b : TaskBuilder)
      (main : A) (s : Store A) where
    abbrev created : ℕ → Bool
    created p = create (task_name b.name) ((b.stack_bytes + size) % 2 ^ 32) p b.priority b.core == 1

    -- What a task has done when its future came to a result: one message tells that it exited
    -- or with which error it ended, and it is deleted.
    abbrev pub Ended : Option F → List ℕ → Task F → Type 0
    Ended none task t = (t.logged ≡ exited task ∷ []) × (t.deleted ≡ true)
    Ended (some e) task t = (t.logged ≡ failed task e ∷ []) × (t.deleted ≡ true)

    -- What it has done for what its future comes to, if that is ever ready.
    abbrev pub Leaves : Option (TaskReturn F) → List ℕ → Task F → Type 0
    Leaves none task t = (t.logged ≡ []) × (t.deleted ≡ false)
    Leaves (some result) task t = Ended (error_of result) task t

    -- The closure is with the new task, or was dropped.
    abbrev pub Settled : Result (Unit {0}) (SpawnError E) → Store A → ℕ → Type 0
    Settled (ok _) s' p =
        (execute : A → Option (TaskReturn F)) (task : List ℕ)
        → (t : Task F) × (start execute task p s' ≡ some t)
          × (t.store ≡ s)
          × Leaves (execute main) task t
    Settled (err _) s' p = s' ≡ record s { dropped = main ∷ s.dropped }
