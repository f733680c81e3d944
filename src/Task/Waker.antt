-- ===== src/Task/Waker.antt =====
-- Wakers and sets of them, src/system/task/waker.rs. A set is the word of its bits, on which each
-- operation is one atomic step. A wake-up is a FreeRTOS notification of a task: what the models
-- return is the pointers that are notified, in order.
pub mod Wake
pub mod Raw
use Prim.Native.Nat.{bit_or}
use bark_esp.Base.{
  ℕ, zero, suc, ◌+◌, ◌%◌, ◌^◌, Option, none, some, Bool, true, false, ltb, List, [], ◌∷◌,
  if◌then◌else◌, ◌==◌,
}
use bark_esp.Base.Bits.{has_bit}
use bark_esp.Sync.Isr.{IsrResult, of_ok, default, chain}
use bark_esp.Task.Registry.TaskSlot.{Slots, load}
use bark_esp.Task.Registry.TaskId.{max_tasks, as_bit, current}
use bark_esp.Task.Registry.TaskId

-- The waker of a context: one of this executor's, with its data pointer, or another library's.
pub data Context : Type 0 where
  ours : (data_ptr : ℕ) → Context
  foreign : Context

-- `TaskWaker::from_context`, called by the task with the given pointer. `none` is a panic.
unfoldable pub from_context : ℕ → Slots → Context → Option ℕ
from_context task slots (ours data_ptr) = TaskId.new data_ptr
from_context task slots foreign = current task slots

-- `TaskWakerSet`, its `bits`
abbrev pub TaskWakerSet : Type 0
TaskWakerSet = ℕ

abbrev pub empty_set : TaskWakerSet
empty_set = 0

-- `add_task`, for the id that `from_context` returns
unfoldable pub add_task : ℕ → TaskWakerSet → TaskWakerSet
add_task id bits = bit_or bits (as_bit id)

-- One id of the iteration: `filter` by the bit, then `filter_map` by what the slot loads.
abbrev pub pass : Bool → Option ℕ → List ℕ → List ℕ
pass false task rest = rest
pass true none rest = rest
pass true (some task) rest = task ∷ rest

-- The tasks of the ids from `from` on, `count` of them.
unfoldable pub wakeable : TaskWakerSet → Slots → ℕ → ℕ → List ℕ
wakeable bits slots zero from = []
wakeable bits slots (suc count) from =
    pass (has_bit bits (from % 32)) (load slots from) (wakeable bits slots count (suc from))

-- `take_wakeable` swaps the set for the empty one.
unfoldable pub take_wakeable : Slots → TaskWakerSet → List ℕ × TaskWakerSet
take_wakeable slots bits = (wakeable bits slots max_tasks 0, empty_set)

-- `wake_all`: the tasks notified, and the set left.
unfoldable pub wake_all : Slots → TaskWakerSet → List ℕ × TaskWakerSet
wake_all slots bits = take_wakeable slots bits

module _ (Infallible : Type 0) where
  -- `wake_from_isr` for each of the tasks; `notify` is `xTaskGenericNotifyFromISR`, and says
  -- whether the task that it notified should run at once.
  unfoldable pub chain_wakes :
      (ℕ → Bool) → List ℕ → IsrResult (Unit {0}) Infallible → IsrResult (Unit {0}) Infallible
  chain_wakes notify [] result = result
  chain_wakes notify (task ∷ tasks) result =
      chain_wakes notify tasks (chain result (of_ok tt (notify task)))

  unfoldable pub wake_from_isr :
      (ℕ → Bool) → Slots → TaskWakerSet → IsrResult (Unit {0}) Infallible × TaskWakerSet
  wake_from_isr notify slots bits =
      let (tasks, bits') = take_wakeable slots bits in (chain_wakes notify tasks default, bits')

-- `waker_impl::wake`, for the data pointer of a waker: the tasks notified. `none` is a panic, also
-- that of the index of a slot.
unfoldable pub wake : Slots → ℕ → Option (List ℕ)
wake slots data_ptr = elim (TaskId.new data_ptr) [
  | some id ↦ if ltb id max_tasks then some (pass true (load slots id) []) else none
  | none ↦ none
]
