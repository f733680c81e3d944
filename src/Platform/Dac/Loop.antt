-- ===== src/Platform/Dac/Loop.antt =====
-- `Dac::write`: its loop, in which interrupts come before each poll. After a poll that is pending
-- the task waits for a notification: a spurious one, or that of the next interrupt, which notifies
-- the tasks of the waker set.
pub mod Drain
pub mod Finish
use bark_esp.Base.{
  ℕ, suc, zero, ◌<◌, ◌≤◌, length, List, [], ◌∷◌, ◌++◌, Option, none, some, Bool, true, false, ◌==◌,
  if◌then◌else◌,
}
use bark_esp.Task.Registry.TaskSlot.{Slots}
use bark_esp.Sync.Queue.{Poll, ready, pending}
use bark_esp.Task.Waker.{take_wakeable}
use bark_esp.Platform.Dac.{Frame, DmaFrame, Statics, poll_write, on_convert_done, advance}

-- The outputs of the interrupts by the number of rounds that are left, before the poll and in the
-- wait, and whether the wait ends by a spurious wake-up. The limit is on the number of these.
pub record Schedule : Type 0 where
  pub before : ℕ → List (List DmaFrame)
  pub wakes : ℕ → List DmaFrame
  pub spurious : ℕ → Bool
  pub limit : ℕ

-- The spurious wake-ups in the last rounds.
unfoldable pub count_spurious : (ℕ → Bool) → ℕ → ℕ
count_spurious spurious zero = 0
count_spurious spurious (suc n) =
    let rest = count_spurious spurious n in if spurious n then suc rest else rest

-- The interrupts in the waits have outputs that are not empty, and the spurious wake-ups keep to the
-- limit.
pub record Prompt (t : Schedule) : Type 0 where
  pub nonempty : (i : ℕ) → 0 < length (t.wakes i)
  pub few : (n : ℕ) → count_spurious t.spurious n ≤ t.limit

-- Whether a task is among those that are notified.
abbrev pub is_among : ℕ → List ℕ → Bool
is_among task [] = false
is_among task (x ∷ xs) = let rest = is_among task xs in if x == task then true else rest

-- What was sent before, and then.
abbrev pub sent_first :
    List DmaFrame → Option (List DmaFrame × Statics) → Option (List DmaFrame × Statics)
sent_first sent none = none
sent_first sent (some (rest, s)) = some (sent ++ rest, s)

module _ (notify : ℕ → Bool) (slots : Slots) where
  -- What an interrupt sends, and what it leaves.
  abbrev pub interrupt : List DmaFrame → Statics → List DmaFrame × Statics
  interrupt output s =
      let (sent, need_wake, s') = on_convert_done notify slots output s in (sent, s')

  unfoldable pub interrupts : List (List DmaFrame) → Statics → List DmaFrame × Statics
  interrupts [] s = ([], s)
  interrupts (output ∷ outputs) s =
      let (sent, s') = interrupt output s in
      let (rest, s'') = interrupts outputs s' in (sent ++ rest, s'')

  -- Whether an interrupt notifies the task with the id `id`.
  abbrev pub is_notified : ℕ → Statics → Bool
  is_notified id s = is_among (slots id) (take_wakeable slots s.waker).0

  -- The wait for the next poll. An interrupt leaves the set empty, and nothing but the task itself
  -- adds to it, so a task that the interrupt does not notify waits for ever: `none`.
  unfoldable pub wait :
      ℕ → Poll ℕ → Bool → List DmaFrame → Statics → Option (List DmaFrame × Statics)
  wait id (ready n) early output s = some ([], s)
  wait id pending true output s = some ([], s)
  wait id pending false output s = if is_notified id s then some (interrupt output s) else none

  -- `write` by the task with the id `id`: all that is sent while it runs, and what it leaves;
  -- `none` when it waits for ever or the rounds run out.
  unfoldable pub write : ℕ → ℕ → Schedule → List Frame → Statics → Option (List DmaFrame × Statics)
  write id fuel t [] s = some ([], s)
  write id zero t (f ∷ frames) s = none
  write id (suc fuel) t (f ∷ frames) s =
      let (sent, s1) = interrupts (t.before fuel) s in
      let (p, s2) = poll_write id (f ∷ frames) s1 in
      elim (wait id p (t.spurious fuel) (t.wakes fuel) s2) [
        | none ↦ none
        | some (woken, s3) ↦
            sent_first sent (sent_first woken (write id fuel t (advance p (f ∷ frames)) s3))
      ]
