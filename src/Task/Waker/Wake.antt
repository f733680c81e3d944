-- ===== src/Task/Waker/Wake.antt =====
-- Whom a wake-up reaches.
use bark_esp.Base.{
  ℕ, zero, suc, ◌+◌, ◌%◌, ◌≤◌, ◌<◌, ◌≡◌, ◌↔◌, ◌⊎◌, refl, ap, ◌∙◌, Option, none, some, Bool, true,
  false, List, [], ◌∷◌, ◌||◌, ◌==◌, arith, inl, inr, ℕ_discrete,
}
use bark_esp.Base.Bits.{has_bit, has_bit-or}
use bark_esp.Task.Registry.TaskSlot.{Slots, load}
use bark_esp.Task.Registry.TaskId.{max_tasks}
use bark_esp.Sync.Isr.{IsrResult, of_ok, default, chain}
use bark_esp.Task.Waker.{
  TaskWakerSet, empty_set, add_task, wakeable, take_wakeable, wake_all, chain_wakes, wake_from_isr,
  pass,
}

-- An id is in a set.
abbrev pub Waits : TaskWakerSet → ℕ → Type 0
Waits bits id = has_bit bits id ≡ true

-- A list of tasks holds a task, in a form that is taken apart by cases.
abbrev pub Woken : ℕ → List ℕ → Type 0
Woken task [] = ⊥
Woken task (x ∷ xs) = (x ≡ task) ⊎ Woken task xs

pass-keeps :
    (b : Bool) (o : Option ℕ) (task : ℕ) (rest : List ℕ)
    → Woken task rest
    → Woken task (pass b o rest)
pass-keeps false o task rest w = w
pass-keeps true none task rest w = w
pass-keeps true (some x) task rest w = inr w

pass-or :
    (b : Bool) (o : Option ℕ) (task : ℕ) (rest : List ℕ)
    → Woken task (pass b o rest)
    → ((b ≡ true) × (o ≡ some task)) ⊎ Woken task rest
pass-or false o task rest w = inr w
pass-or true none task rest w = inr w
pass-or true (some x) task rest (inl e) = inl (refl, ap some e)
pass-or true (some x) task rest (inr w) = inr w

module _ (bits : TaskWakerSet) (slots : Slots) (task : ℕ) where
  wakeable-from :
      (count from id : ℕ)
      → from ≤ id
      → id < from + count
      → id < max_tasks
      → Waits bits id
      → load slots id ≡ some task
      → Woken task (wakeable bits slots count from)
  unfolding wakeable
  wakeable-from zero from id lo hi b w l = absurd (omega arith)
  wakeable-from (suc count) from id lo hi b w l = elim (ℕ_discrete from id) [
    | yes e ↦ let low : from % 32 ≡ id = omega arith in rw (low, w, e, l) (inl refl)
    | no ne ↦
        pass-keeps (has_bit bits (from % 32)) (load slots from) task _
          (wakeable-from count (suc from) id (omega arith) (omega arith) b w l)
  ]

  wakeable-to :
      (count from : ℕ)
      → from + count ≤ max_tasks
      → Woken task (wakeable bits slots count from)
      → (id : ℕ) × Waits bits id × (load slots id ≡ some task) × (id < max_tasks)
  unfolding wakeable
  wakeable-to zero from hi w = elim w [ ]
  wakeable-to (suc count) from hi w =
      elim (pass-or (has_bit bits (from % 32)) (load slots from) task _ w) [
        | inl (b, l) ↦
            let low : from % 32 ≡ from = omega arith in (from, rw low at b, l, omega arith)
        | inr rest ↦ wakeable-to count (suc from) (omega arith) rest
      ]

-- `wake_all` notifies a task exactly if it is in the slot of some id of the set, and leaves the
-- set empty.
pub wake_all_iff :
    (slots : Slots) (bits : TaskWakerSet) (task : ℕ)
    → (Woken task (wake_all slots bits).0
        ↔ (id : ℕ) × Waits bits id × (load slots id ≡ some task) × (id < max_tasks))
      × ((wake_all slots bits).1 ≡ empty_set)
unfolding wake_all take_wakeable
wake_all_iff slots bits task = (
  (
    wakeable-to bits slots task max_tasks 0 (omega arith),
    λ (id, w, l, lt).
        wakeable-from bits slots task max_tasks 0 id (omega arith) (omega arith) lt w l,
  ),
  refl,
)

-- `add_task` puts just the id given into the set.
pub Waits-add_task :
    (id other : ℕ) (bits : TaskWakerSet)
    → id < max_tasks
    → has_bit (add_task id bits) other ≡ (id == other || has_bit bits other)
unfolding add_task
Waits-add_task id other bits h =
    let low : id % 32 ≡ id = omega arith in rw low (has_bit-or bits id other)

-- Some task of the list is one that asks for a switch.
abbrev pub any_urgent : (ℕ → Bool) → List ℕ → Bool
any_urgent notify [] = false
any_urgent notify (x ∷ xs) = notify x || any_urgent notify xs

chain_wakes-need_wake :
    (E : Type 0) (notify : ℕ → Bool) (tasks : List ℕ) (r : IsrResult (Unit {0}) E)
    → (chain_wakes E notify tasks r).need_wake ≡ (r.need_wake || any_urgent notify tasks)
unfolding chain_wakes chain
chain_wakes-need_wake E notify [] r = ground arith
chain_wakes-need_wake E notify (x ∷ xs) r =
    chain_wakes-need_wake E notify xs (chain r (of_ok tt (notify x))) ∙ ground arith

-- `wake_from_isr` notifies the tasks that `wake_all` would, asks for a switch of tasks exactly if
-- one of the notifications does, and leaves the set empty.
wake_from_isr-need_wake :
    (E : Type 0) (notify : ℕ → Bool) (slots : Slots) (bits : TaskWakerSet)
    → let (r, bits') = wake_from_isr E notify slots bits in
      (r.need_wake ≡ any_urgent notify (wake_all slots bits).0) × (bits' ≡ empty_set)
unfolding wake_from_isr wake_all take_wakeable
wake_from_isr-need_wake E notify slots bits =
    (chain_wakes-need_wake E notify (wakeable bits slots max_tasks 0) default, refl)
