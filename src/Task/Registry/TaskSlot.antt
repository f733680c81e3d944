-- ===== src/Task/Registry/TaskSlot.antt =====
-- `TaskSlot` of src/system/task/registry.rs. A task pointer is a number, 0 for null; the static
-- array of slots is a function of the slot's number, which the code only calls below `max_tasks`.
use bark_esp.Base.{ℕ, Option, none, some, Result, ok, err, if◌then◌else◌, ◌==◌}

abbrev pub Slots : Type 0
Slots = ℕ → ℕ

-- `TaskSlot::empty`, in every place
abbrev pub empty : Slots
empty = λ id. 0

abbrev pub update {ℓ} : {A : Type ℓ} → (ℕ → A) → ℕ → A → ℕ → A
update f i a j = if i == j then a else f j

-- `load`, with its `NonNull::new`
abbrev pub load : Slots → ℕ → Option ℕ
load slots id = if slots id == 0 then none else some (slots id)

abbrev pub clear : Slots → ℕ → Slots
clear slots id = update slots id 0

-- `compare_exchange(null, task)`
unfoldable pub try_claim : Slots → ℕ → ℕ → Result (Unit {0}) (Unit {0}) × Slots
try_claim slots id task = if slots id == 0 then (ok tt, update slots id task) else (err tt, slots)
