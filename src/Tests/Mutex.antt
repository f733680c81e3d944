-- ===== src/Tests/Mutex.antt =====
-- The mutex of src/sync/mutex.rs, with tasks 0 and 1 in the slots of their ids.
use bark_esp.Base.{ℕ, suc, ◌+◌, ◌*◌, ◌≡◌, refl, true, false, List, [], ◌∷◌, arith}
use bark_esp.Base.Bits.{has_bit}
use bark_esp.Task.Registry.TaskSlot.{Slots}
use bark_esp.Task.Waker.{add_task, wake_all, wakeable, take_wakeable}
use bark_esp.Sync.Mutex.{
  System, holding, waking, parked, polling, adding, step, act, Reach, begin, next, start,
}
use bark_esp.Sync.Mutex.Exclusion.{mutual_exclusion}
use bark_esp.Sync.Mutex.Guarded.{
  entered, stored, new, run, act_on, serial, tail, loaded, run_serializes,
}
use bark_esp.Sync.Mutex.Wakeups.{release_wakes, lost_wakeup}

abbrev slots : Slots
slots = suc

-- task 0 has the lock, and task 1 found it taken
abbrev contended : System
contended = step slots 1 (step slots 1 (step slots 0 (step slots 0 start)))

contended-Reach : Reach slots contended
contended-Reach = next (next (next (next begin 0) 0) 1) 1

owner : contended.pc 0 ≡ holding
unfolding step act
owner = refl

waiter : contended.pc 1 ≡ adding
unfolding step act
waiter = refl

unset : has_bit contended.notify 1 ≡ false
unfolding step act
unset = refl

quiet : contended.notified 2 ≡ false
unfolding step act
quiet = refl

mutual_exclusion_example : (contended.flag ≡ true) × (contended.pc 1 ≡ holding → ◌≡◌ {A = ℕ} 0 1)
mutual_exclusion_example = mutual_exclusion slots contended-Reach 0 1 owner

lost_wakeup_example :
    let s' = step slots 1 (step slots 0 (step slots 0 contended)) in
    (s'.flag ≡ false) × (s'.pc 1 ≡ parked) × (s'.notified 2 ≡ false) × (step slots 1 s' ≡ s')
lost_wakeup_example =
    lost_wakeup slots 0 1 contended owner waiter (omega arith) (λ id e. omega arith) unset quiet

-- task 1 is in the set when task 0 has released
abbrev released : System
released = step slots 0 (step slots 1 contended)

releasing : released.pc 0 ≡ waking
unfolding step act
releasing = refl

in_set : has_bit released.notify 1 ≡ true
unfolding step act add_task
in_set = refl

release_wakes_example :
    ((step slots 0 released).notified 2 ≡ true)
    × (released.pc 1 ≡ parked → (step slots 1 (step slots 0 released)).pc 1 ≡ polling)
release_wakes_example =
    release_wakes slots 0 1 released releasing (omega arith) (omega arith) in_set

abbrev work : ℕ → ℕ → ℕ
work t value = value * 10 + (t + 1)

-- task 1 comes while task 0 has the lock, waits, and has its turn after it
abbrev both : List ℕ
both = 0 ∷ 0 ∷ 1 ∷ 0 ∷ 1 ∷ 0 ∷ 1 ∷ 0 ∷ 0 ∷ 1 ∷ 1 ∷ 1 ∷ 1 ∷ 1 ∷ []

run-both : let (s, order) = run slots work both (new 0) [] in (s.inner ≡ 12) × (order ≡ 1 ∷ 0 ∷ [])
unfolding run act_on act add_task wake_all wakeable take_wakeable
run-both = (refl, refl)

run_serializes_example :
    let (s, order) = run slots work both (new 0) [] in
    (s.mutex.flag ≡ false → s.inner ≡ serial work 0 order)
    × ((t : ℕ)
        → s.mutex.pc t ≡ holding
        → (order ≡ t ∷ tail order)
          × (s.access t ≡ entered → s.inner ≡ serial work 0 (tail order))
          × ((a : ℕ) → s.access t ≡ loaded a → a ≡ serial work 0 (tail order))
          × (s.access t ≡ stored → s.inner ≡ serial work 0 order))
run_serializes_example = run_serializes slots work 0 both
