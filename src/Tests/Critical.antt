-- ===== src/Tests/Critical.antt =====
-- The critical mutex of src/sync/mutex.rs with two cores.
use bark_esp.Base.{ℕ, ◌+◌, ◌<◌, ◌≡◌, refl, some, List, [], ◌∷◌}
use bark_esp.Extern.Spinlock.{pair_lock}
use bark_esp.Sync.Critical.{
  CriticalMutex, Op, locks, drops, writes, lock, drop, deref_mut, step, run, start, cores_exclude,
}

-- Core 1 spins while core 0 is in the section, and is let in after it.
abbrev ops : List (Op ℕ pair_lock)
ops = locks 0 ∷ writes 0 7 ∷ locks 1 ∷ drops 0 ∷ locks 1 ∷ []

entered : (run ℕ pair_lock ops (start ℕ pair_lock 3)).guards 1 ≡ 1
unfolding run step lock drop deref_mut
entered = refl

cores_exclude_example :
    let s = run ℕ pair_lock ops (start ℕ pair_lock 3) in
    ((j k : ℕ) → 0 < s.guards j → 0 < s.guards k → j ≡ k)
    × (((j : ℕ) → s.guards j ≡ 0)
        → (k : ℕ) → (m : CriticalMutex ℕ pair_lock) × (lock ℕ pair_lock k s.mutex ≡ some m))
    × ((k : ℕ)
        → 0 < s.guards k
        → (m : CriticalMutex ℕ pair_lock) × (lock ℕ pair_lock k s.mutex ≡ some m)
          × ((step ℕ pair_lock (locks k) s).guards k ≡ s.guards k + 1))
cores_exclude_example = cores_exclude ℕ pair_lock 3 ops
