-- ===== src/Sync/Critical.antt =====
-- `CriticalMutex` of src/sync/mutex.rs, over the critical sections of FreeRTOS. A guard is held by the
-- code that runs on a core, which nothing else on the core interrupts.
use bark_esp.Base.{
  ℕ, ◌+◌, ◌-◌, ◌<◌, ◌≡◌, refl, Option, none, some, ◌==◌, if◌then◌else◌, List, [], ◌∷◌, arith,
  dec_lt, Bool-cases, inl, inr,
}
use bark_esp.Extern.Spinlock.{Spinlock}
use bark_esp.Task.Registry.TaskSlot.{update}

module _ (A : Type 0) (L : Spinlock) where
  pub record CriticalMutex : Type 0 where
    pub spinlock : L.Carrier
    pub inner : A

  abbrev pub new : A → CriticalMutex
  new value = record { spinlock = L.default; inner = value }

  -- `lock`, by code on a core: the mutex once it has a guard, `none` while it spins
  unfoldable pub lock : ℕ → CriticalMutex → Option CriticalMutex
  lock core m = elim (L.enter core m.spinlock) [
    | some l ↦ some (record m { spinlock = l })
    | none ↦ none
  ]

  -- The guard's `deref` and `deref_mut`, and its drop.
  unfoldable pub deref : CriticalMutex → A
  deref m = m.inner

  unfoldable pub deref_mut : A → CriticalMutex → CriticalMutex
  deref_mut value m = record m { inner = value }

  unfoldable pub drop : CriticalMutex → CriticalMutex
  drop m = record m { spinlock = L.exit m.spinlock }

  -- The mutex with the number of guards of each core.
  pub record System : Type 0 where
    pub mutex : CriticalMutex
    pub guards : ℕ → ℕ

  pub data Op : Type 0 where
    locks drops : (core : ℕ) → Op
    writes : (core : ℕ) → A → Op

  abbrev pub locked : ℕ → Option CriticalMutex → System → System
  locked core (some m) s = record { mutex = m; guards = update s.guards core (s.guards core + 1) }
  locked core none s = s

  -- What a core does; only with a guard does it write or drop.
  unfoldable pub step : Op → System → System
  step (locks core) s = locked core (lock core s.mutex) s
  step (drops core) s =
      if s.guards core == 0
      then s
      else record { mutex = drop s.mutex; guards = update s.guards core (s.guards core - 1) }
  step (writes core value) s =
      if s.guards core == 0 then s else record s { mutex = deref_mut value s.mutex }

  unfoldable pub run : List Op → System → System
  run [] s = s
  run (op ∷ ops) s = run ops (step op s)

  abbrev pub start : A → System
  start value = record { mutex = new value; guards = λ core. 0 }

  -- The guards are those of the owner of the section, as many as it is deep.
  abbrev Owned : System → Type 0
  Owned s =
      (core : ℕ)
      → s.guards core ≡ (if L.owner s.mutex.spinlock == core then L.depth s.mutex.spinlock else 0)

  lock-some :
      (core : ℕ) (m : CriticalMutex) (l : L.Carrier)
      → L.enter core m.spinlock ≡ some l
      → lock core m ≡ some (record m { spinlock = l })
  unfolding lock
  lock-some core m l e = rw (e, lock) refl

  lock-none : (core : ℕ) (m : CriticalMutex) → L.enter core m.spinlock ≡ none → lock core m ≡ none
  unfolding lock
  lock-none core m e = rw (e, lock) refl

  locks-Owned : (core : ℕ) (s : System) → Owned s → Owned (step (locks core) s)
  unfolding step
  locks-Owned core s v = elim (dec_lt 0 (L.depth s.mutex.spinlock)) [
    | no free ↦
        let (l, e, deep, mine) = L.enter-free core s.mutex.spinlock (omega arith) in
        rw (lock-some core s.mutex l e) (λ k. ground (arith, v k, v core, deep, mine))
    | yes busy ↦ elim (Bool-cases (L.owner s.mutex.spinlock == core)) [
      | inl own ↦
          let (l, e, deep, mine) = L.enter-own core s.mutex.spinlock busy (ground (arith, own)) in
          rw (lock-some core s.mutex l e) (λ k. ground (arith, v k, v core, deep, mine, own))
      | inr other ↦
          rw
            (lock-none core s.mutex
              (L.enter-other core s.mutex.spinlock busy (λ e. ground (arith, other, e))))
            v
    ]
  ]

  drops-Owned : (core : ℕ) (s : System) → Owned s → Owned (step (drops core) s)
  unfolding step drop
  drops-Owned core s v = elim (dec_lt 0 (s.guards core)) [
    | no none_held ↦ λ k. ground (arith, none_held, v k)
    | yes held ↦
        let deep : 0 < L.depth s.mutex.spinlock = ground (arith, v core, held) in
        let (less, same) = L.exit_lem s.mutex.spinlock deep in
        λ k. ground (arith, v k, v core, held, less, same)
  ]

  step-Owned : (op : Op) (s : System) → Owned s → Owned (step op s)
  unfolding step deref_mut
  step-Owned (locks core) s v = locks-Owned core s v
  step-Owned (drops core) s v = drops-Owned core s v
  step-Owned (writes core value) s v = λ k. ground (arith, v k)

  run-Owned : (ops : List Op) (s : System) → Owned s → Owned (run ops s)
  unfolding run
  run-Owned [] s v = v
  run-Owned (op ∷ ops) s v = run-Owned ops (step op s) (step-Owned op s v)

  start-Owned : (value : A) → Owned (start value)
  start-Owned value k = ground (arith, L.default_lem)

  -- However several cores lock and drop: two cores never have guards at once; while no core has
  -- one, each can lock. But a core that has a guard can lock again and has a second one, so its two
  -- guards give access to one value.
  pub cores_exclude :
      (value : A) (ops : List Op)
      → let s = run ops (start value) in
        ((j k : ℕ) → 0 < s.guards j → 0 < s.guards k → j ≡ k)
        × (((j : ℕ) → s.guards j ≡ 0) → (k : ℕ) → (m : CriticalMutex) × (lock k s.mutex ≡ some m))
        × ((k : ℕ)
            → 0 < s.guards k
            → (m : CriticalMutex) × (lock k s.mutex ≡ some m)
              × ((step (locks k) s).guards k ≡ s.guards k + 1))
  unfolding step
  cores_exclude value ops =
      let s = run ops (start value) in
      let v = run-Owned ops (start value) (start-Owned value) in
      (
        λ j k a b. ground (arith, v j, v k),
        λ idle k.
            let (l, e, deep, mine) =
              L.enter-free k s.mutex.spinlock
                (ground (arith, v (L.owner s.mutex.spinlock), idle (L.owner s.mutex.spinlock))) in
            (record s.mutex { spinlock = l }, lock-some k s.mutex l e),
        λ k held.
            let (l, e, deep, mine) =
              L.enter-own k s.mutex.spinlock (ground (arith, v k, held))
                (ground (arith, v k, held)) in
            (
              record s.mutex { spinlock = l },
              lock-some k s.mutex l e,
              rw (lock-some k s.mutex l e) (ground arith),
            ),
      )
