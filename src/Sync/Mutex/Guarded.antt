-- ===== src/Sync/Mutex/Guarded.antt =====
-- The value behind a `TaskMutex` of src/sync/mutex.rs: a task with a guard loads it, works on what
-- it has loaded and stores the result, one access to shared memory at a time.
use bark_esp.Base.{ℕ, ◌≡◌, refl, sym, ap, ◌∙◌, false, List, [], ◌∷◌, if◌then◌else◌, arith}
use bark_esp.Task.Registry.TaskSlot.{Slots, update}
use bark_esp.Sync.Mutex.{System, Pc, start, idle, polling, adding, parked, holding, waking, act}
use bark_esp.Sync.Mutex.Exclusion.{Inv, Inv-act}

-- What a task with a guard has done through it.
pub data Access (A : Type 0) : Type 0 where
  entered stored : Access A
  loaded : A → Access A

pub record Guarded (A : Type 0) : Type 0 where
  pub mutex : System
  pub inner : A
  pub access : ℕ → Access A

module _ {A : Type 0} where
  abbrev pub new : A → Guarded A
  new value = record { mutex = start; inner = value; access = λ t. entered }

  abbrev pub sets : ℕ → Access A → Guarded A → Guarded A
  sets t a s = record s { access = update s.access t a }

abbrev pub tail : List ℕ → List ℕ
tail [] = []
tail (t ∷ order) = order

module _ {A : Type 0} (work : ℕ → A → A) where
  -- The value after the work of each task, one after the other.
  abbrev pub serial : A → List ℕ → A
  serial value [] = value
  serial value (t ∷ order) = work t (serial value order)

module _ {A : Type 0} (slots : Slots) (work : ℕ → A → A) where
  -- A step of task `t` from its place: with a guard, an access to the value by `deref` or
  -- `deref_mut`, until the guard is dropped.
  unfoldable pub act_on : ℕ → Pc → Access A → Guarded A → Guarded A
  act_on t holding entered s = sets t (loaded s.inner) s
  act_on t holding (loaded a) s = record (sets t stored s) { inner = work t a }
  act_on t holding stored s = record (sets t entered s) { mutex = act slots t holding s.mutex }
  act_on t idle a s = record s { mutex = act slots t idle s.mutex }
  act_on t polling a s = record s { mutex = act slots t polling s.mutex }
  act_on t adding a s = record s { mutex = act slots t adding s.mutex }
  act_on t parked a s = record s { mutex = act slots t parked s.mutex }
  act_on t waking a s = record s { mutex = act slots t waking s.mutex }

  -- The tasks that have taken the lock, the last first.
  abbrev pub taken : ℕ → Pc → Guarded A → List ℕ → List ℕ
  taken t polling s order = if s.mutex.flag then order else t ∷ order
  taken t idle s order = order
  taken t adding s order = order
  taken t parked s order = order
  taken t holding s order = order
  taken t waking s order = order

  -- The tasks' steps in the order of the list.
  unfoldable pub run : List ℕ → Guarded A → List ℕ → Guarded A × List ℕ
  run [] s order = (s, order)
  run (t ∷ ts) s order =
      run ts (act_on t (s.mutex.pc t) (s.access t) s) (taken t (s.mutex.pc t) s order)

  record Serial (value : A) (s : Guarded A) (order : List ℕ) : Type 0 where
    mutex : Inv s.mutex
    fresh : (t : ℕ) → ¬ (s.mutex.pc t ≡ holding) → s.access t ≡ entered
    free : s.mutex.flag ≡ false → s.inner ≡ serial work value order
    last : (t : ℕ) → s.mutex.pc t ≡ holding → order ≡ t ∷ tail order
    before :
        (t : ℕ)
        → s.mutex.pc t ≡ holding
        → s.access t ≡ entered
        → s.inner ≡ serial work value (tail order)
    read :
        (t : ℕ) (a : A)
        → s.mutex.pc t ≡ holding
        → s.access t ≡ loaded a
        → a ≡ serial work value (tail order)
    after :
        (t : ℕ) → s.mutex.pc t ≡ holding → s.access t ≡ stored → s.inner ≡ serial work value order

  -- Steps that leave the value and the guards as they are.
  Serial-other :
      (value : A) (t : ℕ) (p : Pc) (s : Guarded A) (order : List ℕ) (m : System)
      → s.mutex.pc t ≡ p
      → ¬ (p ≡ holding)
      → Inv m
      → m.flag ≡ s.mutex.flag
      → ((u : ℕ) → m.pc u ≡ holding → s.mutex.pc u ≡ holding)
      → ((u : ℕ) → s.mutex.pc u ≡ holding → m.pc u ≡ holding)
      → Serial value s order
      → Serial value (record s { mutex = m }) order
  Serial-other value t p s order m e n i flag to from v = record {
    mutex = i;
    fresh = λ u h. v.fresh u (λ k. h (from u k));
    free = λ f. v.free (sym flag ∙ f);
    last = λ u h. v.last u (to u h);
    before = λ u h. v.before u (to u h);
    read = λ u a h. v.read u a (to u h);
    after = λ u h. v.after u (to u h);
  }

  Serial-act :
      (value : A) (t : ℕ) (p : Pc) (a : Access A) (s : Guarded A) (order : List ℕ)
      → s.mutex.pc t ≡ p
      → s.access t ≡ a
      → Serial value s order
      → Serial value (act_on t p a s) (taken t p s order)
  unfolding act_on act
  Serial-act value t idle a s order e h v =
      Serial-other value t idle s order _ e (λ x. cc) (Inv-act slots t idle s.mutex e v.mutex) refl
        (λ u k. ground arith) (λ u k. ground arith) v
  Serial-act value t polling a s order e h v = record {
    mutex = Inv-act slots t polling s.mutex e v.mutex;
    fresh = λ u n. ground (arith, v.fresh u);
    free = λ f. ground (arith, v.free);
    last = λ u k. ground (arith, v.last u, v.mutex.locked u);
    before = λ u k l. ground (arith, v.before u, v.mutex.locked u, v.free);
    read = λ u b k l. ground (arith, v.read u b, v.mutex.locked u, v.fresh u);
    after = λ u k l. ground (arith, v.after u, v.mutex.locked u, v.fresh u);
  }
  Serial-act value t adding a s order e h v =
      Serial-other value t adding s order _ e (λ x. cc) (Inv-act slots t adding s.mutex e v.mutex)
        refl (λ u k. ground arith) (λ u k. ground arith) v
  Serial-act value t parked a s order e h v =
      Serial-other value t parked s order _ e (λ x. cc) (Inv-act slots t parked s.mutex e v.mutex)
        (ground arith) (λ u k. ground arith) (λ u k. ground arith) v
  Serial-act value t waking a s order e h v =
      Serial-other value t waking s order _ e (λ x. cc) (Inv-act slots t waking s.mutex e v.mutex)
        refl (λ u k. ground arith) (λ u k. ground arith) v
  Serial-act value t holding entered s order e h v = record {
    mutex = v.mutex;
    fresh = λ u n. ground (arith, v.fresh u);
    free = v.free;
    last = v.last;
    before = λ u k l. ground (arith, v.before u);
    read = λ u b k l. ground (arith, v.read u b, v.before t);
    after = λ u k l. ground (arith, v.after u);
  }
  Serial-act value t holding (loaded a) s order e h v = record {
    mutex = v.mutex;
    fresh = λ u n. ground (arith, v.fresh u);
    free = λ f. ground (arith, v.mutex.locked t e);
    last = v.last;
    before = λ u k l. ground (arith, v.before u, v.mutex.alone t u);
    read = λ u b k l. ground (arith, v.read u b, v.mutex.alone t u);
    after = λ u k l. ap (work t) (v.read t a e h) ∙ sym (ap (serial work value) (v.last t e));
  }
  Serial-act value t holding stored s order e h v = record {
    mutex = Inv-act slots t holding s.mutex e v.mutex;
    fresh = λ u n. ground (arith, v.fresh u);
    free = λ f. v.after t e h;
    last = λ u k. ground (arith, v.mutex.alone t u);
    before = λ u k l. ground (arith, v.mutex.alone t u);
    read = λ u b k l. ground (arith, v.mutex.alone t u);
    after = λ u k l. ground (arith, v.mutex.alone t u);
  }

  run-Serial :
      (value : A) (ts : List ℕ) (s : Guarded A) (order : List ℕ)
      → Serial value s order
      → let (s', order') = run ts s order in Serial value s' order'
  unfolding run
  run-Serial value [] s order v = v
  run-Serial value (t ∷ ts) s order v =
      run-Serial value ts _ _ (Serial-act value t (s.mutex.pc t) (s.access t) s order refl refl v)

  new-Serial : (value : A) → Serial value (new value) []
  new-Serial value = record {
    mutex = record { locked = λ t h. cc; alone = λ t u h k. cc };
    fresh = λ t n. refl;
    free = λ f. refl;
    last = λ t h. cc;
    before = λ t h k. cc;
    read = λ t a h k. cc;
    after = λ t h k. cc;
  }

  -- However the steps of any number of tasks are ordered, between them what a task does with a
  -- guard is done as if all at once, in the order in which the lock was taken: while the flag is
  -- clear the value is that after the work of each of these tasks in turn; a task that holds a
  -- guard is the last that took the lock; the value is that after the work of those before it when
  -- it has just entered, and when it has loaded that is what it has loaded; and once it has stored,
  -- the value has its own work too.
  pub run_serializes :
      (value : A) (ts : List ℕ)
      → let (s, order) = run ts (new value) [] in
        (s.mutex.flag ≡ false → s.inner ≡ serial work value order)
        × ((t : ℕ)
            → s.mutex.pc t ≡ holding
            → (order ≡ t ∷ tail order)
              × (s.access t ≡ entered → s.inner ≡ serial work value (tail order))
              × ((a : A) → s.access t ≡ loaded a → a ≡ serial work value (tail order))
              × (s.access t ≡ stored → s.inner ≡ serial work value order))
  run_serializes value ts =
      let v = run-Serial value ts (new value) [] (new-Serial value) in
      (v.free, λ t h. (v.last t h, v.before t h, λ a. v.read t a h, v.after t h))
