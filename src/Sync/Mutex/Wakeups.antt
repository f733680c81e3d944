-- ===== src/Sync/Mutex/Wakeups.antt =====
-- Which waiting tasks a release reaches, and which it misses.
use bark_esp.Base.{
  ℕ, ◌<◌, ◌≡◌, ◌≢◌, ◌⊎◌, refl, ap, ◌∙◌, Bool, true, false, List, [], ◌∷◌, arith, inl, inr,
  Bool-cases,
}
use bark_esp.Base.Bits.{has_bit}
use bark_esp.Task.Registry.TaskSlot.{Slots, update}
use bark_esp.Task.Registry.TaskId.{max_tasks}
use bark_esp.Task.Waker.{TaskWakerSet, wake_all}
use bark_esp.Task.Waker.Wake.{Woken, wake_all_iff}
use bark_esp.Sync.Mutex.{
  System, Pc, idle, polling, adding, parked, holding, waking, act, step, notify_all,
}

notify_all-Woken : (ps : List ℕ) (f : ℕ → Bool) (p : ℕ) → Woken p ps → notify_all ps f p ≡ true
notify_all-Woken [] f p w = elim w [ ]
notify_all-Woken (x ∷ ps) f p (inl e) = ground arith
notify_all-Woken (x ∷ ps) f p (inr w) = ground (arith, notify_all-Woken ps f p w)

notify_all-or :
    (ps : List ℕ) (f : ℕ → Bool) (p : ℕ) → notify_all ps f p ≡ true → Woken p ps ⊎ (f p ≡ true)
notify_all-or [] f p e = inr e
notify_all-or (x ∷ ps) f p e = ground (arith, notify_all-or ps f p)

module _ (slots : Slots) where
  step-act : (t : ℕ) (p : Pc) (s : System) → s.pc t ≡ p → step slots t s ≡ act slots t p s
  unfolding step
  step-act t p s e = ap (λ q. act slots t q s) e

  update_self : (f : ℕ → Pc) (t : ℕ) (p : Pc) → update f t p t ≡ p
  update_self f t p = ground arith

  update_other : (f : ℕ → Pc) (t u : ℕ) (p : Pc) → t ≢ u → update f t p u ≡ f u
  update_other f t u p ne = ground arith

  wakes_in_set :
      (u : ℕ) (bits : TaskWakerSet)
      → u < max_tasks
      → slots u ≢ 0
      → has_bit bits u ≡ true
      → Woken (slots u) (wake_all slots bits).0
  wakes_in_set u bits lt live waits =
      (wake_all_iff slots bits (slots u)).0.1 (u, waits, ground arith, lt)

  missed-out-of-set :
      (u : ℕ) (bits : TaskWakerSet) (f : ℕ → Bool)
      → ((id : ℕ) → slots id ≡ slots u → id ≡ u)
      → has_bit bits u ≡ false
      → f (slots u) ≡ false
      → notify_all (wake_all slots bits).0 f (slots u) ≡ false
  missed-out-of-set u bits f only absent quiet =
      elim (Bool-cases (notify_all (wake_all slots bits).0 f (slots u))) [
        | inr no_one ↦ no_one
        | inl some_one ↦ elim (notify_all-or (wake_all slots bits).0 f (slots u) some_one) [
          | inr before ↦ cc
          | inl w ↦
              let (id, waits, loads, lt) = (wake_all_iff slots bits (slots u)).0.0 w in
              absurd (clash id waits (only id (ground arith)))
        ]
      ]
    where
      clash : (id : ℕ) → has_bit bits id ≡ true → id ≡ u → ⊥
      clash id waits e = cc (ap (has_bit bits) e)

  -- The wake-up that ends a release by task `t` leaves a notification with every task whose bit is
  -- in the set and whose slot has it; and if such a task is parked, its next step polls again.
  pub release_wakes :
      (t u : ℕ) (s : System)
      → s.pc t ≡ waking
      → u < max_tasks
      → slots u ≢ 0
      → has_bit s.notify u ≡ true
      → ((step slots t s).notified (slots u) ≡ true)
        × (s.pc u ≡ parked → (step slots u (step slots t s)).pc u ≡ polling)
  unfolding act
  release_wakes t u s w lt live waits = rw (step-act t waking s w) (
    told,
    λ p.
        rw (step-act u parked (act slots t waking s) (still p), told)
          (update_self (act slots t waking s).pc u polling),
  )
    where
      told : (act slots t waking s).notified (slots u) ≡ true
      told =
          notify_all-Woken (wake_all slots s.notify).0 s.notified (slots u)
            (wakes_in_set u s.notify lt live waits)

      still : s.pc u ≡ parked → (act slots t waking s).pc u ≡ parked
      still p = update_other s.pc t u idle (λ e. cc (ap s.pc e)) ∙ p

  module _ (t u : ℕ) (s : System) where
    -- The states after the store, after the wake-up, and after `add_task`.
    abbrev stored : System
    stored = act slots t holding s

    abbrev woken : System
    woken = act slots t waking stored

    abbrev added : System
    added = act slots u adding woken

    three_steps :
        s.pc t ≡ holding
        → s.pc u ≡ adding
        → t ≢ u
        → step slots u (step slots t (step slots t s)) ≡ added
    unfolding act
    three_steps h a ne =
        rw (step-act t holding s h, step-act t waking stored (update_self s.pc t waking))
          (step-act u adding woken
            (update_other (update s.pc t waking) t u idle ne ∙ update_other s.pc t u waking ne ∙ a))

  -- A release, its store and its wake-up, that falls between the failed swap of a task and its
  -- `add_task` is lost on it, if no other slot has the task, its bit is not in the set yet and no
  -- notification is pending for it: the task parks, with no notification and no step to take, while
  -- the lock is free.
  pub lost_wakeup :
      (t u : ℕ) (s : System)
      → s.pc t ≡ holding
      → s.pc u ≡ adding
      → t ≢ u
      → ((id : ℕ) → slots id ≡ slots u → id ≡ u)
      → has_bit s.notify u ≡ false
      → s.notified (slots u) ≡ false
      → let s' = step slots u (step slots t (step slots t s)) in
        (s'.flag ≡ false)
        × (s'.pc u ≡ parked)
        × (s'.notified (slots u) ≡ false)
        × (step slots u s' ≡ s')
  unfolding act
  lost_wakeup t u s h a ne only absent quiet =
      rw (three_steps t u s h a ne)
        (refl, parks, silent, step-act u parked (added t u s) parks ∙ rw silent)
    where
      parks : (added t u s).pc u ≡ parked
      parks = update_self (woken t u s).pc u parked

      silent : (added t u s).notified (slots u) ≡ false
      silent = missed-out-of-set u s.notify s.notified only absent quiet
