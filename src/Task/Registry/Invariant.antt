-- ===== src/Task/Registry/Invariant.antt =====
-- A slot holds the pointer of the one task that is registered in it.
use bark_esp.Base.{ℕ, ◌<◌, ◌≡◌, refl, sym, ◌∙◌, some, arith}
use bark_esp.Task.Registry.{
  System, Pc, scanning, registered, panicked, finished, round, act, step, Handles, Reach, begin,
  next, start,
}
use bark_esp.Task.Registry.TaskSlot.{update, try_claim, load}
use bark_esp.Task.Registry.TaskId.{max_tasks, current, find_unique, is_task}

module _ {handle : ℕ → ℕ} (hs : Handles handle) where
  pub record Inv (s : System) : Type 0 where
    pub owned : (t id : ℕ) → s.pc t ≡ registered id → (s.slots id ≡ handle t) × (id < max_tasks)
    pub mine : (t id : ℕ) → s.slots id ≡ handle t → s.pc t ≡ registered id

  Inv-start : Inv start
  Inv-start = record { owned = λ t id e. cc; mine = λ t id e. absurd (hs.not_null t (sym e)) }

  -- The state after a step from the place `p`.
  abbrev moved : ℕ → Pc → System → System
  moved t p s = record {
    slots = (act (handle t) p s.slots).0;
    pc = update s.pc t (act (handle t) p s.slots).1;
  }

  owned-act :
      (t : ℕ) (p : Pc) (s : System)
      → Inv s
      → s.pc t ≡ p
      → (u id : ℕ) → (moved t p s).pc u ≡ registered id
      → ((moved t p s).slots id ≡ handle u) × (id < max_tasks)
  unfolding act round try_claim
  owned-act t (scanning i) s v at u id e = ground (arith, v.owned u id, v.owned t id, hs.not_null u)
  owned-act t (registered i) s v at u id e =
      ground (arith, v.owned u id, v.owned t i, hs.distinct t u)
  owned-act t panicked s v at u id e = ground (arith, v.owned u id)
  owned-act t finished s v at u id e = ground (arith, v.owned u id)

  mine-act :
      (t : ℕ) (p : Pc) (s : System)
      → Inv s
      → s.pc t ≡ p
      → (u id : ℕ) → (moved t p s).slots id ≡ handle u
      → (moved t p s).pc u ≡ registered id
  unfolding act round try_claim
  mine-act t (scanning i) s v at u id e = ground (arith, v.mine u id, v.mine t id, hs.distinct t u)
  mine-act t (registered i) s v at u id e =
      ground (arith, v.mine u id, v.mine t id, hs.not_null u, hs.distinct t u)
  mine-act t panicked s v at u id e = ground (arith, v.mine u id, v.mine t id)
  mine-act t finished s v at u id e = ground (arith, v.mine u id, v.mine t id)

  Inv-step : (t : ℕ) (s : System) → Inv s → Inv (step handle t s)
  unfolding step
  Inv-step t s v = record {
    owned = owned-act t (s.pc t) s v refl;
    mine = mine-act t (s.pc t) s v refl;
  }

  pub Reach-Inv : {s : System} → Reach handle s → Inv s
  Reach-Inv begin = Inv-start
  Reach-Inv (next {s} r t) = Inv-step t s (Reach-Inv r)

  -- However the steps of the tasks interleave, no two of them are registered under one id.
  pub registered_unique :
      {s : System}
      → Reach handle s
      → (t u id : ℕ) → s.pc t ≡ registered id
      → s.pc u ≡ registered id
      → t ≡ u
  registered_unique {s} r t u id e f =
      hs.distinct t u (sym ((Reach-Inv r).owned t id e).0 ∙ ((Reach-Inv r).owned u id f).0)

  -- In every reachable state `TaskId::current` gives a registered task its own id.
  current-registered :
      {s : System}
      → Reach handle s
      → (t id : ℕ) → s.pc t ≡ registered id
      → current (handle t) s.slots ≡ some id
  unfolding current
  current-registered {s} r t id e =
      let v = Reach-Inv r in
      find_unique (λ j. is_task (handle t) (load s.slots j)) max_tasks 0 id (omega arith)
        (omega (arith, (v.owned t id e).1)) (ground (arith, v.owned t id, hs.not_null t))
        (λ j hit. ground (arith, v.mine t j))
