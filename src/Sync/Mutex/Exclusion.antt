-- ===== src/Sync/Mutex/Exclusion.antt =====
-- At most one task holds a guard.
use bark_esp.Base.{ℕ, ◌≡◌, refl, true, arith}
use bark_esp.Task.Registry.TaskSlot.{Slots}
use bark_esp.Sync.Mutex.{
  System, Pc, idle, polling, adding, parked, holding, waking, act, step, Reach, begin, next,
}

pub record Inv (s : System) : Type 0 where
  pub locked : (t : ℕ) → s.pc t ≡ holding → s.flag ≡ true
  pub alone : (t u : ℕ) → s.pc t ≡ holding → s.pc u ≡ holding → t ≡ u

module _ (slots : Slots) where
  pub Inv-act : (t : ℕ) (p : Pc) (s : System) → s.pc t ≡ p → Inv s → Inv (act slots t p s)
  unfolding act
  Inv-act t idle s e v = record {
    locked = λ u h. ground (arith, v.locked u);
    alone = λ u w h k. ground (arith, v.alone u w);
  }
  Inv-act t polling s e v = record {
    locked = λ u h. ground (arith, v.locked u);
    alone = λ u w h k. ground (arith, v.locked u, v.locked w, v.alone u w);
  }
  Inv-act t adding s e v = record {
    locked = λ u h. ground (arith, v.locked u);
    alone = λ u w h k. ground (arith, v.alone u w);
  }
  Inv-act t parked s e v = record {
    locked = λ u h. ground (arith, v.locked u);
    alone = λ u w h k. ground (arith, v.alone u w);
  }
  Inv-act t holding s e v = record {
    locked = λ u h. ground (arith, v.alone t u);
    alone = λ u w h k. ground (arith, v.alone u w);
  }
  Inv-act t waking s e v = record {
    locked = λ u h. ground (arith, v.locked u);
    alone = λ u w h k. ground (arith, v.alone u w);
  }

  Reach-Inv : {s : System} → Reach slots s → Inv s
  unfolding step
  Reach-Inv begin = record { locked = λ t h. cc; alone = λ t u h k. cc }
  Reach-Inv (next {s} r t) = Inv-act t (s.pc t) s refl (Reach-Inv r)

  -- In every interleaving of the tasks' steps, two tasks never hold guards at once, and while one
  -- does the flag is set.
  pub mutual_exclusion :
      {s : System}
      → Reach slots s
      → (t u : ℕ) → s.pc t ≡ holding
      → (s.flag ≡ true) × (s.pc u ≡ holding → t ≡ u)
  mutual_exclusion r t u h = ((Reach-Inv r).locked t h, λ k. (Reach-Inv r).alone t u h k)
