-- ===== src/Extern/Spinlock.antt =====
-- The critical sections of FreeRTOS on several cores, as src/sync/mutex.rs uses them. They nest: the
-- core that is in a section enters it once more at once.
use bark_esp.Base.{ℕ, ◌+◌, ◌-◌, ◌<◌, ◌≡◌, ◌≢◌, refl, Option, none, some, ◌==◌, if◌then◌else◌, arith}

pub record Spinlock : Type 1 where
  pub Carrier : Type 0
  -- how often the section was entered and not left, and the core that did
  pub depth : Carrier → ℕ
  pub owner : Carrier → ℕ
  pub default : Carrier
  -- `taskENTER_CRITICAL` on a core, `none` while it spins
  pub enter : ℕ → Carrier → Option Carrier
  -- `taskEXIT_CRITICAL`
  pub exit : Carrier → Carrier
  pub default_lem : depth default ≡ 0
  pub enter-free :
      (core : ℕ) (l : Carrier)
      → depth l ≡ 0
      → (l' : Carrier) × (enter core l ≡ some l') × (depth l' ≡ 1) × (owner l' ≡ core)
  pub enter-own :
      (core : ℕ) (l : Carrier)
      → 0 < depth l
      → owner l ≡ core
      → (l' : Carrier) × (enter core l ≡ some l') × (depth l' ≡ depth l + 1) × (owner l' ≡ core)
  pub enter-other : (core : ℕ) (l : Carrier) → 0 < depth l → owner l ≢ core → enter core l ≡ none
  pub exit_lem :
      (l : Carrier) → 0 < depth l → (depth (exit l) + 1 ≡ depth l) × (owner (exit l) ≡ owner l)

-- The depth with the owner is such a lock.
abbrev pub enter_pair : ℕ → ℕ × ℕ → Option (ℕ × ℕ)
enter_pair core (depth, owner) =
    if depth == 0 then some (1, core) else if owner == core then some (depth + 1, owner) else none

abbrev pub pair_lock : Spinlock
pair_lock = record {
  Carrier = ℕ × ℕ;
  depth = λ l. l.0;
  owner = λ l. l.1;
  default = (0, 0);
  enter = enter_pair;
  exit = λ l. (l.0 - 1, l.1);
  default_lem = refl;
  enter-free = λ core l e. ((1, core), ground (arith, e), refl, refl);
  enter-own = λ core l pos own. ((l.0 + 1, l.1), ground (arith, pos, own), refl, own);
  enter-other = λ core l pos other. ground (arith, pos, other);
  exit_lem = λ l pos. (omega (arith, pos), refl);
}
