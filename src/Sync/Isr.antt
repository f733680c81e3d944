-- ===== src/Sync/Isr.antt =====
-- `IsrResult` of src/sync/isr.rs: what a call from an interrupt handler returns, and whether it
-- woke a task that should run when the handler ends.
use bark_esp.Base.{Bool, false, ◌||◌, Result, ok, err}

pub record IsrResult {ℓ κ} (A : Type ℓ) (E : Type κ) : Type (ℓ ⊔ κ) where
  pub result : Result A E
  pub need_wake : Bool

-- `IsrResult::ok` and `IsrResult::err`
abbrev pub of_ok {ℓ κ} : {A : Type ℓ} {E : Type κ} → A → Bool → IsrResult A E
of_ok value need_wake = record { result = ok value; need_wake = need_wake }

abbrev pub of_err {ℓ κ} : {A : Type ℓ} {E : Type κ} → E → Bool → IsrResult A E
of_err e need_wake = record { result = err e; need_wake = need_wake }

-- `Default`
abbrev pub default {κ} : {E : Type κ} → IsrResult (Unit {0}) E
default = of_ok tt false

abbrev map_ok {ℓ κ μ} : {A : Type ℓ} {B : Type κ} {E : Type μ} → (A → B) → Result A E → Result B E
map_ok f (ok a) = ok (f a)
map_ok f (err e) = err e

unfoldable pub map {ℓ κ μ} :
    {A : Type ℓ} {B : Type κ} {E : Type μ} → (A → B) → IsrResult A E → IsrResult B E
map f r = record { result = map_ok f r.result; need_wake = r.need_wake }

unfoldable pub chain {ℓ κ μ ν} :
    {A : Type ℓ} {E : Type κ} {B : Type μ} {F : Type ν}
    → IsrResult A E
    → IsrResult B F
    → IsrResult B F
chain r other = record { result = other.result; need_wake = r.need_wake || other.need_wake }
