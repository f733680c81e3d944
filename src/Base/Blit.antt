-- ===== src/Base/Blit.antt =====
-- `copy_from_slice` into a part of a buffer, and what is then read back from the buffer.
use Prim.Native.Nat.{ℕ, zero, suc, ◌+◌, ◌-◌, ◌≤◌}
use mathlib.Core.Path.{◌≡◌, refl, sym, ap}
use mathlib.Core.List.{List, [], ◌∷◌, ◌++◌}
use native.Mathlib.Nat.{zero-add, suc-add, sub-zero, suc-sub-suc}
use native.Mathlib.Omega.{arith}
use bark_esp.Base.Lists.{length, take, drop}

module _ {ℓ} {A : Type ℓ} where
  -- `src` over the start of `dst`; what does not fit is dropped.
  abbrev pub overwrite : List A → List A → List A
  overwrite [] src = []
  overwrite (x ∷ dst) [] = x ∷ dst
  overwrite (x ∷ dst) (y ∷ src) = y ∷ overwrite dst src

  -- `src` over `dst` from the index on.
  abbrev pub blit : List A → ℕ → List A → List A
  blit dst zero src = overwrite dst src
  blit [] (suc k) src = []
  blit (x ∷ dst) (suc k) src = x ∷ blit dst k src

module _ {ℓ} {A : Type ℓ} where
  pub overwrite-nil : (dst : List A) → overwrite dst [] ≡ dst
  overwrite-nil [] = refl
  overwrite-nil (x ∷ dst) = refl

  -- Writing nothing changes nothing.
  blit-empty : (dst : List A) (k : ℕ) → blit dst k [] ≡ dst
  blit-empty dst zero = overwrite-nil dst
  blit-empty [] (suc k) = refl
  blit-empty (x ∷ dst) (suc k) = ap (λ t. x ∷ t) (blit-empty dst k)

  length-overwrite : (dst src : List A) → length (overwrite dst src) ≡ length dst
  length-overwrite [] src = refl
  length-overwrite (x ∷ dst) [] = refl
  length-overwrite (x ∷ dst) (y ∷ src) = ap suc (length-overwrite dst src)

  pub length-blit : (dst : List A) (k : ℕ) (src : List A) → length (blit dst k src) ≡ length dst
  length-blit dst zero src = length-overwrite dst src
  length-blit [] (suc k) src = refl
  length-blit (x ∷ dst) (suc k) src = ap suc (length-blit dst k src)

  take-overwrite :
      (dst src : List A) (n : ℕ)
      → length src ≤ length dst
      → n ≤ length src
      → take n (overwrite dst src) ≡ take n src
  take-overwrite dst src zero h k = refl
  take-overwrite [] [] (suc n) h k = refl
  take-overwrite [] (y ∷ src) (suc n) h k = absurd (omega arith)
  take-overwrite (x ∷ dst) [] (suc n) h k = absurd (omega arith)
  take-overwrite (x ∷ dst) (y ∷ src) (suc n) h k =
      ap (λ t. y ∷ t) (take-overwrite dst src n (omega arith) (omega arith))

  -- Up to a place inside what was written: the old prefix, then that much of the source.
  pub take-blit :
      (dst : List A) (k : ℕ) (src : List A) (n : ℕ)
      → k + length src ≤ length dst
      → n ≤ length src
      → take (k + n) (blit dst k src) ≡ take k dst ++ take n src
  take-blit dst zero src n h le = rw zero-add (take-overwrite dst src n (omega arith) le)
  take-blit [] (suc k) src n h le = absurd (omega arith)
  take-blit (x ∷ dst) (suc k) src n h le =
      rw suc-add (ap (λ t. x ∷ t) (take-blit dst k src n (omega arith) le))

  -- Below the place written nothing changes.
  pub take-blit_below :
      (dst : List A) (j k : ℕ) (src : List A) → j ≤ k → take j (blit dst k src) ≡ take j dst
  take-blit_below dst zero k src h = refl
  take-blit_below dst (suc j) zero src h = absurd (omega arith)
  take-blit_below [] (suc j) (suc k) src h = refl
  take-blit_below (x ∷ dst) (suc j) (suc k) src h =
      ap (λ t. x ∷ t) (take-blit_below dst j k src (omega arith))

  drop-overwrite :
      (dst : List A) (j : ℕ) (src : List A)
      → length src ≤ j
      → drop j (overwrite dst src) ≡ drop j dst
  drop-overwrite [] j src h = refl
  drop-overwrite (x ∷ dst) j [] h = refl
  drop-overwrite (x ∷ dst) zero (y ∷ src) h = absurd (omega arith)
  drop-overwrite (x ∷ dst) (suc j) (y ∷ src) h = drop-overwrite dst j src (omega arith)

  -- Nor above it.
  pub drop-blit_above :
      (dst : List A) (j k : ℕ) (src : List A)
      → k + length src ≤ j
      → drop j (blit dst k src) ≡ drop j dst
  drop-blit_above dst j zero src h = drop-overwrite dst j src (omega arith)
  drop-blit_above [] j (suc k) src h = refl
  drop-blit_above (x ∷ dst) zero (suc k) src h = absurd (omega arith)
  drop-blit_above (x ∷ dst) (suc j) (suc k) src h = drop-blit_above dst j k src (omega arith)

  blit-nil : (k : ℕ) (src : List A) → blit [] k src ≡ []
  blit-nil zero src = refl
  blit-nil (suc k) src = refl

  -- A suffix that begins below the place written.
  pub drop-blit :
      (dst : List A) (j k : ℕ) (src : List A)
      → j ≤ k
      → drop j (blit dst k src) ≡ blit (drop j dst) (k - j) src
  drop-blit dst zero k src h = rw sub-zero
  drop-blit dst (suc j) zero src h = absurd (omega arith)
  drop-blit [] (suc j) (suc k) src h = sym (blit-nil (suc k - suc j) src)
  drop-blit (x ∷ dst) (suc j) (suc k) src h = rw suc-sub-suc (drop-blit dst j k src (omega arith))
