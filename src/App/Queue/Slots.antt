-- ===== src/App/Queue/Slots.antt =====
-- Slots of packets by their index: what growing the deque, an assignment and a pop do to them.
use bark_esp.Base.{
  ℕ, zero, suc, ◌-◌, ◌≤◌, ◌<◌, ◌≡◌, refl, ap, Option, none, List, [], ◌∷◌, ◌++◌, arith, length,
  get_elem?, set, replicate, if◌then◌else◌, ◌==◌,
}
use native.Mathlib.Nat.{sub-zero, suc-sub-suc}
use bark_esp.App.Queue.{join}

module _ {ℓ} {A : Type ℓ} where
  -- The packet in a slot, `none` also for a slot that there is not.
  abbrev pub slot_at : List (Option A) → ℕ → Option A
  slot_at xs i = join (get_elem? xs i)

  slot_at-none : (n i : ℕ) → slot_at (replicate {A = Option A} n none) i ≡ none
  slot_at-none zero i = refl
  slot_at-none (suc n) zero = refl
  slot_at-none (suc n) (suc i) = slot_at-none n i

  pub slot_at-append_none :
      (xs : List (Option A)) (n i : ℕ) → slot_at (xs ++ replicate n none) i ≡ slot_at xs i
  slot_at-append_none [] n i = slot_at-none n i
  slot_at-append_none (x ∷ xs) n zero = refl
  slot_at-append_none (x ∷ xs) n (suc i) = slot_at-append_none xs n i

  pub slot_at-set :
      (xs : List (Option A)) (i j : ℕ) (v : Option A)
      → i < length xs
      → slot_at (set xs i v) j ≡ (if i == j then v else slot_at xs j)
  slot_at-set [] i j v h = absurd (omega arith)
  slot_at-set (x ∷ xs) zero zero v h = refl
  slot_at-set (x ∷ xs) zero (suc j) v h = ground arith
  slot_at-set (x ∷ xs) (suc i) zero v h = ground arith
  slot_at-set (x ∷ xs) (suc i) (suc j) v h = ground (arith, slot_at-set xs i j v)

  pub set-append_left :
      (xs ys : List A) (i : ℕ) (v : A) → i < length xs → set (xs ++ ys) i v ≡ set xs i v ++ ys
  set-append_left [] ys i v h = absurd (omega arith)
  set-append_left (x ∷ xs) ys zero v h = refl
  set-append_left (x ∷ xs) ys (suc i) v h =
      ap (λ t. x ∷ t) (set-append_left xs ys i v (omega arith))

  pub set-append_right :
      (xs ys : List A) (i : ℕ) (v : A)
      → length xs ≤ i
      → set (xs ++ ys) i v ≡ xs ++ set ys (i - length xs) v
  set-append_right [] ys i v h = rw sub-zero
  set-append_right (x ∷ xs) ys zero v h = absurd (omega arith)
  set-append_right (x ∷ xs) ys (suc i) v h =
      rw (suc-sub-suc, set-append_right xs ys i v (omega arith))

  pub get_elem?-append_ge :
      (xs ys : List A) (i : ℕ)
      → length xs ≤ i
      → get_elem? (xs ++ ys) i ≡ get_elem? ys (i - length xs)
  get_elem?-append_ge [] ys i h = rw sub-zero
  get_elem?-append_ge (x ∷ xs) ys zero h = absurd (omega arith)
  get_elem?-append_ge (x ∷ xs) ys (suc i) h =
      rw (suc-sub-suc, get_elem?-append_ge xs ys i (omega arith))
