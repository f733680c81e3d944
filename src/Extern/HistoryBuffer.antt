-- ===== src/Extern/HistoryBuffer.antt =====
-- heapless::HistoryBuffer, as src/app/timing.rs uses it, and the sort of a slice.
use bark_esp.Base.{
  ℕ, suc, ◌≡◌, refl, List, [], ◌∷◌, ◌++◌, Bool, true, length, drop, ltb, if◌then◌else◌,
}

-- The number of items that pass a test.
abbrev pub count {ℓ} : {A : Type ℓ} → (A → Bool) → List A → ℕ
count test [] = 0
count test (x ∷ xs) = if test x then suc (count test xs) else count test xs

pub record HistoryBuffer (T : Type 0) (capacity : ℕ) : Type 1 where
  pub Carrier : Type 0
  pub empty : Carrier
  -- what it holds, oldest first
  pub oldest_ordered : Carrier → List T
  -- the slice that it dereferences to, in an order of its own
  pub slice : Carrier → List T
  pub write : T → Carrier → Carrier
  pub empty_lem : oldest_ordered empty ≡ []
  pub slice-count :
      (test : T → Bool) (b : Carrier) → count test (slice b) ≡ count test (oldest_ordered b)
  pub length-slice : (b : Carrier) → length (slice b) ≡ length (oldest_ordered b)
  pub write_lem :
      (v : T) (b : Carrier)
      → oldest_ordered (write v b) ≡ (
          if ltb (length (oldest_ordered b)) capacity
          then oldest_ordered b ++ (v ∷ [])
          else drop 1 (oldest_ordered b) ++ (v ∷ []))

-- A list is such a buffer.
abbrev pub list_buffer : (T : Type 0) (capacity : ℕ) → HistoryBuffer T capacity
list_buffer T capacity = record {
  Carrier = List T;
  empty = [];
  oldest_ordered = λ b. b;
  slice = λ b. b;
  write = λ v b. if ltb (length b) capacity then b ++ (v ∷ []) else drop 1 b ++ (v ∷ []);
  empty_lem = refl;
  slice-count = λ test b. refl;
  length-slice = λ b. refl;
  write_lem = λ v b. refl;
}

-- `Ord`, as far as it is needed: `leq a b` says whether `a` comes no later than `b`.
pub record Ord (T : Type 0) : Type 0 where
  pub leq : T → T → Bool
  pub leq_refl : (a : T) → leq a a ≡ true

-- Each item comes no later than all that follow it.
abbrev pub AllFrom : {T : Type 0} → Ord T → T → List T → Type 0
AllFrom o x [] = Unit {0}
AllFrom o x (y ∷ ys) = (o.leq x y ≡ true) × AllFrom o x ys

abbrev pub IsSorted : {T : Type 0} → Ord T → List T → Type 0
IsSorted o [] = Unit {0}
IsSorted o (x ∷ xs) = AllFrom o x xs × IsSorted o xs

-- `sort_unstable`
pub record Sort {T : Type 0} (o : Ord T) : Type 0 where
  pub sort : List T → List T
  pub sort-IsSorted : (xs : List T) → IsSorted o (sort xs)
  pub sort-count : (test : T → Bool) (xs : List T) → count test (sort xs) ≡ count test xs
  pub length-sort : (xs : List T) → length (sort xs) ≡ length xs
