-- ===== src/Tests/Timing.antt =====
-- src/app/timing.rs.
use bark_esp.Base.{
  ℕ, suc, ◌+◌, ◌<◌, ◌≤◌, ◌/◌, ◌≡◌, refl, ap, ◌∙◌, List, [], ◌∷◌, none, some, Bool, true, length,
  leb, arith, if◌then◌else◌,
}
use bark_esp.Extern.HistoryBuffer.{HistoryBuffer, Ord, Sort, count, AllFrom, IsSorted, list_buffer}
use bark_esp.App.Timing.{sample_history, median}
use bark_esp.App.Timing.Median.{median-rank}

abbrev number_order : Ord ℕ
number_order = record { leq = leb; leq_refl = λ a. ground arith }

abbrev insert : ℕ → List ℕ → List ℕ
insert x [] = x ∷ []
insert x (y ∷ ys) = let rest = insert x ys in if leb x y then x ∷ y ∷ ys else y ∷ rest

abbrev sort : List ℕ → List ℕ
sort [] = []
sort (x ∷ xs) = insert x (sort xs)

length-insert : (x : ℕ) (ys : List ℕ) → length (insert x ys) ≡ suc (length ys)
length-insert x [] = refl
length-insert x (y ∷ ys) = ground (arith, length-insert x ys)

count-insert :
    (test : ℕ → Bool) (x : ℕ) (ys : List ℕ) → count test (insert x ys) ≡ count test (x ∷ ys)
count-insert test x [] = refl
count-insert test x (y ∷ ys) = ground (arith, count-insert test x ys)

AllFrom-le : (a b : ℕ) (ys : List ℕ) → a ≤ b → AllFrom number_order b ys → AllFrom number_order a ys
AllFrom-le a b [] le h = tt
AllFrom-le a b (y ∷ ys) le h = (ground (arith, h.0), AllFrom-le a b ys le h.1)

AllFrom-insert :
    (a x : ℕ) (ys : List ℕ)
    → leb a x ≡ true
    → AllFrom number_order a ys
    → AllFrom number_order a (insert x ys)
AllFrom-insert a x [] h k = (h, tt)
AllFrom-insert a x (y ∷ ys) h k = ground (arith, h, k.0, k.1, AllFrom-insert a x ys h k.1)

insert-IsSorted :
    (x : ℕ) (ys : List ℕ) → IsSorted number_order ys → IsSorted number_order (insert x ys)
insert-IsSorted x [] s = (tt, tt)
insert-IsSorted x (y ∷ ys) s =
    ground (arith, AllFrom-le x y ys, AllFrom-insert y x ys, insert-IsSorted x ys s.1, s.0, s.1)

sort-IsSorted : (xs : List ℕ) → IsSorted number_order (sort xs)
sort-IsSorted [] = tt
sort-IsSorted (x ∷ xs) = insert-IsSorted x (sort xs) (sort-IsSorted xs)

sort-count : (test : ℕ → Bool) (xs : List ℕ) → count test (sort xs) ≡ count test xs
sort-count test [] = refl
sort-count test (x ∷ xs) = ground (arith, count-insert test x (sort xs), sort-count test xs)

length-sort : (xs : List ℕ) → length (sort xs) ≡ length xs
length-sort [] = refl
length-sort (x ∷ xs) = length-insert x (sort xs) ∙ ap suc (length-sort xs)

abbrev insertion_sort : Sort number_order
insertion_sort = record {
  sort = sort;
  sort-IsSorted = sort-IsSorted;
  sort-count = sort-count;
  length-sort = length-sort;
}

abbrev samples : List ℕ
samples = 9 ∷ 2 ∷ 5 ∷ 4 ∷ []

abbrev numbers : HistoryBuffer ℕ sample_history
numbers = list_buffer ℕ sample_history

median-samples : median ℕ numbers number_order insertion_sort samples ≡ some 5
unfolding median
median-samples = refl

median-rank_example :
    (length samples ≡ 0 → median ℕ numbers number_order insertion_sort samples ≡ none)
    × (0 < length samples
        → (m : ℕ) × (median ℕ numbers number_order insertion_sort samples ≡ some m)
          × (length samples / 2 < count (λ y. leb y m) samples)
          × (length samples ≤ length samples / 2 + count (λ y. leb m y) samples))
median-rank_example = median-rank number_order numbers insertion_sort samples
