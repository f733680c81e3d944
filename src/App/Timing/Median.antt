-- ===== src/App/Timing/Median.antt =====
-- What a median is worth.
use bark_esp.Base.{
  ℕ, zero, suc, ◌+◌, ◌/◌, ◌≤◌, ◌<◌, ◌≡◌, refl, ◌∙◌, List, [], ◌∷◌, none, some, Bool, true, length,
  get_elem?, arith,
}
use bark_esp.Extern.HistoryBuffer.{HistoryBuffer, Ord, Sort, count, AllFrom, IsSorted}
use bark_esp.App.Timing.{sample_history, median}

module _ {T : Type 0} (o : Ord T) where
  -- All of what follows an item comes no earlier.
  all_later : (m : T) (xs : List T) → AllFrom o m xs → count (λ y. o.leq m y) xs ≡ length xs
  all_later m [] h = refl
  all_later m (x ∷ xs) h = ground (arith, all_later m xs h.1, h.0)

  AllFrom-elem :
      (x m : T) (xs : List T) (k : ℕ) → AllFrom o x xs → get_elem? xs k ≡ some m → o.leq x m ≡ true
  AllFrom-elem x m [] k h e = cc
  AllFrom-elem x m (y ∷ ys) zero h e = ground (arith, h.0)
  AllFrom-elem x m (y ∷ ys) (suc k) h e = AllFrom-elem x m ys k h.1 e

  -- The item at index `k` of a sorted list, by how many come no later and no earlier.
  rank :
      (xs : List T) (k : ℕ) (m : T)
      → IsSorted o xs
      → get_elem? xs k ≡ some m
      → (k < count (λ y. o.leq y m) xs) × (length xs ≤ k + count (λ y. o.leq m y) xs)
  rank [] k m s e = cc
  rank (x ∷ xs) zero m s e = ground (arith, o.leq_refl x, all_later x xs s.0)
  rank (x ∷ xs) (suc k) m s e = ground (arith, rank xs k m s.1 e, AllFrom-elem x m xs k s.0 e)

  elem_within : (xs : List T) (k : ℕ) → k < length xs → (m : T) × (get_elem? xs k ≡ some m)
  elem_within [] k h = absurd (omega arith)
  elem_within (x ∷ xs) zero h = (x, refl)
  elem_within (x ∷ xs) (suc k) h = elem_within xs k (omega arith)

  past_end : (xs : List T) (k : ℕ) → length xs ≤ k → get_elem? xs k ≡ none
  past_end [] k h = refl
  past_end (x ∷ xs) zero h = absurd (omega arith)
  past_end (x ∷ xs) (suc k) h = past_end xs k (omega arith)

  module _ (H : HistoryBuffer T sample_history) (S : Sort o) where
    -- With no sample there is no median. Of n samples, in whatever order the buffer has them, the
    -- median is one such that more than n / 2 of them come no later than it, and at least
    -- n - n / 2 no earlier.
    pub median-rank :
        (samples : H.Carrier)
        → let xs = H.oldest_ordered samples in
          (length xs ≡ 0 → median T H o S samples ≡ none)
          × (0 < length xs
              → (m : T) × (median T H o S samples ≡ some m)
                × (length xs / 2 < count (λ y. o.leq y m) xs)
                × (length xs ≤ length xs / 2 + count (λ y. o.leq m y) xs))
    unfolding median
    median-rank samples =
        let n_eq = S.length-sort (H.slice samples) ∙ H.length-slice samples in
        let sorted = S.sort (H.slice samples) in
        (
          (λ e. past_end sorted (length sorted / 2) (omega (arith, n_eq, e))),
          (λ h.
              let found = elem_within sorted (length sorted / 2) (omega (arith, n_eq, h)) in
              let r =
                rank sorted (length sorted / 2) found.0 (S.sort-IsSorted (H.slice samples))
                  found.1 in
              let same = λ (test : T → Bool).
                S.sort-count test (H.slice samples) ∙ H.slice-count test samples in
              (
                found.0,
                found.1,
                (omega (arith, n_eq, r.0, same (λ (y : T). o.leq y found.0))),
                (omega (arith, n_eq, r.1, same (λ (y : T). o.leq found.0 y))),
              )),
        )
