-- ===== src/App/Queue/Slot.antt =====
-- `queue_slot_mut`: the deque grows until it has the slot, and the reference is to that slot.
use bark_esp.Base.{
  ℕ, zero, suc, ◌+◌, ◌-◌, ◌≤◌, ◌<◌, ◌≡◌, ap, sym, ◌∙◌, Option, none, List, [], ◌∷◌, ◌++◌, arith,
  length, set, replicate, returns, ltb, ltb-false→le, Bool-cases, inl, inr, append_assoc,
  append-nil, length-append, dec_lt, get_elem?-append_left, lt→ltb,
}
use bark_esp.Extern.Deque.{Deque}
use bark_esp.App.Queue.{
  max_queued_packets, SlotRef, left, right, expand, index_slot, read_slot, write_slot, join,
}
use bark_esp.App.Queue.Slots.{slot_at, set-append_left, set-append_right, get_elem?-append_ge}

module _ (Audio : Type 0) (seq : Audio → ℕ) (D : Deque (Option Audio) max_queued_packets) where
  abbrev pub items : D.Carrier → List (Option Audio)
  items d = (D.slices d).0 ++ (D.slices d).1

  abbrev Expanded : ℕ → ℕ → D.Carrier → Type 0
  Expanded fuel idx d =
      (d' : D.Carrier) × (expand Audio seq D fuel idx d ≡ returns d')
      × (items d' ≡ items d ++ replicate (suc idx - D.len d) none)
      × (idx < D.len d')

  len_more : (d d1 : D.Carrier) → items d1 ≡ items d ++ (none ∷ []) → D.len d1 ≡ suc (D.len d)
  len_more d d1 grown =
      omega (arith, D.len_lem d, D.len_lem d1, ap length grown, length-append (items d) (none ∷ []))

  -- A round of the loop, and the rounds after it.
  Expanded-more :
      (fuel idx : ℕ) (d d1 : D.Carrier)
      → items d1 ≡ items d ++ (none ∷ [])
      → expand Audio seq D (suc fuel) idx d ≡ expand Audio seq D fuel idx d1
      → Expanded fuel idx d1
      → D.len d ≤ idx
      → Expanded (suc fuel) idx d
  Expanded-more fuel idx d d1 grown round (d', run, all, there) le =
      (d', round ∙ run, all ∙ rw (grown, append_assoc) (ap (λ t. items d ++ t) next), there)
    where
      next :
          ◌≡◌ {A = List (Option Audio)}
            (none ∷ replicate (suc idx - D.len d1) none)
            (replicate (suc idx - D.len d) none)
      next =
          ap (λ k. replicate k none) {x = suc (suc idx - D.len d1)}
            (omega (arith, len_more d d1 grown))

  -- With a round for each slot that is missing and one more, the loop ends, and no push fails.
  pub expand_lem :
      (fuel idx : ℕ) (d : D.Carrier)
      → idx < max_queued_packets
      → suc idx - D.len d < fuel
      → Expanded fuel idx d
  unfolding expand
  expand_lem zero idx d h f = absurd (omega arith)
  expand_lem (suc fuel) idx d h f = elim (Bool-cases (ltb idx (D.len d))) [
    | inl enough ↦ (
      d,
      rw (enough, expand),
      sym (append-nil (items d)) ∙ ap (λ k. items d ++ replicate k none) {x = 0} (ground arith),
      ground arith,
    )
    | inr short ↦
        let le : D.len d ≤ idx = ltb-false→le idx (D.len d) short in
        let (d1, pushed, grown) = D.push_back_lem none d (omega arith) in
        Expanded-more fuel idx d d1 grown (rw (short, expand, pushed))
          (expand_lem fuel idx d1 h (omega (arith, len_more d d1 grown))) le
  ]

  -- A slot that is there is found, is read as the slot of that index, and is assigned as such.
  pub index_slot_lem :
      (idx : ℕ) (d : D.Carrier)
      → idx < D.len d
      → (slot : SlotRef) × (index_slot Audio seq D idx d ≡ returns slot)
        × (read_slot Audio seq D slot d ≡ slot_at (items d) idx)
        × ((v : Option Audio) → items (write_slot Audio seq D slot v d) ≡ set (items d) idx v)
  unfolding index_slot read_slot write_slot
  index_slot_lem idx d h = elim (dec_lt idx (length front)) [
    | yes l ↦ (
      left idx,
      rw (lt→ltb idx (length front) l, index_slot),
      ap join (sym (get_elem?-append_left front back idx l)),
      λ v. rw (D.write_left_lem idx v d l) (sym (set-append_left front back idx v l)),
    )
    | no r ↦ (
      right (idx - length front),
      ground (arith, len),
      ap join (sym (get_elem?-append_ge front back idx (omega arith))),
      λ v.
          rw (D.write_right_lem (idx - length front) v d (omega (arith, len)))
            (sym (set-append_right front back idx v (omega arith))),
    )
  ]
    where
      front : List (Option Audio)
      front = (D.slices d).0

      back : List (Option Audio)
      back = (D.slices d).1

      len : D.len d ≡ length front + length back
      len = D.len_lem d ∙ length-append front back
