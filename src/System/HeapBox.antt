-- ===== src/System/HeapBox.antt =====
-- `HeapBox` of src/system/heap/boxed.rs: who drops a value and who frees its memory. The heap says
-- what each pointer holds; `dropped` are the values whose destructors ran, the last one first. A
-- use of a pointer that holds nothing is a fault, `none`.
use bark_esp.Base.{
  ℕ, ◌≡◌, refl, ap, Option, none, some, List, ◌∷◌, ◌==◌, if◌then◌else◌, Result, ok, err, arith,
}
use mathlib.Core.Path.{fun_ext}

module _ (A : Type 0) where
  pub record Store : Type 0 where
    pub cell : ℕ → Option A
    pub dropped : List A

  abbrev pub put : (ℕ → Option A) → ℕ → Option A → ℕ → Option A
  put f p v q = if p == q then v else f q

  -- `HeapBox::alloc`, for the pointer or the error that the allocator returned; the value is dropped
  -- on its error.
  unfoldable pub alloc : {E : Type 0} → Result ℕ E → A → Store → Result ℕ E × Store
  alloc (ok p) value s = (ok p, record s { cell = put s.cell p (some value) })
  alloc (err e) value s = (err e, record s { dropped = value ∷ s.dropped })

  -- `into_raw` and `from_raw` hand the pointer over.
  abbrev pub into_raw : ℕ → ℕ
  into_raw p = p

  abbrev pub from_raw : ℕ → ℕ
  from_raw p = p

  -- `heap::free`
  unfoldable pub free : ℕ → Store → Option Store
  free p s = elim (s.cell p) [
    | some value ↦ some (record s { cell = put s.cell p none })
    | none ↦ none
  ]

  -- `Deref::deref`
  unfoldable pub deref : ℕ → Store → Option A
  deref p s = s.cell p

  -- `into_inner`: the value is read, and its memory freed without a drop.
  unfoldable pub into_inner : ℕ → Store → Option (A × Store)
  into_inner p s = elim (s.cell (into_raw p)) [
    | some value ↦ elim (free (into_raw p) s) [ some s' ↦ some (value, s') | none ↦ none ]
    | none ↦ none
  ]

  -- `drop_free`: `drop_in_place`, then `free`
  unfoldable pub drop_free : ℕ → Store → Option Store
  drop_free p s = elim (s.cell p) [
    | some value ↦ free p (record s { dropped = value ∷ s.dropped })
    | none ↦ none
  ]

  -- `UntypedHeapBox`: the pointer with the drop of its type
  pub record UntypedHeapBox : Type 0 where
    pub ptr : ℕ
    pub drop : ℕ → Store → Option Store

  unfoldable pub erase_type : ℕ → UntypedHeapBox
  erase_type p = record { ptr = into_raw p; drop = drop_free }

  -- The drop of an `UntypedHeapBox`.
  unfoldable pub drop_untyped : UntypedHeapBox → Store → Option Store
  drop_untyped b s = b.drop b.ptr s

  put_back : (f : ℕ → Option A) (p : ℕ) (v : Option A) → f p ≡ none → put (put f p v) p none ≡ f
  put_back f p v e = fun_ext (λ q. back q)
    where
      back : (q : ℕ) → put (put f p v) p none q ≡ f q
      back q = ground (arith, e, ap f)

  pub put_same : (f : ℕ → Option A) (p : ℕ) (v : Option A) → put f p v p ≡ v
  put_same f p v = ground arith

  pub free-put :
      (c : ℕ → Option A) (d : List A) (p : ℕ) (v : A)
      → c p ≡ none
      → free p (record { cell = put c p (some v); dropped = d })
        ≡ some (record { cell = c; dropped = d })
  unfolding free
  free-put c d p v e = rw (free, put_same c p (some v), put_back c p (some v) e) refl

  -- A box made at a free address has its value; it can be taken out, which runs no destructor, or
  -- dropped, with its type or without, which runs its destructor once. Each way the memory is as it
  -- was before the box, and to drop the box once more is a fault.
  pub box-once :
      (E : Type 0) (p : ℕ) (value : A) (s : Store)
      → s.cell p ≡ none
      → let s' = (alloc {E = E} (ok p) value s).1 in
        (deref p s' ≡ some value)
        × (into_inner p s' ≡ some (value, s))
        × (drop_free p s' ≡ some (record s { dropped = value ∷ s.dropped }))
        × (drop_untyped (erase_type p) s' ≡ drop_free p s')
        × (drop_free p s ≡ none)
  unfolding alloc deref into_inner drop_free drop_untyped erase_type
  box-once E p value s e = (
    put_same s.cell p (some value),
    (rw (into_inner, put_same s.cell p (some value), free-put s.cell s.dropped p value e) refl),
    (rw (drop_free, put_same s.cell p (some value), free-put s.cell (value ∷ s.dropped) p value e)
        refl),
    refl,
    (rw (drop_free, e) refl),
  )
