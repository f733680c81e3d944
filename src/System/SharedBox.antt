-- ===== src/System/SharedBox.antt =====
-- `SharedBox` of src/system/heap/arc.rs: what its handles do to the block that they share.
use bark_esp.Base.{
  ℕ, suc, ◌+◌, ◌-◌, ◌%◌, ◌^◌, ◌<◌, ◌≡◌, refl, Bool, ◌==◌, if◌then◌else◌, arith, Result,
}

-- `Inner<T>`, with the number of times that it was dropped and its memory freed
pub record Inner (A : Type 0) : Type 0 where
  pub value : A
  pub refcount : ℕ
  pub frees : ℕ

module _ {A : Type 0} where
  -- `SharedBox::alloc`, for the result of the allocation
  unfoldable pub alloc : {E : Type 0} → (Inner A → Result (Inner A) E) → A → Result (Inner A) E
  alloc malloc value = malloc (record { value = value; refcount = 1; frees = 0 })

  unfoldable pub unique : Inner A → Bool
  unique b = b.refcount == 1

  unfoldable pub clone : Inner A → Inner A
  clone b = record b { refcount = (b.refcount + 1) % 2 ^ 32 }

  -- `fetch_sub` returns what was there, and wraps.
  unfoldable pub drop : Inner A → Inner A
  drop b =
      let b' = record b { refcount = (b.refcount + (2 ^ 32 - 1)) % 2 ^ 32 } in
      if b.refcount == 1 then record b' { frees = b'.frees + 1 } else b'

  -- The block with the number of its handles: only a handle is cloned or dropped.
  pub data Reach : ℕ → Inner A → Type 0 where
    begin : (value : A) → Reach 1 (record { value = value; refcount = 1; frees = 0 })
    cloned :
        {n : ℕ} {b : Inner A} → Reach (suc n) b → n + 2 < 2 ^ 32 → Reach (suc (suc n)) (clone b)
    dropped : {n : ℕ} {b : Inner A} → Reach (suc n) b → Reach n (drop b)

  pub record Counts (n : ℕ) (b : Inner A) : Type 0 where
    pub small : n < 2 ^ 32
    pub count : b.refcount ≡ n
    pub freed : b.frees ≡ (if n == 0 then 1 else 0)

  -- However handles are cloned and dropped, while there are fewer than 2^32 of them: the count is
  -- their number, and the block is not freed while there is one and freed once after the last.
  pub refcount-Counts : {n : ℕ} {b : Inner A} → Reach n b → Counts n b
  unfolding clone drop
  refcount-Counts (begin value) = record { small = omega arith; count = refl; freed = refl }
  refcount-Counts (cloned {n} {b} r lt) =
      let v = refcount-Counts r in
      record {
        small = omega arith;
        count = omega (arith, v.count);
        freed = ground (arith, v.freed);
      }
  refcount-Counts (dropped {n} {b} r) =
      let v = refcount-Counts r in
      record {
        small = omega (arith, v.small);
        count = ground (arith, v.count, v.small);
        freed = ground (arith, v.freed, v.count);
      }
