-- ===== src/System/Heap.antt =====
-- The allocator of src/system/heap.rs, over `malloc` and `free` of the C library. A pointer is
-- its number, and an allocation that is empty is the sentinel's.
use bark_esp.Base.{
  ℕ, ◌^◌, Option, none, some, List, [], ◌∷◌, Result, ok, err, ltb, ◌==◌, if◌then◌else◌,
}

pub record MallocError : Type 0 where
  pub bytes : ℕ

module _ (setinel : ℕ) (malloc : ℕ → Option ℕ) where
  -- `SystemMalloc::alloc`, for the size of the layout; `none` is the null pointer.
  unfoldable pub alloc : ℕ → Option ℕ
  alloc size = if ltb size (2 ^ 32) then (if size == 0 then some setinel else malloc size) else none

  unfoldable pub alloc_layout : ℕ → Result ℕ MallocError
  alloc_layout size = elim (alloc size) [ some ptr ↦ ok ptr | none ↦ err (record { bytes = size }) ]

-- `SystemMalloc::dealloc`: the pointers that are handed to `free`.
unfoldable pub dealloc : ℕ → ℕ → List ℕ
dealloc ptr size = if size == 0 then [] else ptr ∷ []
