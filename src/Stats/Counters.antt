-- ===== src/Stats/Counters.antt =====
-- `Counter` of src/stats.rs, a `u32` that wraps.
use bark_esp.Base.{ℕ, ◌+◌, ◌%◌, ◌^◌, ◌≡◌, List, [], ◌∷◌, arith}

pub record Counter : Type 0 where
  pub value : ℕ

abbrev pub new : Counter
new = record { value = 0 }

-- `fetch_add` wraps.
unfoldable pub add : ℕ → Counter → Counter
add n c = record { value = (c.value + n) % 2 ^ 32 }

unfoldable pub increment : Counter → Counter
unfolding add
increment c = add 1 c

-- `swap(0)` returns what was there.
unfoldable pub take : Counter → ℕ × Counter
take c = (c.value, record { value = 0 })

-- What happens to a counter: an addition, or the report that takes its value.
pub data Use : Type 0 where
  adds : ℕ → Use
  takes : Use

-- The sum of the values taken, and the counter at the end.
unfoldable pub run : List Use → ℕ → Counter → ℕ × Counter
unfolding add take
run [] total c = (total, c)
run (adds n ∷ us) total c = run us total (add n c)
run (takes ∷ us) total c = let (n, c') = take c in run us (total + n) c'

abbrev pub added : List Use → ℕ
added [] = 0
added (adds n ∷ us) = n + added us
added (takes ∷ us) = added us

-- No count is lost between reports: modulo 2^32 the values taken and the value left add up to
-- what was taken before, what was there, and all that was added since.
pub run-conserves :
    (us : List Use) (total : ℕ) (c : Counter)
    → let (taken, c') = run us total c in
      (taken + c'.value) % 2 ^ 32 ≡ (total + c.value + added us) % 2 ^ 32
unfolding run
run-conserves [] total c = omega arith
run-conserves (adds n ∷ us) total c = omega (arith, run-conserves us total (add n c))
run-conserves (takes ∷ us) total c =
    omega (arith, run-conserves us (total + c.value) (record { value = 0 }))
