-- ===== src/Tests/Spawn.antt =====
-- Tasks of src/system/task.rs, with numbers for closures.
use bark_esp.Base.{ℕ, ◌≡◌, refl, none, List, [], ◌∷◌}
use bark_esp.System.Builder.{TaskBuilder}
use bark_esp.System.Builder
use bark_esp.System.HeapBox.{Store}
use bark_esp.System.Builder.Entry.{err_of, failed, log}

-- Nothing is allocated.
abbrev memory : Store ℕ
memory = record { cell = λ p. none; dropped = [] }

abbrev accepting : List ℕ → ℕ → ℕ → ℕ → ℕ → ℕ
accepting name stack param priority core = 1

fails : log {E = ℕ} (err_of 5) (98 ∷ []) ≡ failed (98 ∷ []) 5
unfolding log
fails = refl
