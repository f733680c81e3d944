-- ===== src/Tests/System.antt =====
-- A line of the log of src/system/log.rs, and shared boxes.
use bark_esp.Base.{ℕ, ◌≡◌, ◌≤◌, List, [], ◌∷◌, ◌++◌, take, length, arith}
use bark_esp.System.Log.Line.{info, pieces, join, log, Nonzero, AllNonzero, log-Nonzero}
use bark_esp.System.SharedBox.{Inner, clone, drop, begin, cloned, dropped, Counts, refcount-Counts}

-- a box cloned once, with both handles dropped
abbrev gone : Inner ℕ
gone = drop (drop (clone (record { value = 7; refcount = 1; frees = 0 })))

refcount-Counts_example : Counts 0 gone
refcount-Counts_example = refcount-Counts (dropped (dropped (cloned (begin 7) (omega arith))))

abbrev app_target : List ℕ
app_target = 97 ∷ 112 ∷ 112 ∷ []

log-Nonzero_example :
    let line = join (pieces info app_target (55 ∷ []) ((104 ∷ 105 ∷ []) ∷ [])) in
    (log info app_target (55 ∷ []) ((104 ∷ 105 ∷ []) ∷ []) ≡ take 299 line ++ (0 ∷ []))
    × (Nonzero app_target
        → Nonzero (55 ∷ [])
        → AllNonzero ((104 ∷ 105 ∷ []) ∷ [])
        → Nonzero (take 299 line))
    × (length line ≤ 299 → log info app_target (55 ∷ []) ((104 ∷ 105 ∷ []) ∷ []) ≡ line ++ (0 ∷ []))
log-Nonzero_example = log-Nonzero info app_target (55 ∷ []) ((104 ∷ 105 ∷ []) ∷ [])
