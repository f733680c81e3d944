-- ===== src/System/Top/Frame.antt =====
-- One turn of the loop of src/system/task/top.rs: the bytes that it prints for two readings.
use bark_esp.Base.{
  ℕ, ◌+◌, ◌*◌, ◌≡◌, refl, ap, suc, ◌∙◌, List, [], ◌∷◌, ◌++◌, Option, none, some, length, ltb, arith,
  Bool, true, false, if◌then◌else◌, length-append,
}
use bark_esp.System.Top.{TaskStatus, SystemState, States}
use bark_esp.System.Top.Table.{Row, Fmt, Fits, print_task, header, task_row, print_task-aligned}

unfoldable pub all_ascii : List ℕ → Bool
all_ascii [] = true
all_ascii (b ∷ bs) = let rest = all_ascii bs in if ltb b 128 then rest else false

-- `name`, for the bytes of the C string
unfoldable pub name : List ℕ → List ℕ
name bytes = if all_ascii bytes then bytes else []

-- What the pointers of a status lead to, and the rest of its numbers.
pub record Texts : Type 0 where
  pub c_name : TaskStatus → List ℕ
  pub stack : TaskStatus → ℕ
  pub stack_high_watermark : TaskStatus → ℕ

unfoldable pub add_row : Option Row → Option (List Row) → Option (List Row)
add_row none rest = none
add_row (some row) none = none
add_row (some row) (some rows) = some (row ∷ rows)

-- The rows of the loop over the tasks; `none` is the panic of a percentage.
unfoldable pub task_rows :
    Fmt → States → ℕ → Texts → SystemState → SystemState → List TaskStatus → Option (List Row)
task_rows fmt e no_affinity x prev state [] = some []
task_rows fmt e no_affinity x prev state (t ∷ ts) =
    add_row
      (task_row fmt e no_affinity prev state t (name (x.c_name t)) (x.stack t)
        (x.stack_high_watermark t))
      (task_rows fmt e no_affinity x prev state ts)

-- ESC [
abbrev pub csi : List ℕ
csi = 27 ∷ 91 ∷ []

unfoldable pub print_rows : List Row → List ℕ
print_rows [] = []
print_rows (r ∷ rs) = print_task r ++ (10 ∷ print_rows rs)

-- What goes before the rows: save the cursor, move it to the corner, the header in its colours.
unfoldable pub prologue : List ℕ
prologue =
    (csi ++ (115 ∷ []))
    ++ ((csi ++ (48 ∷ 59 ∷ 48 ∷ 72 ∷ []))
        ++ ((csi ++ (49 ∷ 48 ∷ 52 ∷ 59 ∷ 51 ∷ 48 ∷ 109 ∷ []))
            ++ (print_task header ++ (csi ++ (48 ∷ 109 ∷ 10 ∷ [])))))

-- restore the cursor
abbrev pub epilogue : List ℕ
epilogue = csi ++ (117 ∷ [])

unfoldable pub print_frame : Option (List Row) → Option (List ℕ)
print_frame none = none
print_frame (some rows) = some (prologue ++ (print_rows rows ++ epilogue))

-- A turn of the loop of `task`, from the reading before and the one now.
abbrev pub frame : Fmt → States → ℕ → Texts → SystemState → SystemState → Option (List ℕ)
frame fmt e no_affinity x prev state =
    print_frame (task_rows fmt e no_affinity x prev state state.tasks)

unfoldable AllFit : List Row → Type 0
AllFit [] = Unit
AllFit (r ∷ rs) = Fits r × AllFit rs

header-length : length (print_task header) ≡ 68
unfolding print_task
header-length = refl

prologue-length : length prologue ≡ 91
unfolding prologue print_task
prologue-length = refl

print_rows-length : (rs : List Row) → AllFit rs → length (print_rows rs) ≡ 69 * length rs
unfolding print_rows AllFit
print_rows-length [] f = refl
print_rows-length (r ∷ rs) (f, fs) = omega (
  arith,
  length-append (print_task r) (10 ∷ print_rows rs),
  print_task-aligned r f,
  header-length,
  print_rows-length rs fs,
)

add_row-parts :
    (o : Option Row) (rest : Option (List Row)) (rows : List Row)
    → add_row o rest ≡ some rows
    → (r : Row) × (rs : List Row) × (rest ≡ some rs) × (rows ≡ r ∷ rs)
unfolding add_row
add_row-parts none rest rows h = ground arith
add_row-parts (some r) none rows h = ground arith
add_row-parts (some r) (some rs) rows h = (r, rs, refl, ground arith)

-- As many rows as tasks.
task_rows-length :
    (fmt : Fmt) (e : States) (no_affinity : ℕ) (x : Texts) (prev state : SystemState)
    (ts : List TaskStatus) (rows : List Row)
    → task_rows fmt e no_affinity x prev state ts ≡ some rows
    → length rows ≡ length ts
unfolding task_rows
task_rows-length fmt e no_affinity x prev state [] rows h = ground arith
task_rows-length fmt e no_affinity x prev state (t ∷ ts) rows h =
    let (r, rs, eq, whole) = add_row-parts _ _ rows h in
    ap length whole ∙ ap suc (task_rows-length fmt e no_affinity x prev state ts rs eq)

-- When no percentage panics and the texts fit, a turn prints 94 bytes and 69 for each task.
frame-length :
    (fmt : Fmt) (e : States) (no_affinity : ℕ) (x : Texts) (prev state : SystemState)
    (rows : List Row)
    → task_rows fmt e no_affinity x prev state state.tasks ≡ some rows
    → AllFit rows
    → (out : List ℕ) × (frame fmt e no_affinity x prev state ≡ some out)
      × (length out ≡ 94 + 69 * length state.tasks)
unfolding print_frame
frame-length fmt e no_affinity x prev state rows h f = (
  prologue ++ (print_rows rows ++ epilogue),
  ap print_frame h,
  omega (
    arith,
    length-append prologue (print_rows rows ++ epilogue),
    length-append (print_rows rows) epilogue,
    prologue-length,
    print_rows-length rows f,
    task_rows-length fmt e no_affinity x prev state state.tasks rows h,
  ),
)
