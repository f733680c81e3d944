-- ===== src/System/Top/Table.antt =====
-- The rows of the table that src/system/task/top.rs prints, as bytes. What `core::fmt` makes of a number is given.
use bark_esp.Base.{
  ℕ, ◌+◌, ◌-◌, ◌≤◌, ◌≡◌, List, [], ◌∷◌, ◌++◌, Option, none, some, length, replicate, arith,
  length-append, length-replicate,
}
use bark_esp.System.Top.{
  TaskStatus, SystemState, CoreAffinity, any, pinned, affinity, TaskState, ready, running, blocked,
  suspended, deleted, invalid, States, state_of, cpu_pct,
}

-- `Display` of a state
unfoldable pub state_text : TaskState → List ℕ
state_text ready = 114 ∷ 101 ∷ 97 ∷ 100 ∷ 121 ∷ []
state_text running = 114 ∷ 117 ∷ 110 ∷ 110 ∷ 105 ∷ 110 ∷ 103 ∷ []
state_text blocked = 98 ∷ 108 ∷ 111 ∷ 99 ∷ 107 ∷ 101 ∷ 100 ∷ []
state_text suspended = 115 ∷ 117 ∷ 115 ∷ 112 ∷ 101 ∷ 110 ∷ 100 ∷ []
state_text deleted = 100 ∷ 101 ∷ 108 ∷ 101 ∷ 116 ∷ 101 ∷ 100 ∷ []
state_text invalid = []

-- `{: >n}` and `{: <n}` of a text, which is never cut
abbrev pub pad_left : ℕ → List ℕ → List ℕ
pad_left n text = replicate (n - length text) 32 ++ text

abbrev pub pad_right : ℕ → List ℕ → List ℕ
pad_right n text = text ++ replicate (n - length text) 32

-- The arguments of `print_task`.
pub record Row : Type 0 where
  pub id : List ℕ
  pub state : List ℕ
  pub affinity : List ℕ
  pub priority : List ℕ
  pub name : List ℕ
  pub cpu : List ℕ
  pub stack : List ℕ
  pub stack_headroom : List ℕ

abbrev pub gap : List ℕ
gap = 32 ∷ 32 ∷ []

unfoldable pub print_task : Row → List ℕ
print_task r =
    pad_left 4 r.id
    ++ (gap
        ++ (pad_right 7 r.state
            ++ (gap
                ++ (pad_left 3 r.affinity
                    ++ (gap
                        ++ (pad_left 4 r.priority
                            ++ (gap
                                ++ (pad_right 16 r.name
                                    ++ (gap
                                        ++ (pad_left 4 r.cpu
                                            ++ (gap
                                                ++ (pad_left 8 r.stack
                                                    ++ (gap
                                                        ++ pad_left 8 r.stack_headroom)))))))))))))

-- The row of the header.
abbrev pub header : Row
header = record {
  id = 73 ∷ 68 ∷ [];
  state = 83 ∷ 84 ∷ 65 ∷ 84 ∷ 69 ∷ [];
  affinity = 65 ∷ 70 ∷ 70 ∷ [];
  priority = 80 ∷ 82 ∷ 73 ∷ 79 ∷ [];
  name = 78 ∷ 65 ∷ 77 ∷ 69 ∷ [];
  cpu = 67 ∷ 80 ∷ 85 ∷ 37 ∷ [];
  stack = 83 ∷ 84 ∷ 65 ∷ 67 ∷ 75 ∷ [];
  stack_headroom = 72 ∷ 69 ∷ 65 ∷ 68 ∷ 82 ∷ 79 ∷ 79 ∷ 77 ∷ [];
}

-- How `core::fmt` writes a number, in decimal digits and in hexadecimal ones.
pub record Fmt : Type 0 where
  pub decimal : ℕ → List ℕ
  pub lower_hex : ℕ → List ℕ

-- `Display` of an affinity
unfoldable pub affinity_text : Fmt → CoreAffinity → List ℕ
affinity_text fmt any = 42 ∷ []
affinity_text fmt (pinned core) = fmt.decimal core

abbrev pub with_cpu : Option ℕ → (ℕ → Row) → Option Row
with_cpu none row = none
with_cpu (some pct) row = some (row pct)

-- The row of a task, for its name, the base of its stack and the headroom there; `none` is the panic
-- of the percentage.
unfoldable pub task_row :
    Fmt → States → ℕ → SystemState → SystemState → TaskStatus → List ℕ → ℕ → ℕ → Option Row
task_row fmt e no_affinity prev state t name stack headroom =
    with_cpu (cpu_pct prev state t) (λ pct. record {
      id = fmt.decimal t.id;
      state = state_text (state_of e t.state);
      affinity = affinity_text fmt (affinity no_affinity t);
      priority = fmt.decimal t.priority;
      name = name;
      cpu = fmt.decimal pct;
      stack = fmt.lower_hex stack;
      stack_headroom = fmt.decimal headroom;
    })

-- The texts fit the columns.
pub record Fits (r : Row) : Type 0 where
  pub id_fits : length r.id ≤ 4
  pub state_fits : length r.state ≤ 7
  pub affinity_fits : length r.affinity ≤ 3
  pub priority_fits : length r.priority ≤ 4
  pub name_fits : length r.name ≤ 16
  pub cpu_fits : length r.cpu ≤ 4
  pub stack_fits : length r.stack ≤ 8
  pub headroom_fits : length r.stack_headroom ≤ 8

state_text-fits : (s : TaskState) → length (state_text s) ≤ 7
unfolding state_text
state_text-fits s = ground arith

pad_left-length : (n : ℕ) (text : List ℕ) → length text ≤ n → length (pad_left n text) ≡ n
pad_left-length n text le = omega (
  arith,
  length-append (replicate (n - length text) 32) text,
  length-replicate {A = ℕ} (n - length text) 32,
)

pad_right-length : (n : ℕ) (text : List ℕ) → length text ≤ n → length (pad_right n text) ≡ n
pad_right-length n text le = omega (
  arith,
  length-append text (replicate (n - length text) 32),
  length-replicate {A = ℕ} (n - length text) 32,
)

-- A column and the gap behind it.
column :
    (n m : ℕ) (text rest : List ℕ)
    → length text ≡ n
    → length rest ≡ m
    → length (text ++ (gap ++ rest)) ≡ n + 2 + m
column n m text rest e h = omega (arith, e, h, length-append text (gap ++ rest))

-- Each row whose texts fit the columns is as long as the header.
pub print_task-aligned : (r : Row) → Fits r → length (print_task r) ≡ length (print_task header)
unfolding print_task
print_task-aligned r f = column 4 62 _ _ (pad_left-length 4 r.id f.id_fits) (
    column 7 53 _ _ (pad_right-length 7 r.state f.state_fits) (
      column 3 48 _ _ (pad_left-length 3 r.affinity f.affinity_fits) (
        column 4 42 _ _ (pad_left-length 4 r.priority f.priority_fits) (
          column 16 24 _ _ (pad_right-length 16 r.name f.name_fits) (
            column 4 18 _ _ (pad_left-length 4 r.cpu f.cpu_fits) (
              column 8 8 _ _ (pad_left-length 8 r.stack f.stack_fits)
                (pad_left-length 8 r.stack_headroom f.headroom_fits)))))))
