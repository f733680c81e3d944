-- ===== src/System/Log/Line.antt =====
-- A line of the log, `EspLog::log` of src/system/log.rs. A text is its bytes; what `core::fmt` makes
-- of the timestamp and of the arguments is given.
use bark_esp.Base.{
  ℕ, zero, suc, ◌-◌, ◌≤◌, ◌<◌, ◌≡◌, refl, sym, ap, ◌∙◌, List, [], ◌∷◌, ◌++◌, length, take,
  append-nil, length-take, arith, Option, none, some, leb, ltb, ◌&&◌, if◌then◌else◌,
  length-replicate, take-all,
}
use native.Mathlib.Nat.{sub-zero, suc-sub-suc}
use bark_esp.System.Log.{
  Buffer, new, as_bytes_with_nul, write_str, write_all, text, IsValid, write_str-IsValid,
}

pub data Level : Type 0 where
  error warn info debug trace : Level

-- `\x1b[`, the code, and `m`
abbrev pub escape : List ℕ → List ℕ
escape code = 27 ∷ 91 ∷ (code ++ (109 ∷ []))

abbrev pub reset : List ℕ
reset = escape (48 ∷ [])

pub record Color : Type 0 where
  pub normal : List ℕ
  pub bright : List ℕ

-- `1;` before the code for the bright one
abbrev pub both : List ℕ → Color
both code = record { normal = escape code; bright = escape (49 ∷ 59 ∷ code) }

unfoldable pub log_color : Level → Color
log_color error = both (51 ∷ 49 ∷ [])
log_color warn = both (51 ∷ 51 ∷ [])
log_color info = both (51 ∷ 50 ∷ [])
log_color debug = record { normal = []; bright = [] }
log_color trace = record { normal = escape (50 ∷ []); bright = escape (50 ∷ []) }

unfoldable pub log_label : Level → List ℕ
log_label error = 69 ∷ 82 ∷ 82 ∷ 79 ∷ 82 ∷ []
log_label warn = 87 ∷ 65 ∷ 82 ∷ 78 ∷ 32 ∷ []
log_label info = 73 ∷ 78 ∷ 70 ∷ 79 ∷ 32 ∷ []
log_label debug = 68 ∷ 69 ∷ 66 ∷ 85 ∷ 71 ∷ []
log_label trace = 84 ∷ 82 ∷ 65 ∷ 67 ∷ 69 ∷ []

-- The pieces of the format of `log`, in order.
unfoldable pub pieces : Level → List ℕ → List ℕ → List (List ℕ) → List (List ℕ)
pieces level target timestamp args =
    let color = log_color level in
    color.normal
    ∷ log_label level
    ∷ (32 ∷ 91 ∷ [])
    ∷ timestamp
    ∷ (93 ∷ 32 ∷ [])
    ∷ color.bright
    ∷ target
    ∷ (58 ∷ [])
    ∷ reset
    ∷ color.normal
    ∷ (32 ∷ [])
    ∷ (args ++ (reset ∷ []))

-- The message that is handed to `esp_log_write`.
unfoldable pub log : Level → List ℕ → List ℕ → List (List ℕ) → List ℕ
log level target timestamp args =
    as_bytes_with_nul (write_all (pieces level target timestamp args) (new 300))

-- `static_str`: a text whose address lies in the read-only data
unfoldable pub static_str : {S : Type 0} → ℕ → ℕ → ℕ → S → Option S
static_str rodata_start rodata_end ptr string =
    if leb rodata_start ptr && ltb ptr rodata_end then some string else none

abbrev pub join : List (List ℕ) → List ℕ
join [] = []
join (s ∷ ss) = s ++ join ss

take-append-take : (n : ℕ) (xs ys : List ℕ) → take n (take n xs ++ ys) ≡ take n (xs ++ ys)
take-append-take zero xs ys = refl
take-append-take (suc n) [] ys = refl
take-append-take (suc n) (x ∷ xs) ys = ap (λ l. x ∷ l) (take-append-take n xs ys)

-- A piece that is cut to the room leaves the same text in that room.
cut :
    (n : ℕ) (t s rest : List ℕ)
    → length t ≤ n
    → take n ((t ++ take (n - length t) s) ++ rest) ≡ take n (t ++ (s ++ rest))
cut n [] s rest h = rw sub-zero (take-append-take n s rest)
cut zero (x ∷ t) s rest h = absurd (omega arith)
cut (suc n) (x ∷ t) s rest h = rw suc-sub-suc (ap (λ l. x ∷ l) (cut n t s rest (omega arith)))

length-text : (b : Buffer) → IsValid b → length (text b) ≡ b.len
length-text b v = omega (arith, length-take b.len b.buff, v.room)

write_all-text :
    (ss : List (List ℕ)) (b : Buffer)
    → IsValid b
    → IsValid (write_all ss b)
      × (text (write_all ss b) ≡ take (length b.buff - 1) (text b ++ join ss))
unfolding write_all
write_all-text [] b v = (
  v,
  sym (
      ap (take (length b.buff - 1)) (append-nil (text b))
      ∙ take-all (length b.buff - 1) (text b) (omega (arith, length-text b v, v.room))),
)
write_all-text (s ∷ ss) b v =
    let (v', grown, len) = write_str-IsValid s b v in
    let (v'', all) = write_all-text ss (write_str s b) v' in
    (
      v'',
      all
          ∙ ap (λ n. take (n - 1) (text (write_str s b) ++ join ss)) len
          ∙ ap (λ l. take (length b.buff - 1) (l ++ join ss))
              (grown ∙ ap (λ k. text b ++ take (length b.buff - 1 - k) s) (sym (length-text b v)))
          ∙ cut (length b.buff - 1) (text b) s (join ss) (omega (arith, length-text b v, v.room)),
    )

-- No byte is a NUL.
abbrev pub Nonzero : List ℕ → Type 0
Nonzero [] = Unit {0}
Nonzero (x ∷ xs) = (0 < x) × Nonzero xs

abbrev pub AllNonzero : List (List ℕ) → Type 0
AllNonzero [] = Unit {0}
AllNonzero (s ∷ ss) = Nonzero s × AllNonzero ss

Nonzero-append : (xs ys : List ℕ) → Nonzero xs → Nonzero ys → Nonzero (xs ++ ys)
Nonzero-append [] ys a b = b
Nonzero-append (x ∷ xs) ys a b = (a.0, Nonzero-append xs ys a.1 b)

Nonzero-take : (n : ℕ) (xs : List ℕ) → Nonzero xs → Nonzero (take n xs)
Nonzero-take zero xs a = tt
Nonzero-take (suc n) [] a = tt
Nonzero-take (suc n) (x ∷ xs) a = (a.0, Nonzero-take n xs a.1)

Nonzero-join : (ss : List (List ℕ)) → AllNonzero ss → Nonzero (join ss)
Nonzero-join [] a = tt
Nonzero-join (s ∷ ss) a = Nonzero-append s (join ss) a.0 (Nonzero-join ss a.1)

AllNonzero-append : (ss rs : List (List ℕ)) → AllNonzero ss → AllNonzero rs → AllNonzero (ss ++ rs)
AllNonzero-append [] rs a b = b
AllNonzero-append (s ∷ ss) rs a b = (a.0, AllNonzero-append ss rs a.1 b)

reset-Nonzero : Nonzero reset
reset-Nonzero = grind arith

level-Nonzero :
    (level : Level)
    → Nonzero (log_color level).normal
      × Nonzero (log_color level).bright
      × Nonzero (log_label level)
unfolding log_color log_label
level-Nonzero error = grind arith
level-Nonzero warn = grind arith
level-Nonzero info = grind arith
level-Nonzero debug = grind arith
level-Nonzero trace = grind arith

pieces-AllNonzero :
    (level : Level) (target timestamp : List ℕ) (args : List (List ℕ))
    → Nonzero target
    → Nonzero timestamp
    → AllNonzero args
    → AllNonzero (pieces level target timestamp args)
unfolding pieces
pieces-AllNonzero level target timestamp args a b c =
    ground (arith, level-Nonzero level, AllNonzero-append args (reset ∷ []) c (reset-Nonzero, tt))

new-IsValid : (size : ℕ) → 0 < size → IsValid (new size)
unfolding new as_bytes_with_nul
new-IsValid zero h = absurd (omega arith)
new-IsValid (suc n) h = record { room = omega (arith, length-replicate {A = ℕ} n 0); nul = refl }

new-length : (size : ℕ) → length (new size).buff ≡ size
unfolding new
new-length size = length-replicate size 0

new-text : (size : ℕ) → text (new size) ≡ []
unfolding new
new-text size = refl

-- What a buffer holds after some pieces.
message :
    (size : ℕ) (ss : List (List ℕ))
    → 0 < size
    → as_bytes_with_nul (write_all ss (new size)) ≡ take (size - 1) (join ss) ++ (0 ∷ [])
message size ss h =
    let (v, all) = write_all-text ss (new size) (new-IsValid size h) in
    v.nul
    ∙ ap (λ l. l ++ (0 ∷ []))
        (all
          ∙ ap (λ n. take (n - 1) (text (new size) ++ join ss)) (new-length size)
          ∙ ap (λ l. take (size - 1) (l ++ join ss)) (new-text size))

-- The message is the line cut to the room, 299 bytes, with a NUL behind it; and it has no other NUL
-- if the texts that come from outside have none. A line that fits is whole.
pub log-Nonzero :
    (level : Level) (target timestamp : List ℕ) (args : List (List ℕ))
    → let line = join (pieces level target timestamp args) in
      (log level target timestamp args ≡ take 299 line ++ (0 ∷ []))
      × (Nonzero target → Nonzero timestamp → AllNonzero args → Nonzero (take 299 line))
      × (length line ≤ 299 → log level target timestamp args ≡ line ++ (0 ∷ []))
unfolding log
log-Nonzero level target timestamp args =
    let whole = message 300 (pieces level target timestamp args) (omega arith) in
    (
      whole,
      λ a b c. Nonzero-take 299 (join (pieces level target timestamp args)) (
          Nonzero-join (pieces level target timestamp args)
            (pieces-AllNonzero level target timestamp args a b c)),
      λ le.
          whole
          ∙ ap (λ l. l ++ (0 ∷ [])) (take-all 299 (join (pieces level target timestamp args)) le),
    )
