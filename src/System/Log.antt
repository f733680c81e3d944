-- ===== src/System/Log.antt =====
-- The logger of src/system/log.rs: the buffer that a message is formatted into.
pub mod Line
pub mod Write
use bark_esp.Base.{
  ℕ, ◌+◌, ◌-◌, ◌≤◌, ◌<◌, ◌≡◌, sym, ap, ◌∙◌, min, List, [], ◌∷◌, ◌++◌, length, take, drop, blit,
  replicate, length-blit, take-blit, take-blit_below, length-take, length-drop, take-all, take-min,
  arith,
}

-- `Buffer<SIZE>`, where `SIZE` is the length of `buff`
pub record Buffer : Type 0 where
  pub len : ℕ
  pub buff : List ℕ

unfoldable pub new : ℕ → Buffer
new size = record { len = 0; buff = replicate size 0 }

abbrev pub unused : Buffer → List ℕ
unused b = drop b.len b.buff

unfoldable pub as_bytes_with_nul : Buffer → List ℕ
as_bytes_with_nul b = take (b.len + 1) b.buff

-- `Write::write_str`, for the bytes of the string
unfoldable pub write_str : List ℕ → Buffer → Buffer
write_str s b =
    let len = min (length s) (length (unused b) - 1) in
    record {
      len = b.len + len;
      buff = blit (blit b.buff b.len (take len s)) (b.len + len) (0 ∷ []);
    }

-- The pieces that `write!` writes.
unfoldable pub write_all : List (List ℕ) → Buffer → Buffer
write_all [] b = b
write_all (s ∷ ss) b = write_all ss (write_str s b)

-- The text so far.
abbrev pub text : Buffer → List ℕ
text b = take b.len b.buff

-- There is room for the NUL, and it is there.
pub record IsValid (b : Buffer) : Type 0 where
  pub room : b.len < length b.buff
  pub nul : as_bytes_with_nul b ≡ text b ++ (0 ∷ [])

-- A write appends as much of the string as leaves room for the NUL, which follows the text.
pub write_str-IsValid :
    (s : List ℕ) (b : Buffer)
    → IsValid b
    → IsValid (write_str s b)
      × (text (write_str s b) ≡ text b ++ take (length b.buff - 1 - b.len) s)
      × (length (write_str s b).buff ≡ length b.buff)
unfolding write_str as_bytes_with_nul
write_str-IsValid s b v = (
  record {
    room = omega (arith, v.room, len', u);
    nul = whole ∙ ap (λ l. l ++ (0 ∷ [])) (sym below);
  },
  below ∙ written,
  len',
)
  where
    n : ℕ
    n = min (length s) (length (unused b) - 1)

    first : List ℕ
    first = blit b.buff b.len (take n s)

    u : length (unused b) ≡ length b.buff - b.len
    u = length-drop b.len b.buff

    m : length (take n s) ≡ min n (length s)
    m = length-take n s

    len' : length (blit first (b.len + n) (0 ∷ [])) ≡ length b.buff
    len' = length-blit first (b.len + n) (0 ∷ []) ∙ length-blit b.buff b.len (take n s)

    fits : b.len + n + 1 ≤ length first
    fits = omega (arith, length-blit b.buff b.len (take n s), u, v.room)

    whole :
        take (b.len + n + 1) (blit first (b.len + n) (0 ∷ [])) ≡ take (b.len + n) first ++ (0 ∷ [])
    whole = take-blit first (b.len + n) (0 ∷ []) 1 fits (omega arith)

    below : take (b.len + n) (blit first (b.len + n) (0 ∷ [])) ≡ take (b.len + n) first
    below = take-blit_below first (b.len + n) (b.len + n) (0 ∷ []) (omega arith)

    count : n ≡ min (length s) (length b.buff - 1 - b.len)
    count = omega (arith, u, v.room)

    idle : take n (take n s) ≡ take (length b.buff - 1 - b.len) s
    idle =
        take-all n (take n s) (omega (arith, m))
        ∙ ap (λ k. take k s) count
        ∙ take-min (length b.buff - 1 - b.len) s

    written : take (b.len + n) first ≡ take b.len b.buff ++ take (length b.buff - 1 - b.len) s
    written =
        take-blit b.buff b.len (take n s) n (omega (arith, m, u, v.room)) (omega (arith, m))
        ∙ ap (λ l. take b.len b.buff ++ l) idle
