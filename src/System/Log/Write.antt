-- ===== src/System/Log/Write.antt =====
-- The call of ESP-IDF that a line of the log ends in, `esp_log` of src/system/log.rs.
use bark_esp.Base.{
  ℕ, ◌≡◌, refl, ap, ◌∙◌, List, [], ◌∷◌, ◌++◌, take, Option, none, some, ◌==◌, if◌then◌else◌, arith,
}
use bark_esp.System.Log.Line.{
  Level, error, warn, info, debug, trace, pieces, join, log, static_str, Nonzero, AllNonzero,
  log-Nonzero,
}

-- The numbers that ESP-IDF gives its levels.
pub record Levels : Type 0 where
  pub esp_log_error : ℕ
  pub esp_log_warn : ℕ
  pub esp_log_info : ℕ
  pub esp_log_debug : ℕ
  pub esp_log_verbose : ℕ

unfoldable pub log_level : Levels → Level → ℕ
log_level n error = n.esp_log_error
log_level n warn = n.esp_log_warn
log_level n info = n.esp_log_info
log_level n debug = n.esp_log_debug
log_level n trace = n.esp_log_verbose

-- What `esp_log_write` is given; a C string is its bytes with the NUL.
pub record EspLogWrite : Type 0 where
  pub level : ℕ
  pub tag : List ℕ
  pub fmt : List ℕ
  pub arg : List ℕ

-- `%s\n`
abbrev pub line_format : List ℕ
line_format = 37 ∷ 115 ∷ 10 ∷ 0 ∷ []

unfoldable pub esp_log : Levels → Level → List ℕ → List ℕ → EspLogWrite
esp_log n level tag message = record {
  level = log_level n level;
  tag = tag;
  fmt = line_format;
  arg = message;
}

-- The tag: the target if it is a static text, and else `rust-dynamic`.
abbrev pub tag_or : Option (List ℕ) → List ℕ
tag_or (some target) = target
tag_or none = 114 ∷ 117 ∷ 115 ∷ 116 ∷ 45 ∷ 100 ∷ 121 ∷ 110 ∷ 97 ∷ 109 ∷ 105 ∷ 99 ∷ []

-- `EspLog::log` up to the call, for the address of the target and the bounds of the static texts.
unfoldable pub log_record :
    Levels → ℕ → ℕ → ℕ → Level → List ℕ → List ℕ → List (List ℕ) → EspLogWrite
log_record n rodata_start rodata_end ptr level target timestamp args =
    esp_log n level (tag_or (static_str rodata_start rodata_end ptr target))
      (log level target timestamp args)

-- A C string up to its NUL.
abbrev pub c_string : List ℕ → List ℕ
c_string [] = []
c_string (x ∷ xs) = let rest = c_string xs in if x == 0 then [] else x ∷ rest

c_string-Nonzero : (xs : List ℕ) → Nonzero xs → c_string (xs ++ 0 ∷ []) ≡ xs
c_string-Nonzero [] h = refl
c_string-Nonzero (x ∷ xs) h = ground (arith, h, c_string-Nonzero xs h.1)

-- What C reads of the message is the line, cut to 299 bytes, if the texts that come from outside have
-- no NUL.
log_record-shows :
    (n : Levels) (rodata_start rodata_end ptr : ℕ) (level : Level) (target timestamp : List ℕ)
    (args : List (List ℕ))
    → Nonzero target
    → Nonzero timestamp
    → AllNonzero args
    → c_string (log_record n rodata_start rodata_end ptr level target timestamp args).arg
      ≡ take 299 (join (pieces level target timestamp args))
unfolding log_record esp_log
log_record-shows n rodata_start rodata_end ptr level target timestamp args a b c =
    let (message, no_nul, fits) = log-Nonzero level target timestamp args in
    ap c_string message
    ∙ c_string-Nonzero (take 299 (join (pieces level target timestamp args))) (no_nul a b c)
