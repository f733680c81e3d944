-- ===== src/Sync/RingBuffer/Append.antt =====
-- What a ring holds after data were laid behind its writer and the writer moved on.
use bark_esp.Base.{
  ℕ, ◌+◌, ◌-◌, ◌≤◌, ◌<◌, ◌≡◌, ap, ap₂, sym, ◌∙◌, List, ◌++◌, arith, length, take, drop, blit,
  length-drop, length-blit, take-blit, drop-blit_above, drop-blit, take-all, append_assoc,
}
use bark_esp.Sync.RingBuffer.{RingBuffer, buffer_len}
use bark_esp.Sync.RingBuffer.Contents.{IsValid, contents, contents_linear, contents_wrapped}

module _ {ℓ} {A : Type ℓ} where
  -- The ring `r'` is `r` with `d` put at its end.
  pub record Appends (r : RingBuffer A) (d : List A) (r' : RingBuffer A) : Type ℓ where
    pub valid : IsValid r'
    pub appended : contents r' ≡ contents r ++ d
    pub same_len : buffer_len r' ≡ buffer_len r

  -- In each lemma the writer may stop short of the end of the data: `k` items of them count.
  pub Appends-behind :
      (r : RingBuffer A) (d : List A) (k : ℕ)
      → IsValid r
      → r.reader ≤ r.writer
      → r.writer + length d ≤ buffer_len r
      → k ≤ length d
      → r.writer + k < buffer_len r
      → Appends r (take k d) (record r { buffer = blit r.buffer r.writer d; writer = r.writer + k })
  Appends-behind r d k v h room le fits = record {
    valid = valid;
    appended =
        contents_linear valid (omega arith)
        ∙ rw (drop-blit r.buffer r.reader r.writer d h) (
            ap (λ j. take j (blit (drop r.reader r.buffer) (r.writer - r.reader) d)) (omega arith)
            ∙ take-blit (drop r.reader r.buffer) (r.writer - r.reader) d k
                (omega (arith, length-drop r.reader r.buffer)) le
            ∙ ap (λ xs. xs ++ take k d) (sym (contents_linear v h)));
    same_len = length-blit r.buffer r.writer d;
  }
    where
      valid : IsValid (record r { buffer = blit r.buffer r.writer d; writer = r.writer + k })
      valid = omega (arith, length-blit r.buffer r.writer d)

  pub Appends-between :
      (r : RingBuffer A) (d : List A) (k : ℕ)
      → IsValid r
      → r.writer + length d ≤ r.reader
      → k ≤ length d
      → r.writer + k < r.reader
      → Appends r (take k d) (record r { buffer = blit r.buffer r.writer d; writer = r.writer + k })
  Appends-between r d k v room le fits = record {
    valid = valid;
    appended =
        contents_wrapped valid fits
        ∙ rw
            (
              drop-blit_above r.buffer r.reader r.writer d room,
              take-blit r.buffer r.writer d k (omega arith) le,
              contents_wrapped v (omega arith),
            )
            (sym (append_assoc (drop r.reader r.buffer) (take r.writer r.buffer) (take k d)));
    same_len = length-blit r.buffer r.writer d;
  }
    where
      valid : IsValid (record r { buffer = blit r.buffer r.writer d; writer = r.writer + k })
      valid = omega (arith, length-blit r.buffer r.writer d)

  pub Appends-around :
      (r : RingBuffer A) (d1 d2 : List A) (k : ℕ)
      → IsValid r
      → r.reader ≤ r.writer
      → r.writer + length d1 ≡ buffer_len r
      → length d2 ≤ r.reader
      → k ≤ length d2
      → k < r.reader
      → Appends r
          (d1 ++ take k d2)
          (record r { buffer = blit (blit r.buffer r.writer d1) 0 d2; writer = k })
  Appends-around r d1 d2 k v h full room le fits = record {
    valid = valid;
    appended =
        contents_wrapped valid fits
        ∙ ap₂ ◌++◌ left right
        ∙ append_assoc (take (r.writer - r.reader) rest) d1 (take k d2)
        ∙ ap (λ xs. xs ++ (d1 ++ take k d2)) (sym (contents_linear v h));
    same_len = len;
  }
    where
      ring : List A
      ring = blit r.buffer r.writer d1

      len : length (blit ring 0 d2) ≡ buffer_len r
      len = length-blit ring 0 d2 ∙ length-blit r.buffer r.writer d1

      valid : IsValid (record r { buffer = blit ring 0 d2; writer = k })
      valid = omega (arith, len)

      rest : List A
      rest = drop r.reader r.buffer

      start : ℕ
      start = r.writer - r.reader

      left : drop r.reader (blit ring 0 d2) ≡ take start rest ++ d1
      left =
          drop-blit_above ring r.reader 0 d2 (omega arith)
          ∙ drop-blit r.buffer r.reader r.writer d1 h
          ∙ sym (
              take-all (start + length d1) (blit rest start d1)
                (omega (arith, length-blit rest start d1, length-drop r.reader r.buffer)))
          ∙ take-blit rest start d1 (length d1) (omega (arith, length-drop r.reader r.buffer))
              (omega arith)
          ∙ ap (λ xs. take start rest ++ xs) (take-all (length d1) d1 (omega arith))

      right : take k (blit ring 0 d2) ≡ take k d2
      right =
          ap (λ j. take j (blit ring 0 d2)) (omega arith)
          ∙ take-blit ring 0 d2 k (omega (arith, length-blit r.buffer r.writer d1)) le
