-- ===== src/Sync/RingBuffer/Fill.antt =====
-- `RingBuffer::fill` and `RingBuffer::reset`, as `Dac::new` uses them.
use bark_esp.Base.{
  ℕ, ◌+◌, ◌-◌, ◌%◌, ◌≤◌, ◌<◌, ◌≡◌, ap, ◌∙◌, [], ◌++◌, arith, length, length-append, take, blit,
  replicate, overwrite-nil, add_usize, dec_lt, ℕ_discrete, length-replicate, take-replicate,
  replicate-append, ◌^◌,
}
use bark_esp.Sync.RingBuffer.{RingBuffer, Slice, buffer_len, writer_slices, fill, reset}
use bark_esp.Sync.RingBuffer.Append.{Appends, Appends-behind, Appends-between, Appends-around}
use bark_esp.Sync.RingBuffer.Contents.{
  IsValid, used, free, contents, length-contents, used_linear, used_wrapped, writer_slices_before,
  writer_slices_after, advance, advance_around,
}

module _ {ℓ} {A : Type ℓ} (value : A) where
  fill_lem :
      (r : RingBuffer A) (left right : Slice)
      → writer_slices (buffer_len r) r.writer r.reader ≡ (left, right)
      → left.len + right.len < 2 ^ 32
      → fill value r ≡ record r {
        buffer =
            blit
              (blit r.buffer left.offset (replicate left.len value))
              right.offset
              (replicate right.len value);
        writer = add_usize r.writer (left.len + right.len - 1) % buffer_len r;
      }
  unfolding fill
  fill_lem r left right e small = rw (e, total)
    where
      total : add_usize left.len right.len ≡ left.len + right.len
      total = omega arith

  -- The writer of a filled ring comes to lie right behind the reader.
  module _ (r : RingBuffer A) (v : IsValid r) where
    abbrev Fills : Type ℓ
    Fills = Appends r (replicate (free r) value) (fill value r)

    taken : (k n : ℕ) → k ≤ n → k ≡ free r → take k (replicate n value) ≡ replicate (free r) value
    taken k n h e = take-replicate k n value h ∙ ap (λ j. replicate j value) e

    fill_between : r.writer < r.reader → Fills
    fill_between h =
        rw
          (
            fill_lem r _ _ (writer_slices_before (buffer_len r) r.writer r.reader h)
                (omega (arith, v.small)),
            overwrite-nil,
            advance (buffer_len r) r.writer (r.reader - r.writer + 0 - 1) v.small (omega arith),
            ← taken (r.reader - r.writer + 0 - 1) (r.reader - r.writer) (omega arith)
                (omega (arith, used_wrapped v h)),
          )
          (Appends-between r (replicate (r.reader - r.writer) value) _ v
            (omega (arith, length-replicate (r.reader - r.writer) value))
            (omega (arith, length-replicate (r.reader - r.writer) value)) (omega arith))

    fill_behind : r.reader ≡ 0 → Fills
    fill_behind z =
        rw
          (
            fill_lem r _ _ (writer_slices_after (buffer_len r) r.writer r.reader (omega arith))
                (omega (arith, v.small)),
            advance (buffer_len r) r.writer (buffer_len r - r.writer + r.reader - 1) v.small
                (omega arith),
            none_right,
            overwrite-nil,
            ← taken (buffer_len r - r.writer + r.reader - 1) (buffer_len r - r.writer) (omega arith)
                (omega (arith, used_linear v (omega arith))),
          )
          (Appends-behind r (replicate (buffer_len r - r.writer) value) _ v (omega arith)
            (omega (arith, length-replicate (buffer_len r - r.writer) value))
            (omega (arith, length-replicate (buffer_len r - r.writer) value)) (omega arith))
      where
        none_right : replicate r.reader value ≡ []
        none_right = ap (λ k. replicate k value) z

    fill_around : r.reader ≤ r.writer → 0 < r.reader → Fills
    fill_around h pos =
        rw
          (
            fill_lem r _ _ (writer_slices_after (buffer_len r) r.writer r.reader h)
                (omega (arith, v.small)),
            advance_around (buffer_len r) r.writer (buffer_len r - r.writer + r.reader - 1) v.small
                v.writer_in (omega arith) (omega arith),
            at,
          )
          (rw both at (
            Appends-around r (replicate (buffer_len r - r.writer) value) (replicate r.reader value)
              (r.reader - 1) v h (omega (arith, length-replicate (buffer_len r - r.writer) value))
              (omega (arith, length-replicate r.reader value))
              (omega (arith, length-replicate r.reader value)) (omega arith)))
      where
        at : r.writer + (buffer_len r - r.writer + r.reader - 1) - buffer_len r ≡ r.reader - 1
        at = omega arith

        both :
            replicate (buffer_len r - r.writer) value
              ++ take (r.reader - 1) (replicate r.reader value)
            ≡ replicate (free r) value
        both =
            rw (take-replicate (r.reader - 1) r.reader value (omega arith), replicate-append)
              (ap (λ k. replicate k value) (omega (arith, used_linear v h)))

    Appends-fill : Fills
    Appends-fill = elim (dec_lt r.writer r.reader) [
      | yes h ↦ fill_between h
      | no h ↦ elim (ℕ_discrete r.reader 0) [
        | yes z ↦ fill_behind z
        | no p ↦ fill_around (omega arith) (omega arith)
      ]
    ]

  reset-IsValid : {r : RingBuffer A} → IsValid r → IsValid (reset r)
  unfolding reset
  reset-IsValid {r} v = record {
    reader_in = omega (arith, v.reader_in);
    writer_in = omega (arith, v.reader_in);
    small = v.small;
  }

  used-reset : {r : RingBuffer A} → IsValid r → used (reset r) ≡ 0
  unfolding reset
  used-reset {r} v = used_linear (reset-IsValid v) (omega arith)

  -- `fill` appends copies of the value until one slot is left, so that the next write takes
  -- nothing, and keeps the ring valid.
  pub fill_refines :
      {r : RingBuffer A}
      → IsValid r
      → let r' = fill value r in
        IsValid r'
        × (contents r' ≡ contents r ++ replicate (free r) value)
        × (free r' ≡ 0)
        × (buffer_len r' ≡ buffer_len r)
  fill_refines {r} v =
      let a = Appends-fill r v in
      (
        a.valid,
        a.appended,
        omega (
          arith,
          length-contents a.valid,
          length-contents v,
          ap length a.appended,
          length-append (contents r) (replicate (free r) value),
          length-replicate (free r) value,
          a.same_len,
        ),
        a.same_len,
      )

  -- A ring that is reset and then filled, as a new DAC does it, holds nothing but the value, in
  -- all its slots but one, whatever it held before.
  fill-reset :
      {r : RingBuffer A}
      → IsValid r
      → contents (fill value (reset r)) ≡ replicate (buffer_len r - 1) value
  unfolding reset
  fill-reset {r} v =
      (Appends-fill (reset r) (reset-IsValid v)).appended
      ∙ rw (used-reset v) (ap (λ k. replicate k value) same)
    where
      same : buffer_len (reset r) - 1 - 0 ≡ buffer_len r - 1
      same = omega arith
