-- ===== src/Sync/RingBuffer/Write.antt =====
-- `RingBuffer::write` appends to what the ring holds.
use bark_esp.Base.{
  ℕ, ◌+◌, ◌-◌, ◌%◌, ◌^◌, ◌≤◌, ◌<◌, min, ◌≡◌, refl, ap, sym, ◌∙◌, List, ◌++◌, arith, length, take,
  drop, blit, length-take, length-drop, take-all, drop-all, take-append-drop, take-min, drop-min,
  take-append-drop, add_usize, leb, dec_lt, overwrite-nil, Bool-cases, inl, inr,
}
use bark_esp.Sync.RingBuffer.{
  RingBuffer, Slice, buffer_len, writer_slices, copy_to_split, clamp_data, write,
}
use bark_esp.Sync.RingBuffer.Append.{Appends, Appends-behind, Appends-between, Appends-around}
use bark_esp.Sync.RingBuffer.Contents.{
  writer_slices_before, writer_slices_after, advance, advance_around, IsValid, free, contents,
  used_linear, used_wrapped,
}

module _ {ℓ} {A : Type ℓ} where
  clamp_data_lem :
      (src : List A) (available : ℕ)
      → clamp_data src available ≡ take (min (length src) (available - 1)) src
  clamp_data_lem src available = elim (Bool-cases (leb available (length src))) [
    | inl over ↦ rw over (ap (λ k. take k src) (ground arith))
    | inr fits ↦ rw fits (sym (take-all (min (length src) (available - 1)) src (ground arith)))
  ]

  -- Data that fit in the left slice go there; the rest goes to the right slice.
  copy_to_split_lem :
      (d : List A) (left right : Slice) (ring : List A)
      → length d ≤ left.len + right.len
      → copy_to_split d left right ring
        ≡ (blit (blit ring left.offset (take left.len d)) right.offset (drop left.len d), length d)
  unfolding copy_to_split
  copy_to_split_lem d left right ring h =
      rw
        (
          take-min left.len d,
          drop-min left.len d,
          take-all (min (length (drop left.len d)) right.len) (drop left.len d) all,
        )
        (ap
          (λ k. (blit (blit ring left.offset (take left.len d)) right.offset (drop left.len d), k))
          (omega (arith, length-drop left.len d)))
    where
      all : length (drop left.len d) ≤ min (length (drop left.len d)) right.len
      all = omega (arith, length-drop left.len d)

  -- `write` in terms of its slices and of the number of items that it takes.
  write_lem :
      (src : List A) (r : RingBuffer A) (left right : Slice) (n : ℕ)
      → writer_slices (buffer_len r) r.writer r.reader ≡ (left, right)
      → left.len + right.len < 2 ^ 32
      → n ≡ min (length src) (left.len + right.len - 1)
      → write src r ≡ (
        n,
        record r {
          buffer =
              blit
                (blit r.buffer left.offset (take left.len (take n src)))
                right.offset
                (drop left.len (take n src));
          writer = add_usize r.writer n % buffer_len r;
        },
      )
  unfolding write
  write_lem src r left right n e small count =
      rw (e, clamped, copy_to_split_lem (take n src) left right r.buffer fits, len) refl
    where
      len : length (take n src) ≡ n
      len = omega (arith, length-take n src)

      fits : length (take n src) ≤ left.len + right.len
      fits = omega (arith, len)

      clamped : clamp_data src (add_usize left.len right.len) ≡ take n src
      clamped =
          clamp_data_lem src (add_usize left.len right.len) ∙ ap (λ k. take k src) (omega arith)

  -- The number of items that a write takes.
  abbrev pub accepted : List A → RingBuffer A → ℕ
  accepted src r = min (length src) (free r)

  -- The three ways in which the data come to lie: between writer and reader, behind the writer
  -- up to the end, and behind the writer and again from the start.
  module _ (src : List A) (r : RingBuffer A) (v : IsValid r) where
    abbrev d : List A
    d = take (accepted src r) src

    length-d : length d ≡ accepted src r
    length-d = omega (arith, length-take (accepted src r) src)

    write_between :
        r.writer < r.reader
        → write src r ≡ (
          accepted src r,
          record r { buffer = blit r.buffer r.writer d; writer = r.writer + accepted src r },
        )
    write_between h =
        write_lem src r _ _ (accepted src r)
          (writer_slices_before (buffer_len r) r.writer r.reader h) (omega arith)
          (omega (arith, used_wrapped v h))
        ∙ rw (
          take-all (r.reader - r.writer) d (omega (arith, length-d, used_wrapped v h)),
          drop-all (r.reader - r.writer) d (omega (arith, length-d, used_wrapped v h)),
          overwrite-nil,
          advance (buffer_len r) r.writer (accepted src r) v.small
              (omega (arith, used_wrapped v h)),
        )

    write_behind :
        r.reader ≤ r.writer
        → r.writer + accepted src r < buffer_len r
        → write src r ≡ (
          accepted src r,
          record r { buffer = blit r.buffer r.writer d; writer = r.writer + accepted src r },
        )
    write_behind h k =
        write_lem src r _ _ (accepted src r)
          (writer_slices_after (buffer_len r) r.writer r.reader h) (omega arith)
          (omega (arith, used_linear v h))
        ∙ rw (
          take-all (buffer_len r - r.writer) d (omega (arith, length-d)),
          drop-all (buffer_len r - r.writer) d (omega (arith, length-d)),
          overwrite-nil,
          advance (buffer_len r) r.writer (accepted src r) v.small k,
        )

    write_around :
        r.reader ≤ r.writer
        → buffer_len r ≤ r.writer + accepted src r
        → write src r ≡ (
          accepted src r,
          record r {
            buffer =
                blit
                  (blit r.buffer r.writer (take (buffer_len r - r.writer) d))
                  0
                  (drop (buffer_len r - r.writer) d);
            writer = r.writer + accepted src r - buffer_len r;
          },
        )
    write_around h k =
        write_lem src r _ _ (accepted src r)
          (writer_slices_after (buffer_len r) r.writer r.reader h) (omega arith)
          (omega (arith, used_linear v h))
        ∙ rw (
            advance_around (buffer_len r) r.writer (accepted src r) v.small v.writer_in k
              (omega (arith, used_linear v h)))

    count-write : ((write src r).0 ≡ accepted src r) × ((write src r).1.reader ≡ r.reader)
    count-write = elim (dec_lt r.writer r.reader) [
      | yes ahead ↦ rw (write_between ahead) (refl, refl)
      | no behind ↦ elim (dec_lt (r.writer + accepted src r) (buffer_len r)) [
        | yes fits ↦ rw (write_behind (omega arith) fits) (refl, refl)
        | no over ↦ rw (write_around (omega arith) (omega arith)) (refl, refl)
      ]
    ]

    around :
        r.reader ≤ r.writer
        → buffer_len r ≤ r.writer + accepted src r
        → Appends r d (record r {
          buffer =
              blit
                (blit r.buffer r.writer (take (buffer_len r - r.writer) d))
                0
                (drop (buffer_len r - r.writer) d);
          writer = r.writer + accepted src r - buffer_len r;
        })
    around h over =
        rw
          (
            take-all (r.writer + accepted src r - buffer_len r) (drop room d) (omega (arith, len)),
            take-append-drop room d,
          )
          at
          (Appends-around r (take room d) (drop room d) (r.writer + accepted src r - buffer_len r) v
            h (omega (arith, length-take room d, length-d)) (omega (arith, len, used_linear v h))
            (omega (arith, len)) (omega (arith, used_linear v h)))
      where
        room : ℕ
        room = buffer_len r - r.writer

        len : length (drop room d) ≡ r.writer + accepted src r - buffer_len r
        len = omega (arith, length-drop room d, length-d)

    Appends-d : Appends r d (write src r).1
    Appends-d = elim (dec_lt r.writer r.reader) [
      | yes ahead ↦ rw (write_between ahead) (
          whole (
            Appends-between r d (accepted src r) v (omega (arith, length-d, used_wrapped v ahead))
              (omega (arith, length-d)) (omega (arith, used_wrapped v ahead))))
      | no behind ↦ elim (dec_lt (r.writer + accepted src r) (buffer_len r)) [
        | yes fits ↦ rw (write_behind (omega arith) fits) (
            whole (
              Appends-behind r d (accepted src r) v (omega arith) (omega (arith, length-d))
                (omega (arith, length-d)) fits))
        | no over ↦
            rw (write_around (omega arith) (omega arith)) (around (omega arith) (omega arith))
      ]
    ]
      where
        whole : {r' : RingBuffer A} → Appends r (take (accepted src r) d) r' → Appends r d r'
        whole {r'} a = rw (take-all (accepted src r) d (omega (arith, length-d))) at a

  -- From valid indices, `write` takes as many items as there is free room for, which is one slot
  -- less than the empty slots; it appends exactly those, in order, to what the ring holds, leaves
  -- the reader's index alone and keeps the indices valid.
  pub write_refines :
      (src : List A) {r : RingBuffer A}
      → IsValid r
      → let (n, r') = write src r in
        (n ≡ min (length src) (free r))
        × IsValid r'
        × (contents r' ≡ contents r ++ take n src)
        × (r'.reader ≡ r.reader)
        × (buffer_len r' ≡ buffer_len r)
  write_refines src {r} v =
      let a = Appends-d src r v in
      let c = count-write src r v in (c.0, a.valid, rw c.0 a.appended, c.1, a.same_len)
