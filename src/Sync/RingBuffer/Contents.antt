-- ===== src/Sync/RingBuffer/Contents.antt =====
-- What a ring holds, oldest first, read off a ring laid out twice in a row.
use bark_esp.Base.{
  ℕ, ◌+◌, ◌-◌, ◌%◌, ◌^◌, ◌≤◌, ◌<◌, ◌≡◌, ap, ◌∙◌, List, ◌++◌, arith, length, take, drop,
  length-append, length-take, length-drop, drop-append_left, take-append_left, take-append_right,
  lt→ltb, add_usize,
}
use native.Mathlib.Nat.{mod-lt}
use bark_esp.Sync.RingBuffer.{
  RingBuffer, buffer_len, reader_slices, writer_slices, from_raw_parts, empty_slice,
}

pub writer_slices_before :
    (n start end : ℕ)
    → start < end
    → writer_slices n start end ≡ (from_raw_parts start (end - start), empty_slice)
unfolding writer_slices
writer_slices_before n start end h = rw (lt→ltb start end h)

pub writer_slices_after :
    (n start end : ℕ)
    → end ≤ start
    → writer_slices n start end ≡ (from_raw_parts start (n - start), from_raw_parts 0 end)
unfolding writer_slices
writer_slices_after n start end h = ground arith

pub reader_slices_before :
    (n start end : ℕ)
    → start ≤ end
    → reader_slices n start end ≡ (from_raw_parts start (end - start), empty_slice)
unfolding reader_slices
reader_slices_before n start end h = ground arith

pub reader_slices_after :
    (n start end : ℕ)
    → end < start
    → reader_slices n start end ≡ (from_raw_parts start (n - start), from_raw_parts 0 end)
unfolding reader_slices
reader_slices_after n start end h = ground arith

-- An index moved on, within the buffer and round its end.
pub advance : (n i k : ℕ) → n ≤ 2 ^ 31 → i + k < n → add_usize i k % n ≡ i + k
advance n i k small h = grind arith

pub advance_around :
    (n i k : ℕ) → n ≤ 2 ^ 31 → i < n → n ≤ i + k → k < n → add_usize i k % n ≡ i + k - n
advance_around n i k small h lo hi = grind arith

module _ {ℓ} {A : Type ℓ} where
  -- The indices lie in the buffer, whose length is at most half of the address space.
  pub record IsValid (r : RingBuffer A) : Type 0 where
    pub reader_in : r.reader < buffer_len r
    pub writer_in : r.writer < buffer_len r
    pub small : buffer_len r ≤ 2 ^ 31

  -- The number of items held, counted round the ring.
  abbrev pub used : RingBuffer A → ℕ
  used r = (r.writer + buffer_len r - r.reader) % buffer_len r

  abbrev pub free : RingBuffer A → ℕ
  free r = buffer_len r - 1 - used r

  abbrev pub contents : RingBuffer A → List A
  contents r = take (used r) (drop r.reader (r.buffer ++ r.buffer))

  pub used_linear :
      {r : RingBuffer A} → IsValid r → r.reader ≤ r.writer → used r ≡ r.writer - r.reader
  used_linear {r} v h = grind arith

  pub used_wrapped :
      {r : RingBuffer A}
      → IsValid r
      → r.writer < r.reader
      → used r ≡ r.writer + buffer_len r - r.reader
  used_wrapped {r} v h = grind arith

  pub contents_linear :
      {r : RingBuffer A}
      → IsValid r
      → r.reader ≤ r.writer
      → contents r ≡ take (r.writer - r.reader) (drop r.reader r.buffer)
  contents_linear {r} v h =
      rw (used_linear v h, drop-append_left r.reader r.buffer r.buffer (omega arith))
        (take-append_left (r.writer - r.reader) (drop r.reader r.buffer) r.buffer
          (omega (arith, length-drop r.reader r.buffer)))

  pub contents_wrapped :
      {r : RingBuffer A}
      → IsValid r
      → r.writer < r.reader
      → contents r ≡ drop r.reader r.buffer ++ take r.writer r.buffer
  contents_wrapped {r} v h =
      ap (λ k. take k (drop r.reader (r.buffer ++ r.buffer))) count
      ∙ ap (take (length (drop r.reader r.buffer) + r.writer))
          (drop-append_left r.reader r.buffer r.buffer (omega arith))
      ∙ take-append_right r.writer (drop r.reader r.buffer) r.buffer
    where
      count : used r ≡ length (drop r.reader r.buffer) + r.writer
      count = omega (arith, used_wrapped v h, length-drop r.reader r.buffer)

  pub length-contents : {r : RingBuffer A} → IsValid r → length (contents r) ≡ used r
  length-contents {r} v = omega (
    arith,
    length-take (used r) (drop r.reader (r.buffer ++ r.buffer)),
    length-drop r.reader (r.buffer ++ r.buffer),
    length-append r.buffer r.buffer,
    mod-lt (r.writer + buffer_len r - r.reader) {m = buffer_len r} (omega arith),
  )

  abbrev pub SlicesInBounds : RingBuffer A → Type 0
  SlicesInBounds r =
      let (rl, rr) = reader_slices (buffer_len r) r.reader r.writer in
      let (wl, wr) = writer_slices (buffer_len r) r.writer r.reader in
      (rl.offset + rl.len ≤ buffer_len r)
      × (rr.offset + rr.len ≤ buffer_len r)
      × (wl.offset + wl.len ≤ buffer_len r)
      × (wr.offset + wr.len ≤ buffer_len r)
      × (rl.len + rr.len ≡ used r)
      × (wl.len + wr.len + used r ≡ buffer_len r)

  -- From valid indices, the raw slices that a reader and a writer are handed lie in the buffer;
  -- the reader's cover what is held, and the writer's all the other slots.
  pub slices_in_bounds : {r : RingBuffer A} → IsValid r → SlicesInBounds r
  unfolding reader_slices writer_slices
  slices_in_bounds {r} v = ground (arith, used_linear v, used_wrapped v)
