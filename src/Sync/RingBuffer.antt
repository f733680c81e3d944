-- ===== src/Sync/RingBuffer.antt =====
-- The lock-free ring buffer, src/sync/ringbuffer.rs. An operation is given the state that it
-- loads and returns the state that it stores; `N` is the length of the buffer. A slice into the
-- ring is an offset and a length.
pub mod Contents
pub mod Append
pub mod Write
pub mod Read
pub mod Fill
pub mod Interleaved
use bark_esp.Base.{
  ℕ, ◌+◌, ◌-◌, ◌%◌, min, List, Bool, true, false, leb, ltb, if◌then◌else◌, length, take, drop,
  replicate, blit, add_usize,
}

pub record RingBuffer {ℓ} (A : Type ℓ) : Type ℓ where
  pub reader : ℕ
  pub writer : ℕ
  pub buffer : List A

pub record Slice : Type 0 where
  pub offset : ℕ
  pub len : ℕ

-- `slice::from_raw_parts(ring.add(offset), len)`
abbrev pub from_raw_parts : ℕ → ℕ → Slice
from_raw_parts offset len = record { offset = offset; len = len }

abbrev pub empty_slice : Slice
empty_slice = record { offset = 0; len = 0 }

unfoldable pub reader_slices : ℕ → ℕ → ℕ → Slice × Slice
reader_slices length start end =
    if leb start end
    then (from_raw_parts start (end - start), empty_slice)
    else (from_raw_parts start (length - start), from_raw_parts 0 end)

unfoldable pub writer_slices : ℕ → ℕ → ℕ → Slice × Slice
writer_slices length start end =
    if ltb start end
    then (from_raw_parts start (end - start), empty_slice)
    else (from_raw_parts start (length - start), from_raw_parts 0 end)

module _ {ℓ} {A : Type ℓ} where
  -- What a shared reference to the slice reads.
  abbrev pub view : List A → Slice → List A
  view ring s = take s.len (drop s.offset ring)

  abbrev pub buffer_len : RingBuffer A → ℕ
  buffer_len r = length r.buffer

  unfoldable pub new_with_buffer : List A → RingBuffer A
  new_with_buffer buffer = record { reader = 0; writer = 0; buffer = buffer }

  unfoldable pub reset : RingBuffer A → RingBuffer A
  reset r = record r { reader = 0; writer = 0 }

  -- The two slices are disjoint parts of `ring`.
  unfoldable pub copy_to_split : List A → Slice → Slice → List A → List A × ℕ
  copy_to_split src left right ring =
      let nleft = min (length src) left.len in
      let ring' = blit ring left.offset (take nleft src) in
      let src' = drop nleft src in
      let nright = min (length src') right.len in
      (blit ring' right.offset (take nright src'), nleft + nright)

  -- `dst` is the caller's buffer, returned with what was copied into it.
  unfoldable pub copy_from_split : List A → List A → List A → List A × ℕ
  copy_from_split left right dst =
      let nleft = min (length dst) (length left) in
      let dst' = blit dst 0 (take nleft left) in
      let nright = min (length dst - nleft) (length right) in
      (blit dst' nleft (take nright right), nleft + nright)

  -- `func` returns the number of items it read, beside what it produces.
  unfoldable pub read_in_place {κ} :
      {B : Type κ} → (List A → List A → B × ℕ) → RingBuffer A → B × ℕ × RingBuffer A
  read_in_place func r =
      let (left, right) = reader_slices (buffer_len r) r.reader r.writer in
      let (out, copied) = func (view r.buffer left) (view r.buffer right) in
      (out, copied, record r { reader = add_usize r.reader copied % buffer_len r })

  unfoldable pub read : List A → RingBuffer A → List A × ℕ × RingBuffer A
  read dst r = read_in_place (λ left right. copy_from_split left right dst) r

  -- What `write` sends: never so much that `reader == writer` would come to mean full.
  abbrev pub clamp_data : List A → ℕ → List A
  clamp_data src available = if leb available (length src) then take (available - 1) src else src

  unfoldable pub write : List A → RingBuffer A → ℕ × RingBuffer A
  write src r =
      let (left, right) = writer_slices (buffer_len r) r.writer r.reader in
      let available = add_usize left.len right.len in
      let (ring, copied) = copy_to_split (clamp_data src available) left right r.buffer in
      (copied, record r { buffer = ring; writer = add_usize r.writer copied % buffer_len r })

  -- `left.fill(value); right.fill(value)`
  unfoldable pub fill : A → RingBuffer A → RingBuffer A
  fill value r =
      let (left, right) = writer_slices (buffer_len r) r.writer r.reader in
      let ring = blit r.buffer left.offset (replicate left.len value) in
      let ring' = blit ring right.offset (replicate right.len value) in
      let copied = add_usize left.len right.len - 1 in
      record r { buffer = ring'; writer = add_usize r.writer copied % buffer_len r }
