-- ===== src/Sync/RingBuffer/Read.antt =====
-- `RingBuffer::read` and `RingBuffer::read_in_place` take from the front of what the ring holds.
use bark_esp.Base.{
  ℕ, ◌+◌, ◌-◌, ◌%◌, ◌≤◌, ◌<◌, min, ◌≡◌, refl, ap, ap₂, sym, ◌∙◌, List, ◌++◌, arith, length, take,
  drop, length-drop, length-append, take-all, add_usize, dec_lt, append-nil, blit, overwrite,
  overwrite-nil, zero, suc, [], ◌∷◌, drop-nil, drop-append_left, drop-append_right, drop-drop,
  drop-take,
}
use native.Mathlib.Nat.{mod-lt, zero-add, suc-add}
use bark_esp.Sync.RingBuffer.{
  RingBuffer, buffer_len, reader_slices, copy_from_split, read, read_in_place, view,
}
use bark_esp.Sync.RingBuffer.Contents.{
  IsValid, used, contents, used_linear, used_wrapped, contents_linear, contents_wrapped,
  length-contents, reader_slices_before, reader_slices_after, advance, advance_around,
}

module _ {ℓ} {A : Type ℓ} where
  abbrev pub left_view : RingBuffer A → List A
  left_view r = view r.buffer (reader_slices (buffer_len r) r.reader r.writer).0

  abbrev pub right_view : RingBuffer A → List A
  right_view r = view r.buffer (reader_slices (buffer_len r) r.reader r.writer).1

  -- The two slices that a reader sees are, one after the other, what the ring holds.
  views-eq-contents : (r : RingBuffer A) → IsValid r → left_view r ++ right_view r ≡ contents r
  views-eq-contents r v = elim (dec_lt r.writer r.reader) [
    | yes h ↦
        rw
          (
            reader_slices_after (buffer_len r) r.reader r.writer h,
            take-all (buffer_len r - r.reader) (drop r.reader r.buffer)
                (omega (arith, length-drop r.reader r.buffer)),
          )
          (sym (contents_wrapped v h))
    | no h ↦
        rw (reader_slices_before (buffer_len r) r.reader r.writer (omega arith), append-nil)
          (sym (contents_linear v (omega arith)))
  ]

  -- The reader's index moved over `k` of the items held.
  abbrev pub consume : ℕ → RingBuffer A → RingBuffer A
  consume k r = record r { reader = add_usize r.reader k % buffer_len r }

  pub consume-IsValid : (k : ℕ) {r : RingBuffer A} → IsValid r → IsValid (consume k r)
  consume-IsValid k {r} v = record {
    reader_in = mod-lt (add_usize r.reader k) {m = buffer_len r} (omega arith);
    writer_in = v.writer_in;
    small = v.small;
  }

  -- Reading `k` items off a ring that does not wrap, off the part of one up to the end of the
  -- buffer, and off that part and the next.
  module _ (k : ℕ) (r : RingBuffer A) (v : IsValid r) (h : k ≤ used r) where
    abbrev rest : List A
    rest = drop r.reader r.buffer

    consume_linear : r.reader ≤ r.writer → contents (consume k r) ≡ drop k (contents r)
    consume_linear l =
        contents_linear (consume-IsValid k v) (omega (arith, at, used_linear v l))
        ∙ rw
            (
              at,
              contents_linear v l,
              drop-take k (r.writer - r.reader) rest,
              drop-drop k r.reader r.buffer,
            )
            (ap (λ j. take j (drop (r.reader + k) r.buffer)) (omega arith))
      where
        at : add_usize r.reader k % buffer_len r ≡ r.reader + k
        at = advance (buffer_len r) r.reader k v.small (omega (arith, used_linear v l))

    consume_before_end :
        r.writer < r.reader
        → r.reader + k < buffer_len r
        → contents (consume k r) ≡ drop k (contents r)
    consume_before_end w b =
        contents_wrapped (consume-IsValid k v) (omega (arith, at))
        ∙ rw (
          at,
          contents_wrapped v w,
          drop-append_left k rest (take r.writer r.buffer)
              (omega (arith, length-drop r.reader r.buffer)),
          drop-drop k r.reader r.buffer,
        )
      where
        at : add_usize r.reader k % buffer_len r ≡ r.reader + k
        at = advance (buffer_len r) r.reader k v.small b

    consume_past_end :
        r.writer < r.reader
        → buffer_len r ≤ r.reader + k
        → contents (consume k r) ≡ drop k (contents r)
    consume_past_end w b =
        contents_linear (consume-IsValid k v) (omega (arith, at, used_wrapped v w))
        ∙ rw (at, contents_wrapped v w)
            (sym (
              ap (λ j. drop j (rest ++ take r.writer r.buffer))
                (omega (arith, length-drop r.reader r.buffer))
              ∙ drop-append_right over rest (take r.writer r.buffer)
              ∙ drop-take over r.writer r.buffer))
      where
        over : ℕ
        over = r.reader + k - buffer_len r

        at : add_usize r.reader k % buffer_len r ≡ over
        at =
            advance_around (buffer_len r) r.reader k v.small v.reader_in b
              (omega (arith, used_wrapped v w))

    pub contents-consume : contents (consume k r) ≡ drop k (contents r)
    contents-consume = elim (dec_lt r.writer r.reader) [
      | no l ↦ consume_linear (omega arith)
      | yes w ↦ elim (dec_lt (r.reader + k) (buffer_len r)) [
        | yes b ↦ consume_before_end w b
        | no b ↦ consume_past_end w (omega arith)
      ]
    ]

  -- Whatever the callback does, if it reports no more items than the two slices that it is given
  -- hold, it is handed the whole contents in order, just the reported number of items is taken
  -- from the front, and the ring stays valid with its writer and its buffer as they were.
  pub read_in_place_refines {κ} :
      {B : Type κ} (func : List A → List A → B × ℕ) {r : RingBuffer A}
      → IsValid r
      → ((left right : List A) → (func left right).1 ≤ length left + length right)
      → let (out, n, r') = read_in_place func r in
        (left right : List A) × (left ++ right ≡ contents r)
        × ((out, n) ≡ func left right)
        × (contents r' ≡ drop n (contents r))
        × IsValid r'
        × (r'.writer ≡ r.writer)
        × (r'.buffer ≡ r.buffer)
  unfolding read_in_place
  read_in_place_refines func {r} v bound =
      let n = (func (left_view r) (right_view r)).1 in
      let fits : n ≤ used r = omega (
        arith,
        bound (left_view r) (right_view r),
        length-append (left_view r) (right_view r),
        ap length (views-eq-contents r v),
        length-contents v,
      ) in
      (
        left_view r,
        right_view r,
        views-eq-contents r v,
        refl,
        contents-consume n r v fits,
        consume-IsValid n v,
        refl,
        refl,
      )

  overwrite_lem :
      (dst src : List A) (n : ℕ)
      → n ≡ min (length dst) (length src)
      → overwrite dst (take n src) ≡ take (length dst) src ++ drop (length src) dst
  overwrite_lem [] src zero e = rw drop-nil
  overwrite_lem [] src (suc n) e = absurd (omega arith)
  overwrite_lem (y ∷ dst) [] zero e = refl
  overwrite_lem (y ∷ dst) [] (suc n) e = absurd (omega arith)
  overwrite_lem (y ∷ dst) (x ∷ src) zero e = absurd (omega arith)
  overwrite_lem (y ∷ dst) (x ∷ src) (suc n) e =
      ap (λ t. x ∷ t) (overwrite_lem dst src n (omega arith))

  blit_both :
      (left right dst : List A) (m n : ℕ)
      → m ≡ min (length dst) (length left)
      → n ≡ min (length dst - m) (length right)
      → blit (overwrite dst (take m left)) m (take n right)
        ≡ take (length dst) (left ++ right) ++ drop (length left + length right) dst
  blit_both [] right dst zero n e f =
      rw (overwrite-nil, zero-add) (overwrite_lem dst right n (omega arith))
  blit_both [] right dst (suc m) n e f = absurd (omega arith)
  blit_both (x ∷ left) right [] zero n e f = rw drop-nil
  blit_both (x ∷ left) right [] (suc m) n e f = absurd (omega arith)
  blit_both (x ∷ left) right (y ∷ dst) zero n e f = absurd (omega arith)
  blit_both (x ∷ left) right (y ∷ dst) (suc m) n e f =
      rw suc-add (ap (λ t. x ∷ t) (blit_both left right dst m n (omega arith) (omega arith)))

  pub copy_from_split_lem :
      (left right dst : List A)
      → copy_from_split left right dst ≡ (
        take (length dst) (left ++ right) ++ drop (length left + length right) dst,
        min (length dst) (length left + length right),
      )
  unfolding copy_from_split
  copy_from_split_lem left right dst =
      ap₂ (λ a b. (a, b)) (blit_both left right dst _ _ refl refl) (omega arith)

  copy_contents :
      (left right dst : List A) {r : RingBuffer A}
      → IsValid r
      → left ++ right ≡ contents r
      → copy_from_split left right dst
        ≡ (take (length dst) (contents r) ++ drop (used r) dst, min (length dst) (used r))
  copy_contents left right dst {r} v e = copy_from_split_lem left right dst ∙ rw (e, held)
    where
      held : length left + length right ≡ used r
      held = omega (arith, length-append left right, ap length e, length-contents v)

  copy_from_split-le :
      (left right dst : List A) → (copy_from_split left right dst).1 ≤ length left + length right
  copy_from_split-le left right dst = rw (copy_from_split_lem left right dst) (omega arith)

  -- `read` fills its buffer with the oldest items, as many as there are or fit, leaves the rest
  -- of it alone, returns their number, and takes just those from the ring, which stays valid.
  pub read_refines :
      (dst : List A) {r : RingBuffer A}
      → IsValid r
      → let (out, n, r') = read dst r in
        (out ≡ take (length dst) (contents r) ++ drop (used r) dst)
        × (n ≡ min (length dst) (used r))
        × (contents r' ≡ drop n (contents r))
        × IsValid r'
        × (r'.writer ≡ r.writer)
        × (r'.buffer ≡ r.buffer)
  unfolding read
  read_refines dst {r} v =
      let (left, right, all, e, rest, valid, same_writer, same_buffer) =
        read_in_place_refines (λ left right. copy_from_split left right dst) v
          (λ left right. copy_from_split-le left right dst) in
      let copied = e ∙ copy_contents left right dst v all in
      (ap (λ p. p.0) copied, ap (λ p. p.1) copied, rest, valid, same_writer, same_buffer)
