-- ===== src/Sync/RingBuffer/Interleaved/Views.antt =====
-- What each side sees through an index of the other's that has since moved on.
use bark_esp.Base.{
  ℕ, ◌+◌, ◌-◌, ◌%◌, ◌^◌, ◌≤◌, ◌<◌, ◌≡◌, sym, ap, ◌∙◌, ◌++◌, length, take, drop, arith, add_usize,
  dec_lt, length-drop, take-take,
}
use bark_esp.Sync.RingBuffer.{RingBuffer, buffer_len}
use bark_esp.Sync.RingBuffer.Contents.{
  IsValid, used, contents, advance, advance_around, length-contents,
}
use bark_esp.Sync.RingBuffer.Read.{contents-consume, consume-IsValid}

-- An index moved twice.
pub advance_twice :
    (n i k j : ℕ)
    → n ≤ 2 ^ 31
    → i < n
    → k + j < n
    → add_usize (add_usize i k % n) j % n ≡ add_usize i (k + j) % n
advance_twice n i k j small lt le = elim (dec_lt (i + k) n) [
  | yes a ↦ rw (advance n i k small a) (elim (dec_lt (i + k + j) n) [
    | yes b ↦
        advance n (i + k) j small b ∙ sym (advance n i (k + j) small (omega arith) ∙ omega arith)
    | no b ↦
        advance_around n (i + k) j small a (omega arith) (omega arith)
        ∙ sym (advance_around n i (k + j) small lt (omega arith) le ∙ omega arith)
  ])
  | no a ↦ rw (advance_around n i k small lt (omega arith) (omega arith)) (
      advance n (i + k - n) j small (omega arith)
      ∙ sym (advance_around n i (k + j) small lt (omega arith) le ∙ omega arith))
]

module _ {ℓ} {A : Type ℓ} where
  -- A reader that loaded the writer's index `w` earlier sees the older part.
  pub contents_early :
      (r : RingBuffer A) (w : ℕ)
      → used (record r { writer = w }) ≤ used r
      → contents (record r { writer = w }) ≡ take (used (record r { writer = w })) (contents r)
  contents_early r w le = sym (
      take-take (used (record r { writer = w })) (used r) (drop r.reader (r.buffer ++ r.buffer)) le)

  -- The ring with its reader's index as the writer loaded it: `k` items were read since.
  pub record IsStale (reader k : ℕ) (r : RingBuffer A) : Type ℓ where
    pub valid : IsValid (record r { reader = reader })
    pub within : k ≤ used (record r { reader = reader })
    pub moved : r.reader ≡ add_usize reader k % buffer_len r

  pub stale-IsValid : {reader k : ℕ} (r : RingBuffer A) → IsStale reader k r → IsValid r
  stale-IsValid {reader} {k} r v = record {
    reader_in = rw v.moved (consume-IsValid k v.valid).reader_in;
    writer_in = v.valid.writer_in;
    small = v.valid.small;
  }

  pub contents_stale :
      {reader k : ℕ} (r : RingBuffer A)
      → IsStale reader k r
      → contents r ≡ drop k (contents (record r { reader = reader }))
  contents_stale {reader} {k} r v =
      ap (λ i. contents (record r { reader = i })) v.moved
      ∙ contents-consume k (record r { reader = reader }) v.valid v.within

  pub used_stale :
      {reader k : ℕ} (r : RingBuffer A)
      → IsStale reader k r
      → used r + k ≡ used (record r { reader = reader })
  used_stale {reader} {k} r v = omega (
    arith,
    v.within,
    length-contents (stale-IsValid r v),
    length-contents v.valid,
    ap length (contents_stale r v),
    length-drop k (contents (record r { reader = reader })),
  )
