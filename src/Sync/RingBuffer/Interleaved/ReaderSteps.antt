-- ===== src/Sync/RingBuffer/Interleaved/ReaderSteps.antt =====
-- The reader's copy and its store keep the invariant, whatever the writer is at.
use bark_esp.Base.{
  ℕ, ◌+◌, ◌-◌, ◌%◌, ◌≡◌, refl, sym, ap, ◌∙◌, List, ◌++◌, length, take, drop, min, arith, add_usize,
  length-take, take-append_left, append_assoc, take-append-drop, take-take,
}
use bark_esp.Sync.RingBuffer.{RingBuffer, buffer_len, read, read_in_place}
use bark_esp.Sync.RingBuffer.Contents.{IsValid, used, contents, length-contents}
use native.Mathlib.Nat.{mod-lt}
use bark_esp.Sync.RingBuffer.Read.{read_refines, consume, contents-consume, consume-IsValid}
use bark_esp.Sync.RingBuffer.Interleaved.Views.{IsStale, advance_twice, contents_early, used_stale}
use bark_esp.Sync.RingBuffer.Interleaved.{WriterPc, ReaderPc, System}
use bark_esp.Sync.RingBuffer.Interleaved.Invariant.{WriterInv, IsEarly, IsTaken, Inv}

module _ {ℓ} {A : Type ℓ} where
  taken_prefix :
      (dst seen all rest : List A) {out : List A} (n u : ℕ)
      → out ≡ take (length dst) seen ++ rest
      → n ≡ min (length dst) u
      → seen ≡ take u all
      → length seen ≡ u
      → take n out ≡ take n all
  taken_prefix dst seen all rest n u filled count older len =
      ap (take n) filled
      ∙ take-append_left n (take (length dst) seen) rest
          (omega (arith, length-take (length dst) seen, len, count))
      ∙ take-take n (length dst) seen (omega (arith, count))
      ∙ ap (take n) older
      ∙ take-take n u all (omega (arith, count))

  -- The reader copies what it sees through the writer's index that it loaded.
  pub early_takes :
      (dst : List A) (writer : ℕ) (r : RingBuffer A)
      → IsValid r
      → IsEarly r writer
      → let (out, n, r') = read dst (record r { writer = writer }) in IsTaken r out n r'.reader
  unfolding read read_in_place
  early_takes dst writer r v h =
      let seen = record r { writer = writer } in
      let (filled, count, gone, valid, w, b) = read_refines dst h.valid in
      let n = (read dst seen).1 in
      record {
        within = omega (arith, count, h.older);
        moves = refl;
        taken =
            taken_prefix dst (contents seen) (contents r) (drop (used seen) dst) n (used seen)
              filled count (contents_early r writer h.older) (length-contents h.valid);
      }

  -- The store of the reader's index.
  module _ (out : List A) (n reader : ℕ) (r : RingBuffer A) (v : IsValid r)
      (h : IsTaken r out n reader) where
    abbrev freed : RingBuffer A
    freed = record r { reader = reader }

    freed_consume : freed ≡ consume n r
    freed_consume = ap (λ i. record r { reader = i }) h.moves

    freed_contents : contents freed ≡ drop n (contents r)
    freed_contents = ap contents freed_consume ∙ contents-consume n r v h.within

    freed-IsStale : (k i : ℕ) → IsStale i k r → IsStale i (k + n) freed
    freed-IsStale k i l = record {
      valid = l.valid;
      within = omega (arith, l.within, h.within, used_stale r l);
      moved =
          h.moves
          ∙ ap (λ x. add_usize x n % buffer_len r) l.moved
          ∙ advance_twice (buffer_len r) i k n v.small l.valid.reader_in (
              omega (
                arith,
                l.within,
                h.within,
                used_stale r l,
                mod-lt (r.writer + buffer_len r - i) {m = buffer_len r} (omega arith),
              ));
    }

    freed-WriterInv : (p : WriterPc A) → WriterInv r p → WriterInv freed p
    freed-WriterInv WriterPc.idle w = tt
    freed-WriterInv (WriterPc.loaded src i) (k, l) = (k + n, freed-IsStale k i l)
    freed-WriterInv (WriterPc.copied src i m writer) (k, l, laid) =
        (k + n, freed-IsStale k i l, record { valid = laid.valid; appended = laid.appended })

    pub Inv-free :
        (s : System A)
        → s.sent ≡ s.received ++ contents r
        → WriterInv r s.writer_pc
        → Inv (record s {
          ring = freed;
          reader_pc = ReaderPc.idle;
          received = s.received ++ take n out;
        })
    Inv-free s flow w = record {
      valid = rw freed_consume (consume-IsValid n v);
      flow =
          flow
          ∙ ap (λ xs. s.received ++ xs) (sym (take-append-drop n (contents r)))
          ∙ sym (
              rw (h.taken, freed_contents)
                (append_assoc s.received (take n (contents r)) (drop n (contents r))));
      writer_side = freed-WriterInv s.writer_pc w;
      reader_side = tt;
    }
