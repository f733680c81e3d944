-- ===== src/Sync/RingBuffer/Interleaved/Linearize.antt =====
-- No interleaving of the two sides loses, repeats or reorders an item.
use bark_esp.Base.{◌≡◌, refl, sym, ◌∙◌, List, [], ◌∷◌, ◌++◌, arith}
use bark_esp.Sync.RingBuffer.{RingBuffer, buffer_len}
use bark_esp.Sync.RingBuffer.Contents.{IsValid, contents, advance}
use bark_esp.Sync.RingBuffer.Interleaved.Views.{IsStale}
use bark_esp.Sync.RingBuffer.Interleaved.{
  WriterPc, ReaderPc, System, step_writer, step_reader, Event, writer_moves, reader_moves, step,
  run, start,
}
use bark_esp.Sync.RingBuffer.Interleaved.Invariant.{Inv, Inv-start}
use bark_esp.Sync.RingBuffer.Interleaved.WriterSteps.{Inv-copy, Inv-store}
use bark_esp.Sync.RingBuffer.Interleaved.ReaderSteps.{Inv-free, early_takes}

module _ {ℓ} {A : Type ℓ} where
  -- A side that is idle loads the other's index.
  fresh-IsStale : (r : RingBuffer A) → IsValid r → IsStale r.reader 0 r
  fresh-IsStale r v = record {
    valid = v;
    within = omega arith;
    moved = sym (advance (buffer_len r) r.reader 0 v.small (omega arith) ∙ omega arith);
  }

  Inv-writer :
      (src : List A) (p : WriterPc A) (s : System A)
      → s.writer_pc ≡ p
      → Inv s
      → Inv (step_writer A src p s)
  unfolding step_writer
  Inv-writer src WriterPc.idle s e v = record {
    valid = v.valid;
    flow = v.flow;
    writer_side = (0, fresh-IsStale s.ring v.valid);
    reader_side = v.reader_side;
  }
  Inv-writer next (WriterPc.loaded src reader) s e v =
      let (k, l) = rw e at v.writer_side in Inv-copy src reader k s.ring l s v.flow v.reader_side
  Inv-writer next (WriterPc.copied src reader n writer) s e v =
      let (k, l, laid) = rw e at v.writer_side in
      Inv-store src reader n writer k s.ring l laid s v.flow v.reader_side

  Inv-reader :
      (dst : List A) (p : ReaderPc A) (s : System A)
      → s.reader_pc ≡ p
      → Inv s
      → Inv (step_reader A dst p s)
  unfolding step_reader
  Inv-reader dst ReaderPc.idle s e v = record {
    valid = v.valid;
    flow = v.flow;
    writer_side = v.writer_side;
    reader_side = record { valid = v.valid; older = omega arith };
  }
  Inv-reader next (ReaderPc.loaded dst writer) s e v = record {
    valid = v.valid;
    flow = v.flow;
    writer_side = v.writer_side;
    reader_side = early_takes dst writer s.ring v.valid (rw e at v.reader_side);
  }
  Inv-reader next (ReaderPc.copied out n reader) s e v =
      Inv-free out n reader s.ring v.valid (rw e at v.reader_side) s v.flow v.writer_side

  Inv-run : (es : List (Event A)) (s : System A) → Inv s → Inv (run A es s)
  unfolding run step
  Inv-run [] s v = v
  Inv-run (writer_moves src ∷ es) s v =
      Inv-run es (step_writer A src s.writer_pc s) (Inv-writer src s.writer_pc s refl v)
  Inv-run (reader_moves dst ∷ es) s v =
      Inv-run es (step_reader A dst s.reader_pc s) (Inv-reader dst s.reader_pc s refl v)

  -- However the loads, copies and stores of one writer and one reader interleave, with whatever
  -- data and buffers they come: what the reader has received, followed by what the ring holds, is
  -- what the ring held at first followed by what the writer has sent, in order. The indices stay
  -- valid.
  pub run_linearizes :
      (es : List (Event A)) (r : RingBuffer A)
      → IsValid r
      → ((run A es (start A r)).sent
          ≡ (run A es (start A r)).received ++ contents (run A es (start A r)).ring)
        × IsValid (run A es (start A r)).ring
  run_linearizes es r v = let i = Inv-run es (start A r) (Inv-start r v) in (i.flow, i.valid)
