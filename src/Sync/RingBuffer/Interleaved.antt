-- ===== src/Sync/RingBuffer/Interleaved.antt =====
-- One writer and one reader at once on a ring of src/sync/ringbuffer.rs: each works on the indices
-- that it loaded at its start, and the other may move its own index in between. Between a load and
-- a store of an index the whole copy is one step.
pub mod Views
pub mod Invariant
pub mod WriterSteps
pub mod ReaderSteps
pub mod Linearize
use bark_esp.Base.{ℕ, List, [], ◌∷◌, ◌++◌, take}
use bark_esp.Sync.RingBuffer.{RingBuffer, write, read}
use bark_esp.Sync.RingBuffer.Contents.{contents}

module _ {ℓ} (A : Type ℓ) where
  -- Where `write` stands.
  pub data WriterPc : Type ℓ where
    idle : WriterPc
    -- both indices loaded; `reader` is the other side's
    loaded : (src : List A) (reader : ℕ) → WriterPc
    -- `copied` items are in the buffer; before the store of `writer`
    copied : (src : List A) (reader : ℕ) (copied writer : ℕ) → WriterPc

  -- Where `read` stands.
  pub data ReaderPc : Type ℓ where
    idle : ReaderPc
    -- both indices loaded; `writer` is the other side's
    loaded : (dst : List A) (writer : ℕ) → ReaderPc
    -- `func` returned, with `copied` items in `out`; before the store of `reader`
    copied : (out : List A) (copied reader : ℕ) → ReaderPc

  -- The shared ring and the two sides, with all that was written and read so far.
  pub record System : Type ℓ where
    pub ring : RingBuffer A
    pub writer_pc : WriterPc
    pub reader_pc : ReaderPc
    pub sent : List A
    pub received : List A

  unfoldable pub step_writer : List A → WriterPc → System → System
  step_writer src idle s = record s { writer_pc = WriterPc.loaded src s.ring.reader }
  step_writer next (WriterPc.loaded src reader) s =
      let (n, r) = write src (record s.ring { reader = reader }) in
      record s {
        ring = record s.ring { buffer = r.buffer };
        writer_pc = WriterPc.copied src reader n r.writer;
      }
  step_writer next (WriterPc.copied src reader n writer) s = record s {
    ring = record s.ring { writer = writer };
    writer_pc = idle;
    sent = s.sent ++ take n src;
  }

  unfoldable pub step_reader : List A → ReaderPc → System → System
  step_reader dst idle s = record s { reader_pc = ReaderPc.loaded dst s.ring.writer }
  step_reader next (ReaderPc.loaded dst writer) s =
      let (out, n, r) = read dst (record s.ring { writer = writer }) in
      record s { reader_pc = ReaderPc.copied out n r.reader }
  step_reader next (ReaderPc.copied out n reader) s = record s {
    ring = record s.ring { reader = reader };
    reader_pc = idle;
    received = s.received ++ take n out;
  }

  -- Who moves next, with the argument of the call that it makes if it is idle.
  pub data Event : Type ℓ where
    writer_moves : List A → Event
    reader_moves : List A → Event

  unfoldable pub step : Event → System → System
  step (writer_moves src) s = step_writer src s.writer_pc s
  step (reader_moves dst) s = step_reader dst s.reader_pc s

  unfoldable pub run : List Event → System → System
  run [] s = s
  run (e ∷ es) s = run es (step e s)

  -- A ring that nobody is working on.
  abbrev pub start : RingBuffer A → System
  start r = record {
    ring = r;
    writer_pc = idle;
    reader_pc = idle;
    sent = contents r;
    received = [];
  }
