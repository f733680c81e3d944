-- ===== src/Sync/RingBuffer/Interleaved/Invariant.antt =====
-- What holds while a writer and a reader are at work on a ring.
use bark_esp.Base.{ℕ, ◌%◌, ◌≤◌, ◌≡◌, refl, List, ◌++◌, take, add_usize}
use bark_esp.Sync.RingBuffer.{RingBuffer, buffer_len}
use bark_esp.Sync.RingBuffer.Contents.{IsValid, used, contents}
use bark_esp.Sync.RingBuffer.Interleaved.Views.{IsStale}
use bark_esp.Sync.RingBuffer.Interleaved.{WriterPc, ReaderPc, System, start}

module _ {ℓ} {A : Type ℓ} where
  -- What the data that `write` laid down are worth once `writer` is stored.
  pub record IsLaid (r : RingBuffer A) (src : List A) (reader n writer : ℕ) : Type ℓ where
    pub valid : IsValid (record r { reader = reader; writer = writer })
    pub appended :
        contents (record r { reader = reader; writer = writer })
        ≡ contents (record r { reader = reader }) ++ take n src

  abbrev pub WriterInv : RingBuffer A → WriterPc A → Type ℓ
  WriterInv r WriterPc.idle = Unit
  WriterInv r (WriterPc.loaded src reader) = (k : ℕ) × IsStale reader k r
  WriterInv r (WriterPc.copied src reader n writer) =
      (k : ℕ) × IsStale reader k r × IsLaid r src reader n writer

  pub record IsEarly (r : RingBuffer A) (writer : ℕ) : Type ℓ where
    pub valid : IsValid (record r { writer = writer })
    pub older : used (record r { writer = writer }) ≤ used r

  -- What `read` copied, and where its store will move the reader.
  pub record IsTaken (r : RingBuffer A) (out : List A) (n reader : ℕ) : Type ℓ where
    pub within : n ≤ used r
    pub moves : reader ≡ add_usize r.reader n % buffer_len r
    pub taken : take n out ≡ take n (contents r)

  abbrev pub ReaderInv : RingBuffer A → ReaderPc A → Type ℓ
  ReaderInv r ReaderPc.idle = Unit
  ReaderInv r (ReaderPc.loaded dst writer) = IsEarly r writer
  ReaderInv r (ReaderPc.copied out n reader) = IsTaken r out n reader

  pub record Inv (s : System A) : Type ℓ where
    pub valid : IsValid s.ring
    pub flow : s.sent ≡ s.received ++ contents s.ring
    pub writer_side : WriterInv s.ring s.writer_pc
    pub reader_side : ReaderInv s.ring s.reader_pc

  pub Inv-start : (r : RingBuffer A) → IsValid r → Inv (start A r)
  Inv-start r v = record { valid = v; flow = refl; writer_side = tt; reader_side = tt }
