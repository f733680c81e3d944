-- ===== src/Sync/RingBuffer/Interleaved/WriterSteps.antt =====
-- The writer's copy and its store keep the invariant, whatever the reader is at.
use bark_esp.Base.{
  ℕ, ◌+◌, ◌-◌, ◌%◌, ◌≤◌, ◌≡◌, sym, ap, ◌∙◌, List, ◌++◌, length, take, drop, arith, add_usize,
  length-append, take-append_left, drop-append_left, append_assoc, take-all,
}
use bark_esp.Sync.RingBuffer.{RingBuffer, buffer_len, write}
use bark_esp.Sync.RingBuffer.Contents.{IsValid, used, contents, length-contents}
use bark_esp.Sync.RingBuffer.Write.{write_refines}
use bark_esp.Sync.RingBuffer.Interleaved.Views.{
  IsStale, contents_early, contents_stale, used_stale, stale-IsValid,
}
use bark_esp.Sync.RingBuffer.Interleaved.{WriterPc, ReaderPc, System}
use bark_esp.Sync.RingBuffer.Interleaved.Invariant.{IsLaid, ReaderInv, Inv}

module _ {ℓ} {A : Type ℓ} where
  -- The copy of `write` lies behind what the ring holds.
  module _ (src : List A) (reader k : ℕ) (r : RingBuffer A) (v : IsStale reader k r) where
    abbrev stale : RingBuffer A
    stale = record r { reader = reader }

    abbrev written : RingBuffer A
    written = (write src stale).1

    -- the ring after the copy, with the old index of the writer
    abbrev laid : RingBuffer A
    laid = record r { buffer = written.buffer }

    same_len : buffer_len written ≡ buffer_len r
    same_len = (write_refines src v.valid).4

    -- the ring that the other side will see after the store
    abbrev published : RingBuffer A
    published = record laid { reader = reader; writer = written.writer }

    published-written : published ≡ written
    published-written =
        ap (λ i. record laid { reader = i; writer = written.writer })
          (sym (write_refines src v.valid).3)

    appended : contents published ≡ contents stale ++ take (write src stale).0 src
    appended = ap contents published-written ∙ (write_refines src v.valid).2

    published-IsValid : IsValid published
    published-IsValid = rw published-written (write_refines src v.valid).1

    used-published : used published ≡ used stale + length (take (write src stale).0 src)
    used-published = omega (
      arith,
      length-contents published-IsValid,
      length-contents v.valid,
      ap length appended,
      length-append (contents stale) (take (write src stale).0 src),
    )

    same_used : used (record laid { reader = reader }) ≡ used stale
    same_used = ap (λ n. (r.writer + n - reader) % n) same_len

    same_stale : contents (record laid { reader = reader }) ≡ contents stale
    same_stale =
        contents_early published r.writer (omega (arith, used-published, same_used))
        ∙ rw (same_used, appended)
            (take-append_left (used stale) (contents stale) (take (write src stale).0 src)
                (omega (arith, length-contents v.valid))
              ∙ take-all (used stale) (contents stale) (omega (arith, length-contents v.valid)))

    laid-IsStale : IsStale reader k laid
    laid-IsStale = record {
      valid = omega (arith, v.valid, same_len);
      within = omega (arith, v.within, same_used);
      moved = v.moved ∙ ap (λ n. add_usize reader k % n) (sym same_len);
    }

    same_contents : contents laid ≡ contents r
    same_contents =
        contents_stale laid laid-IsStale ∙ ap (drop k) same_stale ∙ sym (contents_stale r v)

    laid-IsLaid : IsLaid laid src reader (write src stale).0 written.writer
    laid-IsLaid = record {
      valid = published-IsValid;
      appended = appended ∙ ap (λ xs. xs ++ take (write src stale).0 src) (sym same_stale);
    }

    same_used_of : (w : ℕ) → used (record laid { writer = w }) ≡ used (record r { writer = w })
    same_used_of w = ap (λ n. (w + n - r.reader) % n) same_len

    same_used_now : used laid ≡ used r
    same_used_now = same_used_of r.writer

    -- The reader is not disturbed.
    laid-ReaderInv : (p : ReaderPc A) → ReaderInv r p → ReaderInv laid p
    laid-ReaderInv ReaderPc.idle h = tt
    laid-ReaderInv (ReaderPc.loaded dst writer) h = record {
      valid = omega (arith, h.valid, same_len);
      older = omega (arith, h.older, same_used_of writer, same_used_now);
    }
    laid-ReaderInv (ReaderPc.copied out n reader') h = record {
      within = omega (arith, h.within, same_used_now);
      moves = h.moves ∙ ap (λ l. add_usize r.reader n % l) (sym same_len);
      taken = h.taken ∙ ap (take n) (sym same_contents);
    }

    pub Inv-copy :
        (s : System A)
        → s.sent ≡ s.received ++ contents r
        → ReaderInv r s.reader_pc
        → Inv (record s {
          ring = laid;
          writer_pc = WriterPc.copied src reader (write src stale).0 written.writer;
        })
    Inv-copy s flow h = record {
      valid = stale-IsValid laid laid-IsStale;
      flow = flow ∙ ap (λ xs. s.received ++ xs) (sym same_contents);
      writer_side = (k, laid-IsStale, laid-IsLaid);
      reader_side = laid-ReaderInv s.reader_pc h;
    }

  -- The store of the writer's index.
  module _ (src : List A) (reader n writer k : ℕ) (r : RingBuffer A) (v : IsStale reader k r)
      (l : IsLaid r src reader n writer) where
    abbrev stored : RingBuffer A
    stored = record r { writer = writer }

    more :
        used (record stored { reader = reader })
        ≡ used (record r { reader = reader }) + length (take n src)
    more = omega (
      arith,
      length-contents l.valid,
      length-contents v.valid,
      ap length l.appended,
      length-append (contents (record r { reader = reader })) (take n src),
    )

    stored-IsStale : IsStale reader k stored
    stored-IsStale = record {
      valid = l.valid;
      within = omega (arith, more, v.within);
      moved = v.moved;
    }

    stored-contents : contents stored ≡ contents r ++ take n src
    stored-contents =
        contents_stale stored stored-IsStale
        ∙ rw l.appended (
            drop-append_left k (contents (record r { reader = reader })) (take n src)
              (omega (arith, length-contents v.valid, v.within)))
        ∙ ap (λ xs. xs ++ take n src) (sym (contents_stale r v))

    stored-used : used r ≤ used stored
    stored-used = omega (arith, more, used_stale r v, used_stale stored stored-IsStale)

    stored-ReaderInv : (p : ReaderPc A) → ReaderInv r p → ReaderInv stored p
    stored-ReaderInv ReaderPc.idle h = tt
    stored-ReaderInv (ReaderPc.loaded dst w) h = record {
      valid = h.valid;
      older = omega (arith, h.older, stored-used);
    }
    stored-ReaderInv (ReaderPc.copied out m reader') h = record {
      within = omega (arith, h.within, stored-used);
      moves = h.moves;
      taken =
          h.taken
          ∙ sym (
              ap (take m) stored-contents
              ∙ take-append_left m (contents r) (take n src)
                  (omega (arith, h.within, length-contents (stale-IsValid r v))));
    }

    pub Inv-store :
        (s : System A)
        → s.sent ≡ s.received ++ contents r
        → ReaderInv r s.reader_pc
        → Inv (record s { ring = stored; writer_pc = WriterPc.idle; sent = s.sent ++ take n src })
    Inv-store s flow h = record {
      valid = stale-IsValid stored stored-IsStale;
      flow =
          ap (λ xs. xs ++ take n src) flow
          ∙ append_assoc s.received (contents r) (take n src)
          ∙ ap (λ xs. s.received ++ xs) (sym stored-contents);
      writer_side = tt;
      reader_side = stored-ReaderInv s.reader_pc h;
    }
