-- ===== src/Platform/Dac/Write.antt =====
-- Writing to the DAC's ring.
use bark_esp.Base.{
  ℕ, ◌<◌, ◌≡◌, ap, ◌∙◌, List, ◌++◌, take, drop, arith, ◌==◌, append_assoc, append-nil,
  take-append-drop, Bool-cases, ==_iff, inl, inr,
}
use bark_esp.Sync.RingBuffer.{write}
use bark_esp.Sync.RingBuffer.Contents.{IsValid, contents}
use bark_esp.Sync.RingBuffer.Write.{write_refines}
use bark_esp.Sync.Queue.{pending}
use bark_esp.Task.Registry.TaskId.{max_tasks}
use bark_esp.Task.Waker.Wake.{Waits, Waits-add_task}
use bark_esp.Platform.Dac.{Frame, Statics, poll_write, advance}

-- A poll of `write` loses and repeats no frame: what the ring holds followed by what is still to
-- be written is the same before and after, in order. If the poll is pending the task is in the
-- waker set. The ring stays valid.
pub poll_write-keeps :
    (id : ℕ) (frames : List Frame) (s : Statics)
    → IsValid s.buffer
    → id < max_tasks
    → let (p, s') = poll_write id frames s in
      (contents s'.buffer ++ advance p frames ≡ contents s.buffer ++ frames)
      × IsValid s'.buffer
      × (p ≡ pending → Waits s'.waker id)
unfolding poll_write
poll_write-keeps id frames s v lt =
    let (bound, valid, all, same, len) = write_refines frames v in
    elim (Bool-cases ((write frames s.buffer).0 == 0)) [
      | inl none_fit ↦ rw none_fit (
        ap (λ l. l ++ frames)
            (all
              ∙ ap (λ k. contents s.buffer ++ take k frames)
                  ((==_iff (write frames s.buffer).0 0).0 none_fit)
              ∙ append-nil (contents s.buffer)),
        valid,
        λ e. Waits-add_task id id s.waker lt ∙ ground arith,
      )
      | inr some_fit ↦ rw some_fit (
        ap (λ l. l ++ drop (write frames s.buffer).0 frames) all
            ∙ append_assoc (contents s.buffer) (take (write frames s.buffer).0 frames)
                (drop (write frames s.buffer).0 frames)
            ∙ ap (λ l. contents s.buffer ++ l) (take-append-drop (write frames s.buffer).0 frames),
        valid,
        λ e. cc,
      )
    ]
