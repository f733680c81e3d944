-- ===== src/Platform/Dac/Loop/Finish.antt =====
-- The loop of `write` ends, and what it has then done.
use bark_esp.Base.{
  ℕ, zero, suc, ◌+◌, true, false, ◌*◌, ◌<◌, ◌≤◌, ◌≡◌, ◌⊎◌, inl, inr, refl, sym, ap, ◌∙◌, List, [],
  ◌∷◌, ◌++◌, length, arith, append_assoc, append-nil, Bool, Bool-cases, some, ◌==◌, ==_iff,
  length-drop,
}
use bark_esp.Task.Registry.TaskSlot.{Slots}
use bark_esp.Task.Registry.TaskId.{max_tasks}
use bark_esp.Sync.RingBuffer.{buffer_len}
use bark_esp.Sync.RingBuffer as Ring
use bark_esp.Sync.RingBuffer.Contents.{IsValid, contents, free}
use bark_esp.Sync.RingBuffer.Write.{write_refines}
use bark_esp.Sync.Queue.{Poll, ready, pending}
use bark_esp.Platform.Dac.{Frame, DmaFrame, Statics, poll_write, advance}
use bark_esp.Platform.Dac.Write.{poll_write-keeps}
use bark_esp.Task.Waker.{wake_all}
use bark_esp.Task.Waker.Wake.{Waits, Woken, wake_all_iff}
use bark_esp.Platform.Dac.Loop.{
  Schedule, count_spurious, is_among, is_notified, interrupt, interrupts, wait, sent_first, write,
}
use bark_esp.Platform.Dac.Loop.Drain.{
  Padded, nothing, Padded-append, Drained, interrupt-Drained, interrupts-Drained, interrupt-free,
  Drained-refl, Drained-free,
}

-- A poll of some frames moves some of them to the ring, or the ring is full.
polled :
    (id : ℕ) (f : Frame) (frames : List Frame) (s : Statics)
    → IsValid s.buffer
    → let (p, s') = poll_write id (f ∷ frames) s in
      (buffer_len s'.buffer ≡ buffer_len s.buffer)
      × (((p ≡ pending) × (free s.buffer ≡ 0)) ⊎ ((n : ℕ) × (p ≡ ready n) × (0 < n)))
unfolding poll_write
polled id f frames s v =
    let (bound, valid, all, same, len) = write_refines (f ∷ frames) v in
    elim (Bool-cases ((Ring.write (f ∷ frames) s.buffer).0 == 0)) [
      | inl none_fit ↦ rw none_fit (
        len,
        inl (
          refl,
          omega (arith, bound, (==_iff (Ring.write (f ∷ frames) s.buffer).0 0).0 none_fit),
        ),
      )
      | inr some_fit ↦ rw some_fit (len, inr (_, refl, ground (arith, some_fit)))
    ]

-- The frames went to the ring, and `sent` was sent from it.
pub record Written (s : Statics) (frames : List Frame) (sent : List DmaFrame) (s' : Statics)
    : Type 0 where
  pub played : List Frame
  pub all : played ++ contents s'.buffer ≡ contents s.buffer ++ frames
  pub padded : Padded played sent
  pub valid : IsValid s'.buffer
  pub same_len : buffer_len s'.buffer ≡ buffer_len s.buffer

Drained-Written :
    {s s1 s' : Statics} {frames : List Frame} {sent more : List DmaFrame}
    → Drained s sent s1
    → Written s1 frames more s'
    → Written s frames (sent ++ more) s'
Drained-Written {s} {s1} {s'} {frames} d w = record {
  played = d.played ++ w.played;
  all =
      append_assoc d.played w.played (contents s'.buffer)
      ∙ ap (λ l. d.played ++ l) w.all
      ∙ sym (append_assoc d.played (contents s1.buffer) frames)
      ∙ ap (λ l. l ++ frames) d.all;
  padded = Padded-append d.padded w.padded;
  valid = w.valid;
  same_len = w.same_len ∙ d.same_len;
}

poll-Written :
    {s s' : Statics} {frames rest : List Frame} {sent : List DmaFrame} (s1 : Statics)
    → contents s1.buffer ++ rest ≡ contents s.buffer ++ frames
    → buffer_len s1.buffer ≡ buffer_len s.buffer
    → Written s1 rest sent s'
    → Written s frames sent s'
poll-Written s1 e len w = record {
  played = w.played;
  all = w.all ∙ e;
  padded = w.padded;
  valid = w.valid;
  same_len = w.same_len ∙ len;
}

is_among-Woken : (task : ℕ) (tasks : List ℕ) → Woken task tasks → is_among task tasks ≡ true
is_among-Woken task [] w = elim w [ ]
is_among-Woken task (x ∷ xs) (inl e) = ground arith
is_among-Woken task (x ∷ xs) (inr w) = ground (arith, is_among-Woken task xs w)

module _ (notify : ℕ → Bool) (slots : Slots) (id : ℕ) (lt : id < max_tasks)
    (registered : 0 < slots id) (t : Schedule) (nonempty : (i : ℕ) → 0 < length (t.wakes i)) where
  -- There are two rounds for each frame, or one less when the ring has room, and one for each
  -- spurious wake-up.
  abbrev Enough : ℕ → List Frame → Statics → Type 0
  Enough fuel frames s =
      (2 * length frames + count_spurious t.spurious fuel ≤ fuel)
      ⊎ ((2 * length frames + count_spurious t.spurious fuel ≤ suc fuel) × (0 < free s.buffer))

  abbrev Finishes : ℕ → List Frame → Statics → Type 0
  Finishes fuel frames s =
      (sent : List DmaFrame) × (s' : Statics) × (write notify slots id fuel t frames s
        ≡ some (sent, s'))
      × Written s frames sent s'

  -- A task in the set is notified.
  notified : (s : Statics) → Waits s.waker id → is_notified notify slots id s ≡ true
  unfolding wake_all
  notified s w =
      is_among-Woken (slots id) (wake_all slots s.waker).0
        ((wake_all_iff slots s.waker (slots id)).0.1 (id, w, ground (arith, registered), lt))

  -- A poll that is pending made no room, but the wait after it does, or is spurious.
  abbrev Ready : ℕ → Poll ℕ → Bool → Statics → Type 0
  Ready fuel p early s =
      (woken : List DmaFrame) × (s' : Statics) × (wait notify slots id p early (t.wakes fuel) s
        ≡ some (woken, s'))
      × Drained s woken s'
      × (p ≡ pending → early ≡ false → 0 < free s'.buffer)

  waits :
      (fuel : ℕ) (p : Poll ℕ) (early : Bool) (s : Statics)
      → IsValid s.buffer
      → 1 < buffer_len s.buffer
      → (p ≡ pending → Waits s.waker id)
      → Ready fuel p early s
  unfolding wait
  waits fuel (ready n) early s v big w = ([], s, refl, Drained-refl s v, λ e. cc)
  waits fuel pending true s v big w = ([], s, refl, Drained-refl s v, λ e f. cc)
  waits fuel pending false s v big w =
      let (sent, s') = interrupt notify slots (t.wakes fuel) s in
      (
        sent,
        s',
        rw (wait, notified s (w refl)) refl,
        interrupt-Drained notify slots (t.wakes fuel) s v,
        λ e f. interrupt-free notify slots (t.wakes fuel) s v big (nonempty fuel),
      )

  -- A round leaves enough rounds for what is left.
  round-Enough :
      (fuel : ℕ) (f : Frame) (frames : List Frame) (s s1 : Statics) (p : Poll ℕ) (early : Bool)
      (s3 : Statics)
      → t.spurious fuel ≡ early
      → Enough (suc fuel) (f ∷ frames) s
      → free s.buffer ≤ free s1.buffer
      → (p ≡ pending → early ≡ false → 0 < free s3.buffer)
      → (((p ≡ pending) × (free s1.buffer ≡ 0)) ⊎ ((n : ℕ) × (p ≡ ready n) × (0 < n)))
      → Enough fuel (advance p (f ∷ frames)) s3
  unfolding count_spurious
  round-Enough fuel f frames s s1 (ready n) early s3 sp h le room (inl (e, full)) = cc
  round-Enough fuel f frames s s1 (ready n) early s3 sp h le room (inr (m, e, pos)) =
      inl (ground (arith, length-drop n (f ∷ frames), h))
  round-Enough fuel f frames s s1 pending true s3 sp h le room (inl (e, full)) =
      inl (ground (arith, h))
  round-Enough fuel f frames s s1 pending false s3 sp h le room (inl (e, full)) =
      inr (ground (arith, h), room refl refl)
  round-Enough fuel f frames s s1 pending early s3 sp h le room (inr (m, e, pos)) = cc

  finishes :
      (fuel : ℕ) (frames : List Frame) (s : Statics)
      → IsValid s.buffer
      → 1 < buffer_len s.buffer
      → Enough fuel frames s
      → Finishes fuel frames s
  unfolding write
  finishes fuel [] s v big h = (
    [],
    s,
    refl,
    record {
      played = [];
      all = sym (append-nil (contents s.buffer));
      padded = nothing;
      valid = v;
      same_len = refl;
    },
  )
  finishes zero (f ∷ frames) s v big h = absurd (ground arith)
  finishes (suc fuel) (f ∷ frames) s v big h =
      let (sent, s1) = interrupts notify slots (t.before fuel) s in
      let d1 : Drained s sent s1 = interrupts-Drained notify slots (t.before fuel) s v in
      let (p, s2) = poll_write id (f ∷ frames) s1 in
      let (kept, v2, in_set) = poll_write-keeps id (f ∷ frames) s1 d1.valid lt in
      let (len, outcome) = polled id f frames s1 d1.valid in
      let big2 : 1 < buffer_len s2.buffer = omega (arith, len, d1.same_len, big) in
      let (woken, s3, go, d3, room) = waits fuel p (t.spurious fuel) s2 v2 big2 in_set in
      let enough =
        round-Enough fuel f frames s s1 p (t.spurious fuel) s3 refl h (Drained-free v d1) room
          outcome in
      let (rest, s', e, w) =
        finishes fuel (advance p (f ∷ frames)) s3 d3.valid (omega (arith, d3.same_len, big2))
          enough in
      (
        sent ++ (woken ++ rest),
        s',
        rw (write, go) (ap (λ r. sent_first sent (sent_first woken r)) e),
        Drained-Written d1 (poll-Written s2 kept len (Drained-Written d3 w)),
      )

  -- For a task that is registered, a ring of two slots or more and interrupts whose outputs in the
  -- waits are not empty, `write` ends in any number of rounds that is no less than two for each frame
  -- and one for each spurious wake-up among them, however many interrupts come between the polls: a
  -- wait that no spurious wake-up ends is ended by the next interrupt. What it sent meanwhile and what
  -- the ring then holds are together what the ring held and the frames to be written, each once and
  -- in order, those sent converted, with silence between them.
  pub write_finishes :
      (fuel : ℕ) (frames : List Frame) (s : Statics)
      → 2 * length frames + count_spurious t.spurious fuel ≤ fuel
      → IsValid s.buffer
      → 1 < buffer_len s.buffer
      → (sent : List DmaFrame) × (s' : Statics) × (write notify slots id fuel t frames s
          ≡ some (sent, s'))
        × IsValid s'.buffer
        × (buffer_len s'.buffer ≡ buffer_len s.buffer)
        × ((played : List Frame) × (played ++ contents s'.buffer ≡ contents s.buffer ++ frames)
            × Padded played sent)
  write_finishes fuel frames s enough v big =
      let (sent, s', e, w) = finishes fuel frames s v big (inl enough) in
      (sent, s', e, w.valid, w.same_len, (w.played, w.all, w.padded))
