-- ===== src/Platform/Dac/Loop/Drain.antt =====
-- What interrupts take from the ring.
use bark_esp.Base.{
  ℕ, zero, suc, ◌-◌, ◌<◌, ◌≤◌, ◌≡◌, refl, sym, ap, ◌∙◌, List, [], ◌∷◌, ◌++◌, length, take, map,
  replicate, arith, append_assoc, take-append-drop, Bool, length-append, length-drop,
}
use mathlib.Core.Path.{subst}
use native.Mathlib.Nat.{mod-lt}
use bark_esp.Task.Registry.TaskSlot.{Slots}
use bark_esp.Sync.RingBuffer.{buffer_len}
use bark_esp.Sync.RingBuffer.Contents.{IsValid, contents, used, free, length-contents}
use bark_esp.Platform.Dac.{Frame, DmaFrame, Statics, of_frame, silence}
use bark_esp.Platform.Dac.Interrupt.{on_convert_done-sends, on_convert_done-len}
use bark_esp.Platform.Dac.Loop.{interrupt, interrupts}

-- The frames, converted and in order, with silence anywhere between them.
pub data Padded : List Frame → List DmaFrame → Type 0 where
  nothing : Padded [] []
  frame :
      {f : Frame} {fs : List Frame} {out : List DmaFrame}
      → Padded fs out
      → Padded (f ∷ fs) (of_frame f ∷ out)
  quiet : {fs : List Frame} {out : List DmaFrame} → Padded fs out → Padded fs (silence ∷ out)

pub Padded-append :
    {fs gs : List Frame} {xs ys : List DmaFrame}
    → Padded fs xs
    → Padded gs ys
    → Padded (fs ++ gs) (xs ++ ys)
Padded-append nothing q = q
Padded-append (frame p) q = frame (Padded-append p q)
Padded-append (quiet p) q = quiet (Padded-append p q)

Padded-take :
    (n : ℕ) (fs : List Frame) (k : ℕ)
    → Padded (take n fs) (take n (map of_frame fs) ++ replicate k silence)
Padded-take zero fs zero = nothing
Padded-take zero fs (suc k) = quiet (Padded-take zero fs k)
Padded-take (suc n) [] zero = nothing
Padded-take (suc n) [] (suc k) = quiet (Padded-take (suc n) [] k)
Padded-take (suc n) (f ∷ fs) k = frame (Padded-take n fs k)

-- From one state to another `sent` was sent, and nothing else left the ring.
pub record Drained (s : Statics) (sent : List DmaFrame) (s' : Statics) : Type 0 where
  pub played : List Frame
  pub all : played ++ contents s'.buffer ≡ contents s.buffer
  pub padded : Padded played sent
  pub valid : IsValid s'.buffer
  pub same_len : buffer_len s'.buffer ≡ buffer_len s.buffer

used_lt : (s : Statics) → IsValid s.buffer → used s.buffer < buffer_len s.buffer
used_lt s v = mod-lt _ (omega (arith, v.reader_in))

pub Drained-refl : (s : Statics) → IsValid s.buffer → Drained s [] s
Drained-refl s v = record { played = []; all = refl; padded = nothing; valid = v; same_len = refl }

-- What is sent leaves room.
pub Drained-free :
    {s s' : Statics} {sent : List DmaFrame}
    → IsValid s.buffer
    → Drained s sent s'
    → free s.buffer ≤ free s'.buffer
Drained-free {s} {s'} v d = omega (
  arith,
  ap length d.all,
  length-append d.played (contents s'.buffer),
  length-contents v,
  length-contents d.valid,
  d.same_len,
)

module _ (notify : ℕ → Bool) (slots : Slots) where
  pub interrupt-Drained :
      (output : List DmaFrame) (s : Statics)
      → IsValid s.buffer
      → let (sent, s') = interrupt notify slots output s in Drained s sent s'
  interrupt-Drained output s v =
      let (sent, rest, valid, w, u) = on_convert_done-sends output s v notify slots in
      record {
        played = take (length output) (contents s.buffer);
        all =
            ap (λ l. take (length output) (contents s.buffer) ++ l) rest
            ∙ take-append-drop (length output) (contents s.buffer);
        padded =
            subst (λ l. Padded (take (length output) (contents s.buffer)) l) (sym sent)
              (Padded-take (length output) (contents s.buffer) (length output - used s.buffer));
        valid = valid;
        same_len = on_convert_done-len output s v notify slots;
      }

  pub interrupts-Drained :
      (outputs : List (List DmaFrame)) (s : Statics)
      → IsValid s.buffer
      → let (sent, s') = interrupts notify slots outputs s in Drained s sent s'
  unfolding interrupts
  interrupts-Drained [] s v = Drained-refl s v
  interrupts-Drained (output ∷ outputs) s v =
      let a = interrupt-Drained output s v in
      let b = interrupts-Drained outputs (interrupt notify slots output s).1 a.valid in
      record {
        played = a.played ++ b.played;
        all = append_assoc a.played b.played _ ∙ ap (λ l. a.played ++ l) b.all ∙ a.all;
        padded = Padded-append a.padded b.padded;
        valid = b.valid;
        same_len = b.same_len ∙ a.same_len;
      }

  -- An interrupt with an output that is not empty makes room.
  pub interrupt-free :
      (output : List DmaFrame) (s : Statics)
      → IsValid s.buffer
      → 1 < buffer_len s.buffer
      → 0 < length output
      → 0 < free (interrupt notify slots output s).1.buffer
  interrupt-free output s v big some_output =
      let (sent, rest, valid, w, u) = on_convert_done-sends output s v notify slots in
      omega (
        arith,
        ap length rest,
        length-drop (length output) (contents s.buffer),
        length-contents v,
        length-contents valid,
        used_lt s v,
        on_convert_done-len output s v notify slots,
      )
