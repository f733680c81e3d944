-- ===== src/App/Stream/Play.antt =====
-- A round of the loop of `run_stream`, src/app/stream.rs: what is played for a packet.
use bark_esp.Base.{
  ℕ, zero, suc, ◌+◌, ◌*◌, ◌≡◌, refl, sym, ap, ◌∙◌, Option, none, some, List, [], ◌∷◌, ◌++◌, length,
  get_elem?, replicate, arith, length-append, append_assoc,
}
use bark_esp.Stats.{Stats}
use bark_esp.Stats.Counters.{increment}
use bark_esp.Platform.Dac.{Frame}
use bark_esp.App.Stream.Sample.{convint8}

unfoldable pub count_played : {A : Type 0} → Option A → Stats → Stats
count_played (some _) stats = record stats { stream_hit = increment stats.stream_hit }
count_played none stats = record stats { stream_miss = increment stats.stream_miss }

-- `SILENCE`, the bits of zeros
abbrev pub silence : ℕ → List ℕ
silence samples_per_packet = replicate samples_per_packet 0

-- The samples of a packet, or silence in its place.
unfoldable pub audio_of : ℕ → Option (List ℕ) → List ℕ
audio_of samples_per_packet (some samples) = samples
audio_of samples_per_packet none = silence samples_per_packet

abbrev pub frame_of : Option ℕ → Option ℕ → Option Frame
frame_of (some l) (some r) = some (record { left = convint8 l; right = convint8 r })
frame_of _ _ = none

abbrev pub cons_frame : Option Frame → Option (List Frame) → Option (List Frame)
cons_frame (some f) (some fs) = some (f ∷ fs)
cons_frame _ _ = none

-- The loop over the frames from `i` on, `count` of them; `none` is the panic of an index.
unfoldable pub convert_frames : ℕ → ℕ → List ℕ → Option (List Frame)
convert_frames zero i audio = some []
convert_frames (suc count) i audio =
    cons_frame (frame_of (get_elem? audio (i * 2 + 0)) (get_elem? audio (i * 2 + 1)))
      (convert_frames count (suc i) audio)

-- Samples two by two.
abbrev pub pairs : List ℕ → List Frame
pairs [] = []
pairs (l ∷ []) = []
pairs (l ∷ r ∷ rest) = record { left = convint8 l; right = convint8 r } ∷ pairs rest

get_elem?-behind :
    (before after : List ℕ) (x : ℕ) (i : ℕ)
    → i ≡ length before
    → get_elem? (before ++ (x ∷ after)) i ≡ some x
get_elem?-behind [] after x zero e = refl
get_elem?-behind [] after x (suc i) e = absurd (omega arith)
get_elem?-behind (b ∷ before) after x zero e = absurd (omega arith)
get_elem?-behind (b ∷ before) after x (suc i) e = get_elem?-behind before after x i (omega arith)

convert_frames-behind :
    (count i : ℕ) (before after : List ℕ)
    → length before ≡ i * 2
    → length after ≡ count * 2
    → convert_frames count i (before ++ after) ≡ some (pairs after)
unfolding convert_frames
convert_frames-behind zero i before [] b a = refl
convert_frames-behind zero i before (x ∷ after) b a = absurd (omega arith)
convert_frames-behind (suc count) i before [] b a = absurd (omega arith)
convert_frames-behind (suc count) i before (l ∷ []) b a = absurd (omega arith)
convert_frames-behind (suc count) i before (l ∷ r ∷ after) b a =
    let here = get_elem?-behind before (r ∷ after) l (i * 2 + 0) (omega arith) in
    let one = append_assoc before (l ∷ []) (r ∷ after) in
    let next =
      ap (λ a. get_elem? a (i * 2 + 1)) (sym one)
      ∙ get_elem?-behind (before ++ (l ∷ [])) after r (i * 2 + 1)
          (omega (arith, b, length-append before (l ∷ []))) in
    let two = append_assoc before (l ∷ r ∷ []) after in
    let rest =
      ap (convert_frames count (suc i)) (sym two)
      ∙ convert_frames-behind count (suc i) (before ++ (l ∷ r ∷ [])) after
          (omega (arith, b, length-append before (l ∷ r ∷ []))) (omega arith) in
    rw (here, next, rest) refl

-- Of a packet with two samples for each frame, or of the silence in place of one, no index is out
-- of bounds, and the frames written are the samples two by two, left first, converted.
pub convert_frames-pairs :
    (frames_per_packet samples_per_packet : ℕ) (packet : Option (List ℕ))
    → samples_per_packet ≡ frames_per_packet * 2
    → length (audio_of samples_per_packet packet) ≡ samples_per_packet
    → convert_frames frames_per_packet 0 (audio_of samples_per_packet packet)
      ≡ some (pairs (audio_of samples_per_packet packet))
convert_frames-pairs n samples packet two len =
    convert_frames-behind n 0 [] (audio_of samples packet) (omega arith) (omega arith)
