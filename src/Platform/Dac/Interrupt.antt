-- ===== src/Platform/Dac/Interrupt.antt =====
-- What the interrupt handler of the DAC sends.
use bark_esp.Base.{
  ℕ, zero, suc, ◌+◌, ◌-◌, min, ◌≤◌, ◌<◌, ◌≡◌, refl, sym, ap, ◌∙◌, List, [], ◌∷◌, ◌++◌, length, take,
  drop, arith, Bool, if◌then◌else◌, append-nil, length-append, length-take, length-drop, drop-min,
  take-all, drop-all, take-append_left, dec_lt, lt→ltb, le→ltb-false, ltb, map, replicate,
  length-map,
}
use bark_esp.Stats.{Stats}
use bark_esp.Stats.Counters.{increment}
use bark_esp.Sync.RingBuffer.{buffer_len, copy_from_split}
use bark_esp.Sync.RingBuffer.Contents.{IsValid, contents, used, length-contents}
use bark_esp.Sync.RingBuffer.Read.{copy_from_split_lem, read_in_place_refines}
use bark_esp.Task.Registry.TaskSlot.{Slots}
use bark_esp.Task.Waker.{empty_set, wake_from_isr, take_wakeable}
use bark_esp.Platform.Dac.{
  Frame, DmaFrame, Statics, of_frame, silence, fill_output, pad, on_convert_done,
}

map-take : (n : ℕ) (xs : List Frame) → map of_frame (take n xs) ≡ take n (map of_frame xs)
map-take zero xs = refl
map-take (suc n) [] = refl
map-take (suc n) (x ∷ xs) = ap (λ l. of_frame x ∷ l) (map-take n xs)

map-append : (xs ys : List Frame) → map of_frame (xs ++ ys) ≡ map of_frame xs ++ map of_frame ys
map-append [] ys = refl
map-append (x ∷ xs) ys = ap (λ l. of_frame x ∷ l) (map-append xs ys)

fill_output_lem :
    (output : List DmaFrame) (left right : List Frame)
    → fill_output output left right
      ≡ copy_from_split (map of_frame left) (map of_frame right) output
unfolding fill_output copy_from_split
fill_output_lem output left right =
    rw (length-map of_frame left, length-map of_frame right, map-take _ left, map-take _ right) refl

module _ (output : List DmaFrame) where
  fill_output-le :
      (left right : List Frame) → (fill_output output left right).1 ≤ length left + length right
  fill_output-le left right =
      rw
        (
          fill_output_lem output left right,
          copy_from_split_lem (map of_frame left) (map of_frame right) output,
        )
        (omega (arith, length-map of_frame left, length-map of_frame right))

  pad_few :
      (frames : List DmaFrame) (k : ℕ) (stats : Stats)
      → length frames ≡ k
      → k < length output
      → pad (min (length output) k) (take (length output) frames ++ drop k output) stats ≡ (
        frames ++ replicate (length output - k) silence,
        record stats { dac_underruns = increment stats.dac_underruns },
      )
  pad_few frames k stats e few =
      let count : length (frames ++ drop k output) ≡ length output =
        omega (arith, length-append frames (drop k output), length-drop k output) in
      let least : min (length output) k ≡ k = omega arith in
      let all : take (length output) frames ≡ frames =
        take-all (length output) frames (omega arith) in
      let front : take k (frames ++ drop k output) ≡ frames =
        take-append_left k frames (drop k output) (omega arith) ∙ take-all k frames (omega arith) in
      rw (all, least, count, lt→ltb k (length output) few, front) refl

  pad_enough :
      (frames : List DmaFrame) (k : ℕ) (stats : Stats)
      → length frames ≡ k
      → length output ≤ k
      → pad (min (length output) k) (take (length output) frames ++ drop k output) stats
        ≡ (take (length output) frames, stats)
  pad_enough frames k stats e enough =
      let least : min (length output) k ≡ length output = omega arith in
      let count : length (take (length output) frames) ≡ length output =
        omega (arith, length-take (length output) frames) in
      rw
        (
          drop-all k output enough,
          append-nil (take (length output) frames),
          least,
          count,
          le→ltb-false (length output) (length output) (omega arith),
        )
        refl

module _ (output : List DmaFrame) (s : Statics) (v : IsValid s.buffer) where
  -- What the callback leaves in the output, for slices that are the contents of the ring.
  filled :
      (left right : List Frame)
      → left ++ right ≡ contents s.buffer
      → fill_output output left right ≡ (
        take (length output) (map of_frame (contents s.buffer)) ++ drop (used s.buffer) output,
        min (length output) (used s.buffer),
      )
  filled left right e =
      fill_output_lem output left right
      ∙ copy_from_split_lem (map of_frame left) (map of_frame right) output
      ∙ rw (sym (map-append left right), e, count) refl
    where
      count : length (map of_frame left) + length (map of_frame right) ≡ used s.buffer
      count = omega (
        arith,
        length-map of_frame left,
        length-map of_frame right,
        length-append left right,
        ap length e,
        length-contents v,
      )

  padded :
      (stats : Stats)
      → pad
          (min (length output) (used s.buffer))
          (take (length output) (map of_frame (contents s.buffer)) ++ drop (used s.buffer) output)
          stats
        ≡ (
          take (length output) (map of_frame (contents s.buffer))
              ++ replicate (length output - used s.buffer) silence,
          if ltb (used s.buffer) (length output)
              then record stats { dac_underruns = increment stats.dac_underruns }
              else stats,
        )
  padded stats =
      let count : length (map of_frame (contents s.buffer)) ≡ used s.buffer =
        omega (arith, length-map of_frame (contents s.buffer), length-contents v) in
      elim (dec_lt (used s.buffer) (length output)) [
        | yes few ↦
            let all : take (length output) (map of_frame (contents s.buffer))
                ≡ map of_frame (contents s.buffer) =
              take-all (length output) (map of_frame (contents s.buffer)) (omega arith) in
            pad_few output (map of_frame (contents s.buffer)) (used s.buffer) stats count few
            ∙ rw (all, lt→ltb (used s.buffer) (length output) few) refl
        | no enough ↦
            let nothing : length output - used s.buffer ≡ 0 = omega arith in
            pad_enough output (map of_frame (contents s.buffer)) (used s.buffer) stats count
              (omega arith)
            ∙ rw
                (
                  nothing,
                  append-nil (take (length output) (map of_frame (contents s.buffer))),
                  le→ltb-false (used s.buffer) (length output) (omega arith),
                )
                refl
      ]

  -- An interrupt sends the oldest frames of the ring, converted, as many as there are or fit, then
  -- silence up to the length of the output; just the frames sent leave the ring, which stays valid,
  -- the underruns are counted exactly if there was too little, and the waker set is left empty.
  pub on_convert_done-sends :
      (notify : ℕ → Bool) (slots : Slots)
      → let (sent, need_wake, s') = on_convert_done notify slots output s in
        (sent
          ≡ take (length output) (map of_frame (contents s.buffer))
            ++ replicate (length output - used s.buffer) silence)
        × (contents s'.buffer ≡ drop (length output) (contents s.buffer))
        × IsValid s'.buffer
        × (s'.waker ≡ empty_set)
        × (s'.stats.dac_underruns ≡ (
            if ltb (used s.buffer) (length output)
            then increment s.stats.dac_underruns
            else s.stats.dac_underruns))
  unfolding on_convert_done wake_from_isr take_wakeable
  on_convert_done-sends notify slots =
      let (left, right, all, e, rest, valid, same_writer, same_buffer) =
        read_in_place_refines (fill_output output) v (fill_output-le output) in
      let copied = e ∙ filled left right all in
      let done = ap (λ p. pad p.1 p.0 s.stats) copied ∙ padded s.stats in
      (
        ap (λ p. p.0) done,
        rest ∙ ap (λ p. drop p.1 (contents s.buffer)) copied ∙ clipped,
        valid,
        refl,
        ap (λ p. p.1.dac_underruns) done ∙ ground arith,
      )
    where
      least : min (length output) (used s.buffer) ≡ min (length (contents s.buffer)) (length output)
      least = omega (arith, length-contents v)

      clipped :
          drop (min (length output) (used s.buffer)) (contents s.buffer)
          ≡ drop (length output) (contents s.buffer)
      clipped =
          ap (λ k. drop k (contents s.buffer)) least ∙ drop-min (length output) (contents s.buffer)

  pub on_convert_done-len :
      (notify : ℕ → Bool) (slots : Slots)
      → let (sent, need_wake, s') = on_convert_done notify slots output s in
        buffer_len s'.buffer ≡ buffer_len s.buffer
  unfolding on_convert_done
  on_convert_done-len notify slots =
      let (left, right, all, e, rest, valid, same_writer, same_buffer) =
        read_in_place_refines (fill_output output) v (fill_output-le output) in
      ap length same_buffer
