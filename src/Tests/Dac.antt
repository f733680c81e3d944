-- ===== src/Tests/Dac.antt =====
-- The DAC of src/platform/dac.rs, with a ring of five frames that holds two, and addresses.
use bark_esp.Base.{
  some, ◌==◌, if◌then◌else◌, ℕ, suc, ◌≡◌, true, ◌+◌, ◌*◌, ◌≤◌, List, [], ◌∷◌, ◌++◌, arith,
}
use bark_esp.Stats
use bark_esp.Stats.Counters.{increment}
use bark_esp.Sync.RingBuffer.{buffer_len}
use bark_esp.Sync.RingBuffer.Contents.{IsValid, contents}
use bark_esp.Task.Registry.TaskSlot.{Slots}
use bark_esp.Task.Waker.{empty_set}
use bark_esp.Platform.Dac.{Frame, DmaFrame, Statics, zero_frame, silence, of_frame, on_convert_done}
use bark_esp.Platform.Dac.Loop.{Schedule, count_spurious, write}
use bark_esp.Platform.Dac.Loop.Drain.{Padded}
use bark_esp.Platform.Dac.Loop.Finish.{write_finishes}
use bark_esp.Platform.Dac.Interrupt.{on_convert_done-sends}
use bark_esp.Platform.Net.{Ipv4Addr}

abbrev frame : ℕ → Frame
frame n = record { left = n; right = 255 }

-- frames 8 and 9, round the end
abbrev statics : Statics
statics = record {
  buffer = record {
    reader = 4;
    writer = 1;
    buffer = frame 9 ∷ zero_frame ∷ zero_frame ∷ zero_frame ∷ frame 8 ∷ [];
  };
  waker = empty_set;
  stats = Stats.new;
}

valid : IsValid statics.buffer
valid = omega arith

abbrev slots : Slots
slots = suc

abbrev output : List DmaFrame
output = silence ∷ silence ∷ silence ∷ []

-- Three frames, for a ring with room for two: an interrupt before a poll, a wait that is ended by a
-- spurious wake-up, and an interrupt in each other wait.
abbrev interrupting : Schedule
interrupting = record {
  before = λ rounds. if rounds == 4 then output ∷ [] else [];
  wakes = λ rounds. silence ∷ [];
  spurious = λ rounds. rounds == 5;
  limit = 1;
}

few : 2 * 3 + count_spurious interrupting.spurious 7 ≤ 7
unfolding count_spurious
few = omega arith

write_finishes_example :
    (sent : List DmaFrame) × (s' : Statics) × (write
        (λ task. true)
        slots
        3
        7
        interrupting
        (frame 1 ∷ frame 2 ∷ frame 3 ∷ [])
        statics
      ≡ some (sent, s'))
    × (IsValid s'.buffer)
    × (buffer_len s'.buffer ≡ 5)
    × ((played : List Frame) × (played ++ contents s'.buffer
          ≡ frame 8 ∷ frame 9 ∷ frame 1 ∷ frame 2 ∷ frame 3 ∷ [])
        × Padded played sent)
write_finishes_example =
    write_finishes (λ task. true) slots 3 (omega arith) (omega arith) interrupting
      (λ i. omega arith) 7 (frame 1 ∷ frame 2 ∷ frame 3 ∷ []) statics few valid (omega arith)

on_convert_done-sends_example :
    let (sent, need_wake, s') = on_convert_done (λ task. true) slots output statics in
    (sent ≡ of_frame (frame 8) ∷ of_frame (frame 9) ∷ silence ∷ [])
    × (contents s'.buffer ≡ [])
    × IsValid s'.buffer
    × (s'.waker ≡ empty_set)
    × (s'.stats.dac_underruns ≡ increment Stats.new.dac_underruns)
on_convert_done-sends_example = on_convert_done-sends output statics valid (λ task. true) slots

abbrev group : Ipv4Addr
group = record { octet0 = 224; octet1 = 100; octet2 = 100; octet3 = 101 }

-- Interface 1 with the lwIP interface 2, on which calls return 0.
