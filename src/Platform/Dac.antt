-- ===== src/Platform/Dac.antt =====
-- The DAC driver, src/platform/dac.rs: the frames that go through its ring buffer. An `i8` is its
-- pattern of eight bits, a number below 256.
pub mod Interrupt
pub mod Write
pub mod Loop
pub mod Setup
pub mod Frees
use bark_esp.Base.{
  ℕ, ◌+◌, ◌-◌, ◌*◌, ◌%◌, ◌^◌, ◌++◌, min, ◌==◌, if◌then◌else◌, ltb, Bool, List, length, take, drop,
  map, blit, replicate,
}
use bark_esp.Stats.{Stats}
use bark_esp.Stats.Counters.{add, increment}
use bark_esp.Sync.Isr.{IsrResult}
use bark_esp.Sync.RingBuffer.{RingBuffer, read_in_place, write, reset, fill}
use bark_esp.Sync.Queue.{Poll, ready, pending}
use bark_esp.Task.Registry.TaskSlot.{Slots}
use bark_esp.Task.Waker.{TaskWakerSet, add_task, wake_from_isr}

pub record Frame : Type 0 where
  pub left : ℕ
  pub right : ℕ

pub record DmaFrame : Type 0 where
  pub left : ℕ
  pub right : ℕ

-- `Frame::default`
abbrev pub zero_frame : Frame
zero_frame = record { left = 0; right = 0 }

-- `DmaFrame::default`
abbrev pub silence : DmaFrame
silence = record { left = 0x8000; right = 0x8000 }

-- `0x80u8.wrapping_add_signed(value)`, then `u16::from(..) << 8`
abbrev pub convert_sample : ℕ → ℕ
convert_sample value = (0x80 + value) % 2 ^ 8 * 2 ^ 8

-- `DmaFrame::from`
abbrev pub of_frame : Frame → DmaFrame
of_frame f = record { left = convert_sample f.left; right = convert_sample f.right }

-- The statics `BUFFER`, `WAKER` and `STATS`.
pub record Statics : Type 0 where
  pub buffer : RingBuffer Frame
  pub waker : TaskWakerSet
  pub stats : Stats

-- What `Dac::new` does to the buffer.
unfoldable pub init_buffer : RingBuffer Frame → RingBuffer Frame
init_buffer r = fill zero_frame (reset r)

-- `poll_write` by the task with the id `id`
unfoldable pub poll_write : ℕ → List Frame → Statics → Poll ℕ × Statics
poll_write id frames s =
    let (n, buffer) = write frames s.buffer in
    if n == 0
    then (pending, record s { buffer = buffer; waker = add_task id s.waker })
    else (ready n, record s { buffer = buffer })

-- What a round of the loop of `write` leaves to be written.
abbrev pub advance : Poll ℕ → List Frame → List Frame
advance (ready n) frames = drop n frames
advance pending frames = frames

-- The callback of `on_convert_done`, which fills `output` from the two slices.
unfoldable pub fill_output : List DmaFrame → List Frame → List Frame → List DmaFrame × ℕ
fill_output output slice1 slice2 =
    let n1 = min (length output) (length slice1) in
    let output' = blit output 0 (map of_frame (take n1 slice1)) in
    let n2 = min (length output - n1) (length slice2) in
    (blit output' n1 (map of_frame (take n2 slice2)), n1 + n2)

-- The tail of the output that the ring had no frames for, and the count of such outputs.
abbrev pub pad : ℕ → List DmaFrame → Stats → List DmaFrame × Stats
pad n output stats =
    if ltb n (length output)
    then (
      take n output ++ replicate (length output - n) silence,
      record stats { dac_underruns = increment stats.dac_underruns },
    )
    else (output, stats)

-- `notify` says which task a notification asks to switch to.
unfoldable pub on_convert_done :
    (ℕ → Bool) → Slots → List DmaFrame → Statics → List DmaFrame × Bool × Statics
on_convert_done notify slots output s =
    let (output', n, buffer) = read_in_place (fill_output output) s.buffer in
    let (output'', stats) = pad n output' s.stats in
    let stats' = record stats { dac_frames_sent = add (n % 2 ^ 32) stats.dac_frames_sent } in
    let (result, waker) = wake_from_isr ⊥ notify slots s.waker in
    (output'', result.need_wake, record { buffer = buffer; waker = waker; stats = stats' })
