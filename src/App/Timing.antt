-- ===== src/App/Timing.antt =====
-- `Timing` of src/app/timing.rs: the medians of the last samples of the latency and of the clocks'
-- difference.
pub mod Median
use bark_esp.Base.{ℕ, ◌-◌, ◌/◌, List, Option, none, some, leb, if◌then◌else◌, length, get_elem?}
use bark_esp.Extern.HistoryBuffer.{HistoryBuffer, Ord, Sort}

abbrev pub sample_history : ℕ
sample_history = 64

-- `Aggregate`
module _ (T : Type 0) (H : HistoryBuffer T sample_history) (o : Ord T) (S : Sort o) where
  unfoldable pub observe : T → H.Carrier → H.Carrier
  observe value samples = H.write value samples

  -- The vector has the capacity of the buffer, so the copy of the slice fits.
  unfoldable pub median : H.Carrier → Option T
  median samples = let sorted = S.sort (H.slice samples) in get_elem? sorted (length sorted / 2)

-- `Timing`. `Duration` is its microseconds, and `ClockDelta` is bark_protocol's.
module _ (ClockDelta : Type 0) (L : HistoryBuffer ℕ sample_history)
    (C : HistoryBuffer ClockDelta sample_history) where
  pub record Timing : Type 0 where
    pub latency : L.Carrier
    pub clock_delta : C.Carrier

  -- `receive_packet`, for the times of the packet and `ClockDelta::from_time_packet`
  unfoldable pub receive_packet : ℕ → ℕ → ClockDelta → Timing → Timing
  receive_packet stream_1_usec stream_3_usec delta t =
      if leb stream_1_usec stream_3_usec
      then (record t {
        latency = L.write ((stream_3_usec - stream_1_usec) / 2) t.latency;
        clock_delta = C.write delta t.clock_delta;
      })
      else t
