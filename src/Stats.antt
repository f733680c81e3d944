-- ===== src/Stats.antt =====
-- The counters of src/stats.rs: each is an `AtomicU32`, whose operations are single atomic steps.
pub mod Counters
pub mod Report
use Counters.{Counter}

-- `struct Stats`
pub record Stats : Type 0 where
  pub wifi_packets_received : Counter
  pub packets_dropped_in_protocol_queue : Counter
  pub audio_packets_received_on_time : Counter
  pub audio_packets_received_late : Counter
  pub audio_packets_received_early : Counter
  pub stream_hit : Counter
  pub stream_miss : Counter
  pub dac_frames_sent : Counter
  pub dac_underruns : Counter

abbrev pub new : Stats
new = record {
  wifi_packets_received = Counters.new;
  packets_dropped_in_protocol_queue = Counters.new;
  audio_packets_received_on_time = Counters.new;
  audio_packets_received_late = Counters.new;
  audio_packets_received_early = Counters.new;
  stream_hit = Counters.new;
  stream_miss = Counters.new;
  dac_frames_sent = Counters.new;
  dac_underruns = Counters.new;
}
