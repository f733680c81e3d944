-- ===== src/App/Stream/Run.antt =====
-- The loop of `run_stream`, src/app/stream.rs: the audio task between the packet queue and the DAC.
pub mod Sends
pub mod Stops
use bark_esp.Base.{
  ℕ, ◌+◌, ◌*◌, Option, none, some, List, [], ◌∷◌, ◌++◌, Outcome, returns, panics, out_of_fuel, Bool,
  length, if◌then◌else◌,
}
use bark_esp.Extern.Deque.{Deque}
use bark_esp.Task.Registry.TaskSlot.{Slots}
use bark_esp.App.Queue.{max_queued_packets}
use bark_esp.App.PacketQueue.{PacketQueue, disconnected, pop_front}
use bark_esp.Platform.Dac.{Frame, DmaFrame, Statics}
use bark_esp.Platform.Dac.Loop.{Schedule, write}
use bark_esp.App.Stream.Play.{count_played, audio_of, convert_frames}

-- `packet.buffer()`, for the packets of bark_protocol and their samples
abbrev pub buffer_of : {Audio : Type 0} → (Audio → List ℕ) → Option Audio → Option (List ℕ)
buffer_of samples none = none
buffer_of samples (some packet) = some (samples packet)

module _ (Audio : Type 0) (seq : Audio → ℕ) (D : Deque (Option Audio) max_queued_packets) where
  -- What the other tasks do to the queue before a round of the loop, and when interrupts come.
  pub record Turn : Type 0 where
    pub meanwhile : PacketQueue Audio seq D → PacketQueue Audio seq D
    pub schedule : Schedule

  pub record Player : Type 0 where
    pub queue : PacketQueue Audio seq D
    pub statics : Statics

  -- What came of some rounds: what was sent, and the packets taken, `none` for each that was
  -- missing.
  pub record Played : Type 0 where
    pub sent : List DmaFrame
    pub packets : List (Option Audio)
    pub last : Player

  -- `dac.write(&buff)` for the converted frames, after which the loop goes on.
  abbrev pub written :
      Option Audio → Option (List DmaFrame × Statics) → PacketQueue Audio seq D → Outcome Played
  written packet none q = out_of_fuel
  written packet (some (sent, s)) q =
      returns
        (record { sent = sent; packets = packet ∷ []; last = record { queue = q; statics = s } })

  -- One round, and then the others.
  abbrev pub followed : Played → Outcome Played → Outcome Played
  followed p (returns rest) =
      returns (record {
        sent = p.sent ++ rest.sent;
        packets = p.packets ++ rest.packets;
        last = rest.last;
      })
  followed p panics = panics
  followed p out_of_fuel = out_of_fuel

  abbrev pub nothing_played : Player → Played
  nothing_played p = record { sent = []; packets = []; last = p }

  module _ (samples : Audio → List ℕ) (samples_per_packet frames_per_packet : ℕ) (notify : ℕ → Bool)
      (slots : Slots) (id : ℕ) where
    abbrev pub play_frames :
        Option Audio
        → Option (List Frame)
        → Schedule
        → PacketQueue Audio seq D
        → Statics
        → Outcome Played
    play_frames packet none t q s = panics
    play_frames packet (some frames) t q s =
        written packet (write notify slots id (2 * length frames + t.limit) t frames s) q

    -- A round on a queue that is connected.
    unfoldable pub round : Schedule → PacketQueue Audio seq D → Statics → Outcome Played
    round t q s =
        let (packet, q') = pop_front Audio seq D q in
        let frames =
          convert_frames frames_per_packet 0
            (audio_of samples_per_packet (buffer_of samples packet)) in
        play_frames packet frames t q' (record s { stats = count_played packet s.stats })

    -- The rounds of the loop, up to the last turn or to where the queue is disconnected.
    unfoldable pub run : List Turn → Player → Outcome Played
    run [] p = returns (nothing_played p)
    run (t ∷ ts) p =
        let q = t.meanwhile p.queue in
        if disconnected Audio seq D q
        then returns (nothing_played (record p { queue = q }))
        else elim (round t.schedule q p.statics) [
          | returns r ↦ followed r (run ts r.last)
          | panics ↦ panics
          | out_of_fuel ↦ out_of_fuel
        ]
