-- ===== src/App/Stream/Session.antt =====
-- The two tasks of a stream together: the application task, which puts the packets that come into
-- the packet queue (`receive_audio` of src/app/stream.rs), and the audio task, which takes them
-- out and plays them (`run_stream`). Both hold the queue's lock for an operation, so what counts of
-- their order is which packets come before which round.
pub mod Ordered
use bark_esp.Base.{
  ℕ, Option, List, [], ◌∷◌, Outcome, returns, panics, out_of_fuel, Bool, if◌then◌else◌,
}
use bark_esp.Extern.Deque.{Deque}
use bark_esp.Stats.{Stats}
use bark_esp.Task.Registry.TaskSlot.{Slots}
use bark_esp.App.Queue.{max_queued_packets}
use bark_esp.App.Queue.Order.{Op, receive, play}
use bark_esp.App.PacketQueue.{PacketQueue, disconnected, receive_packet}
use bark_esp.Platform.Dac.Loop.{Schedule}
use bark_esp.App.Stream.Run.{Player, Played, round, followed, nothing_played}

-- The packets that come before a round of the loop, and when interrupts come in it.
pub record Interval (Audio : Type 0) : Type 0 where
  pub arrivals : List Audio
  pub schedule : Schedule

module _ {Audio : Type 0} where
  abbrev pub received : List Audio → List (Op Audio) → List (Op Audio)
  received [] ops = ops
  received (p ∷ ps) ops = receive p ∷ received ps ops

  -- The operations on the queue, in order.
  abbrev pub ops_of : List (Interval Audio) → List (Op Audio)
  ops_of [] = []
  ops_of (t ∷ ts) = received t.arrivals (play ∷ ops_of ts)

module _ (Audio : Type 0) (seq : Audio → ℕ) (D : Deque (Option Audio) max_queued_packets) where
  -- `self.queue.receive_packet(packet)` for each.
  unfoldable pub receive_all :
      List Audio → PacketQueue Audio seq D → Stats → Outcome (PacketQueue Audio seq D × Stats)
  receive_all [] q t = returns (q, t)
  receive_all (p ∷ ps) q t = elim (receive_packet Audio seq D p q t) [
    | returns (q', t') ↦ receive_all ps q' t'
    | panics ↦ panics
    | out_of_fuel ↦ out_of_fuel
  ]

  module _ (samples : Audio → List ℕ) (samples_per_packet frames_per_packet : ℕ) (notify : ℕ → Bool)
      (slots : Slots) (id : ℕ) where
    -- The rounds of the loop, each after the packets that come before it.
    unfoldable pub session :
        List (Interval Audio) → Player Audio seq D → Outcome (Played Audio seq D)
    session [] p = returns (nothing_played Audio seq D p)
    session (t ∷ ts) p = elim (receive_all t.arrivals p.queue p.statics.stats) [
      | panics ↦ panics
      | out_of_fuel ↦ out_of_fuel
      | returns (q, stats) ↦
          let s = record p.statics { stats = stats } in
          if disconnected Audio seq D q
          then returns (nothing_played Audio seq D (record { queue = q; statics = s }))
          else elim (round Audio seq D samples samples_per_packet frames_per_packet notify slots id
              t.schedule q s) [
                | returns r ↦ followed Audio seq D r (session ts r.last)
                | panics ↦ panics
                | out_of_fuel ↦ out_of_fuel
              ]
    ]
