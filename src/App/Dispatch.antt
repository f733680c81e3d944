-- ===== src/App/Dispatch.antt =====
-- The loop of `task` in src/app/mod.rs. The packets and their headers are bark_protocol's.
pub mod Session
pub mod Queued
use bark_esp.Base.{
  ℕ, ◌≡◌, ◌≢◌, Option, none, some, List, [], ◌∷◌, Bool, Result, ok, err, ◌==◌, if◌then◌else◌, arith,
}
use bark_esp.App.Receiver.{Stream, prepare_stream, get_stream, receive_audio}

-- `TimePhase`
pub data TimePhase : Type 0 where
  broadcast : TimePhase
  stream_reply : TimePhase
  other_phase : TimePhase

-- `PacketKind`
pub data PacketKind (Audio Time : Type 0) : Type 0 where
  audio : Audio → PacketKind Audio Time
  time : Time → PacketKind Audio Time
  unhandled : PacketKind Audio Time

-- What the loop uses of bark_protocol.
pub record Packets (Audio Time : Type 0) : Type 0 where
  pub sid : Audio → ℕ
  pub seq : Audio → ℕ
  pub time_sid : Time → ℕ
  -- `none` for a phase that is invalid
  pub phase : Time → Option TimePhase
  pub set_receive_2 : ℕ → Time → Time

-- What the loop uses of the stream's parts, and of the system around it.
pub record Parts (Audio Time Queue Timing Addr AllocError SocketError : Type 0) : Type 0 where
  pub delay : ℕ
  -- `none` for a panic
  pub insert : Audio → Queue → Option Queue
  pub timing : Timing
  pub receive_packet : Time → Timing → Timing
  pub new_queue : ℕ → Result Queue AllocError
  -- whether a task can be created for the stream of a packet
  pub spawn : Audio → Bool
  pub timestamp : Time → ℕ
  pub send : Time → Addr → Result (Unit {0}) SocketError

-- How a round of the loop ends.
pub data Round (Receiver SocketError : Type 0) : Type 0 where
  next_round : Receiver → Round Receiver SocketError
  -- `?` on the result of `send`
  failed : SocketError → Round Receiver SocketError
  panicked : Round Receiver SocketError

module _ {Audio Time Queue Timing Addr AllocError SocketError : Type 0} (P : Packets Audio Time)
    (X : Parts Audio Time Queue Timing Addr AllocError SocketError) where
  abbrev pub Receiver : Type 0
  Receiver = Option (Stream Queue Timing)

  abbrev pub after_audio : Option (Stream Queue Timing) → Round Receiver SocketError
  after_audio (some stream) = next_round (some stream)
  after_audio none = panicked

  abbrev pub into_stream : Audio → Receiver → Round Receiver SocketError
  into_stream a (some stream) =
      after_audio (receive_audio Queue Timing X.delay (X.insert a) (X.spawn a) stream)
  into_stream a none = next_round none

  abbrev pub receive_time : Time → Stream Queue Timing → Stream Queue Timing
  receive_time t stream = record stream { timing = X.receive_packet t stream.timing }

  abbrev pub after_send : Receiver → Result (Unit {0}) SocketError → Round Receiver SocketError
  after_send r (ok _) = next_round r
  after_send r (err e) = failed e

  -- `get_stream` gives the receiver's own stream, by reference.
  abbrev pub time_into : Time → Receiver → Option (Stream Queue Timing) → Receiver
  time_into t r (some stream) = some (receive_time t stream)
  time_into t r none = r

  unfoldable pub handle_time : Time → Addr → Receiver → Round Receiver SocketError
  handle_time t addr r = elim (P.phase t) [
    | some broadcast ↦ after_send r (X.send (P.set_receive_2 (X.timestamp t) t) addr)
    | some stream_reply ↦
        next_round (time_into t r (get_stream Queue Timing X.delay (P.time_sid t) r))
    | some other_phase ↦ next_round r
    | none ↦ next_round r
  ]

  -- A round of the loop, for a packet that `receive` returned.
  unfoldable pub handle : PacketKind Audio Time → Addr → Receiver → Round Receiver SocketError
  handle (audio a) addr r =
      into_stream a (prepare_stream Queue Timing X.delay X.timing X.new_queue (P.sid a) (P.seq a) r)
  handle (time t) addr r = handle_time t addr r
  handle unhandled addr r = next_round r

  -- A round of the loop, for what `receive` returned.
  unfoldable pub round :
      {E : Type 0} → Result (PacketKind Audio Time × Addr) E → Receiver → Round Receiver SocketError
  round (ok (packet, addr)) r = handle packet addr r
  round (err e) r = next_round r

  -- The loop, up to the first round that ends it, for the results of `receive` in order.
  unfoldable pub run :
      {E : Type 0}
      → List (Result (PacketKind Audio Time × Addr) E)
      → Receiver
      → Round Receiver SocketError
  run [] r = next_round r
  run (x ∷ xs) r = elim (round x r) [
    | next_round r' ↦ run xs r'
    | failed e ↦ failed e
    | panicked ↦ panicked
  ]

  -- A time packet leaves the receiver as it is, unless it is a reply to the session of the current
  -- stream: then just the timing of that stream takes it. A round on it never panics.
  handle_time-only :
      (t : Time) (addr : Addr) (s : Stream Queue Timing) (r' : Receiver)
      → handle (time t) addr (some s) ≡ next_round r'
      → (r' ≡ (
          if s.sid == P.time_sid t
          then elim (P.phase t) [
            | some stream_reply ↦ some (receive_time t s)
            | some broadcast ↦ some s
            | some other_phase ↦ some s
            | none ↦ some s
          ]
          else some s))
        × (handle (time t) addr (some s) ≢ panicked)
  unfolding handle handle_time get_stream
  handle_time-only t addr s r' e = ground arith
