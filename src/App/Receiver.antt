-- ===== src/App/Receiver.antt =====
-- The receiver of src/app/mod.rs, and the part of src/app/stream.rs that starts the audio task.
use bark_esp.Base.{
  ℕ, zero, suc, ◌+◌, ◌/◌, ◌*◌, ◌≤◌, ◌<◌, ◌≡◌, refl, ap, ◌∙◌, Option, none, some, Bool, true, false,
  Result, ok, err, ltb, ◌==◌, if◌then◌else◌, arith, inl, inr, Bool-cases,
}

pub data BufferStart : Type 0 where
  receiving_packets : ℕ → BufferStart
  started : BufferStart

-- `Stream`, with the queue that it owns and the times that it was given; a session id is its
-- number.
pub record Stream (Queue Timing : Type 0) : Type 0 where
  pub sid : ℕ
  pub timing : Timing
  pub queue : Queue
  pub start : BufferStart

-- `DELAY_START_PACKETS`, for the constants of the protocol
abbrev pub delay_start_packets : ℕ → ℕ → ℕ
delay_start_packets sample_rate frames_per_packet = 50 * sample_rate / 1000 / frames_per_packet

module _ (Queue Timing : Type 0) (delay : ℕ) where
  -- `start_task`; `spawn` says whether the task could be created, and `none` is the panic of
  -- `unwrap` when it could not.
  unfoldable pub start_task : Bool → Stream Queue Timing → Option (Stream Queue Timing)
  start_task true s = some (record s { start = started })
  start_task false s = none

  -- The part of `receive_audio` after the packet went into the queue.
  unfoldable pub count_packet :
      Bool → BufferStart → Stream Queue Timing → Option (Stream Queue Timing)
  count_packet spawn started s = some s
  count_packet spawn (receiving_packets count) s =
      let s' = record s { start = receiving_packets (count + 1) } in
      if ltb delay (count + 1) then start_task spawn s' else some s'

  -- `receive_audio`, where `insert` is what the packet queue does with the packet; `none` is a
  -- panic, also one of `insert`.
  unfoldable pub receive_audio :
      (Queue → Option Queue) → Bool → Stream Queue Timing → Option (Stream Queue Timing)
  receive_audio insert spawn s = elim (insert s.queue) [
    | some queue ↦ count_packet spawn s.start (record s { queue = queue })
    | none ↦ none
  ]

  -- `get_stream`
  unfoldable pub get_stream : ℕ → Option (Stream Queue Timing) → Option (Stream Queue Timing)
  get_stream sid none = none
  get_stream sid (some stream) = if stream.sid == sid then some stream else none

  -- `Stream::new`, for the result of `PacketQueue::new`
  unfoldable pub new_stream :
      {E : Type 0} → Timing → (ℕ → Result Queue E) → ℕ → ℕ → Result (Stream Queue Timing) E
  new_stream timing new_queue sid seq = elim (new_queue seq) [
    | ok queue ↦
        ok (record { sid = sid; timing = timing; queue = queue; start = receiving_packets 0 })
    | err e ↦ err e
  ]

  abbrev pub is_new : ℕ → Option (Stream Queue Timing) → Bool
  is_new sid none = true
  is_new sid (some stream) = ltb stream.sid sid

  abbrev pub keep_ok : {E : Type 0} → Result (Stream Queue Timing) E → Option (Stream Queue Timing)
  keep_ok (ok stream) = some stream
  keep_ok (err e) = none

  -- `prepare_stream`, which returns what it leaves in the receiver
  unfoldable pub prepare_stream :
      {E : Type 0}
      → Timing
      → (ℕ → Result Queue E)
      → ℕ
      → ℕ
      → Option (Stream Queue Timing)
      → Option (Stream Queue Timing)
  prepare_stream timing new_queue sid seq stream =
      if is_new sid stream then keep_ok (new_stream timing new_queue sid seq) else stream

  -- The stream that is prepared for a packet is never of an older session than the packet, and
  -- not of an older session than the one before.
  prepare_stream-le :
      {E : Type 0} (timing : Timing) (new_queue : ℕ → Result Queue E) (sid seq : ℕ)
      (before : Option (Stream Queue Timing)) (after : Stream Queue Timing)
      → prepare_stream timing new_queue sid seq before ≡ some after
      → (sid ≤ after.sid) × ((s : Stream Queue Timing) → before ≡ some s → s.sid ≤ after.sid)
  unfolding prepare_stream new_stream
  prepare_stream-le timing new_queue sid seq before after e = ground arith

  -- A packet of a session older than the current one is given the current stream, which
  -- `get_stream` does not return for it.
  pub prepare-older :
      {E : Type 0} (timing : Timing) (new_queue : ℕ → Result Queue E) (sid seq : ℕ)
      (s : Stream Queue Timing)
      → sid < s.sid
      → (prepare_stream timing new_queue sid seq (some s) ≡ some s)
        × (get_stream sid (some s) ≡ none)
  unfolding prepare_stream get_stream
  prepare-older timing new_queue sid seq s h = ground arith

  -- `n` packets received, each time with a task that can be created.
  unfoldable pub receive_many :
      (ℕ → Queue → Option Queue) → ℕ → Stream Queue Timing → Option (Stream Queue Timing)
  receive_many insert zero s = some s
  receive_many insert (suc n) s = elim (receive_audio (insert n) true s) [
    | some s' ↦ receive_many insert n s'
    | none ↦ none
  ]

  -- The start of a stream that was given `n` packets.
  abbrev pub progress : ℕ → BufferStart
  progress n = if ltb delay n then started else receiving_packets n

  pub receive_audio-progress :
      (insert : Queue → Option Queue) (n : ℕ) (s : Stream Queue Timing) (q : Queue)
      → s.start ≡ progress n
      → insert s.queue ≡ some q
      → (s' : Stream Queue Timing) × (receive_audio insert true s ≡ some s')
        × (s'.start ≡ progress (n + 1))
        × (s'.queue ≡ q)
        × (s'.sid ≡ s.sid)
  unfolding receive_audio count_packet start_task
  receive_audio-progress insert n s q e accepted = elim (Bool-cases (ltb delay n)) [
    | inl over ↦ (
      record s { queue = q },
      rw (receive_audio, accepted) (rw e (ground arith)),
      ground arith,
      refl,
      refl,
    )
    | inr under ↦ (
      record s { queue = q; start = progress (n + 1) },
      rw (receive_audio, accepted)
          (rw e (rw under (ground (arith, Bool-cases (ltb delay (n + 1)))))),
      refl,
      refl,
      refl,
    )
  ]

  -- Of a new stream, while tasks can be created and the queue takes packets, no packet that is received panics; the audio task
  -- is started by the packet after the `delay`-th, and by none after it.
  pub receive_many-progress :
      (insert : ℕ → Queue → Option Queue) (n k : ℕ) (s : Stream Queue Timing)
      → ((i : ℕ) (q : Queue) → (q' : Queue) × (insert i q ≡ some q'))
      → s.start ≡ progress k
      → (s' : Stream Queue Timing) × (receive_many insert n s ≡ some s')
        × (s'.start ≡ progress (k + n))
  unfolding receive_many
  receive_many-progress insert zero k s accepts e = (s, refl, e ∙ ap progress (omega arith))
  receive_many-progress insert (suc n) k s accepts e =
      let (s1, one, start1, queue1, sid1) =
        receive_audio-progress (insert n) k s (accepts n s.queue).0 e (accepts n s.queue).1 in
      let (s2, rest, start2) = receive_many-progress insert n (k + 1) s1 accepts start1 in
      (s2, rw (one, receive_many) rest, start2 ∙ again k n)
    where
      again : (k n : ℕ) → progress (k + 1 + n) ≡ progress (k + suc n)
      again k n = let e : k + 1 + n ≡ k + suc n = omega arith in ap progress e
