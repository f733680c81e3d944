-- ===== src/App/Dispatch/Session.antt =====
-- The stream that the loop of the application ends up with, and the packets that it was given.
pub mod Run
use bark_esp.Base.{
  ℕ, ◌+◌, ◌<◌, ◌≤◌, ◌≡◌, refl, sym, ap, ◌∙◌, Option, none, some, List, [], ◌∷◌, ◌++◌, length,
  Result, ok, err, true, false, ltb, if◌then◌else◌, arith, append_assoc, append-nil, length-append,
  Bool-cases, inl, inr, ◌==◌, dec_lt,
}
use mathlib.Core.Path.{subst}
use bark_esp.App.Receiver.{
  Stream, prepare_stream, new_stream, get_stream, receive_audio, progress, receive_audio-progress,
  receiving_packets, is_new,
}
use bark_esp.App.Dispatch.{
  TimePhase, broadcast, stream_reply, other_phase, PacketKind, audio, time, unhandled, Packets,
  Parts, next_round, into_stream, receive_time, handle_time, handle, round, run, after_audio,
}

-- The audio packets among what was received.
abbrev pub audios :
    {Audio Time Addr E : Type 0} → List (Result (PacketKind Audio Time × Addr) E) → List Audio
audios [] = []
audios (ok (audio a, addr) ∷ xs) = a ∷ audios xs
audios (ok (time t, addr) ∷ xs) = audios xs
audios (ok (unhandled, addr) ∷ xs) = audios xs
audios (err e ∷ xs) = audios xs

module _ {Audio Time : Type 0} (P : Packets Audio Time) where
  -- The latest session of some packets.
  abbrev pub latest : List Audio → ℕ
  latest [] = 0
  latest (a ∷ bs) = let m = latest bs in if ltb (P.sid a) m then m else P.sid a

  -- The packets from the first one of session `m` or later on.
  abbrev pub since : ℕ → List Audio → List Audio
  since m [] = []
  since m (a ∷ bs) = let rest = since m bs in if ltb (P.sid a) m then rest else a ∷ bs

  abbrev pub first_seq : List Audio → ℕ
  first_seq [] = 0
  first_seq (a ∷ bs) = P.seq a

  pub first_seq-append :
      (acc : List Audio) (a : Audio) → 0 < length acc → first_seq (acc ++ (a ∷ [])) ≡ first_seq acc
  first_seq-append [] a h = absurd (omega arith)
  first_seq-append (c ∷ acc) a h = refl

module _ {Audio Queue : Type 0} (insert : Audio → Queue → Option Queue) where
  abbrev pub and_then : Option Queue → (Queue → Option Queue) → Option Queue
  and_then none next = none
  and_then (some q) next = next q

  -- A queue that was given some packets in order; `none` if an insertion panicked.
  abbrev pub given : Queue → List Audio → Option Queue
  given q [] = some q
  given q (a ∷ bs) = and_then (insert a q) (λ q'. given q' bs)

  and_then-some : (o : Option Queue) → and_then o (λ q. some q) ≡ o
  and_then-some none = refl
  and_then-some (some q) = refl

  and_then_assoc :
      (o : Option Queue) (f g : Queue → Option Queue)
      → and_then o (λ q. and_then (f q) g) ≡ and_then (and_then o f) g
  and_then_assoc none f g = refl
  and_then_assoc (some q) f g = refl

  and_then-ext :
      (o : Option Queue) (f g : Queue → Option Queue)
      → ((q : Queue) → f q ≡ g q)
      → and_then o f ≡ and_then o g
  and_then-ext none f g h = refl
  and_then-ext (some q) f g h = h q

  -- One packet more.
  pub given-append :
      (q : Queue) (bs : List Audio) (a : Audio)
      → given q (bs ++ (a ∷ [])) ≡ and_then (given q bs) (insert a)
  given-append q [] a = and_then-some (insert a q)
  given-append q (b ∷ bs) a =
      and_then-ext (insert b q) _ _ (λ q'. given-append q' bs a)
      ∙ and_then_assoc (insert b q) (λ q'. given q' bs) (insert a)

module _ {Audio Time Queue Timing Addr AllocError SocketError : Type 0} (P : Packets Audio Time)
    (X : Parts Audio Time Queue Timing Addr AllocError SocketError) (opened : ℕ → Queue) where
  -- A stream of session `m` that was given just these packets, the first of which opened it.
  pub record Holds (m : ℕ) (acc : List Audio) (s : Stream Queue Timing) : Type 0 where
    pub sid : s.sid ≡ m
    pub queue : given X.insert (opened (first_seq P acc)) acc ≡ some s.queue
    pub start : s.start ≡ progress Queue Timing X.delay (length acc)
    pub some_packet : 0 < length acc

  module _ (alloc : (n : ℕ) → X.new_queue n ≡ ok (opened n))
      (spawn : (a : Audio) → X.spawn a ≡ true)
      (sends : (t : Time) (addr : Addr) → X.send t addr ≡ ok tt) where
    received :
        (a : Audio) (s : Stream Queue Timing) (n : ℕ) (q : Queue)
        → s.start ≡ progress Queue Timing X.delay n
        → X.insert a s.queue ≡ some q
        → (s' : Stream Queue Timing) × (into_stream P X a (some s) ≡ next_round (some s'))
          × (s'.start ≡ progress Queue Timing X.delay (n + 1))
          × (s'.queue ≡ q)
          × (s'.sid ≡ s.sid)
    received a s n q h accepted =
        let (s', e, start, queue, sid) =
          receive_audio-progress Queue Timing X.delay (X.insert a) n s q h accepted in
        (
          s',
          ap (λ b. after_audio P X (receive_audio Queue Timing X.delay (X.insert a) b s)) (spawn a)
              ∙ ap (after_audio P X) e,
          start,
          queue,
          sid,
        )

    -- The first packet of a session.
    pub opens :
        (a : Audio) (addr : Addr) (r : Option (Stream Queue Timing)) (q : Queue)
        → is_new Queue Timing X.delay (P.sid a) r ≡ true
        → X.insert a (opened (P.seq a)) ≡ some q
        → (s : Stream Queue Timing) × (handle P X (audio a) addr r ≡ next_round (some s))
          × Holds (P.sid a) (a ∷ []) s
    unfolding handle prepare_stream new_stream
    opens a addr r q e accepted =
        let s0 : Stream Queue Timing = record {
          sid = P.sid a;
          timing = X.timing;
          queue = opened (P.seq a);
          start = receiving_packets 0;
        } in
        let (s', go, start, queue, sid) = received a s0 0 q (ground arith) accepted in
        (
          s',
          rw (e, new_stream, alloc (P.seq a)) go,
          record {
            sid = sid;
            queue = ap (λ o. and_then X.insert o (λ q'. some q')) accepted ∙ ap some (sym queue);
            start = start;
            some_packet = omega arith;
          },
        )

    -- A packet for the stream there is.
    pub joins :
        (a : Audio) (addr : Addr) (m : ℕ) (acc : List Audio) (s : Stream Queue Timing) (q : Queue)
        → P.sid a ≤ m
        → X.insert a s.queue ≡ some q
        → Holds m acc s
        → (s' : Stream Queue Timing) × (handle P X (audio a) addr (some s) ≡ next_round (some s'))
          × Holds m (acc ++ (a ∷ [])) s'
    unfolding handle prepare_stream
    joins a addr m acc s q le accepted h =
        let (s', go, start, queue, sid) = received a s (length acc) q h.start accepted in
        let old : ltb s.sid (P.sid a) ≡ false = ground (arith, h.sid, le) in
        (
          s',
          rw old go,
          record {
            sid = sid ∙ h.sid;
            queue =
                ap (λ n. given X.insert (opened n) (acc ++ (a ∷ [])))
                  (first_seq-append P acc a h.some_packet)
                ∙ given-append X.insert (opened (first_seq P acc)) acc a
                ∙ ap (λ o. and_then X.insert o (X.insert a)) h.queue
                ∙ accepted
                ∙ ap some (sym queue);
            start = start ∙ ap (progress Queue Timing X.delay) (sym (length-append acc (a ∷ [])));
            some_packet = omega (arith, length-append acc (a ∷ []));
          },
        )

    -- A time packet leaves the queue and the session alone.
    pub ticks :
        (t : Time) (addr : Addr) (m : ℕ) (acc : List Audio) (s : Stream Queue Timing)
        (p : Option TimePhase)
        → P.phase t ≡ p
        → Holds m acc s
        → (s' : Stream Queue Timing) × (handle P X (time t) addr (some s) ≡ next_round (some s'))
          × Holds m acc s'
    unfolding handle handle_time get_stream
    ticks t addr m acc s none e h = (s, rw (e, handle, handle_time) refl, h)
    ticks t addr m acc s (some broadcast) e h =
        (s, rw (e, handle, handle_time, sends _ addr) refl, h)
    ticks t addr m acc s (some stream_reply) e h = elim (Bool-cases (s.sid == P.time_sid t)) [
      | inl same ↦ (
        receive_time P X t s,
        rw (e, handle, handle_time, same) refl,
        record { sid = h.sid; queue = h.queue; start = h.start; some_packet = h.some_packet },
      )
      | inr different ↦ (s, rw (e, handle, handle_time, different) refl, h)
    ]
    ticks t addr m acc s (some other_phase) e h = (s, rw (e, handle, handle_time) refl, h)

    pub ticks_none :
        (t : Time) (addr : Addr) (p : Option TimePhase)
        → P.phase t ≡ p
        → handle P X (time t) addr none ≡ next_round none
    unfolding handle handle_time get_stream
    ticks_none t addr none e = rw (e, handle, handle_time) refl
    ticks_none t addr (some broadcast) e = rw (e, handle, handle_time, sends _ addr) refl
    ticks_none t addr (some stream_reply) e = rw (e, handle, handle_time) refl
    ticks_none t addr (some other_phase) e = rw (e, handle, handle_time) refl
