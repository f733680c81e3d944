-- ===== src/App/Dispatch/Session/Run.antt =====
-- The run of the loop of src/app/mod.rs, packet by packet.
use bark_esp.Base.{
  ℕ, ◌<◌, ◌≤◌, ◌≡◌, refl, ap, ◌∙◌, Option, some, none, some, List, [], ◌∷◌, ◌++◌, length, Result,
  ok, err, true, ltb, if◌then◌else◌, arith, append_assoc, append-nil, dec_lt,
}
use mathlib.Core.Path.{subst}
use bark_esp.App.Receiver.{Stream, is_new}
use bark_esp.App.Dispatch.{
  PacketKind, audio, time, unhandled, Packets, Parts, next_round, handle, round, run,
}
use bark_esp.App.Dispatch.Session.{
  audios, latest, since, Holds, opens, joins, ticks, ticks_none, first_seq, first_seq-append, given,
}

module _ {Audio Time Queue Timing Addr AllocError SocketError : Type 0} (P : Packets Audio Time)
    (X : Parts Audio Time Queue Timing Addr AllocError SocketError) (opened : ℕ → Queue) where
  -- No insertion panics while the packets that a stream was given are such lists.
  abbrev pub Accepts : (List Audio → Type 0) → Type 0
  Accepts Safe =
      (acc : List Audio) (a : Audio) (q : Queue)
      → Safe (acc ++ (a ∷ []))
      → given X.insert (opened (first_seq P (acc ++ (a ∷ [])))) acc ≡ some q
      → (q' : Queue) × (X.insert a q ≡ some q')

  -- Whatever stream a packet comes to, the packets that it was given are then such a list; of a stream
  -- of session `m` that was given `acc`.
  abbrev pub AllSafe : (List Audio → Type 0) → ℕ → List Audio → List Audio → Type 0
  AllSafe Safe m acc [] = Unit {0}
  AllSafe Safe m acc (a ∷ bs) =
      (m < P.sid a → Safe (a ∷ []) × AllSafe Safe (P.sid a) (a ∷ []) bs)
      × (P.sid a ≤ m → Safe (acc ++ (a ∷ [])) × AllSafe Safe m (acc ++ (a ∷ [])) bs)

  -- From no stream on.
  abbrev pub EachSafe : (List Audio → Type 0) → List Audio → Type 0
  EachSafe Safe [] = Unit {0}
  EachSafe Safe (a ∷ bs) = Safe (a ∷ []) × AllSafe Safe (P.sid a) (a ∷ []) bs

  AllSafe-always : (m : ℕ) (acc bs : List Audio) → AllSafe (λ ps. Unit {0}) m acc bs
  AllSafe-always m acc [] = tt
  AllSafe-always m acc (a ∷ bs) = (
    λ lt. (tt, AllSafe-always (P.sid a) (a ∷ []) bs),
    λ le. (tt, AllSafe-always m (acc ++ (a ∷ [])) bs),
  )

  EachSafe-always : (bs : List Audio) → EachSafe (λ ps. Unit {0}) bs
  EachSafe-always [] = tt
  EachSafe-always (a ∷ bs) = (tt, AllSafe-always (P.sid a) (a ∷ []) bs)

  module _ (alloc : (n : ℕ) → X.new_queue n ≡ ok (opened n))
      (spawn : (a : Audio) → X.spawn a ≡ true)
      (sends : (t : Time) (addr : Addr) → X.send t addr ≡ ok tt) where
    -- The packets that a stream holds in the end, if it held `acc` of session `m` before `bs`.
    abbrev held_after : ℕ → List Audio → List Audio → List Audio
    held_after m acc bs = if ltb m (latest P bs) then since P (latest P bs) bs else acc ++ bs

    abbrev session_after : ℕ → List Audio → ℕ
    session_after m bs = if ltb m (latest P bs) then latest P bs else m

    newer :
        (m : ℕ) (acc : List Audio) (a : Audio) (bs : List Audio)
        → m < P.sid a
        → (held_after (P.sid a) (a ∷ []) bs ≡ held_after m acc (a ∷ bs))
          × (session_after (P.sid a) bs ≡ session_after m (a ∷ bs))
    newer m acc a bs lt = ground arith

    no_newer :
        (m : ℕ) (acc : List Audio) (a : Audio) (bs : List Audio)
        → P.sid a ≤ m
        → (held_after m (acc ++ (a ∷ [])) bs ≡ held_after m acc (a ∷ bs))
          × (session_after m bs ≡ session_after m (a ∷ bs))
    no_newer m acc a bs le = ground (arith, append_assoc acc (a ∷ []) bs)

    module _ (Safe : List Audio → Type 0) (accepts : Accepts Safe) where
      -- A stream of session `m` that was given `acc`, such a list.
      pub record Follows (m : ℕ) (acc : List Audio) (s : Stream Queue Timing) : Type 0 where
        pub holds : Holds P X opened m acc s
        pub safe : Safe acc

      moved :
          {m n : ℕ} {cs' bs' : List Audio} {s : Stream Queue Timing}
          → (cs' ≡ bs') × (m ≡ n)
          → Follows m cs' s
          → Follows n bs' s
      moved {m} {n} {cs'} {bs'} {s} e h =
          subst (λ k. Follows k bs' s) e.1 (subst (λ l. Follows m l s) e.0 h)

      opens-Follows :
          (a : Audio) (addr : Addr) (r : Option (Stream Queue Timing))
          → is_new Queue Timing X.delay (P.sid a) r ≡ true
          → Safe (a ∷ [])
          → (s : Stream Queue Timing) × (handle P X (audio a) addr r ≡ next_round (some s))
            × Follows (P.sid a) (a ∷ []) s
      opens-Follows a addr r e safe =
          let (q, accepted) = accepts [] a (opened (P.seq a)) safe refl in
          let (s, go, h) = opens P X opened alloc spawn sends a addr r q e accepted in
          (s, go, record { holds = h; safe = safe })

      joins-Follows :
          (a : Audio) (addr : Addr) (m : ℕ) (acc : List Audio) (s : Stream Queue Timing)
          → P.sid a ≤ m
          → Safe (acc ++ (a ∷ []))
          → Holds P X opened m acc s
          → (s' : Stream Queue Timing) × (handle P X (audio a) addr (some s) ≡ next_round (some s'))
            × Follows m (acc ++ (a ∷ [])) s'
      joins-Follows a addr m acc s le safe h =
          let (q, accepted) = accepts acc a s.queue safe (
            ap (λ n. given X.insert (opened n) acc) (first_seq-append P acc a h.some_packet)
            ∙ h.queue) in
          let (s', go, h') = joins P X opened alloc spawn sends a addr m acc s q le accepted h in
          (s', go, record { holds = h'; safe = safe })

      abbrev Ends :
          {E : Type 0}
          → ℕ
          → List Audio
          → List (Result (PacketKind Audio Time × Addr) E)
          → Stream Queue Timing
          → Type 0
      Ends m acc xs s =
          (s' : Stream Queue Timing) × (run P X xs (some s) ≡ next_round (some s'))
          × Follows (session_after m (audios xs)) (held_after m acc (audios xs)) s'

      run-some :
          {E : Type 0} (xs : List (Result (PacketKind Audio Time × Addr) E)) (m : ℕ)
          (acc : List Audio) (s : Stream Queue Timing)
          → AllSafe Safe m acc (audios xs)
          → Follows m acc s
          → Ends m acc xs s
      unfolding run round handle
      run-some [] m acc s all h = (s, refl, ground (arith, h, append-nil acc))
      run-some (err e ∷ xs) m acc s all h = run-some xs m acc s all h
      run-some (ok (unhandled, addr) ∷ xs) m acc s all h = run-some xs m acc s all h
      run-some (ok (time t, addr) ∷ xs) m acc s all h =
          let (s1, e, h1) =
            ticks P X opened alloc spawn sends t addr m acc s (P.phase t) refl h.holds in
          let (s2, e', h2) = run-some xs m acc s1 all (record { holds = h1; safe = h.safe }) in
          (s2, rw (e, run, round) e', h2)
      run-some (ok (audio a, addr) ∷ xs) m acc s all h = elim (dec_lt m (P.sid a)) [
        | yes lt ↦
            let (safe, rest) = all.0 lt in
            let (s1, e, h1) =
              opens-Follows a addr (some s) (ground (arith, h.holds.sid, lt)) safe in
            let (s2, e', h2) = run-some xs (P.sid a) (a ∷ []) s1 rest h1 in
            (s2, rw (e, run, round) e', moved (newer m acc a (audios xs) lt) h2)
        | no le ↦
            let (safe, rest) = all.1 (omega arith) in
            let (s1, e, h1) = joins-Follows a addr m acc s (omega arith) safe h.holds in
            let (s2, e', h2) = run-some xs m (acc ++ (a ∷ [])) s1 rest h1 in
            (s2, rw (e, run, round) e', moved (no_newer m acc a (audios xs) (omega arith)) h2)
      ]

      first_stream :
          (a : Audio) (bs : List Audio)
          → (held_after (P.sid a) (a ∷ []) bs ≡ since P (latest P (a ∷ bs)) (a ∷ bs))
            × (session_after (P.sid a) bs ≡ latest P (a ∷ bs))
      first_stream a bs = ground arith

      -- What the loop makes of the stream, if the packets that each stream is given are such lists.
      pub run-Follows :
          {E : Type 0} (xs : List (Result (PacketKind Audio Time × Addr) E))
          → EachSafe Safe (audios xs)
          → (audios xs ≡ [] → run P X xs none ≡ next_round none)
            × (0 < length (audios xs)
                → (s : Stream Queue Timing) × (run P X xs none ≡ next_round (some s))
                  × Follows (latest P (audios xs)) (since P (latest P (audios xs)) (audios xs)) s)
      unfolding run round handle
      run-Follows [] all = (λ e. refl, λ h. absurd (omega arith))
      run-Follows (err e ∷ xs) all = run-Follows xs all
      run-Follows (ok (unhandled, addr) ∷ xs) all = run-Follows xs all
      run-Follows (ok (time t, addr) ∷ xs) all =
          let e = ticks_none P X opened alloc spawn sends t addr (P.phase t) refl in
          let (nothing, stream) = run-Follows xs all in
          (
            λ h. rw (e, run, round) (nothing h),
            λ h. let (s, e', v) = stream h in (s, rw (e, run, round) e', v),
          )
      run-Follows (ok (audio a, addr) ∷ xs) all = (
        λ h. cc,
        λ h.
            let (s1, e, h1) = opens-Follows a addr none refl all.0 in
            let (s2, e', h2) = run-some xs (P.sid a) (a ∷ []) s1 all.1 h1 in
            (s2, rw (e, run, round) e', moved (first_stream a (audios xs)) h2),
      )

    -- If queues can be made, tasks created and replies sent, and no insertion panics, the loop neither
    -- ends nor panics on what `receive` returns. Without an audio packet there is no stream.
    -- Otherwise there is one, of the latest session among the audio packets; its queue was given the
    -- packets from the first of that session on, in order and whatever their sessions, and nothing
    -- else since it was made at the number of the first of them; and its task is started by the
    -- packet after the `delay`-th.
    pub run-Holds :
        ((a : Audio) (q : Queue) → (q' : Queue) × (X.insert a q ≡ some q'))
        → {E : Type 0} (xs : List (Result (PacketKind Audio Time × Addr) E))
        → (audios xs ≡ [] → run P X xs none ≡ next_round none)
          × (0 < length (audios xs)
              → (s : Stream Queue Timing) × (run P X xs none ≡ next_round (some s))
                × Holds P X opened
                    (latest P (audios xs))
                    (since P (latest P (audios xs)) (audios xs))
                    s)
    run-Holds total xs =
        let (nothing, stream) =
          run-Follows (λ ps. Unit {0}) (λ acc a q safe e. total a q) xs
            (EachSafe-always (audios xs)) in
        (nothing, λ h. let (s, e, v) = stream h in (s, e, v.holds))
