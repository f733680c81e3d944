-- ===== src/App/Dispatch/Queued.antt =====
-- The loop of src/app/mod.rs over the packet queue of src/app/queue.rs: what the queue of the stream
-- holds when some packets have come and its task has not begun to play.
use bark_esp.Base.{
  ℕ, ◌+◌, ◌^◌, ◌≤◌, ◌<◌, ◌≡◌, refl, sym, ap, ◌∙◌, Option, none, some, List, [], ◌∷◌, ◌++◌, length,
  Result, ok, Outcome, returns, panics, out_of_fuel, true, arith,
}
use bark_esp.Extern.Deque.{Deque}
use bark_esp.Stats.{Stats}
use bark_esp.App.Receiver.{Stream}
use bark_esp.App.Queue.{max_queued_packets, new}
use bark_esp.App.Queue.Insert.{window}
use bark_esp.App.Queue.Order.{NumbersBelow}
use bark_esp.App.Queue.Picks.{pick, or_else, new-at}
use bark_esp.App.PacketQueue.{PacketQueue, receive_packet}
use bark_esp.App.Stream.Session.{received, receive_all}
use bark_esp.App.Stream.Session.Ordered.{receives_lem}
use bark_esp.App.Dispatch.{PacketKind, Packets, Parts, next_round, run}
use bark_esp.App.Dispatch.Session.{audios, latest, since, first_seq, given, and_then, given-append}
use bark_esp.App.Dispatch.Session.Run.{Accepts, EachSafe, run-Follows}

or_else-none : {A : Type 0} (o : Option A) → or_else o none ≡ o
or_else-none none = refl
or_else-none (some a) = refl

module _ {Audio : Type 0} (seq : Audio → ℕ) (D : Deque (Option Audio) max_queued_packets) where
  -- A packet queue with the statistics that it counts in.
  abbrev pub Counting : Type 0
  Counting = PacketQueue Audio seq D × Stats

  abbrev pub if_returns : Outcome Counting → Option Counting
  if_returns (returns y) = some y
  if_returns panics = none
  if_returns out_of_fuel = none

  -- `self.queue.receive_packet(packet)`; `none` if it does not return.
  unfoldable pub put_packet : Audio → Counting → Option Counting
  put_packet a x = if_returns (receive_packet Audio seq D a x.0 x.1)

  -- `PacketQueue::new`, when its box could be allocated
  abbrev pub opened : Stats → ℕ → Counting
  opened t start = (record { value = new Audio seq D start; refcount = 1; frees = 0 }, t)

  given-cons :
      (p : Audio) (ps : List Audio) (x y : Counting) (o : Outcome Counting)
      → receive_packet Audio seq D p x.0 x.1 ≡ o
      → receive_all Audio seq D (p ∷ ps) x.0 x.1 ≡ returns y
      → ((z : Counting)
          → receive_all Audio seq D ps z.0 z.1 ≡ returns y
          → given put_packet z ps ≡ some y)
      → given put_packet x (p ∷ ps) ≡ some y
  unfolding receive_all put_packet
  given-cons p ps x y (returns z) e h rest = rw (put_packet, e) (rest z (rw (receive_all, e) at h))
  given-cons p ps x y panics e h rest = cc (rw (receive_all, e) at h)
  given-cons p ps x y out_of_fuel e h rest = cc (rw (receive_all, e) at h)

  -- When none of them panics, the packets are put into the queue one after the other.
  given-receive_all :
      (ps : List Audio) (x y : Counting)
      → receive_all Audio seq D ps x.0 x.1 ≡ returns y
      → given put_packet x ps ≡ some y
  unfolding receive_all
  given-receive_all [] x y e = ground (arith, e)
  given-receive_all (p ∷ ps) x y e =
      given-cons p ps x y (receive_packet Audio seq D p x.0 x.1) refl e
        (λ z. given-receive_all ps z y)

module _ {Audio Time : Type 0} (P : Packets Audio Time)
    (D : Deque (Option Audio) max_queued_packets) where
  -- The numbers of the packets that a stream was given are below the bound of 2^32 beyond that of
  -- the first of them.
  abbrev pub Near : List Audio → Type 0
  Near ps = NumbersBelow Audio P.seq D (first_seq P ps + 2 ^ 32) (received ps [])

module _ {Audio Time Timing Addr AllocError SocketError : Type 0} (P : Packets Audio Time)
    (D : Deque (Option Audio) max_queued_packets) where
  -- The parts of the loop, with this queue.
  abbrev pub queued :
      Stats
      → Parts Audio Time (Counting P.seq D) Timing Addr AllocError SocketError
      → Parts Audio Time (Counting P.seq D) Timing Addr AllocError SocketError
  queued t X = record X {
    insert = put_packet P.seq D;
    new_queue = λ start. ok (opened P.seq D t start);
  }

  module _ (t : Stats) (X : Parts Audio Time (Counting P.seq D) Timing Addr AllocError SocketError)
      (spawn : (a : Audio) → X.spawn a ≡ true)
      (sends : (time : Time) (addr : Addr) → X.send time addr ≡ ok tt) where
    abbrev pub last_session :
        {E : Type 0} → List (Result (PacketKind Audio Time × Addr) E) → List Audio
    last_session xs = since P (latest P (audios xs)) (audios xs)

    queue_of :
        (ps : List Audio)
        → Near P D ps
        → (y : Counting P.seq D) × (given
              (put_packet P.seq D)
              (opened P.seq D t (first_seq P ps))
              ps
            ≡ some y)
    unfolding new
    queue_of ps near =
        let r =
          receives_lem Audio P.seq D ps [] (first_seq P ps + 2 ^ 32)
            (opened P.seq D t (first_seq P ps)).0 t near (omega arith) in
        (
          (r.q', r.t'),
          given-receive_all P.seq D ps (opened P.seq D t (first_seq P ps)) (r.q', r.t') r.run,
        )

    -- Such packets are inserted without a panic.
    Near-Accepts : Accepts P (queued t X) (opened P.seq D t) (Near P D)
    Near-Accepts acc a q near e =
        let (y, whole) = queue_of (acc ++ (a ∷ [])) near in
        (
          y,
          sym (
                given-append (put_packet P.seq D) (opened P.seq D t (first_seq P (acc ++ (a ∷ []))))
                  acc a
                ∙ ap (λ o. and_then (put_packet P.seq D) o (put_packet P.seq D a)) e)
              ∙ whole,
        )

    -- If tasks can be created and replies sent, and packet queues allocated, and audio packets came,
    -- and those that each stream is given are of numbers below the bound of 2^32 beyond that of the
    -- first of them: the loop neither ends nor panics, nor does any insertion into a packet queue,
    -- and the queue of the stream that is left begins at the number of the first packet of the latest
    -- session and holds at each number from there on the first packet of the number that came since,
    -- if the number is among the fifty that the queue takes, and nothing else.
    pub run_picks :
        {E : Type 0} (xs : List (Result (PacketKind Audio Time × Addr) E))
        → 0 < length (audios xs)
        → EachSafe P (queued t X) (opened P.seq D t) (Near P D) (audios xs)
        → let ps = last_session xs in
          let first = first_seq P ps in
          (s : Stream (Counting P.seq D) Timing) × (run P (queued t X) xs none
            ≡ next_round (some s))
          × (s.queue.0.value.head_seq ≡ first)
          × ((k : ℕ)
              → first ≤ k
              → (window Audio P.seq D s.queue.0.value).at k ≡ pick P.seq k first (received ps []))
    unfolding new
    run_picks xs some_audio near =
        let (nothing, stream) =
          run-Follows P (queued t X) (opened P.seq D t) (λ n. refl) spawn sends (Near P D)
            Near-Accepts xs near in
        let (s, e, f) = stream some_audio in
        let ps = last_session xs in
        let first = first_seq P ps in
        let r =
          receives_lem Audio P.seq D ps [] (first + 2 ^ 32) (opened P.seq D t first).0 t f.safe
            (omega arith) in
        let same : s.queue ≡ (r.q', r.t') = cc (
          f.holds.queue,
          given-receive_all P.seq D ps (opened P.seq D t first) (r.q', r.t') r.run,
        ) in
        (
          s,
          e,
          ap (λ x. x.0.value.head_seq) same ∙ r.head,
          λ k le.
              ap (λ x. (window Audio P.seq D x.0.value).at k) same
              ∙ sym (or_else-none ((window Audio P.seq D r.q'.value).at k))
              ∙ r.fate k le
              ∙ ap (λ o. or_else o (pick P.seq k first (received ps [])))
                  (new-at Audio P.seq D first k),
        )
