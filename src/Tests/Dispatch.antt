-- ===== src/Tests/Dispatch.antt =====
-- The loop of the application, src/app/mod.rs. An audio packet is its session and its number, and
-- a queue its packets behind the number that it was made for.
use bark_esp.Base.{
  ℕ, ◌≡◌, ◌≤◌, ◌<◌, refl, arith, Option, none, some, true, List, [], ◌∷◌, ◌++◌, length, Result, ok,
  err, suc,
}
use bark_esp.Extern.Deque.{Deque, list_deque}
use bark_esp.Stats
use bark_esp.App.Receiver.{Stream}
use bark_esp.App.Queue.{max_queued_packets}
use bark_esp.App.Queue.Insert.{window}
use bark_esp.App.Queue.Picks.{pick}
use bark_esp.App.Stream.Session.{received}
use bark_esp.App.Dispatch.Queued.{Counting, queued, Near, run_picks}
use bark_esp.App.Dispatch.Queued
use bark_esp.App.Dispatch.{
  stream_reply, PacketKind, audio, time, unhandled, Packets, Parts, next_round, run,
}
use bark_esp.App.Dispatch.Session.{audios, latest, since, Holds}
use bark_esp.App.Dispatch.Session.Run.{EachSafe, run-Holds}

abbrev Audio : Type 0
Audio = ℕ × ℕ

abbrev Queue : Type 0
Queue = ℕ × List Audio

abbrev E : Type 0
E = Unit {0}

abbrev packets : Packets Audio ℕ
packets = record {
  sid = λ a. a.0;
  seq = λ a. a.1;
  time_sid = λ t. t;
  phase = λ t. some stream_reply;
  set_receive_2 = λ now t. t;
}

abbrev opened : ℕ → Queue
opened n = (n, [])

-- The timing of a stream is the number of its time packets.
abbrev parts : Parts Audio ℕ Queue ℕ ℕ E E
parts = record {
  delay = 1;
  insert = λ a q. some (q.0, q.1 ++ (a ∷ []));
  timing = 0;
  receive_packet = λ t. suc;
  new_queue = λ seq. ok (opened seq);
  spawn = λ a. true;
  timestamp = λ t. 0;
  send = λ t addr. ok tt;
}

-- Session 5, its time, session 7, and a packet of session 5 after that.
abbrev arrivals : List (Result (PacketKind Audio ℕ × ℕ) E)
arrivals =
    ok (time 5, 9)
    ∷ ok (audio (5, 1), 9)
    ∷ err tt
    ∷ ok (time 5, 9)
    ∷ ok (audio (7, 30), 9)
    ∷ ok (unhandled, 9)
    ∷ ok (audio (5, 2), 9)
    ∷ []

kept : since packets (latest packets (audios arrivals)) (audios arrivals) ≡ (7, 30) ∷ (5, 2) ∷ []
kept = refl

run-Holds_example :
    (audios arrivals ≡ [] → run packets parts arrivals none ≡ next_round none)
    × (0 < length (audios arrivals)
        → (s : Stream Queue ℕ) × (run packets parts arrivals none ≡ next_round (some s))
          × Holds packets parts opened
              (latest packets (audios arrivals))
              (since packets (latest packets (audios arrivals)) (audios arrivals))
              s)
run-Holds_example =
    run-Holds packets parts opened (λ n. refl) (λ a. refl) (λ t addr. refl)
      (λ a q. ((q.0, q.1 ++ (a ∷ [])), refl)) arrivals

abbrev D : Deque (Option Audio) max_queued_packets
D = list_deque (Option Audio) max_queued_packets

abbrev Held : Type 0
Held = Counting (λ a. a.1) D

-- The parts but for the queue.
abbrev around : Parts Audio ℕ Held ℕ ℕ E E
around = record {
  delay = 1;
  insert = λ a q. some q;
  timing = 0;
  receive_packet = λ t. suc;
  new_queue = λ seq. err tt;
  spawn = λ a. true;
  timestamp = λ t. 0;
  send = λ t addr. ok tt;
}

-- Session 7 begins at number 30; of its packets one comes twice, and one is too far ahead.
abbrev of_seven : List (Result (PacketKind Audio ℕ × ℕ) E)
of_seven =
    ok (audio (5, 1), 9)
    ∷ ok (audio (7, 30), 9)
    ∷ ok (audio (7, 32), 9)
    ∷ ok (audio (7, 32), 9)
    ∷ ok (audio (7, 80), 9)
    ∷ []

abbrev kept_of_seven : List Audio
kept_of_seven = (7, 30) ∷ (7, 32) ∷ (7, 32) ∷ (7, 80) ∷ []

-- In each session the numbers are near that of its first packet.
near :
    EachSafe packets
      (queued packets D Stats.new around)
      (Queued.opened (λ a. a.1) D Stats.new)
      (Near packets D)
      (audios of_seven)
near = (
  (omega arith, tt),
  (
    λ lt. (
      (omega arith, tt),
      (
        λ lt. absurd (omega arith),
        λ le. (
          (omega arith, (omega arith, tt)),
          (
            λ lt. absurd (omega arith),
            λ le. (
              (omega arith, (omega arith, (omega arith, tt))),
              (
                λ lt. absurd (omega arith),
                λ le. ((omega arith, (omega arith, (omega arith, (omega arith, tt)))), tt),
              ),
            ),
          ),
        ),
      ),
    ),
    λ le. absurd (omega arith),
  ),
)

run_picks_example :
    (s : Stream Held ℕ) × (run packets (queued packets D Stats.new around) of_seven none
      ≡ next_round (some s))
    × (s.queue.0.value.head_seq ≡ 30)
    × ((k : ℕ)
        → 30 ≤ k
        → (window Audio (λ a. a.1) D s.queue.0.value).at k
          ≡ pick (λ a. a.1) k 30 (received kept_of_seven []))
run_picks_example =
    run_picks packets D Stats.new around (λ a. refl) (λ t addr. refl) of_seven (omega arith) near
