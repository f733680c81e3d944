-- ===== src/Tests/Play.antt =====
-- The audio task of src/app/stream.rs, with packets of four samples and a ring of five frames.
use bark_esp.Base.{
  ℕ, zero, suc, false, ◌≤◌, ◌≡◌, Option, some, none, List, [], ◌∷◌, ◌++◌, length, returns, refl,
  arith, true, dec_lt,
}
use bark_esp.Extern.Deque.{Deque, list_deque}
use bark_esp.Stats
use bark_esp.Task.Registry.TaskSlot.{Slots}
use bark_esp.Task.Waker.{empty_set}
use bark_esp.Sync.RingBuffer.Contents.{IsValid}
use bark_esp.System.SharedBox.{unique, Reach, begin, cloned, clone, drop}
use bark_esp.App.Queue.{max_queued_packets, new}
use bark_esp.App.PacketQueue.{disconnected}
use bark_esp.Platform.Dac.{zero_frame, silence}
use bark_esp.Platform.Dac.Loop.{Schedule, Prompt, count_spurious}
use bark_esp.App.Stream.Run.{Turn, Player, Played, run}
use bark_esp.App.Stream.Run.Sends.{Sends, Wakes, run-Sends}
use bark_esp.App.Stream.Run.Stops.{run_stops}
use bark_esp.App.Stream.Session.{Interval, session}
use bark_esp.App.Stream.Session.Ordered
use bark_esp.App.Stream.Session.Ordered.{session-Sends}

-- Its number, and the samples of two frames.
pub record Packet : Type 0 where
  pub seq : ℕ
  pub l0 : ℕ
  pub r0 : ℕ
  pub l1 : ℕ
  pub r1 : ℕ

abbrev samples : Packet → List ℕ
samples p = p.l0 ∷ p.r0 ∷ p.l1 ∷ p.r1 ∷ []

abbrev seq : Packet → ℕ
seq p = p.seq

abbrev D : Deque (Option Packet) max_queued_packets
D = list_deque (Option Packet) max_queued_packets

-- Two handles, and a packet in the slot of number 7.
abbrev player : Player Packet seq D
player = record {
  queue = record {
    value = record {
      queue = (
        some (record { seq = 7; l0 = 0x3f800000; r0 = 0; l1 = 0xbf800000; r1 = 0 }) ∷ [],
        omega arith,
      );
      head_seq = 7;
    };
    refcount = 2;
    frees = 0;
  };
  statics = record {
    buffer = record {
      reader = 4;
      writer = 3;
      buffer = zero_frame ∷ zero_frame ∷ zero_frame ∷ zero_frame ∷ zero_frame ∷ [];
    };
    waker = empty_set;
    stats = Stats.new;
  };
}

abbrev interrupting : Schedule
interrupting = record {
  before = λ rounds. [];
  wakes = λ rounds. silence ∷ silence ∷ [];
  spurious = λ rounds. false;
  limit = 0;
}

no_spurious : (n : ℕ) → count_spurious interrupting.spurious n ≤ 0
unfolding count_spurious
no_spurious zero = omega arith
no_spurious (suc n) = no_spurious n

prompt : Prompt interrupting
prompt = record { nonempty = λ i. omega arith; few = no_spurious }

-- A packet, a missing one, and then the receiver is gone.
abbrev turns : List (Turn Packet seq D)
turns =
    record { meanwhile = λ q. q; schedule = interrupting }
    ∷ record { meanwhile = λ q. q; schedule = interrupting }
    ∷ record { meanwhile = λ q. record q { refcount = 1 }; schedule = interrupting }
    ∷ []

abbrev slots : Slots
slots = suc

valid : IsValid player.statics.buffer
valid = omega arith

wakes : Wakes Packet seq D turns
wakes = (prompt, (prompt, (prompt, tt)))

run-Sends_example :
    (r : Played Packet seq D) × (run Packet seq D samples 4 2 (λ task. true) slots 3 turns player
      ≡ returns r)
    × Sends Packet seq D samples 4 player.statics r
run-Sends_example =
    run-Sends Packet seq D samples 4 2 (λ task. true) slots 3 refl (λ a. refl) (omega arith)
      (omega arith) turns player wakes valid (omega arith)

-- A queue that is new.
abbrev begun : Player Packet seq D
begun = record player { queue = record { value = new Packet seq D 7; refcount = 2; frees = 0 } }

abbrev packet : ℕ → Packet
packet n = record { seq = n; l0 = 0x3f800000; r0 = 0; l1 = 0xbf800000; r1 = 0 }

-- Number 8, then numbers 7 and 8 again, and then nothing.
abbrev intervals : List (Interval Packet)
intervals =
    record { arrivals = packet 8 ∷ packet 7 ∷ []; schedule = interrupting }
    ∷ record { arrivals = packet 7 ∷ packet 8 ∷ []; schedule = interrupting }
    ∷ record { arrivals = []; schedule = interrupting }
    ∷ []

intervals_wake : Ordered.Wakes Packet intervals
intervals_wake = (prompt, (prompt, (prompt, tt)))

session-Sends_example :
    (r : Played Packet seq D) × (session Packet seq D samples 4 2
        (λ task. true)
        slots
        3
        intervals
        begun
      ≡ returns r)
    × Sends Packet seq D samples 4 begun.statics r
    × (r.packets ≡ some (packet 7) ∷ some (packet 8) ∷ none ∷ [])
unfolding disconnected unique dec_lt
session-Sends_example =
    session-Sends Packet seq D samples 4 2 (λ task. true) slots 3 refl (λ a. refl) (omega arith)
      (omega arith) intervals 7 begun refl refl
      (omega arith, (omega arith, (omega arith, (omega arith, tt)))) (omega arith) intervals_wake
      valid (omega arith)

abbrev leaving : Turn Packet seq D
leaving = record { meanwhile = λ q. drop q; schedule = interrupting }

abbrev two_turns : List (Turn Packet seq D)
two_turns =
    record { meanwhile = λ q. q; schedule = interrupting }
    ∷ record { meanwhile = λ q. q; schedule = interrupting }
    ∷ []

-- The receiver's handle is a clone of that of the task.
two_handles : Reach 2 player.queue
unfolding clone
two_handles = cloned (begin player.queue.value) (omega arith)

run_stops_example :
    (r : Played Packet seq D) × (run Packet seq D samples 4 2
        (λ task. true)
        slots
        3
        (two_turns ++ leaving ∷ two_turns)
        player
      ≡ returns r)
    × (length r.packets ≡ 2)
    × (r.last.queue.frees ≡ 0)
    × ((drop r.last.queue).frees ≡ 1)
run_stops_example =
    run_stops Packet seq D samples 4 2 (λ task. true) slots 3 refl (λ a. refl) (omega arith)
      (omega arith) two_turns leaving two_turns player (prompt, (prompt, tt))
      (λ q. (q.value, refl), (λ q. (q.value, refl), tt)) (λ q. refl) two_handles valid (omega arith)
