-- ===== src/Tests/Queue.antt =====
-- The packet queue of src/app/queue.rs, with a bounded list for the deque. A packet is its
-- sequence number, with a mark that tells two of one number apart.
use bark_esp.Base.{
  ℕ, ◌+◌, ◌^◌, ◌<◌, ◌≡◌, refl, Option, none, some, List, [], ◌∷◌, arith, returns, dec_lt,
}
use bark_esp.Extern.Deque.{Deque, list_deque}
use bark_esp.Stats
use bark_esp.Stats.{Stats}
use bark_esp.App.Queue.{
  max_queued_packets, Shared, new, insert_packet, pop_front, on_time, queue_slot_mut, slot_in,
  expand, index_slot, store, read_slot, write_slot,
}
use bark_esp.App.Queue.Insert.{pending}
use bark_esp.App.Queue.Refine.{Refines, insert-Refines, insert_beyond}
use bark_esp.App.Queue.Order.{Op, receive, play, run}
use bark_esp.App.Queue.Picks.{run-Picks}

abbrev Packet : Type 0
Packet = ℕ × ℕ

abbrev seq : Packet → ℕ
seq p = p.0

abbrev D : Deque (Option Packet) max_queued_packets
D = list_deque (Option Packet) max_queued_packets

-- The queue of a stream that starts at number 7.
abbrev fresh : Shared Packet seq D
fresh = record { queue = D.default; head_seq = 7 }

insert-Refines_example : Refines Packet seq D (9, 1) fresh Stats.new
insert-Refines_example = insert-Refines Packet seq D (9, 1) fresh Stats.new (omega arith)

-- A number that is 2^32 beyond slot 2.
insert_beyond_example :
    (s' : Shared Packet seq D) × (insert_packet Packet seq D (2 ^ 32 + 9, 1) fresh Stats.new
      ≡ returns (s', on_time Stats.new))
    × (pending Packet seq D s' 2 ≡ some (2 ^ 32 + 9, 1))
    × (s'.head_seq + 2 < 2 ^ 32 + 9)
insert_beyond_example =
    insert_beyond Packet seq D (2 ^ 32 + 9, 1) fresh Stats.new 2 0 (omega arith) (omega arith) refl

-- Two packets out of order, a duplicate, and three pops.
abbrev script : List (Op Packet)
script = receive (8, 1) ∷ receive (7, 2) ∷ receive (8, 3) ∷ play ∷ play ∷ play ∷ []

run-script :
    run Packet seq D script fresh Stats.new ≡ returns (some (7, 2) ∷ some (8, 1) ∷ none ∷ [])
unfolding run insert_packet queue_slot_mut slot_in expand index_slot store read_slot write_slot
    pop_front dec_lt
run-script = refl

run-Picks_example :
    run Packet seq D script (new Packet seq D 7) Stats.new
    ≡ returns (some (7, 2) ∷ some (8, 1) ∷ none ∷ [])
unfolding dec_lt
run-Picks_example = run-Picks Packet seq D script 7 Stats.new (omega arith) (omega arith)
