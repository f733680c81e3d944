-- ===== src/Tests/Protocol.antt =====
-- The protocol of src/app/protocol.rs. An address is a
-- number, and a packet is its first byte.
use bark_esp.Base.{
  ℕ, suc, ◌+◌, ◌%◌, ◌^◌, arith, ◌≡◌, ◌≤◌, refl, Option, none, some, List, [], ◌∷◌, ◌++◌, length,
  Result, ok, err,
}
use bark_esp.Extern.RtosQueue.{RtosQueue, list_queue}
use bark_esp.Stats
use bark_esp.Task.Registry.TaskSlot.{Slots}
use bark_esp.Task.Waker.{empty_set}
use bark_esp.Sync.Queue.{Shared}
use bark_esp.Sync.Queue.Fifo.{held}
use bark_esp.App.Protocol.Traffic.{Event, arrives, takes, offered, run}
use bark_esp.App.Protocol.Traffic.Accounts.{Without, run_accounts}
use bark_esp.App.Protocol.{PacketBuffer, align_packet_buffer, Item, receive}

abbrev E : Type 0
E = Unit {0}

abbrev odd_buffer : PacketBuffer
odd_buffer = record { address = 5; bytes = 1 ∷ 2 ∷ [] }

abbrev allocate : ℕ → Result ℕ E
allocate n = ok 64

abbrev moved : PacketBuffer
moved = record { address = 64; bytes = 1 ∷ 2 ∷ [] }

moves : align_packet_buffer allocate odd_buffer ≡ ok moved
unfolding align_packet_buffer
moves = refl

abbrev Q : RtosQueue (Item ℕ E)
Q = list_queue (Item ℕ E)

abbrev slots : Slots
slots = suc

-- a channel with room for one item, and an arrival too many for it
abbrev narrow : Shared (Item ℕ E) Q
narrow = record { handle = (1, []); flags = 3; notify_rx = empty_set; notify_tx = empty_set }

abbrev traffic : List (Event ℕ)
traffic = arrives odd_buffer 9 ∷ arrives moved 9 ∷ takes ∷ arrives moved 7 ∷ []

run_accounts_example :
    let (taken, s', stats') = run ℕ E Q slots allocate traffic narrow Stats.new in
    (dropped : ℕ) × (accepted : List (Item ℕ E)) × Without dropped accepted
      (offered ℕ E Q slots allocate traffic)
    × (held (Item ℕ E) Q slots narrow ++ accepted ≡ taken ++ held (Item ℕ E) Q slots s')
    × (length (held (Item ℕ E) Q slots narrow) + 3 ≤ 1 → dropped ≡ 0)
    × (stats'.wifi_packets_received.value % 2 ^ 32 ≡ 3)
    × (stats'.packets_dropped_in_protocol_queue.value % 2 ^ 32
        ≡ (Stats.new.packets_dropped_in_protocol_queue.value + dropped) % 2 ^ 32)
run_accounts_example = run_accounts ℕ E Q slots allocate traffic narrow Stats.new (omega arith)

-- the first byte, if there is one
abbrev parse : PacketBuffer → Option ℕ
parse buffer = elim buffer.bytes [ [] ↦ none | x ∷ xs ↦ some x ]

abbrev blank : PacketBuffer
blank = record { address = 0; bytes = [] }

abbrev arrivals : List (Item ℕ E)
arrivals = ok (blank, 9) ∷ ok (moved, 9) ∷ err tt ∷ []

first : receive ℕ E ℕ parse arrivals ≡ some (ok (1, 9), err tt ∷ [])
unfolding receive
first = refl
