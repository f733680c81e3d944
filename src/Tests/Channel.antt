-- ===== src/Tests/Channel.antt =====
-- The channel of src/sync/queue.rs over a list of at most two items.
use Prim.Native.Nat.{bit_or}
use bark_esp.Base.{
  ℕ, suc, ◌≡◌, ◌≢◌, refl, none, true, false, List, [], ◌∷◌, ◌++◌, arith, ok, returns,
}
use bark_esp.Extern.RtosQueue.{RtosQueue, list_queue}
use bark_esp.Task.Registry.TaskSlot.{Slots}
use bark_esp.Task.Waker.{empty_set}
use bark_esp.Task.Waker.Wake.{Woken}
use bark_esp.Sync.Queue.{Shared, channel, rx_alive, tx_alive, try_receive, try_send, receive_later}
use bark_esp.Sync.Queue.Fifo.{held}
use bark_esp.Sync.Queue.Missed.{missed_item}
use bark_esp.Sync.Queue.Send.{reserving, sent, panicked, Event, sender_moves, receiver_moves, start}
use bark_esp.Sync.Queue.Send as Send
use bark_esp.Sync.Queue.Send.Panic.{value_of, accepted, HasRoom, send_keeps}
use bark_esp.Sync.Queue.Lifetime
use bark_esp.Sync.Queue.Lifetime.{Channel, made}
use bark_esp.Sync.Queue.Lifetime.Conserves.{items}
use bark_esp.Sync.Queue.Lifetime.Whole.{run_conserves}

abbrev Q : RtosQueue ℕ
Q = list_queue ℕ

abbrev slots : Slots
slots = suc

abbrev fresh : Shared ℕ Q
fresh = record {
  handle = (2, []);
  flags = bit_or tx_alive rx_alive;
  notify_rx = empty_set;
  notify_tx = empty_set;
}

missed_item_example :
    let (item, quiet, s1) = try_receive ℕ Q slots fresh in
    let (result, woken, s2) = try_send ℕ Q slots 9 s1 in
    (item ≡ none)
    × (result ≡ ok tt)
    × (Woken 4 woken → ⊥)
    × (held ℕ Q slots (receive_later ℕ Q slots 3 s2) ≡ 9 ∷ [])
missed_item_example =
    missed_item ℕ Q slots 3 9 fresh refl (omega arith) (λ other e. omega arith) refl

-- Five items for a queue of two, of which it refuses one, and the sender goes first.
abbrev whole : List (Lifetime.Op ℕ)
whole =
    Lifetime.send 4
    ∷ Lifetime.send 5
    ∷ Lifetime.send 6
    ∷ Lifetime.receive
    ∷ Lifetime.send 7
    ∷ Lifetime.drop_sender
    ∷ Lifetime.receive
    ∷ Lifetime.drop_receiver
    ∷ []

run_conserves_example :
    (c : Channel ℕ Q) × (Lifetime.run ℕ Q slots whole (made ℕ Q fresh) ≡ returns c)
    × (c.accepted ≡ c.received ++ (c.dropped ++ items ℕ Q slots c))
    × ((false ≡ true → (c.dropped ≡ []) × (c.deletes ≡ 0))
        × (false ≡ false → (items ℕ Q slots c ≡ []) × (c.deletes ≡ 1)))
unfolding channel
run_conserves_example =
    run_conserves ℕ Q slots {E = Unit {0}} ok 2 fresh (λ v t e. ground arith) refl whole
      (refl, (refl, (refl, (refl, (refl, (refl, (refl, (refl, tt))))))))

-- two items in a queue of two
abbrev filled : Shared ℕ Q
filled = record fresh { handle = (2, 4 ∷ 5 ∷ []) }

-- The channel is full at first.
abbrev polls : List (Event ℕ Q slots)
polls = sender_moves 3 ∷ receiver_moves 4 ∷ sender_moves 3 ∷ receiver_moves 4 ∷ sender_moves 3 ∷ []

send_keeps_example :
    let t = Send.run ℕ Q slots polls (start ℕ Q slots 9 filled) in
    ((x : ℕ) → t.sender ≢ panicked x)
    × (value_of t.sender ≡ 9)
    × (held ℕ Q slots filled ++ accepted t.sender ≡ t.received ++ held ℕ Q slots t.shared)
    × ((id : ℕ)
        → t.sender ≡ reserving 9
        → HasRoom ℕ Q slots t.shared
        → (Send.run ℕ Q slots (sender_moves id ∷ sender_moves id ∷ []) t).sender ≡ sent 9)
send_keeps_example = send_keeps ℕ Q slots polls 9 filled
