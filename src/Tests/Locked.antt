-- ===== src/Tests/Locked.antt =====
-- The packet queue of src/app/queue.rs behind its mutex, with a packet for number 7 and one for 8.
use bark_esp.Base.{ℕ, suc, ◌≡◌, refl, Option, some, false, List, [], ◌∷◌, arith, dec_lt}
use bark_esp.Extern.Deque.{Deque, list_deque}
use bark_esp.Stats
use bark_esp.Task.Registry.TaskSlot.{Slots}
use bark_esp.Task.Waker.{add_task, wake_all, wakeable, take_wakeable}
use bark_esp.Sync.Mutex.{act}
use bark_esp.Sync.Mutex.Guarded as Guarded
use bark_esp.Sync.Mutex.Guarded.{act_on}
use bark_esp.App.Queue.{max_queued_packets}
use bark_esp.App.PacketQueue.Locked.{Shares, begin, work, locked_picks}

abbrev Packet : Type 0
Packet = ℕ × ℕ

abbrev seq : Packet → ℕ
seq p = p.0

abbrev D : Deque (Option Packet) max_queued_packets
D = list_deque (Option Packet) max_queued_packets

abbrev slots : Slots
slots = suc

-- Task 1 comes while task 0 puts the first packet in, waits for the lock, and takes it out.
abbrev schedule : List ℕ
schedule = 0 ∷ 0 ∷ 1 ∷ 0 ∷ 1 ∷ 0 ∷ 1 ∷ 0 ∷ 0 ∷ 1 ∷ 1 ∷ 1 ∷ 1 ∷ 1 ∷ 1 ∷ []

abbrev locked : Guarded.Guarded (Shares Packet seq D) × List ℕ
locked =
    Guarded.run slots (work Packet seq D) schedule
      (Guarded.new (begin Packet seq D 7 Stats.new ((7, 1) ∷ (8, 2) ∷ []))) []

locks : (locked.1 ≡ 1 ∷ 0 ∷ []) × (locked.0.mutex.flag ≡ false)
unfolding Guarded.run act_on act add_task wake_all wakeable take_wakeable
locks = (refl, refl)

locked_picks_example : (locked.0.inner.panicked ≡ false) × (locked.0.inner.outs ≡ some (7, 1) ∷ [])
unfolding Guarded.run act_on act add_task wake_all wakeable take_wakeable dec_lt
locked_picks_example =
    locked_picks Packet seq D slots schedule 7 Stats.new ((7, 1) ∷ (8, 2) ∷ []) refl
      (omega arith, tt) (omega arith)
