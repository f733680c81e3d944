-- ===== src/App/PacketQueue.antt =====
-- `PacketQueue` of src/app/queue.rs: the queue in a box that the receiver and the audio task
-- share. An operation on it holds the lock of Sync.Mutex, and so is one step here.
pub mod Locked
use bark_esp.Base.{
  ℕ, ◌≡◌, ◌<◌, Option, Bool, Result, Outcome, returns, panics, out_of_fuel, ◌==◌, ap,
}
use bark_esp.Extern.Deque.{Deque}
use bark_esp.Stats.{Stats}
use bark_esp.System.SharedBox.{Inner, Reach, Counts, refcount-Counts}
use bark_esp.System.SharedBox
use bark_esp.App.Queue.{Shared, max_queued_packets, insert_packet}
use bark_esp.App.Queue

module _ (Audio : Type 0) (seq : Audio → ℕ) (D : Deque (Option Audio) max_queued_packets) where
  abbrev pub PacketQueue : Type 0
  PacketQueue = Inner (Shared Audio seq D)

  unfoldable pub disconnected : PacketQueue → Bool
  disconnected q = SharedBox.unique q

  unfoldable pub new :
      {E : Type 0} → (PacketQueue → Result PacketQueue E) → ℕ → Result PacketQueue E
  new malloc start_seq = SharedBox.alloc malloc (Queue.new Audio seq D start_seq)

  unfoldable pub receive_packet : Audio → PacketQueue → Stats → Outcome (PacketQueue × Stats)
  receive_packet packet q stats = elim (insert_packet Audio seq D packet q.value stats) [
    | returns (shared, stats') ↦ returns (record q { value = shared }, stats')
    | panics ↦ panics
    | out_of_fuel ↦ out_of_fuel
  ]

  unfoldable pub pop_front : PacketQueue → Option Audio × PacketQueue
  pop_front q =
      let (packet, shared) = Queue.pop_front Audio seq D q.value in
      (packet, record q { value = shared })

  -- A queue that has handles is disconnected exactly if just one of them is left.
  pub disconnected-handles :
      {n : ℕ} {q : PacketQueue} → Reach n q → 0 < n → disconnected q ≡ (n == 1)
  unfolding disconnected SharedBox.unique
  disconnected-handles {n} {q} r h = ap (λ k. k == 1) (refcount-Counts r).count
