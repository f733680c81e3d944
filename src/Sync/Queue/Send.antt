-- ===== src/Sync/Queue/Send.antt =====
-- The async `send` and `receive` of src/sync/queue.rs: the sender waits until there is room, and
-- sends after that, while the receiver may act in between.
pub mod Panic
use bark_esp.Base.{ℕ, List, [], ◌∷◌, ◌++◌, Result, ok, err}
use bark_esp.Extern.RtosQueue.{RtosQueue}
use bark_esp.Task.Registry.TaskSlot.{Slots}
use bark_esp.Sync.Queue.{Poll, ready, pending, Shared, poll_reserve, poll_receive, try_send}

-- Where `send` stands with its value.
pub data Sending {ℓ} (T : Type ℓ) : Type ℓ where
  reserving : T → Sending T  -- in `poll_reserve`, or waiting to be polled again
  reserved : T → Sending T  -- before `try_send`
  sent : T → Sending T
  panicked : T → Sending T

module _ (T : Type 0) (Q : RtosQueue T) (slots : Slots) where
  pub record System : Type 0 where
    pub shared : Shared T Q
    pub sender : Sending T
    -- what the receiver got, in order
    pub received : List T

  -- `poll_reserve` in a poll of `send`
  abbrev pub after_reserve : T → Poll (Unit {0}) → Sending T
  after_reserve value (ready _) = reserved value
  after_reserve value pending = reserving value

  abbrev pub after_send : T → Result (Unit {0}) T → Sending T
  after_send value (ok _) = sent value
  after_send value (err item) = panicked item

  -- A step of the sender, a task with the id `id`.
  unfoldable pub step_sender : ℕ → Sending T → System → System
  step_sender id (reserving value) t =
      let (p, s) = poll_reserve T Q slots id t.shared in
      record t { shared = s; sender = after_reserve value p }
  step_sender id (reserved value) t =
      let (r, woken, s) = try_send T Q slots value t.shared in
      record t { shared = s; sender = after_send value r }
  step_sender id (sent value) t = t
  step_sender id (panicked value) t = t

  abbrev pub add_item : Poll T → List T → List T
  add_item (ready item) xs = xs ++ (item ∷ [])
  add_item pending xs = xs

  -- A poll of `receive` by the task with the id `id`.
  unfoldable pub step_receiver : ℕ → System → System
  step_receiver id t =
      let (p, woken, s) = poll_receive T Q slots id t.shared in
      record t { shared = s; received = add_item p t.received }

  pub data Event : Type 0 where
    sender_moves : (id : ℕ) → Event
    receiver_moves : (id : ℕ) → Event

  unfoldable pub step : Event → System → System
  step (sender_moves id) t = step_sender id t.sender t
  step (receiver_moves id) t = step_receiver id t

  unfoldable pub run : List Event → System → System
  run [] t = t
  run (e ∷ es) t = run es (step e t)

  abbrev pub start : T → Shared T Q → System
  start value s = record { shared = s; sender = reserving value; received = [] }
