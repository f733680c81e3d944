-- ===== src/Sync/Queue.antt =====
-- The channel of src/sync/queue.rs over a FreeRTOS queue: what its two ends do to the block that
-- they share. An operation returns, beside its result, the tasks that it notifies.
pub mod Fifo
pub mod Missed
pub mod Drop
pub mod Lifetime
pub mod Overwrite
pub mod Send
use Prim.Native.Nat.{bit_and, bit_or}
use bark_esp.Base.{
  ℕ, suc, ◌+◌, ◌-◌, ◌^◌, Option, none, some, Bool, true, false, List, [], ◌∷◌, Result, ok, err, ltb,
  if◌then◌else◌, ◌==◌, map_err,
}
use bark_esp.Extern.RtosQueue.{RtosQueue}
use bark_esp.Sync.Isr.{IsrResult, of_ok, of_err, chain}
use bark_esp.Task.Registry.TaskSlot.{Slots}
use bark_esp.Task.Waker.{TaskWakerSet, empty_set, add_task, wake_all, wake_from_isr}

abbrev pub rx_alive : ℕ
rx_alive = 0x01

abbrev pub tx_alive : ℕ
tx_alive = 0x02

-- `Poll`
pub data Poll {ℓ} (A : Type ℓ) : Type ℓ where
  ready : A → Poll A
  pending : Poll A

pub data AllocQueueError (MallocError : Type 0) : Type 0 where
  queue_create : AllocQueueError MallocError
  malloc : MallocError → AllocQueueError MallocError

module _ (T : Type 0) (Q : RtosQueue T) where
  pub record Shared : Type 0 where
    pub handle : Q.Carrier
    pub flags : ℕ
    pub notify_rx : TaskWakerSet
    pub notify_tx : TaskWakerSet

  -- `channel`, for the result of the allocation of the shared block: on an error the queue that
  -- was made is dropped.
  unfoldable pub channel :
      {E : Type 0} → (Shared → Result Shared E) → ℕ → Result Shared (AllocQueueError E)
  channel alloc capacity = elim (Q.create capacity) [
    | none ↦ err queue_create
    | some handle ↦ map_err malloc (
        alloc (record {
          handle = handle;
          flags = bit_or tx_alive rx_alive;
          notify_rx = empty_set;
          notify_tx = empty_set;
        }))
  ]

  module _ (slots : Slots) where
    unfoldable pub try_receive : Shared → Option T × List ℕ × Shared
    try_receive s = elim (Q.receive s.handle) [
      | some (item, handle) ↦
          let (woken, notify_tx) = wake_all slots s.notify_tx in
          (some item, woken, record s { handle = handle; notify_tx = notify_tx })
      | none ↦ (none, [], s)
    ]

    -- the `else` of `poll_receive`, by the task with the id `id`
    unfoldable pub receive_later : ℕ → Shared → Shared
    receive_later id s = record s { notify_rx = add_task id s.notify_rx }

    abbrev pub answer : ℕ → Option T × List ℕ × Shared → Poll T × List ℕ × Shared
    answer id (some item, woken, s) = (ready item, woken, s)
    answer id (none, woken, s) = (pending, woken, receive_later id s)

    unfoldable pub poll_receive : ℕ → Shared → Poll T × List ℕ × Shared
    poll_receive id s = answer id (try_receive s)

    unfoldable pub try_send : T → Shared → Result (Unit {0}) T × List ℕ × Shared
    try_send item s = elim (Q.send_to_back item s.handle) [
      | some handle ↦
          let (woken, notify_rx) = wake_all slots s.notify_rx in
          (ok tt, woken, record s { handle = handle; notify_rx = notify_rx })
      | none ↦ (err item, [], s)
    ]

    abbrev pub available : Shared → ℕ
    available s = Q.spaces s.handle

    unfoldable pub poll_reserve : ℕ → Shared → Poll (Unit {0}) × Shared
    poll_reserve id s =
        if ltb 0 (available s)
        then (ready tt, s)
        else (pending, record s { notify_tx = add_task id s.notify_tx })

    -- `send_from_isr`; `notify` says which task a notification asks to switch to, and `switch`
    -- whether the queue's own call does.
    unfoldable pub send_from_isr :
        (Infallible : Type 0) → (ℕ → Bool) → Bool → T → Shared → IsrResult (Unit {0}) T × Shared
    send_from_isr Infallible notify switch item s = elim (Q.send_to_back item s.handle) [
      | some handle ↦
          let (result, notify_rx) = wake_from_isr Infallible notify slots s.notify_rx in
          (chain result (of_ok tt switch), record s { handle = handle; notify_rx = notify_rx })
      | none ↦ (of_err item switch, s)
    ]

    -- The queue after `send_overwriting_from_isr` made room for one item.
    abbrev pub make_room : Q.Carrier → Q.Carrier
    make_room q =
        if Q.spaces q == 0 then elim (Q.receive q) [ some (item, q') ↦ q' | none ↦ q ] else q

    abbrev pub push : T → Q.Carrier → Q.Carrier
    push item q = elim (Q.send_to_back item q) [ some q' ↦ q' | none ↦ q ]

    unfoldable pub send_overwriting_from_isr :
        (Infallible : Type 0)
        → (ℕ → Bool)
        → Bool
        → T
        → Shared
        → IsrResult (Unit {0}) Infallible × Shared
    send_overwriting_from_isr Infallible notify switch item s =
        let (result, notify_rx) = wake_from_isr Infallible notify slots s.notify_rx in
        (
          chain result (of_ok tt switch),
          record s { handle = push item (make_room s.handle); notify_rx = notify_rx },
        )

  -- `drop_side`: whether the shared block is freed with the queue in it, and the block with the
  -- flags left.
  unfoldable pub drop_side : ℕ → Shared → Bool × Shared
  drop_side flags s =
      let current = bit_and s.flags (2 ^ 32 - 1 - flags) in
      (current == 0, record s { flags = current })
