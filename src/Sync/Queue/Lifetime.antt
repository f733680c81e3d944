-- ===== src/Sync/Queue/Lifetime.antt =====
-- A channel of src/sync/queue.rs from `channel` to the drop of its second end, which frees the block
-- that the ends share and deletes the queue.
pub mod Conserves
pub mod Whole
use Prim.Native.Nat.{bit_or}
use bark_esp.Base.{
  ℕ, suc, ◌+◌, ◌≡◌, Option, none, some, Bool, true, false, List, [], ◌∷◌, ◌++◌, Result, ok, err,
  Outcome, returns, panics, out_of_fuel,
}
use bark_esp.Extern.RtosQueue.{RtosQueue}
use bark_esp.Task.Registry.TaskSlot.{Slots}
use bark_esp.Sync.Queue.{Shared, try_send, try_receive, drop_side, rx_alive, tx_alive}
use bark_esp.Sync.Queue.Drop.{drop_items}

-- What the owners of the two ends do.
pub data Op (T : Type 0) : Type 0 where
  send : T → Op T
  receive drop_sender drop_receiver : Op T

-- An end that is dropped is moved away: nothing is done with it after.
abbrev pub Owned : {T : Type 0} → Bool → Bool → List (Op T) → Type 0
Owned tx rx [] = Unit {0}
Owned tx rx (send x ∷ ops) = (tx ≡ true) × Owned tx rx ops
Owned tx rx (receive ∷ ops) = (rx ≡ true) × Owned tx rx ops
Owned tx rx (drop_sender ∷ ops) = (tx ≡ true) × Owned false rx ops
Owned tx rx (drop_receiver ∷ ops) = (rx ≡ true) × Owned tx false ops

-- The ends that are left after some operations.
abbrev pub ends : {T : Type 0} → Bool → Bool → List (Op T) → Bool × Bool
ends tx rx [] = (tx, rx)
ends tx rx (send x ∷ ops) = ends tx rx ops
ends tx rx (receive ∷ ops) = ends tx rx ops
ends tx rx (drop_sender ∷ ops) = ends false rx ops
ends tx rx (drop_receiver ∷ ops) = ends tx false ops

module _ (T : Type 0) (Q : RtosQueue T) where
  -- The shared block, with what came of the items so far and how often the queue was deleted.
  pub record Channel : Type 0 where
    pub shared : Shared T Q
    pub accepted : List T
    pub received : List T
    pub dropped : List T
    pub deletes : ℕ

  abbrev pub made : Shared T Q → Channel
  made s = record { shared = s; accepted = []; received = []; dropped = []; deletes = 0 }

  abbrev pub add_sent : T → Result (Unit {0}) T → Channel → Channel
  add_sent x (ok _) c = record c { accepted = c.accepted ++ x ∷ [] }
  add_sent x (err _) c = c

  abbrev pub add_received : Option T → Channel → Channel
  add_received (some x) c = record c { received = c.received ++ x ∷ [] }
  add_received none c = c

  -- `QueueHandle::drop`, after its loop
  abbrev pub deleted : Option (List T × Q.Carrier) → Channel → Outcome Channel
  deleted none c = out_of_fuel
  deleted (some (items, q)) c = returns (record c {
    shared = record c.shared { handle = q };
    dropped = c.dropped ++ items;
    deletes = c.deletes + 1;
  })

  -- `HeapBox::from_raw(self.ptr)`, dropped at once, if the other end is gone. The loop is given a
  -- round for each item that the queue can hold, and one to see that it is empty.
  abbrev pub free_if : Bool → Channel → Outcome Channel
  free_if false c = returns c
  free_if true c = deleted (drop_items T Q (suc (Q.capacity c.shared.handle)) c.shared.handle) c

  -- `drop_tx` and `drop_rx`
  unfoldable pub drop_end : ℕ → Channel → Outcome Channel
  drop_end flags c =
      let (free, s) = drop_side T Q flags c.shared in free_if free (record c { shared = s })

  module _ (slots : Slots) where
    unfoldable pub act : Op T → Channel → Outcome Channel
    act (send x) c =
        let (result, woken, s) = try_send T Q slots x c.shared in
        returns (add_sent x result (record c { shared = s }))
    act receive c =
        let (item, woken, s) = try_receive T Q slots c.shared in
        returns (add_received item (record c { shared = s }))
    act drop_sender c = drop_end tx_alive c
    act drop_receiver c = drop_end rx_alive c

    unfoldable pub run : List (Op T) → Channel → Outcome Channel
    run [] c = returns c
    run (op ∷ ops) c = elim (act op c) [
      | returns c' ↦ run ops c'
      | panics ↦ panics
      | out_of_fuel ↦ out_of_fuel
    ]
