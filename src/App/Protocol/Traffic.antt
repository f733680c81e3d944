-- ===== src/App/Protocol/Traffic.antt =====
-- The packets that arrive at the callback of src/app/protocol.rs, and those that come out of its
-- channel at the other end.
pub mod Accounts
use bark_esp.Base.{ℕ, Option, none, some, List, [], ◌∷◌, Result}
use bark_esp.Extern.RtosQueue.{RtosQueue}
use bark_esp.Stats.{Stats}
use bark_esp.Task.Registry.TaskSlot.{Slots}
use bark_esp.Sync.Queue.{Shared, try_receive}
use bark_esp.Sync.Queue.Fifo as Fifo
use bark_esp.App.Protocol.{PacketBuffer, Item, with_addr, align_packet_buffer, on_receive}

pub data Event (Addr : Type 0) : Type 0 where
  arrives : PacketBuffer → Addr → Event Addr
  takes : Event Addr

module _ (Addr E : Type 0) (Q : RtosQueue (Item Addr E)) (slots : Slots)
    (allocate : ℕ → Result ℕ E) where
  abbrev pub item_of : PacketBuffer → Addr → Item Addr E
  item_of pbuf addr = with_addr Addr E addr (align_packet_buffer allocate pbuf)

  -- The items that the callback offers to the channel, and the operations on it.
  abbrev pub offered : List (Event Addr) → List (Item Addr E)
  offered [] = []
  offered (arrives pbuf addr ∷ es) = item_of pbuf addr ∷ offered es
  offered (takes ∷ es) = offered es

  abbrev pub ops_of : List (Event Addr) → List (Fifo.Op (Item Addr E))
  ops_of [] = []
  ops_of (arrives pbuf addr ∷ es) = Fifo.send (item_of pbuf addr) ∷ ops_of es
  ops_of (takes ∷ es) = Fifo.receive ∷ ops_of es

  abbrev pub add_taken : Option (Item Addr E) → List (Item Addr E) → List (Item Addr E)
  add_taken (some x) taken = x ∷ taken
  add_taken none taken = taken

  -- The items taken in some events, and the channel and the statistics after them.
  unfoldable pub run :
      List (Event Addr)
      → Shared (Item Addr E) Q
      → Stats
      → List (Item Addr E) × Shared (Item Addr E) Q × Stats
  run [] s stats = ([], s, stats)
  run (arrives pbuf addr ∷ es) s stats =
      let (s', stats') = on_receive Addr E Q slots allocate pbuf addr s stats in run es s' stats'
  run (takes ∷ es) s stats =
      let (item, woken, s') = try_receive (Item Addr E) Q slots s in
      let (taken, last, stats') = run es s' stats in (add_taken item taken, last, stats')
