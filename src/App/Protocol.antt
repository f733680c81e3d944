-- ===== src/App/Protocol.antt =====
-- `Protocol` of src/app/protocol.rs: the callback that sends packets to the application, and the
-- loop that receives them. A pbuf is the address and the bytes of its payload.
pub mod Traffic
use bark_esp.Base.{
  ℕ, ◌%◌, ◌≤◌, ◌<◌, ◌≡◌, refl, ap, Option, none, some, List, [], ◌∷◌, ◌++◌, length, Result, ok, err,
  ◌==◌, if◌then◌else◌, arith, inl, inr, ◌⊎◌, dec_lt, Option-cases,
}
use bark_esp.Extern.RtosQueue.{RtosQueue}
use bark_esp.Stats.{Stats}
use bark_esp.Stats.Counters.{increment}
use bark_esp.Task.Registry.TaskSlot.{Slots}
use bark_esp.Sync.Queue.{Shared, try_send}
use bark_esp.Sync.Queue.Fifo.{held, send-room-state, send-full-state}

pub record PacketBuffer : Type 0 where
  pub address : ℕ
  pub bytes : List ℕ

-- `align_packet_buffer`; `allocate` gives the address of a pbuf for so many bytes.
unfoldable pub align_packet_buffer :
    {E : Type 0} → (ℕ → Result ℕ E) → PacketBuffer → Result PacketBuffer E
align_packet_buffer allocate buffer =
    if buffer.address % 8 == 0 then ok buffer else elim (allocate (length buffer.bytes)) [
      | ok address ↦ ok (record { address = address; bytes = buffer.bytes })
      | err e ↦ err e
    ]

-- If the allocator gives aligned addresses, a buffer that is returned is aligned and has the
-- bytes of the one given.
align_packet_buffer-aligns :
    {E : Type 0} (allocate : ℕ → Result ℕ E) (buffer out : PacketBuffer)
    → ((n a : ℕ) → allocate n ≡ ok a → a % 8 ≡ 0)
    → align_packet_buffer allocate buffer ≡ ok out
    → (out.address % 8 ≡ 0) × (out.bytes ≡ buffer.bytes)
unfolding align_packet_buffer
align_packet_buffer-aligns allocate buffer out aligned e =
    ground (arith, aligned (length buffer.bytes) out.address)

module _ (Addr E : Type 0) where
  abbrev pub Item : Type 0
  Item = Result (PacketBuffer × Addr) E

  abbrev pub with_addr : Addr → Result PacketBuffer E → Item
  with_addr addr (ok buffer) = ok (buffer, addr)
  with_addr addr (err e) = err e

  module _ (Q : RtosQueue Item) (slots : Slots) where
    abbrev pub count_dropped : Result (Unit {0}) Item → Stats → Stats
    count_dropped (ok _) stats = stats
    count_dropped (err _) stats = record stats {
      packets_dropped_in_protocol_queue = increment stats.packets_dropped_in_protocol_queue;
    }

    -- The callback that `bind` sets.
    unfoldable pub on_receive :
        (ℕ → Result ℕ E) → PacketBuffer → Addr → Shared Item Q → Stats → Shared Item Q × Stats
    on_receive allocate pbuf addr s stats =
        let received = record stats {
          wifi_packets_received = increment stats.wifi_packets_received;
        } in
        let item = with_addr addr (align_packet_buffer allocate pbuf) in
        let (result, woken, s') = try_send Item Q slots item s in
        (s', count_dropped result received)

    -- A packet that arrives is counted; it goes to the end of the queue if there is room, and
    -- else it is dropped, the channel is left alone and the drop is counted.
    pub on_receive-counts :
        (allocate : ℕ → Result ℕ E) (pbuf : PacketBuffer) (addr : Addr) (s : Shared Item Q)
        (stats : Stats)
        → let (s', stats') = on_receive allocate pbuf addr s stats in
          let item = with_addr addr (align_packet_buffer allocate pbuf) in
          let dropped = stats.packets_dropped_in_protocol_queue in
          (stats'.wifi_packets_received ≡ increment stats.wifi_packets_received)
          × ((length (held Item Q slots s) < Q.capacity s.handle)
                × (held Item Q slots s' ≡ held Item Q slots s ++ (item ∷ []))
                × (stats'.packets_dropped_in_protocol_queue ≡ dropped)
              ⊎ (Q.capacity s.handle ≤ length (held Item Q slots s))
                × (s' ≡ s)
                × (stats'.packets_dropped_in_protocol_queue ≡ increment dropped))
    unfolding on_receive
    on_receive-counts allocate pbuf addr s stats =
        elim (dec_lt (length (held Item Q slots s)) (Q.capacity s.handle)) [
          | yes lt ↦
              let (s', sent, holds, cap) =
                send-room-state Item Q slots (with_addr addr (align_packet_buffer allocate pbuf)) s
                  lt in
              rw sent (refl, inl (lt, holds, refl))
          | no full ↦
              rw
                (send-full-state Item Q slots (with_addr addr (align_packet_buffer allocate pbuf)) s
                  (omega arith))
                (refl, inr (omega arith, refl, refl))
        ]

  module _ (Kind : Type 0) (parse : PacketBuffer → Option Kind) where
    abbrev pub answer : Option Kind → Addr → Option (Result (Kind × Addr) E)
    answer (some packet) addr = some (ok (packet, addr))
    answer none addr = none

    -- What one item is to the loop of `receive`: a result, or `continue`. `parse` is
    -- `Packet::from_buffer` followed by `Packet::parse`.
    abbrev pub result_of : Item → Option (Result (Kind × Addr) E)
    result_of (ok (buffer, addr)) = answer (parse buffer) addr
    result_of (err e) = some (err e)

    abbrev pub or_next :
        Option (Result (Kind × Addr) E)
        → List Item
        → Option (Result (Kind × Addr) E × List Item)
        → Option (Result (Kind × Addr) E × List Item)
    or_next (some r) items rest = some (r, items)
    or_next none items rest = rest

    -- `receive`, on the items that come out of the channel; `none` while it waits for another.
    unfoldable pub receive : List Item → Option (Result (Kind × Addr) E × List Item)
    receive [] = none
    receive (item ∷ items) = or_next (result_of item) items (receive items)

    abbrev pub AllSkipped : List Item → Type 0
    AllSkipped [] = Unit {0}
    AllSkipped (item ∷ items) = (result_of item ≡ none) × AllSkipped items

    -- `receive` returns the result of the first item that is an error or a packet, and leaves
    -- what came after it; all before were neither.
    pub receive-first :
        (items : List Item) (r : Result (Kind × Addr) E) (rest : List Item)
        → receive items ≡ some (r, rest)
        → (skipped : List Item) × (item : Item) × (items ≡ skipped ++ (item ∷ rest))
          × AllSkipped skipped
          × (result_of item ≡ some r)
    unfolding receive
    receive-first [] r rest e = cc
    receive-first (item ∷ items) r rest e = elim (Option-cases (result_of item)) [
      | inl skip ↦
          let (skipped, found, all, none_before, hit) = receive-first items r rest (rw skip at e) in
          (item ∷ skipped, found, ap (λ l. item ∷ l) all, (skip, none_before), hit)
      | inr (a, hit) ↦
          ([], item, ground (arith, hit, rw hit at e), tt, ground (arith, hit, rw hit at e))
    ]
