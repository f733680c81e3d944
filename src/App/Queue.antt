-- ===== src/App/Queue.antt =====
-- The packet queue of a stream, `Shared` of src/app/queue.rs: a deque of slots, one for each
-- sequence number from `head_seq` on, which the network fills in any order and the audio task
-- empties from the front. `Audio` is the packet type of bark_protocol, of which the queue reads
-- the header's `seq`; the deque is that of heapless. Sums of numbers wrap, as in a release build, and
-- the end of the window, which `insert_packet` computes and does not use, is left out of it.
pub mod Slots
pub mod Slot
pub mod Spec
pub mod Insert
pub mod Refine
pub mod Pop
pub mod Order
pub mod Picks
use bark_esp.Base.{
  ℕ, zero, suc, ◌+◌, ◌-◌, ◌%◌, ◌^◌, Option, none, some, Result, ok, err, Outcome, returns, panics,
  out_of_fuel, leb, ltb, if◌then◌else◌, length, get_elem?, add_u64, true, false,
}
use bark_esp.Extern.Deque.{Deque}
use bark_esp.Stats.{Stats}
use bark_esp.Stats.Counters

-- `MAX_QUEUED_PACKETS` of src/app/consts.rs, the deque's capacity
abbrev pub max_queued_packets : ℕ
max_queued_packets = 50

pub data NoSlot : Type 0 where
  in_past too_far_in_future : NoSlot

-- The slot that a `&mut Option<Audio>` points to: an index into one of the deque's two slices.
pub data SlotRef : Type 0 where
  left right : ℕ → SlotRef

-- `checked_sub` on `u64`
abbrev checked_sub : ℕ → ℕ → Option ℕ
checked_sub a b = if leb b a then some (a - b) else none

-- `Option::flatten`
abbrev pub join {ℓ} : {A : Type ℓ} → Option (Option A) → Option A
join none = none
join (some o) = o

-- The three counters of `insert_packet`.
abbrev pub on_time : Stats → Stats
on_time t = record t {
  audio_packets_received_on_time = Counters.increment t.audio_packets_received_on_time;
}

abbrev pub late : Stats → Stats
late t = record t { audio_packets_received_late = Counters.increment t.audio_packets_received_late }

abbrev pub early : Stats → Stats
early t = record t {
  audio_packets_received_early = Counters.increment t.audio_packets_received_early;
}

module _ (Audio : Type 0) (seq : Audio → ℕ) (D : Deque (Option Audio) max_queued_packets) where
  pub record Shared : Type 0 where
    pub queue : D.Carrier
    pub head_seq : ℕ

  unfoldable pub new : ℕ → Shared
  new start_seq = record { queue = D.default; head_seq = start_seq }

  -- `while self.queue.len() <= idx { push_back(None) }`; the `else` of the push is `unreachable!`.
  unfoldable pub expand : ℕ → ℕ → D.Carrier → Outcome D.Carrier
  expand zero idx d = out_of_fuel
  expand (suc fuel) idx d = elim (ltb idx (D.len d)) [
    | true ↦ returns d
    | false ↦ elim (D.push_back none d) [ none ↦ panics | some d' ↦ expand fuel idx d' ]
  ]

  -- `&mut slices.0[idx]` or `&mut slices.1[idx - slices.0.len()]`, with the bounds check of an
  -- index into a slice.
  unfoldable pub index_slot : ℕ → D.Carrier → Outcome SlotRef
  index_slot idx d =
      let (front, back) = D.slices d in
      if ltb idx (length front)
      then returns (left idx)
      else if ltb (idx - length front) (length back)
      then returns (right (idx - length front))
      else panics

  unfoldable pub slot_in : Shared → ℕ → Outcome D.Carrier → Outcome (Result SlotRef NoSlot × Shared)
  slot_in s idx (returns d) = elim (index_slot idx d) [
    | returns slot ↦ returns (ok slot, record s { queue = d })
    | panics ↦ panics
    | out_of_fuel ↦ out_of_fuel
  ]
  slot_in s idx panics = panics
  slot_in s idx out_of_fuel = out_of_fuel

  -- `as usize` keeps the low 32 bits on this target. The loop is given a round for each slot up
  -- to the index, and one to see that it is done.
  unfoldable pub queue_slot_mut : ℕ → Shared → Outcome (Result SlotRef NoSlot × Shared)
  queue_slot_mut n s = elim (checked_sub n s.head_seq) [
    | none ↦ returns (err in_past, s)
    | some diff ↦
        let idx = diff % 2 ^ 32 in
        if leb max_queued_packets idx
        then returns (err too_far_in_future, s)
        else slot_in s idx (expand (suc (suc idx)) idx s.queue)
  ]

  -- `*slot`, read and assigned
  unfoldable pub read_slot : SlotRef → D.Carrier → Option Audio
  read_slot (left i) d = join (get_elem? (D.slices d).0 i)
  read_slot (right i) d = join (get_elem? (D.slices d).1 i)

  unfoldable pub write_slot : SlotRef → Option Audio → D.Carrier → D.Carrier
  write_slot (left i) a d = D.write_left i a d
  write_slot (right i) a d = D.write_right i a d

  unfoldable pub store : Audio → Result SlotRef NoSlot → Shared → Stats → Shared × Stats
  store packet (ok slot) s stats = elim (read_slot slot s.queue) [
    | none ↦ (record s { queue = write_slot slot (some packet) s.queue }, on_time stats)
    | some first ↦ (s, stats)
  ]
  store packet (err in_past) s stats = (s, late stats)
  store packet (err too_far_in_future) s stats = (s, early stats)

  unfoldable pub insert_packet : Audio → Shared → Stats → Outcome (Shared × Stats)
  insert_packet packet s stats = elim (queue_slot_mut (seq packet) s) [
    | returns (r, s') ↦ returns (store packet r s' stats)
    | panics ↦ panics
    | out_of_fuel ↦ out_of_fuel
  ]

  unfoldable pub pop_front : Shared → Option Audio × Shared
  pop_front s =
      let (front, queue) = D.pop_front s.queue in
      (join front, record { queue = queue; head_seq = add_u64 s.head_seq 1 })

  -- The sequence number that the queue has no slot for.
  unfoldable pub tail_seq : Shared → ℕ
  tail_seq s = add_u64 s.head_seq max_queued_packets
