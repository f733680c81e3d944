-- ===== src/App/Queue/Insert.antt =====
-- `insert_packet` keeps the promise of the window.
use bark_esp.Base.{
  ℕ, suc, ◌-◌, ◌%◌, ◌^◌, ◌≤◌, ◌<◌, ◌≡◌, refl, ap, ◌∙◌, Option, none, some, ◌++◌, arith, set,
  replicate, ok, err, returns, ltb, if◌then◌else◌, ◌==◌, le→leb, lt→leb-false,
}
use bark_esp.Extern.Deque.{Deque}
use bark_esp.Stats.{Stats}
use bark_esp.App.Queue.{
  max_queued_packets, in_past, too_far_in_future, Shared, SlotRef, expand, index_slot, read_slot,
  write_slot, queue_slot_mut, slot_in, store, insert_packet, on_time,
}
use bark_esp.App.Queue.Slots.{slot_at, slot_at-set, slot_at-append_none}
use bark_esp.App.Queue.Slot.{items, expand_lem, index_slot_lem}
use bark_esp.App.Queue.Spec.{Window}

module _ (Audio : Type 0) (seq : Audio → ℕ) (D : Deque (Option Audio) max_queued_packets) where
  -- The packet that waits at an index from the head.
  abbrev pub pending : Shared Audio seq D → ℕ → Option Audio
  pending s i = slot_at (items Audio seq D s.queue) i

  -- The window that the queue stands for.
  abbrev pub window : Shared Audio seq D → Window Audio seq
  window s = record {
    head = s.head_seq;
    at = λ q. if ltb q s.head_seq then none else pending s (q - s.head_seq);
  }

  -- What a reference to a slot of the window is good for.
  pub record Found (s : Shared Audio seq D) (i : ℕ) (slot : SlotRef) (s' : Shared Audio seq D)
      : Type 0 where
    pub same_head : s'.head_seq ≡ s.head_seq
    same_slots : (j : ℕ) → pending s' j ≡ pending s j
    pub reads : read_slot Audio seq D slot s'.queue ≡ pending s i
    pub writes :
        (v : Option Audio) (j : ℕ)
        → slot_at (items Audio seq D (write_slot Audio seq D slot v s'.queue)) j
          ≡ (if i == j then v else pending s j)

  Found_lem :
      (s : Shared Audio seq D) (i k : ℕ) (d : D.Carrier) (slot : SlotRef)
      → items Audio seq D d ≡ items Audio seq D s.queue ++ replicate k none
      → i < D.len d
      → read_slot Audio seq D slot d ≡ slot_at (items Audio seq D d) i
      → ((v : Option Audio)
          → items Audio seq D (write_slot Audio seq D slot v d) ≡ set (items Audio seq D d) i v)
      → Found s i slot (record s { queue = d })
  Found_lem s i k d slot all there reads writes = record {
    same_head = refl;
    same_slots = same;
    reads = reads ∙ same i;
    writes = λ v j.
        rw (writes v)
          (slot_at-set (items Audio seq D d) i j v (omega (arith, D.len_lem d)) ∙ rw (same j));
  }
    where
      same : (j : ℕ) → slot_at (items Audio seq D d) j ≡ pending s j
      same j = rw all (slot_at-append_none (items Audio seq D s.queue) k j)

  slot_in-returns :
      (s : Shared Audio seq D) (i : ℕ) (d : D.Carrier) (slot : SlotRef)
      → index_slot Audio seq D i d ≡ returns slot
      → slot_in Audio seq D s i (returns d) ≡ returns (ok slot, record s { queue = d })
  unfolding slot_in
  slot_in-returns s i d slot e = rw (e, slot_in)

  -- An index below the capacity has a slot, and making room for it changes no slot.
  slot_in_lem :
      (s : Shared Audio seq D) (i fuel : ℕ)
      → i < max_queued_packets
      → suc i < fuel
      → (slot : SlotRef) × (s' : Shared Audio seq D) × (slot_in Audio seq D s i
            (expand Audio seq D fuel i s.queue)
          ≡ returns (ok slot, s'))
        × Found s i slot s'
  slot_in_lem s i fuel h f =
      let (d, run, all, there) = expand_lem Audio seq D fuel i s.queue h (omega arith) in
      let (slot, found, reads, writes) = index_slot_lem Audio seq D i d there in
      (
        slot,
        record s { queue = d },
        ap (slot_in Audio seq D s i) run ∙ slot_in-returns s i d slot found,
        Found_lem s i (suc i - D.len s.queue) d slot all there reads writes,
      )

  -- The three outcomes of `queue_slot_mut`, by where the low 32 bits of the distance from the
  -- head lie.
  pub slot_past :
      (n : ℕ) (s : Shared Audio seq D)
      → n < s.head_seq
      → queue_slot_mut Audio seq D n s ≡ returns (err in_past, s)
  unfolding queue_slot_mut
  slot_past n s h = rw (lt→leb-false s.head_seq n h, queue_slot_mut)

  pub slot_future :
      (n : ℕ) (s : Shared Audio seq D)
      → s.head_seq ≤ n
      → max_queued_packets ≤ (n - s.head_seq) % 2 ^ 32
      → queue_slot_mut Audio seq D n s ≡ returns (err too_far_in_future, s)
  unfolding queue_slot_mut
  slot_future n s h k = rw (
    le→leb s.head_seq n h,
    queue_slot_mut,
    le→leb max_queued_packets ((n - s.head_seq) % 2 ^ 32) k,
  )

  slot_near :
      (n : ℕ) (s : Shared Audio seq D)
      → s.head_seq ≤ n
      → (n - s.head_seq) % 2 ^ 32 < max_queued_packets
      → (slot : SlotRef) × (s' : Shared Audio seq D) × (queue_slot_mut Audio seq D n s
          ≡ returns (ok slot, s'))
        × Found s ((n - s.head_seq) % 2 ^ 32) slot s'
  unfolding queue_slot_mut
  slot_near n s h k =
      let i = (n - s.head_seq) % 2 ^ 32 in
      let (slot, s', run, found) = slot_in_lem s i (suc (suc i)) k (omega arith) in
      (
        slot,
        s',
        rw
            (
              le→leb s.head_seq n h,
              queue_slot_mut,
              lt→leb-false max_queued_packets ((n - s.head_seq) % 2 ^ 32) k,
            )
            run,
        found,
      )

  -- An empty slot takes the packet, and a slot that has one keeps it.
  pub record Stored (p : Audio) (s : Shared Audio seq D) (i : ℕ) (s' : Shared Audio seq D)
      : Type 0 where
    pub same_head : s'.head_seq ≡ s.head_seq
    pub slots : (j : ℕ) → pending s' j ≡ (if i == j then some p else pending s j)

  pub insert_near :
      (p : Audio) (s : Shared Audio seq D) (t : Stats)
      → s.head_seq ≤ seq p
      → (seq p - s.head_seq) % 2 ^ 32 < max_queued_packets
      → pending s ((seq p - s.head_seq) % 2 ^ 32) ≡ none
      → (s' : Shared Audio seq D) × (insert_packet Audio seq D p s t ≡ returns (s', on_time t))
        × Stored p s ((seq p - s.head_seq) % 2 ^ 32) s'
  unfolding insert_packet store
  insert_near p s t h k empty =
      let (slot, s', run, found) = slot_near (seq p) s h k in
      (
        record s' { queue = write_slot Audio seq D slot (some p) s'.queue },
        rw (run, insert_packet, found.reads ∙ empty, store),
        record { same_head = found.same_head; slots = found.writes (some p) },
      )

  pub insert_duplicate :
      (p first : Audio) (s : Shared Audio seq D) (t : Stats)
      → s.head_seq ≤ seq p
      → (seq p - s.head_seq) % 2 ^ 32 < max_queued_packets
      → pending s ((seq p - s.head_seq) % 2 ^ 32) ≡ some first
      → (s' : Shared Audio seq D) × (insert_packet Audio seq D p s t ≡ returns (s', t))
        × (s'.head_seq ≡ s.head_seq)
        × ((j : ℕ) → pending s' j ≡ pending s j)
  unfolding insert_packet store
  insert_duplicate p first s t h k full =
      let (slot, s', run, found) = slot_near (seq p) s h k in
      (s', rw (run, insert_packet, found.reads ∙ full, store), found.same_head, found.same_slots)
