-- ===== src/App/Queue/Refine.antt =====
-- `insert_packet` keeps the promise of the window, and what it does to a number out of range.
use mathlib.Core.Path.{fun_ext}
use bark_esp.Base.{
  ℕ, ◌+◌, ◌-◌, ◌*◌, ◌%◌, ◌^◌, ◌≤◌, ◌<◌, ◌≡◌, ◌∙◌, Option, none, some, arith, returns, if◌then◌else◌,
  ◌==◌, inl, inr, dec_lt, Option-cases, le→leb, lt→leb-false, lt→ltb, le→ltb-false,
}
use bark_esp.Extern.Deque.{Deque}
use bark_esp.Stats.{Stats}
use bark_esp.App.Queue.{max_queued_packets, Shared, insert_packet, store, on_time}
use bark_esp.App.Queue.Insert.{
  pending, window, Stored, slot_past, slot_future, insert_near, insert_duplicate,
}
use bark_esp.App.Queue.Spec.{Window, verdict, insert, tally, of_slot}

module _ (Audio : Type 0) (seq : Audio → ℕ) (D : Deque (Option Audio) max_queued_packets) where
  abbrev State : Type 0
  State = Shared Audio seq D

  -- What `insert_packet` promises of one packet.
  abbrev pub Refines : Audio → State → Stats → Type 0
  Refines p s t =
      (s' : State) × (insert_packet Audio seq D p s t
        ≡ returns (s', tally (verdict Audio seq p (window Audio seq D s)) t))
      × (window Audio seq D s' ≡ insert Audio seq p (window Audio seq D s))

  Refines-past : (p : Audio) (s : State) (t : Stats) → seq p < s.head_seq → Refines p s t
  unfolding insert_packet store verdict insert tally
  Refines-past p s t h = (
    s,
    rw (
      slot_past Audio seq D (seq p) s h,
      insert_packet,
      store,
      lt→ltb (seq p) s.head_seq h,
      verdict,
      tally,
    ),
    rw (lt→ltb (seq p) s.head_seq h, verdict, insert),
  )

  module _ (p : Audio) (s : State) (t : Stats) (h : s.head_seq ≤ seq p)
      (near : seq p < s.head_seq + 2 ^ 32) where
    dist : (seq p - s.head_seq) % 2 ^ 32 ≡ seq p - s.head_seq
    dist = omega arith

    Refines-future : s.head_seq + max_queued_packets ≤ seq p → Refines p s t
    unfolding insert_packet store verdict insert tally
    Refines-future far = (
      s,
      rw (
        slot_future Audio seq D (seq p) s h (omega (arith, dist)),
        insert_packet,
        store,
        le→ltb-false (seq p) s.head_seq h,
        verdict,
        le→leb (s.head_seq + max_queued_packets) (seq p) far,
        tally,
      ),
      rw (
        le→ltb-false (seq p) s.head_seq h,
        verdict,
        le→leb (s.head_seq + max_queued_packets) (seq p) far,
        insert,
      ),
    )

    same_window :
        (s' : State)
        → s'.head_seq ≡ s.head_seq
        → ((j : ℕ) → pending Audio seq D s' j ≡ pending Audio seq D s j)
        → window Audio seq D s' ≡ window Audio seq D s
    same_window s' e slots i = record { head = e i; at = fun_ext at i }
      where
        at : (q : ℕ) → (window Audio seq D s').at q ≡ (window Audio seq D s).at q
        at q = rw e (ground (arith, slots (q - s.head_seq)))

    verdict_lem :
        (o : Option Audio)
        → seq p < s.head_seq + max_queued_packets
        → pending Audio seq D s (seq p - s.head_seq) ≡ o
        → verdict Audio seq p (window Audio seq D s) ≡ of_slot o
    unfolding verdict
    verdict_lem o in_window e = rw (
      le→ltb-false (seq p) s.head_seq h,
      verdict,
      lt→leb-false (s.head_seq + max_queued_packets) (seq p) in_window,
      e,
    )

    Refines-duplicate :
        (first : Audio)
        → seq p < s.head_seq + max_queued_packets
        → pending Audio seq D s (seq p - s.head_seq) ≡ some first
        → Refines p s t
    unfolding insert tally of_slot
    Refines-duplicate first in_window full =
        let (s', run, head, slots) =
          insert_duplicate Audio seq D p first s t h (omega (arith, dist)) (rw dist full) in
        (
          s',
          rw (verdict_lem (some first) in_window full) run,
          rw (verdict_lem (some first) in_window full, insert) (same_window s' head slots),
        )

    -- The window after the packet was stored in its slot.
    stored_window :
        (s' : State)
        → Stored Audio seq D p s ((seq p - s.head_seq) % 2 ^ 32) s'
        → ◌≡◌ {A = Window Audio seq} (window Audio seq D s') (record {
          head = s.head_seq;
          at = λ q. if seq p == q then some p else (window Audio seq D s).at q;
        })
    stored_window s' stored i = record { head = stored.same_head i; at = fun_ext at i }
      where
        at :
            (q : ℕ)
            → (window Audio seq D s').at q
              ≡ (if seq p == q then some p else (window Audio seq D s).at q)
        at q = rw stored.same_head (ground (arith, stored.slots (q - s.head_seq), dist))

    Refines-stored :
        seq p < s.head_seq + max_queued_packets
        → pending Audio seq D s (seq p - s.head_seq) ≡ none
        → Refines p s t
    unfolding insert tally of_slot
    Refines-stored in_window empty =
        let (s', run, stored) =
          insert_near Audio seq D p s t h (omega (arith, dist)) (rw dist empty) in
        (
          s',
          rw (verdict_lem none in_window empty) run,
          rw (verdict_lem none in_window empty, insert) (stored_window s' stored),
        )

  -- For a packet whose sequence number lies less than 2^32 beyond the head, `insert_packet` never
  -- panics, counts the packet as the window's verdict says, and does to the queue what the
  -- window does: it stores the first packet for a number of the window, and drops every other.
  pub insert-Refines :
      (p : Audio) (s : State) (t : Stats) → seq p < s.head_seq + 2 ^ 32 → Refines p s t
  insert-Refines p s t near = elim (dec_lt (seq p) s.head_seq) [
    | yes past ↦ Refines-past p s t past
    | no h ↦ elim (dec_lt (seq p) (s.head_seq + max_queued_packets)) [
      | no far ↦ Refines-future p s t (omega arith) near (omega arith)
      | yes in_window ↦ elim (Option-cases (pending Audio seq D s (seq p - s.head_seq))) [
        | inl empty ↦ Refines-stored p s t (omega arith) near in_window empty
        | inr (first, full) ↦ Refines-duplicate p s t (omega arith) near first in_window full
      ]
    ]
  ]

  -- The distance from the head is cut down to 32 bits before it is compared with the capacity: a
  -- packet whose number lies a multiple of 2^32 and less than the capacity beyond the head is
  -- not refused as early but counted as on time, and put into a slot that is empty and belongs
  -- to another number.
  pub insert_beyond :
      (p : Audio) (s : State) (t : Stats) (i k : ℕ)
      → seq p ≡ s.head_seq + (2 ^ 32 * (k + 1) + i)
      → i < max_queued_packets
      → pending Audio seq D s i ≡ none
      → (s' : State) × (insert_packet Audio seq D p s t ≡ returns (s', on_time t))
        × (pending Audio seq D s' i ≡ some p)
        × (s'.head_seq + i < seq p)
  insert_beyond p s t i k e h empty =
      let at : (seq p - s.head_seq) % 2 ^ 32 ≡ i = omega arith in
      let (s', run, stored) =
        insert_near Audio seq D p s t (omega arith) (omega arith) (rw at empty) in
      (s', run, stored.slots i ∙ ground (arith, at), omega (arith, stored.same_head))
