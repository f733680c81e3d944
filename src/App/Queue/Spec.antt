-- ===== src/App/Queue/Spec.antt =====
-- What the packet queue promises: packets by sequence number, in a window that moves on by one
-- with each pop.
use bark_esp.Base.{ℕ, ◌+◌, Option, none, some, ltb, leb, if◌then◌else◌, ◌==◌}
use bark_esp.Stats.{Stats}
use bark_esp.App.Queue.{max_queued_packets, on_time, late, early}

pub data Verdict : Type 0 where
  accepted duplicate too_late too_early : Verdict

-- The first packet for a slot is the one that counts.
unfoldable pub of_slot {ℓ} : {A : Type ℓ} → Option A → Verdict
of_slot none = accepted
of_slot (some first) = duplicate

module _ (Audio : Type 0) (seq : Audio → ℕ) where
  -- The packet that waits to be played at each sequence number.
  pub record Window : Type 0 where
    pub head : ℕ
    pub at : ℕ → Option Audio

  unfoldable pub verdict : Audio → Window → Verdict
  verdict p w =
      if ltb (seq p) w.head
      then too_late
      else if leb (w.head + max_queued_packets) (seq p)
      then too_early
      else of_slot (w.at (seq p))

  unfoldable pub insert : Audio → Window → Window
  insert p w = elim (verdict p w) [
    | accepted ↦ record w { at = λ q. if seq p == q then some p else w.at q }
    | _ ↦ w
  ]

  -- The window behind the head is forgotten.
  unfoldable pub advance : Window → Option Audio × Window
  advance w =
      (w.at w.head, record { head = w.head + 1; at = λ q. if leb q w.head then none else w.at q })

-- The counter that goes with a verdict.
unfoldable pub tally : Verdict → Stats → Stats
tally accepted t = on_time t
tally duplicate t = t
tally too_late t = late t
tally too_early t = early t
