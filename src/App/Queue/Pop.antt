-- ===== src/App/Queue/Pop.antt =====
-- `pop_front` keeps the promise of the window.
use mathlib.Core.Path.{fun_ext}
use bark_esp.Base.{
  ℕ, suc, ◌+◌, ◌-◌, ◌^◌, ◌<◌, ◌≡◌, refl, ◌∙◌, Option, none, List, [], ◌∷◌, arith, ltb, leb,
  if◌then◌else◌, add_u64,
}
use bark_esp.Extern.Deque.{Deque}
use bark_esp.App.Queue.{max_queued_packets, Shared, pop_front, join}
use bark_esp.App.Queue.Slots.{slot_at}
use bark_esp.App.Queue.Slot.{items}
use bark_esp.App.Queue.Insert.{pending, window}
use bark_esp.App.Queue.Spec.{Window, advance}

-- A window shown by distances from its head: at the head, and with the head moved on by one.
module _ {ℓ} {A : Type ℓ} (f : ℕ → Option A) (h : ℕ) where
  at_head : f 0 ≡ (if ltb h h then none else f (h - h))
  at_head = ground arith

  at_next :
      (g : ℕ → Option A) (q : ℕ)
      → ((j : ℕ) → g j ≡ f (suc j))
      → (if ltb q (h + 1) then none else g (q - (h + 1)))
        ≡ (if leb q h then none else if ltb q h then none else f (q - h))
  at_next g q moved = ground (arith, moved (q - (h + 1)))

module _ (Audio : Type 0) (seq : Audio → ℕ) (D : Deque (Option Audio) max_queued_packets) where
  -- The slots move up by one, and the first is returned.
  pop_slots :
      (d : D.Carrier) (xs : List (Option Audio))
      → items Audio seq D d ≡ xs
      → (join (D.pop_front d).0 ≡ slot_at xs 0)
        × ((j : ℕ) → slot_at (items Audio seq D (D.pop_front d).1) j ≡ slot_at xs (suc j))
  pop_slots d [] e = rw (D.pop_front-nil d e, e) (refl, λ j. refl)
  pop_slots d (a ∷ rest) e =
      let (front, left) = D.pop_front-cons d a rest e in rw (front, left) (refl, λ j. refl)

  -- Short of the last sequence number, `pop_front` returns the packet that waits at the head, or
  -- none where none came, and the window moves on by one, past its other packets unchanged.
  pub pop_refines :
      (s : Shared Audio seq D)
      → s.head_seq + 1 < 2 ^ 64
      → let (out, s') = pop_front Audio seq D s in
        ◌≡◌ {A = Option Audio × Window Audio seq}
          (out, window Audio seq D s')
          (advance Audio seq (window Audio seq D s))
  unfolding pop_front advance
  pop_refines s h i = (out i, record { head = head i; at = fun_ext at i })
    where
      queue : D.Carrier
      queue = s.queue

      moved :
          (join (D.pop_front queue).0 ≡ pending Audio seq D s 0)
          × ((j : ℕ)
              → slot_at (items Audio seq D (D.pop_front queue).1) j ≡ pending Audio seq D s (suc j))
      moved = pop_slots queue (items Audio seq D queue) refl

      head : add_u64 s.head_seq 1 ≡ s.head_seq + 1
      head = omega arith

      out : join (D.pop_front queue).0 ≡ (window Audio seq D s).at s.head_seq
      out = moved.0 ∙ at_head (pending Audio seq D s) s.head_seq

      at :
          (q : ℕ)
          → (if ltb q (add_u64 s.head_seq 1)
              then none
              else slot_at (items Audio seq D (D.pop_front queue).1) (q - add_u64 s.head_seq 1))
            ≡ (if leb q s.head_seq then none else (window Audio seq D s).at q)
      at q = rw head (
          at_next (pending Audio seq D s) s.head_seq
            (slot_at (items Audio seq D (D.pop_front queue).1)) q moved.1)
