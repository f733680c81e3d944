-- ===== src/Sync/Queue/Overwrite.antt =====
-- `send_overwriting_from_isr` of src/sync/queue.rs never loses the item that it is given.
use bark_esp.Base.{
  ℕ, suc, ◌-◌, ◌≤◌, ◌<◌, ◌≡◌, refl, ap, ◌∙◌, Bool, true, false, List, [], ◌∷◌, ◌++◌, length, drop,
  arith, ◌==◌, dec_lt,
}
use bark_esp.Extern.RtosQueue.{RtosQueue}
use bark_esp.Task.Registry.TaskSlot.{Slots}
use bark_esp.Task.Waker.{empty_set, wake_from_isr, take_wakeable}
use bark_esp.Sync.Queue.{Shared, make_room, push, send_overwriting_from_isr}
use bark_esp.Sync.Queue.Fifo.{held}

module _ (T : Type 0) (Q : RtosQueue T) (slots : Slots) where
  -- How many of the oldest items have to go.
  abbrev pub excess : Shared T Q → ℕ
  excess s = suc (length (held T Q slots s)) - Q.capacity s.handle

  push_lem :
      (x : T) (q : Q.Carrier) (xs : List T)
      → Q.items q ≡ xs
      → length xs < Q.capacity q
      → Q.items (push T Q slots x q) ≡ xs ++ (x ∷ [])
  push_lem x q xs e lt =
      let (q', sent, holds, cap) = Q.send-room x q (rw e lt) in
      rw (sent, push) (holds ∙ ap (λ l. l ++ (x ∷ [])) e)

  room_made :
      (q : Q.Carrier) (xs : List T)
      → Q.items q ≡ xs
      → 0 < Q.capacity q
      → length xs ≤ Q.capacity q
      → (Q.items (make_room T Q slots q) ≡ drop (suc (length xs) - Q.capacity q) xs)
        × (length (Q.items (make_room T Q slots q)) < Q.capacity q)
        × (Q.capacity (make_room T Q slots q) ≡ Q.capacity q)
  room_made q [] e pos le =
      let no_excess : 1 - Q.capacity q ≡ 0 = omega arith in
      let free : (Q.spaces q == 0) ≡ false = ground (arith, Q.spaces_lem q, ap length e) in
      rw (free, no_excess) (e, omega (arith, ap length e), refl)
  room_made q (y ∷ xs) e pos le = elim (dec_lt (suc (length xs)) (Q.capacity q)) [
    | yes lt ↦
        let no_excess : suc (suc (length xs)) - Q.capacity q ≡ 0 = omega arith in
        let free : (Q.spaces q == 0) ≡ false = ground (arith, Q.spaces_lem q, ap length e) in
        rw (free, no_excess) (e, omega (arith, ap length e), refl)
    | no full ↦
        let one : suc (suc (length xs)) - Q.capacity q ≡ 1 = omega arith in
        let none_free : (Q.spaces q == 0) ≡ true = ground (arith, Q.spaces_lem q, ap length e) in
        let (q', got, holds, cap) = Q.receive-cons q y xs e in
        rw (none_free, got, one) (holds, omega (arith, ap length holds), cap)
  ]

  -- On a queue that can hold an item, the item sent is the last one afterwards; before it are the
  -- items that were there, less the oldest one exactly if the queue was full. The waker set of the
  -- receiver is left empty.
  pub send_overwriting-keeps :
      (E : Type 0) (notify : ℕ → Bool) (switch : Bool) (x : T) (s : Shared T Q)
      → 0 < Q.capacity s.handle
      → length (held T Q slots s) ≤ Q.capacity s.handle
      → let (r, s') = send_overwriting_from_isr T Q slots E notify switch x s in
        (held T Q slots s' ≡ drop (excess s) (held T Q slots s) ++ (x ∷ []))
        × (s'.notify_rx ≡ empty_set)
  unfolding send_overwriting_from_isr wake_from_isr take_wakeable
  send_overwriting-keeps E notify switch x s pos le =
      let (left, room, cap) = room_made s.handle (held T Q slots s) refl pos le in
      (
        push_lem x (make_room T Q slots s.handle) (drop (excess s) (held T Q slots s)) left
            (omega (arith, room, cap, ap length left)),
        refl,
      )
