-- ===== src/Sync/Queue/Missed.antt =====
-- Whom the arrival of an item reaches.
use bark_esp.Base.{ℕ, ◌<◌, ◌≡◌, ◌≢◌, refl, ap, none, false, [], ◌∷◌, ◌++◌, length, arith, ◌∙◌, ok}
use bark_esp.Base.Bits.{has_bit}
use bark_esp.Extern.RtosQueue.{RtosQueue}
use bark_esp.Task.Registry.TaskSlot.{Slots}
use bark_esp.Task.Registry.TaskId.{max_tasks}
use bark_esp.Task.Waker.{wake_all, add_task}
use bark_esp.Task.Waker.Wake.{Woken, wake_all_iff, Waits-add_task}
use bark_esp.Sync.Queue.{
  Shared, try_send, try_receive, poll_receive, receive_later, answer, pending,
}
use bark_esp.Sync.Queue.Fifo.{held, send-room-state, receive-nil-state}

module _ (T : Type 0) (Q : RtosQueue T) (slots : Slots) where
  pub empty_poll :
      (id : ℕ) (s : Shared T Q)
      → held T Q slots s ≡ []
      → poll_receive T Q slots id s ≡ (pending, [], receive_later T Q slots id s)
  unfolding poll_receive
  empty_poll id s e = ap (answer T Q slots id) (receive-nil-state T Q slots s e)

  waiting :
      (id : ℕ) (s : Shared T Q)
      → id < max_tasks
      → slots id ≢ 0
      → Woken (slots id) (wake_all slots (receive_later T Q slots id s).notify_rx).0
  unfolding receive_later
  waiting id s lt live =
      (wake_all_iff slots (add_task id s.notify_rx) (slots id)).0.1
        (id, Waits-add_task id id s.notify_rx lt ∙ ground arith, ground arith, lt)

  later-held :
      (id : ℕ) (s : Shared T Q) → held T Q slots (receive_later T Q slots id s) ≡ held T Q slots s
  unfolding receive_later
  later-held id s = refl

  later-room :
      (id : ℕ) (s : Shared T Q)
      → held T Q slots s ≡ []
      → 0 < Q.capacity s.handle
      → length (held T Q slots (receive_later T Q slots id s))
        < Q.capacity (receive_later T Q slots id s).handle
  unfolding receive_later
  later-room id s e room = rw e room

  unheard :
      (id : ℕ) (s : Shared T Q)
      → ((other : ℕ) → slots other ≡ slots id → other ≡ id)
      → has_bit s.notify_rx id ≡ false
      → Woken (slots id) (wake_all slots s.notify_rx).0
      → ⊥
  unheard id s only absent w =
      let (other, waits, loads, lt) = (wake_all_iff slots s.notify_rx (slots id)).0.0 w in
      let same : other ≡ id = only other (ground arith) in cc (ap (has_bit s.notify_rx) same)

  -- A task that polls an empty channel, with the whole poll before the next send, gets `Pending`,
  -- and that send is accepted and notifies it.
  poll-send :
      (id : ℕ) (x : T) (s : Shared T Q)
      → held T Q slots s ≡ []
      → 0 < Q.capacity s.handle
      → id < max_tasks
      → slots id ≢ 0
      → let (answer, quiet, s') = poll_receive T Q slots id s in
        let (sent, woken, s'') = try_send T Q slots x s' in
        (answer ≡ pending) × (sent ≡ ok tt) × Woken (slots id) woken × (held T Q slots s'' ≡ x ∷ [])
  poll-send id x s e room lt live =
      let s' = receive_later T Q slots id s in
      let (s'', sent, holds, cap) = send-room-state T Q slots x s' (later-room id s e room) in
      rw (empty_poll id s e, sent)
        (refl, refl, waiting id s lt live, holds ∙ ap (λ l. l ++ (x ∷ [])) (later-held id s ∙ e))

  -- A send that falls inside the poll, after its `try_receive` and before its `add_task`, is lost
  -- on a task whose bit was not in the set: the task is not notified, and its poll returns
  -- `Pending` with the item in the channel.
  pub missed_item :
      (id : ℕ) (x : T) (s : Shared T Q)
      → held T Q slots s ≡ []
      → 0 < Q.capacity s.handle
      → ((other : ℕ) → slots other ≡ slots id → other ≡ id)
      → has_bit s.notify_rx id ≡ false
      → let (item, quiet, s1) = try_receive T Q slots s in
        let (sent, woken, s2) = try_send T Q slots x s1 in
        (item ≡ none)
        × (sent ≡ ok tt)
        × (Woken (slots id) woken → ⊥)
        × (held T Q slots (receive_later T Q slots id s2) ≡ x ∷ [])
  missed_item id x s e room only absent =
      let (s2, sent, holds, cap) = send-room-state T Q slots x s (rw e room) in
      rw (receive-nil-state T Q slots s e, sent)
        (refl, refl, unheard id s only absent, later-held id s2 ∙ holds ∙ ap (λ l. l ++ (x ∷ [])) e)
