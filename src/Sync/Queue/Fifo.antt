-- ===== src/Sync/Queue/Fifo.antt =====
-- Items come out of a channel in the order in which they were accepted.
use bark_esp.Base.{
  ℕ, ◌≤◌, ◌<◌, ◌≡◌, refl, sym, ap, ◌∙◌, Option, none, some, List, [], ◌∷◌, ◌++◌, length, arith,
  Result, ok, err, dec_lt, append_assoc, append-nil, length-append, Option-cases, inl, inr,
}
use bark_esp.Extern.RtosQueue.{RtosQueue}
use bark_esp.Task.Registry.TaskSlot.{Slots}
use bark_esp.Task.Waker.{wake_all}
use bark_esp.Sync.Queue.{Shared, try_send, try_receive}

pub data Op (T : Type 0) : Type 0 where
  send : T → Op T
  receive : Op T

module _ (T : Type 0) (Q : RtosQueue T) (slots : Slots) where
  -- The items accepted and the items received, in order.
  pub record Trace : Type 0 where
    pub accepted : List T
    pub received : List T
    pub last : Shared T Q

  abbrev pub add_sent : T → Result (Unit {0}) T → Trace → Trace
  add_sent x (ok _) t = record t { accepted = x ∷ t.accepted }
  add_sent x (err _) t = t

  abbrev pub add_received : Option T → Trace → Trace
  add_received (some x) t = record t { received = x ∷ t.received }
  add_received none t = t

  unfoldable pub run : List (Op T) → Shared T Q → Trace
  run [] s = record { accepted = []; received = []; last = s }
  run (send x ∷ ops) s = let (r, woken, s') = try_send T Q slots x s in add_sent x r (run ops s')
  run (receive ∷ ops) s =
      let (o, woken, s') = try_receive T Q slots s in add_received o (run ops s')

  abbrev pub held : Shared T Q → List T
  held s = Q.items s.handle

  abbrev Room : Shared T Q → Type 0
  Room s = length (held s) ≤ Q.capacity s.handle

  record Conserves (s : Shared T Q) (t : Trace) : Type 0 where
    order : held s ++ t.accepted ≡ t.received ++ held t.last
    bound : length (held t.last) ≤ Q.capacity s.handle

  pub send-room-state :
      (x : T) (s : Shared T Q)
      → length (held s) < Q.capacity s.handle
      → (s' : Shared T Q) × (try_send T Q slots x s ≡ (ok tt, (wake_all slots s.notify_rx).0, s'))
        × (held s' ≡ held s ++ (x ∷ []))
        × (Q.capacity s'.handle ≡ Q.capacity s.handle)
  unfolding try_send
  send-room-state x s lt =
      let (q, sent, holds, cap) = Q.send-room x s.handle lt in
      (
        record s { handle = q; notify_rx = (wake_all slots s.notify_rx).1 },
        rw (sent, try_send),
        holds,
        cap,
      )

  pub send-full-state :
      (x : T) (s : Shared T Q)
      → Q.capacity s.handle ≤ length (held s)
      → try_send T Q slots x s ≡ (err x, [], s)
  unfolding try_send
  send-full-state x s full = rw (Q.send-full x s.handle full, try_send)

  pub receive-cons-state :
      (s : Shared T Q) (a : T) (rest : List T)
      → held s ≡ a ∷ rest
      → (s' : Shared T Q) × (woken : List ℕ) × (try_receive T Q slots s ≡ (some a, woken, s'))
        × (held s' ≡ rest)
        × (Q.capacity s'.handle ≡ Q.capacity s.handle)
  unfolding try_receive
  receive-cons-state s a rest e =
      let (q, got, holds, cap) = Q.receive-cons s.handle a rest e in
      (
        record s { handle = q; notify_tx = (wake_all slots s.notify_tx).1 },
        (wake_all slots s.notify_tx).0,
        rw (got, try_receive),
        holds,
        cap,
      )

  pub receive-nil-state : (s : Shared T Q) → held s ≡ [] → try_receive T Q slots s ≡ (none, [], s)
  unfolding try_receive
  receive-nil-state s e = rw (Q.receive-nil s.handle e, try_receive)

  -- Neither end's operations touch the flags.
  pub try_send-flags : (x : T) (s : Shared T Q) → (try_send T Q slots x s).2.flags ≡ s.flags
  unfolding try_send
  try_send-flags x s = elim (Option-cases (Q.send_to_back x s.handle)) [
    | inl full ↦ rw (full, try_send) refl
    | inr (q, sent) ↦ rw (sent, try_send) refl
  ]

  pub try_receive-flags : (s : Shared T Q) → (try_receive T Q slots s).2.flags ≡ s.flags
  unfolding try_receive
  try_receive-flags s = elim (Option-cases (Q.receive s.handle)) [
    | inl empty ↦ rw (empty, try_receive) refl
    | inr (p, got) ↦ rw (got, try_receive) refl
  ]

  receive-Conserves :
      (ops : List (Op T)) (s : Shared T Q) (xs : List T)
      → ((s' : Shared T Q) → Room s' → Conserves s' (run ops s'))
      → held s ≡ xs
      → Room s
      → Conserves s (run (receive ∷ ops) s)
  unfolding run
  receive-Conserves ops s [] rest e h = rw (receive-nil-state s e) (rest s h)
  receive-Conserves ops s (a ∷ xs) rest e h =
      let (s', woken, got, holds, cap) = receive-cons-state s a xs e in
      let v = rest s' (rw (holds, cap) (omega (arith, h, ap length e))) in
      rw got (record {
        order = rw e (ap (λ l. a ∷ l) (sym (ap (λ l. l ++ (run ops s').accepted) holds) ∙ v.order));
        bound = omega (arith, v.bound, cap);
      })

  send-Conserves :
      (x : T) (ops : List (Op T)) (s : Shared T Q)
      → ((s' : Shared T Q) → Room s' → Conserves s' (run ops s'))
      → Room s
      → Conserves s (run (send x ∷ ops) s)
  unfolding run
  send-Conserves x ops s rest h = elim (dec_lt (length (held s)) (Q.capacity s.handle)) [
    | yes lt ↦
        let (s', sent, holds, cap) = send-room-state x s lt in
        let v =
          rest s' (omega (arith, cap, lt, ap length holds, length-append (held s) (x ∷ []))) in
        rw sent (record {
          order =
              sym (append_assoc (held s) (x ∷ []) (run ops s').accepted)
              ∙ sym (ap (λ l. l ++ (run ops s').accepted) holds)
              ∙ v.order;
          bound = omega (arith, v.bound, cap);
        })
    | no full ↦ rw (send-full-state x s (omega arith)) (rest s h)
  ]

  Conserves-run : (ops : List (Op T)) (s : Shared T Q) → Room s → Conserves s (run ops s)
  unfolding run
  Conserves-run [] s h = record { order = append-nil (held s); bound = h }
  Conserves-run (send x ∷ ops) s h = send-Conserves x ops s (Conserves-run ops) h
  Conserves-run (receive ∷ ops) s h = receive-Conserves ops s (held s) (Conserves-run ops) refl h

  -- Whatever the two ends do, what the channel held followed by what it accepted is what was
  -- received followed by what it holds at the end, in order, and that fits its capacity.
  pub run_fifo :
      (ops : List (Op T)) (s : Shared T Q)
      → length (held s) ≤ Q.capacity s.handle
      → (held s ++ (run ops s).accepted ≡ (run ops s).received ++ held (run ops s).last)
        × (length (held (run ops s).last) ≤ Q.capacity s.handle)
  run_fifo ops s h = let v = Conserves-run ops s h in (v.order, v.bound)
