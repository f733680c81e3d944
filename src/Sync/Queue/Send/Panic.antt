-- ===== src/Sync/Queue/Send/Panic.antt =====
-- A reservation holds: only the sender fills the channel.
use bark_esp.Base.{
  ℕ, ◌<◌, ◌≤◌, ◌≡◌, ◌≢◌, refl, sym, ap, ◌∙◌, List, [], ◌∷◌, ◌++◌, length, arith, append_assoc,
  append-nil, dec_lt,
}
use bark_esp.Extern.RtosQueue.{RtosQueue}
use bark_esp.Task.Registry.TaskSlot.{Slots}
use bark_esp.Task.Waker.{add_task}
use bark_esp.Sync.Queue.{ready, pending, Shared, poll_reserve, poll_receive, receive_later}
use bark_esp.Sync.Queue.Fifo.{held, send-room-state, receive-cons-state}
use bark_esp.Sync.Queue.Missed.{empty_poll}
use bark_esp.Sync.Queue.Send.{
  Sending, reserving, reserved, sent, panicked, System, step_sender, step_receiver, Event,
  sender_moves, receiver_moves, step, run, start,
}

abbrev pub value_of : {T : Type 0} → Sending T → T
value_of (reserving value) = value
value_of (reserved value) = value
value_of (sent value) = value
value_of (panicked value) = value

-- What `send` has put into the channel.
abbrev pub accepted : {T : Type 0} → Sending T → List T
accepted (sent value) = value ∷ []
accepted _ = []

module _ (T : Type 0) (Q : RtosQueue T) (slots : Slots) where
  -- Room for one more item.
  abbrev pub HasRoom : Shared T Q → Type 0
  HasRoom s = length (held T Q slots s) < Q.capacity s.handle

  -- What the sender relies on where it stands.
  abbrev Relies : Sending T → Shared T Q → Type 0
  Relies (reserving value) s = Unit {0}
  Relies (reserved value) s = HasRoom s
  Relies (sent value) s = Unit {0}
  Relies (panicked value) s = ⊥

  record Inv (value : T) (before : List T) (p : Sending T) (s : Shared T Q) (received : List T)
      : Type 0 where
    relies : Relies p s
    same : value_of p ≡ value
    order : before ++ accepted p ≡ received ++ held T Q slots s

  reserve-room : (id : ℕ) (s : Shared T Q) → HasRoom s → poll_reserve T Q slots id s ≡ (ready tt, s)
  unfolding poll_reserve
  reserve-room id s room = ground (arith, Q.spaces_lem s.handle)

  reserve-full :
      (id : ℕ) (s : Shared T Q)
      → Q.capacity s.handle ≤ length (held T Q slots s)
      → poll_reserve T Q slots id s ≡ (pending, record s { notify_tx = add_task id s.notify_tx })
  unfolding poll_reserve
  reserve-full id s full = ground (arith, Q.spaces_lem s.handle)

  -- More room and no other value leave what the sender relies on.
  Relies-room :
      (p : Sending T) (s s' : Shared T Q)
      → Relies p s
      → length (held T Q slots s') ≤ length (held T Q slots s)
      → Q.capacity s'.handle ≡ Q.capacity s.handle
      → Relies p s'
  Relies-room (reserving value) s s' r le cap = tt
  Relies-room (reserved value) s s' r le cap = omega (arith, r, le, cap)
  Relies-room (sent value) s s' r le cap = tt
  Relies-room (panicked value) s s' r le cap = r

  abbrev InvOf : T → List T → System T Q slots → Type 0
  InvOf value before t = Inv value before t.sender t.shared t.received

  Inv-sender :
      (id : ℕ) (value : T) (before : List T) (p : Sending T) (s : Shared T Q) (received : List T)
      → Inv value before p s received
      → InvOf value before
          (step_sender T Q slots id p (record { shared = s; sender = p; received = received }))
  unfolding step_sender
  Inv-sender id value before (reserving x) s received v =
      elim (dec_lt (length (held T Q slots s)) (Q.capacity s.handle)) [
        | yes room ↦
            rw (reserve-room id s room) (record { relies = room; same = v.same; order = v.order })
        | no full ↦
            rw (reserve-full id s (omega arith))
              (record { relies = tt; same = v.same; order = v.order })
      ]
  Inv-sender id value before (reserved x) s received v =
      let (s', e, holds, cap) = send-room-state T Q slots x s v.relies in
      rw e (record {
        relies = tt;
        same = v.same;
        order =
            ap (λ l. l ++ (x ∷ [])) (sym (append-nil before) ∙ v.order)
            ∙ append_assoc received (held T Q slots s) (x ∷ [])
            ∙ ap (λ l. received ++ l) (sym holds);
      })
  Inv-sender id value before (sent x) s received v = v
  Inv-sender id value before (panicked x) s received v = absurd v.relies

  Inv-receiver :
      (id : ℕ) (value : T) (before : List T) (t : System T Q slots) (xs : List T)
      → held T Q slots t.shared ≡ xs
      → InvOf value before t
      → InvOf value before (step_receiver T Q slots id t)
  unfolding step_receiver poll_receive receive_later
  Inv-receiver id value before t [] e v = rw (empty_poll T Q slots id t.shared e) (record {
    relies = Relies-room t.sender t.shared _ v.relies (omega arith) refl;
    same = v.same;
    order = v.order;
  })
  Inv-receiver id value before t (x ∷ xs) e v =
      let (s', woken, got, holds, cap) = receive-cons-state T Q slots t.shared x xs e in
      rw got (record {
        relies =
            Relies-room t.sender t.shared s' v.relies (omega (arith, ap length e, ap length holds))
              cap;
        same = v.same;
        order =
            v.order
            ∙ ap (λ l. t.received ++ l) e
            ∙ sym (append_assoc t.received (x ∷ []) xs)
            ∙ ap (λ l. (t.received ++ (x ∷ [])) ++ l) (sym holds);
      })

  Inv-run :
      (es : List (Event T Q slots)) (value : T) (before : List T) (t : System T Q slots)
      → InvOf value before t
      → InvOf value before (run T Q slots es t)
  unfolding run step
  Inv-run [] value before t v = v
  Inv-run (sender_moves id ∷ es) value before t v =
      Inv-run es value before (step_sender T Q slots id t.sender t)
        (Inv-sender id value before t.sender t.shared t.received v)
  Inv-run (receiver_moves id ∷ es) value before t v =
      Inv-run es value before (step_receiver T Q slots id t)
        (Inv-receiver id value before t (held T Q slots t.shared) refl v)

  two_moves :
      (id : ℕ) (value : T) (t : System T Q slots)
      → t.sender ≡ reserving value
      → HasRoom t.shared
      → (run T Q slots (sender_moves id ∷ sender_moves id ∷ []) t).sender ≡ sent value
  unfolding run step step_sender
  two_moves id value t e room =
      let (s', pushed, holds, cap) = send-room-state T Q slots value t.shared room in
      ap
        (λ p.
          let t' = step_sender T Q slots id p t in (step_sender T Q slots id t'.sender t').sender)
        e
      ∙ rw (reserve-room id t.shared room, pushed) refl

  never_panics : (p : Sending T) (s : Shared T Q) → Relies p s → (x : T) → p ≢ panicked x
  never_panics (reserving value) s r x e = cc
  never_panics (reserved value) s r x e = cc
  never_panics (sent value) s r x e = cc
  never_panics (panicked value) s r x e = r

  -- Whenever the one sender and the one receiver of a channel are polled: `send` does not panic, the
  -- channel's items come out in order with the value behind those that it held, and the value is
  -- accepted once, when `send` is done. While it waits for room and there is some, two steps of the
  -- sender end it.
  pub send_keeps :
      (es : List (Event T Q slots)) (value : T) (s : Shared T Q)
      → let t = run T Q slots es (start T Q slots value s) in
        ((x : T) → t.sender ≢ panicked x)
        × (value_of t.sender ≡ value)
        × (held T Q slots s ++ accepted t.sender ≡ t.received ++ held T Q slots t.shared)
        × ((id : ℕ)
            → t.sender ≡ reserving value
            → HasRoom t.shared
            → (run T Q slots (sender_moves id ∷ sender_moves id ∷ []) t).sender ≡ sent value)
  send_keeps es value s =
      let t = run T Q slots es (start T Q slots value s) in
      let v =
        Inv-run es value (held T Q slots s) (start T Q slots value s)
          (record { relies = tt; same = refl; order = append-nil (held T Q slots s) }) in
      (never_panics t.sender t.shared v.relies, v.same, v.order, λ id. two_moves id value t)
