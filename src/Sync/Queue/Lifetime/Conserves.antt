-- ===== src/Sync/Queue/Lifetime/Conserves.antt =====
-- Where the items of a channel end up.
use bark_esp.Base.{
  ℕ, suc, ◌+◌, ◌≤◌, ◌≡◌, refl, sym, ap, ◌∙◌, Bool, true, false, ◌||◌, if◌then◌else◌, List, [], ◌∷◌,
  ◌++◌, length, returns, arith, dec_lt, append_assoc, append-nil, length-append,
}
use bark_esp.Extern.RtosQueue.{RtosQueue}
use bark_esp.Task.Registry.TaskSlot.{Slots}
use bark_esp.Sync.Queue.{drop_side, rx_alive, tx_alive}
use bark_esp.Sync.Queue.Fifo.{
  held, send-room-state, send-full-state, receive-cons-state, receive-nil-state, try_send-flags,
  try_receive-flags,
}
use bark_esp.Sync.Queue.Drop.{drop_items-ends}
use bark_esp.Sync.Queue.Lifetime.{Op, send, receive, Channel, act, drop_end}

-- `flags` for the ends that are left
abbrev pub flags_of : Bool → Bool → ℕ
flags_of tx rx = (if tx then 2 else 0) + (if rx then 1 else 0)

or_true : (b : Bool) → b || true ≡ true
or_true false = refl
or_true true = refl

module _ (T : Type 0) (Q : RtosQueue T) (slots : Slots) where
  abbrev pub items : Channel T Q → List T
  items c = held T Q slots c.shared

  pub record Live (tx rx : Bool) (c : Channel T Q) : Type 0 where
    pub flags : c.shared.flags ≡ flags_of tx rx
    pub order : c.accepted ≡ c.received ++ (c.dropped ++ items c)
    pub left : tx || rx ≡ true → (c.dropped ≡ []) × (c.deletes ≡ 0)
    pub gone : tx || rx ≡ false → (items c ≡ []) × (c.deletes ≡ 1)
    pub room : length (items c) ≤ Q.capacity c.shared.handle

  -- What a step from a channel with these ends leaves.
  abbrev pub Leaves : Bool → Bool → Op T → Channel T Q → Type 0
  Leaves tx rx op c = (c' : Channel T Q) × (act T Q slots op c ≡ returns c') × Live tx rx c'

  pub send-Leaves :
      (x : T) (rx : Bool) (c : Channel T Q) → Live true rx c → Leaves true rx (send x) c
  unfolding act
  send-Leaves x rx c v = elim (dec_lt (length (items c)) (Q.capacity c.shared.handle)) [
    | yes lt ↦
        let (s', sent, holds, cap) = send-room-state T Q slots x c.shared lt in
        let none_dropped = (v.left refl).0 in
        (
          record c { shared = s'; accepted = c.accepted ++ x ∷ [] },
          rw (sent, act) refl,
          record {
            flags = sym (ap (λ r. r.2.flags) sent) ∙ try_send-flags T Q slots x c.shared ∙ v.flags;
            order =
                ap (λ l. l ++ x ∷ [])
                  (v.order ∙ ap (λ l. c.received ++ (l ++ items c)) none_dropped)
                ∙ append_assoc c.received (items c) (x ∷ [])
                ∙ ap (λ l. c.received ++ l) (sym holds)
                ∙ ap (λ l. c.received ++ (l ++ held T Q slots s')) (sym none_dropped);
            left = v.left;
            gone = λ e. cc;
            room = omega (arith, cap, lt, ap length holds, length-append (items c) (x ∷ []));
          },
        )
    | no full ↦ (c, rw (send-full-state T Q slots x c.shared (omega arith), act) refl, v)
  ]

  pub receive-Leaves :
      (xs : List T) (tx : Bool) (c : Channel T Q)
      → items c ≡ xs
      → Live tx true c
      → Leaves tx true receive c
  unfolding act
  receive-Leaves [] tx c e v = (c, rw (receive-nil-state T Q slots c.shared e, act) refl, v)
  receive-Leaves (a ∷ xs) tx c e v =
      let (s', woken, got, holds, cap) = receive-cons-state T Q slots c.shared a xs e in
      let none_dropped : c.dropped ≡ [] = (v.left (or_true tx)).0 in
      (
        record c { shared = s'; received = c.received ++ a ∷ [] },
        rw (got, act) refl,
        record {
          flags = sym (ap (λ r. r.2.flags) got) ∙ try_receive-flags T Q slots c.shared ∙ v.flags;
          order =
              v.order
              ∙ ap (λ l. c.received ++ (l ++ items c)) none_dropped
              ∙ ap (λ l. c.received ++ l) e
              ∙ sym (append_assoc c.received (a ∷ []) xs)
              ∙ ap (λ l. (c.received ++ a ∷ []) ++ l) (sym holds)
              ∙ ap (λ l. (c.received ++ a ∷ []) ++ (l ++ held T Q slots s')) (sym none_dropped);
          left = v.left;
          gone = λ f. cc (f, or_true tx);
          room = omega (arith, cap, v.room, ap length holds, ap length e);
        },
      )

  -- The first end that is dropped clears its flag.
  drop_end-keeps :
      (flags n : ℕ) (c : Channel T Q)
      → drop_side T Q flags c.shared ≡ (false, record c.shared { flags = n })
      → drop_end T Q flags c ≡ returns (record c { shared = record c.shared { flags = n } })
  unfolding drop_end
  drop_end-keeps flags n c e = rw (drop_end, e) refl

  -- The second one drops what the queue holds, and deletes it.
  drop_end-frees :
      (flags : ℕ) (c : Channel T Q)
      → drop_side T Q flags c.shared ≡ (true, record c.shared { flags = 0 })
      → length (items c) ≤ Q.capacity c.shared.handle
      → (q : Q.Carrier) × (drop_end T Q flags c
          ≡ returns (record c {
            shared = record c.shared { flags = 0; handle = q };
            dropped = c.dropped ++ items c;
            deletes = c.deletes + 1;
          }))
        × (Q.items q ≡ [])
  unfolding drop_end
  drop_end-frees flags c e h =
      let (q, ends, empty) =
        drop_items-ends T Q (suc (Q.capacity c.shared.handle)) c.shared.handle (omega arith) in
      (q, rw (drop_end, e, ends) refl, empty)

  drop_end-last :
      (flags : ℕ) (c : Channel T Q)
      → drop_side T Q flags c.shared ≡ (true, record c.shared { flags = 0 })
      → c.accepted ≡ c.received ++ (c.dropped ++ items c)
      → (c.dropped ≡ []) × (c.deletes ≡ 0)
      → length (items c) ≤ Q.capacity c.shared.handle
      → (c' : Channel T Q) × (drop_end T Q flags c ≡ returns c') × Live false false c'
  drop_end-last flags c e order (none_dropped, none_deleted) room =
      let (q, ends, empty) = drop_end-frees flags c e room in
      (
        record c {
          shared = record c.shared { flags = 0; handle = q };
          dropped = c.dropped ++ items c;
          deletes = c.deletes + 1;
        },
        ends,
        record {
          flags = refl;
          order =
              order
              ∙ sym (ap (λ l. c.received ++ l) (append-nil (c.dropped ++ items c)))
              ∙ ap (λ l. c.received ++ ((c.dropped ++ items c) ++ l)) (sym empty);
          left = λ f. cc;
          gone = λ f. (empty, omega (arith, none_deleted));
          room = omega (arith, ap length empty);
        },
      )

  pub drop_sender-Leaves :
      (rx : Bool) (c : Channel T Q)
      → Live true rx c
      → (c' : Channel T Q) × (drop_end T Q tx_alive c ≡ returns c') × Live false rx c'
  unfolding drop_side
  drop_sender-Leaves true c v = (
    _,
    drop_end-keeps tx_alive 1 c (rw v.flags refl),
    record {
      flags = refl;
      order = v.order;
      left = λ f. v.left refl;
      gone = λ f. cc;
      room = v.room;
    },
  )
  drop_sender-Leaves false c v =
      drop_end-last tx_alive c (rw v.flags refl) v.order (v.left refl) v.room

  pub drop_receiver-Leaves :
      (tx : Bool) (c : Channel T Q)
      → Live tx true c
      → (c' : Channel T Q) × (drop_end T Q rx_alive c ≡ returns c') × Live tx false c'
  unfolding drop_side
  drop_receiver-Leaves true c v = (
    _,
    drop_end-keeps rx_alive 2 c (rw v.flags refl),
    record {
      flags = refl;
      order = v.order;
      left = λ f. v.left refl;
      gone = λ f. cc;
      room = v.room;
    },
  )
  drop_receiver-Leaves false c v =
      drop_end-last rx_alive c (rw v.flags refl) v.order (v.left refl) v.room
