-- ===== src/Sync/Queue/Lifetime/Whole.antt =====
-- A channel over its whole life.
use mathlib.Core.Path.{subst}
use bark_esp.Base.{
  ℕ, ◌≡◌, refl, sym, ap, ◌∙◌, Bool, true, false, ◌||◌, List, [], ◌∷◌, ◌++◌, length, Result, ok, err,
  map_err, returns, arith, Option-cases, inl, inr,
}
use bark_esp.Extern.RtosQueue.{RtosQueue}
use bark_esp.Task.Registry.TaskSlot.{Slots}
use bark_esp.Sync.Queue.{Shared, channel, malloc}
use bark_esp.Sync.Queue.Lifetime.{
  Op, send, receive, drop_sender, drop_receiver, Owned, ends, Channel, made, act, run,
}
use bark_esp.Sync.Queue.Lifetime.Conserves.{
  items, Live, send-Leaves, receive-Leaves, drop_sender-Leaves, drop_receiver-Leaves,
}

map_err-ok : {A E F : Type 0} (f : E → F) (r : Result A E) (a : A) → map_err f r ≡ ok a → r ≡ ok a
map_err-ok f (ok x) a e = ground (arith, e)
map_err-ok f (err x) a e = cc e

module _ (T : Type 0) (Q : RtosQueue T) (slots : Slots) where
  act-Leaves :
      (op : Op T) (ops : List (Op T)) (tx rx : Bool) (c : Channel T Q)
      → Owned tx rx (op ∷ ops)
      → Live T Q slots tx rx c
      → (c' : Channel T Q) × (act T Q slots op c ≡ returns c')
        × Live T Q slots (ends tx rx (op ∷ [])).0 (ends tx rx (op ∷ [])).1 c'
        × Owned (ends tx rx (op ∷ [])).0 (ends tx rx (op ∷ [])).1 ops
  unfolding act
  act-Leaves (send x) ops true rx c o v =
      let (c', e, v') = send-Leaves T Q slots x rx c v in (c', e, v', o.1)
  act-Leaves (send x) ops false rx c o v = cc o.0
  act-Leaves receive ops tx true c o v =
      let (c', e, v') = receive-Leaves T Q slots (items T Q slots c) tx c refl v in (c', e, v', o.1)
  act-Leaves receive ops tx false c o v = cc o.0
  act-Leaves drop_sender ops true rx c o v =
      let (c', e, v') = drop_sender-Leaves T Q slots rx c v in (c', e, v', o.1)
  act-Leaves drop_sender ops false rx c o v = cc o.0
  act-Leaves drop_receiver ops tx true c o v =
      let (c', e, v') = drop_receiver-Leaves T Q slots tx c v in (c', e, v', o.1)
  act-Leaves drop_receiver ops tx false c o v = cc o.0

  ends-cons :
      (op : Op T) (ops : List (Op T)) (tx rx : Bool)
      → let (tx', rx') = ends tx rx (op ∷ []) in ends tx' rx' ops ≡ ends tx rx (op ∷ ops)
  ends-cons (send x) ops tx rx = refl
  ends-cons receive ops tx rx = refl
  ends-cons drop_sender ops tx rx = refl
  ends-cons drop_receiver ops tx rx = refl

  run-Live :
      (ops : List (Op T)) (tx rx : Bool) (c : Channel T Q)
      → Owned tx rx ops
      → Live T Q slots tx rx c
      → (c' : Channel T Q) × (run T Q slots ops c ≡ returns c')
        × Live T Q slots (ends tx rx ops).0 (ends tx rx ops).1 c'
  unfolding run
  run-Live [] tx rx c o v = (c, refl, v)
  run-Live (op ∷ ops) tx rx c o v =
      let (c1, e, v1, o1) = act-Leaves op ops tx rx c o v in
      let (c2, e', v2) = run-Live ops (ends tx rx (op ∷ [])).0 (ends tx rx (op ∷ [])).1 c1 o1 v1 in
      (c2, rw (run, e) e', subst (λ b. Live T Q slots b.0 b.1 c2) (ends-cons op ops tx rx) v2)

  channel-Live :
      {E : Type 0} (alloc : Shared T Q → Result (Shared T Q) E) (n : ℕ) (s : Shared T Q)
      → ((v t : Shared T Q) → alloc v ≡ ok t → t ≡ v)
      → channel T Q alloc n ≡ ok s
      → Live T Q slots true true (made T Q s)
  unfolding channel
  channel-Live alloc n s placed e = elim (Option-cases (Q.create n)) [
    | inl none_made ↦ cc (rw (none_made, channel) at e)
    | inr (q, made_one) ↦
        let placed_at = map_err-ok malloc _ s (rw (made_one, channel) at e) in
        let same = placed _ s placed_at in
        let (empty, cap) = Q.create_lem n q made_one in
        record {
          flags = ap (λ v. v.flags) same;
          order = sym (ap (λ v. Q.items v.handle) same ∙ empty);
          left = λ f. (refl, refl);
          gone = λ f. cc;
          room = omega (arith, ap length (ap (λ v. Q.items v.handle) same ∙ empty));
        }
  ]

  -- From `channel`, where the allocator returns the block with what it is given: whatever the owners
  -- of the two ends do, nothing runs out of fuel, and what was accepted is what was received, then
  -- what was dropped and then what the queue holds, in order. While an end is left nothing is
  -- dropped and the queue is not deleted; when both are gone it is empty and was deleted once, so
  -- each item that was accepted is received once or dropped once.
  pub run_conserves :
      {E : Type 0} (alloc : Shared T Q → Result (Shared T Q) E) (n : ℕ) (s : Shared T Q)
      → ((v t : Shared T Q) → alloc v ≡ ok t → t ≡ v)
      → channel T Q alloc n ≡ ok s
      → (ops : List (Op T)) → Owned true true ops
      → (c : Channel T Q) × (run T Q slots ops (made T Q s) ≡ returns c)
        × (c.accepted ≡ c.received ++ (c.dropped ++ items T Q slots c))
        × let (tx, rx) = ends true true ops in
          (tx || rx ≡ true → (c.dropped ≡ []) × (c.deletes ≡ 0))
          × (tx || rx ≡ false → (items T Q slots c ≡ []) × (c.deletes ≡ 1))
  run_conserves alloc n s placed e ops owned =
      let (c, go, v) =
        run-Live ops true true (made T Q s) owned (channel-Live alloc n s placed e) in
      (c, go, v.order, (v.left, v.gone))
