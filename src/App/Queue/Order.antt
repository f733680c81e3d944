-- ===== src/App/Queue/Order.antt =====
-- Packets come out in the order of their sequence numbers, one number at each pop.
use mathlib.Core.Path.{subst}
use bark_esp.Base.{
  ℕ, suc, ◌+◌, ◌-◌, ◌^◌, ◌≤◌, ◌<◌, ◌≡◌, refl, ap, sym, ◌∙◌, Option, none, some, List, [], ◌∷◌,
  arith, Outcome, returns, panics, out_of_fuel, length,
}
use bark_esp.Extern.Deque.{Deque}
use bark_esp.Stats.{Stats}
use bark_esp.App.Queue.{max_queued_packets, Shared, new, pop_front, insert_packet}
use bark_esp.App.Queue.Slots.{slot_at}
use bark_esp.App.Queue.Insert.{pending, window}
use bark_esp.App.Queue.Refine.{insert-Refines}
use bark_esp.App.Queue.Pop.{pop_refines}
use bark_esp.App.Queue.Spec.{Window, verdict, insert, advance, of_slot}

-- What the two tasks do to the queue, each call under its lock.
pub data Op (Audio : Type 0) : Type 0 where
  receive : Audio → Op Audio
  play : Op Audio

module _ (Audio : Type 0) (seq : Audio → ℕ) (D : Deque (Option Audio) max_queued_packets) where
  -- The results of the pops, in order.
  unfoldable pub run : List (Op Audio) → Shared Audio seq D → Stats → Outcome (List (Option Audio))
  run [] s t = returns []
  run (receive p ∷ ops) s t = elim (insert_packet Audio seq D p s t) [
    | returns (s', t') ↦ run ops s' t'
    | panics ↦ panics
    | out_of_fuel ↦ out_of_fuel
  ]
  run (play ∷ ops) s t =
      let (out, s') = pop_front Audio seq D s in
      elim (run ops s' t) [
        | returns outs ↦ returns (out ∷ outs)
        | panics ↦ panics
        | out_of_fuel ↦ out_of_fuel
      ]

  -- Each packet that is received has a number below the bound.
  abbrev pub NumbersBelow : ℕ → List (Op Audio) → Type 0
  NumbersBelow n [] = Unit {0}
  NumbersBelow n (receive p ∷ ops) = (seq p < n) × NumbersBelow n ops
  NumbersBelow n (play ∷ ops) = NumbersBelow n ops

  abbrev pub plays : List (Op Audio) → ℕ
  plays [] = 0
  plays (receive p ∷ ops) = plays ops
  plays (play ∷ ops) = suc (plays ops)

  -- Each result is nothing, or a packet with just the number whose turn it is.
  abbrev pub InOrder : ℕ → List (Option Audio) → Type 0
  InOrder n [] = Unit {0}
  InOrder n (none ∷ outs) = InOrder (n + 1) outs
  InOrder n (some p ∷ outs) = (seq p ≡ n) × InOrder (n + 1) outs

  -- A window holds each packet at its own number.
  abbrev Aligned : Window Audio seq → Type 0
  Aligned w = (q : ℕ) (p : Audio) → w.at q ≡ some p → seq p ≡ q

  insert-Aligned : (p : Audio) (w : Window Audio seq) → Aligned w → Aligned (insert Audio seq p w)
  unfolding insert verdict of_slot
  insert-Aligned p w a q x e = ground (arith, a q x)

  advance-Aligned : (w : Window Audio seq) → Aligned w → Aligned (advance Audio seq w).1
  unfolding advance
  advance-Aligned w a q x e = ground (arith, a q x)

  pub insert-head : (p : Audio) (w : Window Audio seq) → (insert Audio seq p w).head ≡ w.head
  unfolding insert
  insert-head p w = ground arith

  pub advance-head : (w : Window Audio seq) → (advance Audio seq w).1.head ≡ w.head + 1
  unfolding advance
  advance-head w = refl

  pub advance-out : (w : Window Audio seq) → (advance Audio seq w).0 ≡ w.at w.head
  unfolding advance
  advance-out w = refl

  -- What a run from a state promises.
  abbrev pub Played : List (Op Audio) → Shared Audio seq D → Stats → Type 0
  Played ops s t =
      (outs : List (Option Audio)) × (run ops s t ≡ returns outs)
      × InOrder s.head_seq outs
      × (length outs ≡ plays ops)

  run-receive :
      (p : Audio) (ops : List (Op Audio)) (s s' : Shared Audio seq D) (t t' : Stats)
      → insert_packet Audio seq D p s t ≡ returns (s', t')
      → s'.head_seq ≡ s.head_seq
      → Played ops s' t'
      → Played (receive p ∷ ops) s t
  unfolding run
  run-receive p ops s s' t t' e head (outs, go, order, count) =
      (outs, rw (e, run) go, rw head at order, count)

  run-play :
      (ops : List (Op Audio)) (s : Shared Audio seq D) (out : Option Audio) (t : Stats)
      → (pop_front Audio seq D s).0 ≡ out
      → (pop_front Audio seq D s).1.head_seq ≡ s.head_seq + 1
      → ((p : Audio) → out ≡ some p → seq p ≡ s.head_seq)
      → Played ops (pop_front Audio seq D s).1 t
      → Played (play ∷ ops) s t
  unfolding run
  run-play ops s none t e head mine (outs, go, order, count) =
      (none ∷ outs, rw (go, run, e), rw head at order, omega arith)
  run-play ops s (some p) t e head mine (outs, go, order, count) =
      (some p ∷ outs, rw (go, run, e), (mine p refl, rw head at order), omega arith)

  run_lem :
      (ops : List (Op Audio)) (n : ℕ) (s : Shared Audio seq D) (t : Stats)
      → Aligned (window Audio seq D s)
      → NumbersBelow n ops
      → n ≤ s.head_seq + 2 ^ 32
      → s.head_seq + length ops < 2 ^ 64
      → Played ops s t
  unfolding run
  run_lem [] n s t a below near room = ([], refl, tt, refl)
  run_lem (receive p ∷ ops) n s t a below near room =
      let (s', e, w) = insert-Refines Audio seq D p s t (omega (arith, below.0)) in
      let head : s'.head_seq ≡ s.head_seq =
        ap (λ v. v.head) w ∙ insert-head p (window Audio seq D s) in
      run-receive p ops s s' t _ e head (
        run_lem ops n s' _ (subst Aligned (sym w) (insert-Aligned p (window Audio seq D s) a))
          below.1 (omega arith) (omega arith))
  run_lem (play ∷ ops) n s t a below near room =
      let w = pop_refines Audio seq D s (omega arith) in
      let s' = (pop_front Audio seq D s).1 in
      let head : s'.head_seq ≡ s.head_seq + 1 =
        ap (λ v. v.1.head) w ∙ advance-head (window Audio seq D s) in
      run-play ops s (pop_front Audio seq D s).0 t refl head
        (λ p e. a s.head_seq p (sym (ap (λ v. v.0) w ∙ advance-out (window Audio seq D s)) ∙ e))
        (run_lem ops n s' t
          (subst Aligned (sym (ap (λ v. v.1) w)) (advance-Aligned (window Audio seq D s) a)) below
          (omega arith) (omega arith))

  new-Aligned : (start : ℕ) → Aligned (window Audio seq D (new Audio seq D start))
  unfolding new
  new-Aligned start q p e = ground (arith, empty)
    where
      empty : pending Audio seq D (new Audio seq D start) (q - start) ≡ none
      empty = ap (λ xs. slot_at xs (q - start)) D.default_lem

  -- Whatever mix of packets and pops a new queue meets, if the packets' numbers stay below the
  -- bound of 2^32 beyond its start and the pops short of the last number, nothing panics, each
  -- pop has a result, and the result of the pop number k is none or a packet whose sequence
  -- number is just the start plus k.
  pub run-InOrder :
      (ops : List (Op Audio)) (start : ℕ) (t : Stats)
      → NumbersBelow (start + 2 ^ 32) ops
      → start + length ops < 2 ^ 64
      → (outs : List (Option Audio)) × (run ops (new Audio seq D start) t ≡ returns outs)
        × InOrder start outs
        × (length outs ≡ plays ops)
  unfolding new
  run-InOrder ops start t below room =
      run_lem ops (start + 2 ^ 32) (new Audio seq D start) t (new-Aligned start) below (omega arith)
        room
