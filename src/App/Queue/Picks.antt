-- ===== src/App/Queue/Picks.antt =====
-- Which packet is played for each sequence number, told from the order in which the packets come.
use bark_esp.Base.{
  ℕ, zero, suc, ◌+◌, ◌-◌, ◌^◌, ◌≤◌, ◌<◌, ◌≡◌, refl, ap, sym, ◌∙◌, Option, none, some, List, [], ◌∷◌,
  ◌&&◌, ◌==◌, leb, ltb, if◌then◌else◌, arith, returns, length,
}
use bark_esp.Extern.Deque.{Deque}
use bark_esp.Stats.{Stats}
use bark_esp.App.Queue.{max_queued_packets, Shared, new, pop_front, insert_packet}
use bark_esp.App.Queue.Slots.{slot_at}
use bark_esp.App.Queue.Insert.{pending, window}
use bark_esp.App.Queue.Refine.{insert-Refines}
use bark_esp.App.Queue.Pop.{pop_refines}
use bark_esp.App.Queue.Spec.{Window, verdict, insert, advance, of_slot}
use bark_esp.App.Queue.Order.{
  Op, receive, play, run, NumbersBelow, plays, insert-head, advance-head, advance-out,
}

-- The first of two that is there.
abbrev pub or_else {ℓ} : {A : Type ℓ} → Option A → Option A → Option A
or_else (some a) other = some a
or_else none other = other

-- The values of a function at `count` numbers from `from` on.
abbrev pub tabulate {ℓ} : {A : Type ℓ} → ℕ → ℕ → (ℕ → A) → List A
tabulate zero from f = []
tabulate (suc count) from f = f from ∷ tabulate count (from + 1) f

pub tabulate-ext {ℓ} :
    {A : Type ℓ} (count from : ℕ) (f g : ℕ → A)
    → ((n : ℕ) → from ≤ n → f n ≡ g n)
    → tabulate count from f ≡ tabulate count from g
tabulate-ext zero from f g h = refl
tabulate-ext (suc count) from f g h =
    rw (h from (omega arith), tabulate-ext count (from + 1) f g (λ n le. h n (omega arith))) refl

module _ {Audio : Type 0} (seq : Audio → ℕ) where
  -- The first packet of number `n` that comes while `n` is among the numbers that the queue takes,
  -- which are those from the next one to be played on; `head` is that one at first.
  abbrev pub pick : ℕ → ℕ → List (Op Audio) → Option Audio
  pick n head [] = none
  pick n head (receive p ∷ ops) =
      let rest = pick n head ops in
      if (seq p == n) && (leb head n && ltb n (head + max_queued_packets)) then some p else rest
  pick n head (play ∷ ops) = let rest = pick n (head + 1) ops in if leb n head then none else rest

module _ (Audio : Type 0) (seq : Audio → ℕ) where
  -- What becomes of number `n` from a window.
  abbrev pub outcome : ℕ → Window Audio seq → List (Op Audio) → Option Audio
  outcome n w ops = or_else (w.at n) (pick seq n w.head ops)

  pub outcome-insert :
      (n : ℕ) (p : Audio) (w : Window Audio seq) (ops : List (Op Audio))
      → w.head ≤ n
      → outcome n (insert Audio seq p w) ops ≡ outcome n w (receive p ∷ ops)
  unfolding insert verdict of_slot
  outcome-insert n p w ops le = ground (arith, le, ap w.at)

  pub outcome-advance :
      (n : ℕ) (w : Window Audio seq) (ops : List (Op Audio))
      → w.head < n
      → outcome n (advance Audio seq w).1 ops ≡ outcome n w (play ∷ ops)
  unfolding advance
  outcome-advance n w ops lt = ground (arith, lt)

module _ (Audio : Type 0) (seq : Audio → ℕ) (D : Deque (Option Audio) max_queued_packets) where
  -- What a run from a state plays, number by number.
  abbrev Picked : List (Op Audio) → Shared Audio seq D → Stats → Type 0
  Picked ops s t =
      run Audio seq D ops s t
      ≡ returns (
          tabulate (plays Audio seq D ops) s.head_seq
            (λ n. outcome Audio seq n (window Audio seq D s) ops))

  run-receive-Picked :
      (p : Audio) (ops : List (Op Audio)) (s s' : Shared Audio seq D) (t t' : Stats)
      → insert_packet Audio seq D p s t ≡ returns (s', t')
      → window Audio seq D s' ≡ insert Audio seq p (window Audio seq D s)
      → Picked ops s' t'
      → Picked (receive p ∷ ops) s t
  unfolding run
  run-receive-Picked p ops s s' t t' e w go =
      let head : s'.head_seq ≡ s.head_seq =
        ap (λ v. v.head) w ∙ insert-head Audio seq D p (window Audio seq D s) in
      rw (e, run)
        (go
          ∙ ap
              (λ h. returns (
                tabulate (plays Audio seq D ops) h
                  (λ n. outcome Audio seq n (window Audio seq D s') ops)))
              head
          ∙ ap
              (λ v.
                returns
                  (tabulate (plays Audio seq D ops) s.head_seq (λ n. outcome Audio seq n v ops)))
              w
          ∙ ap returns (
              tabulate-ext (plays Audio seq D ops) s.head_seq _ _
                (λ n le. outcome-insert Audio seq n p (window Audio seq D s) ops le)))

  -- The number whose turn it is comes out as the window has it.
  pub outcome-head :
      (w : Window Audio seq) (ops : List (Op Audio))
      → outcome Audio seq w.head w (play ∷ ops) ≡ w.at w.head
  outcome-head w ops = ground arith

  run-play-Picked :
      (ops : List (Op Audio)) (s : Shared Audio seq D) (out : Option Audio) (t : Stats)
      → (pop_front Audio seq D s).0 ≡ out
      → ◌≡◌ {A = Option Audio × Window Audio seq}
          (out, window Audio seq D (pop_front Audio seq D s).1)
          (advance Audio seq (window Audio seq D s))
      → Picked ops (pop_front Audio seq D s).1 t
      → Picked (play ∷ ops) s t
  unfolding run
  run-play-Picked ops s out t e w go =
      let s' : Shared Audio seq D = (pop_front Audio seq D s).1 in
      let v : Window Audio seq = window Audio seq D s in
      let head : s'.head_seq ≡ s.head_seq + 1 = ap (λ v. v.1.head) w ∙ advance-head Audio seq D v in
      let first : out ≡ outcome Audio seq s.head_seq v (play ∷ ops) =
        ap (λ v. v.0) w ∙ advance-out Audio seq D v ∙ sym (outcome-head v ops) in
      let rest : run Audio seq D ops s' t
          ≡ returns (
              tabulate (plays Audio seq D ops) (s.head_seq + 1)
                (λ n. outcome Audio seq n v (play ∷ ops))) =
        go
        ∙ ap
            (λ h. returns (
              tabulate (plays Audio seq D ops) h
                (λ n. outcome Audio seq n (window Audio seq D s') ops)))
            head
        ∙ ap
            (λ u. returns (
              tabulate (plays Audio seq D ops) (s.head_seq + 1) (λ n. outcome Audio seq n u.1 ops)))
            w
        ∙ ap returns (
            tabulate-ext (plays Audio seq D ops) (s.head_seq + 1) _ _
              (λ n le. outcome-advance Audio seq n v ops (omega arith))) in
      rw (rest, run, e)
        (ap
          (λ o. returns (
            o
            ∷ tabulate (plays Audio seq D ops) (s.head_seq + 1)
                (λ n. outcome Audio seq n v (play ∷ ops))))
          first)

  run-Picked :
      (ops : List (Op Audio)) (n : ℕ) (s : Shared Audio seq D) (t : Stats)
      → NumbersBelow Audio seq D n ops
      → n ≤ s.head_seq + 2 ^ 32
      → s.head_seq + length ops < 2 ^ 64
      → Picked ops s t
  unfolding run
  run-Picked [] n s t below near room = refl
  run-Picked (receive p ∷ ops) n s t below near room =
      let (s', e, w) = insert-Refines Audio seq D p s t (omega (arith, below.0)) in
      let head : s'.head_seq ≡ s.head_seq =
        ap (λ v. v.head) w ∙ insert-head Audio seq D p (window Audio seq D s) in
      run-receive-Picked p ops s s' t _ e w
        (run-Picked ops n s' _ below.1 (omega arith) (omega arith))
  run-Picked (play ∷ ops) n s t below near room =
      let w = pop_refines Audio seq D s (omega arith) in
      let (out, s') = pop_front Audio seq D s in
      let head : s'.head_seq ≡ s.head_seq + 1 =
        ap (λ v. v.1.head) w ∙ advance-head Audio seq D (window Audio seq D s) in
      run-play-Picked ops s out t refl w (run-Picked ops n s' t below (omega arith) (omega arith))

  pub new-at : (start n : ℕ) → (window Audio seq D (new Audio seq D start)).at n ≡ none
  unfolding new
  new-at start n = ground (arith, empty)
    where
      empty : pending Audio seq D (new Audio seq D start) (n - start) ≡ none
      empty = ap (λ xs. slot_at xs (n - start)) D.default_lem

  -- Whatever mix of packets and pops a new queue meets, if the packets' numbers stay below the
  -- bound of 2^32 beyond its start and the pops short of the last number, nothing panics, and
  -- the result of the pop number k is the first packet of number start plus k that came while
  -- that number was among the fifty that the queue takes, or none when no such packet came.
  pub run-Picks :
      (ops : List (Op Audio)) (start : ℕ) (t : Stats)
      → NumbersBelow Audio seq D (start + 2 ^ 32) ops
      → start + length ops < 2 ^ 64
      → run Audio seq D ops (new Audio seq D start) t
        ≡ returns (tabulate (plays Audio seq D ops) start (λ n. pick seq n start ops))
  unfolding new
  run-Picks ops start t below room =
      run-Picked ops (start + 2 ^ 32) (new Audio seq D start) t below (omega arith) room
      ∙ ap returns (
          tabulate-ext (plays Audio seq D ops) start _ _
            (λ n le. ap (λ o. or_else o (pick seq n start ops)) (new-at start n)))
