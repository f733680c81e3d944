-- ===== src/App/Stream/Session/Ordered.antt =====
-- What the DAC is sent, from the packets in the order in which they come.
use bark_esp.Base.{
  ℕ, suc, ◌+◌, ◌*◌, ◌^◌, ◌≤◌, ◌<◌, ◌≡◌, refl, sym, ap, ◌∙◌, List, [], ◌∷◌, ◌++◌, Option, Outcome,
  returns, length, Bool, false, arith,
}
use bark_esp.Extern.Deque.{Deque}
use bark_esp.Stats.{Stats}
use bark_esp.Task.Registry.TaskSlot.{Slots}
use bark_esp.Task.Registry.TaskId.{max_tasks}
use bark_esp.System.SharedBox.{unique}
use bark_esp.Sync.RingBuffer.{buffer_len}
use bark_esp.Sync.RingBuffer.Contents.{IsValid}
use bark_esp.App.Queue.{Shared, max_queued_packets, new, insert_packet}
use bark_esp.App.Queue.Insert.{window}
use bark_esp.App.Queue.Refine.{insert-Refines}
use bark_esp.App.Queue.Pop.{pop_refines}
use bark_esp.App.Queue.Order.{Op, play, NumbersBelow, insert-head, advance-head, advance-out}
use bark_esp.App.Queue.Picks.{
  pick, tabulate, tabulate-ext, outcome, outcome-insert, outcome-head, outcome-advance, new-at,
  or_else,
}
use bark_esp.App.Queue.Spec.{Window, tally, verdict}
use bark_esp.App.PacketQueue.{PacketQueue, disconnected, receive_packet, pop_front}
use bark_esp.Platform.Dac.{Statics}
use bark_esp.Platform.Dac.Loop.{Prompt}
use bark_esp.App.Stream.Run.{Player, Played, followed, round, nothing_played}
use bark_esp.App.Stream.Run.Sends.{Sends, Sends-nothing, Sends-followed, round-Sends}
use bark_esp.App.Stream.Session.{Interval, received, ops_of, receive_all, session}

module _ (Audio : Type 0) where
  -- The interrupts in the waits of the task have outputs that are not empty, and the spurious wake-ups
  -- keep to the limits.
  abbrev pub Wakes : List (Interval Audio) → Type 0
  Wakes [] = Unit {0}
  Wakes (t ∷ ts) = Prompt t.schedule × Wakes ts

module _ (Audio : Type 0) (seq : Audio → ℕ) (D : Deque (Option Audio) max_queued_packets) where
  -- What the arrival of some packets makes of a queue, before some other operations.
  pub record Receives (ps : List Audio) (ops : List (Op Audio)) (n : ℕ)
      (q : PacketQueue Audio seq D) (t : Stats) : Type 0 where
    pub q' : PacketQueue Audio seq D
    pub t' : Stats
    pub run : receive_all Audio seq D ps q t ≡ returns (q', t')
    pub same : disconnected Audio seq D q' ≡ disconnected Audio seq D q
    pub head : q'.value.head_seq ≡ q.value.head_seq
    pub below : NumbersBelow Audio seq D n ops
    pub fate :
        (k : ℕ)
        → q.value.head_seq ≤ k
        → outcome Audio seq k (window Audio seq D q'.value) ops
          ≡ outcome Audio seq k (window Audio seq D q.value) (received ps ops)

  pub receive_all-cons :
      (p : Audio) (ps : List Audio) (q : PacketQueue Audio seq D) (t t' : Stats)
      (s' : Shared Audio seq D)
      → insert_packet Audio seq D p q.value t ≡ returns (s', t')
      → receive_all Audio seq D (p ∷ ps) q t
        ≡ receive_all Audio seq D ps (record q { value = s' }) t'
  unfolding receive_all receive_packet
  receive_all-cons p ps q t t' s' e = rw (receive_all, receive_packet, e) refl

  pub receives_lem :
      (ps : List Audio) (ops : List (Op Audio)) (n : ℕ) (q : PacketQueue Audio seq D) (t : Stats)
      → NumbersBelow Audio seq D n (received ps ops)
      → n ≤ q.value.head_seq + 2 ^ 32
      → Receives ps ops n q t
  unfolding receive_all receive_packet disconnected unique
  receives_lem [] ops n q t below near = record {
    q' = q;
    t' = t;
    run = refl;
    same = refl;
    head = refl;
    below = below;
    fate = λ k le. refl;
  }
  receives_lem (p ∷ ps) ops n q t below near =
      let (s', e, w) = insert-Refines Audio seq D p q.value t (omega (arith, below.0)) in
      let head : s'.head_seq ≡ q.value.head_seq =
        ap (λ v. v.head) w ∙ insert-head Audio seq D p (window Audio seq D q.value) in
      let rest =
        receives_lem ps ops n (record q { value = s' })
          (tally (verdict Audio seq p (window Audio seq D q.value)) t) below.1 (omega arith) in
      record {
        q' = rest.q';
        t' = rest.t';
        run = receive_all-cons p ps q t _ s' e ∙ rest.run;
        same = rest.same;
        head = rest.head ∙ head;
        below = rest.below;
        fate = λ k le.
            rest.fate k (omega arith)
            ∙ ap (λ v. outcome Audio seq k v (received ps ops)) w
            ∙ outcome-insert Audio seq k p (window Audio seq D q.value) (received ps ops) le;
      }

  -- What a pop makes of a queue, before some other operations.
  record Pops (ops : List (Op Audio)) (q : PacketQueue Audio seq D) : Type 0 where
    same : disconnected Audio seq D (pop_front Audio seq D q).1 ≡ disconnected Audio seq D q
    head : (pop_front Audio seq D q).1.value.head_seq ≡ q.value.head_seq + 1
    out :
        (pop_front Audio seq D q).0
        ≡ outcome Audio seq q.value.head_seq (window Audio seq D q.value) (play ∷ ops)
    fate :
        (k : ℕ)
        → q.value.head_seq < k
        → outcome Audio seq k (window Audio seq D (pop_front Audio seq D q).1.value) ops
          ≡ outcome Audio seq k (window Audio seq D q.value) (play ∷ ops)

  pops_lem :
      (ops : List (Op Audio)) (q : PacketQueue Audio seq D)
      → q.value.head_seq + 1 < 2 ^ 64
      → Pops ops q
  unfolding pop_front disconnected unique
  pops_lem ops q room =
      let w = pop_refines Audio seq D q.value room in
      let v : Window Audio seq = window Audio seq D q.value in
      record {
        same = refl;
        head = ap (λ v. v.1.head) w ∙ advance-head Audio seq D v;
        out = ap (λ v. v.0) w ∙ advance-out Audio seq D v ∙ sym (outcome-head Audio seq D v ops);
        fate =
            λ k lt. ap (λ u. outcome Audio seq k u.1 ops) w ∙ outcome-advance Audio seq k v ops lt;
      }

  abbrev fates : ℕ → PacketQueue Audio seq D → List (Op Audio) → ℕ → List (Option Audio)
  fates head q ops count =
      tabulate count head (λ k. outcome Audio seq k (window Audio seq D q.value) ops)

  -- What a round takes and what the others take after it.
  round_packets :
      {ps : List Audio} {ops : List (Op Audio)} {n : ℕ} {q : PacketQueue Audio seq D} {t : Stats}
      (a : Receives ps (play ∷ ops) n q t) (b : Pops ops a.q') (count : ℕ)
      → (pop_front Audio seq D a.q').0
          ∷ fates
              (pop_front Audio seq D a.q').1.value.head_seq
              (pop_front Audio seq D a.q').1
              ops
              count
        ≡ fates q.value.head_seq q (received ps (play ∷ ops)) (suc count)
  round_packets {ps} {ops} {n} {q} {t} a b count =
      let head : (pop_front Audio seq D a.q').1.value.head_seq ≡ q.value.head_seq + 1 =
        omega (arith, a.head, b.head) in
      ap
        (λ o.
          o
          ∷ fates (pop_front Audio seq D a.q').1.value.head_seq (pop_front Audio seq D a.q').1 ops
              count)
        (b.out
          ∙ ap (λ h. outcome Audio seq h (window Audio seq D a.q'.value) (play ∷ ops)) a.head
          ∙ a.fate q.value.head_seq (omega arith))
      ∙ ap
          (λ l.
            outcome Audio seq q.value.head_seq (window Audio seq D q.value)
              (received ps (play ∷ ops))
            ∷ l)
          (ap (λ h. fates h (pop_front Audio seq D a.q').1 ops count) head
            ∙ tabulate-ext count (q.value.head_seq + 1) _ _
                (λ k le. b.fate k (omega (arith, a.head)) ∙ a.fate k (omega arith)))

module _ (Audio : Type 0) (seq : Audio → ℕ) (D : Deque (Option Audio) max_queued_packets)
    (samples : Audio → List ℕ) (samples_per_packet frames_per_packet : ℕ) (notify : ℕ → Bool)
    (slots : Slots) (id : ℕ) (two : samples_per_packet ≡ frames_per_packet * 2)
    (full : (a : Audio) → length (samples a) ≡ samples_per_packet) (lt : id < max_tasks)
    (registered : 0 < slots id) where
  abbrev played : List (Interval Audio) → Player Audio seq D → Outcome (Played Audio seq D)
  played = session Audio seq D samples samples_per_packet frames_per_packet notify slots id

  -- A session that takes the packets that the order of the operations picks.
  record Ordered (ts : List (Interval Audio)) (p : Player Audio seq D) : Type 0 where
    r : Played Audio seq D
    run : played ts p ≡ returns r
    sends : Sends Audio seq D samples samples_per_packet p.statics r
    packets :
        r.packets
        ≡ tabulate
            (length ts)
            p.queue.value.head_seq
            (λ k. outcome Audio seq k (window Audio seq D p.queue.value) (ops_of ts))

  session-cons :
      (t : Interval Audio) (ts : List (Interval Audio)) (p : Player Audio seq D)
      (q : PacketQueue Audio seq D) (stats : Stats) (r rest : Played Audio seq D)
      → receive_all Audio seq D t.arrivals p.queue p.statics.stats ≡ returns (q, stats)
      → disconnected Audio seq D q ≡ false
      → round Audio seq D samples samples_per_packet frames_per_packet notify slots id t.schedule q
          (record p.statics { stats = stats })
        ≡ returns r
      → played ts r.last ≡ returns rest
      → played (t ∷ ts) p ≡ followed Audio seq D r (returns rest)
  unfolding session
  session-cons t ts p q stats r rest e here go next = rw (session, e, here, go, next) refl

  session_lem :
      (ts : List (Interval Audio)) (n : ℕ) (p : Player Audio seq D)
      → NumbersBelow Audio seq D n (ops_of ts)
      → n ≤ p.queue.value.head_seq + 2 ^ 32
      → p.queue.value.head_seq + length ts < 2 ^ 64
      → Wakes Audio ts
      → disconnected Audio seq D p.queue ≡ false
      → IsValid p.statics.buffer
      → 1 < buffer_len p.statics.buffer
      → Ordered ts p
  unfolding session
  session_lem [] n p below near room wakes here v big = record {
    r = nothing_played Audio seq D p;
    run = refl;
    sends = Sends-nothing Audio seq D samples samples_per_packet p v;
    packets = refl;
  }
  session_lem (t ∷ ts) n p below near room wakes here v big =
      let a =
        receives_lem Audio seq D t.arrivals (play ∷ ops_of ts) n p.queue p.statics.stats below
          near in
      let b = pops_lem Audio seq D (ops_of ts) a.q' (omega (arith, a.head)) in
      let s : Statics = record p.statics { stats = a.t' } in
      let (r, e, sends, took, left) =
        round-Sends Audio seq D samples samples_per_packet frames_per_packet notify slots id two
          full lt registered (record { meanwhile = λ q. q; schedule = t.schedule }) a.q' s wakes.0 v
          big in
      let c =
        session_lem ts n r.last a.below
          (omega (arith, ap (λ q. q.value.head_seq) left, a.head, b.head))
          (omega (arith, ap (λ q. q.value.head_seq) left, a.head, b.head)) wakes.1
          (ap (disconnected Audio seq D) left ∙ b.same ∙ a.same ∙ here) sends.valid
          (omega (arith, big, sends.same_len)) in
      let all = Sends-followed Audio seq D samples samples_per_packet sends c.sends in
      record {
        r = record {
          sent = r.sent ++ c.r.sent;
          packets = r.packets ++ c.r.packets;
          last = c.r.last;
        };
        run = session-cons t ts p a.q' a.t' r c.r a.run (a.same ∙ here) e c.run;
        sends = record {
          played = all.played;
          all = all.all;
          padded = all.padded;
          valid = all.valid;
          same_len = all.same_len;
        };
        packets =
            ap (λ l. l ++ c.r.packets) took
            ∙ ap (λ l. (pop_front Audio seq D a.q').0 ∷ l)
                (c.packets
                  ∙ ap (λ q. fates Audio seq D q.value.head_seq q (ops_of ts) (length ts)) left)
            ∙ round_packets Audio seq D a b (length ts);
      }

  -- The samples of a packet are two for each frame, the ring is valid and has two slots or more,
  -- the task is registered, the interrupts in its waits have outputs that are not empty, with
  -- finitely many spurious wake-ups, the queue is new and its handle is not the last, the packets' numbers stay below the bound of 2^32 beyond its start, and
  -- there are rounds short of the last number. Then no operation of the two tasks panics, each
  -- write ends, the round number k takes the first packet of number start plus k that came before
  -- it while that number was among the fifty that the queue takes, or none when no such packet
  -- came, and the DAC gets the frames that the ring held and then those of the packets taken,
  -- with the frames of silence for each none, as far as the ring does not hold them still, and
  -- silence between.
  pub session-Sends :
      (ts : List (Interval Audio)) (start : ℕ) (p : Player Audio seq D)
      → p.queue.value ≡ new Audio seq D start
      → disconnected Audio seq D p.queue ≡ false
      → NumbersBelow Audio seq D (start + 2 ^ 32) (ops_of ts)
      → start + length ts < 2 ^ 64
      → Wakes Audio ts
      → IsValid p.statics.buffer
      → 1 < buffer_len p.statics.buffer
      → (r : Played Audio seq D) × (session Audio seq D samples samples_per_packet frames_per_packet
            notify slots id ts p
          ≡ returns r)
        × Sends Audio seq D samples samples_per_packet p.statics r
        × (r.packets ≡ tabulate (length ts) start (λ k. pick seq k start (ops_of ts)))
  unfolding new
  session-Sends ts start p fresh here below room wakes v big =
      let head : p.queue.value.head_seq ≡ start = ap (λ s. s.head_seq) fresh in
      let o =
        session_lem ts (start + 2 ^ 32) p below (omega (arith, head)) (omega (arith, head)) wakes
          here v big in
      (
        o.r,
        o.run,
        o.sends,
        o.packets
            ∙ ap
                (λ h.
                  tabulate (length ts) h
                    (λ k. outcome Audio seq k (window Audio seq D p.queue.value) (ops_of ts)))
                head
            ∙ ap
                (λ s.
                  tabulate (length ts) start
                    (λ k. outcome Audio seq k (window Audio seq D s) (ops_of ts)))
                fresh
            ∙ tabulate-ext (length ts) start _ _ (λ k le.
              ap (λ o. or_else o (pick seq k start (ops_of ts))) (new-at Audio seq D start k)),
      )
