-- ===== src/App/Stream/Run/Stops.antt =====
-- How the audio task of src/app/stream.rs ends: the receiver drops its stream, and with it the other
-- handle of the packet queue.
use mathlib.Core.Path.{subst}
use bark_esp.Base.{
  ℕ, ◌*◌, ◌<◌, ◌≡◌, refl, sym, ap, List, [], ◌∷◌, ◌++◌, Option, returns, Outcome, length, Bool,
  false, arith, ◌==◌, Bool-cases, inl, inr, length-append,
}
use bark_esp.Extern.Deque.{Deque}
use bark_esp.Task.Registry.TaskSlot.{Slots}
use bark_esp.Task.Registry.TaskId.{max_tasks}
use bark_esp.System.SharedBox.{Inner, Reach, begin, cloned, dropped, clone, drop, refcount-Counts}
use bark_esp.Sync.RingBuffer.{buffer_len}
use bark_esp.Sync.RingBuffer.Contents.{IsValid}
use bark_esp.App.Queue.{Shared, max_queued_packets}
use bark_esp.App.PacketQueue.{PacketQueue, disconnected, disconnected-handles, pop_front}
use bark_esp.App.Stream.Run.{Turn, Player, Played, run, followed, nothing_played}
use bark_esp.App.Stream.Run.Sends.{Wakes, round-Sends}

drop-value :
    {A : Type 0} (b : Inner A) (v : A)
    → record (drop b) { value = v } ≡ drop (record b { value = v })
unfolding drop
drop-value b v = elim (Bool-cases (b.refcount == 1)) [
  | inl last ↦ rw last refl
  | inr more ↦ rw more refl
]

-- What is done to the value leaves the handles alone.
Reach-value :
    {A : Type 0} {n : ℕ} {b : Inner A} (v : A) → Reach n b → Reach n (record b { value = v })
unfolding clone
Reach-value v (begin value) = begin v
Reach-value v (cloned r lt) = cloned (Reach-value v r) lt
Reach-value v (dropped {n} {b} r) =
    subst (Reach n) (sym (drop-value b v)) (dropped (Reach-value v r))

module _ (Audio : Type 0) (seq : Audio → ℕ) (D : Deque (Option Audio) max_queued_packets) where
  -- What the other tasks do in some turns leaves the handles alone, like the arrival of packets.
  abbrev pub Keeps : List (Turn Audio seq D) → Type 0
  Keeps [] = Unit {0}
  Keeps (t ∷ ts) =
      ((q : PacketQueue Audio seq D)
        → (v : Shared Audio seq D) × (t.meanwhile q ≡ record q { value = v }))
      × Keeps ts

  popped-Reach :
      {n : ℕ} (q : PacketQueue Audio seq D) → Reach n q → Reach n (pop_front Audio seq D q).1
  unfolding pop_front
  popped-Reach q r = Reach-value _ r

module _ (Audio : Type 0) (seq : Audio → ℕ) (D : Deque (Option Audio) max_queued_packets)
    (samples : Audio → List ℕ) (samples_per_packet frames_per_packet : ℕ) (notify : ℕ → Bool)
    (slots : Slots) (id : ℕ) (two : samples_per_packet ≡ frames_per_packet * 2)
    (full : (a : Audio) → length (samples a) ≡ samples_per_packet) (lt : id < max_tasks)
    (registered : 0 < slots id) where
  abbrev played : List (Turn Audio seq D) → Player Audio seq D → Outcome (Played Audio seq D)
  played = run Audio seq D samples samples_per_packet frames_per_packet notify slots id

  -- The loop runs a round for each of some turns and then stops with one handle left.
  abbrev Stops : ℕ → List (Turn Audio seq D) → Player Audio seq D → Type 0
  Stops n ts p =
      (r : Played Audio seq D) × (played ts p ≡ returns r)
      × (length r.packets ≡ n)
      × Reach 1 r.last.queue

  Stops-now :
      (t : Turn Audio seq D) (rest : List (Turn Audio seq D)) (p : Player Audio seq D)
      → t.meanwhile p.queue ≡ drop p.queue
      → Reach 2 p.queue
      → Stops 0 (t ∷ rest) p
  unfolding run
  Stops-now t rest p gone r =
      let last : Reach 1 (t.meanwhile p.queue) = subst (Reach 1) (sym gone) (dropped r) in
      (
        nothing_played Audio seq D (record p { queue = t.meanwhile p.queue }),
        rw (disconnected-handles Audio seq D last (omega arith)) refl,
        refl,
        last,
      )

  run-Stops :
      (ts : List (Turn Audio seq D)) (t : Turn Audio seq D) (rest : List (Turn Audio seq D))
      (p : Player Audio seq D)
      → Wakes Audio seq D ts
      → Keeps Audio seq D ts
      → ((q : PacketQueue Audio seq D) → t.meanwhile q ≡ drop q)
      → Reach 2 p.queue
      → IsValid p.statics.buffer
      → 1 < buffer_len p.statics.buffer
      → Stops (length ts) (ts ++ (t ∷ rest)) p
  unfolding run
  run-Stops [] t rest p wakes keeps gone reach v big = Stops-now t rest p (gone p.queue) reach
  run-Stops (u ∷ ts) t rest p wakes keeps gone reach v big =
      let q = u.meanwhile p.queue in
      let both : Reach 2 q =
        subst (Reach 2) (sym (keeps.0 p.queue).1) (Reach-value (keeps.0 p.queue).0 reach) in
      let here : disconnected Audio seq D q ≡ false =
        disconnected-handles Audio seq D both (omega arith) in
      let (r, e, sends, took, left) =
        round-Sends Audio seq D samples samples_per_packet frames_per_packet notify slots id two
          full lt registered u q p.statics wakes.0 v big in
      let (r', e', count, last) =
        run-Stops ts t rest r.last wakes.1 keeps.1 gone
          (subst (Reach 2) (sym left) (popped-Reach Audio seq D q both)) sends.valid
          (omega (arith, big, sends.same_len)) in
      (
        record { sent = r.sent ++ r'.sent; packets = r.packets ++ r'.packets; last = r'.last },
        rw (here, e) (ap (followed Audio seq D r) e'),
        omega (arith, count, length-append r.packets r'.packets, ap length took),
        last,
      )

  -- The samples of a packet are two for each frame, the ring is valid and has two slots or more,
  -- the task is registered, and the interrupts in its waits have outputs that are not empty, with
  -- finitely many spurious wake-ups. With one handle of the
  -- queue besides the task's own, the task plays a round for each turn until that handle is dropped,
  -- and stops then, whatever turns there are after it; and the drop of its own handle frees the
  -- queue, once.
  pub run_stops :
      (ts : List (Turn Audio seq D)) (t : Turn Audio seq D) (rest : List (Turn Audio seq D))
      (p : Player Audio seq D)
      → Wakes Audio seq D ts
      → Keeps Audio seq D ts
      → ((q : PacketQueue Audio seq D) → t.meanwhile q ≡ drop q)
      → Reach 2 p.queue
      → IsValid p.statics.buffer
      → 1 < buffer_len p.statics.buffer
      → (r : Played Audio seq D) × (run Audio seq D samples samples_per_packet frames_per_packet
            notify slots id
            (ts ++ (t ∷ rest))
            p
          ≡ returns r)
        × (length r.packets ≡ length ts)
        × (r.last.queue.frees ≡ 0)
        × ((drop r.last.queue).frees ≡ 1)
  run_stops ts t rest p wakes keeps gone reach v big =
      let (r, e, count, last) = run-Stops ts t rest p wakes keeps gone reach v big in
      (r, e, count, (refcount-Counts last).freed, (refcount-Counts (dropped last)).freed)
