-- ===== src/App/Stream/Run/Sends.antt =====
-- What the audio task sends, from the packets that it takes to the outputs of the DAC.
use bark_esp.Base.{
  ℕ, ◌+◌, ◌*◌, ◌<◌, ◌≡◌, refl, sym, ap, ◌∙◌, List, [], ◌∷◌, ◌++◌, Option, none, some, returns,
  length, append_assoc, append-nil, Bool, length-replicate, Bool-cases, inl, inr, arith,
}
use bark_esp.Extern.Deque.{Deque}
use bark_esp.Task.Registry.TaskSlot.{Slots}
use bark_esp.Task.Registry.TaskId.{max_tasks}
use bark_esp.Sync.RingBuffer.{buffer_len}
use bark_esp.Sync.RingBuffer.Contents.{IsValid, contents}
use bark_esp.App.Queue.{max_queued_packets}
use bark_esp.App.PacketQueue.{PacketQueue, disconnected, pop_front}
use bark_esp.Platform.Dac.{Frame, Statics}
use bark_esp.Platform.Dac.Loop.{Prompt}
use bark_esp.Platform.Dac.Loop.Drain.{Padded, nothing, Padded-append}
use bark_esp.Platform.Dac.Loop.Finish.{write_finishes}
use bark_esp.App.Stream.Play.{count_played, audio_of, convert_frames-pairs, pairs}
use bark_esp.App.Stream.Run.{
  Turn, Player, Played, buffer_of, written, play_frames, round, followed, nothing_played, run,
}

module _ {Audio : Type 0} (samples : Audio → List ℕ) (samples_per_packet : ℕ) where
  abbrev pub audio : Option Audio → List ℕ
  audio packet = audio_of samples_per_packet (buffer_of samples packet)

  -- The frames of some packets, with silence in the place of each that was missing.
  abbrev pub all_frames : List (Option Audio) → List Frame
  all_frames [] = []
  all_frames (packet ∷ packets) = pairs (audio packet) ++ all_frames packets

  all_frames-append :
      (ps qs : List (Option Audio)) → all_frames (ps ++ qs) ≡ all_frames ps ++ all_frames qs
  all_frames-append [] qs = refl
  all_frames-append (p ∷ ps) qs =
      ap (λ l. pairs (audio p) ++ l) (all_frames-append ps qs)
      ∙ sym (append_assoc (pairs (audio p)) (all_frames ps) (all_frames qs))

  audio-length :
      ((a : Audio) → length (samples a) ≡ samples_per_packet)
      → (packet : Option Audio) → length (audio packet) ≡ samples_per_packet
  unfolding audio_of
  audio-length h none = length-replicate samples_per_packet 0
  audio-length h (some a) = h a

module _ (Audio : Type 0) (seq : Audio → ℕ) (D : Deque (Option Audio) max_queued_packets) where
  -- The interrupts in the waits of the task have outputs that are not empty, and the spurious wake-ups
  -- keep to the limits.
  abbrev pub Wakes : List (Turn Audio seq D) → Type 0
  Wakes [] = Unit {0}
  Wakes (t ∷ ts) = Prompt t.schedule × Wakes ts

module _ (Audio : Type 0) (seq : Audio → ℕ) (D : Deque (Option Audio) max_queued_packets)
    (samples : Audio → List ℕ) (samples_per_packet : ℕ) where
  -- What was sent is what the ring held and then the frames of the packets, so far as the ring does
  -- not hold them now.
  pub record Sends (s : Statics) (r : Played Audio seq D) : Type 0 where
    pub played : List Frame
    pub all :
        played ++ contents r.last.statics.buffer
        ≡ contents s.buffer ++ all_frames samples samples_per_packet r.packets
    pub padded : Padded played r.sent
    pub valid : IsValid r.last.statics.buffer
    pub same_len : buffer_len r.last.statics.buffer ≡ buffer_len s.buffer

  pub Sends-nothing :
      (p : Player Audio seq D)
      → IsValid p.statics.buffer
      → Sends p.statics (nothing_played Audio seq D p)
  Sends-nothing p v = record {
    played = [];
    all = sym (append-nil (contents p.statics.buffer));
    padded = nothing;
    valid = v;
    same_len = refl;
  }

  pub Sends-followed :
      {s : Statics} {r rest : Played Audio seq D}
      → Sends s r
      → Sends r.last.statics rest
      → Sends s (record {
        sent = r.sent ++ rest.sent;
        packets = r.packets ++ rest.packets;
        last = rest.last;
      })
  Sends-followed {s} {r} {rest} a b = record {
    played = a.played ++ b.played;
    all =
        append_assoc a.played b.played (contents rest.last.statics.buffer)
        ∙ ap (λ l. a.played ++ l) b.all
        ∙ sym (append_assoc a.played (contents r.last.statics.buffer) (frames rest.packets))
        ∙ ap (λ l. l ++ frames rest.packets) a.all
        ∙ append_assoc (contents s.buffer) (frames r.packets) (frames rest.packets)
        ∙ ap (λ l. contents s.buffer ++ l)
            (sym (all_frames-append samples samples_per_packet r.packets rest.packets));
    padded = Padded-append a.padded b.padded;
    valid = b.valid;
    same_len = b.same_len ∙ a.same_len;
  }
    where
      frames : List (Option Audio) → List Frame
      frames = all_frames samples samples_per_packet

module _ (Audio : Type 0) (seq : Audio → ℕ) (D : Deque (Option Audio) max_queued_packets)
    (samples : Audio → List ℕ) (samples_per_packet frames_per_packet : ℕ) (notify : ℕ → Bool)
    (slots : Slots) (id : ℕ) (two : samples_per_packet ≡ frames_per_packet * 2)
    (full : (a : Audio) → length (samples a) ≡ samples_per_packet) (lt : id < max_tasks)
    (registered : 0 < slots id) where
  pub round-Sends :
      (t : Turn Audio seq D) (q : PacketQueue Audio seq D) (s : Statics)
      → Prompt t.schedule
      → IsValid s.buffer
      → 1 < buffer_len s.buffer
      → (r : Played Audio seq D) × (round Audio seq D samples samples_per_packet frames_per_packet
            notify slots id t.schedule q s
          ≡ returns r)
        × Sends Audio seq D samples samples_per_packet s r
        × (r.packets ≡ (pop_front Audio seq D q).0 ∷ [])
        × (r.last.queue ≡ (pop_front Audio seq D q).1)
  unfolding round
  round-Sends t q s wakes v big =
      let (packet, q') = pop_front Audio seq D q in
      let converts =
        convert_frames-pairs frames_per_packet samples_per_packet (buffer_of samples packet) two
          (audio-length samples samples_per_packet full packet) in
      let s1 : Statics = record s { stats = count_played packet s.stats } in
      let (sent, s', e, valid, len, (played, all, padded)) =
        write_finishes notify slots id lt registered t.schedule wakes.nonempty
          (2 * length (pairs (audio samples samples_per_packet packet)) + t.schedule.limit)
          (pairs (audio samples samples_per_packet packet)) s1 (omega (arith, wakes.few _)) v big in
      (
        record { sent = sent; packets = packet ∷ []; last = record { queue = q'; statics = s' } },
        ap
              (λ fs.
                play_frames Audio seq D samples samples_per_packet frames_per_packet notify slots id
                  packet fs t.schedule q' s1)
              converts
            ∙ ap (λ w. written Audio seq D packet w q') e,
        record {
          played = played;
          all = all ∙ ap (λ l. contents s.buffer ++ l) (sym (append-nil _));
          padded = padded;
          valid = valid;
          same_len = len;
        },
        refl,
        refl,
      )

  -- The samples of a packet are two for each frame, the ring is valid and has two slots or more,
  -- the task is registered, and the interrupts in its waits have outputs that are not empty, with
  -- finitely many spurious wake-ups. Then no round of the
  -- audio task panics, each write ends, and whatever the other tasks do to the queue: the DAC gets
  -- the frames that the ring held and those of the packets taken from the queue, in order, with the
  -- frames of silence for each packet that was missing, as far as the ring does not hold them
  -- still, and silence between.
  pub run-Sends :
      (ts : List (Turn Audio seq D)) (p : Player Audio seq D)
      → Wakes Audio seq D ts
      → IsValid p.statics.buffer
      → 1 < buffer_len p.statics.buffer
      → (r : Played Audio seq D) × (run Audio seq D samples samples_per_packet frames_per_packet
            notify slots id ts p
          ≡ returns r)
        × Sends Audio seq D samples samples_per_packet p.statics r
  unfolding run
  run-Sends [] p wakes v big =
      (nothing_played Audio seq D p, refl, Sends-nothing Audio seq D samples samples_per_packet p v)
  run-Sends (t ∷ ts) p wakes v big =
      let q = t.meanwhile p.queue in
      elim (Bool-cases (disconnected Audio seq D q)) [
        | inl gone ↦ (
          nothing_played Audio seq D (record p { queue = q }),
          rw gone refl,
          Sends-nothing Audio seq D samples samples_per_packet (record p { queue = q }) v,
        )
        | inr here ↦
            let (r, e, sends, _, _) = round-Sends t q p.statics wakes.0 v big in
            let (rest, e', sends') =
              run-Sends ts r.last wakes.1 sends.valid (omega (arith, big, sends.same_len)) in
            (
              record {
                sent = r.sent ++ rest.sent;
                packets = r.packets ++ rest.packets;
                last = rest.last;
              },
              rw (here, e) (ap (followed Audio seq D r) e'),
              Sends-followed Audio seq D samples samples_per_packet sends sends',
            )
      ]
