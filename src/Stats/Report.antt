-- ===== src/Stats/Report.antt =====
-- The task of src/stats.rs that takes the counters and prints them, beside the tasks that count.
use bark_esp.Base.{
  ℕ, zero, ◌++◌, ap, ◌∙◌, sym, append_assoc, append-nil, ◌≢◌, ◌⊎◌, inl, inr, ℕ_discrete, suc, ◌+◌,
  ◌%◌, ◌^◌, ◌≡◌, refl, List, [], ◌∷◌, ◌==◌, if◌then◌else◌, arith,
}
use bark_esp.Stats.{Stats}
use bark_esp.Stats.Counters.{Counter, add, take}

-- The counters, by the order in which the report takes them.
pub data Field : Type 0 where
  received queue_drop on_time late early hit miss frames_sent underruns : Field

abbrev pub get : Field → Stats → Counter
get received s = s.wifi_packets_received
get queue_drop s = s.packets_dropped_in_protocol_queue
get on_time s = s.audio_packets_received_on_time
get late s = s.audio_packets_received_late
get early s = s.audio_packets_received_early
get hit s = s.stream_hit
get miss s = s.stream_miss
get frames_sent s = s.dac_frames_sent
get underruns s = s.dac_underruns

abbrev pub set : Field → Counter → Stats → Stats
set received c s = record s { wifi_packets_received = c }
set queue_drop c s = record s { packets_dropped_in_protocol_queue = c }
set on_time c s = record s { audio_packets_received_on_time = c }
set late c s = record s { audio_packets_received_late = c }
set early c s = record s { audio_packets_received_early = c }
set hit c s = record s { stream_hit = c }
set miss c s = record s { stream_miss = c }
set frames_sent c s = record s { dac_frames_sent = c }
set underruns c s = record s { dac_underruns = c }

-- The place of a counter in the report.
abbrev pub place : Field → ℕ
place received = 0
place queue_drop = 1
place on_time = 2
place late = 3
place early = 4
place hit = 5
place miss = 6
place frames_sent = 7
place underruns = 8

get-set :
    (f g : Field) (c : Counter) (s : Stats)
    → get f (set g c s) ≡ (if place f == place g then c else get f s)
get-set f g c s = ground arith

-- A counter that is set has the value, and the others theirs.
value-set :
    (f g : Field) (c : Counter) (s : Stats)
    → ((place f ≡ place g) × ((get f (set g c s)).value ≡ c.value) × (get f s ≡ get g s))
      ⊎ (place f ≢ place g) × ((get f (set g c s)).value ≡ (get f s).value)
value-set f g c s = elim (ℕ_discrete (place f) (place g)) [
  | yes same ↦ inl (same, ground (arith, same, get-set f g c s), ground (arith, same))
  | no other ↦ inr (other, ground (arith, other, get-set f g c s))
]

abbrev pub report_order : List Field
report_order =
    received ∷ queue_drop ∷ on_time ∷ late ∷ early ∷ hit ∷ miss ∷ frames_sent ∷ underruns ∷ []

-- The counters, what is left of the report that is being printed, and what was printed.
pub record Monitor : Type 0 where
  pub stats : Stats
  pub next : List Field
  pub printed : List (Field × ℕ)

pub data Event : Type 0 where
  -- `add` by any task
  counts : Field → ℕ → Event
  -- the next step of the report's task
  reports : Event

-- The next `take`, or the delay before the next report.
unfoldable pub take_next : List Field → Monitor → Monitor
take_next [] m = record m { next = report_order }
take_next (f ∷ fs) m =
    let (n, c) = take (get f m.stats) in
    record { stats = set f c m.stats; next = fs; printed = m.printed ++ (f, n) ∷ [] }

unfoldable pub step : Event → Monitor → Monitor
step (counts f n) m = record m { stats = set f (add n (get f m.stats)) m.stats }
step reports m = take_next m.next m

unfoldable pub run : List Event → Monitor → Monitor
run [] m = m
run (e ∷ es) m = run es (step e m)

-- The sum of what was printed of a counter, and of what was added to it.
abbrev pub shown : Field → List (Field × ℕ) → ℕ
shown f [] = 0
shown f ((g, n) ∷ rest) = (if place g == place f then n else 0) + shown f rest

abbrev pub counted : Field → List Event → ℕ
counted f [] = 0
counted f (counts g n ∷ es) = (if place g == place f then n else 0) + counted f es
counted f (reports ∷ es) = counted f es

abbrev pub fields : List (Field × ℕ) → List Field
fields [] = []
fields ((f, n) ∷ rest) = f ∷ fields rest

abbrev pub whole_reports : ℕ → List Field
whole_reports zero = []
whole_reports (suc n) = whole_reports n ++ report_order

shown-append :
    (f g : Field) (n : ℕ) (xs : List (Field × ℕ))
    → shown f (xs ++ (g, n) ∷ []) ≡ shown f xs + (if place g == place f then n else 0)
shown-append f g n [] = omega arith
shown-append f g n ((h, m) ∷ xs) = omega (arith, shown-append f g n xs)

fields-append :
    (f : Field) (n : ℕ) (xs : List (Field × ℕ)) → fields (xs ++ (f, n) ∷ []) ≡ fields xs ++ f ∷ []
fields-append f n [] = refl
fields-append f n ((h, m) ∷ xs) = ap (λ l. h ∷ l) (fields-append f n xs)

-- What was printed of a counter and what it has.
abbrev total : Field → Monitor → ℕ
total f m = shown f m.printed + (get f m.stats).value

take_next-total :
    (f : Field) (next : List Field) (m : Monitor) → total f (take_next next m) ≡ total f m
unfolding take_next take
take_next-total f [] m = refl
take_next-total f (g ∷ fs) m = elim (value-set f g (record { value = 0 }) m.stats) [
  | inl (same, zeroed, mine) ↦ ground (
    arith,
    shown-append f g (get g m.stats).value m.printed,
    same,
    zeroed,
    ap (λ c. c.value) mine,
  )
  | inr (other, kept) ↦
      ground (arith, shown-append f g (get g m.stats).value m.printed, other, kept)
]

run-total :
    (f : Field) (es : List Event) (m : Monitor)
    → total f (run es m) % 2 ^ 32 ≡ (total f m + counted f es) % 2 ^ 32
unfolding run step add
run-total f [] m = omega arith
run-total f (counts g n ∷ es) m =
    let m' : Monitor = record m { stats = set g (add n (get g m.stats)) m.stats } in
    elim (value-set f g (add n (get g m.stats)) m.stats) [
      | inl (same, more, mine) ↦
          ground (arith, run-total f es m', same, more, ap (λ c. c.value) mine)
      | inr (other, kept) ↦ ground (arith, run-total f es m', other, kept)
    ]
run-total f (reports ∷ es) m =
    omega (arith, run-total f es (take_next m.next m), take_next-total f m.next m)

-- Up to so many reports are begun.
abbrev Begun : Monitor → Type 0
Begun m = (n : ℕ) × (fields m.printed ++ m.next ≡ whole_reports n)

take_next-Begun :
    (next : List Field) (m : Monitor)
    → (n : ℕ) × (fields m.printed ++ next ≡ whole_reports n)
    → Begun (take_next next m)
unfolding take_next take
take_next-Begun [] m (n, e) =
    (suc n, ap (λ l. l ++ report_order) (sym (append-nil (fields m.printed)) ∙ e))
take_next-Begun (f ∷ fs) m (n, e) = (
  n,
  ap (λ l. l ++ fs) (fields-append f (get f m.stats).value m.printed)
      ∙ append_assoc (fields m.printed) (f ∷ []) fs
      ∙ e,
)

run-Begun : (es : List Event) (m : Monitor) → Begun m → Begun (run es m)
unfolding run step
run-Begun [] m b = b
run-Begun (counts f n ∷ es) m b = run-Begun es _ b
run-Begun (reports ∷ es) m b = run-Begun es (take_next m.next m) (take_next-Begun m.next m b)

-- However the counts of any tasks fall between the steps of the task that reports: what is printed
-- is one report after the other, each of the nine counters in their order, and modulo 2^32 what was
-- printed of a counter and what it has left are what it had and all that was counted on it since.
pub run_reports :
    (es : List Event) (s : Stats)
    → let m = run es (record { stats = s; next = []; printed = [] }) in
      ((n : ℕ) × (fields m.printed ++ m.next ≡ whole_reports n))
      × ((f : Field)
          → (shown f m.printed + (get f m.stats).value) % 2 ^ 32
            ≡ ((get f s).value + counted f es) % 2 ^ 32)
run_reports es s = (
  run-Begun es (record { stats = s; next = []; printed = [] }) (0, refl),
  λ f. omega (arith, run-total f es (record { stats = s; next = []; printed = [] })),
)
