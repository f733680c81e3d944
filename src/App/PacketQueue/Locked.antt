-- ===== src/App/PacketQueue/Locked.antt =====
-- The packet queue of src/app/queue.rs behind its TaskMutex: the application task and the audio task
-- lock it in any order, and are interrupted anywhere.
use bark_esp.Base.{
  ℕ, zero, suc, ◌+◌, ◌^◌, ◌≤◌, ◌<◌, ◌≡◌, refl, sym, ap, ◌∙◌, Option, List, [], ◌∷◌, ◌++◌, length,
  Bool, true, false, Outcome, returns, panics, out_of_fuel, arith, append_assoc, append-nil,
}
use bark_esp.Extern.Deque.{Deque}
use bark_esp.Stats.{Stats}
use bark_esp.Task.Registry.TaskSlot.{Slots}
use bark_esp.Sync.Mutex.Guarded as Guarded
use bark_esp.Sync.Mutex.Guarded.{serial, run_serializes}
use bark_esp.App.Queue.{max_queued_packets, Shared, new, insert_packet, pop_front}
use bark_esp.App.Queue.Insert.{window}
use bark_esp.App.Queue.Refine.{insert-Refines}
use bark_esp.App.Queue.Pop.{pop_refines}
use bark_esp.App.Queue.Order.{
  Op, receive, play, run, NumbersBelow, plays, insert-head, advance-head,
}
use bark_esp.App.Queue.Picks.{pick, tabulate, run-Picks}

module _ (Audio : Type 0) (seq : Audio → ℕ) (D : Deque (Option Audio) max_queued_packets) where
  -- The queue, with the packets that the application task has still to put in, and what the audio
  -- task has taken out.
  pub record Shares : Type 0 where
    pub shared : Shared Audio seq D
    pub stats : Stats
    pub incoming : List Audio
    pub outs : List (Option Audio)
    pub panicked : Bool

  abbrev pub stored : Shares → List Audio → Outcome (Shared Audio seq D × Stats) → Shares
  stored j rest (returns (s, t)) = record j { shared = s; stats = t; incoming = rest }
  stored j rest panics = record j { panicked = true }
  stored j rest out_of_fuel = record j { panicked = true }

  -- `receive_packet` with the lock held, for the next packet
  unfoldable pub receive_next : List Audio → Shares → Shares
  receive_next [] j = j
  receive_next (p ∷ ps) j = stored j ps (insert_packet Audio seq D p j.shared j.stats)

  -- `pop_front` with the lock held
  unfoldable pub play_next : Shares → Shares
  play_next j =
      let (out, s) = pop_front Audio seq D j.shared in
      record j { shared = s; outs = j.outs ++ out ∷ [] }

  -- Task 0 is the application's.
  unfoldable pub work : ℕ → Shares → Shares
  work zero j = receive_next j.incoming j
  work (suc task) j = play_next j

  abbrev pub begin : ℕ → Stats → List Audio → Shares
  begin start t ps = record {
    shared = new Audio seq D start;
    stats = t;
    incoming = ps;
    outs = [];
    panicked = false;
  }

  -- The operations on the queue, for the tasks that lock it in order.
  abbrev pub ops_of : List ℕ → List Audio → List (Op Audio)
  ops_of [] ps = []
  ops_of (zero ∷ ts) [] = ops_of ts []
  ops_of (zero ∷ ts) (p ∷ ps) = receive p ∷ ops_of ts ps
  ops_of (suc task ∷ ts) ps = play ∷ ops_of ts ps

  ops_of-length : (ts : List ℕ) (ps : List Audio) → length (ops_of ts ps) ≤ length ts
  ops_of-length [] ps = omega arith
  ops_of-length (zero ∷ ts) [] = omega (arith, ops_of-length ts [])
  ops_of-length (zero ∷ ts) (p ∷ ps) = omega (arith, ops_of-length ts ps)
  ops_of-length (suc task ∷ ts) ps = omega (arith, ops_of-length ts ps)

  abbrev runs : List ℕ → Shares → Shares
  runs [] j = j
  runs (t ∷ ts) j = runs ts (work t j)

  -- What the work of some tasks in turn comes to.
  abbrev Plays : List ℕ → List Audio → Shares → Type 0
  Plays ts ps j =
      (outs : List (Option Audio)) × (run Audio seq D (ops_of ts ps) j.shared j.stats
        ≡ returns outs)
      × ((runs ts (record j { incoming = ps })).outs ≡ j.outs ++ outs)
      × ((runs ts (record j { incoming = ps })).panicked ≡ j.panicked)

  receive-Plays :
      (ts : List ℕ) (p : Audio) (ps : List Audio) (j : Shares) (s : Shared Audio seq D) (t : Stats)
      → insert_packet Audio seq D p j.shared j.stats ≡ returns (s, t)
      → Plays ts ps (record j { shared = s; stats = t })
      → Plays (zero ∷ ts) (p ∷ ps) j
  unfolding run work receive_next
  receive-Plays ts p ps j s t e (outs, go, all, fine) =
      let k : Shares = record j { incoming = p ∷ ps } in
      (
        outs,
        rw (run, e) go,
        ap (λ o. (runs ts (stored k ps o)).outs) e ∙ all,
        ap (λ o. (runs ts (stored k ps o)).panicked) e ∙ fine,
      )

  play-Plays :
      (task : ℕ) (ts : List ℕ) (ps : List Audio) (j : Shares)
      → Plays ts ps (play_next j)
      → Plays (suc task ∷ ts) ps j
  unfolding run work play_next
  play-Plays task ts ps j (outs, go, all, fine) =
      let out = (pop_front Audio seq D j.shared).0 in
      (out ∷ outs, rw (go, run) refl, all ∙ append_assoc j.outs (out ∷ []) outs, fine)

  runs-Plays :
      (ts : List ℕ) (ps : List Audio) (n : ℕ) (j : Shares)
      → NumbersBelow Audio seq D n (ops_of ts ps)
      → n ≤ j.shared.head_seq + 2 ^ 32
      → j.shared.head_seq + length ts < 2 ^ 64
      → Plays ts ps j
  unfolding run work receive_next play_next
  runs-Plays [] ps n j below near room = ([], refl, sym (append-nil j.outs), refl)
  runs-Plays (zero ∷ ts) [] n j below near room = runs-Plays ts [] n j below near (omega arith)
  runs-Plays (zero ∷ ts) (p ∷ ps) n j below near room =
      let (s, e, w) = insert-Refines Audio seq D p j.shared j.stats (omega (arith, below.0)) in
      let head : s.head_seq ≡ j.shared.head_seq =
        ap (λ v. v.head) w ∙ insert-head Audio seq D p (window Audio seq D j.shared) in
      receive-Plays ts p ps j s _ e (
        runs-Plays ts ps n (record j { shared = s; stats = _ }) below.1 (omega arith) (omega arith))
  runs-Plays (suc task ∷ ts) ps n j below near room =
      let w = pop_refines Audio seq D j.shared (omega arith) in
      let head : (pop_front Audio seq D j.shared).1.head_seq ≡ j.shared.head_seq + 1 =
        ap (λ v. v.1.head) w ∙ advance-head Audio seq D (window Audio seq D j.shared) in
      play-Plays task ts ps j (runs-Plays ts ps n (play_next j) below (omega arith) (omega arith))

  runs-append : (ts : List ℕ) (t : ℕ) (j : Shares) → runs (ts ++ t ∷ []) j ≡ work t (runs ts j)
  runs-append [] t j = refl
  runs-append (u ∷ ts) t j = runs-append ts t (work u j)

  -- The first lock first.
  abbrev pub in_order : List ℕ → List ℕ
  in_order [] = []
  in_order (t ∷ order) = in_order order ++ t ∷ []

  serial-runs : (order : List ℕ) (j : Shares) → serial work j order ≡ runs (in_order order) j
  serial-runs [] j = refl
  serial-runs (t ∷ order) j =
      ap (work t) (serial-runs order j) ∙ sym (runs-append (in_order order) t j)

  module _ (slots : Slots) where
    -- Whatever the steps of any number of tasks, of which task 0 puts packets into a new queue and
    -- the others take them out, and however they are ordered: if the packets' numbers stay below the
    -- bound of 2^32 beyond the queue's start and the locks short of the last number, then while
    -- nobody has the lock, nothing has panicked, and what was taken out number k is the first packet
    -- of number start plus k that was put in, by the order of the locks, while that number was among
    -- the fifty that the queue takes, or none when no such packet was.
    pub locked_picks :
        (schedule : List ℕ) (start : ℕ) (t : Stats) (ps : List Audio)
        → let (s, order) = Guarded.run slots work schedule (Guarded.new (begin start t ps)) [] in
          let ops = ops_of (in_order order) ps in
          s.mutex.flag ≡ false
          → NumbersBelow Audio seq D (start + 2 ^ 32) ops
          → start + length (in_order order) < 2 ^ 64
          → (s.inner.panicked ≡ false)
            × (s.inner.outs ≡ tabulate (plays Audio seq D ops) start (λ n. pick seq n start ops))
    unfolding new
    locked_picks schedule start t ps unlocked below room =
        let (s, order) = Guarded.run slots work schedule (Guarded.new (begin start t ps)) [] in
        let ts = in_order order in
        let (outs, go, all, fine) =
          runs-Plays ts ps (start + 2 ^ 32) (begin start t ps) below (omega arith) room in
        let same : s.inner ≡ runs ts (begin start t ps) =
          (run_serializes slots work (begin start t ps) schedule).0 unlocked
          ∙ serial-runs order (begin start t ps) in
        let picked =
          run-Picks Audio seq D (ops_of ts ps) start t below
            (omega (arith, room, ops_of-length ts ps)) in
        let taken : outs
            ≡ tabulate (plays Audio seq D (ops_of ts ps)) start
                (λ n. pick seq n start (ops_of ts ps)) =
          ground (arith, sym go ∙ picked) in
        (ap (λ j. j.panicked) same ∙ fine, ap (λ j. j.outs) same ∙ all ∙ taken)
