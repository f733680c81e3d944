-- ===== src/Tests/Stats.antt =====
-- The report of src/stats.rs.
use bark_esp.Base.{ℕ, ◌+◌, ◌%◌, ◌^◌, ◌≡◌, refl, List, [], ◌∷◌, ◌++◌}
use bark_esp.Stats
use bark_esp.Stats.Counters.{add, take}
use bark_esp.Stats.Report.{
  Field, received, queue_drop, late, get, Event, counts, reports, fields, shown, counted,
  whole_reports, step, take_next, run, run_reports,
}

-- A packet comes while a report is printed.
abbrev events : List Event
events = counts received 2 ∷ reports ∷ reports ∷ counts received 1 ∷ reports ∷ counts late 5 ∷ []

printed :
    (run events (record { stats = Stats.new; next = []; printed = [] })).printed
    ≡ (received, 2) ∷ (queue_drop, 0) ∷ []
unfolding run step take_next add take
printed = refl

run_reports_example :
    let m = run events (record { stats = Stats.new; next = []; printed = [] }) in
    ((n : ℕ) × (fields m.printed ++ m.next ≡ whole_reports n))
    × ((f : Field)
        → (shown f m.printed + (get f m.stats).value) % 2 ^ 32
          ≡ ((get f Stats.new).value + counted f events) % 2 ^ 32)
run_reports_example = run_reports events Stats.new
