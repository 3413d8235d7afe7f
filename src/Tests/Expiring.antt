-- ===== src/Tests/Expiring.antt =====
-- Deadlines in a heap, and a timer that fires.
use fitz_ts.Base.{◌≡◌, refl, [], ◌∷◌, List, map}
use fitz_ts.Multiplexer.Timers.{
  TimeoutEntry, Timers, Event, issues, finalizes, fires, cancels, new_timers, run, handle_timeouts,
}
use fitz_ts.Multiplexer.Timers.Expiry.{Expired}
use fitz_ts.Multiplexer.Timers.Clock.{IsValid, run-new_timers-IsValid, handle_timeouts-run}

abbrev history : List Event
history = issues 1 50 ∷ issues 2 30 ∷ issues 3 40 ∷ issues 4 10 ∷ finalizes 2 ∷ fires 10 ∷ []

run-new_timers-IsValid_example : IsValid (run history new_timers)
run-new_timers-IsValid_example = run-new_timers-IsValid history

abbrev waiting : Timers
waiting = run history new_timers

late : map (λ e. e.id) (handle_timeouts 45 waiting).1 ≡ 3 ∷ []
unfolding run handle_timeouts new_timers fitz_ts.Multiplexer.Timers.expire
    fitz_ts.Multiplexer.Timers.step fitz_ts.Multiplexer.Timers.remove_timeout_entry
    fitz_ts.Multiplexer.Timers.find fitz_ts.Multiplexer.Timers.add_timeout
    fitz_ts.Multiplexer.Timers.schedule_timeout fitz_ts.Multiplexer.Timers.heapify_up
    fitz_ts.Multiplexer.Timers.swap_timeout_entries fitz_ts.Multiplexer.Timers.remove_at
    fitz_ts.Multiplexer.Timers.heapify_down fitz_ts.Multiplexer.Timers.smallest_of
late = refl

handle_timeouts-run_example :
    Expired 45 waiting.entries (handle_timeouts 45 waiting).0.entries (handle_timeouts 45 waiting).1
handle_timeouts-run_example = handle_timeouts-run history 45
