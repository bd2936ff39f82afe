-- ===== src/Tests/Timer.antt =====
-- Deadlines of deadline.rs and timers of the crate cordis-timer at concrete schedules.
use cordis_rs.Base.{
  ℕ, ◌≡◌, refl, true, false, not, some, List, [], ◌∷◌, filter, nat_eq, if◌then◌else◌, String,
}
use cordis_rs.Core.Deadlines as Deadlines
use cordis_rs.Core.Deadlines.{arms, disarms, serves, wakes, new_schedule, serve_round}
use cordis_rs.Core.Deadlines.Order.{is_due}
use cordis_rs.Core.Deadlines.Worker.{Keeps, run-Keeps, serve_round-FiresDue}
use cordis_rs.Core.Gated.{Liveness, FiberState, new_journal}
use cordis_rs.Timer.{Boundary, held, drains, signals, Schedule, poll_timeout, items}
use cordis_rs.Timer.Race.{Settles, poll_timeout-Settles}
use cordis_rs.Timer.Stream.{Ticks, live, items-Ticks}
use cordis_rs.Timer.Registration.{
  Executor, IntervalRegisters, register_interval, register_interval-Registers,
}

-- Two deadlines, the later one armed first; the worker waits between them.
abbrev deadlines : List (Deadlines.Action ℕ)
deadlines = arms 0 50 true 7 ∷ serves 1 ∷ arms 2 10 true 8 ∷ arms 3 9 true 9 ∷ disarms (12, 1) ∷ []

run-Keeps_example : Keeps (Deadlines.run 1000 deadlines new_schedule)
run-Keeps_example = run-Keeps 1000 deadlines

serve_round-FiresDue_example :
    let s = Deadlines.run 1000 deadlines new_schedule in
    ((serve_round 20 s).0 ≡ filter (is_due 20) s.armed)
    × ((serve_round 20 s).1.armed ≡ filter (λ e. not (is_due 20 e)) s.armed)
serve_round-FiresDue_example = serve_round-FiresDue 1000 deadlines 20

-- The generation claims the obligation just before the work is committed.
abbrev closing : Schedule
closing point = if nat_eq point 18 then drains ∷ [] else []

abbrev running : Boundary
running = record { entry = held; cancelled = false; elapsed = false }

poll_timeout-Settles_example : Settles ℕ running (poll_timeout closing (some 3) running)
poll_timeout-Settles_example = poll_timeout-Settles ℕ closing (some 3) running refl

-- The first poll ticks, the generation closes in the second, and the third finds the end.
abbrev quiet : Schedule
quiet point = []

abbrev cancelling : Schedule
cancelling point = drains ∷ signals ∷ []

items-Ticks_example :
    Ticks (items ((quiet, true) ∷ (cancelling, true) ∷ (quiet, true) ∷ []) live running)
items-Ticks_example = items-Ticks ((quiet, true) ∷ (cancelling, true) ∷ (quiet, true) ∷ []) running

abbrev open_generation : Liveness
open_generation = record {
  alive = true;
  disposing = false;
  generation_replacing = false;
  state = FiberState.active;
}

abbrev executor : Executor
executor = record { is_current = true; has_timer = true; now = 4; clock_max = 1000 }

abbrev cleanup : String
cleanup = "cancel"

register_interval-Registers_example :
    IntervalRegisters open_generation open_generation open_generation executor 5 cleanup new_journal
      (register_interval open_generation open_generation open_generation executor 5 cleanup
        new_journal)
register_interval-Registers_example =
    register_interval-Registers open_generation open_generation open_generation executor 5 cleanup
      new_journal
