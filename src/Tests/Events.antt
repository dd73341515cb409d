-- ===== src/Tests/Events.antt =====
-- Instances of the theorems on job_events.py.
use nomercy_github_runner.Prelude.{ℕ, true, ◌≡◌, ◌⊎◌, refl, none, some, [], ◌∷◌}
use nomercy_github_runner.States.Names.{State}
use nomercy_github_runner.States.Edges.{can}
use nomercy_github_runner.JobEvents.Event.{Event, JobState, Source, text_eq, value_eq}
use nomercy_github_runner.JobEvents.Order.{same_execution}
use nomercy_github_runner.JobEvents.Tables.{Database, Runner, Telemetry, duplicate, find_runner}
use nomercy_github_runner.JobEvents.Apply.{apply}
use nomercy_github_runner.JobEvents.Pages.{last_of, after_pages}
use nomercy_github_runner.JobEvents.Tables.{JobRow}
use nomercy_github_runner.JobEvents.Apply.{after}
use nomercy_github_runner.Prelude.{◌++◌, arith}
use nomercy_github_runner.JobEvents.Once.{apply_again}
use nomercy_github_runner.JobEvents.Fences.{can-apply, worker_keeps_states, late_start}

abbrev event : ℕ → JobState → Source → ℕ → Event
event i s from at = record {
  event_id = i;
  runner_id = 4;
  job = some (b'b' ∷ []);
  repo = none;
  commit = none;
  run_id = some (b'7' ∷ []);
  run_attempt = none;
  job_id = some (b'9' ∷ []);
  state = s;
  at = at;
  result = none;
  source = from;
}

abbrev done : Event
done = event 1 JobState.finished Source.forge 500

abbrev late : Event
late = event 2 JobState.started Source.forge 400

abbrev seen : Event
seen = event 3 JobState.started Source.worker 300

abbrev runner : Telemetry → Runner
runner t = record {
  runner_id = 4;
  host_id = some 2;
  provider = 0;
  actual_state = State.idle;
  forge_state = none;
  forge_seen_at = none;
  telemetry = t;
}

abbrev quiet : Telemetry
quiet = record {
  job_event = none;
  job_event_received_at = none;
  job = none;
  forge_job_event = none;
}

abbrev over : Telemetry
over = record quiet { forge_job_event = some done }

abbrev database : Telemetry → Database
database t = record { runners = runner t ∷ []; rows = []; last_sequence = 6; audit = [] }

apply_again_example :
    apply 900 901 2 late (apply 600 601 2 late (database over)).1
    ≡ (duplicate, (apply 600 601 2 late (database over)).1)
unfolding apply find_runner
apply_again_example =
    apply_again 600 601 2 late 900 901 7 (database over) (apply 600 601 2 late (database over)).1
      refl

can-apply_example :
    (r' : Runner) × (find_runner 4 (apply 600 601 2 late (database quiet)).1.runners ≡ some r')
    × ((r'.actual_state ≡ State.idle) ⊎ (can (some State.idle) r'.actual_state ≡ true))
unfolding find_runner
can-apply_example = can-apply 600 601 2 late 4 (runner quiet) (database quiet) refl

worker_keeps_states_example :
    (r' : Runner) × (find_runner 4 (apply 600 601 2 seen (database over)).1.runners ≡ some r')
    × (r'.actual_state ≡ State.idle)
    × (r'.forge_state ≡ none)
    × (r'.forge_seen_at ≡ none)
    × (r'.telemetry.forge_job_event ≡ some done)
unfolding find_runner
worker_keeps_states_example =
    worker_keeps_states 600 601 2 seen 4 (runner over) (database over) refl refl

late_start_example :
    (r' : Runner) × (find_runner 4 (apply 600 601 2 late (database over)).1.runners ≡ some r')
    × (r'.actual_state ≡ State.idle)
    × (r'.forge_state ≡ none)
    × (r'.telemetry.forge_job_event ≡ some done)
unfolding find_runner same_execution value_eq text_eq
late_start_example =
    late_start 600 601 2 late (runner over) done (database over) refl refl refl refl refl

abbrev job_row : ℕ → Event → JobRow
job_row n e = record {
  sequence = n;
  host_id = 2;
  runner_id = 4;
  provider = 0;
  received_at = 600;
  payload = e;
}

abbrev three_rows : Database
three_rows = record (database quiet) {
  rows = job_row 1 seen ∷ job_row 4 late ∷ job_row 6 done ∷ [];
}

after_pages_example :
    after 0 2 three_rows ++ after (last_of 0 (after 0 2 three_rows)) 3 three_rows
    ≡ after 0 5 three_rows
after_pages_example =
    after_pages 0 2 3 three_rows (omega arith, (omega arith, (omega arith, omega arith)))
