-- ===== src/JobEvents/Apply.antt =====
-- `JobEvents.apply` and `JobEvents.after` (dashboard/control/job_events.py).
use nomercy_github_runner.Prelude.{
  ℕ, suc, Bool, true, not, ◌&&◌, Option, none, some, List, [], ◌∷◌, ◌++◌, find_first, keep, take,
  sort_by, ltb, if◌then◌else◌,
}
use nomercy_github_runner.States.Names.{State, busy, idle, in_states}
use nomercy_github_runner.JobEvents.Event.{Event, Text, event_eq, is_finished, is_forge}
use nomercy_github_runner.JobEvents.Order.{display_newer, ranks_from, same_execution}
use nomercy_github_runner.JobEvents.Tables.{
  Answer, Database, JobAudit, JobRow, Runner, Telemetry, different_content, duplicate, find_runner,
  hosted_by, is_event, is_row, not_this_worker, raised, recorded,
}

abbrev shown_job : Event → Option Text
shown_job e = if is_finished e then none else e.job

abbrev pub displayed : Event → ℕ → Telemetry → Telemetry
displayed event received t =
    if display_newer event t.job_event received t.job_event_received_at
    then record t {
      job_event = some event;
      job_event_received_at = some received;
      job = shown_job event;
    }
    else t

-- The forge's event before this one: the one kept, or the display where that is a forge's.
abbrev forge_only : Option Event → Option Event
forge_only none = none
forge_only (some e) = if is_forge e then some e else none

abbrev pub previous_forge : Telemetry → Option Event
previous_forge t = elim t.forge_job_event [ some e ↦ some e | none ↦ forge_only t.job_event ]

-- Whether a forge's event is taken over the one before it.
abbrev pub supersedes : Event → Option Event → Bool
supersedes event none = true
supersedes event (some p) =
    ranks_from event p && not (same_execution event p && (is_finished p && not (is_finished event)))

abbrev pub is_authoritative : Event → Telemetry → Bool
is_authoritative event t = is_forge event && supersedes event (previous_forge t)

abbrev pub state_after : Event → State
state_after e = if is_finished e then idle else busy

-- The first UPDATE: the state that the forge reports.
abbrev pub reported : Event → ℕ → Runner → Runner
reported event stamped r = record r {
  forge_state = some (state_after event);
  forge_seen_at = some stamped;
  actual_state =
      if in_states r.actual_state (idle ∷ busy ∷ []) then state_after event else r.actual_state;
}

abbrev pub new_telemetry : Event → ℕ → Telemetry → Telemetry
new_telemetry event received t =
    if is_authoritative event t
    then record (displayed event received t) { forge_job_event = some event }
    else displayed event received t

-- Both UPDATEs of the runner's row, of which `row` was read.
abbrev pub told : Event → ℕ → ℕ → Runner → Runner → Runner
told event received stamped row r =
    record (if is_authoritative event row.telemetry then reported event stamped r else r) {
      telemetry = new_telemetry event received row.telemetry;
    }

abbrev pub update_runner : ℕ → (Runner → Runner) → List Runner → List Runner
update_runner i f [] = []
update_runner i f (r ∷ runners) = (if is_row i r then f r else r) ∷ update_runner i f runners

abbrev pub new_row : ℕ → ℕ → Event → Runner → Database → JobRow
new_row received host event row db = record {
  sequence = suc db.last_sequence;
  host_id = host;
  runner_id = event.runner_id;
  provider = row.provider;
  received_at = received;
  payload = event;
}

abbrev new_audit : ℕ → ℕ → Event → Runner → JobAudit
new_audit received host event row = record {
  at = received;
  by_forge = is_forge event;
  actor = if is_forge event then row.provider else host;
  runner_id = event.runner_id;
  decision = event.state;
}

-- The writes of an event that is new.
abbrev pub stored : ℕ → ℕ → ℕ → Event → Runner → Database → Database
stored received stamped host event row db = record {
  runners = update_runner event.runner_id (told event received stamped row) db.runners;
  rows = db.rows ++ new_row received host event row db ∷ [];
  last_sequence = suc db.last_sequence;
  audit = db.audit ++ new_audit received host event row ∷ [];
}

-- `apply`, in one transaction; `received` and `stamped` are its two readings of the clock.
unfoldable pub apply : ℕ → ℕ → ℕ → Event → Database → Answer × Database
unfolding find_runner event_eq
apply received stamped host event db = elim (find_runner event.runner_id db.runners) [
  | none ↦ (raised not_this_worker, db)
  | some row ↦
      if not (hosted_by host row)
      then (raised not_this_worker, db)
      else elim (find_first (is_event host event.event_id) db.rows) [
        | some previous ↦
            if event_eq previous.payload event
            then (duplicate, db)
            else (raised different_content, db)
        | none ↦ (recorded (suc db.last_sequence), stored received stamped host event row db)
      ]
]

abbrev pub by_sequence : JobRow → JobRow → Bool
by_sequence a b = ltb a.sequence b.sequence

-- `after`
unfoldable pub after : ℕ → ℕ → Database → List JobRow
after sequence limit db =
    take limit (sort_by by_sequence (keep (λ r. ltb sequence r.sequence) db.rows))
