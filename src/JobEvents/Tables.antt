-- ===== src/JobEvents/Tables.antt =====
-- The rows that `JobEvents.apply` reads and writes (dashboard/control/job_events.py).
use nomercy_github_runner.Prelude.{ℕ, Bool, false, ◌&&◌, Option, none, some, List, find_first, ◌==◌}
use nomercy_github_runner.States.Names.{State}
use nomercy_github_runner.JobEvents.Event.{Event, JobState, Text}

pub record Telemetry : Type 0 where
  pub job_event : Option Event
  pub job_event_received_at : Option ℕ
  pub job : Option Text
  pub forge_job_event : Option Event

pub record Runner : Type 0 where
  pub runner_id : ℕ
  pub host_id : Option ℕ
  pub provider : ℕ
  pub actual_state : State
  pub forge_state : Option State
  pub forge_seen_at : Option ℕ
  pub telemetry : Telemetry

-- A row of the table job_events.
pub record JobRow : Type 0 where
  pub sequence : ℕ
  pub host_id : ℕ
  pub runner_id : ℕ
  pub provider : ℕ
  pub received_at : ℕ
  pub payload : Event

-- A row of the audit: the actor is the forge's provider or the worker's host.
pub record JobAudit : Type 0 where
  pub at : ℕ
  pub by_forge : Bool
  pub actor : ℕ
  pub runner_id : ℕ
  pub decision : JobState

-- The tables, in the order of insertion, and the last sequence number ever given.
pub record Database : Type 0 where
  pub runners : List Runner
  pub rows : List JobRow
  pub last_sequence : ℕ
  pub audit : List JobAudit

pub data JobError : Type 0 where
  not_this_worker different_content : JobError

pub data Answer : Type 0 where
  recorded : ℕ → Answer
  duplicate : Answer
  raised : JobError → Answer

abbrev pub is_row : ℕ → Runner → Bool
is_row i r = r.runner_id == i

unfoldable pub find_runner : ℕ → List Runner → Option Runner
find_runner i runners = find_first (is_row i) runners

abbrev pub hosted_by : ℕ → Runner → Bool
hosted_by host r = elim r.host_id [ none ↦ false | some h ↦ h == host ]

abbrev pub is_event : ℕ → ℕ → JobRow → Bool
is_event host event_id row = row.host_id == host && row.payload.event_id == event_id
