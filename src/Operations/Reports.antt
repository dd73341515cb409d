-- ===== src/Operations/Reports.antt =====
-- What an agent reports: `apply_event` and `call_state` (dashboard/control/operations.py).
use nomercy_github_runner.Prelude.{
  ℕ, Bool, false, not, Option, none, some, List, [], ◌∷◌, ◌==◌, if◌then◌else◌,
}
use nomercy_github_runner.States.Names.{Verb}
use nomercy_github_runner.Operations.Table.{
  CallState, Operation, Progress, Table, get, has_failed, has_succeeded, is_running, reported,
}
use nomercy_github_runner.Operations.Methods.{merged, progress, update_row, with_line}

-- An agent's report, as JSON: whether it is an object, its state where that is one of the three,
-- its handle where that is a text and not empty, and the rest.
pub data Reported : Type 0 where
  reports_running reports_succeeded reports_failed : Reported

pub record Event : Type 0 where
  pub is_object : Bool
  pub state : Option Reported
  pub handle : Option ℕ
  pub operation_id : Option ℕ
  pub verb : Verb
  pub payload : ℕ

-- The ValueErrors of `apply_event`.
pub data EventError : Type 0 where
  not_an_object no_state no_handle no_such_operation not_on_this_worker : EventError

pub data Applied : Type 0 where
  refused : EventError → Applied
  recorded : Table → Applied

abbrev pub call_state_of : Reported → ℕ → CallState
call_state_of reports_running payload = is_running
call_state_of reports_succeeded payload = has_succeeded payload
call_state_of reports_failed payload = has_failed payload

-- calls[handle] = record
abbrev pub store_call : ℕ → CallState → Progress → Progress
store_call handle c p = record p { calls = (handle, c) ∷ p.calls }

abbrev pub on_host : ℕ → Option (Option ℕ) → Bool
on_host host none = false
on_host host (some none) = false
on_host host (some (some h)) = h == host

abbrev pub placed_at : (ℕ → Option (Option ℕ)) → Operation → Option (Option ℕ)
placed_at host_of op = elim op.runner_id [ none ↦ none | some r ↦ host_of r ]

abbrev pub get_option : Option ℕ → Table → Option Operation
get_option none t = none
get_option (some i) t = get i t

-- The two writes of an event that passed its checks.
abbrev pub record_event : ℕ → Event → Reported → ℕ → Operation → Table → Table
record_event now event state handle op t =
    update_row op.operation_id (merged (store_call handle (call_state_of state event.payload)))
      (update_row op.operation_id (with_line now (reported event.verb handle)) t)

-- `host_of` is the look into runner_specs: none is no such row, `some none` a runner not placed.
unfoldable pub apply_event : ℕ → (ℕ → Option (Option ℕ)) → ℕ → Event → Table → Applied
unfolding get
apply_event now host_of host event t =
    if not event.is_object then refused not_an_object else elim event.state [
      | none ↦ refused no_state
      | some state ↦ elim event.handle [
        | none ↦ refused no_handle
        | some handle ↦ elim (get_option event.operation_id t) [
          | none ↦ refused no_such_operation
          | some op ↦
              if not (on_host host (placed_at host_of op))
              then refused not_on_this_worker
              else recorded (record_event now event state handle op t)
        ]
      ]
    ]

-- `call_state`: the last event of one agent call.
abbrev call_of : ℕ → List (ℕ × CallState) → Option CallState
call_of handle [] = none
call_of handle ((h, c) ∷ calls) =
    let rest = call_of handle calls in if h == handle then some c else rest

unfoldable pub call_state : ℕ → ℕ → Table → Option CallState
unfolding progress
call_state i handle t = call_of handle (progress i t).calls
