-- ===== src/Control/Moves.antt =====
-- What the steps share: `_move`, `_fail`, `_halt_recreates`, `_attempt`, `_advance`,
-- `_clear_operation`, `_close_if_fulfilled`, `_finish` and `_worker_accepts`
-- (dashboard/control/reconciler.py).
use nomercy_github_runner.Prelude.{
  ℕ, Bool, true, false, not, Option, none, some, List, [], ◌∷◌, ◌++◌, ◌&&◌, is_some, if◌then◌else◌,
}
use nomercy_github_runner.States.Names.{
  State, Verb, in_states, state_eq, verb_eq, failed, absent, recreate,
}
use nomercy_github_runner.States.Edges.{can}
use nomercy_github_runner.States.Asking.{Checked, check, unknown_verb}
use nomercy_github_runner.Specs.{Spec}
use nomercy_github_runner.Operations.Table.{Operation, Progress, op_eq, pending, attempted}
use nomercy_github_runner.Reconciler.Decide.{Phase, serving}
use nomercy_github_runner.Reconciler.Steps.{closing, Closing}
use nomercy_github_runner.Control.World.{
  Action, Done, Error, Failure, Held, pure, raise, ◌>>=◌, try_else, when, report_line, of_state,
  failed_with, failure, held, closed, ◌>>◌,
}
use nomercy_github_runner.Control.Stores.{
  look, update_row, observe_row, delete_row, attempt_op, succeed_op, fail_op, merge_op, progress_op,
  operation_of, siblings_of,
}
use nomercy_github_runner.Control.Outside.{Outside}

abbrev pub or_illegal : {A : Type 0} → Checked A → Action Done
or_illegal (Checked.ok a) = pure tt
or_illegal (Checked.raised e) = raise (of_state e)

-- The columns of a transition: a runner that arrives in service has no error, unless `extra` says
-- otherwise.
abbrev pub arrived : State → (Spec → Spec) → Spec → Spec
arrived to extra s = extra (record s {
  actual_state = to;
  last_error = if in_states to serving then none else s.last_error;
})

-- `_move`
unfoldable pub move : Spec → State → (Spec → Spec) → Action Spec
unfolding check look update_row
move s to extra = do
  or_illegal (check (some s.actual_state) to none)
  update_row s.runner_id s.spec_version (arrived to extra)
  look s.runner_id

-- `_move` of an observation; none if it was superseded.
unfoldable pub move_observed : Spec → State → ℕ → Action (Option Spec)
unfolding check look observe_row
move_observed s to captured = do
  or_illegal (check (some s.actual_state) to none)
  written ← observe_row s captured (arrived to (λ r. r))
  if written then (look s.runner_id >>= λ r. pure (some r)) else pure none

abbrev pub unchanged : Spec → Spec
unchanged s = s

abbrev pub failure_of : Error → Failure
failure_of (failed_with f) = f
failure_of e = record {
  text = 0;
  rollback_held = false;
  retry_preflight = false;
  removed_unit = false;
  deregistered = false;
}

-- The columns that a failed step writes.
abbrev pub failing : ℕ → Bool → Failure → Spec → Spec
failing message clears f s = record s {
  last_error = some message;
  current_operation = if clears then none else s.current_operation;
  exec_unit_ref = if f.removed_unit then none else s.exec_unit_ref;
  registration_id = if f.deregistered then none else s.registration_id;
  registration_uuid = if f.deregistered then none else s.registration_uuid;
}

abbrev pub no_operation : Spec → Spec
no_operation s = record s { current_operation = none }

abbrev pub with_error : ℕ → Spec → Spec
with_error message s = record s { last_error = some message }

abbrev pub hold : Spec → Held → Action Done
hold s why = report_line (held s.runner_id why)

abbrev pub hold_rollback : Bool → Progress → Progress
hold_rollback preflight p = record p { rollback_held = true; rollback_retry_preflight = preflight }

-- The words before the text of an error that halts the recreates of a fleet.
abbrev pub halted : ℕ
halted = 19

module _ (o : Outside) where
  -- `_clear_operation`
  unfoldable pub clear_operation : Spec → Action Done
  clear_operation s = do
    fresh ← look s.runner_id
    update_row s.runner_id fresh.spec_version no_operation
    pure tt

  abbrev pub is_waiting_recreate : Option Operation → Bool
  is_waiting_recreate none = false
  is_waiting_recreate (some op) = verb_eq op.verb recreate && op_eq op.state pending

  -- The loop of `_halt_recreates` over the siblings.
  unfoldable pub halt_all : ℕ → List Spec → Action Done
  unfolding clear_operation
  halt_all text [] = pure tt
  halt_all text (sibling ∷ siblings) = do
    op ← operation_of sibling
    elim op [
      | none ↦ pure tt
      | some other ↦ when (is_waiting_recreate (some other)) (do
        now ← o.now
        fail_op now other.operation_id text
        clear_operation sibling
        report_line (failure sibling.runner_id text))
    ]
    halt_all text siblings

  -- `_halt_recreates`
  unfoldable pub halt_recreates : Spec → ℕ → Action Done
  unfolding halt_all
  halt_recreates s text = siblings_of s >>= halt_all (o.prefixed halted text)

  abbrev pub fail_operation : Spec → Option Operation → ℕ → Action Done
  fail_operation s none text = pure tt
  fail_operation s (some op) text = do
    now ← o.now
    fail_op now op.operation_id text
    when (verb_eq op.verb recreate) (halt_recreates s text)

  abbrev pub hold_progress : Option Operation → Bool → Action Done
  hold_progress none preflight = pure tt
  hold_progress (some op) preflight = merge_op op.operation_id (hold_rollback preflight)

  -- The part of `_fail` for an error that holds the rollback, and the other one.
  unfoldable pub fail_held : Spec → Option Operation → ℕ → Bool → Action Done
  fail_held s op text preflight = do
    current ← look s.runner_id
    update_row current.runner_id current.spec_version (with_error text)
    hold_progress op preflight
    hold s Held.rollback_held

  unfoldable pub fail_through : Spec → Option Operation → ℕ → Failure → Action Done
  fail_through s op text f = do
    spec ← look s.runner_id
    if can (some spec.actual_state) failed
        then (move spec failed (failing text (is_some op) f) >>= λ r. pure true)
        else update_row spec.runner_id spec.spec_version (failing text (is_some op) f)
    fail_operation spec op text
    report_line (failure s.runner_id text)

  -- `_fail`, with the words for the step before the text
  unfoldable pub fail_step : Spec → Option Operation → Error → ℕ → Action Done
  unfolding fail_held fail_through
  fail_step s op e step =
      let text = o.prefixed step (o.text_of e) in
      let f = failure_of e in
      if f.rollback_held then fail_held s op text f.retry_preflight else fail_through s op text f

  -- `_attempt`
  unfoldable pub attempt_step : Option Operation → Verb → Action Done
  attempt_step none v = pure tt
  attempt_step (some op) v = do now ← o.now; attempt_op now op.operation_id (attempted v)

  -- `_finish`
  unfoldable pub finish : Spec → Option Operation → Action Done
  finish s op = do
    now ← o.now
    delete_row now s.runner_id
    elim op [
      | none ↦ pure tt
      | some op' ↦ do
        then_ ← o.now
        succeed_op then_ op'.operation_id none
        report_line (closed op'.operation_id op'.verb)
    ]

  abbrev pub close_as : Closing → Spec → Operation → ℕ → Action Bool
  close_as Closing.left_open s op now = pure false
  close_as Closing.raises s op now = raise (of_state (unknown_verb op.verb))
  close_as Closing.fails s op now = do
    fail_op now op.operation_id (elim s.last_error [ none ↦ 0 | some e ↦ e ])
    when (not (state_eq s.actual_state absent)) (clear_operation s)
    report_line (closed op.operation_id op.verb)
    pure true
  close_as Closing.succeeds s op now = do
    succeed_op now op.operation_id none
    when (not (state_eq s.actual_state absent)) (clear_operation s)
    report_line (closed op.operation_id op.verb)
    pure true

  -- `_close_if_fulfilled`
  unfoldable pub close_if_fulfilled : Spec → Option Operation → Action Bool
  close_if_fulfilled s none = pure false
  close_if_fulfilled s (some op) = do
    p ← progress_op op.operation_id
    now ← o.now
    close_as (closing op.verb s.actual_state p.done) s op now

  -- `_worker_accepts`
  unfoldable pub worker_accepts : Spec → Action Bool
  worker_accepts s = elim s.host_id [
    | none ↦ pure true
    | some host ↦ try_else (o.accepts host) pure (λ e. pure false)
  ]

abbrev pub with_phase : Phase → Progress → Progress
with_phase phase p = record p { done = p.done ++ phase ∷ [] }

-- `_advance`
unfoldable pub advance : Option Operation → Phase → Action Done
advance none phase = pure tt
advance (some op) phase = merge_op op.operation_id (with_phase phase)
