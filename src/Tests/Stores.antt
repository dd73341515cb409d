-- ===== src/Tests/Stores.antt =====
-- Instances of the theorems on the stores.
use nomercy_github_runner.Prelude.{
  ℕ, ◌+◌, ◌==◌, if◌then◌else◌, true, false, ◌&&◌, ◌≡◌, [], ◌∷◌, refl, none, some, arith, count_if,
  IsSorted, ltb,
}
use nomercy_github_runner.States.Names.{State, Verb, state_eq}
use nomercy_github_runner.Reconciler.Decide.{Desired}
use nomercy_github_runner.Specs.{
  Spec, Specs, get_spec, raised, stale, bumped, update, update_observed, same_evidence, seen_after,
  option_eq,
}
use nomercy_github_runner.Specs.Versions.{
  update_written, second_writer_is_stale, update_observed_fenced,
}
use nomercy_github_runner.Operations.Table.{Operation, Table, failed, get, told, unset}
use nomercy_github_runner.Operations.Open.{Request, open_op, opened, operation}
use nomercy_github_runner.Operations.Methods.{defer, is_overdue, overdue}
use nomercy_github_runner.Operations.Actions.{act, acts, attempts_it, fails, opens, succeeds}
use nomercy_github_runner.Operations.Outcomes.{settled, acts-settled}
use nomercy_github_runner.Operations.Keys.{open_again}
use nomercy_github_runner.Operations.Deadlines.{overdue_exact, defer_lem, NoEarlier, is_late}
use nomercy_github_runner.Operations.Audit.{no_operations}

abbrev stop_it : Request
stop_it = record {
  verb = Verb.stop;
  runner_id = some 4;
  fleet_id = none;
  key = some 9;
  deadline_seconds = 1800;
}

abbrev one : Table
one = record { rows = opened 1 100 stop_it ∷ []; audit = []; audit_takes = λ i. true }

first_open :
    open_op (λ t. t) 1 100 stop_it no_operations ≡ (operation (opened 1 100 stop_it) true, one)
unfolding open_op
first_open = refl

open_again_example :
    open_op (λ t. t) 2 160 stop_it one ≡ (operation (opened 1 100 stop_it) false, one)
open_again_example =
    open_again (λ t. t) (λ t. t) 1 2 100 160 9 stop_it stop_it no_operations one
      (opened 1 100 stop_it) true refl refl first_open

abbrev gave_up : Table
gave_up = acts (opens 1 100 stop_it ∷ fails 200 1 5 ∷ []) no_operations

acts-settled_example :
    settled (get 1 (acts (attempts_it 210 1 (told 3) ∷ succeeds 220 1 (some 6) ∷ []) gave_up))
    ≡ some (failed, unset, some 5)
unfolding acts act get
acts-settled_example =
    acts-settled (attempts_it 210 1 (told 3) ∷ succeeds 220 1 (some 6) ∷ []) 1 gave_up refl

overdue_exact_example :
    (count_if (λ op. true) (overdue 2000 one) ≡ count_if (λ op. is_late 2000 op && true) one.rows)
    × IsSorted (λ a b. ltb a.requested_at b.requested_at) (overdue 2000 one)
overdue_exact_example = overdue_exact 2000 one (λ op. true)

defer_lem_example :
    (op : Operation) × (get 1 (defer 1000 1 1800 one) ≡ some op)
    × (is_overdue 2800 op ≡ false)
    × NoEarlier (some 1900) op.deadline_at
unfolding get
defer_lem_example = defer_lem 1000 1 1800 2800 one (opened 1 100 stop_it) refl refl (omega arith)

abbrev runner : State → ℕ → Spec
runner s v = record {
  runner_id = 4;
  fleet_id = some 7;
  host_id = none;
  provider = 0;
  desired_state = Desired.running;
  actual_state = s;
  spec_version = v;
  created_at = 10;
  current_operation = none;
  last_error = none;
  exec_unit_ref = none;
  registration_id = none;
  registration_uuid = none;
  forge_seen_at = none;
  forge_event = none;
  drain_first = false;
  deleted_at = none;
  last_note = none;
  settings = 0;
  forge_state = none;
  forge_labels = none;
  forge_labels_at = none;
}

abbrev took_a_job : Spec → Spec
took_a_job s = record s { actual_state = State.busy }

abbrev specs : Specs
specs = runner State.idle 3 ∷ []

abbrev specs' : Specs
specs' = runner State.busy 4 ∷ []

update_written_example :
    (s : Spec) × (get_spec 4 specs ≡ some s)
    × (s.spec_version ≡ 3)
    × (4 ≡ 3 + 1)
    × (get_spec 5 specs' ≡ (if 4 == 5 then some (bumped took_a_job s) else get_spec 5 specs))
unfolding update
update_written_example = update_written 4 5 3 4 took_a_job specs specs' (λ s. refl) refl

second_writer_is_stale_example : update 4 3 (λ s. s) specs' ≡ (raised (stale 4 3 (3 + 1)), specs')
unfolding update
second_writer_is_stale_example =
    second_writer_is_stale 4 3 4 took_a_job (λ s. s) specs specs' (λ s. refl) refl

update_observed_fenced_example :
    (s : Spec) × (get_spec 4 specs ≡ some s)
    × (s.spec_version ≡ 3)
    × (state_eq s.actual_state State.idle ≡ true)
    × (seen_after s.forge_seen_at 90 ≡ false)
    × (option_eq s.forge_event none ≡ true)
unfolding update_observed same_evidence
update_observed_fenced_example =
    update_observed_fenced (runner State.idle 3) 90 4 took_a_job specs specs' refl
