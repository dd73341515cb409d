-- ===== src/Control/Stores.antt =====
-- The calls that the loop makes of the two stores (dashboard/store/specs.py,
-- dashboard/control/operations.py), as actions.
use nomercy_github_runner.Prelude.{
  ℕ, Bool, true, false, not, Option, none, some, List, [], ◌∷◌, map, keep, ◌&&◌, ◌==◌,
  if◌then◌else◌,
}
use nomercy_github_runner.States.Names.{State, state_eq}
use nomercy_github_runner.Specs.{
  Spec, Specs, Written, get_spec, update, update_observed, soft_delete, list_specs, option_eq,
}
use nomercy_github_runner.Operations.Table.{
  Table, Operation, Note, Progress, get, is_closed, default_deadline_seconds,
}
use nomercy_github_runner.Operations.Open.{Request, Opened, open_op}
use nomercy_github_runner.Operations.Methods.{
  attempt, defer, merge_progress, progress, succeed, fail,
}
use nomercy_github_runner.Control.World.{
  Action, Moved, World, Done, ok, pure, raise, or_raise, gets, modify, of_spec, unknown_operation,
  no_row, integrity_error,
}

-- specs.get(…), of a row that the caller then looks into
unfoldable pub look : ℕ → Action Spec
look i w = or_raise no_row (get_spec i w.specs) w

-- How a write of one row ends. `superseded` is the None of `update_observed`.
abbrev pub after_write : Written → Action Bool
after_write (Written.version v) = pure true
after_write Written.written = pure true
after_write Written.superseded = pure false
after_write (Written.raised e) = raise (of_spec e)

-- The rows before and after a statement, by their identifiers: the states that it changed.
abbrev pub and_move : ℕ → Option Spec → Option Spec → List Moved → List Moved
and_move i (some s) (some t) rest =
    if state_eq s.actual_state t.actual_state
    then rest
    else (record { runner_id = i; frm = s.actual_state; to = t.actual_state } ∷ rest)
and_move i _ _ rest = rest

abbrev pub moves_at : Specs → Specs → List ℕ → List Moved → List Moved
moves_at before after [] rest = rest
moves_at before after (i ∷ l) rest =
    and_move i (get_spec i before) (get_spec i after) (moves_at before after l rest)

-- The world after a statement on the table of specs.
abbrev pub rewritten : Specs → World → World
rewritten after w = record w {
  specs = after;
  moves = moves_at w.specs after (map (λ (s : Spec). s.runner_id) w.specs) w.moves;
}

abbrev pub write : (Specs → Written × Specs) → Action Bool
write f w = let (r, specs) = f w.specs in after_write r (rewritten specs w)

unfoldable pub update_row : ℕ → ℕ → (Spec → Spec) → Action Bool
update_row i v change = write (update i v change)

unfoldable pub observe_row : Spec → ℕ → (Spec → Spec) → Action Bool
observe_row expected captured change = write (update_observed expected captured change)

unfoldable pub delete_row : ℕ → ℕ → Action Bool
delete_row now i = write (soft_delete now i none)

-- A statement of its own on the table of specs, outside spec_version.
unfoldable pub rewrite_rows : (Specs → Specs) → Action Done
rewrite_rows f w = (ok tt, rewritten (f w.specs) w)

abbrev pub put_table : Option Table → Action Done
put_table none = raise unknown_operation
put_table (some t) = modify (λ w. record w { table = t })

-- A method of OperationStore that raises when there is no such operation.
unfoldable pub on_table : (Table → Option Table) → Action Done
on_table f w = put_table (f w.table) w

unfoldable pub attempt_op : ℕ → ℕ → Note → Action Done
unfolding on_table
attempt_op now i note = on_table (attempt now i note)

unfoldable pub succeed_op : ℕ → ℕ → Option ℕ → Action Done
unfolding on_table
succeed_op now i result = on_table (succeed now i result)

unfoldable pub fail_op : ℕ → ℕ → ℕ → Action Done
unfolding on_table
fail_op now i error = on_table (fail now i error)

unfoldable pub defer_op : ℕ → ℕ → Action Done
unfolding on_table
defer_op now i = on_table (λ t. some (defer now i default_deadline_seconds t))

unfoldable pub merge_op : ℕ → (Progress → Progress) → Action Done
unfolding on_table
merge_op i f = on_table (λ t. some (merge_progress i f t))

abbrev pub opened_as : Opened → Action (Operation × Bool)
opened_as (Opened.operation op created) = pure (op, created)
opened_as Opened.integrity_error = raise integrity_error

-- operations.open(…); the calls of other processes stand in the world's own changes.
unfoldable pub open_row : ℕ → ℕ → Request → Action (Operation × Bool)
open_row new_id now r w =
    let (o, t) = open_op (λ t. t) new_id now r w.table in opened_as o (record w { table = t })

unfoldable pub look_op : ℕ → Action (Option Operation)
look_op i = gets (λ w. get i w.table)

unfoldable pub progress_op : ℕ → Action Progress
progress_op i = gets (λ w. progress i w.table)

abbrev open_only : Option Operation → Option Operation
open_only none = none
open_only (some op) = if is_closed op.state then none else some op

-- The open operation of a runner.
abbrev pub open_of : Table → Spec → Option Operation
open_of t s = elim s.current_operation [ none ↦ none | some i ↦ open_only (get i t) ]

-- `_operation`
unfoldable pub operation_of : Spec → Action (Option Operation)
operation_of s = gets (λ w. open_of w.table s)

-- A runner of no fleet has no siblings: NULL equals nothing in SQL.
abbrev in_fleet : Option ℕ → Spec → Bool
in_fleet none s = false
in_fleet (some f) s = option_eq s.fleet_id (some f) && not (state_eq s.actual_state State.absent)

-- `_fleet_specs`, without the runner itself
abbrev pub siblings_in : Spec → World → List Spec
siblings_in s w =
    keep (λ r. not (r.runner_id == s.runner_id)) (keep (in_fleet s.fleet_id) (list_specs w.specs))

unfoldable pub siblings_of : Spec → Action (List Spec)
siblings_of s = gets (siblings_in s)
