-- ===== src/Operations/Open.antt =====
-- `OperationStore.open` (dashboard/control/operations.py).
use nomercy_github_runner.Prelude.{ℕ, ◌+◌, Bool, true, false, Option, none, some, [], ◌∷◌}
use nomercy_github_runner.States.Names.{Verb}
use nomercy_github_runner.Operations.Table.{
  Operation, Table, by_key, insert, pending, requested, unset,
}

-- What the caller of `open` asks for.
pub record Request : Type 0 where
  pub verb : Verb
  pub runner_id : Option ℕ
  pub fleet_id : Option ℕ
  pub key : Option ℕ
  pub deadline_seconds : ℕ

abbrev pub opened : ℕ → ℕ → Request → Operation
opened new_id now r = record {
  operation_id = new_id;
  idempotency_key = r.key;
  runner_id = r.runner_id;
  fleet_id = r.fleet_id;
  verb = r.verb;
  requested_at = now;
  state = pending;
  attempts = 0;
  deadline_at = some (now + r.deadline_seconds);
  trace = record { at = now; note = requested r.verb } ∷ [];
  result = unset;
  error = none;
}

-- How `open` ends: with an operation and whether it was created, or with the database's error.
pub data Opened : Type 0 where
  operation : Operation → Bool → Opened
  integrity_error : Opened

abbrev find_key : Option ℕ → Table → Option Operation
find_key none t = none
find_key (some k) t = by_key k t

-- The INSERT of a request that found no operation of its key, on the table as it then is.
insert_new : ℕ → ℕ → Request → Table → Opened × Table
unfolding by_key
insert_new new_id now r t = elim (insert (opened new_id now r) t) [
  | some t' ↦ (operation (opened new_id now r) true, t')
  | none ↦ elim (find_key r.key t) [
    | some existing ↦ (operation existing false, t)
    | none ↦ (integrity_error, t)
  ]
]

-- `open`. `others` is what other callers do to the table between the look and the INSERT.
unfoldable pub open_op : (Table → Table) → ℕ → ℕ → Request → Table → Opened × Table
unfolding insert_new by_key insert
open_op others new_id now r t = elim (find_key r.key t) [
  | some existing ↦ (operation existing false, t)
  | none ↦ insert_new new_id now r (others t)
]
