-- ===== src/Operations/Table.antt =====
-- The rows of the table of operations and the looks into it (dashboard/control/operations.py).
use nomercy_github_runner.Prelude.{
  ℕ, Bool, true, false, ◌||◌, Option, none, some, List, [], ◌∷◌, ◌++◌, any, find_first, ◌==◌,
  if◌then◌else◌,
}
use nomercy_github_runner.States.Names.{Verb}
use nomercy_github_runner.Reconciler.Decide.{Phase}

pub data OpState : Type 0 where
  pending running succeeded failed cancelled : OpState

abbrev pub op_code : OpState → ℕ
op_code pending = 0
op_code running = 1
op_code succeeded = 2
op_code failed = 3
op_code cancelled = 4

abbrev pub op_eq : OpState → OpState → Bool
op_eq a b = op_code a == op_code b

-- CLOSED; the others are OPEN.
abbrev pub is_closed : OpState → Bool
is_closed pending = false
is_closed running = false
is_closed _ = true

-- What a line of the trace says.
pub data Note : Type 0 where
  requested : Verb → Note
  attempted : Verb → Note
  told : ℕ → Note
  reported : Verb → ℕ → Note
  closed_as : OpState → Note

pub record Line : Type 0 where
  pub at : ℕ
  pub note : Note

-- What the last event said about one agent call.
pub data CallState : Type 0 where
  is_running : CallState
  has_succeeded : ℕ → CallState
  has_failed : ℕ → CallState

pub record Progress : Type 0 where
  pub done : List Phase
  pub calls : List (ℕ × CallState)
  pub rollback_held : Bool
  pub rollback_retry_preflight : Bool

abbrev pub no_progress : Progress
no_progress = record {
  done = [];
  calls = [];
  rollback_held = false;
  rollback_retry_preflight = false;
}

pub data Column : Type 0 where
  unset : Column
  so_far : Progress → Column
  outcome : ℕ → Column

pub record Operation : Type 0 where
  pub operation_id : ℕ
  pub idempotency_key : Option ℕ
  pub runner_id : Option ℕ
  pub fleet_id : Option ℕ
  pub verb : Verb
  pub requested_at : ℕ
  pub state : OpState
  pub attempts : ℕ
  pub deadline_at : Option ℕ
  pub trace : List Line
  pub result : Column
  pub error : Option ℕ

-- A row of the audit that `_audit_close` writes.
pub record AuditRow : Type 0 where
  pub operation_id : ℕ
  pub verb : Verb
  pub outcome : OpState

-- The table, in the order of insertion, and the audit of closes, the latest first. The audit is
-- another store: whether it takes the row of an operation's close is a parameter.
pub record Table : Type 0 where
  pub rows : List Operation
  pub audit : List AuditRow
  pub audit_takes : ℕ → Bool

abbrev pub default_deadline_seconds : ℕ
default_deadline_seconds = 1800

abbrev pub has_id : ℕ → Operation → Bool
has_id i op = op.operation_id == i

abbrev key_eq : Option ℕ → ℕ → Bool
key_eq none k = false
key_eq (some j) k = j == k

abbrev pub has_key : ℕ → Operation → Bool
has_key k op = key_eq op.idempotency_key k

unfoldable pub get : ℕ → Table → Option Operation
get i t = find_first (has_id i) t.rows

unfoldable pub by_key : ℕ → Table → Option Operation
by_key k t = find_first (has_key k) t.rows

-- The primary key and the UNIQUE of the idempotency key: whether an INSERT is accepted.
abbrev pub clashes : Operation → Operation → Bool
clashes new old =
    new.operation_id == old.operation_id
    || (elim new.idempotency_key [ none ↦ false | some k ↦ has_key k old ])

unfoldable pub insert : Operation → Table → Option Table
insert op t = if any (clashes op) t.rows then none else some (record t { rows = t.rows ++ op ∷ [] })
