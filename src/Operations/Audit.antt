-- ===== src/Operations/Audit.antt =====
-- The audit of closes, row by row.
use nomercy_github_runner.Prelude.{
  ℕ, ◌≡◌, true, Option, none, some, List, [], ◌==◌, if◌then◌else◌, count_if, Bool,
}
use nomercy_github_runner.Operations.Table.{AuditRow, Operation, Table, get, is_closed}

abbrev pub closes_of : ℕ → List AuditRow → ℕ
closes_of i = count_if (λ (a : AuditRow). a.operation_id == i)

abbrev pub closed_once : Option Operation → ℕ
closed_once none = 0
closed_once (some op) = if is_closed op.state then 1 else 0

-- The number of close rows of an operation is one if it is closed and the audit took its row, and
-- zero if not.
abbrev pub AuditMatches : Table → Type 0
AuditMatches t =
    (i : ℕ) → closes_of i t.audit ≡ (if t.audit_takes i then closed_once (get i t) else 0)

-- An update that keeps identifiers and whether a row is closed.
record Neutral (f : Operation → Operation) : Type 0 where
  same_id : (op : Operation) → (f op).operation_id ≡ op.operation_id
  same_closed : (op : Operation) → is_closed (f op).state ≡ is_closed op.state

abbrev pub starting : (ℕ → Bool) → Table
starting takes = record { rows = []; audit = []; audit_takes = takes }

abbrev pub no_operations : Table
no_operations = starting (λ i. true)
