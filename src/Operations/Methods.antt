-- ===== src/Operations/Methods.antt =====
-- The methods of `OperationStore` that write to one row, and `overdue`
-- (dashboard/control/operations.py).
use nomercy_github_runner.Prelude.{
  ℕ, ◌+◌, Bool, true, false, not, ◌&&◌, Option, none, some, List, [], ◌∷◌, ◌++◌, keep, is_some, ltb,
  sort_by, if◌then◌else◌,
}
use nomercy_github_runner.Operations.Table.{
  AuditRow, Column, Note, OpState, Operation, Progress, Table, cancelled, closed_as, failed, get,
  has_id, is_closed, no_progress, op_eq, outcome, pending, running, so_far, succeeded, unset,
}

-- UPDATE operations SET … WHERE operation_id = i
abbrev pub update_rows : ℕ → (Operation → Operation) → List Operation → List Operation
update_rows i f [] = []
update_rows i f (op ∷ rows) = (if has_id i op then f op else op) ∷ update_rows i f rows

abbrev pub update_row : ℕ → (Operation → Operation) → Table → Table
update_row i f t = record t { rows = update_rows i f t.rows }

-- The statement of `_append`: the trace, and when asked the count and the state. A closed
-- operation keeps its state.
abbrev pub with_line : ℕ → Note → Operation → Operation
with_line now note op = record op { trace = op.trace ++ record { at = now; note = note } ∷ [] }

abbrev pub with_attempt : ℕ → Note → Operation → Operation
with_attempt now note op = record (with_line now note op) {
  attempts = op.attempts + 1;
  state = if is_closed op.state then op.state else running;
}

-- `note` and `attempt`; none is UnknownOperation.
unfoldable pub add_note : ℕ → ℕ → Note → Table → Option Table
unfolding get
add_note now i note t =
    if is_some (get i t) then some (update_row i (with_line now note) t) else none

unfoldable pub attempt : ℕ → ℕ → Note → Table → Option Table
unfolding get
attempt now i note t =
    if is_some (get i t) then some (update_row i (with_attempt now note) t) else none

-- `defer`: the deadline of a pending operation is moved, never shortened.
abbrev pub earlier : Option ℕ → ℕ → Bool
earlier none moment = true
earlier (some d) moment = ltb d moment

abbrev pub deferred : ℕ → Operation → Operation
deferred until op =
    if op_eq op.state pending && earlier op.deadline_at until
    then record op { deadline_at = some until }
    else op

unfoldable pub defer : ℕ → ℕ → ℕ → Table → Table
defer now i seconds t = update_row i (deferred (now + seconds)) t

-- `progress`: nothing of a closed operation.
abbrev column_progress : Column → Progress
column_progress (so_far p) = p
column_progress _ = no_progress

abbrev pub progress_of : Operation → Progress
progress_of op = if is_closed op.state then no_progress else column_progress op.result

unfoldable pub progress : ℕ → Table → Progress
unfolding get
progress i t = elim (get i t) [ none ↦ no_progress | some op ↦ progress_of op ]

-- `merge_progress` and `set_progress`: a closed operation is left alone.
abbrev pub merged : (Progress → Progress) → Operation → Operation
merged f op =
    if is_closed op.state then op else record op { result = so_far (f (column_progress op.result)) }

unfoldable pub merge_progress : ℕ → (Progress → Progress) → Table → Table
merge_progress i f t = update_row i (merged f) t

unfoldable pub set_progress : ℕ → Progress → Table → Table
set_progress i p t = update_row i (merged (λ q. p)) t

-- `_close`, with the audit of `_audit_close`. An operation already closed keeps its outcome. The
-- SELECT of the state and the UPDATE are one step here; another process that closes the operation
-- between the two is not modelled.
abbrev pub closed_row : ℕ → OpState → Column → Option ℕ → Operation → Operation
closed_row now s r e op = record (with_line now (closed_as s) op) {
  state = s;
  result = r;
  error = e;
}

abbrev audited : OpState → Operation → AuditRow
audited s op = record { operation_id = op.operation_id; verb = op.verb; outcome = s }

-- `_audit_close`: an audit that cannot be written is printed, and never undoes the close.
abbrev audit_close : ℕ → OpState → Operation → Table → List AuditRow
audit_close i s op t = if t.audit_takes i then audited s op ∷ t.audit else t.audit

abbrev close_found : ℕ → ℕ → OpState → Column → Option ℕ → Table → Operation → Table
close_found now i s r e t op = if is_closed op.state then t else record t {
  rows = update_rows i (closed_row now s r e) t.rows;
  audit = audit_close i s op t;
}

unfoldable pub close : ℕ → ℕ → OpState → Column → Option ℕ → Table → Option Table
unfolding get
close now i s r e t = elim (get i t) [ none ↦ none | some op ↦ some (close_found now i s r e t op) ]

abbrev pub result_column : Option ℕ → Column
result_column none = unset
result_column (some r) = outcome r

abbrev pub succeed : ℕ → ℕ → Option ℕ → Table → Option Table
succeed now i r = close now i succeeded (result_column r) none

abbrev pub fail : ℕ → ℕ → ℕ → Table → Option Table
fail now i e = close now i failed unset (some e)

abbrev pub cancel : ℕ → ℕ → ℕ → Table → Option Table
cancel now i e = close now i cancelled unset (some e)

-- `overdue`: open operations past their deadline, oldest request first.
abbrev past : ℕ → Option ℕ → Bool
past now none = false
past now (some d) = ltb d now

abbrev pub is_overdue : ℕ → Operation → Bool
is_overdue now op = not (is_closed op.state) && past now op.deadline_at

-- The order of the requests.
abbrev pub asked_before : Operation → Operation → Bool
asked_before a b = ltb a.requested_at b.requested_at

unfoldable pub overdue : ℕ → Table → List Operation
overdue now t = sort_by asked_before (keep (is_overdue now) t.rows)
