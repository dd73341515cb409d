-- ===== src/Operations/Outcomes.antt =====
-- A closed operation keeps its outcome, and the audit has one close of it.
use nomercy_github_runner.Prelude.{
  ℕ, ◌+◌, ◌≡◌, refl, true, Option, none, some, List, [], ◌∷◌, arith, ◌==◌, if◌then◌else◌, inl, inr,
  Bool-cases, Option-cases, ==_iff, subst, sym, ◌⊎◌,
}
use nomercy_github_runner.Operations.Table.{
  Column, Note, OpState, Operation, Progress, Table, cancelled, failed, get, has_id, insert,
  is_closed, succeeded, unset,
}
use nomercy_github_runner.Operations.Open.{Request, open_op, opened}
use nomercy_github_runner.Operations.Methods.{
  close, closed_row, deferred, merged, result_column, update_row, with_attempt, with_line,
}
use nomercy_github_runner.Operations.Reports.{
  Event, EventError, Reported, apply_event, call_state_of, get_option, on_host, placed_at,
  record_event, recorded, refused, store_call,
}
use nomercy_github_runner.Operations.Actions.{
  Action, act, acts, applied_or, attempts_it, cancels, defers, fails, merges, notes, opens, or_same,
  reports, sets, succeeds,
}
use nomercy_github_runner.Operations.Rows.{get-update_row, find-append, find-update_rows}

-- How a closed operation ended: its state, result and error. Nothing of an open one.
abbrev pub settled : Option Operation → Option (OpState × Column × Option ℕ)
settled none = none
settled (some op) = if is_closed op.state then some (op.state, op.result, op.error) else none

-- An update that keeps identifiers and the outcome of closed rows.
record Keeps (f : Operation → Operation) : Type 0 where
  same_id : (op : Operation) → (f op).operation_id ≡ op.operation_id
  same_outcome :
      (op : Operation) → is_closed op.state ≡ true → settled (some (f op)) ≡ settled (some op)

update-Keeps :
    (i j : ℕ) (f : Operation → Operation) (t : Table) {x : OpState × Column × Option ℕ}
    → Keeps f
    → settled (get i t) ≡ some x
    → settled (get i (update_row j f t)) ≡ some x
update-Keeps i j f t {x} k h = elim (Option-cases (get i t)) [
  | inl nothing ↦ absurd (ground arith)
  | inr (op, e) ↦ ground (arith, get-update_row j i f t k.same_id, k.same_outcome op)
]

line-Keeps : (now : ℕ) (note : Note) → Keeps (with_line now note)
line-Keeps now note = record { same_id = λ op. refl; same_outcome = λ op h. refl }

attempt-Keeps : (now : ℕ) (note : Note) → Keeps (with_attempt now note)
attempt-Keeps now note = record { same_id = λ op. refl; same_outcome = λ op h. ground arith }

deferred-Keeps : (until : ℕ) → Keeps (deferred until)
deferred-Keeps until = record { same_id = λ op. ground arith; same_outcome = λ op h. ground arith }

merged-Keeps : (f : Progress → Progress) → Keeps (merged f)
merged-Keeps f = record { same_id = λ op. ground arith; same_outcome = λ op h. ground arith }

-- Whatever else is in the table, an accepted row changes no look that found one.
insert-settled :
    (i : ℕ) (op : Operation) (t : Table) {x : OpState × Column × Option ℕ}
    → settled (get i t) ≡ some x
    → settled (get i (or_same t (insert op t))) ≡ some x
unfolding insert get
insert-settled i op t {x} h = ground (arith, find-append (has_id i) t.rows op)

open_op-settled :
    (i new_id now : ℕ) (r : Request) (t : Table) {x : OpState × Column × Option ℕ}
    → settled (get i t) ≡ some x
    → settled (get i (open_op (λ u. u) new_id now r t).1) ≡ some x
unfolding open_op
open_op-settled i new_id now r t {x} h = ground (arith, insert-settled i (opened new_id now r) t h)

close-settled :
    (i now j : ℕ) (s : OpState) (r : Column) (e : Option ℕ) (t : Table)
    {x : OpState × Column × Option ℕ}
    → settled (get i t) ≡ some x
    → settled (get i (or_same t (close now j s r e t))) ≡ some x
unfolding close
close-settled i now j s r e t {x} h = elim (Bool-cases (j == i)) [
  | inl same ↦
      subst (λ k. settled (get i (or_same t (close now k s r e t))) ≡ some x)
        (sym ((==_iff j i).0 same)) (ground (arith, h))
  | inr other ↦ ground (arith, h, find-update_rows j i (closed_row now s r e) t.rows)
]

record_event-settled :
    (i now : ℕ) (event : Event) (state : Reported) (handle : ℕ) (op : Operation) (t : Table)
    {x : OpState × Column × Option ℕ}
    → settled (get i t) ≡ some x
    → settled (get i (record_event now event state handle op t)) ≡ some x
record_event-settled i now event state handle op t h =
    let call = store_call handle (call_state_of state event.payload) in
    let noted = update_row op.operation_id (with_line now (Note.reported event.verb handle)) t in
    update-Keeps i op.operation_id (merged call) noted (merged-Keeps call) (
      update-Keeps i op.operation_id (with_line now (Note.reported event.verb handle)) t
        (line-Keeps now (Note.reported event.verb handle)) h)

-- An event is refused, or it makes its two writes.
pub apply_event_cases :
    (now : ℕ) (host_of : ℕ → Option (Option ℕ)) (host : ℕ) (event : Event) (t : Table)
    → ((e : EventError) × (apply_event now host_of host event t ≡ refused e))
      ⊎ ((op : Operation) × (state : Reported) × (handle : ℕ) × (apply_event now host_of host event
              t
            ≡ recorded (record_event now event state handle op t)))
unfolding apply_event
apply_event_cases now host_of host event t = elim (Bool-cases event.is_object) [
  | inr no_object ↦ inl (EventError.not_an_object, ground arith)
  | inl object ↦ elim (Option-cases event.state) [
    | inl e ↦ inl (EventError.no_state, ground arith)
    | inr (state, s) ↦ elim (Option-cases event.handle) [
      | inl e ↦ inl (EventError.no_handle, ground arith)
      | inr (handle, g) ↦ elim (Option-cases (get_option event.operation_id t)) [
        | inl e ↦ inl (EventError.no_such_operation, ground arith)
        | inr (op, o) ↦ elim (Bool-cases (on_host host (placed_at host_of op))) [
          | inr away ↦ inl (EventError.not_on_this_worker, ground arith)
          | inl here ↦ inr (op, state, handle, ground arith)
        ]
      ]
    ]
  ]
]

event-settled :
    (i now : ℕ) (host_of : ℕ → Option (Option ℕ)) (host : ℕ) (event : Event) (t : Table)
    {x : OpState × Column × Option ℕ}
    → settled (get i t) ≡ some x
    → settled (get i (applied_or t (apply_event now host_of host event t))) ≡ some x
event-settled i now host_of host event t {x} h = elim (apply_event_cases now host_of host event t) [
  | inl (e, q) ↦ rw q h
  | inr (op, state, handle, q) ↦ rw q (record_event-settled i now event state handle op t h)
]

act-settled :
    (a : Action) (i : ℕ) (t : Table) {x : OpState × Column × Option ℕ}
    → settled (get i t) ≡ some x
    → settled (get i (act a t)) ≡ some x
unfolding act
act-settled (opens new_id now r) i t h = open_op-settled i new_id now r t h
act-settled (notes now j note) i t h =
    ground (arith, h, update-Keeps i j (with_line now note) t (line-Keeps now note) h)
act-settled (attempts_it now j note) i t h =
    ground (arith, h, update-Keeps i j (with_attempt now note) t (attempt-Keeps now note) h)
act-settled (defers now j seconds) i t h =
    update-Keeps i j (deferred (now + seconds)) t (deferred-Keeps (now + seconds)) h
act-settled (merges j f) i t h = update-Keeps i j (merged f) t (merged-Keeps f) h
act-settled (sets j p) i t h = update-Keeps i j (merged (λ q. p)) t (merged-Keeps (λ q. p)) h
act-settled (succeeds now j r) i t h = close-settled i now j succeeded (result_column r) none t h
act-settled (fails now j e) i t h = close-settled i now j failed unset (some e) t h
act-settled (cancels now j e) i t h = close-settled i now j cancelled unset (some e) t h
act-settled (reports now host_of host event) i t h = event-settled i now host_of host event t h

-- Once an operation is closed, no further call of the store, of any method and on any operation,
-- changes its state, its result or its error: a late reply cannot rewrite an outcome.
pub acts-settled :
    (calls : List Action) (i : ℕ) (t : Table) {x : OpState × Column × Option ℕ}
    → settled (get i t) ≡ some x
    → settled (get i (acts calls t)) ≡ some x
unfolding acts
acts-settled [] i t h = h
acts-settled (a ∷ calls) i t h = acts-settled calls i (act a t) (act-settled a i t h)
