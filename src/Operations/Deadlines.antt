-- ===== src/Operations/Deadlines.antt =====
-- What the sweep is given, and what moving a deadline does to it.
use nomercy_github_runner.Prelude.{
  ℕ, ◌+◌, ◌≤◌, ◌≡◌, refl, Bool, true, false, ◌&&◌, Option, none, some, List, [], ◌∷◌, ltb, ◌||◌,
  keep, arith, count_if, Bool-cases, &&_parts, ◌∙◌, inl, inr, IsSorted, IsOrder, count-sort_by,
  count-keep, sort_by-IsSorted, ◌||◌, List, ltb, ◌∷◌,
}
use nomercy_github_runner.Operations.Table.{Operation, Table, get, op_eq, pending, running}
use nomercy_github_runner.Operations.Methods.{
  asked_before, defer, deferred, earlier, is_overdue, overdue,
}
use nomercy_github_runner.Operations.Rows.{get-update_row}

asked_before-IsOrder : IsOrder asked_before
asked_before-IsOrder = record { asym = λ a b h. ground arith; trans = λ a b c h k. ground arith }

-- Pending or running, with a deadline that is over.
abbrev pub is_late : ℕ → Operation → Bool
is_late now op =
    (op_eq op.state pending || op_eq op.state running)
    && (elim op.deadline_at [ none ↦ false | some d ↦ ltb d now ])

is_late-is_overdue :
    (now : ℕ) (p : Operation → Bool) (rows : List Operation)
    → count_if (λ op. is_overdue now op && p op) rows ≡ count_if (λ op. is_late now op && p op) rows
is_late-is_overdue now p [] = refl
is_late-is_overdue now p (op ∷ rows) = ground (arith, is_late-is_overdue now p rows)

-- The sweep is given exactly the operations that are pending or running and have a deadline before
-- now, each as often as the table has it, and the oldest request first.
pub overdue_exact :
    (now : ℕ) (t : Table) (p : Operation → Bool)
    → (count_if p (overdue now t) ≡ count_if (λ op. is_late now op && p op) t.rows)
      × IsSorted (λ a b. ltb a.requested_at b.requested_at) (overdue now t)
unfolding overdue
overdue_exact now t p = (
  count-sort_by asked_before p (keep (is_overdue now) t.rows)
      ∙ count-keep p (is_overdue now) t.rows
      ∙ is_late-is_overdue now p t.rows,
  sort_by-IsSorted asked_before (keep (is_overdue now) t.rows) asked_before-IsOrder,
)

abbrev pub NoEarlier : Option ℕ → Option ℕ → Type 0
NoEarlier none d = Unit
NoEarlier (some a) none = ⊥
NoEarlier (some a) (some b) = a ≤ b

deferred_id : (until : ℕ) (op : Operation) → (deferred until op).operation_id ≡ op.operation_id
deferred_id until op = ground arith

later_than : (d : Option ℕ) (until : ℕ) → earlier d until ≡ true → NoEarlier d (some until)
later_than none until h = tt
later_than (some a) until h = ground arith

NoEarlier-refl : (d : Option ℕ) → NoEarlier d d
NoEarlier-refl none = tt
NoEarlier-refl (some a) = omega arith

deferred-NoEarlier :
    (until : ℕ) (op : Operation) → NoEarlier op.deadline_at (deferred until op).deadline_at
deferred-NoEarlier until op =
    elim (Bool-cases (op_eq op.state pending && earlier op.deadline_at until)) [
      | inl moves ↦
          rw moves
            (later_than op.deadline_at until (&&_parts _ (earlier op.deadline_at until) moves).1)
      | inr stays ↦ rw stays (NoEarlier-refl op.deadline_at)
    ]

-- Deferring a pending operation keeps it out of every sweep up to the new moment and never brings
-- its deadline forward.
pub defer_lem :
    (now i seconds moment : ℕ) (t : Table) (op : Operation)
    → get i t ≡ some op
    → op.state ≡ pending
    → moment ≤ now + seconds
    → (op' : Operation) × (get i (defer now i seconds t) ≡ some op')
      × (is_overdue moment op' ≡ false)
      × NoEarlier op.deadline_at op'.deadline_at
unfolding defer
defer_lem now i seconds moment t op h held le = (
  deferred (now + seconds) op,
  ground
      (arith, get-update_row i i (deferred (now + seconds)) t (λ o. deferred_id (now + seconds) o)),
  ground arith,
  deferred-NoEarlier (now + seconds) op,
)
