-- ===== src/JobEvents/Once.antt =====
-- An event is kept once, however often it is delivered.
use nomercy_github_runner.Prelude.{
  ℕ, suc, ◌≡◌, refl, true, Option, none, some, List, [], ◌∷◌, ◌++◌, find_first, arith, ◌==◌,
  if◌then◌else◌, inl, inr, Option-cases,
}
use nomercy_github_runner.JobEvents.Event.{Event, Text, event_eq, text_eq, value_eq}
use nomercy_github_runner.JobEvents.Tables.{
  Database, JobRow, Runner, duplicate, find_runner, hosted_by, is_event, is_row, recorded,
}
use nomercy_github_runner.JobEvents.Apply.{apply, new_row, stored, told, update_runner}

text_eq_self : (s : Text) → text_eq s s ≡ true
unfolding text_eq
text_eq_self [] = refl
text_eq_self (c ∷ s) = ground (arith, text_eq_self s)

value_eq_self : (v : Option Text) → value_eq v v ≡ true
unfolding value_eq
value_eq_self none = refl
value_eq_self (some s) = text_eq_self s

pub event_eq_self : (e : Event) → event_eq e e ≡ true
unfolding event_eq
event_eq_self e = ground (
  arith,
  value_eq_self e.job,
  value_eq_self e.repo,
  value_eq_self e.commit,
  value_eq_self e.run_id,
  value_eq_self e.run_attempt,
  value_eq_self e.job_id,
  value_eq_self e.result,
)

-- A look into a table that an UPDATE by identifier has changed.
pub find-update_runner :
    (i j : ℕ) (f : Runner → Runner) (runners : List Runner)
    → ((r : Runner) → (f r).runner_id ≡ r.runner_id)
    → find_first (is_row j) (update_runner i f runners) ≡ (elim (find_first (is_row j) runners) [
      | none ↦ none
      | some r ↦ some (if i == j then f r else r)
    ])
find-update_runner i j f [] same = refl
find-update_runner i j f (r ∷ runners) same =
    ground (arith, find-update_runner i j f runners same, same r)

find-last :
    (host i : ℕ) (rows : List JobRow) (row : JobRow)
    → find_first (is_event host i) rows ≡ none
    → is_event host i row ≡ true
    → find_first (is_event host i) (rows ++ row ∷ []) ≡ some row
find-last host i [] row h g = ground arith
find-last host i (r ∷ rows) row h g = ground (arith, find-last host i rows row)

module _ (received stamped host : ℕ) (event : Event) where
  -- What an event that is recorded found, and what it left.
  pub recorded-found :
      (n : ℕ) (db db' : Database)
      → apply received stamped host event db ≡ (recorded n, db')
      → (row : Runner) × (find_runner event.runner_id db.runners ≡ some row)
        × (hosted_by host row ≡ true)
        × (find_first (is_event host event.event_id) db.rows ≡ none)
        × (n ≡ suc db.last_sequence)
        × (db' ≡ stored received stamped host event row db)
  unfolding apply
  recorded-found n db db' h = elim (Option-cases (find_runner event.runner_id db.runners)) [
    | inl e ↦ absurd (ground arith)
    | inr (row, e) ↦ elim (Option-cases (find_first (is_event host event.event_id) db.rows)) [
      | inr (previous, p) ↦ absurd (ground arith)
      | inl p ↦ (row, e, ground arith, p, ground arith, ground arith)
    ]
  ]

  -- An event that was recorded and is delivered again by the same worker, whenever that is, is
  -- answered as a duplicate and changes nothing.
  pub apply_again :
      (received' stamped' n : ℕ) (db db' : Database)
      → apply received stamped host event db ≡ (recorded n, db')
      → apply received' stamped' host event db' ≡ (duplicate, db')
  unfolding apply find_runner
  apply_again received' stamped' n db db' h =
      let (row, found, hosted, new, next, left) = recorded-found n db db' h in
      rw left (
        ground (
          arith,
          found,
          hosted,
          find-update_runner event.runner_id event.runner_id (told event received stamped row)
              db.runners,
          find-last host event.event_id db.rows (new_row received host event row db) new,
          event_eq_self event,
        ))
