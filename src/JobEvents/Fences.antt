-- ===== src/JobEvents/Fences.antt =====
-- What an event may change of the runner's row.
use nomercy_github_runner.Prelude.{
  ap, ◌∙◌, sym, ==_iff, ℕ, ◌≡◌, refl, true, false, some, arith, ◌⊎◌, inl, inr, Option-cases,
  Bool-cases, ◌==◌, find_first,
}
use nomercy_github_runner.States.Edges.{can}
use nomercy_github_runner.JobEvents.Event.{Event, is_finished, is_forge}
use nomercy_github_runner.JobEvents.Order.{display_newer, same_execution}
use nomercy_github_runner.JobEvents.Tables.{Database, Runner, find_runner, is_event}
use nomercy_github_runner.JobEvents.Apply.{apply, is_authoritative, previous_forge, stored, told}
use nomercy_github_runner.JobEvents.Once.{find-update_runner}

module _ (received stamped host : ℕ) (event : Event) where
  -- An event that is refused or a duplicate leaves the tables as they are.
  pub apply-cases :
      (db : Database)
      → ((apply received stamped host event db).1 ≡ db)
        ⊎ ((row : Runner) × (find_runner event.runner_id db.runners ≡ some row)
            × ((apply received stamped host event db).1
                ≡ stored received stamped host event row db))
  unfolding apply
  apply-cases db = elim (Option-cases (find_runner event.runner_id db.runners)) [
    | inl e ↦ ground arith
    | inr (row, e) ↦ elim (Option-cases (find_first (is_event host event.event_id) db.rows)) [
      | inr (previous, p) ↦ ground arith
      | inl p ↦ ground arith
    ]
  ]

  told_id : (row r : Runner) → (told event received stamped row r).runner_id ≡ r.runner_id
  told_id row r = ground arith

  -- The state that the forge reports is a step between idle and busy, or none.
  told-can :
      (r : Runner)
      → ((told event received stamped r r).actual_state ≡ r.actual_state)
        ⊎ (can (some r.actual_state) (told event received stamped r r).actual_state ≡ true)
  unfolding can
  told-can r = ground arith

  -- Without authority, the states stay.
  told_unheard :
      (r : Runner)
      → is_authoritative event r.telemetry ≡ false
      → ((told event received stamped r r).actual_state ≡ r.actual_state)
        × ((told event received stamped r r).forge_state ≡ r.forge_state)
        × ((told event received stamped r r).forge_seen_at ≡ r.forge_seen_at)
        × ((told event received stamped r r).telemetry.forge_job_event
            ≡ r.telemetry.forge_job_event)
  told_unheard r h =
      rw h
        (elim (Bool-cases
          (display_newer event r.telemetry.job_event received r.telemetry.job_event_received_at)) [
            | inl shows ↦ rw shows (refl, refl, refl, refl)
            | inr hides ↦ rw hides (refl, refl, refl, refl)
          ])

  -- A runner's row after an event: as it was, or as its own event told it.
  row_after :
      (j : ℕ) (r : Runner) (db : Database)
      → find_runner j db.runners ≡ some r
      → (find_runner j (apply received stamped host event db).1.runners ≡ some r)
        ⊎ ((event.runner_id ≡ j)
            × (find_runner j (apply received stamped host event db).1.runners
                ≡ some (told event received stamped r r)))
  unfolding find_runner
  row_after j r db h = elim (apply-cases db) [
    | inl same ↦ inl (ap (λ (d : Database). find_runner j d.runners) same ∙ h)
    | inr (row, found, left) ↦
        let looked =
          find-update_runner event.runner_id j (told event received stamped row) db.runners
            (told_id row) in
        elim (Bool-cases (event.runner_id == j)) [
          | inr other ↦ inl (rw left (ground (arith, looked)))
          | inl own ↦
              let at : event.runner_id ≡ j = (==_iff event.runner_id j).0 own in
              let e : some row ≡ some r = sym found ∙ ap (λ k. find_runner k db.runners) at ∙ h in
              inr (at, rw left (ground (arith, looked)))
        ]
  ]

  -- Whatever the event, the actual state of any runner, its own or another, stays or takes an edge
  -- of the machine.
  pub can-apply :
      (j : ℕ) (r : Runner) (db : Database)
      → find_runner j db.runners ≡ some r
      → (r' : Runner) × (find_runner j (apply received stamped host event db).1.runners ≡ some r')
        × ((r'.actual_state ≡ r.actual_state) ⊎ (can (some r.actual_state) r'.actual_state ≡ true))
  can-apply j r db h = elim (row_after j r db h) [
    | inl same ↦ (r, same, inl refl)
    | inr (own, e) ↦ (told event received stamped r r, e, told-can r)
  ]

  -- An event that is not a forge's changes, of any runner, neither the actual state nor what the
  -- forge last showed, nor when.
  pub worker_keeps_states :
      (j : ℕ) (r : Runner) (db : Database)
      → find_runner j db.runners ≡ some r
      → is_forge event ≡ false
      → (r' : Runner) × (find_runner j (apply received stamped host event db).1.runners ≡ some r')
        × (r'.actual_state ≡ r.actual_state)
        × (r'.forge_state ≡ r.forge_state)
        × (r'.forge_seen_at ≡ r.forge_seen_at)
        × (r'.telemetry.forge_job_event ≡ r.telemetry.forge_job_event)
  worker_keeps_states j r db h w = elim (row_after j r db h) [
    | inl same ↦ (r, same, refl, refl, refl, refl)
    | inr (own, e) ↦
        let (a, f, seen, kept) = told_unheard r (rw w refl) in
        (told event received stamped r r, e, a, f, seen, kept)
  ]

  -- A `started` that arrives after the forge said that the same execution finished moves nothing:
  -- what the forge last said, its state and the actual state of the runner stay.
  pub late_start :
      (r : Runner) (p : Event) (db : Database)
      → find_runner event.runner_id db.runners ≡ some r
      → previous_forge r.telemetry ≡ some p
      → is_finished p ≡ true
      → same_execution event p ≡ true
      → is_finished event ≡ false
      → (r' : Runner) × (find_runner event.runner_id
            (apply received stamped host event db).1.runners
          ≡ some r')
        × (r'.actual_state ≡ r.actual_state)
        × (r'.forge_state ≡ r.forge_state)
        × (r'.telemetry.forge_job_event ≡ r.telemetry.forge_job_event)
  late_start r p db h before done same start = elim (row_after event.runner_id r db h) [
    | inl kept ↦ (r, kept, refl, refl, refl)
    | inr (own, e) ↦
        let no : is_authoritative event r.telemetry ≡ false =
          ground (arith, before, done, same, start) in
        let (a, f, seen, kept) = told_unheard r no in
        (told event received stamped r r, e, a, f, kept)
  ]
