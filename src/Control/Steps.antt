-- ===== src/Control/Steps.antt =====
-- The steps `_do_provision` to `_do_cancel_drain` of dashboard/control/reconciler.py. Each writes the
-- transitional state before it calls the executor, and the resting state after.
use nomercy_github_runner.Prelude.{ℕ, Bool, true, false, Option, none, some, if◌then◌else◌, ◌==◌}
use nomercy_github_runner.States.Names.{
  State, Verb, state_eq, planned, provisioning, provisioned, registering, idle, starting, stopping,
  stopped, draining, drained,
}
use nomercy_github_runner.Specs.{Spec}
use nomercy_github_runner.Operations.Table.{Operation, Progress, default_deadline_seconds}
use nomercy_github_runner.Reconciler.Decide.{Phase}
use nomercy_github_runner.Control.World.{
  Action, Done, Held, pure, ◌>>◌, try_else, when, report_line, record_call, did, ◌>>=◌,
}
use nomercy_github_runner.Control.Stores.{look, update_row, merge_op, open_row}
use nomercy_github_runner.Control.Outside.{Outside, Built, Registered}
use nomercy_github_runner.Control.Moves.{
  move, unchanged, fail_step, attempt_step, advance, close_if_fulfilled, hold,
}

-- The words before the text of an error: one for each place that names its step.
abbrev pub wording : Verb → ℕ
wording Verb.provision = 1
wording Verb.register = 2
wording Verb.start = 3
wording Verb.stop = 4
wording Verb.drain = 5
wording Verb.cancel_drain = 6
wording Verb.deregister = 7
wording Verb.remove = 8
wording Verb.recreate = 9
wording Verb.clear_cache = 17
wording _ = 0

abbrev pub with_settings : ℕ → Spec → Spec
with_settings settings s = record s { settings = settings }

abbrev pub with_operation : ℕ → Spec → Spec
with_operation i s = record s { current_operation = some i }

abbrev pub placed_on : ℕ → Spec → Spec
placed_on host s = record s { host_id = some host }

abbrev pub registered_as : Option ℕ → Option ℕ → Spec → Spec
registered_as rid uuid s = record s { registration_id = rid; registration_uuid = uuid }

abbrev pub built_as : Built → Option ℕ → Spec → Spec
built_as b host s = record s {
  exec_unit_ref = b.exec_unit_ref;
  host_id = elim b.host_id [ none ↦ host | some h ↦ some h ];
}

abbrev pub noted_as : Registered → Spec → Spec
noted_as r s = record s {
  registration_id = r.registration_id;
  registration_uuid = r.registration_uuid;
  last_note = r.drift;
}

abbrev pub no_rollback : Progress → Progress
no_rollback p = record p { rollback_held = false; rollback_retry_preflight = false }

-- `_recorder`, for one column and for the two of a registration
unfoldable pub record_host : Spec → ℕ → Action Bool
record_host s host = do
  current ← look s.runner_id
  update_row s.runner_id current.spec_version (placed_on host)

unfoldable pub record_registration : Spec → Option ℕ → Option ℕ → Action Bool
record_registration s rid uuid = do
  current ← look s.runner_id
  update_row s.runner_id current.spec_version (registered_as rid uuid)

-- The first move of a step; a re-drive stays put.
unfoldable pub enter : Spec → State → Action Spec
enter s to = if state_eq s.actual_state to then pure s else move s to unchanged

module _ (o : Outside) where
  abbrev pub open_provision : Spec → Option Operation → Action (Operation × Spec)
  open_provision s (some op) = pure (op, s)
  open_provision s none = do
    new_id ← o.new_id
    now ← o.now
    found ← open_row new_id now (record {
      verb = Verb.provision;
      runner_id = some s.runner_id;
      fleet_id = none;
      key = none;
      deadline_seconds = default_deadline_seconds;
    })
    update_row s.runner_id s.spec_version (with_operation found.0.operation_id)
    fresh ← look s.runner_id
    pure (found.0, fresh)

  abbrev pub after_provision : Spec → Operation → Built → Action Done
  after_provision s op built = do
    merge_op op.operation_id no_rollback
    fresh ← look s.runner_id
    move fresh provisioned (built_as built fresh.host_id)
    report_line (did Verb.provision s.runner_id)

  -- `_provision`
  unfoldable pub provision_unit : Spec → Option Operation → Action Done
  provision_unit s given = do
    opened ← open_provision s given
    attempt_step o (some opened.0) Verb.provision
    entered ← enter opened.1 provisioning
    try_else (record_call Verb.provision opened.1 >> o.provision entered (record_host entered))
        (after_provision entered opened.0)
        (λ e. fail_step o entered (some opened.0) e (wording Verb.provision))

  abbrev pub place : Spec → (Spec → Action (Option ℕ)) → Action Bool
  place s placement = do
    host ← placement s
    elim host [ none ↦ (hold s Held.not_placed >> pure false) | some h ↦ pure true ]

  -- The look for a host, before a planned runner with none is provisioned.
  unfoldable pub is_placed : Spec → Action Bool
  is_placed s =
      if state_eq s.actual_state planned
      then (elim s.host_id [
        | some h ↦ pure true
        | none ↦ elim o.placement [ none ↦ pure true | some placement ↦ place s placement ]
      ])
      else pure true

  -- `_do_provision`
  unfoldable pub do_provision : Spec → Option Operation → Action Done
  unfolding is_placed provision_unit
  do_provision s op = do
    settings ← o.effective_settings s
    spec ←
        if settings == s.settings
        then pure s
        else (update_row s.runner_id s.spec_version (with_settings settings) >> look s.runner_id)
    placed ← is_placed spec
    when placed (provision_unit spec op)

  abbrev pub after_register : Spec → Option Operation → Registered → Action Done
  after_register s op r = do
    fresh ← look s.runner_id
    serving ← move fresh idle (noted_as r)
    report_line (did Verb.register s.runner_id)
    close_if_fulfilled o serving op
    pure tt

  unfoldable pub do_register : Spec → Option Operation → Action Done
  do_register s op = do
    attempt_step o op Verb.register
    entered ← move s registering unchanged
    try_else (record_call Verb.register s >> o.register entered (record_registration entered))
        (after_register entered op) (λ e. fail_step o entered op e (wording Verb.register))

  unfoldable pub do_start : Spec → Option Operation → Action Done
  do_start s op = do
    attempt_step o op Verb.start
    entered ← enter s starting
    try_else (record_call Verb.start s >> o.start entered)
        (λ u. do
          move entered idle unchanged
          advance op Phase.started
          report_line (did Verb.start entered.runner_id))
        (λ e. fail_step o entered op e (wording Verb.start))

  unfoldable pub do_stop : Spec → Option Operation → Action Done
  do_stop s op = do
    attempt_step o op Verb.stop
    entered ← enter s stopping
    try_else (record_call Verb.stop s >> o.stop entered)
        (λ u. do
          rested ← move entered stopped unchanged
          advance op Phase.stopped
          report_line (did Verb.stop rested.runner_id)
          close_if_fulfilled o rested op
          pure tt)
        (λ e. fail_step o entered op e (wording Verb.stop))

  abbrev pub begin_drain : Spec → Option Operation → Action Spec
  begin_drain s op =
      if state_eq s.actual_state draining
      then pure s
      else (attempt_step o op Verb.drain >> move s draining unchanged)

  unfoldable pub do_drain : Spec → Option Operation → Action Done
  do_drain s op = do
    entered ← begin_drain s op
    try_else (record_call Verb.drain s >> o.drain entered)
        (λ finished. do
          when finished (move entered drained unchanged >> pure tt)
          report_line (did Verb.drain entered.runner_id))
        (λ e. fail_step o entered op e (wording Verb.drain))

  unfoldable pub do_cancel_drain : Spec → Option Operation → Action Done
  do_cancel_drain s op = do
    attempt_step o op Verb.cancel_drain
    try_else (record_call Verb.cancel_drain s >> o.cancel_drain s)
        (λ u. do move s idle unchanged; report_line (did Verb.cancel_drain s.runner_id))
        (λ e. fail_step o s op e (wording Verb.cancel_drain))
