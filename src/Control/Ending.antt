-- ===== src/Control/Ending.antt =====
-- The steps that end or mend a runner, `_do_withdraw` to `_do_clear_cache` of
-- dashboard/control/reconciler.py.
use nomercy_github_runner.Prelude.{
  ℕ, Bool, true, not, Option, none, some, [], ◌∷◌, is_some, if◌then◌else◌,
}
use nomercy_github_runner.States.Names.{
  Verb, in_states, state_eq, provisioning, idle, drained, deregistering, removing, absent, failed,
}
use nomercy_github_runner.Specs.{Spec}
use nomercy_github_runner.Operations.Table.{Operation}
use nomercy_github_runner.Reconciler.Decide.{Phase, Desired, desired_eq}
use nomercy_github_runner.Control.World.{
  Action, Done, pure, raise, ◌>>◌, try_else, report_line, record_call, did, failure, no_row, ◌>>=◌,
}
use nomercy_github_runner.Control.Stores.{look, update_row, fail_op, succeed_op}
use nomercy_github_runner.Control.Outside.{Outside}
use nomercy_github_runner.Control.Moves.{
  move, unchanged, fail_step, attempt_step, advance, finish, clear_operation,
}
use nomercy_github_runner.Control.Steps.{wording, with_settings, registered_as, enter}

abbrev pub deregister_before_remove : ℕ
deregister_before_remove = 10

-- The text of a clear that found its runner at work, and the words for one that was refused.
abbrev pub busy_at_clear : ℕ
busy_at_clear = 18

abbrev pub replacement_after_removal : ℕ
replacement_after_removal = 11

abbrev pub no_registration : Spec → Spec
no_registration s = registered_as none none s

abbrev pub rebuilt : Spec → Spec
rebuilt s = record (no_registration s) { exec_unit_ref = none }

abbrev pub no_error : Spec → Spec
no_error s = record s { last_error = none }

abbrev pub is_registered : Spec → Bool
is_registered s = if is_some s.registration_id then true else is_some s.registration_uuid

abbrev pub recreating : Spec → Bool
recreating s = not (desired_eq s.desired_state Desired.absent)

module _ (o : Outside) where
  unfoldable pub do_withdraw : Spec → Option Operation → Action Done
  do_withdraw s op = do
    move s absent unchanged
    finish o s op
    report_line (did Verb.withdraw s.runner_id)

  unfoldable pub do_deregister : Spec → Option Operation → Action Done
  do_deregister s op = do
    attempt_step o op Verb.deregister
    entered ← enter s deregistering
    try_else (record_call Verb.deregister s >> o.deregister entered)
        (λ u. do
          move entered removing no_registration
          report_line (did Verb.deregister entered.runner_id))
        (λ e. fail_step o entered op e (wording Verb.deregister))

  -- The record that a failed runner may still have goes first: false if it cannot.
  unfoldable pub drop_registration : Spec → Option Operation → Action (Option Spec)
  drop_registration s op =
      if is_registered s
      then (do
        attempt_step o op Verb.deregister
        try_else (record_call Verb.deregister s >> o.deregister s)
            (λ u. do
              fresh ← update_row s.runner_id s.spec_version no_registration >> look s.runner_id
              pure (some fresh))
            (λ e. fail_step o s op e deregister_before_remove >> pure none))
      else pure (some s)

  -- The unit is gone and its storage kept: back to provisioning with the fleet's settings.
  abbrev pub rebuild : Spec → Option Operation → Action Done
  rebuild s op = do
    o.forget_adoption s
    spec ← look s.runner_id
    try_else (o.replacement_settings spec)
        (λ settings. do
          update_row spec.runner_id spec.spec_version (with_settings settings)
          fresh ← look spec.runner_id
          move fresh provisioning rebuilt
          advance op Phase.rebuilding
          report_line (did Verb.remove fresh.runner_id))
        (λ e. fail_step o spec op e replacement_after_removal)

  abbrev pub remove_for_good : Spec → Option Operation → Action Done
  remove_for_good s op = do
    gone ← move s absent unchanged
    finish o gone op
    report_line (did Verb.remove gone.runner_id)

  unfoldable pub remove_unit : Option Operation → Spec → Action Done
  remove_unit op s = do
    entered ← if state_eq s.actual_state failed then move s removing unchanged else pure s
    attempt_step o op Verb.remove
    try_else (record_call Verb.remove s >> o.remove entered (recreating entered))
        (λ u. if recreating entered then rebuild entered op else remove_for_good entered op)
        (λ e. fail_step o entered op e (wording Verb.remove))

  unfoldable pub do_remove : Spec → Option Operation → Action Done
  unfolding drop_registration remove_unit
  do_remove s op = do
    kept ← drop_registration s op
    elim kept [ none ↦ pure tt | some spec ↦ remove_unit op spec ]

  unfoldable pub do_repair : Spec → Option Operation → Action Done
  do_repair s op = do
    attempt_step o op Verb.repair
    move s provisioning no_error
    report_line (did Verb.repair s.runner_id)

  -- A cache clear is over, one way or the other.
  abbrev pub clear_of : Spec → Operation → Action Done
  clear_of s op =
      if in_states s.actual_state (idle ∷ drained ∷ [])
      then (do
        attempt_step o (some op) Verb.clear_cache
        try_else (record_call Verb.clear_cache s >> o.clear_cache s)
            (λ freed. do
              now ← o.now
              succeed_op now op.operation_id freed
              o.invalidate_cache s.runner_id
              clear_operation o s
              report_line (did Verb.clear_cache s.runner_id))
            (λ e. do
              now ← o.now
              fail_op now op.operation_id (o.prefixed (wording Verb.clear_cache) (o.text_of e))
              clear_operation o s
              report_line (failure s.runner_id (o.text_of e))))
      else (do
        now ← o.now
        fail_op now op.operation_id busy_at_clear
        clear_operation o s
        report_line (failure s.runner_id busy_at_clear))

  -- `decide` takes this step for an operation only; without one, Python raises a TypeError.
  unfoldable pub do_clear_cache : Spec → Option Operation → Action Done
  do_clear_cache s none = raise no_row
  do_clear_cache s (some op) = clear_of s op
