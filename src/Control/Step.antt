-- ===== src/Control/Step.antt =====
-- `_step` of dashboard/control/reconciler.py: one runner in one pass.
use nomercy_github_runner.Prelude.{
  ℕ, Bool, true, false, not, Option, none, some, [], ◌∷◌, is_some, ◌&&◌, ◌||◌, if◌then◌else◌,
}
use nomercy_github_runner.States.Names.{
  State, Verb, in_states, state_eq, verb_eq, removing, deregistering, provisioning,
}
use nomercy_github_runner.Specs.{Spec}
use nomercy_github_runner.Operations.Table.{Operation, Progress, is_closed, no_progress}
use nomercy_github_runner.Reconciler.Decide.{View, Desired, desired_eq, decide, serving}
use nomercy_github_runner.Control.World.{Action, Done, Held, pure, ◌>>=◌, ◌>>◌, try_else, when}
use nomercy_github_runner.Control.Stores.{look, look_op, operation_of, progress_op, fail_op}
use nomercy_github_runner.Control.Outside.{Outside}
use nomercy_github_runner.Control.Moves.{
  move, unchanged, fail_step, clear_operation, close_if_fulfilled, hold,
}
use nomercy_github_runner.Control.Turns.{recreate_turn, cache_turn}
use nomercy_github_runner.Control.Request.{act}
use nomercy_github_runner.Control.Locks.{carry_out, queue_cache_budget}

abbrev pub view_of : Spec → View
view_of s = record {
  actual = s.actual_state;
  desired = s.desired_state;
  has_error = is_some s.last_error;
  drain_first = s.drain_first;
}

abbrev pub verb_of : Option Operation → Option Verb
verb_of none = none
verb_of (some op) = some op.verb

-- The words before a text, and the text of a refusal that the loop writes itself.
abbrev pub recreate_resume : ℕ
recreate_resume = 12

abbrev pub clear_skipped : ℕ
clear_skipped = 15

abbrev pub is_over : Option Operation → Bool
is_over none = false
is_over (some op) = is_closed op.state

module _ (o : Outside) where
  -- A spec that still points at an operation that is over.
  unfoldable pub drop_finished : Spec → Option Operation → Action Spec
  drop_finished s (some op) = pure s
  drop_finished s none = elim s.current_operation [
    | none ↦ pure s
    | some i ↦ do
      finished ← look_op i
      if is_over finished then (clear_operation o s >> look s.runner_id) else pure s
  ]

  abbrev pub is_interrupted : Spec → Option Operation → Bool
  is_interrupted s op =
      not (is_some op)
      && (in_states s.actual_state (removing ∷ deregistering ∷ [])
          && not (desired_eq s.desired_state Desired.absent))

  -- A rebuild that was interrupted: none when the step ends here.
  unfoldable pub resume_recreate : Spec → Action (Option (Spec × Option Operation))
  resume_recreate s =
      if is_some s.last_error
      then (hold s Held.failed_recreate >> pure none)
      else try_else (act o s.runner_id Verb.recreate none)
          (λ id. do fresh ← look s.runner_id; op ← operation_of fresh; pure (some (fresh, op)))
          (λ e. fail_step o s none e recreate_resume >> pure none)

  abbrev pub has_turn : Spec → Option Operation → Action Bool
  has_turn s none = pure true
  has_turn s (some op) =
      if verb_eq op.verb Verb.recreate
      then recreate_turn o s op
      else if verb_eq op.verb Verb.clear_cache
      then cache_turn s op
      else pure true

  abbrev pub progress_of_step : Option Operation → Action Progress
  progress_of_step none = pure no_progress
  progress_of_step (some op) = progress_op op.operation_id

  abbrev pub seen_by : Spec → Action (Option State)
  seen_by s = try_else (o.observe_fresh s) pure (λ e. pure none)

  abbrev pub follow_seen : Spec → Option State → Action Spec
  follow_seen s none = pure s
  follow_seen s (some seen) =
      if in_states seen serving && not (state_eq seen s.actual_state)
      then move s seen unchanged
      else pure s

  abbrev pub is_seen_idle : Option State → Bool
  is_seen_idle none = false
  is_seen_idle (some seen) = state_eq seen State.idle

  -- The fresh look before a cache clear; none when the clear is skipped.
  unfoldable pub confirm_idle : Spec → Operation → Action (Option Spec)
  confirm_idle s op = do
    seen ← seen_by s
    spec ← follow_seen s seen
    if is_seen_idle seen || spec.drain_first then pure (some spec) else (do
      now ← o.now
      fail_op now op.operation_id clear_skipped
      clear_operation o spec
      hold spec Held.not_confirmed_idle
      pure none)

  abbrev pub confirmed : Spec → Option Operation → Action (Option Spec)
  confirmed s none = pure (some s)
  confirmed s (some op) =
      if verb_eq op.verb Verb.clear_cache && in_states s.actual_state serving
      then confirm_idle s op
      else pure (some s)

  abbrev pub is_held_back : Progress → Spec → Bool
  is_held_back p s =
      p.rollback_held && (not p.rollback_retry_preflight && state_eq s.actual_state provisioning)

  abbrev pub decided : Spec → Option Operation → Progress → Action Done
  decided s op p = elim (decide (view_of s) (verb_of op) p.done) [
    | none ↦ queue_cache_budget o s
    | some action ↦ carry_out o s op action
  ]

  -- The part after the operation was looked at: what it has done, and the decision.
  unfoldable pub step_on : Spec → Option Operation → Action Done
  unfolding confirm_idle carry_out queue_cache_budget
  step_on s op = do
    p ← progress_of_step op
    if is_held_back p s then hold s Held.rollback else (do
      ready ← confirmed s op
      elim ready [ none ↦ pure tt | some spec ↦ decided spec op p ])

  -- The part on the operation: its turn, and its end.
  unfoldable pub step_with : Spec → Option Operation → Action Done
  unfolding step_on
  step_with s op = do
    turn ← has_turn s op
    when turn (do
      over ← close_if_fulfilled o s op
      if over then (look s.runner_id >>= λ fresh. step_on fresh none) else step_on s op)

  abbrev pub step_resumed : Option (Spec × Option Operation) → Action Done
  step_resumed none = pure tt
  step_resumed (some (s, op)) = step_with s op

  -- `_step`
  unfoldable pub step : Spec → Action Done
  unfolding drop_finished resume_recreate step_with
  step given = do
    op ← operation_of given
    s ← drop_finished given op
    if is_interrupted s op then (resume_recreate s >>= step_resumed) else step_with s op
