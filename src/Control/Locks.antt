-- ===== src/Control/Locks.antt =====
-- The locks of `_step` in dashboard/control/reconciler.py, between the decision and the step, and
-- `_queue_cache_budget`.
use nomercy_github_runner.Prelude.{
  ℕ, Bool, true, false, not, Option, none, some, [], ◌∷◌, ◌&&◌, ◌||◌, if◌then◌else◌,
}
use nomercy_github_runner.States.Names.{Verb, state_eq, verb_eq, in_verbs, drained}
use nomercy_github_runner.States.Edges.{aborts_a_job}
use nomercy_github_runner.Specs.{Spec}
use nomercy_github_runner.Operations.Table.{Operation}
use nomercy_github_runner.Reconciler.Decide.{destructive, needs_healthy_worker}
use nomercy_github_runner.Control.World.{
  Action, Done, Held, pure, raise, ◌>>=◌, ◌>>◌, try_else, when, report_line, record_call,
  cache_budget, quiesced, no_row,
}
use nomercy_github_runner.Control.Stores.{look}
use nomercy_github_runner.Control.Outside.{Outside}
use nomercy_github_runner.Control.Moves.{fail_step, attempt_step, worker_accepts, hold}
use nomercy_github_runner.Control.Steps.{
  do_provision, do_register, do_start, do_stop, do_drain, do_cancel_drain,
}
use nomercy_github_runner.Control.Ending.{
  do_withdraw, do_deregister, do_remove, do_repair, do_clear_cache,
}
use nomercy_github_runner.Control.Observe.{do_observe}
use nomercy_github_runner.Control.Turns.{is_over_budget, is_verb_of}
use nomercy_github_runner.Control.Request.{act}

abbrev pub replacement_preflight : ℕ
replacement_preflight = 13

abbrev pub quiesce_before : ℕ
quiesce_before = 14

module _ (o : Outside) where
  -- `_queue_cache_budget`
  unfoldable pub queue_cache_budget : Spec → Action Done
  queue_cache_budget s = do
    now ← o.now
    when (is_over_budget now (o.cache_budget s) s) (do
      act o s.runner_id Verb.clear_cache
          (some (o.budget_key s.runner_id (o.cache_budget s).cache_at))
      report_line (cache_budget s.runner_id))

  -- Whether a replacement passes its preflight.
  unfoldable pub passes_preflight : Spec → Option Operation → Verb → Action Bool
  passes_preflight s op action =
      if is_verb_of Verb.recreate op && in_verbs action (Verb.deregister ∷ Verb.remove ∷ [])
      then try_else (o.validate_replacement s) (λ u. pure true)
          (λ e. fail_step o s op e replacement_preflight >> pure false)
      else pure true

  -- The last look at a drained runner before it is ended: none if it took a job.
  unfoldable pub look_again : Spec → Verb → Action (Option Spec)
  look_again s action =
      if destructive action && state_eq s.actual_state drained
      then (do
        do_observe o s false
        spec ← look s.runner_id
        if aborts_a_job action spec.actual_state
            then (hold spec Held.took_a_job >> pure none)
            else pure (some spec))
      else pure (some s)

  -- Whether the runner is quiet enough for the step; if not, its drain is asked for again.
  abbrev pub quiet_enough : Spec → Option Operation → Verb → Bool → Action Bool
  quiet_enough s op action true = pure true
  quiet_enough s op action false =
      try_else (attempt_step o op action >> (record_call Verb.drain s >> o.drain s))
        (λ u. do hold s Held.may_still_run; report_line (quiesced s.runner_id); pure false)
        (λ e. fail_step o s op e quiesce_before >> pure false)

  unfoldable pub is_quiescent : Spec → Option Operation → Verb → Action Bool
  is_quiescent s op action = elim o.quiescent [
    | none ↦ pure true
    | some quiescent ↦
        if destructive action || verb_eq action Verb.clear_cache
        then (quiescent s >>= quiet_enough s op action)
        else pure true
  ]

  abbrev pub after_observe : Spec → Option Operation → Action Done
  after_observe s (some op) = pure tt
  after_observe s none = look s.runner_id >>= queue_cache_budget

  -- getattr(self, "_do_" + action)
  unfoldable pub take : Verb → Spec → Option Operation → Action Done
  take Verb.provision s op = do_provision o s op
  take Verb.register s op = do_register o s op
  take Verb.start s op = do_start o s op
  take Verb.stop s op = do_stop o s op
  take Verb.drain s op = do_drain o s op
  take Verb.cancel_drain s op = do_cancel_drain o s op
  take Verb.withdraw s op = do_withdraw o s op
  take Verb.deregister s op = do_deregister o s op
  take Verb.remove s op = do_remove o s op
  take Verb.repair s op = do_repair o s op
  take Verb.clear_cache s op = do_clear_cache o s op
  take Verb.observe s op = do_observe o s false >> after_observe s op
  take _ s op = raise no_row

  -- The last two locks, and the step.
  abbrev pub accept : Spec → Option Operation → Verb → Action Done
  accept spec op action = do
    accepted ← if needs_healthy_worker action then worker_accepts o spec else pure true
    if not accepted
        then hold spec Held.worker_not_healthy
        else (do quiet ← is_quiescent spec op action; when quiet (take action spec op))

  abbrev pub accept_seen : Option Spec → Option Operation → Verb → Action Done
  accept_seen none op action = pure tt
  accept_seen (some spec) op action = accept spec op action

  -- From the action that was decided to the step, through the four locks.
  unfoldable pub carry_out : Spec → Option Operation → Verb → Action Done
  unfolding passes_preflight look_again is_quiescent take
  carry_out s op action = do
    fits ← passes_preflight s op action
    when fits (
        if aborts_a_job action s.actual_state
        then hold s Held.would_abort
        else (look_again s action >>= λ again. accept_seen again op action))
