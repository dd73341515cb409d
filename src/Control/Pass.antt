-- ===== src/Control/Pass.antt =====
-- One pass: `_sweep`, `_converge_capacity` with `_close_capacity_operations`, and the body of
-- `pass_once` once it holds the lease (dashboard/control/reconciler.py).
use nomercy_github_runner.Prelude.{
  ℕ, Bool, true, false, not, Option, none, some, List, [], ◌∷◌, keep, take, sort_by, ltb, ◌&&◌,
  ◌||◌, if◌then◌else◌, ◌==◌, any,
}
use nomercy_github_runner.States.Names.{
  State, Verb, in_states, state_eq, verb_eq, provisioning, registering,
}
use nomercy_github_runner.Specs.{Spec, SpecError, get_spec, list_specs, option_eq}
use nomercy_github_runner.Operations.Table.{Operation, Progress, is_closed}
use nomercy_github_runner.Operations.Methods.{overdue}
use nomercy_github_runner.Reconciler.Decide.{Desired}
use nomercy_github_runner.Reconciler.Capacity.{
  Fleet, converge_capacity, plan, scale_down, converged, wait,
}
use nomercy_github_runner.Reconciler.Capacity as Capacity
use nomercy_github_runner.Control.World.{
  Action, Done, Error, Held, Line, pure, gets, ◌>>=◌, ◌>>◌, try_else, when, report_line, of_spec,
  failed_with, failure, swept, scaled_down,
}
use nomercy_github_runner.Control.Stores.{look, update_row, progress_op, succeed_op}
use nomercy_github_runner.Control.Outside.{Outside, Undone}
use nomercy_github_runner.Control.Moves.{fail_step, worker_accepts, hold}
use nomercy_github_runner.Control.Observe.{do_observe}
use nomercy_github_runner.Control.Step.{step}

-- CREATING
abbrev pub creating : List State
creating = provisioning ∷ registering ∷ []

-- `_Abandoned`
abbrev pub abandoned : Undone → Error
abandoned u = failed_with (record {
  text = u.text;
  rollback_held = false;
  retry_preflight = false;
  removed_unit = u.removed_unit;
  deregistered = u.deregistered;
})

abbrev pub interrupted_while : ℕ
interrupted_while = 16

abbrev pub points_at : Operation → Spec → Bool
points_at op s = option_eq s.current_operation (some op.operation_id)

-- Whether a line of the report says that the platform is in maintenance: it is said once.
abbrev pub is_maintenance : Line → Bool
is_maintenance Line.maintenance = true
is_maintenance _ = false

module _ (o : Outside) where
  -- The end of a creation that was interrupted: its compensations, then a failed runner.
  unfoldable pub abandon_creation : Spec → Operation → Action Done
  abandon_creation s op =
      try_else (o.abandon s)
        (λ undone. do fail_step o s (some op) (abandoned undone) 0; report_line (swept s.runner_id))
        (λ e. fail_step o s (some op) e interrupted_while)

  abbrev pub recover : Spec → Action Spec
  recover s =
      if state_eq s.actual_state registering
      then (do_observe o s true >> look s.runner_id)
      else pure s

  abbrev pub sweep_creation : Spec → Operation → Action Done
  sweep_creation s op = do
    accepted ← worker_accepts o s
    if not accepted then hold s Held.worker_not_healthy else (do
      spec ← recover s
      when (in_states spec.actual_state creating) (abandon_creation spec op))

  abbrev pub awaits_preflight : Spec → Progress → Bool
  awaits_preflight s p = state_eq s.actual_state provisioning && p.rollback_retry_preflight

  abbrev pub sweep_runner : Operation → Option Spec → Action Done
  sweep_runner op none = pure tt
  sweep_runner op (some s) =
      when (points_at op s && in_states s.actual_state creating) (do
        p ← progress_op op.operation_id
        when (not (awaits_preflight s p)) (sweep_creation s op))

  abbrev pub sweep_one : Operation → Action Done
  sweep_one op = elim op.runner_id [
    | none ↦ pure tt
    | some i ↦ gets (λ w. get_spec i w.specs) >>= sweep_runner op
  ]

  abbrev pub maintenance_holds : Action Bool
  maintenance_holds = do
    held ← o.maintenance
    said ← gets (λ w. any is_maintenance w.report)
    when (held && not said) (report_line Line.maintenance)
    pure held

  unfoldable pub sweep_all : List Operation → Action Done
  unfolding abandon_creation
  sweep_all [] = pure tt
  sweep_all (op ∷ ops) = do
    held ← maintenance_holds
    when (not held) (sweep_one op >> sweep_all ops)

  -- `_sweep`
  unfoldable pub sweep : Action Done
  unfolding sweep_all
  sweep = do now ← o.now; ops ← gets (λ w. overdue now w.table); sweep_all ops

  unfoldable pub scale_down_all : ℕ → List Spec → Action Done
  scale_down_all fleet [] = pure tt
  scale_down_all fleet (victim ∷ victims) = do
    update_row victim.runner_id victim.spec_version
        (λ s. record s { desired_state = Desired.absent })
    report_line (scaled_down fleet victim.runner_id)
    scale_down_all fleet victims

  abbrev pub is_capacity_of : ℕ → Operation → Bool
  is_capacity_of fleet op =
      option_eq op.fleet_id (some fleet)
      && (verb_eq op.verb Verb.set_capacity && not (is_closed op.state))

  unfoldable pub close_capacity : ℕ → ℕ → List Operation → Action Done
  close_capacity fleet desired [] = pure tt
  close_capacity fleet desired (op ∷ ops) = do
    when (is_capacity_of fleet op) (do
      now ← o.now
      succeed_op now op.operation_id (some desired)
      report_line (Line.converged fleet))
    close_capacity fleet desired ops

  -- operations.list(fleet_id=…): the latest hundred of the fleet.
  abbrev asked_after : Operation → Operation → Bool
  asked_after a b =
      ltb b.requested_at a.requested_at
      || (a.requested_at == b.requested_at && ltb a.operation_id b.operation_id)

  abbrev pub latest_of : ℕ → List Operation → List Operation
  latest_of fleet ops =
      take 100 (sort_by asked_after (keep (λ op. option_eq op.fleet_id (some fleet)) ops))

  abbrev pub carry_capacity : Fleet → Capacity.Action → Action Done
  carry_capacity fleet (plan missing) = do
    o.plan fleet.fleet_id missing
    report_line (Line.planned fleet.fleet_id missing)
  carry_capacity fleet (scale_down victims) = scale_down_all fleet.fleet_id victims
  carry_capacity fleet converged =
      gets (λ w. latest_of fleet.fleet_id w.table.rows)
      >>= close_capacity fleet.fleet_id fleet.desired_capacity
  carry_capacity fleet wait = pure tt

  -- `_converge_capacity`
  unfoldable pub converge_fleet : Fleet → Action Done
  unfolding scale_down_all close_capacity
  converge_fleet fleet =
      gets (λ w. converge_capacity fleet (list_specs w.specs)) >>= carry_capacity fleet

  unfoldable pub converge_all : List Fleet → Action Done
  unfolding converge_fleet
  converge_all [] = pure tt
  converge_all (fleet ∷ fleets) = do
    lost ← o.lease_lost
    held ← if lost then pure true else maintenance_holds
    when (not held) (
        try_else (converge_fleet fleet) pure
          (λ e. report_line (failure fleet.fleet_id (o.text_of e)))
        >> converge_all fleets)

  -- A stale spec is left for the next pass, any other error is reported.
  abbrev pub report_error : Spec → Error → Action Done
  report_error s (of_spec (SpecError.stale i v w)) = hold s Held.changed_mid_pass
  report_error s e = report_line (failure s.runner_id (o.text_of e))

  abbrev pub step_reported : Spec → Action Done
  step_reported s = try_else (step o s) pure (report_error s)

  unfoldable pub step_all : List Spec → Action Done
  step_all [] = pure tt
  step_all (s ∷ specs) = do
    held ← maintenance_holds
    when (not held) (do
      lost ← o.lease_lost
      if lost then report_line Line.lease_lost else (step_reported s >> step_all specs))

  -- `pass_once`, under the lease
  unfoldable pub pass_once : Action Done
  unfolding sweep converge_all step_all
  pass_once = do
    sweep
    fleets ← o.fleets
    converge_all fleets
    specs ← gets (λ w. list_specs w.specs)
    step_all specs
