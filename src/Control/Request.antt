-- ===== src/Control/Request.antt =====
-- The requests of dashboard/control/service.py: `act`, `_act`, `_repeat` and `set_desired`. A
-- request validates, opens an operation and writes the runner's row; the loop does the rest.
use nomercy_github_runner.Prelude.{
  ℕ, Bool, true, false, not, Option, none, some, ◌∷◌, is_some, ◌&&◌, ◌||◌, if◌then◌else◌,
}
use nomercy_github_runner.States.Names.{Verb, in_verbs, verb_eq, in_states}
use nomercy_github_runner.States.Edges.{aborts_a_job, at_work}
use nomercy_github_runner.States.Asking.{
  Checked, reads, fleet_verbs, composite, verb_edges, guarded, allows,
}
use nomercy_github_runner.Specs.{Spec, get_spec, option_eq}
use nomercy_github_runner.Operations.Table.{Operation, by_key, default_deadline_seconds}
use nomercy_github_runner.Operations.Open.{Request}
use nomercy_github_runner.Reconciler.Decide.{Desired}
use nomercy_github_runner.Reconciler.Steps.{desired_by_verb}
use nomercy_github_runner.Control.World.{
  Action, Done, Error, Refusal, refused, of_state, pure, raise, or_raise, gets, modify, ◌>>=◌, ◌>>◌,
  try_else, when,
}
use nomercy_github_runner.Control.Stores.{update_row, open_row, operation_of, succeed_op}
use nomercy_github_runner.Control.Outside.{Outside}

-- VERBS
abbrev pub is_verb : Verb → Bool
is_verb v =
    is_some (verb_edges v)
    || (in_verbs v reads
        || (in_verbs v fleet_verbs || (is_some (composite v) || is_some (guarded v))))

-- `_drains_first`
abbrev pub drains_first : Spec → Verb → Bool
drains_first s v = verb_eq v Verb.clear_cache && (in_states s.actual_state at_work && s.drain_first)

abbrev pub refuse_if : Bool → Refusal → Action Done
refuse_if b r = if b then raise (refused r) else pure tt

-- `_spec`
abbrev pub find_spec : ℕ → Action Spec
find_spec i w = or_raise (refused Refusal.unknown_runner) (get_spec i w.specs) w

abbrev pub is_reused : ℕ → Verb → Operation → Bool
is_reused i v op = not (verb_eq op.verb v) || not (option_eq op.runner_id (some i))

abbrev pub repeated : ℕ → Verb → Option Operation → Action (Option Operation)
repeated i v none = pure none
repeated i v (some op) = refuse_if (is_reused i v op) Refusal.key_reused >> pure (some op)

-- `_repeat`
unfoldable pub find_repeat : Option ℕ → ℕ → Verb → Action (Option Operation)
find_repeat none i v = pure none
find_repeat (some key) i v = gets (λ w. by_key key w.table) >>= repeated i v

abbrev pub or_unknown : {A : Type 0} → Checked A → Action A
or_unknown (Checked.ok a) = pure a
or_unknown (Checked.raised e) = raise (of_state e)

-- The tests of `_act` on the state of the runner.
unfoldable pub admit : Spec → Verb → Action Done
admit s v = do
  refuse_if (aborts_a_job v s.actual_state) Refusal.would_abort
  possible ← or_unknown (allows v (some s.actual_state))
  refuse_if (not possible && not (drains_first s v)) Refusal.not_possible
  op ← operation_of s
  refuse_if (is_some op) Refusal.in_flight

abbrev pub asked_for : Verb → ℕ → Spec → Spec
asked_for v i s = record s {
  current_operation = some i;
  desired_state = desired_by_verb v s.desired_state;
}

abbrev pub request : Verb → ℕ → Option ℕ → Request
request v i key = record {
  verb = v;
  runner_id = some i;
  fleet_id = none;
  key = key;
  deadline_seconds = default_deadline_seconds;
}

abbrev pub wanting : Desired → Spec → Spec
wanting d s = record s { desired_state = d }

abbrev pub audit_request : Verb → ℕ → Bool → Action Done
audit_request v i accepted =
    modify
      (λ w. record w { audit = record { verb = v; runner_id = i; accepted = accepted } ∷ w.audit })

-- Refused, UnknownRunner and ValueError; a StaleSpec or an IntegrityError passes unaudited.
abbrev pub is_audited : Error → Bool
is_audited (refused r) = true
is_audited (Error.failed_with f) = true
is_audited (of_state e) = true
is_audited e = false

module _ (o : Outside) where
  -- What follows the tests: the operation, and the row unless the operation was there.
  unfoldable pub schedule : Spec → Verb → Option ℕ → Action ℕ
  schedule s v key = do
    when (verb_eq v Verb.recreate) (o.validate_replacement s)
    new_id ← o.new_id
    now ← o.now
    found ← open_row new_id now (request v s.runner_id key)
    if found.1
        then (do
          update_row s.runner_id s.spec_version (asked_for v found.0.operation_id)
          pure found.0.operation_id)
        else pure found.0.operation_id

  -- `_act`
  unfoldable pub act_on : ℕ → Verb → Option ℕ → Action ℕ
  unfolding find_repeat admit schedule
  act_on i v key = do
    refuse_if (not (is_verb v)) Refusal.unknown_verb
    refuse_if (in_verbs v reads) Refusal.is_read
    refuse_if (in_verbs v fleet_verbs) Refusal.acts_on_a_fleet
    s ← find_spec i
    repeat ← find_repeat key i v
    elim repeat [ some op ↦ pure op.operation_id | none ↦ (admit s v >> schedule s v key) ]

  -- `act`
  unfoldable pub act : ℕ → Verb → Option ℕ → Action ℕ
  unfolding act_on
  act i v key =
      try_else (act_on i v key) (λ id. audit_request v i true >> pure id)
        (λ e. when (is_audited e) (audit_request v i false) >> raise e)

  -- `set_desired`
  unfoldable pub set_desired : ℕ → Desired → Option ℕ → Action ℕ
  set_desired i d key = do
    s ← find_spec i
    new_id ← o.new_id
    now ← o.now
    found ← open_row new_id now (request Verb.other i key)
    if found.1
        then (do
          update_row i s.spec_version (wanting d)
          later ← o.now
          succeed_op later found.0.operation_id (some new_id)
          pure found.0.operation_id)
        else pure found.0.operation_id
