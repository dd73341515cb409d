-- ===== src/Tests/Loop.antt =====
-- The control loop on a fleet of one runner, with an executor that does what it is asked.
use nomercy_github_runner.Prelude.{
  ℕ, ◌≡◌, ◌≤◌, refl, Bool, true, false, Option, none, some, [], ◌∷◌, subst, map, sort_by, all, not,
  ◌||◌,
}
use mathlib.Core.Option.{some_inj}
use nomercy_github_runner.States.Edges.{aborts_a_job}
use nomercy_github_runner.States.Asking.{allows}
use nomercy_github_runner.States.Names.{State, Verb, idle, busy, stopped, in_states}
use nomercy_github_runner.Specs.{Spec, SpecError, get_spec, list_specs, update}
use nomercy_github_runner.Reconciler.Decide.{Desired, decide, serving}
use nomercy_github_runner.Operations.Table.{Table, by_key, Operation, op_eq, running, get}
use nomercy_github_runner.Operations.Open.{open_op, opened}
use nomercy_github_runner.Operations.Audit.{no_operations}
use nomercy_github_runner.Control.World.{
  World, Action, pure, ok, raised, refused, Refusal, of_spec, ◌>>◌, Moved,
}
use nomercy_github_runner.Control.Outside.{Outside}
use nomercy_github_runner.Control.Lawful.{Lawful}
use nomercy_github_runner.Control.Evolves.{near, AllMoves, AllSafe, distinct}
use nomercy_github_runner.Control.Rules.{Keeps, Keeps-pure, Sound-next}
use nomercy_github_runner.Control.Request.{act, schedule, request, admit, asked_for}
use nomercy_github_runner.Control.Pass.{pass_once, sweep, sweep_all, converge_all, step_all}
use nomercy_github_runner.Control.Step.{step, step_with, step_on, drop_finished}
use nomercy_github_runner.Control.Locks.{
  carry_out, passes_preflight, look_again, is_quiescent, take, queue_cache_budget,
}
use nomercy_github_runner.Control.Turns.{
  is_over_budget, recreate_turn, waits, asked_earlier, active_recreates, first_asked,
}
use nomercy_github_runner.Control.Steps.{
  do_provision, provision_unit, is_placed, do_register, enter, record_host, record_registration,
}
use nomercy_github_runner.Control.Moves.{
  move, attempt_step, advance, close_if_fulfilled, clear_operation, worker_accepts,
}
use nomercy_github_runner.Control.Stores.{
  look, update_row, on_table, attempt_op, succeed_op, merge_op, open_row, progress_op, operation_of,
  look_op, siblings_in, open_of, siblings_of, rewritten,
}
use nomercy_github_runner.Operations.Methods.{overdue, attempt, merge_progress, progress, close}
use nomercy_github_runner.Reconciler.Steps.{closing}
use nomercy_github_runner.Control.Observe.{do_observe}
use nomercy_github_runner.Control.Alone.{recreate_turn_alone, of_recreate}
use nomercy_github_runner.Control.Runs.{
  Turns, rest, passed, asked, turns_follow_machine, turns_abort_nothing,
}
use nomercy_github_runner.Control.Answers.{act_refused, act_repeated, with_audit}
use nomercy_github_runner.Control.Lost.{schedule_stale}

abbrev obedient : Outside
obedient = record {
  observe = λ s. pure none;
  observe_fresh = λ s. pure none;
  placement = some (λ s. pure (some 3));
  provision = λ s write. write 3 >> pure (record { exec_unit_ref = some 11; host_id = some 3 });
  register = λ s write.
      write (some 12) none
      >> pure (record { registration_id = some 12; registration_uuid = none; drift = none });
  abandon = λ s. pure (record { removed_unit = true; deregistered = true; text = 0 });
  start = λ s. pure tt;
  stop = λ s. pure tt;
  drain = λ s. pure true;
  cancel_drain = λ s. pure tt;
  deregister = λ s. pure tt;
  remove = λ s keep_storage. pure tt;
  clear_cache = λ s. pure none;
  quiescent = some (λ s. pure true);
  captured = λ i. pure none;
  forge_reading = λ i. pure (record { word = none; labels = none; sampled = none });
  effective_settings = λ s. pure s.settings;
  replacement_settings = λ s. pure s.settings;
  validate_replacement = λ s. pure tt;
  forget_adoption = λ s. pure tt;
  cache_budget = λ s. record {
    native = false;
    enabled = false;
    max_bytes = none;
    cache_bytes = none;
    cache_at = none;
  };
  budget_key = λ i at. i;
  accepts = λ host. pure true;
  invalidate_cache = λ i. pure tt;
  maintenance = pure false;
  lease_lost = pure false;
  fleets = pure [];
  plan = λ fleet missing. pure tt;
  now = pure 100;
  new_id = pure 1;
  text_of = λ e. 0;
  prefixed = λ step text. step;
}

-- The two parts that an executor may lack.
places-Lawful :
    (p : Spec → Action (Option ℕ)) → obedient.placement ≡ some p → (s : Spec) → Keeps [] (p s)
places-Lawful p e s =
    subst (λ (q : Spec → Action (Option ℕ)). Keeps [] (q s)) (some_inj.0 e) (Keeps-pure (some 3))

looks-Lawful : (q : Spec → Action Bool) → obedient.quiescent ≡ some q → (s : Spec) → Keeps [] (q s)
looks-Lawful q e s =
    subst (λ (p : Spec → Action Bool). Keeps [] (p s)) (some_inj.0 e) (Keeps-pure true)

obedient-Lawful : Lawful obedient
obedient-Lawful = record {
  observe = λ s. Keeps-pure none;
  observe_fresh = λ s. Keeps-pure none;
  placement = places-Lawful;
  provision = λ Γ s write h. Sound-next (h 3) (λ b. Keeps-pure _);
  register = λ Γ s write h. Sound-next (h (some 12) none) (λ b. Keeps-pure _);
  abandon = λ s. Keeps-pure _;
  start = λ s. Keeps-pure tt;
  stop = λ s. Keeps-pure tt;
  drain = λ s. Keeps-pure true;
  cancel_drain = λ s. Keeps-pure tt;
  deregister = λ s. Keeps-pure tt;
  remove = λ s keep_storage. Keeps-pure tt;
  clear_cache = λ s. Keeps-pure none;
  quiescent = looks-Lawful;
  captured = λ i. Keeps-pure none;
  forge_reading = λ i. Keeps-pure _;
  effective_settings = λ s. Keeps-pure s.settings;
  replacement_settings = λ s. Keeps-pure s.settings;
  validate_replacement = λ s. Keeps-pure tt;
  forget_adoption = λ s. Keeps-pure tt;
  accepts = λ host. Keeps-pure true;
  invalidate_cache = λ i. Keeps-pure tt;
  maintenance = Keeps-pure false;
  lease_lost = Keeps-pure false;
  fleets = Keeps-pure [];
  plan = λ fleet missing. Keeps-pure tt;
  now = Keeps-pure 100;
  new_id = Keeps-pure 1;
}

abbrev runner : State → ℕ → Spec
runner s v = record {
  runner_id = 4;
  fleet_id = some 7;
  host_id = some 3;
  provider = 0;
  desired_state = Desired.running;
  actual_state = s;
  spec_version = v;
  created_at = 10;
  current_operation = none;
  last_error = none;
  exec_unit_ref = some 11;
  registration_id = some 12;
  registration_uuid = none;
  forge_seen_at = none;
  forge_event = none;
  drain_first = false;
  deleted_at = none;
  last_note = none;
  settings = 0;
  forge_state = none;
  forge_labels = none;
  forge_labels_at = none;
}

abbrev world : Spec → Table → World
world s t = record { specs = s ∷ []; table = t; calls = []; moves = []; report = []; audit = [] }

abbrev before : World
before = world (runner idle 3) no_operations

abbrev after : World
after = (pass_once obedient (act obedient 4 Verb.stop (some 9) before).1).1

stop_and_pass : Turns obedient before after
stop_and_pass = passed (asked 4 Verb.stop (some 9) rest)

abbrev one_pass : World → World
one_pass w = (pass_once obedient w).1

abbrev planned_runner : Spec
planned_runner = record (runner State.planned 1) {
  host_id = none;
  exec_unit_ref = none;
  registration_id = none;
}

abbrev created : World
created = one_pass (one_pass (one_pass (world planned_runner no_operations)))

-- Three passes bring a planned runner into service, and each write of its state is on record.
created_in_three :
    (map (λ (s : Spec). s.actual_state) created.specs ≡ idle ∷ [])
    × (map (λ (m : Moved). m.to) created.moves
        ≡ idle ∷ State.registering ∷ State.provisioned ∷ State.provisioning ∷ [])
unfolding pass_once sweep sweep_all converge_all step_all step step_with step_on drop_finished
    carry_out passes_preflight look_again is_quiescent take queue_cache_budget is_over_budget
    do_provision provision_unit is_placed do_register enter record_host record_registration move
    attempt_step advance close_if_fulfilled clear_operation worker_accepts look update_row on_table
    attempt_op succeed_op merge_op open_row progress_op operation_of look_op overdue sort_by
    list_specs decide aborts_a_job open_op update attempt merge_progress closing progress close
    do_observe
created_in_three = (refl, refl)

turns_follow_machine_example :
    AllMoves after.moves
    × ((s' : Spec) × (get_spec 4 after.specs ≡ some s')
        × (3 ≤ s'.spec_version)
        × (s'.spec_version ≡ 3 → near idle s'.actual_state ≡ true))
unfolding distinct get_spec
turns_follow_machine_example =
    turns_follow_machine obedient before after 4 (runner idle 3) obedient-Lawful refl stop_and_pass
      tt refl

turns_abort_nothing_example : AllSafe after.calls
unfolding distinct
turns_abort_nothing_example =
    turns_abort_nothing obedient before after obedient-Lawful refl stop_and_pass tt

act_refused_example : act obedient 4 Verb.stop none (world (runner busy 3) no_operations) ≡ (
  raised (refused Refusal.would_abort),
  with_audit Verb.stop 4 false (world (runner busy 3) no_operations),
)
unfolding get_spec aborts_a_job allows
act_refused_example =
    act_refused obedient (world (runner busy 3) no_operations) 4 Verb.stop none (runner busy 3)
      false Refusal.would_abort refl refl refl refl refl

abbrev asked_once : Table
asked_once = record {
  rows = opened 1 100 (request Verb.stop 4 (some 9)) ∷ [];
  audit = [];
  audit_takes = λ i. true;
}

-- The stop is asked of an idle runner, and again when it has stopped.
act_repeated_example :
    (act obedient 4 Verb.stop (some 9) (world (runner idle 3) no_operations) ≡ (
      ok 1,
      with_audit Verb.stop 4 true (
          rewritten
            (update 4 3 (asked_for Verb.stop 1) (runner idle 3 ∷ [])).1
            (world (runner idle 3) asked_once)),
    ))
    × (act obedient 4 Verb.stop (some 9) (world (runner stopped 5) asked_once)
        ≡ (ok 1, with_audit Verb.stop 4 true (world (runner stopped 5) asked_once)))
unfolding get_spec by_key open_op admit operation_of aborts_a_job allows
act_repeated_example =
    act_repeated obedient (world (runner idle 3) no_operations)
      (world (runner stopped 5) asked_once) Verb.stop 9 1 100 (runner idle 3) (runner stopped 5)
      (opened 1 100 (request Verb.stop 4 (some 9))) asked_once refl refl refl refl refl refl refl
      refl refl refl

schedule_stale_example :
    (schedule obedient (runner idle 3) Verb.stop (some 9) (world (runner idle 4) no_operations)
      ≡ (raised (of_spec (SpecError.stale 4 3 4)), world (runner idle 4) asked_once))
    × (by_key 9 asked_once ≡ some (opened 1 100 (request Verb.stop 4 (some 9))))
unfolding get_spec open_op
schedule_stale_example =
    schedule_stale obedient (world (runner idle 4) no_operations) (runner idle 3) (runner idle 4)
      Verb.stop 9 1 100 (opened 1 100 (request Verb.stop 4 (some 9))) asked_once refl refl refl refl
      refl refl

abbrev rebuilt_runner : ℕ → ℕ → Spec
rebuilt_runner i op = record (runner idle 3) { runner_id = i; current_operation = some op }

abbrev first_asked_for : Operation
first_asked_for = opened 1 100 (request Verb.recreate 4 none)

abbrev two_recreates : World
two_recreates = record {
  specs = rebuilt_runner 4 1 ∷ rebuilt_runner 5 2 ∷ [];
  table = record {
    rows = first_asked_for ∷ opened 2 120 (request Verb.recreate 5 none) ∷ [];
    audit = [];
    audit_takes = λ i. true;
  };
  calls = [];
  moves = [];
  report = [];
  audit = [];
}

recreate_turn_alone_example :
    let siblings = siblings_in (rebuilt_runner 4 1) two_recreates in
    (all (λ x. in_states x.actual_state serving || waits (open_of two_recreates.table x)) siblings
      ≡ true)
    × (all
          (λ x. of_recreate (λ b. not (op_eq b.state running)) (open_of two_recreates.table x))
          siblings
        ≡ true)
    × (all
          (λ x.
            of_recreate
              (λ b. not (asked_earlier b first_asked_for))
              (open_of two_recreates.table x))
          siblings
        ≡ true)
unfolding recreate_turn active_recreates operation_of siblings_of first_asked list_specs sort_by get
recreate_turn_alone_example =
    recreate_turn_alone obedient (rebuilt_runner 4 1) first_asked_for two_recreates refl refl refl
