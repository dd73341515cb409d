-- ===== src/Tests/Passes.antt =====
-- Instances of the theorems on the reconciler.
use nomercy_github_runner.Prelude.{
  ℕ, ◌+◌, ◌<◌, true, false, ◌≡◌, List, [], ◌∷◌, refl, Option, none, some, length, count_if, All,
  sort_by,
}
use nomercy_github_runner.States.Names.{State, Verb, in_states}
use nomercy_github_runner.States.Edges.{aborts_a_job}
use nomercy_github_runner.States.Asking.{allows}
use nomercy_github_runner.Specs.{Spec}
use nomercy_github_runner.Reconciler.Decide.{Desired, View, decide, serving}
use nomercy_github_runner.Reconciler.Decide.Safety.{permits, decide_never_aborts, can-entry}
use nomercy_github_runner.Reconciler.Steps.{first_move, last_move, entry, Closing, passes}
use nomercy_github_runner.Reconciler.Decide.Convergence.{
  resting, asked, passes-absent, passes-running, asked_succeeds,
}
use nomercy_github_runner.Reconciler.Lease.{
  Lease, acquire, performs, acquires, renews, releases, lease_exclusive,
}
use nomercy_github_runner.Reconciler.Capacity.{Fleet, goes_before, converge_capacity}
use nomercy_github_runner.Reconciler.Capacity.Counts.{
  keepers, plan_never_overshoots, scale_down_exact, is_of,
}

abbrev working : View
working = record {
  actual = State.busy;
  desired = Desired.absent;
  has_error = false;
  drain_first = false;
}

decided : decide working (some Verb.recreate) [] ≡ some Verb.drain
unfolding decide
decided = refl

decide_never_aborts_example : aborts_a_job Verb.drain State.busy ≡ false
decide_never_aborts_example = decide_never_aborts working (some Verb.recreate) [] Verb.drain decided

can-entry_example :
    (permits State.busy (first_move Verb.drain State.busy) ≡ true)
    × (permits (entry Verb.drain State.busy) (last_move Verb.drain true) ≡ true)
can-entry_example = can-entry working (some Verb.recreate) [] Verb.drain true decided

passes-absent_example :
    (passes 5 (resting State.provisioning Desired.absent true false)).view.actual ≡ State.absent
passes-absent_example = passes-absent State.provisioning true false (λ e. cc)

passes-running_example :
    in_states (passes 4 (resting State.removing Desired.running false false)).view.actual serving
    ≡ true
passes-running_example = passes-running State.removing false refl

asked_succeeds_example :
    ((passes 11 (asked Verb.recreate State.busy Desired.stopped true false)).outcome
      ≡ Closing.succeeds)
    × ((passes 11 (asked Verb.recreate State.busy Desired.stopped true false)).verb ≡ none)
asked_succeeds_example =
    asked_succeeds Verb.recreate State.busy Desired.stopped true false (unfold allows in refl)

abbrev mine : Option Lease
mine = some (record { holder = 1; expires_at = 220 })

got_it : acquire 1 100 120 none ≡ (mine, true)
unfolding acquire
got_it = refl

lease_exclusive_example :
    performs (acquires 2 150 120 ∷ renews 3 160 ∷ releases 2 170 ∷ acquires 2 220 120 ∷ []) mine
    ≡ (mine, false)
lease_exclusive_example =
    lease_exclusive 1 100 120 none mine
      (acquires 2 150 120 ∷ renews 3 160 ∷ releases 2 170 ∷ acquires 2 220 120 ∷ []) got_it refl

abbrev runner : ℕ → State → Desired → ℕ → Spec
runner i s d created = record {
  runner_id = i;
  fleet_id = some 7;
  host_id = none;
  provider = 0;
  desired_state = d;
  actual_state = s;
  spec_version = 1;
  created_at = created;
  current_operation = none;
  last_error = none;
  exec_unit_ref = none;
  registration_id = none;
  registration_uuid = none;
  forge_seen_at = none;
  forge_event = none;
  drain_first = false;
  deleted_at = none;
  last_note = none;
  settings = 0;
  forge_state = none;
  forge_labels = none;
  forge_labels_at = none;
}

abbrev fleet_of : ℕ → Fleet
fleet_of n = record { fleet_id = 7; desired_capacity = n; available = true }

abbrev two : List Spec
two = runner 1 State.idle Desired.running 10 ∷ runner 2 State.removing Desired.absent 20 ∷ []

plan_never_overshoots_example : (count_if (is_of 7) two + 1 ≡ 3) × (0 < 1) × (true ≡ true)
unfolding converge_capacity
plan_never_overshoots_example = plan_never_overshoots (fleet_of 3) two 1 refl

abbrev three : List Spec
three =
    runner 1 State.busy Desired.running 10
    ∷ runner 2 State.planned Desired.running 20
    ∷ runner 3 State.idle Desired.running 5
    ∷ []

abbrev marked : List Spec
marked = runner 2 State.planned Desired.running 20 ∷ runner 3 State.idle Desired.running 5 ∷ []

scale_down_exact_example :
    (kept : List Spec) × (length kept ≡ 1)
    × (count_if (λ s. true) marked + count_if (λ s. true) kept
        ≡ count_if (λ s. true) (keepers 7 three))
    × All (λ v. All (λ k. goes_before k v ≡ false) kept) marked
unfolding converge_capacity sort_by goes_before
scale_down_exact_example = scale_down_exact (fleet_of 1) three marked (λ s. true) refl
