-- ===== src/Reconciler/Capacity.antt =====
-- `_converge_capacity` and `_close_capacity_operations` of dashboard/control/reconciler.py: what one
-- pass does about the number of a fleet's runners.
pub mod Counts
use nomercy_github_runner.Prelude.{
  ℕ, ◌-◌, Bool, false, not, ◌&&◌, ◌||◌, none, some, List, length, take, all, keep, sort_by, ltb,
  ◌==◌, if◌then◌else◌,
}
use nomercy_github_runner.States.Names.{State, in_states, state_eq}
use nomercy_github_runner.States.Edges.{live}
use nomercy_github_runner.Reconciler.Decide.{Desired, desired_eq}
use nomercy_github_runner.Specs.{Spec}

pub record Fleet : Type 0 where
  pub fleet_id : ℕ
  pub desired_capacity : ℕ
  pub available : Bool

-- What the pass does: plan the missing runners, mark the victims as meant to be absent, close the
-- capacity operations that are met, or nothing.
pub data Action : Type 0 where
  plan : ℕ → Action
  scale_down : List Spec → Action
  converged : Action
  wait : Action

-- VICTIM_ORDER, as the rank of a state; a state that is not listed comes last.
abbrev pub rank : State → ℕ
rank State.planned = 0
rank State.failed = 1
rank State.stopped = 2
rank State.drained = 3
rank State.idle = 4
rank State.provisioning = 5
rank State.provisioned = 6
rank State.registering = 7
rank State.starting = 8
rank State.stopping = 9
rank State.draining = 10
rank State.busy = 11
rank _ = 99

-- The order of the keys (rank, created_at).
unfoldable pub goes_before : Spec → Spec → Bool
goes_before a b =
    ltb (rank a.actual_state) (rank b.actual_state)
    || (rank a.actual_state == rank b.actual_state && ltb a.created_at b.created_at)

abbrev pub is_present : ℕ → Spec → Bool
is_present fleet s =
    (elim s.fleet_id [ none ↦ false | some f ↦ f == fleet ])
    && not (state_eq s.actual_state State.absent)

-- `_fleet_specs`
unfoldable pub fleet_specs : ℕ → List Spec → List Spec
fleet_specs fleet specs = keep (is_present fleet) specs

abbrev pub is_keeper : Spec → Bool
is_keeper s = not (desired_eq s.desired_state Desired.absent)

abbrev pub is_live : Spec → Bool
is_live s = in_states s.actual_state live

-- The part on runners present in excess, or meant to stay and all serving.
abbrev shrink : ℕ → List Spec → Action
shrink desired keepers =
    if ltb desired (length keepers)
    then scale_down (take (length keepers - desired) (sort_by goes_before keepers))
    else if all is_live keepers
    then converged
    else wait

-- The victims are the first of the keepers in the order of their keys; `sorted` is stable.
unfoldable pub converge_capacity : Fleet → List Spec → Action
unfolding fleet_specs
converge_capacity fleet specs =
    let present = fleet_specs fleet.fleet_id specs in
    if ltb (length present) fleet.desired_capacity && fleet.available
    then plan (fleet.desired_capacity - length present)
    else shrink fleet.desired_capacity (keep is_keeper present)
